-- ===== src/Main/Routes.antt =====
-- Which handler of main.rs answers which request. The router is that of the library `axum`.
pub mod Table
use vixy.Prelude.{
  ◌==◌, ◌≡◌, ◌≢◌, sym, ◌∙◌, ◌↔◌, ◌⊎◌, inl, inr, refl, ap, any, List, [], ◌∷◌, ◌++◌, Bool, true,
  false, not, ◌&&◌, ◌||◌, Text, bytes, text_eq, text_eq_iff, starts_with, starts_with_iff, All,
  same_test, append-nil, if◌then◌else◌, arith, Bool-cases,
}
use vixy.Main.{
  Methods, post, get, Handler, el_proxy_handler, el_ws_handler, cl_proxy_handler, health,
  status_handler, metrics, Route, routes, app,
}

-- What a router makes of a request.
pub data Dispatch : Type 0 where
  handled : Handler → Dispatch
  not_found method_not_allowed : Dispatch

abbrev pub has_brace : Text → Bool
has_brace p = any (λ c. c == b'{') p

-- What the program uses of `axum`: whether a path matches a route's, whether `post`, `get` or `any`
-- takes a method, and what the router makes of a method and a path.
pub record Axum : Type 0 where
  pub matches : Text → Text → Bool
  pub accepts : Methods → Text → Bool
  pub dispatch : List Route → Text → Text → Dispatch

module _ (axum : Axum) where
  open axum use {matches, accepts, dispatch}

  -- The routes of a router that match a path.
  abbrev pub matching : List Route → Text → List Route
  matching [] path = []
  matching (r ∷ rs) path =
      let rest = matching rs path in if matches r.path path then r ∷ rest else rest

  abbrev pub called : Route → Text → Dispatch
  called r method = if accepts r.methods method then handled r.handler else method_not_allowed

  -- What the library documents: a path without captures matches itself, and a capture of the rest
  -- stands for any rest but the empty one; if one route matches, its handler answers the methods
  -- that it takes, and other requests are refused.
  pub record AxumLaws : Type 0 where
    pub matches-static :
        (p path : Text) → has_brace p ≡ false → (matches p path ≡ true) ↔ (path ≡ p)
    pub matches-rest :
        (p name path : Text)
        → has_brace p ≡ false
        → (matches (p ++ (bytes "{*" ++ (name ++ bytes "}"))) path ≡ true)
          ↔ ((rest : Text) × (rest ≢ []) × (path ≡ p ++ rest))
    pub accepts-post : (method : Text) → (accepts post method ≡ true) ↔ (method ≡ bytes "POST")
    pub accepts-get :
        (method : Text)
        → (accepts get method ≡ true) ↔ ((method ≡ bytes "GET") ⊎ (method ≡ bytes "HEAD"))
    pub accepts-any : (method : Text) → accepts Methods.any method ≡ true
    pub dispatch-one :
        (rs : List Route) (method path : Text) (r : Route)
        → matching rs path ≡ r ∷ []
        → dispatch rs method path ≡ called r method
    pub dispatch-none :
        (rs : List Route) (method path : Text)
        → matching rs path ≡ []
        → dispatch rs method path ≡ not_found

abbrev pub is_get : Text → Bool
is_get method = text_eq method (bytes "GET") || text_eq method (bytes "HEAD")

abbrev pub only : Bool → Handler → Dispatch
only allowed h = if allowed then handled h else method_not_allowed

-- Whether the path is `p`, or `p` with a slash behind it.
abbrev pub is_at : Text → Text → Bool
is_at p path = text_eq path p || text_eq path (p ++ bytes "/")

-- The table of the program's routes.
unfoldable pub table : Bool → Text → Text → Dispatch
table metrics_here method path =
    if is_at (bytes "/el") path
    then only (text_eq method (bytes "POST")) el_proxy_handler
    else if is_at (bytes "/el/ws") path
    then only (is_get method) el_ws_handler
    else if text_eq path (bytes "/cl") || starts_with (bytes "/cl/") path
    then handled cl_proxy_handler
    else if text_eq path (bytes "/health")
    then only (is_get method) health
    else if text_eq path (bytes "/status")
    then only (is_get method) status_handler
    else if metrics_here && text_eq path (bytes "/metrics")
    then only (is_get method) metrics
    else not_found

pub at : {P : Type 0} (p path : Text) → (path ≡ p → P) → (text_eq path p ≡ false → P) → P
at p path holds fails = elim (Bool-cases (text_eq path p)) [
  | inl e ↦ holds ((text_eq_iff path p).0 e)
  | inr e ↦ fails e
]

append_cancel : (p rest : Text) → p ++ rest ≡ p → rest ≡ []
append_cancel [] rest e = e
append_cancel (c ∷ p) rest e = append_cancel p rest (ground (arith, e))

-- The paths below a prefix, by the tests of the program.
pub rest_iff :
    (p path : Text)
    → (starts_with p path && not (text_eq path p) ≡ true)
      ↔ ((rest : Text) × (rest ≢ []) × (path ≡ p ++ rest))
rest_iff p path = (to, from)
  where
    to :
        starts_with p path && not (text_eq path p) ≡ true
        → (rest : Text) × (rest ≢ []) × (path ≡ p ++ rest)
    to h =
        let (rest, e) = (starts_with_iff p path).0 (ground (arith, h)) in
        (
          rest,
          λ nil.
              ground (arith, h, (text_eq_iff path p).1 (e ∙ ap (λ r. p ++ r) nil ∙ append-nil p)),
          e,
        )

    from :
        ((rest : Text) × (rest ≢ []) × (path ≡ p ++ rest))
        → starts_with p path && not (text_eq path p) ≡ true
    from (rest, more, e) =
        let f = (starts_with_iff p path).1 (rest, e) in
        at p path (λ g. absurd (more (append_cancel p rest (sym e ∙ g)))) (λ g. rw (f, g) refl)

pub is_get_iff :
    (method : Text) → (is_get method ≡ true) ↔ ((method ≡ bytes "GET") ⊎ (method ≡ bytes "HEAD"))
is_get_iff method =
    ground (arith, text_eq_iff method (bytes "GET"), text_eq_iff method (bytes "HEAD"))
