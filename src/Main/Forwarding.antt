-- ===== src/Main/Forwarding.antt =====
-- What the CL nodes are asked, from the request's path on: the routes of main.rs and
-- `cl_proxy_handler` of proxy/http.rs together.
use vixy.Prelude.{
  ◌≡◌, ◌⊎◌, inl, inr, sym, ap, ◌∙◌, ◌||◌, Bool, true, ◌++◌, Option, Text, bytes, text_eq,
  text_eq_iff, is_empty, starts_with, starts_with_iff, trim_end_matches, if◌then◌else◌, arith,
  Bool-cases,
}
use vixy.Http.{query_text, full_url}
use vixy.Http.Url.{full_url-cl, full_url-bare}
use vixy.Main.{cl_proxy_handler, app}
use vixy.Main.Routes.Table.{dispatch-table}
use vixy.Main.Routes.{Axum, AxumLaws, table, handled}

table-cl :
    (metrics_here : Bool) (method path : Text)
    → table metrics_here method path ≡ handled cl_proxy_handler
    → (text_eq path (bytes "/cl") || starts_with (bytes "/cl/") path) ≡ true
unfolding table
table-cl metrics_here method path e = ground (arith, e)

-- A request that the router gives to the CL handler is one to `/cl`, which goes to the node's root,
-- or one below `/cl/`, which goes to the rest of the path below the node's URL: with one slash
-- between, and to the root if there is no rest or only a slash. The query goes along unchanged.
pub cl_route-full_url :
    (axum : Axum)
    → AxumLaws axum
    → (metrics_here : Bool) (method path base : Text) (query : Option Text)
    → axum.dispatch (app metrics_here) method path ≡ handled cl_proxy_handler
    → let root = trim_end_matches b'/' base in
      ((path ≡ bytes "/cl") × (full_url base path query ≡ root ++ query_text query))
      ⊎ ((rest : Text) × (path ≡ bytes "/cl/" ++ rest)
          × (full_url base path query ≡ (
              if is_empty rest || text_eq rest (bytes "/")
              then root ++ query_text query
              else if starts_with (bytes "/") rest
              then root ++ (rest ++ query_text query)
              else root ++ (bytes "/" ++ (rest ++ query_text query)))))
cl_route-full_url axum laws metrics_here method path base query routed =
    let here =
      table-cl metrics_here method path
        (sym (dispatch-table axum laws metrics_here method path) ∙ routed) in
    elim (Bool-cases (text_eq path (bytes "/cl"))) [
      | inl e ↦
          let bare = (text_eq_iff path (bytes "/cl")).0 e in
          inl (bare, rw bare (full_url-bare base query))
      | inr e ↦
          let (rest, f) = (starts_with_iff (bytes "/cl/") path).0 (ground (arith, here, e)) in
          inr (rest, f, ap (λ p. full_url base p query) f ∙ full_url-cl base rest query)
    ]
