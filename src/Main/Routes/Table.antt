-- ===== src/Main/Routes/Table.antt =====
-- The routes of main.rs against the table of its routes.
use vixy.Prelude.{
  ◌≡◌, sym, ◌∙◌, ◌⊎◌, inl, inr, refl, ap, List, [], ◌∷◌, ◌++◌, Bool, true, false, not, ◌&&◌, Text,
  bytes, text_eq, text_eq_iff, starts_with, starts_with_iff, All, same_test, if◌then◌else◌, arith,
  Bool-cases,
}
use vixy.Main.{Methods, post, get, Route, routes, app}
use vixy.Main.Routes.{
  Axum, AxumLaws, not_found, has_brace, is_get, only, matching, table, at, rest_iff, is_get_iff,
}

-- The same tests as the library's, on the routes of the program.
abbrev test : Text → Text → Bool
test p path =
    if text_eq p (bytes "/cl/{*path}")
    then starts_with (bytes "/cl/") path && not (text_eq path (bytes "/cl/"))
    else text_eq path p

abbrev tested : List Route → Text → List Route
tested [] path = []
tested (r ∷ rs) path = let rest = tested rs path in if test r.path path then r ∷ rest else rest

abbrev takes : Methods → Text → Bool
takes post method = text_eq method (bytes "POST")
takes get method = is_get method
takes Methods.any method = true

-- The table says what the routes that match say.
record Agrees (metrics_here : Bool) (path : Text) : Type 0 where
  agrees :
      ((tested (app metrics_here) path ≡ [])
        × ((method : Text) → table metrics_here method path ≡ not_found))
      ⊎ ((r : Route) × (tested (app metrics_here) path ≡ r ∷ [])
          × ((method : Text)
              → table metrics_here method path ≡ only (takes r.methods method) r.handler))

hit :
    {metrics_here : Bool} {path : Text} {r : Route}
    → tested (app metrics_here) path ≡ r ∷ []
    → ((method : Text) → table metrics_here method path ≡ only (takes r.methods method) r.handler)
    → Agrees metrics_here path
hit {r = r} e f = record { agrees = inr (r, e, f) }

rest-Agrees :
    (metrics_here : Bool) (rest : Text)
    → text_eq (bytes "/cl/" ++ rest) (bytes "/cl/") ≡ false
    → Agrees metrics_here (bytes "/cl/" ++ rest)
unfolding table text_eq starts_with
rest-Agrees metrics_here [] more = absurd (ground (arith, more))
rest-Agrees false (a ∷ t) more = hit refl (λ method. refl)
rest-Agrees true (a ∷ t) more = hit refl (λ method. refl)

below-Agrees :
    (metrics_here : Bool) (path : Text)
    → starts_with (bytes "/cl/") path ≡ true
    → text_eq path (bytes "/cl/") ≡ false
    → Agrees metrics_here path
below-Agrees metrics_here path below more =
    let (rest, e) = (starts_with_iff (bytes "/cl/") path).0 below in
    rw e (rest-Agrees metrics_here rest (rw (← e) more))

each :
    {P : Type 0} (path : Text) (ps : List Text)
    → All (λ p. path ≡ p → P) ps
    → (All (λ p. text_eq path p ≡ false) ps → P)
    → P
each path [] hits misses = misses tt
each path (p ∷ ps) (first, hits) misses =
    at p path first (λ e. each path ps hits (λ es. misses (e, es)))

-- The paths of the routes without captures.
abbrev static_paths : List Text
static_paths =
    bytes "/el"
    ∷ bytes "/el/"
    ∷ bytes "/el/ws"
    ∷ bytes "/el/ws/"
    ∷ bytes "/cl"
    ∷ bytes "/cl/"
    ∷ bytes "/health"
    ∷ bytes "/status"
    ∷ []

without-Agrees : (path : Text) → Agrees false path
unfolding table text_eq starts_with
without-Agrees path =
    each path (static_paths)
      (
        λ e. rw e (hit refl (λ method. refl)),
        (
          λ e. rw e (hit refl (λ method. refl)),
          (
            λ e. rw e (hit refl (λ method. refl)),
            (
              λ e. rw e (hit refl (λ method. refl)),
              (
                λ e. rw e (hit refl (λ method. refl)),
                (
                  λ e. rw e (hit refl (λ method. refl)),
                  (
                    λ e. rw e (hit refl (λ method. refl)),
                    (λ e. rw e (hit refl (λ method. refl)), tt),
                  ),
                ),
              ),
            ),
          ),
        ),
      )
      λ (e1, (e2, (e3, (e4, (e5, (e6, (e7, (e8, _)))))))).
        elim (Bool-cases (starts_with (bytes "/cl/") path)) [
          | inl below ↦ below-Agrees false path below e6
          | inr other ↦ record {
            agrees = rw (e1, e2, e3, e4, e5, e6, e7, e8, other, table) (inl (refl, λ method. refl));
          }
        ]

with-Agrees : (path : Text) → Agrees true path
unfolding table text_eq starts_with
with-Agrees path =
    each path (static_paths ++ bytes "/metrics" ∷ [])
      (
        λ e. rw e (hit refl (λ method. refl)),
        (
          λ e. rw e (hit refl (λ method. refl)),
          (
            λ e. rw e (hit refl (λ method. refl)),
            (
              λ e. rw e (hit refl (λ method. refl)),
              (
                λ e. rw e (hit refl (λ method. refl)),
                (
                  λ e. rw e (hit refl (λ method. refl)),
                  (
                    λ e. rw e (hit refl (λ method. refl)),
                    (
                      λ e. rw e (hit refl (λ method. refl)),
                      (λ e. rw e (hit refl (λ method. refl)), tt),
                    ),
                  ),
                ),
              ),
            ),
          ),
        ),
      )
      λ (e1, (e2, (e3, (e4, (e5, (e6, (e7, (e8, (e9, _))))))))).
        elim (Bool-cases (starts_with (bytes "/cl/") path)) [
          | inl below ↦ below-Agrees true path below e6
          | inr other ↦ record {
            agrees =
                rw (e1, e2, e3, e4, e5, e6, e7, e8, e9, other, table) (inl (refl, λ method. refl));
          }
        ]

agrees_lem : (metrics_here : Bool) (path : Text) → Agrees metrics_here path
agrees_lem false path = without-Agrees path
agrees_lem true path = with-Agrees path

module _ (axum : Axum) (laws : AxumLaws axum) where
  test-matches :
      (p path : Text)
      → (p ≡ bytes "/cl/{*path}") ⊎ (has_brace p ≡ false)
      → axum.matches p path ≡ test p path
  unfolding text_eq
  test-matches p path (inl e) = rw e (
      same_test _ _ (laws.matches-rest (bytes "/cl/") (bytes "path") path refl)
        (rest_iff (bytes "/cl/") path))
  test-matches p path (inr plain) =
      at (bytes "/cl/{*path}") p (λ g. absurd (ground (arith, ap has_brace g, plain)))
        (λ g. rw g (same_test _ _ (laws.matches-static p path plain) (text_eq_iff path p)))

  matching-tested :
      (rs : List Route) (path : Text)
      → All (λ r. (r.path ≡ bytes "/cl/{*path}") ⊎ (has_brace r.path ≡ false)) rs
      → matching axum rs path ≡ tested rs path
  matching-tested [] path h = refl
  matching-tested (r ∷ rs) path (e, h) =
      rw (test-matches r.path path e, matching-tested rs path h) refl

  app-tested :
      (metrics_here : Bool) (path : Text)
      → matching axum (app metrics_here) path ≡ tested (app metrics_here) path
  app-tested false path = matching-tested routes path (
    inr refl,
    (
      inr refl,
      (inr refl, (inr refl, (inr refl, (inr refl, (inl refl, (inr refl, (inr refl, tt))))))),
    ),
  )
  app-tested true path = matching-tested (app true) path (
    inr refl,
    (
      inr refl,
      (
        inr refl,
        (inr refl, (inr refl, (inr refl, (inl refl, (inr refl, (inr refl, (inr refl, tt))))))),
      ),
    ),
  )

  accepts-takes :
      (methods : Methods) (method : Text) → axum.accepts methods method ≡ takes methods method
  accepts-takes post method =
      same_test _ _ (laws.accepts-post method) (text_eq_iff method (bytes "POST"))
  accepts-takes get method = same_test _ _ (laws.accepts-get method) (is_get_iff method)
  accepts-takes Methods.any method = laws.accepts-any method

  -- A router that the library documents makes of every request what the table says: `/el` and
  -- `/el/ws`, with or without a slash behind, `/cl` and everything below, `/health`, `/status`, and
  -- `/metrics` only if the metrics are served here; 404 for any other path, and 405 for another
  -- method.
  pub dispatch-table :
      (metrics_here : Bool) (method path : Text)
      → axum.dispatch (app metrics_here) method path ≡ table metrics_here method path
  dispatch-table metrics_here method path = elim (Agrees.agrees (agrees_lem metrics_here path)) [
    | inl (e, f) ↦
        laws.dispatch-none _ method path (app-tested metrics_here path ∙ e) ∙ sym (f method)
    | inr (r, e, f) ↦
        laws.dispatch-one _ method path r (app-tested metrics_here path ∙ e)
        ∙ rw (accepts-takes r.methods method) (sym (f method))
  ]
