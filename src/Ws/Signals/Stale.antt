-- ===== src/Ws/Signals/Stale.antt =====
-- Signals that are late when the proxy loop of proxy/ws.rs takes them.
use vixy.Prelude.{
  ◌+◌, ◌≡◌, refl, sym, ap, ◌∙◌, inl, inr, true, List, [], ◌∷◌, ◌++◌, some, Option-cases, arith,
}
use vixy.State.{AppState}
use vixy.Ws.Json.{Json}
use vixy.Ws.Session.{
  Session, Event, ReconnectInfo, Order, step, run_loop, reconnect, from_client, from_upstream,
  channels_closed,
}
use vixy.Ws.Session.Ending.{run_loop-append}
use vixy.Ws.Watch.{health_monitor}
use vixy.Ws.Signals.Moving.{reconnect_all}
use vixy.Ws.Signals.{
  Link, Action, tick, take, finish, client, upstream, closed, send, on_tick, on_take, on_finish,
  on_message, act, acts, idle,
}

module _ (j : Json) where
  -- Whatever the two tasks do, the session is one that the proxy loop reaches by taking some
  -- events one after the other.
  act-run_loop :
      (l : Link j) (a : Action j)
      → (events : List (Event j)) × ((act j l a).session ≡ run_loop j l.session events)
  unfolding act run_loop
  act-run_loop l (tick s₀ s₁ s₂) = ([], ground arith)
  act-run_loop l take = ([], ground arith)
  act-run_loop l (finish order connects accepts) = elim (Option-cases l.in_progress) [
    | inl e ↦ ([], rw (e, on_finish))
    | inr (info, e) ↦ (reconnect info order connects accepts ∷ [], rw (e, on_finish))
  ]
  act-run_loop l (client accepts m) = elim (Option-cases l.in_progress) [
    | inl e ↦ (from_client accepts m ∷ [], rw (e, on_message))
    | inr (info, e) ↦ ([], rw (e, on_message))
  ]
  act-run_loop l (upstream accepts m) = elim (Option-cases l.in_progress) [
    | inl e ↦ (from_upstream accepts m ∷ [], rw (e, on_message))
    | inr (info, e) ↦ ([], rw (e, on_message))
  ]
  act-run_loop l closed = elim (Option-cases l.in_progress) [
    | inl e ↦ (channels_closed ∷ [], rw (e, on_message))
    | inr (info, e) ↦ ([], rw (e, on_message))
  ]

  -- However the rounds of the watcher, the channel and the messages interleave, the session is one
  -- that the proxy loop reaches from where it was by taking some events one after the other.
  acts-run_loop :
      (l : Link j) (as' : List (Action j))
      → (events : List (Event j)) × ((acts j l as').session ≡ run_loop j l.session events)
  unfolding acts run_loop
  acts-run_loop l [] = ([], refl)
  acts-run_loop l (a ∷ rest) =
      let (first, e) = act-run_loop l a in
      let (later, f) = acts-run_loop (act j l a) rest in
      (
        first ++ later,
        f ∙ ap (λ s. run_loop j s later) e ∙ sym (run_loop-append j l.session first later),
      )

  -- A watcher that finds the node of an open session unhealthy in two rounds, before the loop takes
  -- the first signal, and picks one node in both, leaves the second signal in the channel when the
  -- session has moved to that node; and the loop then takes it, and connects to the node again.
  pub stale_signal :
      (s : Session j) (info : ReconnectInfo) (order : Order j) (s₀ s₁ s₂ t₀ t₁ t₂ : AppState)
      → s.is_open ≡ true
      → health_monitor s₀ s₁ s₂ s.current_node ≡ some info
      → health_monitor t₀ t₁ t₂ s.current_node ≡ some info
      → let moved =
          acts j
            (idle j s)
            (tick s₀ s₁ s₂ ∷ tick t₀ t₁ t₂ ∷ take ∷ finish order true (λ n. true) ∷ []) in
        let again = acts j moved (take ∷ finish order true (λ n. true) ∷ []) in
        (moved.session.current_node ≡ info.node_name)
        × (moved.queued ≡ some info)
        × (again.session.current_node ≡ info.node_name)
        × (again.session.connection ≡ s.connection + 2)
  unfolding acts act on_tick send on_take on_finish
  stale_signal s info order s₀ s₁ s₂ t₀ t₁ t₂ is_open first second =
      let (moved, counted, still, _, _) = reconnect_all j s info order is_open in
      let (again, twice, _, _, _) =
        reconnect_all j (step j s (reconnect info order true (λ n. true))) info order still in
      rw (first, second) (moved, refl, again, twice ∙ omega (arith, counted))
