-- ===== src/Ws/Signals/Moving.antt =====
-- The failover of a WebSocket session of proxy/ws.rs, from the health checks to the replay.
use vixy.Prelude.{
  ℕ, ◌+◌, ◌≡◌, refl, ap, inl, inr, All, true, false, List, [], ◌∷◌, ◌++◌, map, none, some,
  Option-cases, Text,
}
use vixy.State.{ElNodeState, AppState}
use vixy.Selection.{select_el_node}
use vixy.Health.Net.{Net}
use vixy.Monitor.{run_health_monitor}
use vixy.Monitor.Cycle.{run_health_monitor-serves}
use vixy.Ws.Json.{Json}
use vixy.Ws.Tracker.{get_all_subscriptions}
use vixy.Ws.Messages.{UpstreamMessage}
use vixy.Ws.Replay.{subscribe_request}
use vixy.Ws.Replay.Complete.{reconnect_upstream_iff}
use vixy.Ws.Session.{
  Session, ReconnectInfo, Order, step, on_event, reconnect, on_reconnect, reconnected,
}
use vixy.Ws.Session.Identity.{step-open}
use vixy.Ws.Watch.{is_node_healthy, health_monitor}
use vixy.Ws.Watch.Moves.{
  Distinct, names, monitor_signals, selected-is_node_healthy, run_health_monitor-names,
}
use vixy.Ws.Signals.{tick, take, finish, send, on_tick, on_take, on_finish, act, acts, idle}

-- A watcher that finds the node healthy sends no signal.
healthy-none :
    (s₀ s₁ s₂ : AppState) (name : Text)
    → is_node_healthy s₀ name ≡ true
    → health_monitor s₀ s₁ s₂ name ≡ none
unfolding health_monitor
healthy-none s₀ s₁ s₂ name well = rw well refl

module _ (j : Json) where
  -- What a session has sent so far, and the requests that replay its subscriptions on the next
  -- connection.
  abbrev pub replayed : Session j → Order j → List (ℕ × UpstreamMessage)
  replayed s order =
      s.to_upstream
      ++ map (λ m. (s.connection + 1, m))
          (map (λ q. UpstreamMessage.text (subscribe_request j q))
            (get_all_subscriptions order s.books.tracker))

  pub reconnect_all :
      (s : Session j) (info : ReconnectInfo) (order : Order j)
      → s.is_open ≡ true
      → let t = step j s (reconnect info order true (λ n. true)) in
        (t.current_node ≡ info.node_name)
        × (t.connection ≡ s.connection + 1)
        × (t.is_open ≡ true)
        × (t.to_client ≡ s.to_client)
        × (t.to_upstream ≡ replayed s order)
  unfolding on_event on_reconnect reconnected
  reconnect_all s info order is_open =
      let sent =
        (reconnect_upstream_iff j order true (λ n. true) s.books.tracker).1 (refl, λ m lt. refl) in
      rw
        (
          step-open j s (reconnect info order true (λ n. true)) is_open,
          on_event,
          sent,
          on_reconnect,
        )
        (refl, refl, is_open, refl, refl)

  round-session :
      (s : Session j) (info : ReconnectInfo) (order : Order j) (t : AppState)
      → health_monitor t t t s.current_node ≡ some info
      → acts j (idle j s) (tick t t t ∷ take ∷ finish order true (λ m. true) ∷ [])
        ≡ idle j (step j s (reconnect info order true (λ m. true)))
  unfolding acts act on_tick send on_take on_finish
  round-session s info order t e = rw e refl

  -- A round of the watcher that finds the node healthy changes nothing.
  tick-idle :
      (s : Session j) (s₀ s₁ s₂ : AppState)
      → is_node_healthy s₀ s.current_node ≡ true
      → act j (idle j s) (tick s₀ s₁ s₂) ≡ idle j s
  unfolding act on_tick
  tick-idle s s₀ s₁ s₂ well =
      ap (λ signal. on_tick j (idle j s) signal) (healthy-none s₀ s₁ s₂ s.current_node well)

  -- Take the state behind at least one health check cycle, and an open session whose node is
  -- unhealthy or unknown there while some EL node is healthy, the nodes' names being distinct. If
  -- the chosen node can be connected to and takes the replay, one round of the watcher moves the
  -- session to the node that the selection picks for EL requests, which is healthy: the session is
  -- open on its next connection, that was sent the replay of all subscriptions, and the client was
  -- sent nothing. The next round of the watcher in that state changes nothing.
  pub watcher-moves :
      (net : Net) (nets : List Net) (s : AppState) (session : Session j) (order : Order j)
      → Distinct (names s.el_nodes)
      → session.is_open ≡ true
      → let t = (run_health_monitor (net ∷ nets) s).0 in
        is_node_healthy t session.current_node ≡ false
        → ¬ All (λ n. n.is_healthy ≡ false) t.el_nodes
        → let round = tick t t t ∷ take ∷ finish order true (λ m. true) ∷ [] in
          let moved = acts j (idle j session) round in
          (n : ElNodeState) × (select_el_node t.el_nodes t.el_failover_active ≡ some n)
          × (is_node_healthy t n.name ≡ true)
          × (moved.session.current_node ≡ n.name)
          × (moved.session.connection ≡ session.connection + 1)
          × (moved.session.is_open ≡ true)
          × (moved.session.to_client ≡ session.to_client)
          × (moved.session.to_upstream ≡ replayed session order)
          × (acts j moved (tick t t t ∷ []) ≡ moved)
  unfolding acts
  watcher-moves net nets s session order d is_open sick some_node =
      let t = (run_health_monitor (net ∷ nets) s).0 in
      let distinct : Distinct (names t.el_nodes) = rw (run_health_monitor-names (net ∷ nets) s) d in
      elim (Option-cases (select_el_node t.el_nodes t.el_failover_active)) [
        | inl e ↦ absurd (some_node ((run_health_monitor-serves net nets s).0 e))
        | inr (n, e) ↦
            let well = selected-is_node_healthy t t.el_failover_active n distinct e in
            let signal = monitor_signals t session.current_node n distinct sick e in
            let info : ReconnectInfo = record { node_name = n.name; ws_url = n.ws_url } in
            let (on_node, next, still, quiet, sent) = reconnect_all session info order is_open in
            let after = step j session (reconnect info order true (λ m. true)) in
            let content = tick-idle after t t t (rw on_node well) in
            rw (round-session session info order t signal)
              (n, e, well, on_node, next, still, quiet, sent, content)
      ]
