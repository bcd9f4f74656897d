-- ===== src/Ws/Signals/Configured.antt =====
-- Which nodes a WebSocket session of proxy/ws.rs can be on, with the monitor, the upgrade, the
-- watcher, the channel and the proxy loop together.
use vixy.Prelude.{
  ℕ, ◌≡◌, inl, inr, refl, All, Bool, List, [], ◌∷◌, Option, none, some, Option-cases, Text,
}
use vixy.Config.{Config}
use vixy.State.{AppState, new}
use vixy.Metrics.{MetricCall}
use vixy.Monitor.Phases.{World, Reach}
use vixy.Ws.Json.{Json}
use vixy.Ws.Session.{
  Event, ReconnectInfo, Order, upgraded, el_ws_handler, start, on_event, reconnect, from_client,
  from_upstream, channels_closed,
}
use vixy.Ws.Watch.{health_monitor}
use vixy.Ws.Watch.Moves.{health_monitor-signal}
use vixy.Ws.Signals.{
  Link, Action, tick, take, finish, client, upstream, closed, send, on_tick, on_take, on_finish,
  on_message, act, acts, idle, visible_node,
}
use vixy.Ws.Signals.Nodes.{
  Configured, HasNode, IfAny, IfAny-some, selected-Configured, upgraded-HasNode,
  on_reconnect-HasNode, step-HasNode, on_client-current, on_upstream-current, clean_up-current,
}

module _ (j : Json) (config : Config) where
  -- The watcher chooses a node in a state that the program can reach.
  abbrev pub Sees : Action j → Type 0
  Sees (tick s₀ s₁ s₂) = (w : World) × Reach (new config) w × (s₂ ≡ w.shared)
  Sees _ = Unit

  record Safe (l : Link j) : Type 0 where
    current : HasNode config l.session.current_node
    in_progress : IfAny (Configured config) l.in_progress
    queued : IfAny (Configured config) l.queued
    blocked : IfAny (Configured config) l.blocked

  signal-Configured :
      (s₀ s₁ s₂ : AppState) (name : Text) (info : ReconnectInfo)
      → Sees (tick s₀ s₁ s₂)
      → health_monitor s₀ s₁ s₂ name ≡ some info
      → Configured config info
  signal-Configured s₀ s₁ s₂ name info (w, r, same) e =
      let (_, _, n, _, named, chosen) = health_monitor-signal s₀ s₁ s₂ name info e in
      rw named (selected-Configured config s₁.el_failover_active n r (rw (← same) chosen))

  on_message-Safe :
      (l : Link j) (e : Event j)
      → Safe l
      → (on_event j l.session e).current_node ≡ l.session.current_node
      → Safe (on_message j e l)
  unfolding on_message
  on_message-Safe l e safe same = elim (Option-cases l.in_progress) [
    | inr (info, f) ↦ rw (f, on_message) safe
    | inl f ↦
        rw (f, on_message)
          (record {
            current = step-HasNode j config l.session e safe.current (rw same safe.current);
            in_progress = safe.in_progress;
            queued = safe.queued;
            blocked = safe.blocked;
          })
  ]

  on_take-Safe : (l : Link j) → Safe l → Safe (on_take j l)
  unfolding on_take
  on_take-Safe l safe = elim (Option-cases l.in_progress) [
    | inr (info, f) ↦ rw (f, on_take) safe
    | inl f ↦
        rw (f, on_take)
          (record {
            current = safe.current;
            in_progress = safe.queued;
            queued = safe.blocked;
            blocked = tt;
          })
  ]

  send-Safe :
      (l : Link j) (info : ReconnectInfo) → Safe l → Configured config info → Safe (send j l info)
  unfolding send
  send-Safe l info safe new_node = elim (Option-cases l.queued) [
    | inr (first, f) ↦
        rw (f, send)
          (record {
            current = safe.current;
            in_progress = safe.in_progress;
            queued = safe.queued;
            blocked = new_node;
          })
    | inl f ↦
        rw (f, send)
          (record {
            current = safe.current;
            in_progress = safe.in_progress;
            queued = new_node;
            blocked = safe.blocked;
          })
  ]

  on_finish-Safe :
      (l : Link j) (order : Order j) (connects : Bool) (accepts : ℕ → Bool)
      → Safe l
      → Safe (on_finish j order connects accepts l)
  unfolding on_finish on_event
  on_finish-Safe l order connects accepts safe = elim (Option-cases l.in_progress) [
    | inl f ↦ rw (f, on_finish) safe
    | inr (info, f) ↦
        let new_node : Configured config info =
          IfAny-some (Configured config) l.in_progress f safe.in_progress in
        rw (f, on_finish)
          (record {
            current =
                step-HasNode j config l.session (reconnect info order connects accepts) safe.current
                  (on_reconnect-HasNode j config l.session info order connects accepts safe.current
                    new_node);
            in_progress = tt;
            queued = safe.queued;
            blocked = safe.blocked;
          })
  ]

  on_tick-Safe :
      (l : Link j) (signal : Option ReconnectInfo)
      → Safe l
      → ((info : ReconnectInfo) → signal ≡ some info → Configured config info)
      → Safe (on_tick j l signal)
  unfolding on_tick
  on_tick-Safe l none safe sees = elim (Option-cases l.blocked) [
    | inl f ↦ rw (f, on_tick) safe
    | inr (waiting, f) ↦ rw (f, on_tick) safe
  ]
  on_tick-Safe l (some info) safe sees = elim (Option-cases l.blocked) [
    | inl f ↦ rw (f, on_tick) (send-Safe l info safe (sees info refl))
    | inr (waiting, f) ↦ rw (f, on_tick) safe
  ]

  act-Safe : (l : Link j) (a : Action j) → Sees a → Safe l → Safe (act j l a)
  unfolding act on_event
  act-Safe l (tick s₀ s₁ s₂) sees safe =
      on_tick-Safe l (health_monitor s₀ s₁ s₂ (visible_node j l)) safe
        (λ info. signal-Configured s₀ s₁ s₂ (visible_node j l) info sees)
  act-Safe l take sees safe = on_take-Safe l safe
  act-Safe l (finish order connects accepts) sees safe =
      on_finish-Safe l order connects accepts safe
  act-Safe l (client accepts m) sees safe =
      on_message-Safe l (from_client accepts m) safe
        (on_client-current j config l.session accepts m)
  act-Safe l (upstream accepts m) sees safe =
      on_message-Safe l (from_upstream accepts m) safe
        (on_upstream-current j config l.session accepts m)
  act-Safe l closed sees safe =
      on_message-Safe l channels_closed safe (clean_up-current j config l.session)

  acts-Safe :
      (l : Link j) (actions : List (Action j)) → All Sees actions → Safe l → Safe (acts j l actions)
  unfolding acts
  acts-Safe l [] sees safe = safe
  acts-Safe l (a ∷ rest) sees safe = acts-Safe (act j l a) rest sees.1 (act-Safe l a sees.0 safe)

  -- Take a session that the handler opened in a state that the program can reach from the
  -- configuration, and any interleaving of rounds of the watcher (which chooses in such states too),
  -- of reconnections and of messages. Then the session is on a node of the configuration, with that
  -- node's name.
  pub acts-configured :
      (early : AppState) {w : World} (calls : List MetricCall) (name url : Text)
      (actions : List (Action j))
      → Reach (new config) w
      → el_ws_handler early w.shared ≡ upgraded name url
      → All Sees actions
      → HasNode config (acts j (idle j (start j calls name)) actions).session.current_node
  acts-configured early {w} calls name url actions r e sees = Safe.current (
      acts-Safe (idle j (start j calls name)) actions sees (record {
        current = upgraded-HasNode config early name url r e;
        in_progress = tt;
        queued = tt;
        blocked = tt;
      }))
