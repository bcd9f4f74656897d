-- ===== src/Ws/Session/Gauge.antt =====
-- The gauge of open connections over the life of a WebSocket connection, in proxy/ws.rs.
use vixy.Prelude.{
  ℕ, ◌≡◌, refl, ap, ◌∙◌, Bool, true, false, List, [], ◌∷◌, ◌++◌, Option, none, some, Text, bytes,
  get, Option-cases, Bool-cases, inl, inr, if◌then◌else◌,
}
use vixy.Metrics.{
  MetricCall, Prometric, PrometricLaws, VixyMetrics, record_call, record_calls,
  inc_ws_subscriptions, dec_ws_subscriptions, inc_ws_messages, inc_ws_reconnection_attempt,
  inc_ws_reconnections, inc_ws_connections, set_ws_upstream_node,
}
use vixy.Monitor.Gauges.{record_calls-append}
use vixy.Ws.Json.{Json}
use vixy.Ws.Messages.{Books, note_subscribe, note_unsubscribe, note_answer}
use vixy.Ws.Session.Invariant.{Maintained, Moves-anywhere, run_loop-Keeps}
use vixy.Ws.Replay.{reconnect_upstream}
use vixy.Ws.Session.{
  Session, Event, ReconnectInfo, Order, on_reconnect, run_proxy_loop, start, finish,
  handle_websocket, reconnected, not_reconnected,
}

module _ (j : Json) (p : Prometric) (m : VixyMetrics p) (g : p.Gauge) where
  open j use {Value}

  abbrev connections : List MetricCall → p.Gauge
  connections calls = (record_calls p calls m).ws_connections

  -- The gauge stands at `g` after the calls so far.
  abbrev Stands : Books j → Type 0
  Stands b = connections b.calls ≡ g

  -- Calls that leave the gauge alone.
  abbrev Quiet : List MetricCall → Type 0
  Quiet calls = (n : VixyMetrics p) → (record_calls p calls n).ws_connections ≡ n.ws_connections

  more :
      (calls new : List MetricCall)
      → Quiet new
      → connections calls ≡ g
      → connections (calls ++ new) ≡ g
  more calls new quiet h =
      ap (λ n. n.ws_connections) (record_calls-append p calls new m) ∙ quiet _ ∙ h

  note_subscribe-Stands :
      (id params : Option Value) (b : Books j) → Stands b → Stands (note_subscribe j id params b)
  unfolding note_subscribe
  note_subscribe-Stands (some id) (some params) b h = h
  note_subscribe-Stands (some id) none b h = h
  note_subscribe-Stands none params b h = h

  note_unsubscribe-Stands :
      (sub_id : Option Text) (b : Books j) → Stands b → Stands (note_unsubscribe j sub_id b)
  unfolding note_unsubscribe record_calls record_call
  note_unsubscribe-Stands none b h = h
  note_unsubscribe-Stands (some c) b h = more b.calls (dec_ws_subscriptions ∷ []) (λ n. refl) h

  note_answer-Stands :
      (id : Value) (sub_id : Text) (b : Books j) → Stands b → Stands (note_answer j id sub_id b)
  unfolding note_answer record_calls record_call
  note_answer-Stands id sub_id b h = elim (Option-cases (get (j.to_string id) b.pending)) [
    | inl e ↦ rw (e, note_answer) h
    | inr (_, e) ↦ rw (e, note_answer) (more b.calls (inc_ws_subscriptions ∷ []) (λ n. refl) h)
  ]

  reconnect-Stands :
      (info : ReconnectInfo) (order : Order j) (connects : Bool) (accepts : ℕ → Bool)
      (s : Session j)
      → Stands s.books
      → Stands (on_reconnect j info order connects accepts s).books
  unfolding on_reconnect reconnected not_reconnected record_calls record_call
  reconnect-Stands info order connects accepts s h =
      elim (Option-cases (reconnect_upstream j order connects accepts s.books.tracker).1) [
        | inl e ↦
            rw (e, on_reconnect)
              (more s.books.calls (inc_ws_reconnection_attempt (bytes "failed") ∷ []) (λ n. refl) h)
        | inr (sent, e) ↦
            rw (e, on_reconnect)
              (more s.books.calls
                (inc_ws_reconnections
                  ∷ inc_ws_reconnection_attempt (bytes "success")
                  ∷ set_ws_upstream_node s.current_node false
                  ∷ set_ws_upstream_node info.node_name true
                  ∷ [])
                (λ n. refl) h)
      ]

  Stands-Maintained : Maintained j (λ info. Unit {0}) (λ node b. Stands b)
  unfolding record_calls record_call
  Stands-Maintained = record {
    messages = λ node. record {
      message = λ b d is. more b.calls (inc_ws_messages d ∷ []) (λ n. refl);
      subscribe = λ b id params. note_subscribe-Stands id params b;
      unsubscribe = λ b sub_id. note_unsubscribe-Stands sub_id b;
      answer = λ b id sub_id. note_answer-Stands id sub_id b;
    };
    reconnects = λ s info order connects accepts a. reconnect-Stands info order connects accepts s;
  }

module _ (j : Json) (p : Prometric) where
  run_proxy_loop-connections :
      (m : VixyMetrics p) (node : Text) (connects : Bool) (events : List (Event j))
      → let s =
          run_proxy_loop j
            (inc_ws_connections ∷ set_ws_upstream_node node true ∷ [])
            node
            connects
            events in
        (record_calls p s.books.calls m).ws_connections ≡ p.gauge_inc m.ws_connections
  unfolding run_proxy_loop record_calls record_call
  run_proxy_loop-connections m node true events =
      run_loop-Keeps j _ _ (Stands-Maintained j p m (p.gauge_inc m.ws_connections)) (start j _ node)
        events (Moves-anywhere j events) refl
  run_proxy_loop-connections m node false events = refl

  finish-connections :
      (law : PrometricLaws p) (m : VixyMetrics p) (order : Order j) (s : Session j)
      → (record_calls p s.books.calls m).ws_connections ≡ p.gauge_inc m.ws_connections
      → (record_calls p (finish j order s).books.calls m).ws_connections ≡ m.ws_connections
  unfolding finish record_calls record_call
  finish-connections law m order s h =
      ap (λ n. n.ws_connections) (record_calls-append p s.books.calls _ m)
      ∙ ap p.gauge_dec h
      ∙ law.dec-inc m.ws_connections

  left-connections :
      (law : PrometricLaws p) (m : VixyMetrics p) (order : Order j) (s : Session j)
      → (record_calls p s.books.calls m).ws_connections ≡ p.gauge_inc m.ws_connections
      → let t = if s.is_open then s else finish j order s in
        (record_calls p t.books.calls m).ws_connections
        ≡ (if t.is_open then p.gauge_inc m.ws_connections else m.ws_connections)
  unfolding finish
  left-connections law m order s h = elim (Bool-cases s.is_open) [
    | inl running ↦ rw running h
    | inr over ↦ rw over (finish-connections law m order s h)
  ]

  -- Over the whole life of a WebSocket connection, whether its first connection to a node succeeds
  -- or not and whatever happens in the loop, the gauge of open connections is one higher while the
  -- loop is open, and as before once it is left.
  pub handle_websocket-connections :
      (law : PrometricLaws p) (m : VixyMetrics p) (order : Order j) (node : Text) (connects : Bool)
      (events : List (Event j))
      → let s = handle_websocket j order node connects events in
        (record_calls p s.books.calls m).ws_connections
        ≡ (if s.is_open then p.gauge_inc m.ws_connections else m.ws_connections)
  unfolding handle_websocket
  handle_websocket-connections law m order node connects events =
      left-connections law m order _ (run_proxy_loop-connections m node connects events)
