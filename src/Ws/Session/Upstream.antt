-- ===== src/Ws/Session/Upstream.antt =====
-- The gauge of upstream nodes over the life of a WebSocket connection, in proxy/ws.rs.
use vixy.Prelude.{
  ℕ, ◌≡◌, refl, ap, ◌∙◌, Bool, true, false, ◌&&◌, List, [], ◌∷◌, ◌++◌, Option, none, some, Text,
  bytes, get, text_eq, Option-cases, Bool-cases, inl, inr, if◌then◌else◌,
}
use vixy.Metrics.{
  MetricCall, Prometric, PrometricLaws, VixyMetrics, record_call, record_calls, bit,
  inc_ws_subscriptions, dec_ws_subscriptions, inc_ws_messages, inc_ws_reconnection_attempt,
  inc_ws_reconnections, inc_ws_connections, set_ws_upstream_node,
}
use vixy.Monitor.Gauges.{record_calls-append}
use vixy.Ws.Json.{Json}
use vixy.Ws.Messages.{Books, note_subscribe, note_unsubscribe, note_answer}
use vixy.Ws.Replay.{reconnect_upstream}
use vixy.Ws.Session.{
  Session, Event, ReconnectInfo, Order, on_reconnect, run_proxy_loop, start, finish,
  handle_websocket, reconnected, not_reconnected,
}
use vixy.Ws.Session.Invariant.{Maintained, Moves-anywhere, run_loop-Keeps}

module _ (p : Prometric) (law : PrometricLaws p) where
  two_sets :
      (old new : Bool) (g : p.Gauge)
      → p.read g ≡ bit old
      → let cleared = if old then p.gauge_set 0 g else g in
        p.read (if new then p.gauge_set 1 cleared else cleared) ≡ bit new
  two_sets old true g h = law.read-set 1 _
  two_sets true false g h = law.read-set 0 g
  two_sets false false g h = h

  cleared :
      (b : Bool) (g : p.Gauge)
      → p.read (if b then p.gauge_set 0 g else g) ≡ (if b then 0 else p.read g)
  cleared true g = law.read-set 0 g
  cleared false g = refl

nothing_left : (b : Bool) (r : ℕ) → r ≡ bit b → (if b then 0 else r) ≡ 0
nothing_left true r h = refl
nothing_left false r h = h

module _ (j : Json) (p : Prometric) (law : PrometricLaws p) (m : VixyMetrics p) where
  open j use {Value}

  abbrev family : List MetricCall → Text → p.Gauge
  family calls = (record_calls p calls m).ws_upstream_node

  -- The gauge shows 1 for this node, and 0 for every other.
  abbrev ShowsOnly : Text → Books j → Type 0
  ShowsOnly node b = (n : Text) → p.read (family b.calls n) ≡ bit (text_eq n node)

  -- Calls that leave the family alone.
  more :
      (node : Text) (calls new : List MetricCall)
      → ((k : VixyMetrics p) → (record_calls p new k).ws_upstream_node ≡ k.ws_upstream_node)
      → ((n : Text) → p.read (family calls n) ≡ bit (text_eq n node))
      → (n : Text) → p.read (family (calls ++ new) n) ≡ bit (text_eq n node)
  more node calls new quiet h n =
      ap (λ k. p.read (k.ws_upstream_node n)) (record_calls-append p calls new m)
      ∙ ap (λ f. p.read (f n)) (quiet _)
      ∙ h n

  note_subscribe-ShowsOnly :
      (node : Text) (b : Books j) (id params : Option Value)
      → ShowsOnly node b
      → ShowsOnly node (note_subscribe j id params b)
  unfolding note_subscribe
  note_subscribe-ShowsOnly node b (some id) (some params) h = h
  note_subscribe-ShowsOnly node b (some id) none h = h
  note_subscribe-ShowsOnly node b none params h = h

  note_unsubscribe-ShowsOnly :
      (node : Text) (b : Books j) (sub_id : Option Text)
      → ShowsOnly node b
      → ShowsOnly node (note_unsubscribe j sub_id b)
  unfolding note_unsubscribe record_calls record_call
  note_unsubscribe-ShowsOnly node b none h = h
  note_unsubscribe-ShowsOnly node b (some c) h =
      more node b.calls (dec_ws_subscriptions ∷ []) (λ k. refl) h

  note_answer-ShowsOnly :
      (node : Text) (b : Books j) (id : Value) (sub_id : Text)
      → ShowsOnly node b
      → ShowsOnly node (note_answer j id sub_id b)
  unfolding note_answer record_calls record_call
  note_answer-ShowsOnly node b id sub_id h = elim (Option-cases (get (j.to_string id) b.pending)) [
    | inl e ↦ rw (e, note_answer) h
    | inr (_, e) ↦ rw (e, note_answer) (more node b.calls (inc_ws_subscriptions ∷ []) (λ k. refl) h)
  ]

  -- What a successful reconnection does to the gauge of one node.
  moved :
      (old new n : Text) (calls : List MetricCall)
      → p.read (family calls n) ≡ bit (text_eq n old)
      → p.read (
          family
            (calls
              ++ inc_ws_reconnections
                ∷ inc_ws_reconnection_attempt (bytes "success")
                ∷ set_ws_upstream_node old false
                ∷ set_ws_upstream_node new true
                ∷ [])
            n)
        ≡ bit (text_eq n new)
  unfolding record_calls record_call
  moved old new n calls h =
      ap (λ k. p.read (k.ws_upstream_node n)) (record_calls-append p calls _ m)
      ∙ two_sets p law (text_eq n old) (text_eq n new) _ h

  reconnect-ShowsOnly :
      (s : Session j) (info : ReconnectInfo) (order : Order j) (connects : Bool)
      (accepts : ℕ → Bool)
      → Unit {0}
      → ShowsOnly s.current_node s.books
      → let t = on_reconnect j info order connects accepts s in ShowsOnly t.current_node t.books
  unfolding on_reconnect reconnected not_reconnected record_calls record_call
  reconnect-ShowsOnly s info order connects accepts a h =
      elim (Option-cases (reconnect_upstream j order connects accepts s.books.tracker).1) [
        | inl e ↦
            rw (e, on_reconnect)
              (more s.current_node s.books.calls (inc_ws_reconnection_attempt (bytes "failed") ∷ [])
                (λ k. refl) h)
        | inr (sent, e) ↦
            rw (e, on_reconnect) (λ n. moved s.current_node info.node_name n s.books.calls (h n))
      ]

  ShowsOnly-Maintained : Maintained j (λ info. Unit {0}) ShowsOnly
  unfolding record_calls record_call
  ShowsOnly-Maintained = record {
    messages = λ node. record {
      message = λ b d is. more node b.calls (inc_ws_messages d ∷ []) (λ k. refl);
      subscribe = note_subscribe-ShowsOnly node;
      unsubscribe = note_unsubscribe-ShowsOnly node;
      answer = note_answer-ShowsOnly node;
    };
    reconnects = reconnect-ShowsOnly;
  }

  run_proxy_loop-ShowsOnly :
      (node : Text) (connects : Bool) (events : List (Event j))
      → ((n : Text) → p.read (m.ws_upstream_node n) ≡ 0)
      → let s =
          run_proxy_loop j
            (inc_ws_connections ∷ set_ws_upstream_node node true ∷ [])
            node
            connects
            events in
        ShowsOnly s.current_node s.books
  unfolding run_proxy_loop record_calls record_call
  run_proxy_loop-ShowsOnly node true events unset =
      run_loop-Keeps j _ _ ShowsOnly-Maintained (start j _ node) events (Moves-anywhere j events)
        (λ n. two_sets p law false (text_eq n node) (m.ws_upstream_node n) (unset n))
  run_proxy_loop-ShowsOnly node false events unset =
      λ n. two_sets p law false (text_eq n node) (m.ws_upstream_node n) (unset n)

  -- The metrics behind the loop set the gauge of the node that the connection was on to 0, whatever
  -- it showed; also if another connection is on that node.
  finish-clears :
      (order : Order j) (s : Session j) (n : Text)
      → p.read (family (finish j order s).books.calls n)
        ≡ (if text_eq n s.current_node then 0 else p.read (family s.books.calls n))
  unfolding finish record_calls record_call
  finish-clears order s n =
      ap (λ k. p.read (k.ws_upstream_node n)) (record_calls-append p s.books.calls _ m)
      ∙ cleared p law (text_eq n s.current_node) _

  left-ShowsOnly :
      (order : Order j) (s : Session j)
      → ShowsOnly s.current_node s.books
      → let t = if s.is_open then s else finish j order s in
        (n : Text) → p.read (family t.books.calls n) ≡ bit (t.is_open && text_eq n t.current_node)
  unfolding finish
  left-ShowsOnly order s h = elim (Bool-cases s.is_open) [
    | inl running ↦ rw running h
    | inr over ↦
        λ n. rw over (finish-clears order s n ∙ nothing_left (text_eq n s.current_node) _ (h n))
  ]

  -- If the gauge showed 0 for every node before, then at any time of a WebSocket connection, whether
  -- its first connection to a node succeeds or not and whatever happens in the loop, it shows 1 for
  -- the node that the session is on while the loop is open, and 0 for every other; and 0 for all
  -- once the loop is left.
  pub handle_websocket-upstream_node :
      (order : Order j) (node : Text) (connects : Bool) (events : List (Event j)) (name : Text)
      → ((n : Text) → p.read (m.ws_upstream_node n) ≡ 0)
      → let s = handle_websocket j order node connects events in
        p.read ((record_calls p s.books.calls m).ws_upstream_node name)
        ≡ bit (s.is_open && text_eq name s.current_node)
  unfolding handle_websocket
  handle_websocket-upstream_node order node connects events name unset =
      left-ShowsOnly order _ (run_proxy_loop-ShowsOnly node connects events unset) name
