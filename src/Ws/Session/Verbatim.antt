-- ===== src/Ws/Session/Verbatim.antt =====
-- The translation of subscription ids across reconnections, in the proxy loop of proxy/ws.rs.
use vixy.Prelude.{
  ℕ, ◌<◌, length, ◌≡◌, ap, ◌∙◌, Bool, true, false, List, [], ◌∷◌, ◌++◌, map, refl, Option, none,
  Text, get, if_ind, Option-cases, arith, inl, inr,
}
use mathlib.Core.List
use vixy.Ws.Json.{Json}
use vixy.Ws.Replay.Complete.{reconnect_upstream-taken}
use vixy.Ws.Tracker.{
  SubscribeRequest, get_all_subscriptions, SubscriptionTracker, translate_to_client_id,
  clear_upstream_mappings,
}
use vixy.Ws.Messages.{
  UpstreamMessage, Books, note_answer, note_response, read_text, handle_upstream_message,
}
use vixy.Ws.Replay.{subscribe_request, reconnect_upstream}
use vixy.Ws.Session.{
  Session, from_upstream, reconnect, ReconnectInfo, Order, on_upstream, on_reconnect, on_event,
  step, not_reconnected, run_loop, clean_up,
}
use vixy.Ws.Session.Identity.{step-open, on_reconnect-tracker, on_reconnect-pending}

module _ (j : Json) where
  open j use {Value}

  note_response-idle :
      (id result : Option Value) (b : Books j) → b.pending ≡ [] → note_response j id result b ≡ b
  unfolding note_response note_answer get
  note_response-idle id result b e = ground arith

  -- No request waits, and the tracker is `t`.
  abbrev Idle : SubscriptionTracker Value → Books j → Type 0
  Idle t b = (b.pending ≡ []) × (b.tracker ≡ t)

  note_response-Idle :
      (t : SubscriptionTracker Value) (id result : Option Value) (b : Books j)
      → Idle t b
      → Idle t (note_response j id result b)
  note_response-Idle t id result b h = rw (note_response-idle id result b h.0) h

  upstream-Idle :
      (t : SubscriptionTracker Value) (accepts : Bool) (msg : UpstreamMessage) (b : Books j)
      → Idle t b
      → Idle t (handle_upstream_message j accepts msg b).books
  unfolding handle_upstream_message read_text
  upstream-Idle t accepts (UpstreamMessage.text s) b h = elim (Option-cases (j.from_str s)) [
    | inl e ↦ rw (e, read_text) h
    | inr (json, e) ↦ rw (e, read_text) (note_response-Idle t _ _ _ h)
  ]
  upstream-Idle t accepts _ b h = h

  run_loop-Idle :
      (t : SubscriptionTracker Value) (s : Session j) (messages : List (Bool × UpstreamMessage))
      → Idle t s.books
      → Idle t (run_loop j s (map (λ m. from_upstream m.0 m.1) messages)).books
  unfolding run_loop step on_event on_upstream clean_up
  run_loop-Idle t s [] h = h
  run_loop-Idle t s (m ∷ messages) h = run_loop-Idle t (step j s (from_upstream m.0 m.1)) messages (
      if_ind (λ (x : Session j). Idle t x.books) s.is_open
        (if_ind (λ (x : Session j). Idle t x.books) _ (upstream-Idle t m.0 m.1 s.books h)
          (upstream-Idle t m.0 m.1 s.books h))
        h)

  reconnect-Idle :
      (s : Session j) (info : ReconnectInfo) (order : Order j) (accepts : ℕ → Bool)
      → s.is_open ≡ true
      → s.books.pending ≡ []
      → Idle
          (clear_upstream_mappings s.books.tracker)
          (step j s (reconnect info order true accepts)).books
  unfolding on_event reconnect_upstream clear_upstream_mappings
  reconnect-Idle s info order accepts is_open idle =
      rw (step-open j s (reconnect info order true accepts) is_open) (
        on_reconnect-pending j info order true accepts s ∙ idle,
        on_reconnect-tracker j info order true accepts s,
      )

  -- The replies of a new upstream node are mapped to nothing: with no request of the client waiting,
  -- after a reconnection to a node that could be reached, and any messages from the upstream, every
  -- upstream id is unknown to the tracker, while all the subscriptions are still there.
  pub reconnect-unmapped :
      (s : Session j) (info : ReconnectInfo) (order : Order j) (accepts : ℕ → Bool)
      (messages : List (Bool × UpstreamMessage))
      → s.is_open ≡ true
      → s.books.pending ≡ []
      → let after =
          run_loop j
            (step j s (reconnect info order true accepts))
            (map (λ m. from_upstream m.0 m.1) messages) in
        ((id : Text) → translate_to_client_id after.books.tracker id ≡ none)
        × (after.books.tracker.subscriptions ≡ s.books.tracker.subscriptions)
  unfolding clear_upstream_mappings translate_to_client_id get
  reconnect-unmapped s info order accepts messages is_open idle =
      let t = clear_upstream_mappings s.books.tracker in
      let (_, same) =
        run_loop-Idle t (step j s (reconnect info order true accepts)) messages
          (reconnect-Idle s info order accepts is_open idle) in
      (λ id. ap (λ u. translate_to_client_id u id) same, ap (λ u. u.subscriptions) same)

  -- Take a reconnection in which the new node takes the replayed requests for `before` and refuses
  -- the next one. Those requests were all that was sent, to a connection that is given up; the
  -- session stays on the old connection, to which, as to the client, nothing was sent; the
  -- subscriptions and the pending requests are as before; but the ids that the old node still uses
  -- are unknown to the tracker from then on.
  pub refused_replay-forgets :
      (s : Session j) (info : ReconnectInfo) (order : Order j) (accepts : ℕ → Bool)
      (before after : List (SubscribeRequest Value)) (refused : SubscribeRequest Value)
      → s.is_open ≡ true
      → get_all_subscriptions order s.books.tracker ≡ before ++ refused ∷ after
      → ((k : ℕ) → k < length before → accepts k ≡ true)
      → accepts (length before) ≡ false
      → let t = step j s (reconnect info order true accepts) in
        (t.is_open ≡ true)
        × (t.connection ≡ s.connection)
        × (t.current_node ≡ s.current_node)
        × (t.to_upstream ≡ s.to_upstream)
        × (t.to_client ≡ s.to_client)
        × (t.given_up
            ≡ s.given_up ++ map (λ q. (info, UpstreamMessage.text (subscribe_request j q))) before)
        × (t.books.tracker.subscriptions ≡ s.books.tracker.subscriptions)
        × (t.books.pending ≡ s.books.pending)
        × ((id : Text) → translate_to_client_id t.books.tracker id ≡ none)
  unfolding on_event on_reconnect clear_upstream_mappings translate_to_client_id get not_reconnected
  refused_replay-forgets s info order accepts before after refused is_open split h e =
      let outcome =
        reconnect_upstream-taken j order accepts s.books.tracker before after refused split h e in
      let failed : (reconnect_upstream j order true accepts s.books.tracker).1 ≡ none =
        ap (λ r. r.1) outcome in
      let in_pairs =
        List.map-map (λ m. (info, m)) (λ q. UpstreamMessage.text (subscribe_request j q)) before in
      rw (step-open j s (reconnect info order true accepts) is_open, on_event, failed, on_reconnect)
        (
          is_open,
          refl,
          refl,
          refl,
          refl,
          ap (λ r. s.given_up ++ map (λ m. (info, m)) r.2) outcome
              ∙ ap (λ ms. s.given_up ++ ms) in_pairs,
          ap (λ r. r.0.subscriptions) outcome,
          refl,
          λ id. ap (λ r. translate_to_client_id r.0 id) outcome,
        )
