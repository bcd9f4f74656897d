-- ===== src/Ws/Session/Forwarding.antt =====
-- What the proxy loop of proxy/ws.rs sends to the upstream node for the messages of the client.
use vixy.Prelude.{
  ℕ, ◌≡◌, refl, sym, ap, ap₂, ◌∙◌, Bool, true, false, not, List, [], ◌∷◌, ◌++◌, map, All, Text,
  append_assoc, append-nil, if◌then◌else◌,
}
use vixy.Metrics.{MetricCall}
use vixy.Ws.Json.{Json}
use vixy.Ws.Messages.{
  Message, UpstreamMessage, Books, handle_client_message, handle_upstream_message,
}
use vixy.Ws.Replay.{reconnect_upstream}
use vixy.Ws.Messages
use vixy.Ws.Session.{
  Session, Event, from_client, from_upstream, reconnect, channels_closed, on_client, on_upstream,
  on_reconnect, on_event, should_close, run_loop, run_proxy_loop, start, clean_up, not_reconnected,
}
use vixy.Ws.Session.Identity.{step-open}
use vixy.Ws.Session.Closing.{stays, client_stays, upstream_stays}
use vixy.Ws.Session.Ending.{run_loop-append}

-- The frame for the upstream node that a frame of the client becomes.
abbrev pub for_upstream : Message → UpstreamMessage
for_upstream (Messages.Message.text t) = Messages.UpstreamMessage.text t
for_upstream (Messages.Message.binary t) = Messages.UpstreamMessage.binary t
for_upstream (Messages.Message.ping t) = Messages.UpstreamMessage.ping t
for_upstream (Messages.Message.pong t) = Messages.UpstreamMessage.pong t
for_upstream Messages.Message.close = Messages.UpstreamMessage.close

module _ (j : Json) where
  open j use {Value}

  -- The events that leave the loop open, and on the connection that it is on: no node that a signal
  -- names can be connected to.
  abbrev pub settles : Event j → Bool
  settles (reconnect info order connects accepts) = not connects
  settles (from_client accepts m) = stays j (from_client accepts m)
  settles (from_upstream accepts m) = stays j (from_upstream accepts m)
  settles channels_closed = false

  -- The client's messages among the events.
  abbrev pub asked : List (Event j) → List Message
  asked [] = []
  asked (from_client accepts m ∷ es) = m ∷ asked es
  asked (from_upstream accepts m ∷ es) = asked es
  asked (reconnect info order connects accepts ∷ es) = asked es
  asked (channels_closed ∷ es) = asked es

  abbrev sent : ℕ → List (Event j) → List (ℕ × UpstreamMessage)
  sent connection es = map (λ m. (connection, for_upstream m)) (asked es)

  client_out :
      (accepts : Bool) (m : Message) (b : Books j)
      → (handle_client_message j accepts m b).out ≡ for_upstream m
  unfolding handle_client_message
  client_out accepts (Messages.Message.text t) b = refl
  client_out accepts (Messages.Message.binary t) b = refl
  client_out accepts (Messages.Message.ping t) b = refl
  client_out accepts (Messages.Message.pong t) b = refl
  client_out accepts Messages.Message.close b = refl

  -- What stays of the session, and what it has sent upstream.
  abbrev Forwarded : Session j → List (ℕ × UpstreamMessage) → Session j → Type 0
  Forwarded s more t =
      (t.is_open ≡ true) × (t.connection ≡ s.connection) × (t.to_upstream ≡ s.to_upstream ++ more)

  open_if :
      (closes : Bool) (s : Session j) → not closes ≡ true → (if closes then clean_up j s else s) ≡ s
  open_if true s e = cc
  open_if false s e = refl

  on_event-Forwarded :
      (s : Session j) (e : Event j)
      → s.is_open ≡ true
      → settles e ≡ true
      → Forwarded s (sent s.connection (e ∷ [])) (on_event j s e)
  unfolding on_event on_client on_upstream on_reconnect reconnect_upstream not_reconnected
  on_event-Forwarded s (from_client accepts m) o e =
      let h = handle_client_message j accepts m s.books in
      rw (open_if (should_close h.result) _ (client_stays j accepts m s.books ∙ e)) (
        o,
        refl,
        ap (λ out. s.to_upstream ++ (s.connection, out) ∷ []) (client_out accepts m s.books),
      )
  on_event-Forwarded s (from_upstream accepts m) o e =
      let h = handle_upstream_message j accepts m s.books in
      rw (open_if (should_close h.result) _ (upstream_stays j accepts m s.books ∙ e))
        (o, refl, sym (append-nil s.to_upstream))
  on_event-Forwarded s (reconnect info order true accepts) o e = absurd (cc e)
  on_event-Forwarded s (reconnect info order false accepts) o e =
      (o, refl, sym (append-nil s.to_upstream))
  on_event-Forwarded s channels_closed o e = absurd (cc e)

  sent-cons :
      (c : ℕ) (e : Event j) (es : List (Event j)) → sent c (e ∷ []) ++ sent c es ≡ sent c (e ∷ es)
  sent-cons c (from_client accepts m) es = refl
  sent-cons c _ es = refl

  run_loop-Forwarded :
      (s : Session j) (es : List (Event j))
      → s.is_open ≡ true
      → All (λ e. settles e ≡ true) es
      → Forwarded s (sent s.connection es) (run_loop j s es)
  unfolding run_loop
  run_loop-Forwarded s [] o all = (o, refl, sym (append-nil s.to_upstream))
  run_loop-Forwarded s (e ∷ es) o (now, later) =
      let (opened, same, said) = on_event-Forwarded s e o now in
      let (opened', same', said') = run_loop-Forwarded (on_event j s e) es opened later in
      rw (run_loop, step-open j s e o)
        (
          opened',
          same' ∙ same,
          said'
              ∙ ap₂ (λ before c. before ++ sent c es) said same
              ∙ append_assoc s.to_upstream _ _
              ∙ ap (λ more. s.to_upstream ++ more) (sent-cons s.connection e es),
        )

  -- Take an open proxy loop, whatever happened before. While no event ends it and no reconnection
  -- comes about, the upstream connection that it is on is sent exactly the client's messages that
  -- the loop takes, each once, unchanged and in their order, and nothing else is sent to any
  -- connection, whatever the upstream node sends and whether or not the sinks take it.
  pub run_proxy_loop-forwards :
      (calls : List MetricCall) (node : Text) (before es : List (Event j))
      → let s = run_proxy_loop j calls node true before in
        s.is_open ≡ true
        → All (λ e. settles e ≡ true) es
        → let t = run_proxy_loop j calls node true (before ++ es) in
          (t.is_open ≡ true)
          × (t.connection ≡ s.connection)
          × (t.to_upstream ≡ s.to_upstream ++ map (λ m. (s.connection, for_upstream m)) (asked es))
  unfolding run_proxy_loop
  run_proxy_loop-forwards calls node before es o all =
      rw (run_loop-append j (start j calls node) before es)
        (run_loop-Forwarded (run_loop j (start j calls node) before) es o all)
