-- ===== src/Ws/Session/Closing.antt =====
-- When the proxy loop of proxy/ws.rs ends, and what the client has been sent by then.
use vixy.Prelude.{
  ℕ, ◌≡◌, refl, sym, ap, ◌∙◌, Bool, true, false, List, [], ◌∷◌, ◌++◌, Text, not, All, Option-cases,
  arith, if◌then◌else◌, inl, inr, append_assoc, append-nil,
}
use vixy.Metrics.{MetricCall}
use vixy.Ws.Json.{Json}
use vixy.Ws.Messages.{
  Message, UpstreamMessage, Books, handle_client_message, handle_upstream_message,
}
use vixy.Ws.Replay.{reconnect_upstream}
use vixy.Ws.Messages
use vixy.Ws.Session.{
  Session, Event, from_client, from_upstream, reconnect, channels_closed, ReconnectInfo, Order,
  on_client, on_upstream, on_reconnect, on_event, step, to_list, should_close, run_loop,
  run_proxy_loop, start, clean_up,
}
use vixy.Ws.Tracker.Laws.{IsIdentity}
use vixy.Ws.Session.Identity.{
  step-open, on_event-IsIdentity, run_loop-IsIdentity, read_text-IsIdentity,
}

-- The frame for the client that a frame of the upstream node becomes.
abbrev pub for_client : UpstreamMessage → List Message
for_client (Messages.UpstreamMessage.text t) = Messages.Message.text t ∷ []
for_client (Messages.UpstreamMessage.binary t) = Messages.Message.binary t ∷ []
for_client (Messages.UpstreamMessage.ping t) = Messages.Message.ping t ∷ []
for_client (Messages.UpstreamMessage.pong t) = Messages.Message.pong t ∷ []
for_client Messages.UpstreamMessage.close = Messages.Message.close ∷ []
for_client (Messages.UpstreamMessage.frame t) = []

module _ (j : Json) where
  open j use {Value}

  -- The events that end no loop: all but a close frame of either side, a frame that the client's
  -- socket refuses, and the end of the channels.
  abbrev pub stays : Event j → Bool
  stays (from_client accepts Messages.Message.close) = false
  stays (from_client accepts _) = true
  stays (from_upstream accepts Messages.UpstreamMessage.close) = false
  stays (from_upstream accepts (Messages.UpstreamMessage.frame t)) = true
  stays (from_upstream accepts _) = accepts
  stays (reconnect info order connects accepts) = true
  stays channels_closed = false

  -- The close frame for the client, if the event ends the loop.
  abbrev pub goodbye : Event j → List Message
  goodbye e = if stays e then [] else Messages.Message.close ∷ []

  -- What the client is sent for one event.
  abbrev pub delivery : Event j → List Message
  delivery (from_upstream accepts m) = for_client m
  delivery (from_client accepts m) = []
  delivery (reconnect info order connects accepts) = []
  delivery channels_closed = []

  abbrev pub deliveries : List (Event j) → List Message
  deliveries [] = []
  deliveries (e ∷ es) = delivery e ++ deliveries es

  pub on_reconnect-same :
      (info : ReconnectInfo) (order : Order j) (connects : Bool) (accepts : ℕ → Bool)
      (s : Session j)
      → let t = on_reconnect j info order connects accepts s in
        (t.is_open ≡ s.is_open) × (t.to_client ≡ s.to_client)
  unfolding on_reconnect
  on_reconnect-same info order connects accepts s =
      elim (Option-cases (reconnect_upstream j order connects accepts s.books.tracker).1) [
        | inl e ↦ rw (e, on_reconnect) (refl, refl)
        | inr (sent, e) ↦ rw (e, on_reconnect) (refl, refl)
      ]

  upstream_out :
      (accepts : Bool) (m : UpstreamMessage) (b : Books j)
      → IsIdentity b.tracker
      → to_list (handle_upstream_message j accepts m b).out ≡ for_client m
  unfolding handle_upstream_message
  upstream_out accepts (Messages.UpstreamMessage.text t) b h =
      ap (λ x. Messages.Message.text x ∷ []) (read_text-IsIdentity j (j.from_str t) t _ h)
  upstream_out accepts (Messages.UpstreamMessage.binary t) b h = refl
  upstream_out accepts (Messages.UpstreamMessage.ping t) b h = refl
  upstream_out accepts (Messages.UpstreamMessage.pong t) b h = refl
  upstream_out accepts Messages.UpstreamMessage.close b h = refl
  upstream_out accepts (Messages.UpstreamMessage.frame t) b h = refl

  pub upstream_stays :
      (accepts : Bool) (m : UpstreamMessage) (b : Books j)
      → not (should_close (handle_upstream_message j accepts m b).result)
        ≡ stays (from_upstream accepts m)
  unfolding handle_upstream_message
  upstream_stays true (Messages.UpstreamMessage.text t) b = refl
  upstream_stays true (Messages.UpstreamMessage.binary t) b = refl
  upstream_stays true (Messages.UpstreamMessage.ping t) b = refl
  upstream_stays true (Messages.UpstreamMessage.pong t) b = refl
  upstream_stays false (Messages.UpstreamMessage.text t) b = refl
  upstream_stays false (Messages.UpstreamMessage.binary t) b = refl
  upstream_stays false (Messages.UpstreamMessage.ping t) b = refl
  upstream_stays false (Messages.UpstreamMessage.pong t) b = refl
  upstream_stays accepts Messages.UpstreamMessage.close b = refl
  upstream_stays accepts (Messages.UpstreamMessage.frame t) b = refl

  pub client_stays :
      (accepts : Bool) (m : Message) (b : Books j)
      → not (should_close (handle_client_message j accepts m b).result)
        ≡ stays (from_client accepts m)
  unfolding handle_client_message
  client_stays true (Messages.Message.text t) b = refl
  client_stays true (Messages.Message.binary t) b = refl
  client_stays true (Messages.Message.ping t) b = refl
  client_stays true (Messages.Message.pong t) b = refl
  client_stays false (Messages.Message.text t) b = refl
  client_stays false (Messages.Message.binary t) b = refl
  client_stays false (Messages.Message.ping t) b = refl
  client_stays false (Messages.Message.pong t) b = refl
  client_stays accepts Messages.Message.close b = refl

  left-delivery :
      (closes : Bool) {stay : Bool} (s : Session j)
      → not closes ≡ stay
      → s.is_open ≡ true
      → let t = if closes then clean_up j s else s in
        (t.is_open ≡ stay)
        × (t.to_client ≡ s.to_client ++ (if stay then [] else Messages.Message.close ∷ []))
  unfolding clean_up
  left-delivery true s e o = ground (arith, append-nil s.to_client)
  left-delivery false s e o = ground (arith, append-nil s.to_client)

  -- What one round does to the client's side of an open session.
  on_event-delivery :
      (s : Session j) (e : Event j)
      → IsIdentity s.books.tracker
      → s.is_open ≡ true
      → ((on_event j s e).is_open ≡ stays e)
        × ((on_event j s e).to_client ≡ s.to_client ++ (delivery e ++ goodbye e))
  unfolding on_event on_client on_upstream clean_up
  on_event-delivery s (from_client accepts m) h o =
      left-delivery _ _ (client_stays accepts m s.books) o
  on_event-delivery s (from_upstream accepts m) h o =
      let (is_open, sent) = left-delivery _ _ (upstream_stays accepts m s.books) o in
      (
        is_open,
        sent
            ∙ ap (λ out. (s.to_client ++ out) ++ goodbye (from_upstream accepts m))
                (upstream_out accepts m s.books h)
            ∙ append_assoc s.to_client (for_client m) _,
      )
  on_event-delivery s (reconnect info order connects accepts) h o =
      let (same, sent) = on_reconnect-same info order connects accepts s in
      (same ∙ o, sent ∙ sym (append-nil _))
  on_event-delivery s channels_closed h o = (refl, refl)

  -- In a proxy loop that is open, whatever happened before, an event leaves the loop open exactly
  -- if `stays` says so, and the client is sent the event's frame, unchanged, and a close frame if
  -- the loop ends.
  pub step-delivery :
      (calls : List MetricCall) (node : Text) (events : List (Event j)) (e : Event j)
      → let s = run_proxy_loop j calls node true events in
        s.is_open ≡ true
        → ((step j s e).is_open ≡ stays e)
          × ((step j s e).to_client ≡ s.to_client ++ (delivery e ++ goodbye e))
  unfolding run_proxy_loop
  step-delivery calls node events e o =
      let s = run_proxy_loop j calls node true events in
      rw (step-open j s e o)
        (on_event-delivery s e (run_loop-IsIdentity j (start j calls node) events tt) o)

  run_loop-deliveries :
      (s : Session j) (es : List (Event j))
      → IsIdentity s.books.tracker
      → s.is_open ≡ true
      → All (λ e. stays e ≡ true) es
      → ((run_loop j s es).is_open ≡ true)
        × ((run_loop j s es).to_client ≡ s.to_client ++ deliveries es)
  unfolding run_loop
  run_loop-deliveries s [] h o all = (o, sym (append-nil s.to_client))
  run_loop-deliveries s (e ∷ es) h o (now, later) =
      let (is_open, sent) = on_event-delivery s e h o in
      let (opened, received) =
        run_loop-deliveries (on_event j s e) es (on_event-IsIdentity j s e h) (is_open ∙ now)
          later in
      let said : (on_event j s e).to_client ≡ s.to_client ++ delivery e =
        sent ∙ rw now (ap (λ d. s.to_client ++ d) (append-nil (delivery e))) in
      rw (run_loop, step-open j s e o)
        (
          opened,
          received
              ∙ ap (λ c. c ++ deliveries es) said
              ∙ append_assoc s.to_client (delivery e) (deliveries es),
        )

  -- While no event ends the loop, the client is sent exactly the frames that the loop takes from its
  -- upstream channel, each once, unchanged and in their order, with raw frames left out, whatever
  -- messages of the client and reconnections come among them.
  pub run_proxy_loop-delivers :
      (calls : List MetricCall) (node : Text) (es : List (Event j))
      → All (λ e. stays e ≡ true) es
      → ((run_proxy_loop j calls node true es).is_open ≡ true)
        × ((run_proxy_loop j calls node true es).to_client ≡ deliveries es)
  unfolding run_proxy_loop
  run_proxy_loop-delivers calls node es all =
      run_loop-deliveries (start j calls node) es tt refl all
