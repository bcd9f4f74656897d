-- ===== src/Ws/Session/Ending.antt =====
-- Where the proxy loop of proxy/ws.rs is left, and with what.
use vixy.Prelude.{
  ◌≡◌, refl, sym, ap, ◌∙◌, All, Bool, true, false, List, [], ◌∷◌, ◌++◌, Text, if◌then◌else◌, arith,
}
use vixy.Metrics.{MetricCall}
use vixy.Ws.Json.{Json}
use vixy.Ws.Messages.{Message, UpstreamMessage, handle_client_message, handle_upstream_message}
use vixy.Ws.Messages
use vixy.Ws.Session.{
  Session, Event, from_client, from_upstream, reconnect, channels_closed, on_client, on_upstream,
  on_event, step, clean_up, run_loop, run_proxy_loop, start,
}
use vixy.Ws.Session.Identity.{step-open}
use vixy.Ws.Session.Closing.{
  stays, delivery, deliveries, on_reconnect-same, step-delivery, run_proxy_loop-delivers,
}

module _ (j : Json) where
  pub step-closed : (s : Session j) (e : Event j) → s.is_open ≡ false → step j s e ≡ s
  unfolding step
  step-closed s e closed = rw closed refl

  run_loop-closed : (s : Session j) (es : List (Event j)) → s.is_open ≡ false → run_loop j s es ≡ s
  unfolding run_loop
  run_loop-closed s [] closed = refl
  run_loop-closed s (e ∷ es) closed =
      ap (λ t. run_loop j t es) (step-closed s e closed) ∙ run_loop-closed s es closed

  pub run_loop-append :
      (s : Session j) (a b : List (Event j)) → run_loop j s (a ++ b) ≡ run_loop j (run_loop j s a) b
  unfolding run_loop
  run_loop-append s [] b = refl
  run_loop-append s (e ∷ a) b = run_loop-append (step j s e) a b

  -- An event that leaves the loop is cleaned up behind.
  left-clean_up :
      (closes : Bool) (s : Session j)
      → s.is_open ≡ true
      → (if closes then clean_up j s else s).is_open ≡ false
      → (before : List _) × ((if closes then clean_up j s else s).to_upstream
          ≡ before ++ (s.connection, Messages.UpstreamMessage.close) ∷ [])
  unfolding clean_up
  left-clean_up true s is_open left = (s.to_upstream, refl)
  left-clean_up false s is_open left = absurd (ground (arith, is_open, left))

  on_event-clean_up :
      (s : Session j) (e : Event j)
      → s.is_open ≡ true
      → (on_event j s e).is_open ≡ false
      → (before : List _) × ((on_event j s e).to_upstream
          ≡ before ++ (s.connection, Messages.UpstreamMessage.close) ∷ [])
  unfolding on_event on_client on_upstream clean_up
  on_event-clean_up s (from_client accepts m) is_open left = left-clean_up _ _ is_open left
  on_event-clean_up s (from_upstream accepts m) is_open left = left-clean_up _ _ is_open left
  on_event-clean_up s (reconnect info order connects accepts) is_open left =
      absurd (ground (arith, (on_reconnect-same j info order connects accepts s).0, is_open, left))
  on_event-clean_up s channels_closed is_open left = (s.to_upstream, refl)

  -- The loop is left at the first event that is not one to stay for: it takes no event behind that,
  -- and both sides have been sent a close frame as the last thing, the client behind the frames of
  -- the events until then.
  pub run_proxy_loop-ends :
      (calls : List MetricCall) (node : Text) (before after : List (Event j)) (e : Event j)
      → All (λ e. stays j e ≡ true) before
      → stays j e ≡ false
      → let t = run_proxy_loop j calls node true (before ++ e ∷ after) in
        (t.is_open ≡ false)
        × (t ≡ step j (run_proxy_loop j calls node true before) e)
        × (t.to_client ≡ deliveries j before ++ (delivery j e ++ Messages.Message.close ∷ []))
        × ((sent : List _) × (t.to_upstream
              ≡ sent
                ++ (
                  (run_proxy_loop j calls node true before).connection,
                  Messages.UpstreamMessage.close,
                )
                  ∷ []))
  unfolding run_proxy_loop
  run_proxy_loop-ends calls node before after e stay ends =
      let first = start j calls node in
      let s = run_loop j first before in
      let (is_open, heard) = run_proxy_loop-delivers j calls node before stay in
      let (left, told) = step-delivery j calls node before e is_open in
      let closed = left ∙ ends in
      let same : run_loop j first (before ++ e ∷ after) ≡ step j s e =
        run_loop-append first before (e ∷ after) ∙ run_loop-closed (step j s e) after closed in
      let (sent, f) =
        on_event-clean_up s e is_open
          (ap (λ (t : Session j). t.is_open) (sym (step-open j s e is_open)) ∙ closed) in
      rw same (
        closed,
        refl,
        told ∙ rw (ends, heard) refl,
        (sent, ap (λ (t : Session j). t.to_upstream) (step-open j s e is_open) ∙ f),
      )
