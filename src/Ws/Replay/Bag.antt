-- ===== src/Ws/Replay/Bag.antt =====
-- Which requests a reconnection of proxy/ws.rs sends, whatever order the hash map has.
use vixy.Prelude.{
  ℕ, ◌+◌, ◌≡◌, refl, ap, Bool, true, false, List, [], ◌∷◌, map, some, Bool-cases, inl, inr, arith,
  values,
}
use mathlib.Core.List.{Perm}
use mathlib.Core.List.Perm
use vixy.Ws.Json.{Json}
use vixy.Ws.Tracker.{
  SubscribeRequest, SubscriptionTracker, get_all_subscriptions, clear_upstream_mappings,
}
use vixy.Ws.Messages.{UpstreamMessage}
use vixy.Ws.Replay.{subscribe_request, replay, reconnect_upstream}

module _ (j : Json) where
  open j use {Value}

  abbrev pub request : SubscribeRequest Value → UpstreamMessage
  request s = UpstreamMessage.text (subscribe_request j s)

  replay-done :
      (accepts : ℕ → Bool) (n : ℕ) (subs : List (SubscribeRequest Value))
      → (replay j accepts n subs).0 ≡ true
      → (replay j accepts n subs).1 ≡ map request subs
  unfolding replay
  replay-done accepts n [] done = refl
  replay-done accepts n (s ∷ subs) done = elim (Bool-cases (accepts n)) [
    | inl e ↦
        rw e
          (ap (λ ms. request s ∷ ms) (replay-done accepts (n + 1) subs (ground (arith, done, e))))
    | inr e ↦ absurd (ground (arith, done, e))
  ]

  -- If the map gives its values in some order, whatever that is, then a reconnection that succeeds
  -- has sent the request of each tracked subscription, as often as the tracker holds it, and
  -- nothing else.
  pub reconnect_upstream-Perm :
      (order : List (SubscribeRequest Value) → List (SubscribeRequest Value))
      → ((subs : List (SubscribeRequest Value)) → Perm (order subs) subs)
      → (connects : Bool) (accepts : ℕ → Bool) (tracker : SubscriptionTracker Value)
        (sent : List UpstreamMessage)
      → (reconnect_upstream j order connects accepts tracker).1 ≡ some sent
      → Perm sent (map request (values tracker.subscriptions))
  unfolding reconnect_upstream get_all_subscriptions clear_upstream_mappings
  reconnect_upstream-Perm order law false accepts tracker sent e = absurd (ground (arith, e))
  reconnect_upstream-Perm order law true accepts tracker sent e =
      let subs = order (values tracker.subscriptions) in
      elim (Bool-cases (replay j accepts 0 subs).0) [
        | inr f ↦ absurd (ground (arith, e, f))
        | inl f ↦
            let same : sent ≡ map request subs =
              ground (arith, e, f, replay-done accepts 0 subs f) in
            rw same (Perm.map request (law (values tracker.subscriptions)))
      ]
