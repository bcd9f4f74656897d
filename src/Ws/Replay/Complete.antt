-- ===== src/Ws/Replay/Complete.antt =====
-- The replay of subscriptions on a new connection, `reconnect_upstream` of proxy/ws.rs.
use vixy.Prelude.{
  ℕ, ◌+◌, ◌<◌, ◌≤◌, ◌↔◌, ◌≡◌, refl, ap, ◌∙◌, Bool, true, false, List, [], ◌∷◌, ◌++◌, All, bytes,
  map, length, none, some, arith, inl, inr, Bool-cases, text_eq,
}
use vixy.Ws.Json.{Json, JsonLaws}
use vixy.Ws.Tracker.{
  SubscribeRequest, SubscriptionTracker, clear_upstream_mappings, get_all_subscriptions,
}
use vixy.Ws.Messages.{UpstreamMessage, eth_subscribe}
use vixy.Ws.Replay.{subscribe_request, replay, reconnect_upstream}
use vixy.Ws.Messages.Subscribe.{IsSubscribe}

module _ (j : Json) where
  open j use {Value}

  -- If the id of a tracked subscription nests at most 126 deep, and its parameters at most 125, and
  -- none of them has a floating-point number, then the request that replays the subscription
  -- decodes as an `eth_subscribe` with that id and those parameters.
  pub subscribe_request-IsSubscribe :
      (law : JsonLaws j) (sub : SubscribeRequest Value)
      → law.Readable 126 sub.rpc_id
      → All (law.Readable 125) sub.params
      → IsSubscribe j (subscribe_request j sub) sub.rpc_id sub.params
  unfolding subscribe_request text_eq
  subscribe_request-IsSubscribe law sub id params =
      let version =
        law.put-Readable 126 _ _ _ (law.string-Readable 126 _) (law.no_members-Readable 126) in
      let with_id = law.put-Readable 126 (bytes "id") _ _ id version in
      let named = law.put-Readable 126 (bytes "method") _ _ (law.string-Readable 126 _) with_id in
      let list = law.array-Readable 125 sub.params params in
      let whole = law.put-Readable 126 (bytes "params") _ _ list named in
      record {
        json = _;
        method = j.string eth_subscribe;
        list = j.array sub.params;
        decodes = law.from_str-to_string 127 _ (omega arith) (law.object-Readable 126 _ whole);
        has_method = rw (law.get-object, law.member-put, law.member-put);
        is_subscribe = law.as_str-string _;
        has_id = rw (law.get-object, law.member-put, law.member-put, law.member-put);
        has_params = rw (law.get-object, law.member-put);
        is_list = law.as_array-array _;
      }

  replay_all :
      (accepts : ℕ → Bool) (n : ℕ) (subs : List (SubscribeRequest Value))
      → ((m : ℕ) → n ≤ m → m < n + length subs → accepts m ≡ true)
      → replay j accepts n subs
        ≡ (true, map (λ s. UpstreamMessage.text (subscribe_request j s)) subs)
  unfolding replay
  replay_all accepts n [] h = refl
  replay_all accepts n (s ∷ subs) h =
      let now : accepts n ≡ true = h n (omega arith) (omega arith) in
      let rest = replay_all accepts (n + 1) subs (λ m ge lt. h m (omega arith) (omega arith)) in
      rw (now, rest)

  replay_refused :
      (accepts : ℕ → Bool) (n m : ℕ) (subs : List (SubscribeRequest Value))
      → n ≤ m
      → m < n + length subs
      → accepts m ≡ false
      → (replay j accepts n subs).0 ≡ false
  unfolding replay
  replay_refused accepts n m [] ge lt e = absurd (omega arith)
  replay_refused accepts n m (s ∷ subs) ge lt e = elim (Bool-cases (accepts n)) [
    | inr f ↦ rw f
    | inl f ↦ rw f (replay_refused accepts (n + 1) m subs (grind arith) (omega arith) e)
  ]

  -- The new connection took the requests up to the first one that it refused.
  replay_prefix :
      (accepts : ℕ → Bool) (n : ℕ) (before after : List (SubscribeRequest Value))
      (refused : SubscribeRequest Value)
      → ((m : ℕ) → n ≤ m → m < n + length before → accepts m ≡ true)
      → ((m : ℕ) → m ≡ n + length before → accepts m ≡ false)
      → replay j accepts n (before ++ refused ∷ after)
        ≡ (false, map (λ s. UpstreamMessage.text (subscribe_request j s)) before)
  unfolding replay
  replay_prefix accepts n [] after refused h e = rw (e n (omega arith)) refl
  replay_prefix accepts n (s ∷ before) after refused h e =
      let now : accepts n ≡ true = h n (omega arith) (omega arith) in
      let rest =
        replay_prefix accepts (n + 1) before after refused
          (λ m ge lt. h m (omega arith) (omega arith)) (λ m eq. e m (omega arith)) in
      rw (now, rest) refl

  pub reconnect_upstream-refused :
      (order : List (SubscribeRequest Value) → List (SubscribeRequest Value)) (accepts : ℕ → Bool)
      (m : ℕ) (tracker : SubscriptionTracker Value)
      → m < length (get_all_subscriptions order tracker)
      → accepts m ≡ false
      → (reconnect_upstream j order true accepts tracker).1 ≡ none
  unfolding reconnect_upstream get_all_subscriptions clear_upstream_mappings
  reconnect_upstream-refused order accepts m tracker lt e =
      let subs = get_all_subscriptions order tracker in
      rw (replay_refused accepts 0 m subs (omega arith) (omega arith) e)

  -- A connection that takes the requests for `before` and refuses the next one.
  pub reconnect_upstream-taken :
      (order : List (SubscribeRequest Value) → List (SubscribeRequest Value)) (accepts : ℕ → Bool)
      (tracker : SubscriptionTracker Value) (before after : List (SubscribeRequest Value))
      (refused : SubscribeRequest Value)
      → get_all_subscriptions order tracker ≡ before ++ refused ∷ after
      → ((k : ℕ) → k < length before → accepts k ≡ true)
      → accepts (length before) ≡ false
      → reconnect_upstream j order true accepts tracker ≡ (
        clear_upstream_mappings tracker,
        none,
        map (λ s. UpstreamMessage.text (subscribe_request j s)) before,
      )
  unfolding reconnect_upstream get_all_subscriptions clear_upstream_mappings
  reconnect_upstream-taken order accepts tracker before after refused split h e =
      rw
        (
          split,
          replay_prefix accepts 0 before after refused (λ m ge lt. h m (omega arith))
              (λ m eq. ap accepts (eq ∙ omega arith) ∙ e),
        )
        refl

  -- A reconnection succeeds exactly if the node can be connected to and takes every replayed
  -- request; then the connection was sent one request for each subscription, in the map's order.
  pub reconnect_upstream_iff :
      (order : List (SubscribeRequest Value) → List (SubscribeRequest Value)) (connects : Bool)
      (accepts : ℕ → Bool) (tracker : SubscriptionTracker Value)
      → let subs = get_all_subscriptions order tracker in
        let requests = map (λ s. UpstreamMessage.text (subscribe_request j s)) subs in
        ((reconnect_upstream j order connects accepts tracker).1 ≡ some requests)
        ↔ ((connects ≡ true) × ((m : ℕ) → m < length subs → accepts m ≡ true))
  unfolding reconnect_upstream get_all_subscriptions clear_upstream_mappings
  reconnect_upstream_iff order false accepts tracker = (ground arith, ground arith)
  reconnect_upstream_iff order true accepts tracker =
      let subs = get_all_subscriptions order tracker in
      (
        λ e. (
          refl,
          λ m lt. elim (Bool-cases (accepts m)) [
            | inl f ↦ f
            | inr f ↦
                let refused = reconnect_upstream-refused order accepts m tracker lt f in
                absurd (ground arith)
          ],
        ),
        λ (_, h). rw (replay_all accepts 0 subs (λ m ge lt. h m (omega arith))),
      )
