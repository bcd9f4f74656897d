-- ===== src/Ws/Replay.antt =====
-- proxy/ws.rs, `reconnect_upstream`: the replay of subscriptions on a new connection, whose sink
-- takes or refuses each request.
pub mod Complete
pub mod Bag
use vixy.Prelude.{
  ℕ, ◌+◌, Bool, true, false, List, [], ◌∷◌, Option, none, some, Text, bytes, if◌then◌else◌,
}
use vixy.Ws.Json.{Json}
use vixy.Ws.Tracker.{
  SubscribeRequest, SubscriptionTracker, clear_upstream_mappings, get_all_subscriptions,
}
use vixy.Ws.Messages.{UpstreamMessage, text, eth_subscribe}

module _ (j : Json) where
  open j use {Value}

  -- The request that replays a subscription.
  unfoldable pub subscribe_request : SubscribeRequest Value → Text
  subscribe_request sub = j.to_string (
      j.object (
        j.put (bytes "params") (j.array sub.params) (
          j.put (bytes "method") (j.string eth_subscribe) (
            j.put (bytes "id") sub.rpc_id
              (j.put (bytes "jsonrpc") (j.string (bytes "2.0")) j.no_members)))))

  -- The loop of `reconnect_upstream`: what the new sink took, and whether it took all. The `n`th
  -- message may be refused.
  unfoldable pub replay :
      (ℕ → Bool) → ℕ → List (SubscribeRequest Value) → Bool × List UpstreamMessage
  replay accepts n [] = (true, [])
  replay accepts n (sub ∷ subs) =
      let (done, rest) = replay accepts (n + 1) subs in
      if accepts n then (done, text (subscribe_request sub) ∷ rest) else (false, [])

  -- The new tracker; what the new connection was sent, if it took all of it; and what it took, in
  -- any case. On an error the connection is dropped.
  unfoldable pub reconnect_upstream :
      (List (SubscribeRequest Value) → List (SubscribeRequest Value))
      → Bool
      → (ℕ → Bool)
      → SubscriptionTracker Value
      → SubscriptionTracker Value × Option (List UpstreamMessage) × List UpstreamMessage
  unfolding replay
  reconnect_upstream order connects accepts tracker =
      if connects
      then (let cleared = clear_upstream_mappings tracker in
          let (done, sent) = replay accepts 0 (get_all_subscriptions order cleared) in
          (cleared, if done then some sent else none, sent))
      else (tracker, none, [])
