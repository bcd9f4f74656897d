-- ===== src/Ws/Tracker.antt =====
-- proxy/ws.rs, `SubscriptionTracker`: which subscriptions a client holds, and which id of the
-- upstream node stands for which id of the client.
pub mod Laws
use vixy.Prelude.{
  Bool, not, List, [], map, Option, Text, text_eq, is_empty, Dict, get, insert, remove, retain,
  values,
}

module _ (Value : Type 0) where
  pub record SubscribeRequest : Type 0 where
    pub rpc_id : Value
    pub params : List Value
    pub client_sub_id : Text

  pub record SubscriptionTracker : Type 0 where
    pub subscriptions : Dict SubscribeRequest
    pub upstream_to_client_id : Dict Text

module _ {Value : Type 0} where
  abbrev pub new : SubscriptionTracker Value
  new = record { subscriptions = []; upstream_to_client_id = [] }

  unfoldable pub track_subscribe :
      SubscriptionTracker Value → List Value → Value → Text → SubscriptionTracker Value
  track_subscribe t params rpc_id client_sub_id =
      let request : SubscribeRequest Value = record {
        rpc_id = rpc_id;
        params = params;
        client_sub_id = client_sub_id;
      } in
      record {
        subscriptions = insert client_sub_id request t.subscriptions;
        upstream_to_client_id = insert client_sub_id client_sub_id t.upstream_to_client_id;
      }

  unfoldable pub map_upstream_id :
      SubscriptionTracker Value → Text → Text → SubscriptionTracker Value
  map_upstream_id t upstream_id client_id = record t {
    upstream_to_client_id = insert upstream_id client_id t.upstream_to_client_id;
  }

  unfoldable pub translate_to_client_id : SubscriptionTracker Value → Text → Option Text
  translate_to_client_id t upstream_id = get upstream_id t.upstream_to_client_id

  -- The map's values come in an order of its own, which `order` stands for.
  unfoldable pub get_all_subscriptions :
      (List (SubscribeRequest Value) → List (SubscribeRequest Value))
      → SubscriptionTracker Value
      → List (SubscribeRequest Value)
  get_all_subscriptions order t = order (values t.subscriptions)

  unfoldable pub remove_subscription : SubscriptionTracker Value → Text → SubscriptionTracker Value
  remove_subscription t client_sub_id = record {
    subscriptions = remove client_sub_id t.subscriptions;
    upstream_to_client_id = retain (λ v. not (text_eq v client_sub_id)) t.upstream_to_client_id;
  }

  unfoldable pub clear_upstream_mappings : SubscriptionTracker Value → SubscriptionTracker Value
  clear_upstream_mappings t = record t { upstream_to_client_id = [] }

  unfoldable pub has_subscriptions : SubscriptionTracker Value → Bool
  has_subscriptions t = not (is_empty t.subscriptions)
