-- ===== src/UnitTests/Tracker.antt =====
-- The unit tests of proxy/ws.rs: node selection for WebSockets, and `SubscriptionTracker`. JSON
-- values are texts.
use vixy.Prelude.{
  ◌==◌, ◌≡◌, refl, Bool, true, false, not, ◌&&◌, length, List, [], ◌∷◌, Option, none, some, Text,
  bytes, text_eq, is_empty, get, insert, remove, retain, values,
}
use vixy.State.{ElNodeState, AppState}
use vixy.Selection.{select_el_node}
use vixy.Ws.Tracker.{
  SubscribeRequest, SubscriptionTracker, track_subscribe, map_upstream_id, translate_to_client_id,
  get_all_subscriptions, remove_subscription, clear_upstream_mappings, has_subscriptions,
}
use vixy.Ws.Tracker

abbrev create_test_state : List ElNodeState → AppState
create_test_state el_nodes = record {
  el_nodes = el_nodes;
  cl_nodes = [];
  el_chain_head = 0;
  cl_chain_head = 0;
  el_failover_active = false;
  max_el_lag = 5;
  max_cl_lag = 3;
  proxy_timeout_ms = 30000;
  max_retries = 2;
  health_check_max_failures = 3;
}

abbrev make_el_node : Text → Text → Bool → ElNodeState
make_el_node name ws_url is_healthy = record {
  name = name;
  http_url = bytes "http://localhost:8545";
  ws_url = ws_url;
  is_primary = true;
  block_number = 1000;
  check_ok = is_healthy;
  is_healthy = is_healthy;
  lag = 0;
  consecutive_failures = 0;
}

abbrev no_node : Option ElNodeState → Bool
no_node none = true
no_node (some n) = false

abbrev ws_url_is : Text → Option ElNodeState → Bool
ws_url_is url none = false
ws_url_is url (some n) = text_eq n.ws_url url

abbrev test_ws_selection_returns_none_for_unhealthy : Bool
test_ws_selection_returns_none_for_unhealthy =
    let state =
      create_test_state (make_el_node (bytes "geth-1") (bytes "ws://localhost:8546") false ∷ []) in
    no_node (select_el_node state.el_nodes state.el_failover_active)

abbrev test_ws_selection_returns_healthy_node : Bool
test_ws_selection_returns_healthy_node =
    let state =
      create_test_state (make_el_node (bytes "geth-1") (bytes "ws://localhost:8546") true ∷ []) in
    ws_url_is (bytes "ws://localhost:8546") (select_el_node state.el_nodes state.el_failover_active)

abbrev all_subscriptions : SubscriptionTracker Text → List (SubscribeRequest Text)
all_subscriptions t = get_all_subscriptions (λ subs. subs) t

abbrev is_id : Text → Option Text → Bool
is_id id none = false
is_id id (some t) = text_eq t id

abbrev is_unknown : Option Text → Bool
is_unknown none = true
is_unknown (some t) = false

abbrev new_heads : List Text
new_heads = bytes "newHeads" ∷ []

abbrev heads_tracked : SubscriptionTracker Text
heads_tracked = track_subscribe Tracker.new new_heads (bytes "1") (bytes "0x1")

abbrev test_subscription_tracker_new_is_empty : Bool
test_subscription_tracker_new_is_empty =
    let tracker : SubscriptionTracker Text = Tracker.new in
    not (has_subscriptions tracker) && is_empty (all_subscriptions tracker)

abbrev same_params : List Text → Bool
same_params (p ∷ []) = text_eq p (bytes "newHeads")
same_params _ = false

-- Whether there is one subscription, with the id, the parameters and the request's id.
abbrev one_subscription : List (SubscribeRequest Text) → Bool
one_subscription (s ∷ []) =
    text_eq s.client_sub_id (bytes "0x1") && same_params s.params && text_eq s.rpc_id (bytes "1")
one_subscription _ = false

abbrev test_subscription_tracker_track_subscribe : Bool
test_subscription_tracker_track_subscribe =
    has_subscriptions heads_tracked && one_subscription (all_subscriptions heads_tracked)

abbrev test_subscription_tracker_translate_same_node : Bool
test_subscription_tracker_translate_same_node =
    is_id (bytes "0x1") (translate_to_client_id heads_tracked (bytes "0x1"))

abbrev test_subscription_tracker_translate_after_reconnect : Bool
test_subscription_tracker_translate_after_reconnect =
    let tracker =
      map_upstream_id (clear_upstream_mappings heads_tracked) (bytes "0x5") (bytes "0x1") in
    is_id (bytes "0x1") (translate_to_client_id tracker (bytes "0x5"))
    && is_unknown (translate_to_client_id tracker (bytes "0x1"))

abbrev test_subscription_tracker_multiple_subscriptions : Bool
test_subscription_tracker_multiple_subscriptions =
    let tracker =
      track_subscribe heads_tracked (bytes "logs" ∷ bytes "{\"address\":\"0xabc\"}" ∷ [])
        (bytes "2") (bytes "0x2") in
    (length (all_subscriptions tracker) == 2)
    && is_id (bytes "0x1") (translate_to_client_id tracker (bytes "0x1"))
    && is_id (bytes "0x2") (translate_to_client_id tracker (bytes "0x2"))

abbrev test_subscription_tracker_remove_subscription : Bool
test_subscription_tracker_remove_subscription =
    let both = track_subscribe heads_tracked new_heads (bytes "2") (bytes "0x2") in
    let tracker = remove_subscription both (bytes "0x1") in
    (length (all_subscriptions both) == 2)
    && (length (all_subscriptions tracker) == 1)
    && is_unknown (translate_to_client_id tracker (bytes "0x1"))
    && is_id (bytes "0x2") (translate_to_client_id tracker (bytes "0x2"))

abbrev test_subscription_tracker_clear_upstream_mappings : Bool
test_subscription_tracker_clear_upstream_mappings =
    let tracker = clear_upstream_mappings heads_tracked in
    is_id (bytes "0x1") (translate_to_client_id heads_tracked (bytes "0x1"))
    && is_unknown (translate_to_client_id tracker (bytes "0x1"))
    && has_subscriptions tracker
    && (length (all_subscriptions tracker) == 1)

-- All of them pass.
passes :
    (test_ws_selection_returns_none_for_unhealthy && test_ws_selection_returns_healthy_node
      && test_subscription_tracker_new_is_empty && test_subscription_tracker_track_subscribe
      && test_subscription_tracker_translate_same_node
      && test_subscription_tracker_translate_after_reconnect
      && test_subscription_tracker_multiple_subscriptions
      && test_subscription_tracker_remove_subscription
      && test_subscription_tracker_clear_upstream_mappings)
    ≡ true
unfolding select_el_node text_eq track_subscribe map_upstream_id translate_to_client_id
    get_all_subscriptions remove_subscription clear_upstream_mappings has_subscriptions get insert
    remove retain values
passes = refl
