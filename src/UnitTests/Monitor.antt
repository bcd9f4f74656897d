-- ===== src/UnitTests/Monitor.antt =====
-- The unit tests of monitor.rs, but for the one that waits for the interval. A configuration is as
-- the TOML decoder leaves it.
use vixy.Prelude.{
  ℕ, ◌+◌, ◌==◌, ◌≡◌, refl, Bool, true, false, not, ◌&&◌, leb, ltb, List, [], ◌∷◌, ◌++◌, none, some,
  Text, bytes, text_eq, is_empty, trim_end_matches, strip_prefix, if◌then◌else◌,
}
use vixy.Config.{Config, ElNode, Cl, default_global, default_metrics}
use vixy.State.{ElNodeState, ClNodeState, AppState, el_from_config, cl_from_config, new}
use vixy.Health.Number.{from_str_radix, accumulate, to_digit, checked_mul, checked_add}
use vixy.Health.Net.{Net, Reply, JsonRpcResponse}
use vixy.Health.El.{
  parse_hex_block_number, check_el_node, calculate_el_health, update_el_chain_head,
}
use vixy.Health.Cl.{
  check_cl_health, check_cl_slot, check_cl_node, calculate_cl_health, update_cl_chain_head,
}
use vixy.Monitor.{
  poll_el, poll_el_nodes, el_pass, check_all_el_nodes, poll_cl, poll_cl_nodes, cl_pass,
  check_all_cl_nodes, update_failover_flag,
}

-- The nodes with the URLs, named by the prefix and their index, which is one digit.
abbrev el_config : Text → ℕ → List Text → List ElNode
el_config prefix i [] = []
el_config prefix i (url ∷ urls) =
    record { name = prefix ++ ((b'0' + i) ∷ []); http_url = url; ws_url = url }
    ∷ el_config prefix (i + 1) urls

abbrev cl_config : ℕ → List Text → List Cl
cl_config i [] = []
cl_config i (url ∷ urls) =
    record { name = bytes "lighthouse-" ++ ((b'0' + i) ∷ []); url = url } ∷ cl_config (i + 1) urls

abbrev dummy_cl : Cl
dummy_cl = record { name = bytes "dummy-cl"; url = bytes "http://localhost:5052" }

abbrev create_config_with_backup : Text → List Text → List Text → List Text → Config
create_config_with_backup primary_prefix primary_urls backup_urls cl_urls = record {
  global = record default_global {
    max_el_lag_blocks = 5;
    max_cl_lag_slots = 3;
    health_check_interval_ms = 100;
  };
  metrics = default_metrics;
  el = record {
    primary = el_config primary_prefix 0 primary_urls;
    backup = el_config (bytes "backup-") 0 backup_urls;
  };
  cl = if is_empty cl_urls then dummy_cl ∷ [] else cl_config 0 cl_urls;
}

abbrev create_test_config : List Text → List Text → Config
create_test_config el_urls cl_urls = create_config_with_backup (bytes "geth-") el_urls [] cl_urls

abbrev block_number_is : Text → Reply JsonRpcResponse
block_number_is number = record {
  status = 200;
  json = some (record { result = some number; error = none });
}

abbrev not_mocked : Reply JsonRpcResponse
not_mocked = record { status = 404; json = none }

abbrev is_success : ℕ → Bool
is_success code = leb 200 code && ltb code 300

abbrev one : Text
one = bytes "http://127.0.0.1:8001"

abbrev two : Text
two = bytes "http://127.0.0.1:8002"

-- Two mocked EL servers, by their URLs.
abbrev el_servers : Reply JsonRpcResponse → Reply JsonRpcResponse → Net
el_servers first second = record {
  post = λ visit url request. some (if text_eq url one then first else second);
  fetch = λ visit url. none;
  is_success = is_success;
}

-- A mocked CL server, with the status of its health endpoint and its head slot.
abbrev cl_server : ℕ → Text → Net
cl_server health slot = record {
  post = λ visit url request. some (block_number_is (bytes "0x1"));
  fetch = λ visit url.
      if text_eq url (two ++ bytes "/eth/v1/node/health")
      then some (record { status = health; json = none })
      else if text_eq url (two ++ bytes "/eth/v1/beacon/headers/head")
      then some (record {
        status = 200;
        json =
            some
              (record { body = record { header = record { message = record { slot = slot } } } });
      })
      else some (record { status = 404; json = none });
  is_success = is_success;
}

abbrev first_el : (ElNodeState → Bool) → List ElNodeState → Bool
first_el p [] = false
first_el p (n ∷ ns) = p n

abbrev first_cl : (ClNodeState → Bool) → List ClNodeState → Bool
first_cl p [] = false
first_cl p (n ∷ ns) = p n

abbrev lags_are : ℕ → ℕ → List ElNodeState → Bool
lags_are a b (n ∷ m ∷ ns) = (n.lag == a) && (m.lag == b)
lags_are a b _ = false

abbrev test_monitor_updates_el_node_state : Bool
test_monitor_updates_el_node_state =
    let net = el_servers (block_number_is (bytes "0x3e8")) not_mocked in
    let state = (check_all_el_nodes net 0 (new (create_test_config (one ∷ []) []))).0 in
    first_el (λ n. (n.block_number == 1000) && n.is_healthy && (n.lag == 0)) state.el_nodes

abbrev test_monitor_updates_cl_node_state : Bool
test_monitor_updates_cl_node_state =
    let net = cl_server 200 (bytes "5000") in
    let state = (check_all_cl_nodes net 0 (new (create_test_config (one ∷ []) (two ∷ [])))).0 in
    first_cl (λ n. (n.slot == 5000) && n.health_ok && n.is_healthy && (n.lag == 0)) state.cl_nodes

abbrev test_monitor_calculates_chain_head : Bool
test_monitor_calculates_chain_head =
    let net = el_servers (block_number_is (bytes "0x3e8")) (block_number_is (bytes "0x3eb")) in
    let state = (check_all_el_nodes net 0 (new (create_test_config (one ∷ two ∷ []) []))).0 in
    (state.el_chain_head == 1003) && lags_are 3 0 state.el_nodes

abbrev test_monitor_sets_failover_flag : Bool
test_monitor_sets_failover_flag =
    let config = create_config_with_backup (bytes "primary-") (one ∷ []) (two ∷ []) [] in
    let net = el_servers not_mocked (block_number_is (bytes "0x3e8")) in
    let start = new config in
    let (checked, any_primary_healthy, _) = check_all_el_nodes net 0 start in
    not start.el_failover_active
    && (update_failover_flag checked any_primary_healthy).0.el_failover_active

abbrev test_monitor_clears_failover_when_primary_recovers : Bool
test_monitor_clears_failover_when_primary_recovers =
    let config = create_config_with_backup (bytes "primary-") (one ∷ []) (two ∷ []) [] in
    let net = el_servers (block_number_is (bytes "0x3e8")) (block_number_is (bytes "0x3e8")) in
    let start : AppState = record (new config) { el_failover_active = true } in
    let (checked, any_primary_healthy, _) = check_all_el_nodes net 0 start in
    not (update_failover_flag checked any_primary_healthy).0.el_failover_active

abbrev test_el_node_marked_unhealthy_on_connection_failure : Bool
test_el_node_marked_unhealthy_on_connection_failure =
    let net = el_servers not_mocked not_mocked in
    let state = (check_all_el_nodes net 0 (new (create_test_config (one ∷ []) []))).0 in
    first_el (λ n. not n.is_healthy) state.el_nodes

abbrev test_cl_node_marked_unhealthy_on_health_endpoint_failure : Bool
test_cl_node_marked_unhealthy_on_health_endpoint_failure =
    let net = cl_server 503 (bytes "1000") in
    let state = (check_all_cl_nodes net 0 (new (create_test_config (one ∷ []) (two ∷ [])))).0 in
    first_cl (λ n. not n.health_ok && not n.is_healthy) state.cl_nodes

-- All of them pass.
passes :
    (test_monitor_updates_el_node_state && test_monitor_updates_cl_node_state
      && test_monitor_calculates_chain_head && test_monitor_sets_failover_flag
      && test_monitor_clears_failover_when_primary_recovers
      && test_el_node_marked_unhealthy_on_connection_failure
      && test_cl_node_marked_unhealthy_on_health_endpoint_failure)
    ≡ true
unfolding new el_from_config cl_from_config text_eq trim_end_matches strip_prefix from_str_radix
    accumulate to_digit checked_mul checked_add parse_hex_block_number check_el_node
    calculate_el_health update_el_chain_head check_cl_health check_cl_slot check_cl_node
    calculate_cl_health update_cl_chain_head poll_el poll_el_nodes el_pass check_all_el_nodes
    poll_cl poll_cl_nodes cl_pass check_all_cl_nodes update_failover_flag
passes = refl
