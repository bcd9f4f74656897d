-- ===== src/UnitTests/Cl.antt =====
-- The unit tests of health/cl.rs.
use vixy.Prelude.{
  ℕ, ◌==◌, ◌≡◌, refl, Bool, true, false, not, ◌&&◌, leb, ltb, [], ◌∷◌, ◌++◌, none, some, Text,
  bytes, text_eq, trim_end_matches, Result, ok, err, if◌then◌else◌,
}
use vixy.State.{ClNodeState}
use vixy.Health.Number.{from_str_radix, accumulate, to_digit, checked_mul, checked_add}
use vixy.Health.Net.{Net, Reply, BeaconHeaderResponse}
use vixy.Health.Cl.{check_cl_health, check_cl_slot, calculate_cl_health, update_cl_chain_head}

abbrev ok_true {ℓ} : {E : Type ℓ} → Result E Bool → Bool
ok_true (ok b) = b
ok_true (err e) = false

abbrev ok_false {ℓ} : {E : Type ℓ} → Result E Bool → Bool
ok_false (ok b) = not b
ok_false (err e) = false

abbrev ok_is {ℓ} : {E : Type ℓ} → ℕ → Result E ℕ → Bool
ok_is n (ok m) = m == n
ok_is n (err e) = false

abbrev is_err {ℓ κ} : {E : Type ℓ} {A : Type κ} → Result E A → Bool
is_err (ok a) = false
is_err (err e) = true

abbrev uri : Text
uri = bytes "http://127.0.0.1:5052"

abbrev not_mocked : Reply BeaconHeaderResponse
not_mocked = record { status = 404; json = none }

-- A mocked server, which answers `GET` of one path.
abbrev mock_server : Text → Reply BeaconHeaderResponse → Net
mock_server path reply = record {
  post = λ visit url request. none;
  fetch = λ visit url. some (if text_eq url (uri ++ path) then reply else not_mocked);
  is_success = λ code. leb 200 code && ltb code 300;
}

-- No server listens there.
abbrev no_server : Net
no_server = record {
  post = λ visit url request. none;
  fetch = λ visit url. none;
  is_success = λ code. leb 200 code && ltb code 300;
}

abbrev status_is : ℕ → Reply BeaconHeaderResponse
status_is code = record { status = code; json = none }

abbrev slot_is : Text → Reply BeaconHeaderResponse
slot_is slot = record {
  status = 200;
  json = some (record { body = record { header = record { message = record { slot = slot } } } });
}

abbrev test_check_cl_health_returns_true_on_200 : Bool
test_check_cl_health_returns_true_on_200 =
    ok_true (check_cl_health (mock_server (bytes "/eth/v1/node/health") (status_is 200)) 0 uri)

abbrev test_check_cl_health_returns_false_on_503 : Bool
test_check_cl_health_returns_false_on_503 =
    ok_false (check_cl_health (mock_server (bytes "/eth/v1/node/health") (status_is 503)) 0 uri)

abbrev test_check_cl_health_returns_false_on_connection_failure : Bool
test_check_cl_health_returns_false_on_connection_failure =
    ok_false (check_cl_health no_server 0 (bytes "http://localhost:99999"))

abbrev test_check_cl_slot_parses_json : Bool
test_check_cl_slot_parses_json =
    let server = mock_server (bytes "/eth/v1/beacon/headers/head") (slot_is (bytes "12345")) in
    ok_is 12345 (check_cl_slot server 0 uri)

abbrev test_check_cl_slot_invalid_json : Bool
test_check_cl_slot_invalid_json =
    is_err (check_cl_slot (mock_server (bytes "/eth/v1/beacon/headers/head") (status_is 200)) 0 uri)

abbrev make_cl_node : Text → ℕ → Bool → ClNodeState
make_cl_node name slot health_ok = record {
  name = name;
  url = bytes "http://localhost:5052";
  slot = slot;
  health_ok = health_ok;
  is_healthy = false;
  lag = 0;
  consecutive_failures = 0;
}

abbrev test_calculate_cl_lag : Bool
test_calculate_cl_lag =
    let node = calculate_cl_health (make_cl_node (bytes "test") 1000 true) 1005 10 3 in
    node.lag == 5

-- A node that fails three checks, with its lag behind them.
abbrev fails_three_times : ClNodeState → ℕ → Bool
fails_three_times node lag =
    let first = calculate_cl_health node 1000 3 3 in
    let second = calculate_cl_health first 1000 3 3 in
    let third = calculate_cl_health second 1000 3 3 in
    (first.consecutive_failures == 1)
    && first.is_healthy
    && (second.consecutive_failures == 2)
    && second.is_healthy
    && (third.consecutive_failures == 3)
    && not third.is_healthy
    && (third.lag == lag)

abbrev test_cl_node_unhealthy_when_health_fails : Bool
test_cl_node_unhealthy_when_health_fails =
    fails_three_times (record (make_cl_node (bytes "test") 1000 false) { is_healthy = true }) 0

abbrev test_cl_node_unhealthy_when_lagging : Bool
test_cl_node_unhealthy_when_lagging =
    fails_three_times (record (make_cl_node (bytes "test") 990 true) { is_healthy = true }) 10

abbrev test_cl_node_healthy_when_both_pass : Bool
test_cl_node_healthy_when_both_pass =
    let node = calculate_cl_health (make_cl_node (bytes "test") 998 true) 1000 3 3 in
    node.is_healthy && (node.lag == 2)

abbrev test_cl_node_healthy_at_exact_max_lag : Bool
test_cl_node_healthy_at_exact_max_lag =
    let node = calculate_cl_health (make_cl_node (bytes "test") 997 true) 1000 3 3 in
    node.is_healthy && (node.lag == 3)

abbrev test_cl_node_consecutive_failures_reset_on_recovery : Bool
test_cl_node_consecutive_failures_reset_on_recovery =
    let node : ClNodeState = record (make_cl_node (bytes "test") 990 true) { is_healthy = true } in
    let first = calculate_cl_health node 1000 3 3 in
    let second = calculate_cl_health first 1000 3 3 in
    let recovered = calculate_cl_health (record second { slot = 1000 }) 1000 3 3 in
    (first.consecutive_failures == 1)
    && first.is_healthy
    && (second.consecutive_failures == 2)
    && second.is_healthy
    && (recovered.consecutive_failures == 0)
    && recovered.is_healthy

abbrev test_update_cl_chain_head_finds_max : Bool
test_update_cl_chain_head_finds_max =
    update_cl_chain_head (
      make_cl_node (bytes "node1") 1000 true
      ∷ make_cl_node (bytes "node2") 1005 true
      ∷ make_cl_node (bytes "node3") 998 true
      ∷ [])
    == 1005

abbrev test_update_cl_chain_head_single_node : Bool
test_update_cl_chain_head_single_node =
    update_cl_chain_head (make_cl_node (bytes "node1") 1000 true ∷ []) == 1000

abbrev test_update_cl_chain_head_empty_returns_zero : Bool
test_update_cl_chain_head_empty_returns_zero = update_cl_chain_head [] == 0

-- All of them pass.
passes :
    (test_check_cl_health_returns_true_on_200 && test_check_cl_health_returns_false_on_503
      && test_check_cl_health_returns_false_on_connection_failure && test_check_cl_slot_parses_json
      && test_check_cl_slot_invalid_json && test_calculate_cl_lag
      && test_cl_node_unhealthy_when_health_fails && test_cl_node_unhealthy_when_lagging
      && test_cl_node_healthy_when_both_pass && test_cl_node_healthy_at_exact_max_lag
      && test_cl_node_consecutive_failures_reset_on_recovery && test_update_cl_chain_head_finds_max
      && test_update_cl_chain_head_single_node && test_update_cl_chain_head_empty_returns_zero)
    ≡ true
unfolding check_cl_health check_cl_slot from_str_radix accumulate to_digit checked_mul checked_add
    text_eq trim_end_matches calculate_cl_health update_cl_chain_head
passes = refl
