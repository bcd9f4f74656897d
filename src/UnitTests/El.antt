-- ===== src/UnitTests/El.antt =====
-- The unit tests of health/el.rs.
use vixy.Prelude.{
  ℕ, ◌==◌, ◌≡◌, refl, Bool, true, false, not, ◌&&◌, [], ◌∷◌, none, some, Text, bytes, text_eq,
  is_empty, strip_prefix, Result, ok, err, if◌then◌else◌,
}
use vixy.State.{ElNodeState}
use vixy.Health.Number.{from_str_radix, accumulate, to_digit, checked_mul, checked_add}
use vixy.Health.Net.{Net, Reply, JsonRpcRequest, JsonRpcResponse}
use vixy.Health.El.{
  parse_hex_block_number, check_el_node, calculate_el_health, update_el_chain_head,
}

abbrev ok_is {ℓ} : {E : Type ℓ} → ℕ → Result E ℕ → Bool
ok_is n (ok m) = m == n
ok_is n (err e) = false

abbrev is_err {ℓ κ} : {E : Type ℓ} {A : Type κ} → Result E A → Bool
is_err (ok a) = false
is_err (err e) = true

abbrev test_parse_hex_block_number_with_prefix : Bool
test_parse_hex_block_number_with_prefix = ok_is 68943 (parse_hex_block_number (bytes "0x10d4f"))

abbrev test_parse_hex_block_number_without_prefix : Bool
test_parse_hex_block_number_without_prefix = ok_is 68943 (parse_hex_block_number (bytes "10d4f"))

abbrev test_parse_hex_block_number_zero : Bool
test_parse_hex_block_number_zero = ok_is 0 (parse_hex_block_number (bytes "0x0"))

abbrev test_parse_hex_block_number_large : Bool
test_parse_hex_block_number_large = ok_is 5000000000 (parse_hex_block_number (bytes "0x12A05F200"))

abbrev test_parse_hex_block_number_invalid : Bool
test_parse_hex_block_number_invalid = is_err (parse_hex_block_number (bytes "not-hex"))

abbrev test_parse_hex_block_number_empty : Bool
test_parse_hex_block_number_empty = is_err (parse_hex_block_number [])

-- A mocked server, which answers `POST`.
abbrev mock_server : (JsonRpcRequest → Reply JsonRpcResponse) → Net
mock_server respond = record {
  post = λ visit url request. some (respond request);
  fetch = λ visit url. none;
  is_success = λ code. true;
}

abbrev uri : Text
uri = bytes "http://127.0.0.1:8545"

abbrev not_mocked : Reply JsonRpcResponse
not_mocked = record { status = 404; json = none }

abbrev result_is : Text → Reply JsonRpcResponse
result_is text = record { status = 200; json = some (record { result = some text; error = none }) }

abbrev is_block_number_request : JsonRpcRequest → Bool
is_block_number_request request =
    text_eq request.jsonrpc (bytes "2.0")
    && text_eq request.method (bytes "eth_blockNumber")
    && is_empty request.params
    && (request.id == 1)

abbrev test_check_el_node_success : Bool
test_check_el_node_success =
    let server = mock_server (λ request.
      if is_block_number_request request then result_is (bytes "0x10d4f") else not_mocked) in
    ok_is 68943 (check_el_node server 0 uri)

abbrev test_check_el_node_timeout : Bool
test_check_el_node_timeout = is_err (check_el_node (mock_server (λ request. not_mocked)) 0 uri)

abbrev test_check_el_node_invalid_response : Bool
test_check_el_node_invalid_response =
    is_err (check_el_node (mock_server (λ request. result_is (bytes "not-a-hex-number"))) 0 uri)

abbrev make_el_node : Text → ℕ → Bool → ElNodeState
make_el_node name block_number check_ok = record {
  name = name;
  http_url = bytes "http://localhost:8545";
  ws_url = bytes "ws://localhost:8546";
  is_primary = true;
  block_number = block_number;
  check_ok = check_ok;
  is_healthy = false;
  lag = 0;
  consecutive_failures = 0;
}

abbrev test_calculate_el_lag : Bool
test_calculate_el_lag =
    let node = calculate_el_health (make_el_node (bytes "test") 1000 true) 1005 10 3 in
    node.lag == 5

abbrev test_el_node_healthy_within_lag : Bool
test_el_node_healthy_within_lag =
    let node = calculate_el_health (make_el_node (bytes "test") 1000 true) 1002 5 3 in
    node.is_healthy && (node.lag == 2)

-- A node that fails three checks, with its lag behind them.
abbrev fails_three_times : ElNodeState → ℕ → Bool
fails_three_times node lag =
    let first = calculate_el_health node 1000 5 3 in
    let second = calculate_el_health first 1000 5 3 in
    let third = calculate_el_health second 1000 5 3 in
    (first.consecutive_failures == 1)
    && first.is_healthy
    && (second.consecutive_failures == 2)
    && second.is_healthy
    && (third.consecutive_failures == 3)
    && not third.is_healthy
    && (third.lag == lag)

abbrev test_el_node_unhealthy_exceeds_lag : Bool
test_el_node_unhealthy_exceeds_lag =
    fails_three_times (record (make_el_node (bytes "test") 990 true) { is_healthy = true }) 10

abbrev test_el_node_healthy_at_exact_max_lag : Bool
test_el_node_healthy_at_exact_max_lag =
    let node = calculate_el_health (make_el_node (bytes "test") 995 true) 1000 5 3 in
    node.is_healthy && (node.lag == 5)

abbrev test_el_node_unhealthy_when_check_fails : Bool
test_el_node_unhealthy_when_check_fails =
    fails_three_times (record (make_el_node (bytes "test") 1000 false) { is_healthy = true }) 0

abbrev test_el_node_consecutive_failures_reset_on_recovery : Bool
test_el_node_consecutive_failures_reset_on_recovery =
    let node : ElNodeState = record (make_el_node (bytes "test") 990 true) { is_healthy = true } in
    let first = calculate_el_health node 1000 5 3 in
    let second = calculate_el_health first 1000 5 3 in
    let recovered = calculate_el_health (record second { block_number = 1000 }) 1000 5 3 in
    (first.consecutive_failures == 1)
    && first.is_healthy
    && (second.consecutive_failures == 2)
    && second.is_healthy
    && (recovered.consecutive_failures == 0)
    && recovered.is_healthy

abbrev test_update_chain_head_finds_max : Bool
test_update_chain_head_finds_max =
    update_el_chain_head (
      make_el_node (bytes "node1") 1000 true
      ∷ make_el_node (bytes "node2") 1005 true
      ∷ make_el_node (bytes "node3") 998 true
      ∷ [])
    == 1005

abbrev test_update_chain_head_single_node : Bool
test_update_chain_head_single_node =
    update_el_chain_head (make_el_node (bytes "node1") 1000 true ∷ []) == 1000

abbrev test_update_chain_head_empty_returns_zero : Bool
test_update_chain_head_empty_returns_zero = update_el_chain_head [] == 0

-- All of them pass.
passes :
    (test_parse_hex_block_number_with_prefix && test_parse_hex_block_number_without_prefix
      && test_parse_hex_block_number_zero && test_parse_hex_block_number_large
      && test_parse_hex_block_number_invalid && test_parse_hex_block_number_empty
      && test_check_el_node_success && test_check_el_node_timeout
      && test_check_el_node_invalid_response && test_calculate_el_lag
      && test_el_node_healthy_within_lag && test_el_node_unhealthy_exceeds_lag
      && test_el_node_healthy_at_exact_max_lag && test_el_node_unhealthy_when_check_fails
      && test_el_node_consecutive_failures_reset_on_recovery && test_update_chain_head_finds_max
      && test_update_chain_head_single_node && test_update_chain_head_empty_returns_zero)
    ≡ true
unfolding parse_hex_block_number strip_prefix from_str_radix accumulate to_digit checked_mul
    checked_add check_el_node text_eq calculate_el_health update_el_chain_head
passes = refl
