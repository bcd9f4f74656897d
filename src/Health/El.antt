-- ===== src/Health/El.antt =====
-- health/el.rs: the check of an execution layer node, the chain head and the health of a node.
use vixy.Prelude.{
  ℕ, ◌+◌, ◌-◌, ◌%◌, ◌^◌, max, leb, true, false, ◌&&◌, List, [], ◌∷◌, Option, none, some, Text,
  bytes, is_empty, strip_prefix, Result, ok, err, ok_or, map_err, ◌>>=◌, if◌then◌else◌,
}
use vixy.State.{ElNodeState}
use vixy.Health.Number.{ParseIntError, from_str_radix}
use vixy.Health.Net.{JsonRpcRequest, JsonRpcError, Net}

pub data HexError : Type 0 where
  empty_string empty_after_prefix : HexError
  invalid_number : ParseIntError → HexError

pub data CheckError : Type 0 where
  not_sent bad_response missing_result : CheckError
  rpc : JsonRpcError → CheckError
  bad_number : HexError → CheckError

abbrev pub unwrap_or {ℓ} : {A : Type ℓ} → Option A → A → A
unwrap_or none d = d
unwrap_or (some a) d = a

unfoldable pub parse_hex_block_number : Text → Result HexError ℕ
parse_hex_block_number hex =
    if is_empty hex
    then err empty_string
    else (let hex_str = unwrap_or (strip_prefix (bytes "0x") hex) hex in
        if is_empty hex_str
        then err empty_after_prefix
        else map_err invalid_number (from_str_radix 16 hex_str))

abbrev pub block_number_request : JsonRpcRequest
block_number_request = record {
  jsonrpc = bytes "2.0";
  method = bytes "eth_blockNumber";
  params = [];
  id = 1;
}

-- `Err` if the response carries an error, whatever its result.
abbrev pub no_error : Option JsonRpcError → Result CheckError (Unit {0})
no_error none = ok tt
no_error (some e) = err (rpc e)

unfoldable pub check_el_node : Net → ℕ → Text → Result CheckError ℕ
check_el_node net visit url = do
  response ← ok_or (net.post visit url block_number_request) not_sent
  rpc_response ← ok_or response.json bad_response
  _ ← no_error rpc_response.error
  result ← ok_or rpc_response.result missing_result
  map_err bad_number (parse_hex_block_number result)

unfoldable pub update_el_chain_head : List ElNodeState → ℕ
update_el_chain_head [] = 0
update_el_chain_head (n ∷ nodes) = max n.block_number (update_el_chain_head nodes)

abbrev pub u32_mod : ℕ
u32_mod = 2 ^ 32

-- `lag` is the saturating difference, which `-` on ℕ is; the counter is a `u32` and wraps, as in a
-- release build.
unfoldable pub calculate_el_health : ElNodeState → ℕ → ℕ → ℕ → ElNodeState
calculate_el_health node chain_head max_lag max_failures =
    let lag : ℕ = chain_head - node.block_number in
    let failures : ℕ = (node.consecutive_failures + 1) % u32_mod in
    if node.check_ok && leb lag max_lag
    then record node { lag = lag; consecutive_failures = 0; is_healthy = true }
    else record node {
      lag = lag;
      consecutive_failures = failures;
      is_healthy = if leb max_failures failures then false else node.is_healthy;
    }
