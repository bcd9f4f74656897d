-- ===== src/Health/Cl.antt =====
-- health/cl.rs: the check of a consensus layer node, the chain head and the health of a node.
use vixy.Prelude.{
  ℕ, ◌+◌, ◌-◌, ◌%◌, max, leb, Bool, true, false, ◌&&◌, List, [], ◌∷◌, ◌++◌, none, some, Text, bytes,
  trim_end_matches, Result, ok, ok_or, map_err, ◌>>=◌, if◌then◌else◌,
}
use vixy.State.{ClNodeState}
use vixy.Health.Number.{ParseIntError, from_str_radix}
use vixy.Health.Net.{Net}
use vixy.Health.El.{u32_mod}

pub data SlotError : Type 0 where
  not_sent bad_header : SlotError
  bad_slot : ParseIntError → SlotError

abbrev pub health_url : Text → Text
health_url url = trim_end_matches b'/' url ++ bytes "/eth/v1/node/health"

abbrev pub headers_url : Text → Text
headers_url url = trim_end_matches b'/' url ++ bytes "/eth/v1/beacon/headers/head"

-- A failed connection is no error, but means unhealthy.
unfoldable pub check_cl_health : Net → ℕ → Text → Result SlotError Bool
check_cl_health net visit url = elim (net.fetch visit (health_url url)) [
  | none ↦ ok false
  | some response ↦ ok (net.is_success response.status)
]

unfoldable pub check_cl_slot : Net → ℕ → Text → Result SlotError ℕ
check_cl_slot net visit url = do
  response ← ok_or (net.fetch visit (headers_url url)) not_sent
  header ← ok_or response.json bad_header
  map_err bad_slot (from_str_radix 10 header.body.header.message.slot)

unfoldable pub check_cl_node : Net → ℕ → Text → Result SlotError (Bool × ℕ)
check_cl_node net visit url = do
  health_ok ← check_cl_health net visit url
  slot ← check_cl_slot net visit url
  ok (health_ok, slot)

unfoldable pub update_cl_chain_head : List ClNodeState → ℕ
update_cl_chain_head [] = 0
update_cl_chain_head (n ∷ nodes) = max n.slot (update_cl_chain_head nodes)

unfoldable pub calculate_cl_health : ClNodeState → ℕ → ℕ → ℕ → ClNodeState
calculate_cl_health node chain_head max_lag max_failures =
    let lag : ℕ = chain_head - node.slot in
    let failures : ℕ = (node.consecutive_failures + 1) % u32_mod in
    if node.health_ok && leb lag max_lag
    then record node { lag = lag; consecutive_failures = 0; is_healthy = true }
    else record node {
      lag = lag;
      consecutive_failures = failures;
      is_healthy = if leb max_failures failures then false else node.is_healthy;
    }
