-- ===== src/Monitor.antt =====
-- monitor.rs: the health checks of all nodes, the chain heads and the failover flag. Each function
-- gives the new state, what the source returns, and its calls of the metrics helpers in order.
-- `net` answers the requests of one cycle, and `visit` numbers the visits to nodes.
pub mod Pass
pub mod Cycle
pub mod Gauges
pub mod Totals
pub mod Series
pub mod Nodes
pub mod Phases
pub mod Refined
pub mod Interleaved
pub mod Bounds
pub mod Outage
pub mod Polling
use vixy.Prelude.{
  ℕ, ◌+◌, ◌==◌, length, Bool, true, false, not, ◌&&◌, ◌||◌, List, [], ◌∷◌, ◌++◌, Text, bytes, ok,
  err, if◌then◌else◌,
}
use vixy.State.{ElNodeState, ClNodeState, AppState}
use vixy.Health.Net.{Net}
use vixy.Health.El.{check_el_node, update_el_chain_head, calculate_el_health}
use vixy.Health.Cl.{check_cl_node, update_cl_chain_head, calculate_cl_health}
use vixy.Metrics.{
  MetricCall, set_el_block_number, set_el_lag, set_el_healthy, set_el_chain_head,
  set_el_healthy_nodes, set_cl_slot, set_cl_lag, set_cl_healthy, set_cl_chain_head,
  set_cl_healthy_nodes, set_el_failover_active, inc_el_failovers,
}

-- The body of the first loop over the EL nodes.
unfoldable pub poll_el : Net → ℕ → ElNodeState → ElNodeState
poll_el net visit node = elim (check_el_node net visit node.http_url) [
  | ok block_number ↦ record node { block_number = block_number; check_ok = true }
  | err e ↦ record node { check_ok = false }
]

unfoldable pub poll_el_nodes : Net → ℕ → List ElNodeState → List ElNodeState
unfolding poll_el
poll_el_nodes net visit [] = []
poll_el_nodes net visit (node ∷ nodes) =
    poll_el net visit node ∷ poll_el_nodes net (visit + 1) nodes

abbrev pub tier : Bool → Text
tier is_primary = if is_primary then bytes "primary" else bytes "backup"

abbrev el_node_calls : ElNodeState → List MetricCall
el_node_calls node =
    set_el_block_number node.name (tier node.is_primary) node.block_number
    ∷ set_el_lag node.name (tier node.is_primary) node.lag
    ∷ set_el_healthy node.name (tier node.is_primary) node.is_healthy
    ∷ []

-- The second loop over the EL nodes, with its two variables.
pub record ElPass : Type 0 where
  pub nodes : List ElNodeState
  pub any_primary_healthy : Bool
  pub healthy_count : ℕ
  pub calls : List MetricCall

-- The two updates of the loop's variables.
abbrev pub note_primary : Bool → ElNodeState → Bool
note_primary any node = if node.is_primary && node.is_healthy then true else any

abbrev pub count_if : Bool → ℕ → ℕ
count_if healthy count = if healthy then count + 1 else count

unfoldable pub el_pass : ℕ → ℕ → ℕ → Bool → ℕ → List ElNodeState → ElPass
el_pass chain_head max_lag max_failures any count [] = record {
  nodes = [];
  any_primary_healthy = any;
  healthy_count = count;
  calls = [];
}
el_pass chain_head max_lag max_failures any count (n ∷ ns) =
    let node = calculate_el_health n chain_head max_lag max_failures in
    let any' = note_primary any node in
    let count' = count_if node.is_healthy count in
    let rest = el_pass chain_head max_lag max_failures any' count' ns in
    record {
      nodes = node ∷ rest.nodes;
      any_primary_healthy = rest.any_primary_healthy;
      healthy_count = rest.healthy_count;
      calls = el_node_calls node ++ rest.calls;
    }

unfoldable pub check_all_el_nodes : Net → ℕ → AppState → AppState × Bool × List MetricCall
check_all_el_nodes net visit state =
    let polled = poll_el_nodes net visit state.el_nodes in
    let chain_head = update_el_chain_head polled in
    let pass = el_pass chain_head state.max_el_lag state.health_check_max_failures false 0 polled in
    (
      record state { el_nodes = pass.nodes; el_chain_head = chain_head },
      pass.any_primary_healthy,
      set_el_chain_head chain_head ∷ pass.calls ++ set_el_healthy_nodes pass.healthy_count ∷ [],
    )

-- The body of the first loop over the CL nodes.
unfoldable pub poll_cl : Net → ℕ → ClNodeState → ClNodeState
poll_cl net visit node = elim (check_cl_node net visit node.url) [
  | ok (health_ok, slot) ↦ record node { health_ok = health_ok; slot = slot }
  | err e ↦ record node { health_ok = false; slot = 0 }
]

unfoldable pub poll_cl_nodes : Net → ℕ → List ClNodeState → List ClNodeState
unfolding poll_cl
poll_cl_nodes net visit [] = []
poll_cl_nodes net visit (node ∷ nodes) =
    poll_cl net visit node ∷ poll_cl_nodes net (visit + 1) nodes

abbrev cl_node_calls : ClNodeState → List MetricCall
cl_node_calls node =
    set_cl_slot node.name node.slot
    ∷ set_cl_lag node.name node.lag
    ∷ set_cl_healthy node.name node.is_healthy
    ∷ []

pub record ClPass : Type 0 where
  pub nodes : List ClNodeState
  pub healthy_count : ℕ
  pub calls : List MetricCall

-- The second loop over the CL nodes.
unfoldable pub cl_pass : ℕ → ℕ → ℕ → ℕ → List ClNodeState → ClPass
cl_pass chain_head max_lag max_failures count [] = record {
  nodes = [];
  healthy_count = count;
  calls = [];
}
cl_pass chain_head max_lag max_failures count (n ∷ ns) =
    let node = calculate_cl_health n chain_head max_lag max_failures in
    let count' = count_if node.is_healthy count in
    let rest = cl_pass chain_head max_lag max_failures count' ns in
    record {
      nodes = node ∷ rest.nodes;
      healthy_count = rest.healthy_count;
      calls = cl_node_calls node ++ rest.calls;
    }

unfoldable pub check_all_cl_nodes : Net → ℕ → AppState → AppState × List MetricCall
check_all_cl_nodes net visit state =
    let polled = poll_cl_nodes net visit state.cl_nodes in
    let chain_head = update_cl_chain_head polled in
    let pass = cl_pass chain_head state.max_cl_lag state.health_check_max_failures 0 polled in
    (
      record state { cl_nodes = pass.nodes; cl_chain_head = chain_head },
      set_cl_chain_head chain_head ∷ pass.calls ++ set_cl_healthy_nodes pass.healthy_count ∷ [],
    )

abbrev differs : Bool → Bool → Bool
differs a b = if a then not b else b

unfoldable pub update_failover_flag : AppState → Bool → AppState × List MetricCall
update_failover_flag state any_primary_healthy =
    let was_failover = state.el_failover_active in
    let is_failover = not any_primary_healthy in
    if differs was_failover is_failover
    then (
      record state { el_failover_active = is_failover },
      set_el_failover_active is_failover ∷ (if is_failover then inc_el_failovers ∷ [] else []),
    )
    else (state, [])

unfoldable pub run_health_check_cycle : Net → ℕ → AppState → AppState × Bool × List MetricCall
run_health_check_cycle net visit state =
    let (s₁, any_primary_healthy, calls₁) = check_all_el_nodes net visit state in
    let (s₂, calls₂) = check_all_cl_nodes net (visit + length state.el_nodes) s₁ in
    let (s₃, calls₃) = update_failover_flag s₂ any_primary_healthy in
    (s₃, any_primary_healthy, calls₁ ++ calls₂ ++ calls₃)

-- The loop of `run_health_monitor`, which never ends: as many cycles as `nets` has entries, the
-- oldest first.
unfoldable pub run_health_monitor : List Net → AppState → AppState × List MetricCall
run_health_monitor [] state = (state, [])
run_health_monitor (net ∷ nets) state =
    let (next, _, calls) = run_health_check_cycle net 0 state in
    let (final, later) = run_health_monitor nets next in (final, calls ++ later)
