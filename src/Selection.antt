-- ===== src/Selection.antt =====
-- proxy/selection.rs: which node serves a request.
pub mod Choice
use vixy.Prelude.{List, find, Bool, true, false, not, ◌&&◌, Option, none, some}
use vixy.State.{ElNodeState, ClNodeState}

abbrev pub healthy_primary : ElNodeState → Bool
healthy_primary n = n.is_primary && n.is_healthy

abbrev pub healthy_backup : ElNodeState → Bool
healthy_backup n = not n.is_primary && n.is_healthy

unfoldable pub select_el_node : List ElNodeState → Bool → Option ElNodeState
select_el_node nodes failover_active = elim (find healthy_primary nodes) [
  | some n ↦ some n
  | none ↦ elim failover_active [ true ↦ find healthy_backup nodes | false ↦ none ]
]

unfoldable pub select_cl_node : List ClNodeState → Option ClNodeState
select_cl_node nodes = find (λ n. n.is_healthy) nodes
