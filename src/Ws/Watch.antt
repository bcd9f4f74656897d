-- ===== src/Ws/Watch.antt =====
-- proxy/ws.rs, `health_monitor`: the task that watches the node of a connection.
pub mod Moves
use vixy.Prelude.{
  ◌≡◌, Bool, true, false, find, Option, none, some, Text, text_eq, if◌then◌else◌, not,
}
use vixy.State.{ElNodeState, AppState}
use vixy.Selection.{select_el_node}
use vixy.Ws.Session.{ReconnectInfo}

-- An unknown node is unhealthy.
unfoldable pub is_node_healthy : AppState → Text → Bool
is_node_healthy s node_name = elim (find (λ n. text_eq n.name node_name) s.el_nodes) [
  | none ↦ false
  | some n ↦ n.is_healthy
]

-- The flag is loaded in state `early`, the nodes are read in state `s`.
unfoldable pub select_healthy_node : AppState → AppState → Option (Text × Text)
select_healthy_node early s = elim (select_el_node s.el_nodes early.el_failover_active) [
  | none ↦ none
  | some n ↦ some (n.name, n.ws_url)
]

-- One round of the loop: the signal that it sends, if any. The current node is looked up in state
-- `s₀`, the flag loaded in `s₁`, and the new node chosen in `s₂`.
unfoldable pub health_monitor : AppState → AppState → AppState → Text → Option ReconnectInfo
unfolding is_node_healthy select_healthy_node
health_monitor s₀ s₁ s₂ node_name =
    if is_node_healthy s₀ node_name then none else elim (select_healthy_node s₁ s₂) [
      | none ↦ none
      | some (new_name, new_url) ↦
          if text_eq new_name node_name
          then none
          else some (record { node_name = new_name; ws_url = new_url })
    ]
