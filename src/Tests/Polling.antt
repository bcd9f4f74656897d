-- ===== src/Tests/Polling.antt =====
-- The theorems on the lock of the EL nodes, with a node that is silent and with none.
use vixy.Prelude.{◌≡◌, refl, true, false, List, [], ◌∷◌, ◌++◌, text_eq}
use vixy.State.{ElNodeState, el_from_config}
use vixy.Monitor.{poll_el, poll_el_nodes}
use vixy.Monitor.Polling.{elsewhere, polling, Guarded, answer, Reach, here, next}
use vixy.Monitor.Polling.Silent.{silent_node-blocks}
use vixy.Monitor.Polling.Released.{polls-poll_el_nodes}
use vixy.Tests.Sample.{geth, reth, up}

abbrev primary : ElNodeState
primary = el_from_config geth true

abbrev backup : ElNodeState
backup = record (el_from_config reth false) { is_healthy = true }

abbrev at_rest : Guarded
at_rest = record { nodes = primary ∷ backup ∷ []; turn = elsewhere; reads = [] }

silent_node-blocks_example :
    ([] ≡ at_rest.reads)
    × (checked : List ElNodeState) × (waiting : List ElNodeState) × (rest : List ElNodeState)
    × (polling (poll_el up 0 primary ∷ []) (backup ∷ [])
        ≡ polling checked (waiting ++ backup ∷ rest))
unfolding el_from_config text_eq
silent_node-blocks_example =
    silent_node-blocks (λ url. text_eq url geth.http_url ≡ true) backup (λ e. cc e) at_rest
      (primary ∷ []) [] refl (next here (answer up [] primary (backup ∷ []) refl refl))

polls-poll_el_nodes_example :
    Reach (λ url. Unit {0}) at_rest (record at_rest { nodes = poll_el_nodes up 0 at_rest.nodes })
polls-poll_el_nodes_example = polls-poll_el_nodes (λ url. Unit {0}) at_rest up refl (tt, (tt, tt))
