-- ===== src/Tests/Interleaving.antt =====
-- The theorems on the single steps of the monitor, at concrete inputs.
use vixy.Prelude.{◌≡◌, ◌⊎◌, refl, any, List, [], ◌∷◌, ◌++◌, map, true, false, text_eq, strip_prefix}
use vixy.State.{ElNodeState, new, el_from_config}
use vixy.Selection.{healthy_primary, select_el_node}
use vixy.Health.Number.{from_str_radix, accumulate, to_digit, checked_mul, checked_add}
use vixy.Health.El.{
  calculate_el_health, check_el_node, parse_hex_block_number, update_el_chain_head,
}
use vixy.Metrics.{inc_el_requests, observe_el_duration}
use vixy.Monitor.{el_pass, poll_el_nodes, poll_el, tier}
use vixy.Monitor.Pass.{identity}
use vixy.Monitor.Phases.{World, waiting, monitor, moved, advance, Reach, here, next}
use vixy.Monitor.Interleaved.{AllUnhealthy}
use vixy.Monitor.Bounds.{InRange, Reach-InRange}
use vixy.Http.{el_proxy_handler, unavailable, no_el_node, forward_request}
use vixy.Http.Interleaved.{Behind, el_proxy_handler-torn, el_proxy_handler-forwards}
use vixy.Tests.Sample.{config, initial, up, backup_only, echo, request}

-- The EL nodes have answered and are assessed.
abbrev pub assessed : World
assessed =
    moved backup_only (moved backup_only (moved up (record { shared = initial; phase = waiting })))

abbrev pub reached : Reach (new config) assessed
reached = next (next (next here (monitor up)) (monitor backup_only)) (monitor backup_only)

Reach-InRange_example : InRange assessed.shared
Reach-InRange_example = Reach-InRange config reached

abbrev refusing : World
refusing =
    moved backup_only
      (moved backup_only (moved backup_only (record { shared = initial; phase = waiting })))

abbrev reached_refusing : Reach (new config) refusing
reached_refusing =
    next (next (next here (monitor backup_only)) (monitor backup_only)) (monitor backup_only)

el_proxy_handler-torn_example :
    AllUnhealthy refusing.shared.el_nodes
    ⊎ ((any healthy_primary refusing.shared.el_nodes ≡ false) × Behind refusing)
unfolding el_proxy_handler select_el_node advance new text_eq el_pass poll_el_nodes poll_el
    calculate_el_health check_el_node parse_hex_block_number strip_prefix from_str_radix accumulate
    to_digit checked_mul checked_add update_el_chain_head el_from_config
el_proxy_handler-torn_example =
    el_proxy_handler-torn echo config reached_refusing refusing.shared request refl

el_proxy_handler-forwards_example :
    (el_proxy_handler echo initial assessed.shared request ≡ (unavailable no_el_node, []))
    ⊎ ((n : ElNodeState) × (before : List _) × (after : List _) × (n.is_healthy ≡ true)
        × (map identity (new config).el_nodes ≡ before ++ identity n ∷ after)
        × (el_proxy_handler echo initial assessed.shared request ≡ (
          forward_request echo request n.http_url,
          inc_el_requests n.name (tier n.is_primary)
              ∷ observe_el_duration n.name (tier n.is_primary) echo.elapsed
              ∷ [],
        )))
el_proxy_handler-forwards_example = el_proxy_handler-forwards echo config initial reached request
