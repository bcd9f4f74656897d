-- ===== src/Tests/Signals.antt =====
-- The theorems on the channel between watcher and proxy loop, at concrete inputs.
use vixy.Prelude.{◌+◌, ◌≡◌, refl, List, [], ◌∷◌, true, false, some, bytes, text_eq, strip_prefix}
use vixy.State.{AppState, ElNodeState, new, el_from_config}
use vixy.Selection.{select_el_node}
use vixy.Health.Number.{from_str_radix, accumulate, to_digit, checked_mul, checked_add}
use vixy.Health.El.{
  calculate_el_health, check_el_node, parse_hex_block_number, update_el_chain_head,
}
use vixy.Monitor.{el_pass, poll_el_nodes, poll_el}
use vixy.Monitor.Phases.{advance}
use vixy.Ws.Messages.{Message}
use vixy.Ws.Session.{Session, ReconnectInfo, start, el_ws_handler}
use vixy.Ws.Watch.{is_node_healthy, health_monitor}
use vixy.Ws.Signals.{Action, tick, take, finish, client, closed, acts, idle}
use vixy.Ws.Signals.Stale.{stale_signal}
use vixy.Ws.Signals.Nodes.{HasNode}
use vixy.Ws.Signals.Configured.{acts-configured}
use vixy.Tests.Codec.{codec}
use vixy.Tests.Sample.{config, initial, geth, reth}
use vixy.Tests.Interleaving.{assessed, reached}

abbrev on_geth : Session codec
on_geth = start codec [] geth.name

abbrev healthy_reth : ElNodeState
healthy_reth = record (el_from_config reth false) { is_healthy = true }

-- The primary has failed, the backup is in service.
abbrev failed_over : AppState
failed_over = record initial {
  el_nodes = el_from_config geth true ∷ healthy_reth ∷ [];
  el_failover_active = true;
}

abbrev to_reth : ReconnectInfo
to_reth = record { node_name = reth.name; ws_url = reth.ws_url }

abbrev actions : List (Action codec)
actions =
    tick failed_over failed_over failed_over
    ∷ client true (Message.text (bytes "hi"))
    ∷ take
    ∷ finish (λ subs. subs) true (λ n. true)
    ∷ []

stale_signal_example :
    let moved = acts codec (idle codec on_geth) (
      tick failed_over failed_over failed_over
      ∷ tick failed_over failed_over failed_over
      ∷ take
      ∷ finish (λ subs. subs) true (λ n. true)
      ∷ []) in
    let again = acts codec moved (take ∷ finish (λ subs. subs) true (λ n. true) ∷ []) in
    (moved.session.current_node ≡ reth.name)
    × (moved.queued ≡ some to_reth)
    × (again.session.current_node ≡ reth.name)
    × (again.session.connection ≡ 0 + 2)
unfolding health_monitor is_node_healthy select_el_node el_from_config text_eq
stale_signal_example =
    stale_signal codec on_geth to_reth (λ subs. subs) failed_over failed_over failed_over
      failed_over failed_over failed_over refl refl refl

abbrev rounds : List (Action codec)
rounds =
    tick assessed.shared assessed.shared assessed.shared
    ∷ take
    ∷ finish (λ subs. subs) true (λ n. true)
    ∷ closed
    ∷ []

acts-configured_example :
    HasNode config (acts codec (idle codec (start codec [] geth.name)) rounds).session.current_node
unfolding el_ws_handler select_el_node advance new text_eq el_pass poll_el_nodes poll_el
    calculate_el_health check_el_node parse_hex_block_number strip_prefix from_str_radix accumulate
    to_digit checked_mul checked_add update_el_chain_head el_from_config
acts-configured_example =
    acts-configured codec config initial [] geth.name geth.ws_url rounds reached refl
      ((assessed, reached, refl), (tt, (tt, (tt, tt))))
