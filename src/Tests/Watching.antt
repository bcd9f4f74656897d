-- ===== src/Tests/Watching.antt =====
-- The theorems on the watcher of a connection and on the gauge of connections, at concrete inputs.
use vixy.Prelude.{
  List, [], ◌∷◌, ◌≡◌, ◌↔◌, refl, true, false, All, none, bytes, text_eq, strip_prefix,
  if◌then◌else◌,
}
use vixy.State.{AppState, ElNodeState, new, el_from_config}
use vixy.Health.Number.{from_str_radix, accumulate, to_digit, checked_mul, checked_add}
use vixy.Health.El.{
  calculate_el_health, check_el_node, parse_hex_block_number, update_el_chain_head,
}
use vixy.Monitor.{
  run_health_check_cycle, run_health_monitor, update_failover_flag, check_all_cl_nodes,
  check_all_el_nodes, el_pass, poll_el_nodes,
}
use vixy.Ws.Session.{ReconnectInfo}
use vixy.Ws.Watch.{is_node_healthy, health_monitor}
use vixy.Ws.Watch.Moves.{health_monitor-moves}
use vixy.Metrics.{record_calls}
use vixy.Ws.Messages.{Message}
use vixy.Ws.Session.{Event, from_client, channels_closed, handle_websocket}
use vixy.Ws.Session.Gauge.{handle_websocket-connections}
use vixy.Tests.Codec.{codec}
use vixy.Tests.Cycles.{numbers, numbers_laws, fresh}
use vixy.Tests.Sample.{initial, backup_only, geth}

health_monitor-moves_example :
    let t = (run_health_monitor (backup_only ∷ []) initial).0 in
    (health_monitor t t t geth.name ≡ none) ↔ All (λ n. n.is_healthy ≡ false) t.el_nodes
unfolding new text_eq is_node_healthy run_health_monitor run_health_check_cycle update_failover_flag
    check_all_cl_nodes check_all_el_nodes el_pass poll_el_nodes calculate_el_health check_el_node
    parse_hex_block_number strip_prefix from_str_radix accumulate to_digit checked_mul checked_add
    update_el_chain_head
health_monitor-moves_example =
    health_monitor-moves backup_only [] initial geth.name ((refl, tt), (tt, tt)) refl

abbrev healthy_geth : ElNodeState
healthy_geth = record (el_from_config geth true) { is_healthy = true }

abbrev one_node : AppState
one_node = record initial { el_nodes = healthy_geth ∷ []; el_failover_active = false }

abbrev to_geth : ReconnectInfo
to_geth = record { node_name = geth.name; ws_url = geth.ws_url }

abbrev pub visit : List (Event codec)
visit = from_client true (Message.text (bytes "hi")) ∷ channels_closed ∷ []

handle_websocket-connections_example :
    let s = handle_websocket codec (λ subs. subs) geth.name true visit in
    (record_calls numbers s.books.calls fresh).ws_connections ≡ (if s.is_open then 1 else 0)
handle_websocket-connections_example =
    handle_websocket-connections codec numbers numbers_laws fresh (λ subs. subs) geth.name true
      visit
