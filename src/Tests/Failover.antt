-- ===== src/Tests/Failover.antt =====
-- The theorems on failover, at an outage of the only primary.
use vixy.Prelude.{◌+◌, ◌≡◌, some, refl, true, false, List, [], ◌∷◌, text_eq, strip_prefix, arith}
use vixy.State.{ElNodeState, new}
use vixy.Selection.{healthy_primary, healthy_backup, select_el_node}
use vixy.Selection.Choice.{IsFirst}
use vixy.Health.Net.{Net}
use vixy.Health.Number.{from_str_radix, accumulate, to_digit, checked_mul, checked_add}
use vixy.Health.El.{
  calculate_el_health, check_el_node, parse_hex_block_number, update_el_chain_head,
}
use vixy.Monitor.{
  run_health_check_cycle, run_health_monitor, update_failover_flag, check_all_cl_nodes,
  check_all_el_nodes, el_pass, poll_el_nodes,
}
use vixy.Ws.Messages.{Message, UpstreamMessage, handle_client_message, handle_upstream_message}
use vixy.Ws.Session.{
  Session, from_client, from_upstream, start, run_loop, step, on_event, on_client, on_upstream,
}
use vixy.Ws.Watch.{is_node_healthy}
use vixy.Ws.Signals.{tick, take, finish, acts, idle}
use vixy.Ws.Signals.Moving.{replayed, watcher-moves}
use vixy.Tests.Codec.{codec}
use vixy.Tests.Sockets.{subscribe_text, answer_text}
use vixy.Http.{el_proxy_handler}
use vixy.Http.Failover.{served_by, el_proxy_handler-fails_over, el_proxy_handler-fails_back}
use vixy.Tests.Sample.{initial, geth, up, backup_only, echo, request}

abbrev outage : List Net
outage = backup_only ∷ backup_only ∷ backup_only ∷ []

el_proxy_handler-fails_over_example :
    let t = (run_health_monitor outage (run_health_monitor (up ∷ []) initial).0).0 in
    (t.el_failover_active ≡ true)
    × (n : ElNodeState) × IsFirst healthy_backup t.el_nodes n
    × (el_proxy_handler echo t t request ≡ served_by echo request n)
unfolding new text_eq run_health_monitor run_health_check_cycle update_failover_flag
    check_all_cl_nodes check_all_el_nodes el_pass poll_el_nodes calculate_el_health check_el_node
    parse_hex_block_number strip_prefix from_str_radix accumulate to_digit checked_mul checked_add
    update_el_chain_head
el_proxy_handler-fails_over_example =
    el_proxy_handler-fails_over echo up [] outage initial request (omega arith) (omega arith)
      (
        ((λ p visit. refl), (λ p. absurd (cc p), tt)),
        (
          ((λ p visit. refl), (λ p. absurd (cc p), tt)),
          (((λ p visit. refl), (λ p. absurd (cc p), tt)), tt),
        ),
      )
      refl

el_proxy_handler-fails_back_example :
    let t = (run_health_monitor (backup_only ∷ up ∷ []) initial).0 in
    (t.el_failover_active ≡ false)
    × (n : ElNodeState) × IsFirst healthy_primary t.el_nodes n
    × (el_proxy_handler echo t t request ≡ served_by echo request n)
unfolding new text_eq run_health_monitor run_health_check_cycle update_failover_flag
    check_all_cl_nodes check_all_el_nodes el_pass poll_el_nodes calculate_el_health check_el_node
    parse_hex_block_number strip_prefix from_str_radix accumulate to_digit checked_mul checked_add
    update_el_chain_head
el_proxy_handler-fails_back_example =
    el_proxy_handler-fails_back echo backup_only (up ∷ []) initial request refl

-- A session with one subscription, on the primary.
abbrev subscribed : Session codec
subscribed = run_loop codec (start codec [] geth.name) (
    from_client true (Message.text subscribe_text)
    ∷ from_upstream true (UpstreamMessage.text answer_text)
    ∷ [])

watcher-moves_example :
    let t = (run_health_monitor (backup_only ∷ []) initial).0 in
    let round = tick t t t ∷ take ∷ finish (λ subs. subs) true (λ m. true) ∷ [] in
    let moved = acts codec (idle codec subscribed) round in
    (n : ElNodeState) × (select_el_node t.el_nodes t.el_failover_active ≡ some n)
    × (is_node_healthy t n.name ≡ true)
    × (moved.session.current_node ≡ n.name)
    × (moved.session.connection ≡ subscribed.connection + 1)
    × (moved.session.is_open ≡ true)
    × (moved.session.to_client ≡ subscribed.to_client)
    × (moved.session.to_upstream ≡ replayed codec subscribed (λ subs. subs))
    × (acts codec moved (tick t t t ∷ []) ≡ moved)
unfolding new text_eq run_health_monitor run_health_check_cycle update_failover_flag
    check_all_cl_nodes check_all_el_nodes el_pass poll_el_nodes calculate_el_health check_el_node
    parse_hex_block_number strip_prefix from_str_radix accumulate to_digit checked_mul checked_add
    update_el_chain_head is_node_healthy run_loop step on_event on_client on_upstream
    handle_client_message handle_upstream_message
watcher-moves_example =
    watcher-moves codec backup_only [] initial subscribed (λ subs. subs) ((refl, tt), (tt, tt)) refl
      refl (λ h. cc h.1.0)
