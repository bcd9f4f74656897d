-- ===== src/Tests/Sessions.antt =====
-- The theorems on what a WebSocket session sends, tracks and counts, at concrete inputs.
use vixy.Prelude.{
  ◌≡◌, refl, true, false, List, [], ◌∷◌, ◌++◌, All, Text, bytes, text_eq, get, insert, remove, ◌&&◌,
  strip_prefix,
}
use vixy.State.{new, el_from_config}
use vixy.Selection.{select_el_node}
use vixy.Health.Number.{from_str_radix, accumulate, to_digit, checked_mul, checked_add}
use vixy.Health.El.{
  calculate_el_health, check_el_node, parse_hex_block_number, update_el_chain_head,
}
use vixy.Metrics.{record_calls, bit}
use vixy.Monitor.{run_health_monitor, el_pass, poll_el_nodes, poll_el}
use vixy.Monitor.Pass.{Identity, identity}
use vixy.Monitor.Phases.{advance}
use vixy.Ws.Session.Closing.{run_proxy_loop-delivers}
use vixy.Http.{el_proxy_handler, cl_proxy_handler}
use vixy.Ws.Tracker.{track_subscribe}
use vixy.Ws.Messages.{Message, UpstreamMessage, handle_client_message, handle_upstream_message}
use vixy.Ws.Session.{
  Event, from_client, from_upstream, reconnect, run_proxy_loop, run_loop, step, on_event,
  handle_websocket, el_ws_handler,
}
use vixy.Ws.Session.Upstream.{handle_websocket-upstream_node}
use vixy.Ws.Session.Forwarding.{run_proxy_loop-forwards}
use vixy.Ws.Session.Waiting.{late_answer}
use vixy.Ws.Signals.Nodes.{HasNode}
use vixy.Main.Labels.{Labelled}
use vixy.Main.Labels.Bounded.{IsElLabel, IsClLabel, calls-Labelled}
use vixy.Tests.Codec.{codec, string, object}
use vixy.Tests.Cycles.{numbers, numbers_laws, fresh}
use vixy.Tests.Interleaving.{assessed, reached}
use vixy.Tests.Sample.{config, initial, geth, reth, up, backup_only, echo, request}
use vixy.Tests.Sockets.{
  request_id, subscribe_text, answer_text, asks, answers, to_reth, session, events,
}

handle_websocket-upstream_node_example :
    let s = handle_websocket codec (λ subs. subs) geth.name true events in
    numbers.read ((record_calls numbers s.books.calls fresh).ws_upstream_node reth.name)
    ≡ bit (s.is_open && text_eq reth.name s.current_node)
handle_websocket-upstream_node_example =
    handle_websocket-upstream_node codec numbers numbers_laws fresh (λ subs. subs) geth.name true
      events reth.name (λ n. refl)

-- The node cannot be connected to, and the client goes on.
abbrev later_events : List (Event codec)
later_events =
    from_client true (Message.ping (bytes "a"))
    ∷ reconnect to_reth (λ subs. subs) false (λ n. true)
    ∷ from_upstream true (UpstreamMessage.text answer_text)
    ∷ from_client false (Message.binary (bytes "b"))
    ∷ []

run_proxy_loop-forwards_example :
    let s = run_proxy_loop codec [] geth.name true events in
    let t = run_proxy_loop codec [] geth.name true (events ++ later_events) in
    (t.is_open ≡ true)
    × (t.connection ≡ s.connection)
    × (t.to_upstream
        ≡ s.to_upstream
          ++ (s.connection, UpstreamMessage.ping (bytes "a"))
            ∷ (s.connection, UpstreamMessage.binary (bytes "b"))
            ∷ [])
run_proxy_loop-forwards_example =
    run_proxy_loop-forwards codec [] geth.name events later_events
      (run_proxy_loop-delivers codec [] geth.name events (refl, (refl, (refl, tt)))).0
      (refl, (refl, (refl, (refl, tt))))

-- The node refuses a subscription, and the client uses the id again for another request.
abbrev refusal_text : Text
refusal_text = object ((bytes "id", request_id) ∷ (bytes "error", string (bytes "busy")) ∷ [])

abbrev block_text : Text
block_text =
    object ((bytes "id", request_id) ∷ (bytes "method", string (bytes "eth_blockNumber")) ∷ [])

abbrev refused : List (Event codec)
refused =
    from_upstream true (UpstreamMessage.text refusal_text)
    ∷ from_client true (Message.text block_text)
    ∷ []

late_answer_example :
    let later =
      run_loop codec
        (step codec session (from_client true (Message.text subscribe_text)))
        refused in
    (step codec later (from_upstream true (UpstreamMessage.text answer_text))).books.tracker
    ≡ track_subscribe later.books.tracker (string (bytes "newHeads") ∷ []) request_id (bytes "0xa")
unfolding get insert remove text_eq run_loop step on_event handle_client_message
    handle_upstream_message
late_answer_example =
    late_answer codec session true true subscribe_text answer_text request_id
      (string (bytes "newHeads") ∷ []) (bytes "0xa") refused refl asks answers (refl, (refl, tt))
      refl

abbrev geth_identity : Identity
geth_identity = identity (el_from_config geth true)

abbrev reth_identity : Identity
reth_identity = identity (el_from_config reth false)

calls-Labelled_example :
    let IsFine = Labelled (IsElLabel config) (IsClLabel config) (HasNode config) in
    All IsFine (run_health_monitor (up ∷ backup_only ∷ []) (new config)).1
    × All IsFine (el_proxy_handler echo initial assessed.shared request).1
    × All IsFine (cl_proxy_handler echo assessed.shared request).1
    × All IsFine (handle_websocket codec (λ subs. subs) geth.name true later_events).books.calls
unfolding el_ws_handler select_el_node advance new text_eq el_pass poll_el_nodes poll_el
    calculate_el_health check_el_node parse_hex_block_number strip_prefix from_str_radix accumulate
    to_digit checked_mul checked_add update_el_chain_head el_from_config
calls-Labelled_example =
    calls-Labelled config (up ∷ backup_only ∷ []) echo initial reached request codec (λ subs. subs)
      geth.name geth.ws_url true later_events refl
      (
        tt,
        ((reth.ws_url, (reth_identity, geth_identity ∷ [], [], refl, refl, refl)), (tt, (tt, tt))),
      )
