-- ===== src/Tests/Sockets.antt =====
-- The theorems on the WebSocket proxy, at concrete inputs.
use vixy.Prelude.{
  ◌≡◌, ℕ, Bool, ◌==◌, refl, true, false, List, [], ◌∷◌, ◌++◌, map, none, some, Text, bytes, text_eq,
  get, values, arith,
}
use vixy.Ws.Tracker.{
  SubscribeRequest, SubscriptionTracker, track_subscribe, map_upstream_id, translate_to_client_id,
  remove_subscription, clear_upstream_mappings, get_all_subscriptions,
}
use vixy.Ws.Tracker
use vixy.Ws.Messages.{
  Message, UpstreamMessage, Books, eth_subscribe, handle_client_message, handle_upstream_message,
}
use vixy.Ws.Replay.{subscribe_request, reconnect_upstream}
use vixy.Ws.Messages.Subscribe.{IsSubscribe, IsAnswer, subscribe_round_trip}
use vixy.Ws.Replay.Complete.{subscribe_request-IsSubscribe}
use vixy.Ws.Session.{
  Session, Event, from_client, from_upstream, reconnect, ReconnectInfo, run_proxy_loop, run_loop,
  step, start,
}
use vixy.Ws.Session.Verbatim.{reconnect-unmapped, refused_replay-forgets}
use mathlib.Core.List.{Perm}
use mathlib.Core.List.Perm
use vixy.Ws.Replay.Bag.{request, reconnect_upstream-Perm}
use vixy.Ws.Session.Ending.{run_proxy_loop-ends}
use vixy.Ws.Session.Closing.{deliveries, run_proxy_loop-delivers}
use vixy.Tests.Sample.{geth, reth}
use vixy.Tests.Codec.{codec, codec_laws, string, array, object}

abbrev pub request_id : Text
request_id = string (bytes "1")

abbrev pub subscribe_text : Text
subscribe_text = object (
    (bytes "id", request_id)
    ∷ (bytes "method", string eth_subscribe)
    ∷ (bytes "params", array (string (bytes "newHeads") ∷ []))
    ∷ [])

abbrev pub answer_text : Text
answer_text = object ((bytes "id", request_id) ∷ (bytes "result", string (bytes "0xa")) ∷ [])

pub asks : IsSubscribe codec subscribe_text request_id (string (bytes "newHeads") ∷ [])
unfolding get text_eq
asks = record {
  json = subscribe_text;
  method = string eth_subscribe;
  list = array (string (bytes "newHeads") ∷ []);
  decodes = refl;
  has_method = refl;
  is_subscribe = refl;
  has_id = refl;
  has_params = refl;
  is_list = refl;
}

pub answers : IsAnswer codec answer_text request_id (bytes "0xa")
unfolding get text_eq
answers = record {
  json = answer_text;
  outcome = string (bytes "0xa");
  decodes = refl;
  has_id = refl;
  has_result = refl;
  is_text = refl;
}

abbrev empty_books : Books codec
empty_books = record { tracker = Tracker.new; pending = []; calls = [] }

abbrev pub heads : SubscribeRequest Text
heads = record {
  rpc_id = request_id;
  params = string (bytes "newHeads") ∷ [];
  client_sub_id = bytes "0xa";
}

subscribe_round_trip_example :
    let asked =
      (handle_client_message codec true (Message.text subscribe_text) empty_books).books in
    let answered =
      (handle_upstream_message codec true (UpstreamMessage.text answer_text) asked).books in
    (get (bytes "0xa") answered.tracker.subscriptions ≡ some heads)
    × (translate_to_client_id answered.tracker (bytes "0xa") ≡ some (bytes "0xa"))
    × (get (bytes "0xa") answered.pending ≡ none)
unfolding text_eq get translate_to_client_id
subscribe_round_trip_example =
    subscribe_round_trip codec true true subscribe_text answer_text (bytes "0xa") request_id
      (string (bytes "newHeads") ∷ []) (bytes "0xa") empty_books asks answers

abbrev pub tracking : SubscriptionTracker Text
tracking = record {
  subscriptions = (bytes "0xa", heads) ∷ [];
  upstream_to_client_id = (bytes "0xa", bytes "0xa") ∷ [];
}

subscribe_request-IsSubscribe_example :
    IsSubscribe codec (subscribe_request codec heads) request_id (string (bytes "newHeads") ∷ [])
subscribe_request-IsSubscribe_example =
    subscribe_request-IsSubscribe codec codec_laws heads tt (tt, tt)

abbrev pub to_reth : ReconnectInfo
to_reth = record { node_name = reth.name; ws_url = reth.ws_url }

abbrev pub session : Session codec
session = record (start codec [] geth.name) {
  books = record { tracker = tracking; pending = []; calls = [] };
}

reconnect-unmapped_example :
    let after =
      run_loop codec
        (step codec session (reconnect to_reth (λ subs. subs) true (λ n. true)))
        (from_upstream true (UpstreamMessage.text answer_text) ∷ []) in
    ((id : Text) → translate_to_client_id after.books.tracker id ≡ none)
    × (after.books.tracker.subscriptions ≡ tracking.subscriptions)
reconnect-unmapped_example =
    reconnect-unmapped codec session to_reth (λ subs. subs) (λ n. true)
      ((true, UpstreamMessage.text answer_text) ∷ []) refl refl

abbrev logs : SubscribeRequest Text
logs = record {
  rpc_id = string (bytes "2");
  params = string (bytes "logs") ∷ [];
  client_sub_id = bytes "0xb";
}

-- With two subscriptions, and a message of the node that has reached the client.
abbrev busy_session : Session codec
busy_session = record session {
  books = record session.books {
    tracker = record tracking { subscriptions = (bytes "0xa", heads) ∷ (bytes "0xb", logs) ∷ [] };
  };
  to_client = Message.text answer_text ∷ [];
}

-- The new node takes the first request and refuses the second.
abbrev only_first : ℕ → Bool
only_first n = n == 0

refused_replay-forgets_example :
    let t = step codec busy_session (reconnect to_reth (λ subs. subs) true only_first) in
    (t.is_open ≡ true)
    × (t.connection ≡ 0)
    × (t.current_node ≡ geth.name)
    × (t.to_upstream ≡ [])
    × (t.to_client ≡ Message.text answer_text ∷ [])
    × (t.given_up ≡ (to_reth, UpstreamMessage.text (subscribe_request codec heads)) ∷ [])
    × (t.books.tracker.subscriptions ≡ busy_session.books.tracker.subscriptions)
    × (t.books.pending ≡ [])
    × ((id : Text) → translate_to_client_id t.books.tracker id ≡ none)
unfolding get_all_subscriptions values
refused_replay-forgets_example =
    refused_replay-forgets codec busy_session to_reth (λ subs. subs) only_first (heads ∷ []) [] logs
      refl refl (λ k lt. ground arith) refl

abbrev pub events : List (Event codec)
events =
    from_client true (Message.text subscribe_text)
    ∷ from_upstream true (UpstreamMessage.text answer_text)
    ∷ reconnect to_reth (λ subs. subs) true (λ n. true)
    ∷ []

run_proxy_loop-delivers_example :
    ((run_proxy_loop codec [] geth.name true events).is_open ≡ true)
    × ((run_proxy_loop codec [] geth.name true events).to_client ≡ Message.text answer_text ∷ [])
run_proxy_loop-delivers_example =
    run_proxy_loop-delivers codec [] geth.name events (refl, (refl, (refl, tt)))

reconnect_upstream-Perm_example :
    Perm (request codec heads ∷ []) (map (request codec) (values tracking.subscriptions))
unfolding values reconnect_upstream get_all_subscriptions clear_upstream_mappings
reconnect_upstream-Perm_example =
    reconnect_upstream-Perm codec (λ subs. subs) (λ subs. Perm.refl subs) true (λ n. true) tracking
      (request codec heads ∷ []) refl

run_proxy_loop-ends_example :
    let s = run_proxy_loop codec [] geth.name true events in
    let t =
      run_proxy_loop codec [] geth.name true (events ++ from_client true Message.close ∷ events) in
    (t.is_open ≡ false)
    × (t ≡ step codec s (from_client true Message.close))
    × (t.to_client ≡ deliveries codec events ++ ([] ++ Message.close ∷ []))
    × ((sent : List _) × (t.to_upstream ≡ sent ++ (s.connection, UpstreamMessage.close) ∷ []))
run_proxy_loop-ends_example =
    run_proxy_loop-ends codec [] geth.name events events (from_client true Message.close)
      (refl, (refl, (refl, tt))) refl
