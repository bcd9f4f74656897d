-- ===== src/Ws/Session.antt =====
-- proxy/ws.rs: the proxy loop of one connection, from the upgrade to the clean-up. What the tasks
-- and the network bring to `tokio::select!` is a sequence of events.
pub mod Invariant
pub mod Identity
pub mod Verbatim
pub mod Closing
pub mod Ending
pub mod Gauge
pub mod Upstream
pub mod Forwarding
pub mod Waiting
use vixy.Prelude.{
  ℕ, ◌+◌, Bool, true, false, List, [], ◌∷◌, ◌++◌, map, length, Option, none, some, Text, bytes,
  Result, ok, err, if◌then◌else◌,
}
use vixy.State.{ElNodeState, AppState}
use vixy.Selection.{select_el_node}
use vixy.Http.{Response, unavailable, no_el_node}
use vixy.Metrics.{
  MetricCall, inc_ws_connections, dec_ws_connections, set_ws_upstream_node, inc_ws_reconnections,
  inc_ws_reconnection_attempt, set_ws_subscriptions,
}
use vixy.Ws.Json.{Json}
use vixy.Ws.Tracker.{SubscribeRequest, get_all_subscriptions}
use vixy.Ws.Tracker
use vixy.Ws.Messages.{
  Message, UpstreamMessage, Books, handle_client_message, handle_upstream_message,
}
use vixy.Ws.Replay.{reconnect_upstream}
use vixy.Ws.Messages

pub record ReconnectInfo : Type 0 where
  pub node_name : Text
  pub ws_url : Text

-- The outcome of an upgrade request.
pub data Upgrade : Type 0 where
  refused : Response → Upgrade
  upgraded : Text → Text → Upgrade

-- The flag is loaded in state `early`, the nodes are read in state `s`; the name and the URL of the
-- node go to `handle_websocket`.
unfoldable pub el_ws_handler : AppState → AppState → Upgrade
el_ws_handler early s = elim (select_el_node s.el_nodes early.el_failover_active) [
  | none ↦ refused (unavailable no_el_node)
  | some n ↦ upgraded n.name n.ws_url
]

-- `if let Err(should_close) = result && should_close`
abbrev pub should_close : Result Bool (Unit {0}) → Bool
should_close (ok u) = false
should_close (err code) = code

abbrev pub to_list {ℓ} : {A : Type ℓ} → Option A → List A
to_list none = []
to_list (some a) = a ∷ []

module _ (j : Json) where
  open j use {Value}

  -- `connection` counts the upstream connections; `to_upstream` has what was handed to the sink of
  -- each, and `to_client` what was handed to the client's; `given_up` has what the connections took
  -- that a reconnection opened and dropped.
  pub record Session : Type 0 where
    pub books : Books j
    pub current_node : Text
    pub connection : ℕ
    pub to_upstream : List (ℕ × UpstreamMessage)
    pub to_client : List Message
    pub given_up : List (ReconnectInfo × UpstreamMessage)
    pub is_open : Bool

  abbrev pub Order : Type 0
  Order = List (SubscribeRequest Value) → List (SubscribeRequest Value)

  -- A message with the verdict of the sink that it goes to, or a signal to reconnect with what
  -- becomes of it: whether the node can be connected to, and which replayed requests are taken.
  pub data Event : Type 0 where
    from_client : Bool → Message → Event
    from_upstream : Bool → UpstreamMessage → Event
    reconnect : ReconnectInfo → Order → Bool → (ℕ → Bool) → Event
    channels_closed : Event

  -- The clean-up behind the loop.
  unfoldable pub clean_up : Session → Session
  clean_up s = record s {
    to_upstream = s.to_upstream ++ (s.connection, Messages.UpstreamMessage.close) ∷ [];
    to_client = s.to_client ++ Messages.Message.close ∷ [];
    is_open = false;
  }

  unfoldable pub on_client : Bool → Message → Session → Session
  unfolding clean_up
  on_client accepts msg s =
      let h = handle_client_message j accepts msg s.books in
      let next = record s {
        books = h.books;
        to_upstream = s.to_upstream ++ (s.connection, h.out) ∷ [];
      } in
      if should_close h.result then clean_up next else next

  unfoldable pub on_upstream : Bool → UpstreamMessage → Session → Session
  unfolding clean_up
  on_upstream accepts msg s =
      let h = handle_upstream_message j accepts msg s.books in
      let next = record s { books = h.books; to_client = s.to_client ++ to_list h.out } in
      if should_close h.result then clean_up next else next

  -- The `Ok` and the `Err` branch of a reconnection.
  unfoldable pub reconnected : ReconnectInfo → Books j → List UpstreamMessage → Session → Session
  reconnected info books sent s = record s {
    books = record books {
      calls =
          books.calls
          ++ inc_ws_reconnections
            ∷ inc_ws_reconnection_attempt (bytes "success")
            ∷ set_ws_upstream_node s.current_node false
            ∷ set_ws_upstream_node info.node_name true
            ∷ [];
    };
    current_node = info.node_name;
    connection = s.connection + 1;
    to_upstream = s.to_upstream ++ map (λ m. (s.connection + 1, m)) sent;
  }

  unfoldable pub not_reconnected :
      ReconnectInfo → Books j → List UpstreamMessage → Session → Session
  not_reconnected info books taken s = record s {
    books = record books {
      calls = books.calls ++ inc_ws_reconnection_attempt (bytes "failed") ∷ [];
    };
    given_up = s.given_up ++ map (λ m. (info, m)) taken;
  }

  unfoldable pub on_reconnect : ReconnectInfo → Order → Bool → (ℕ → Bool) → Session → Session
  unfolding reconnected not_reconnected
  on_reconnect info order connects accepts s =
      let (tracker, sent, taken) = reconnect_upstream j order connects accepts s.books.tracker in
      let books = record s.books { tracker = tracker } in
      elim sent [
        | none ↦ not_reconnected info books taken s
        | some messages ↦ reconnected info books messages s
      ]

  -- One round of the loop.
  unfoldable pub on_event : Session → Event → Session
  unfolding on_client on_upstream on_reconnect
  on_event s (from_client accepts msg) = on_client accepts msg s
  on_event s (from_upstream accepts msg) = on_upstream accepts msg s
  on_event s (reconnect info order connects accepts) = on_reconnect info order connects accepts s
  on_event s channels_closed = clean_up s

  -- A loop that was left takes no more events.
  unfoldable pub step : Session → Event → Session
  step s e = if s.is_open then on_event s e else s

  unfoldable pub run_loop : Session → List Event → Session
  run_loop s [] = s
  run_loop s (e ∷ es) = run_loop (step s e) es

  abbrev pub start : List MetricCall → Text → Session
  start calls node = record {
    books = record { tracker = Tracker.new; pending = []; calls = calls };
    current_node = node;
    connection = 0;
    to_upstream = [];
    to_client = [];
    given_up = [];
    is_open = true;
  }

  -- If the first connection fails, nothing is sent to anybody.
  unfoldable pub run_proxy_loop : List MetricCall → Text → Bool → List Event → Session
  unfolding run_loop step
  run_proxy_loop calls node connects events =
      if connects
      then run_loop (start calls node) events
      else record (start calls node) { is_open = false }

  -- The metrics of `handle_websocket` behind the loop, once that is left.
  unfoldable pub finish : Order → Session → Session
  finish order s = record s {
    books = record b {
      calls =
          b.calls
          ++ set_ws_upstream_node s.current_node false
            ∷ dec_ws_connections
            ∷ set_ws_subscriptions (length (get_all_subscriptions order b.tracker))
            ∷ [];
    };
  }
    where
      b : Books j
      b = s.books

  unfoldable pub handle_websocket : Order → Text → Bool → List Event → Session
  unfolding run_proxy_loop finish
  handle_websocket order node connects events =
      let s =
        run_proxy_loop (inc_ws_connections ∷ set_ws_upstream_node node true ∷ []) node connects
          events in
      if s.is_open then s else finish order s
