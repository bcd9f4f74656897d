-- ===== src/Ws/Channels.antt =====
-- proxy/ws.rs: the channels that feed the proxy loop of a connection, and the tasks at their other
-- ends: a receiver task for each of the two sockets, and the watcher. A task that ends drops its
-- sender, and `recv` finds a channel at its end when that is empty and has no sender.
pub mod Fifo
pub mod Silence
use vixy.Prelude.{
  ℕ, ◌<◌, ◌≡◌, Bool, true, false, List, [], ◌∷◌, ◌++◌, length, Option, none, some, Text,
}
use vixy.State.{AppState}
use vixy.Metrics.{MetricCall}
use vixy.Ws.Json.{Json}
use vixy.Ws.Messages.{Message, UpstreamMessage}
use vixy.Ws.Replay.{reconnect_upstream}
use vixy.Ws.Session.{
  Session, Event, from_client, from_upstream, reconnect, channels_closed, ReconnectInfo, Order,
  step, start,
}
use vixy.Ws.Watch.{health_monitor}

-- The places in each of the channels for messages.
abbrev pub capacity : ℕ
capacity = 100

module _ (j : Json) where
  -- A flag `tx` tells whether the task that holds the sender still runs. `received` has all
  -- messages that the client's receiver task has put into its channel so far.
  pub record Connection : Type 0 where
    pub session : Session j
    pub client_msg_rx : List Message
    pub client_msg_tx : Bool
    pub upstream_msg_rx : List UpstreamMessage
    pub upstream_msg_tx : Bool
    pub reconnect_rx : Option ReconnectInfo
    pub reconnect_tx : Bool
    pub received : List Message

  abbrev pub connected : List MetricCall → Text → Connection
  connected calls node = record {
    session = start j calls node;
    client_msg_rx = [];
    client_msg_tx = true;
    upstream_msg_rx = [];
    upstream_msg_tx = true;
    reconnect_rx = none;
    reconnect_tx = true;
    received = [];
  }

  -- Every channel is at its end.
  pub record AtEnd (c : Connection) : Type 0 where
    pub client_ended : c.client_msg_tx ≡ false
    pub client_empty : c.client_msg_rx ≡ []
    pub upstream_ended : c.upstream_msg_tx ≡ false
    pub upstream_empty : c.upstream_msg_rx ≡ []
    pub watcher_ended : c.reconnect_tx ≡ false
    pub no_signal : c.reconnect_rx ≡ none

  -- A round of a receiver task: the stream brings a message, or an error or its end.
  abbrev pub client_receiver_task : Option Message → Connection → Connection
  client_receiver_task none c = record c { client_msg_tx = false }
  client_receiver_task (some m) c = record c {
    client_msg_rx = c.client_msg_rx ++ m ∷ [];
    received = c.received ++ m ∷ [];
  }

  abbrev pub upstream_receiver_task : Option UpstreamMessage → Connection → Connection
  upstream_receiver_task none c = record c { upstream_msg_tx = false }
  upstream_receiver_task (some m) c = record c { upstream_msg_rx = c.upstream_msg_rx ++ m ∷ [] }

  -- The loop takes a signal. If it reconnects, the channel of the old connection is dropped with
  -- what is in it, and the new one has a receiver task of its own.
  unfoldable pub on_signal : ReconnectInfo → Order j → Bool → (ℕ → Bool) → Connection → Connection
  on_signal info order connects accepts c =
      let next = record c {
        session = step j c.session (reconnect info order connects accepts);
        reconnect_rx = none;
      } in
      elim (reconnect_upstream j order connects accepts c.session.books.tracker).1 [
        | none ↦ next
        | some sent ↦ record next { upstream_msg_rx = []; upstream_msg_tx = true }
      ]

  -- What the tasks do, one step at a time: a receiver task waits for room in its channel, and ends
  -- with its socket's stream or at an error; the loop takes from any channel that is not empty; and
  -- the watcher, which waits while a signal is in the channel, ends at a signal that nobody takes
  -- any more.
  pub data Step (c : Connection) : Connection → Type 0 where
    client_receives :
        (m : Message)
        → c.client_msg_tx ≡ true
        → length c.client_msg_rx < capacity
        → Step c (client_receiver_task (some m) c)
    client_ends : Step c (client_receiver_task none c)
    upstream_receives :
        (m : UpstreamMessage)
        → c.upstream_msg_tx ≡ true
        → length c.upstream_msg_rx < capacity
        → Step c (upstream_receiver_task (some m) c)
    upstream_ends : Step c (upstream_receiver_task none c)
    take_client :
        (accepts : Bool) (m : Message) (rest : List Message)
        → c.session.is_open ≡ true
        → c.client_msg_rx ≡ m ∷ rest
        → Step c
            (record c { session = step j c.session (from_client accepts m); client_msg_rx = rest })
    take_upstream :
        (accepts : Bool) (m : UpstreamMessage) (rest : List UpstreamMessage)
        → c.session.is_open ≡ true
        → c.upstream_msg_rx ≡ m ∷ rest
        → Step c (record c {
          session = step j c.session (from_upstream accepts m);
          upstream_msg_rx = rest;
        })
    take_signal :
        (info : ReconnectInfo) (order : Order j) (connects : Bool) (accepts : ℕ → Bool)
        → c.session.is_open ≡ true
        → c.reconnect_rx ≡ some info
        → Step c (on_signal info order connects accepts c)
    take_end :
        c.session.is_open ≡ true
        → AtEnd c
        → Step c (record c { session = step j c.session channels_closed })
    signals :
        (s₀ s₁ s₂ : AppState) (name : Text) (info : ReconnectInfo)
        → c.reconnect_tx ≡ true
        → health_monitor s₀ s₁ s₂ name ≡ some info
        → c.session.is_open ≡ true
        → c.reconnect_rx ≡ none
        → Step c (record c { reconnect_rx = some info })
    watcher_ends :
        (s₀ s₁ s₂ : AppState) (name : Text) (info : ReconnectInfo)
        → c.reconnect_tx ≡ true
        → health_monitor s₀ s₁ s₂ name ≡ some info
        → c.session.is_open ≡ false
        → Step c (record c { reconnect_tx = false })

  -- What can be the case after a connection was made.
  pub data Reach (start : Connection) : Connection → Type 0 where
    here : Reach start start
    next : {c d : Connection} → Reach start c → Step c d → Reach start d

  -- Steps between which no signal is in the channel.
  pub data Quiet (start : Connection) : Connection → Type 0 where
    still : Quiet start start
    then : {c d : Connection} → Quiet start c → Step c d → d.reconnect_rx ≡ none → Quiet start d
