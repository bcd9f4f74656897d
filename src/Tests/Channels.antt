-- ===== src/Tests/Channels.antt =====
-- The theorems on the channels of a connection, at concrete inputs.
use vixy.Prelude.{◌≡◌, ◌≤◌, refl, List, [], ◌∷◌, ◌++◌, true, false, bytes, length, arith}
use vixy.Ws.Messages.{Message}
use vixy.Ws.Session.{Event, start, run_loop, from_client, step}
use vixy.Ws.Channels.{
  capacity, Connection, connected, AtEnd, Reach, here, next, still, then, client_receives,
  client_ends, upstream_ends, take_client,
}
use vixy.Ws.Channels.Fifo.{messages, Reach-run_loop, Reach-not-AtEnd}
use vixy.Ws.Channels.Silence.{Deaf, Heard, Hung-Quiet, Deaf-Quiet}
use vixy.Tests.Codec.{codec}
use vixy.Tests.Sample.{geth}

abbrev initial : Connection codec
initial = connected codec [] geth.name

abbrev hi : Message
hi = Message.text (bytes "hi")

abbrev asked : Connection codec
asked = record initial { client_msg_rx = hi ∷ []; received = hi ∷ [] }

abbrev to_asked : Reach codec initial asked
to_asked = next here (client_receives hi refl (omega arith))

Reach-run_loop_example :
    (events : List (Event codec)) × (asked.session
      ≡ run_loop codec (start codec [] geth.name) events)
    × (asked.received ≡ messages codec events ++ asked.client_msg_rx)
    × (length asked.client_msg_rx ≤ capacity)
Reach-run_loop_example = Reach-run_loop codec [] geth.name to_asked

Reach-not-AtEnd_example : ¬ ((asked.session.is_open ≡ true) × AtEnd codec asked)
Reach-not-AtEnd_example = Reach-not-AtEnd codec [] geth.name to_asked

-- The node's socket has ended.
abbrev without_node : Connection codec
without_node = record initial { upstream_msg_tx = false }

abbrev deaf : Deaf codec without_node
deaf = record {
  is_open = refl;
  watched = refl;
  upstream_ended = refl;
  upstream_empty = refl;
  no_signal = refl;
}

abbrev unanswered : Connection codec
unanswered = record without_node {
  session = step codec without_node.session (from_client true hi);
  received = hi ∷ [];
}

Deaf-Quiet_example : Heard codec without_node.session unanswered.session
Deaf-Quiet_example = Deaf-Quiet codec deaf (
    then (then still (client_receives hi refl (omega arith)) refl)
      (take_client true hi [] refl refl) refl)

abbrev alone : Connection codec
alone = record without_node { client_msg_tx = false }

Hung-Quiet_example : alone ≡ alone
Hung-Quiet_example =
    Hung-Quiet codec
      (record {
        deaf = record {
          is_open = refl;
          watched = refl;
          upstream_ended = refl;
          upstream_empty = refl;
          no_signal = refl;
        };
        client_ended = refl;
        client_empty = refl;
      })
      (then (then still client_ends refl) upstream_ends refl)
