-- ===== src/Ws/Signals.antt =====
-- proxy/ws.rs: the channel of one place between `health_monitor` and the proxy loop, and the two
-- tasks at its ends. While the loop reconnects it takes no message, and the watcher goes on, with the
-- new node's name as the current one.
pub mod Nodes
pub mod Configured
pub mod Moving
pub mod Stale
use vixy.Prelude.{ℕ, Bool, List, [], ◌∷◌, Option, none, some, Text}
use vixy.State.{AppState}
use vixy.Ws.Json.{Json}
use vixy.Ws.Messages.{Message, UpstreamMessage}
use vixy.Ws.Session.{
  Session, Event, from_client, from_upstream, reconnect, channels_closed, ReconnectInfo, Order,
  step,
}
use vixy.Ws.Watch.{health_monitor}

module _ (j : Json) where
  -- `in_progress` is the signal that the loop works on, `queued` the one in the channel, and
  -- `blocked` the one whose `send` waits for room there.
  pub record Link : Type 0 where
    pub session : Session j
    pub in_progress : Option ReconnectInfo
    pub queued : Option ReconnectInfo
    pub blocked : Option ReconnectInfo

  -- What `current_node_name` holds: the loop writes the new name before it reconnects, and the old
  -- one again if that fails.
  abbrev pub visible_node : Link → Text
  visible_node l = elim l.in_progress [ none ↦ l.session.current_node | some info ↦ info.node_name ]

  -- A round of the watcher, with the states that it reads; the loop takes a signal; a reconnection
  -- ends; or a message arrives.
  pub data Action : Type 0 where
    tick : AppState → AppState → AppState → Action
    take : Action
    finish : Order j → Bool → (ℕ → Bool) → Action
    client : Bool → Message → Action
    upstream : Bool → UpstreamMessage → Action
    closed : Action

  -- `reconnect_tx.send`
  unfoldable pub send : Link → ReconnectInfo → Link
  send l info = elim l.queued [
    | none ↦ record l { queued = some info }
    | some first ↦ record l { blocked = some info }
  ]

  -- A watcher whose `send` waits has no round.
  unfoldable pub on_tick : Link → Option ReconnectInfo → Link
  unfolding send
  on_tick l signal = elim l.blocked [
    | some waiting ↦ l
    | none ↦ elim signal [ none ↦ l | some info ↦ send l info ]
  ]

  -- `reconnect_rx.recv`, which makes room for a signal that waits.
  unfoldable pub on_take : Link → Link
  on_take l = elim l.in_progress [
    | some busy ↦ l
    | none ↦ record l { in_progress = l.queued; queued = l.blocked; blocked = none }
  ]

  unfoldable pub on_finish : Order j → Bool → (ℕ → Bool) → Link → Link
  on_finish order connects accepts l = elim l.in_progress [
    | none ↦ l
    | some info ↦ record l {
      session = step j l.session (reconnect info order connects accepts);
      in_progress = none;
    }
  ]

  -- A loop that reconnects takes no message.
  unfoldable pub on_message : Event j → Link → Link
  on_message e l = elim l.in_progress [
    | some busy ↦ l
    | none ↦ record l { session = step j l.session e }
  ]

  unfoldable pub act : Link → Action → Link
  unfolding on_tick on_take on_finish on_message
  act l (tick s₀ s₁ s₂) = on_tick l (health_monitor s₀ s₁ s₂ (visible_node l))
  act l take = on_take l
  act l (finish order connects accepts) = on_finish order connects accepts l
  act l (client accepts m) = on_message (from_client accepts m) l
  act l (upstream accepts m) = on_message (from_upstream accepts m) l
  act l closed = on_message channels_closed l

  unfoldable pub acts : Link → List Action → Link
  acts l [] = l
  acts l (a ∷ rest) = acts (act l a) rest

  abbrev pub idle : Session j → Link
  idle s = record { session = s; in_progress = none; queued = none; blocked = none }
