-- ===== src/Ws/Channels/Silence.antt =====
-- Connections of proxy/ws.rs whose sockets have failed without a close frame.
use vixy.Prelude.{◌≡◌, ◌⊎◌, inl, inr, refl, ◌∙◌, Bool, true, false, [], ◌∷◌, ◌++◌, none, arith}
use vixy.Ws.Json.{Json}
use vixy.Ws.Messages.{Message, UpstreamMessage, handle_client_message}
use vixy.Ws.Messages
use vixy.Ws.Session.{
  Session, Event, from_client, channels_closed, step, on_event, on_client, clean_up,
}
use vixy.Ws.Session.Identity.{step-open}
use vixy.Ws.Channels.{
  Connection, Step, Quiet, still, then, client_receives, client_ends, upstream_receives,
  upstream_ends, take_client, take_upstream, take_signal, take_end, signals, watcher_ends,
}

module _ (j : Json) where
  -- The loop runs and the watcher too, but nothing more can come from the upstream node's socket.
  pub record Deaf (c : Connection j) : Type 0 where
    pub is_open : c.session.is_open ≡ true
    pub watched : c.reconnect_tx ≡ true
    pub upstream_ended : c.upstream_msg_tx ≡ false
    pub upstream_empty : c.upstream_msg_rx ≡ []
    pub no_signal : c.reconnect_rx ≡ none

  -- Nor from the client's.
  pub record Hung (c : Connection j) : Type 0 where
    pub deaf : Deaf c
    pub client_ended : c.client_msg_tx ≡ false
    pub client_empty : c.client_msg_rx ≡ []

  Hung-Step : {c d : Connection j} → Hung c → Step j c d → d.reconnect_rx ≡ none → d ≡ c
  Hung-Step h (client_receives m runs room) quiet = absurd (ground (arith, h.client_ended, runs))
  Hung-Step h client_ends quiet = rw h.client_ended refl
  Hung-Step h (upstream_receives m runs room) quiet =
      absurd (ground (arith, h.deaf.upstream_ended, runs))
  Hung-Step h upstream_ends quiet = rw h.deaf.upstream_ended refl
  Hung-Step h (take_client accepts m rest is_open e) quiet =
      absurd (ground (arith, h.client_empty, e))
  Hung-Step h (take_upstream accepts m rest is_open e) quiet =
      absurd (ground (arith, h.deaf.upstream_empty, e))
  Hung-Step h (take_signal info order connects accepts is_open e) quiet =
      absurd (ground (arith, h.deaf.no_signal, e))
  Hung-Step h (take_end is_open e) quiet = absurd (ground (arith, h.deaf.watched, e.watcher_ended))
  Hung-Step h (signals s₀ s₁ s₂ name info runs e is_open free) quiet =
      absurd (ground (arith, quiet))
  Hung-Step h (watcher_ends s₀ s₁ s₂ name info runs e closed) quiet =
      absurd (ground (arith, h.deaf.is_open, closed))

  -- A connection whose two sockets have both ended, with its channels empty, stays as it is until
  -- the watcher signals: the loop is not left, and nothing is sent to anybody.
  pub Hung-Quiet : {c d : Connection j} → Hung c → Quiet j c d → d ≡ c
  Hung-Quiet h still = refl
  Hung-Quiet h (then q s quiet) = let same = Hung-Quiet h q in Hung-Step (rw same h) s quiet ∙ same

  -- Since the session `first`, the client has been sent nothing but the close frame of the clean-up.
  abbrev pub Heard : Session j → Session j → Type 0
  Heard first t =
      ((t.is_open ≡ true) × (t.to_client ≡ first.to_client))
      ⊎ ((t.is_open ≡ false) × (t.to_client ≡ first.to_client ++ Messages.Message.close ∷ []))

  -- What an ended upstream socket leaves of a connection that was `first`.
  record Unheard (first : Session j) (c : Connection j) : Type 0 where
    upstream_ended : c.upstream_msg_tx ≡ false
    upstream_empty : c.upstream_msg_rx ≡ []
    no_signal : c.reconnect_rx ≡ none
    heard : Heard first c.session

  on_client-Heard :
      (s : Session j) (accepts : Bool) (m : Message)
      → s.is_open ≡ true
      → Heard s (on_client j accepts m s)
  unfolding on_client clean_up
  on_client-Heard s accepts m is_open = ground (arith, is_open)

  step-Heard :
      (first s : Session j) (e : Event j)
      → Heard first s
      → s.is_open ≡ true
      → Heard s (on_event j s e)
      → Heard first (step j s e)
  step-Heard first s e (inr (closed, f)) is_open next = absurd (ground (arith, closed, is_open))
  step-Heard first s e (inl (opened, f)) is_open next = rw (step-open j s e is_open, ← f) next

  same_session :
      {first : Session j} {c d : Connection j}
      → Unheard first c
      → d.upstream_msg_tx ≡ false
      → d.upstream_msg_rx ≡ c.upstream_msg_rx
      → d.reconnect_rx ≡ none
      → d.session ≡ c.session
      → Unheard first d
  same_session u ended rx quiet same = record {
    upstream_ended = ended;
    upstream_empty = rx ∙ u.upstream_empty;
    no_signal = quiet;
    heard = rw same u.heard;
  }

  Unheard-Step :
      (first : Session j) {c d : Connection j}
      → Unheard first c
      → Step j c d
      → d.reconnect_rx ≡ none
      → Unheard first d
  unfolding on_event clean_up
  Unheard-Step first {c} u (take_client accepts m rest is_open e) quiet = record {
    upstream_ended = u.upstream_ended;
    upstream_empty = u.upstream_empty;
    no_signal = u.no_signal;
    heard =
        step-Heard first c.session (from_client accepts m) u.heard is_open
          (on_client-Heard c.session accepts m is_open);
  }
  Unheard-Step first {c} u (take_end is_open e) quiet = record {
    upstream_ended = u.upstream_ended;
    upstream_empty = u.upstream_empty;
    no_signal = u.no_signal;
    heard = step-Heard first c.session channels_closed u.heard is_open (inr (refl, refl));
  }
  Unheard-Step first u (take_upstream accepts m rest is_open e) quiet =
      absurd (ground (arith, u.upstream_empty, e))
  Unheard-Step first u (take_signal info order connects accepts is_open e) quiet =
      absurd (ground (arith, u.no_signal, e))
  Unheard-Step first u (upstream_receives m runs room) quiet =
      absurd (ground (arith, u.upstream_ended, runs))
  Unheard-Step first u (signals s₀ s₁ s₂ name info runs e is_open free) quiet =
      absurd (ground (arith, quiet))
  Unheard-Step first u (client_receives m runs room) quiet =
      same_session u u.upstream_ended refl quiet refl
  Unheard-Step first u client_ends quiet = same_session u u.upstream_ended refl quiet refl
  Unheard-Step first u upstream_ends quiet = same_session u refl refl quiet refl
  Unheard-Step first u (watcher_ends s₀ s₁ s₂ name info runs e closed) quiet =
      same_session u u.upstream_ended refl quiet refl

  Unheard-Quiet :
      (first : Session j) {c d : Connection j} → Unheard first c → Quiet j c d → Unheard first d
  Unheard-Quiet first u still = u
  Unheard-Quiet first u (then q s quiet) = Unheard-Step first (Unheard-Quiet first u q) s quiet

  -- If the upstream node's socket has ended, and nothing is left in its channel, then until the
  -- watcher signals the client is sent nothing, whatever it asks; unless the loop is left, when it
  -- is sent the close frame.
  pub Deaf-Quiet : {c d : Connection j} → Deaf c → Quiet j c d → Heard c.session d.session
  Deaf-Quiet {c} h q = Unheard.heard (
      Unheard-Quiet c.session
        (record {
          upstream_ended = h.upstream_ended;
          upstream_empty = h.upstream_empty;
          no_signal = h.no_signal;
          heard = inl (h.is_open, refl);
        })
        q)
