-- ===== src/Ws/Channels/Fifo.antt =====
-- What reaches the proxy loop of proxy/ws.rs through the channels of a connection.
use vixy.Prelude.{
  ℕ, ◌+◌, ◌≤◌, ◌≡◌, refl, sym, ap, ◌∙◌, Bool, true, false, List, [], ◌∷◌, ◌++◌, length,
  Option-cases, Text, arith, append_assoc, append-nil, inl, inr,
}
use vixy.Metrics.{MetricCall}
use vixy.Ws.Json.{Json}
use vixy.Ws.Messages.{Message}
use vixy.Ws.Replay.{reconnect_upstream}
use vixy.Ws.Session.{
  Session, Event, from_client, from_upstream, reconnect, channels_closed, ReconnectInfo, Order,
  step, start, run_loop,
}
use vixy.Ws.Session.Ending.{run_loop-append, step-closed}
use vixy.Ws.Channels.{
  capacity, Connection, connected, AtEnd, on_signal, Step, Reach, here, next, client_receives,
  client_ends, upstream_receives, upstream_ends, take_client, take_upstream, take_signal, take_end,
  signals, watcher_ends,
}

module _ (j : Json) where
  -- The client's messages among some events.
  abbrev pub messages : List (Event j) → List Message
  messages [] = []
  messages (from_client accepts m ∷ es) = m ∷ messages es
  messages (from_upstream accepts m ∷ es) = messages es
  messages (reconnect info order connects accepts ∷ es) = messages es
  messages (channels_closed ∷ es) = messages es

  messages-append : (a b : List (Event j)) → messages (a ++ b) ≡ messages a ++ messages b
  messages-append [] b = refl
  messages-append (from_client accepts m ∷ es) b = ap (λ ms. m ∷ ms) (messages-append es b)
  messages-append (from_upstream accepts m ∷ es) b = messages-append es b
  messages-append (reconnect info order connects accepts ∷ es) b = messages-append es b
  messages-append (channels_closed ∷ es) b = messages-append es b

  -- `events` is what the loop has taken by now; the watcher runs while the loop does.
  record Taken (first : Session j) (c : Connection j) : Type 0 where
    events : List (Event j)
    session : c.session ≡ run_loop j first events
    in_order : c.received ≡ messages events ++ c.client_msg_rx
    within : length c.client_msg_rx ≤ capacity
    watched : c.reconnect_tx ≡ false → c.session.is_open ≡ false

  on_signal-fields :
      (info : ReconnectInfo) (order : Order j) (connects : Bool) (accepts : ℕ → Bool)
      (c : Connection j)
      → let d = on_signal j info order connects accepts c in
        (d.session ≡ step j c.session (reconnect info order connects accepts))
        × (d.client_msg_rx ≡ c.client_msg_rx)
        × (d.received ≡ c.received)
        × (d.reconnect_tx ≡ c.reconnect_tx)
  unfolding on_signal
  on_signal-fields info order connects accepts c =
      elim (Option-cases (reconnect_upstream j order connects accepts c.session.books.tracker).1) [
        | inl e ↦ rw (e, on_signal) (refl, refl, refl, refl)
        | inr (sent, e) ↦ rw (e, on_signal) (refl, refl, refl, refl)
      ]

  run_loop-snoc :
      (s : Session j) (es : List (Event j)) (e : Event j)
      → run_loop j s (es ++ e ∷ []) ≡ step j (run_loop j s es) e
  unfolding run_loop
  run_loop-snoc s es e = run_loop-append j s es (e ∷ [])

  length-snoc {ℓ} : {A : Type ℓ} (xs : List A) (x : A) → length (xs ++ x ∷ []) ≡ length xs + 1
  length-snoc [] x = refl
  length-snoc (y ∷ xs) x = omega (arith, length-snoc xs x)

  -- One more event is taken.
  one_more :
      (first : Session j) {c : Connection j} (t : Taken first c) (e : Event j)
      → step j c.session e ≡ run_loop j first (t.events ++ e ∷ [])
  one_more first t e = ap (λ s. step j s e) t.session ∙ sym (run_loop-snoc first t.events e)

  still_watched :
      (s : Session j) (e : Event j) {b : Bool}
      → (b ≡ false → s.is_open ≡ false)
      → b ≡ false
      → (step j s e).is_open ≡ false
  still_watched s e watched f = rw (step-closed j s e (watched f)) (watched f)

  -- The loop takes no message of the client, at most another event.
  elsewhere :
      (first : Session j) {c d : Connection j} (t : Taken first c) (es : List (Event j))
      → messages es ≡ []
      → d.session ≡ run_loop j c.session es
      → d.client_msg_rx ≡ c.client_msg_rx
      → d.received ≡ c.received
      → (d.reconnect_tx ≡ false → d.session.is_open ≡ false)
      → Taken first d
  elsewhere first {c} {d} t es none_of_client session rx received watched = record {
    events = t.events ++ es;
    session =
        session ∙ ap (λ s. run_loop j s es) t.session ∙ sym (run_loop-append j first t.events es);
    in_order =
        received
        ∙ t.in_order
        ∙ rw (messages-append t.events es, none_of_client, append-nil (messages t.events))
            (ap (λ ms. messages t.events ++ ms) (sym rx));
    within = rw rx t.within;
    watched = watched;
  }

  Step-Taken : (first : Session j) {c d : Connection j} → Taken first c → Step j c d → Taken first d
  unfolding run_loop
  Step-Taken first {c} t (client_receives m runs room) = record {
    events = t.events;
    session = t.session;
    in_order =
        ap (λ ms. ms ++ m ∷ []) t.in_order
        ∙ append_assoc (messages t.events) c.client_msg_rx (m ∷ []);
    within = rw (length-snoc c.client_msg_rx m) (omega (arith, room));
    watched = t.watched;
  }
  Step-Taken first {c} t (take_client accepts m rest is_open e) = record {
    events = t.events ++ from_client accepts m ∷ [];
    session = one_more first t (from_client accepts m);
    in_order =
        t.in_order
        ∙ rw
            (
              e,
              messages-append t.events (from_client accepts m ∷ []),
              append_assoc (messages t.events) (m ∷ []) rest,
            )
            refl;
    within = omega (arith, t.within, ap length e);
    watched = still_watched c.session (from_client accepts m) t.watched;
  }
  Step-Taken first t client_ends = elsewhere first t [] refl refl refl refl t.watched
  Step-Taken first t (upstream_receives m runs room) =
      elsewhere first t [] refl refl refl refl t.watched
  Step-Taken first t upstream_ends = elsewhere first t [] refl refl refl refl t.watched
  Step-Taken first {c} t (take_upstream accepts m rest is_open e) =
      elsewhere first t (from_upstream accepts m ∷ []) refl refl refl refl
        (still_watched c.session (from_upstream accepts m) t.watched)
  Step-Taken first {c} t (take_signal info order connects accepts is_open e) =
      let (session, rx, received, watcher) = on_signal-fields info order connects accepts c in
      let event = reconnect info order connects accepts in
      elsewhere first t (event ∷ []) refl session rx received (λ f.
        ap (λ (s : Session j). s.is_open) session
        ∙ still_watched c.session event t.watched (sym watcher ∙ f))
  Step-Taken first {c} t (take_end is_open e) =
      elsewhere first t (channels_closed ∷ []) refl refl refl refl
        (still_watched c.session channels_closed t.watched)
  Step-Taken first t (signals s₀ s₁ s₂ name info runs e is_open free) =
      elsewhere first t [] refl refl refl refl t.watched
  Step-Taken first t (watcher_ends s₀ s₁ s₂ name info runs e closed) =
      elsewhere first t [] refl refl refl refl (λ f. closed)

  Reach-Taken :
      (first : Session j) {start c : Connection j}
      → Taken first start
      → Reach j start c
      → Taken first c
  Reach-Taken first t here = t
  Reach-Taken first t (next r s) = Step-Taken first (Reach-Taken first t r) s

  connected-Taken :
      (calls : List MetricCall) (node : Text) → Taken (start j calls node) (connected j calls node)
  unfolding run_loop
  connected-Taken calls node = record {
    events = [];
    session = refl;
    in_order = refl;
    within = omega arith;
    watched = λ f. absurd (ground (arith, f));
  }

  -- However the tasks of a connection interleave, its session is the proxy loop's after some
  -- events; the client's messages among them, with those in the channel behind them, are what the
  -- client's receiver task has received, in that order; and at most 100 are in the channel.
  pub Reach-run_loop :
      (calls : List MetricCall) (node : Text) {c : Connection j}
      → Reach j (connected j calls node) c
      → (events : List (Event j)) × (c.session ≡ run_loop j (start j calls node) events)
        × (c.received ≡ messages events ++ c.client_msg_rx)
        × (length c.client_msg_rx ≤ capacity)
  Reach-run_loop calls node r =
      let t = Reach-Taken (start j calls node) (connected-Taken calls node) r in
      (t.events, t.session, t.in_order, t.within)

  -- The branch of the loop for the case that all channels are at their ends is never taken, since
  -- the watcher holds its sender as long as the loop runs.
  pub Reach-not-AtEnd :
      (calls : List MetricCall) (node : Text) {c : Connection j}
      → Reach j (connected j calls node) c
      → ¬ ((c.session.is_open ≡ true) × AtEnd j c)
  Reach-not-AtEnd calls node r (is_open, ended) =
      let t = Reach-Taken (start j calls node) (connected-Taken calls node) r in
      ground (arith, t.watched ended.watcher_ended, is_open)
