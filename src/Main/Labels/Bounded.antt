-- ===== src/Main/Labels/Bounded.antt =====
-- The labels of the sessions of proxy/ws.rs, and those of the whole program.
use vixy.Prelude.{
  ℕ, ◌≡◌, inl, inr, refl, sym, ◌∙◌, All, All-append, Bool, true, false, List, [], ◌∷◌, ◌++◌, map,
  Option, none, some, Option-cases, Text, get, if_ind, append_assoc,
}
use vixy.Config.{Config}
use vixy.State.{AppState, new}
use vixy.Health.Net.{Net}
use vixy.Metrics.{MetricCall, inc_ws_connections, set_ws_upstream_node}
use vixy.Monitor.{tier, run_health_monitor}
use vixy.Monitor.Pass.{Identity, identity, cl_identity}
use vixy.Monitor.Phases.{World, Reach}
use vixy.Monitor.Interleaved.{Reach-SameNodes}
use vixy.Http.{Client, Request, el_proxy_handler, cl_proxy_handler}
use vixy.Main.Labels.{Labelled, Fine, Named, monitor-Fine, el_handler-Fine, cl_handler-Fine}
use vixy.Ws.Json.{Json}
use vixy.Ws.Messages.{Books, note_subscribe, note_unsubscribe, note_answer}
use vixy.Ws.Replay.{reconnect_upstream}
use vixy.Ws.Session.{
  Session, Event, ReconnectInfo, Order, on_reconnect, reconnected, not_reconnected, run_proxy_loop,
  start, finish, handle_websocket, el_ws_handler, upgraded,
}
use vixy.Ws.Session.Invariant.{Moves, Maintained, run_loop-Keeps}
use vixy.Ws.Signals.Nodes.{HasNode, upgraded-HasNode}

module _ (P : Text → Text → Type 0) (Q R : Text → Type 0) where
  -- The session is on a node whose label is fine, and so are the labels so far.
  abbrev Tidy : (j : Json) → Text → Books j → Type 0
  Tidy j node b = R node × Fine P Q R b.calls

  module _ (j : Json) where
    more :
        (node : Text) (calls new : List MetricCall)
        → R node × Fine P Q R calls
        → Fine P Q R new
        → R node × Fine P Q R (calls ++ new)
    more node calls new (r, f) g = (r, All-append (Labelled P Q R) calls new f g)

    reconnect-Tidy :
        (s : Session j) (info : ReconnectInfo) (order : Order j) (connects : Bool)
        (accepts : ℕ → Bool)
        → R info.node_name
        → Tidy j s.current_node s.books
        → let t = on_reconnect j info order connects accepts s in Tidy j t.current_node t.books
    unfolding on_reconnect reconnected not_reconnected
    reconnect-Tidy s info order connects accepts r h =
        elim (Option-cases (reconnect_upstream j order connects accepts s.books.tracker).1) [
          | inl e ↦ rw (e, on_reconnect) (more s.current_node s.books.calls _ h (inr refl, tt))
          | inr (sent, e) ↦
              rw (e, on_reconnect)
                (more info.node_name s.books.calls _ (r, h.1) (tt, (inl refl, (h.0, (r, tt)))))
        ]

    note_subscribe-Tidy :
        (node : Text) (b : Books j) (id params : Option j.Value)
        → Tidy j node b
        → Tidy j node (note_subscribe j id params b)
    unfolding note_subscribe
    note_subscribe-Tidy node b (some id) (some params) h = h
    note_subscribe-Tidy node b (some id) none h = h
    note_subscribe-Tidy node b none params h = h

    note_unsubscribe-Tidy :
        (node : Text) (b : Books j) (sub_id : Option Text)
        → Tidy j node b
        → Tidy j node (note_unsubscribe j sub_id b)
    unfolding note_unsubscribe
    note_unsubscribe-Tidy node b none h = h
    note_unsubscribe-Tidy node b (some c) h = more node b.calls _ h (tt, tt)

    note_answer-Tidy :
        (node : Text) (b : Books j) (id : j.Value) (sub_id : Text)
        → Tidy j node b
        → Tidy j node (note_answer j id sub_id b)
    unfolding note_answer
    note_answer-Tidy node b id sub_id h = elim (Option-cases (get (j.to_string id) b.pending)) [
      | inl e ↦ rw (e, note_answer) h
      | inr (_, e) ↦ rw (e, note_answer) (more node b.calls _ h (tt, tt))
    ]

    Tidy-Maintained : Maintained j (λ info. R info.node_name) (Tidy j)
    Tidy-Maintained = record {
      messages = λ node. record {
        message = λ b d is h. more node b.calls _ h (is, tt);
        subscribe = note_subscribe-Tidy node;
        unsubscribe = note_unsubscribe-Tidy node;
        answer = note_answer-Tidy node;
      };
      reconnects = reconnect-Tidy;
    }

    finish-Tidy :
        (order : Order j) (s : Session j)
        → Tidy j s.current_node s.books
        → Fine P Q R (finish j order s).books.calls
    unfolding finish
    finish-Tidy order s h = (more s.current_node s.books.calls _ h (h.0, (tt, (tt, tt)))).1

    run_proxy_loop-Tidy :
        (node : Text) (connects : Bool) (events : List (Event j))
        → R node
        → All (Moves (λ info. R info.node_name)) events
        → let s =
            run_proxy_loop j
              (inc_ws_connections ∷ set_ws_upstream_node node true ∷ [])
              node
              connects
              events in
          Tidy j s.current_node s.books
    unfolding run_proxy_loop
    run_proxy_loop-Tidy node true events r moves =
        run_loop-Keeps j _ _ Tidy-Maintained (start j _ node) events moves (r, (tt, (r, tt)))
    run_proxy_loop-Tidy node false events r moves = (r, (tt, (r, tt)))

    session-Fine :
        (order : Order j) (node : Text) (connects : Bool) (events : List (Event j))
        → R node
        → All (Moves (λ info. R info.node_name)) events
        → Fine P Q R (handle_websocket j order node connects events).books.calls
    unfolding handle_websocket
    session-Fine order node connects events r moves =
        let s =
          run_proxy_loop j (inc_ws_connections ∷ set_ws_upstream_node node true ∷ []) node connects
            events in
        let tidy = run_proxy_loop-Tidy node connects events r moves in
        if_ind (λ (t : Session j). Fine P Q R t.books.calls) s.is_open tidy.1
          (finish-Tidy order s tidy)

-- The configuration has an EL node of this name in this tier.
abbrev pub IsElLabel : Config → Text → Text → Type 0
IsElLabel config name t =
    (i : Identity) × (before : List Identity) × (after : List Identity) × (map identity
        (new config).el_nodes
      ≡ before ++ i ∷ after)
    × (i.name ≡ name)
    × (tier i.is_primary ≡ t)

-- The configuration has a CL node of this name.
abbrev pub IsClLabel : Config → Text → Type 0
IsClLabel config name =
    (url : Text) × (before : List (Text × Text)) × (after : List (Text × Text)) × (map cl_identity
        (new config).cl_nodes
      ≡ before ++ (name, url) ∷ after)

members {ℓ κ} :
    {A : Type ℓ} (P : A → Type κ) (before xs : List A)
    → ((b : List A) (x : A) (a : List A) → before ++ xs ≡ b ++ x ∷ a → P x)
    → All P xs
members P before [] h = tt
members P before (x ∷ xs) h = (
  h before x xs refl,
  members P (before ++ x ∷ []) xs (λ b y a e. h b y a (sym (append_assoc before (x ∷ []) xs) ∙ e)),
)

module _ (config : Config) where
  abbrev IsNamed : AppState → Type 0
  IsNamed = Named (IsElLabel config) (IsClLabel config) (HasNode config)

  new-IsNamed : IsNamed (new config)
  new-IsNamed = (
    members _ [] (map identity (new config).el_nodes) (λ b i a e. (i, b, a, e, refl, refl)),
    members _ [] (map cl_identity (new config).cl_nodes) (λ b i a e. (i.1, b, a, e)),
  )

  Reach-IsNamed : {w : World} → Reach (new config) w → IsNamed w.shared
  Reach-IsNamed r = let (el, cl) = Reach-SameNodes r in rw (el, cl) new-IsNamed

  -- Every label is one of finitely many: the name and the tier of an EL node of the configuration,
  -- the name of a CL node, `upstream` or `downstream`, and `success` or `failed`. So it is for the
  -- calls of the monitor, in any number of cycles; of the handlers, wherever in a cycle they read
  -- the nodes; and of a WebSocket connection that was opened in a state that the program can reach,
  -- whatever happens to it, if the signals to reconnect name EL nodes of the configuration.
  pub calls-Labelled :
      (nets : List Net) (client : Client) (early : AppState) {w : World}
      → Reach (new config) w
      → (request : Request) (j : Json) (order : Order j) (name url : Text) (connects : Bool)
        (events : List (Event j))
      → el_ws_handler early w.shared ≡ upgraded name url
      → All (Moves (λ info. HasNode config info.node_name)) events
      → let IsFine = Labelled (IsElLabel config) (IsClLabel config) (HasNode config) in
        All IsFine (run_health_monitor nets (new config)).1
        × All IsFine (el_proxy_handler client early w.shared request).1
        × All IsFine (cl_proxy_handler client w.shared request).1
        × All IsFine (handle_websocket j order name connects events).books.calls
  calls-Labelled nets client early r request j order name url connects events e moves =
      let here = Reach-IsNamed r in
      (
        monitor-Fine _ _ _ nets (new config) new-IsNamed,
        el_handler-Fine _ _ _ client early _ request here,
        cl_handler-Fine _ _ _ client _ request here,
        session-Fine _ _ _ j order name connects events (upgraded-HasNode config early name url r e)
            moves,
      )
