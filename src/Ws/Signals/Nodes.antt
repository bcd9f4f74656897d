-- ===== src/Ws/Signals/Nodes.antt =====
-- The nodes that WebSocket connections of proxy/ws.rs are opened to and moved to, and those of the
-- configuration.
use vixy.Prelude.{
  ℕ, ◌≡◌, inl, inr, refl, sym, ap, ◌∙◌, Bool, List, ◌∷◌, ◌++◌, map, map-append, Option, none, some,
  Option-cases, arith, Text, if_ind,
}
use mathlib.Core.Path.{subst}
use vixy.Config.{Config}
use vixy.State.{ElNodeState, AppState, new}
use vixy.Selection.{select_el_node}
use vixy.Selection.Choice.{select_el_node-healthy}
use vixy.Monitor.Pass.{Identity, identity}
use vixy.Monitor.Phases.{World, Reach}
use vixy.Monitor.Interleaved.{Reach-SameNodes}
use vixy.Ws.Json.{Json}
use vixy.Ws.Replay.{reconnect_upstream}
use vixy.Ws.Session.{
  Session, Event, ReconnectInfo, Order, upgraded, reconnected, not_reconnected, el_ws_handler, step,
  on_event, on_client, on_upstream, on_reconnect, clean_up,
}
use vixy.Ws.Messages.{Message, UpstreamMessage}

-- The configuration has an EL node with this name and this WebSocket URL.
abbrev pub Configured : Config → ReconnectInfo → Type 0
Configured config info =
    (i : Identity) × (before : List Identity) × (after : List Identity) × (map identity
        (new config).el_nodes
      ≡ before ++ i ∷ after)
    × (i.name ≡ info.node_name)
    × (i.ws_url ≡ info.ws_url)

-- The configuration has an EL node of this name.
abbrev pub HasNode : Config → Text → Type 0
HasNode config name = (url : Text) × Configured config (record { node_name = name; ws_url = url })

abbrev pub IfAny {ℓ κ} : {A : Type ℓ} → (A → Type κ) → Option A → Type κ
IfAny P none = Unit
IfAny P (some a) = P a

pub IfAny-some {ℓ κ} :
    {A : Type ℓ} (P : A → Type κ) (o : Option A) {a : A} → o ≡ some a → IfAny P o → P a
IfAny-some P o {a} e p = subst (IfAny P) e p

pub selected-Configured :
    (config : Config) {w : World} (f : Bool) (n : ElNodeState)
    → Reach (new config) w
    → select_el_node w.shared.el_nodes f ≡ some n
    → Configured config (record { node_name = n.name; ws_url = n.ws_url })
selected-Configured config {w} f n r e =
    let (_, before, after, split) = select_el_node-healthy w.shared.el_nodes f n e in
    let same =
      sym (Reach-SameNodes r).0
      ∙ ap (map identity) split
      ∙ map-append identity before (n ∷ after) in
    (identity n, map identity before, map identity after, same, refl, refl)

pub upgraded-HasNode :
    (config : Config) (early : AppState) {w : World} (name url : Text)
    → Reach (new config) w
    → el_ws_handler early w.shared ≡ upgraded name url
    → HasNode config name
unfolding el_ws_handler
upgraded-HasNode config early {w} name url r e =
    elim (Option-cases (select_el_node w.shared.el_nodes early.el_failover_active)) [
      | inl f ↦ absurd (ground (arith, e, f))
      | inr (n, f) ↦
          let named : n.name ≡ name = ground (arith, e, f) in
          (n.ws_url, rw (← named) (selected-Configured config early.el_failover_active n r f))
    ]

module _ (j : Json) (config : Config) where
  pub on_reconnect-HasNode :
      (s : Session j) (info : ReconnectInfo) (order : Order j) (connects : Bool)
      (accepts : ℕ → Bool)
      → HasNode config s.current_node
      → Configured config info
      → HasNode config (on_reconnect j info order connects accepts s).current_node
  unfolding on_reconnect reconnected not_reconnected
  on_reconnect-HasNode s info order connects accepts old new_node =
      elim (Option-cases (reconnect_upstream j order connects accepts s.books.tracker).1) [
        | inl f ↦ rw (f, on_reconnect) old
        | inr (sent, f) ↦ rw (f, on_reconnect) (info.ws_url, new_node)
      ]

  pub step-HasNode :
      (s : Session j) (e : Event j)
      → HasNode config s.current_node
      → HasNode config (on_event j s e).current_node
      → HasNode config (step j s e).current_node
  unfolding step
  step-HasNode s e old next =
      if_ind (λ (t : Session j). HasNode config t.current_node) s.is_open next old

  pub on_client-current :
      (s : Session j) (accepts : Bool) (m : Message)
      → (on_client j accepts m s).current_node ≡ s.current_node
  unfolding on_client clean_up
  on_client-current s accepts m = ground arith

  pub on_upstream-current :
      (s : Session j) (accepts : Bool) (m : UpstreamMessage)
      → (on_upstream j accepts m s).current_node ≡ s.current_node
  unfolding on_upstream clean_up
  on_upstream-current s accepts m = ground arith

  pub clean_up-current : (s : Session j) → (clean_up j s).current_node ≡ s.current_node
  unfolding clean_up
  clean_up-current s = refl
