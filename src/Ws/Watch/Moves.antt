-- ===== src/Ws/Watch/Moves.antt =====
-- When `health_monitor` of proxy/ws.rs signals that a connection moves to another node.
use vixy.Prelude.{
  ◌≡◌, refl, sym, ap, ◌∙◌, ◌↔◌, inl, inr, Bool, true, false, map, find, All, List, [], ◌∷◌, ◌++◌,
  none, some, Option-cases, Bool-cases, Text, text_eq, text_eq_iff, text_eq_refl, arith,
}
use vixy.State.{ElNodeState, AppState}
use vixy.Selection.{select_el_node}
use vixy.Selection.Choice.{find_complete, select_el_node-healthy}
use vixy.Health.Net.{Net}
use vixy.Monitor.{run_health_monitor}
use vixy.Monitor.Cycle.{run_health_monitor-serves, run_health_monitor-identity}
use vixy.Monitor.Pass.{identity}
use vixy.Ws.Session.{ReconnectInfo}
use vixy.Ws.Watch.{is_node_healthy, select_healthy_node, health_monitor}

-- No name stands twice.
abbrev pub Distinct : List Text → Type 0
Distinct [] = Unit
Distinct (n ∷ ns) = All (λ m. text_eq n m ≡ false) ns × Distinct ns

abbrev pub names : List ElNodeState → List Text
names = map (λ n. n.name)

names-identity : (ns : List ElNodeState) → names ns ≡ map (λ i. i.name) (map identity ns)
names-identity [] = refl
names-identity (n ∷ ns) = ap (λ ms. n.name ∷ ms) (names-identity ns)

pub run_health_monitor-names :
    (nets : List Net) (s : AppState)
    → names (run_health_monitor nets s).0.el_nodes ≡ names s.el_nodes
run_health_monitor-names nets s =
    names-identity _
    ∙ ap (map (λ i. i.name)) (run_health_monitor-identity nets s).0
    ∙ sym (names-identity s.el_nodes)

All-middle {ℓ κ} :
    {A : Type ℓ} {B : Type ℓ} (f : B → A) (P : A → Type κ) (before after : List B) (x : B)
    → All P (map f (before ++ x ∷ after))
    → P (f x)
All-middle f P [] after x h = h.0
All-middle f P (y ∷ before) after x h = All-middle f P before after x h.1

Distinct-before :
    (before after : List ElNodeState) (n : ElNodeState)
    → Distinct (names (before ++ n ∷ after))
    → All (λ m. text_eq m.name n.name ≡ false) before
Distinct-before [] after n d = tt
Distinct-before (m ∷ before) after n d =
    (All-middle (λ n. n.name) _ before after n d.0, Distinct-before before after n d.1)

pub selected-is_node_healthy :
    (s : AppState) (f : Bool) (n : ElNodeState)
    → Distinct (names s.el_nodes)
    → select_el_node s.el_nodes f ≡ some n
    → is_node_healthy s n.name ≡ true
unfolding is_node_healthy
selected-is_node_healthy s f n d e =
    let (healthy, before, after, split) = select_el_node-healthy s.el_nodes f n e in
    let distinct : Distinct (names (before ++ n ∷ after)) = rw (← split) d in
    let found : find (λ m. text_eq m.name n.name) s.el_nodes ≡ some n = rw split (
      find_complete (λ m. text_eq m.name n.name) before after n (text_eq_refl n.name)
        (Distinct-before before after n distinct)) in
    rw (found, is_node_healthy) healthy

pub monitor_signals :
    (s : AppState) (name : Text) (n : ElNodeState)
    → Distinct (names s.el_nodes)
    → is_node_healthy s name ≡ false
    → select_el_node s.el_nodes s.el_failover_active ≡ some n
    → health_monitor s s s name ≡ some (record { node_name = n.name; ws_url = n.ws_url })
unfolding health_monitor select_healthy_node
monitor_signals s name n d sick e =
    let well = selected-is_node_healthy s s.el_failover_active n d e in
    elim (Bool-cases (text_eq n.name name)) [
      | inl same ↦
          let eq : n.name ≡ name = (text_eq_iff n.name name).0 same in
          absurd (ground (arith, eq, well, sick))
      | inr different ↦ ground (arith, e, sick, different)
    ]

monitor_iff :
    (s : AppState) (name : Text)
    → Distinct (names s.el_nodes)
    → is_node_healthy s name ≡ false
    → (health_monitor s s s name ≡ none) ↔ (select_el_node s.el_nodes s.el_failover_active ≡ none)
unfolding health_monitor select_healthy_node
monitor_iff s name d sick = elim (Option-cases (select_el_node s.el_nodes s.el_failover_active)) [
  | inl e ↦ ground (arith, e, sick)
  | inr (n, e) ↦ let signal = monitor_signals s name n d sick e in ground (arith, e, signal)
]

-- After at least one health check cycle, the watcher of a connection whose node is unhealthy, or
-- unknown, signals no move exactly when all EL nodes are unhealthy, given that the nodes' names
-- are distinct and that no write of the monitor comes in between.
pub health_monitor-moves :
    (net : Net) (nets : List Net) (s : AppState) (name : Text)
    → Distinct (names s.el_nodes)
    → let t = (run_health_monitor (net ∷ nets) s).0 in
      is_node_healthy t name ≡ false
      → (health_monitor t t t name ≡ none) ↔ All (λ n. n.is_healthy ≡ false) t.el_nodes
health_monitor-moves net nets s name d sick =
    let t = (run_health_monitor (net ∷ nets) s).0 in
    let distinct : Distinct (names t.el_nodes) = rw (run_health_monitor-names (net ∷ nets) s) d in
    let a = monitor_iff t name distinct sick in
    let b = run_health_monitor-serves net nets s in (λ h. b.0 (a.0 h), λ h. a.1 (b.1 h))

-- A signal names a node that was chosen for its health, and never the node that the connection is
-- on; and the node that it is on was unhealthy or unknown when it was looked up.
pub health_monitor-signal :
    (s₀ s₁ s₂ : AppState) (name : Text) (info : ReconnectInfo)
    → health_monitor s₀ s₁ s₂ name ≡ some info
    → (is_node_healthy s₀ name ≡ false)
      × (text_eq info.node_name name ≡ false)
      × (n : ElNodeState) × (n.is_healthy ≡ true)
      × (info ≡ record { node_name = n.name; ws_url = n.ws_url })
      × (select_el_node s₂.el_nodes s₁.el_failover_active ≡ some n)
unfolding health_monitor select_healthy_node
health_monitor-signal s₀ s₁ s₂ name info e =
    elim (Option-cases (select_el_node s₂.el_nodes s₁.el_failover_active)) [
      | inl f ↦ absurd (ground (arith, e, f))
      | inr (n, f) ↦
          let healthy = (select_el_node-healthy s₂.el_nodes s₁.el_failover_active n f).0 in
          (ground arith, ground arith, n, healthy, ground arith, f)
    ]
