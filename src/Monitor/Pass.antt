-- ===== src/Monitor/Pass.antt =====
-- The loops of monitor.rs over the nodes, in closed form.
use vixy.Prelude.{
  ℕ, ◌+◌, ◌≤◌, ◌<◌, ◌≡◌, refl, ◌⊎◌, any, All, Bool, true, false, ◌||◌, List, [], ◌∷◌, map, ap₂,
  arith, if◌then◌else◌,
}
use vixy.State.{ElNodeState, ClNodeState}
use vixy.Selection.{healthy_primary}
use vixy.Health.Net.{Net}
use vixy.Health.El.{update_el_chain_head, calculate_el_health}
use vixy.Health.Cl.{update_cl_chain_head, calculate_cl_health}
use vixy.Monitor.{
  el_pass, cl_pass, note_primary, count_if, poll_el, poll_el_nodes, poll_cl, poll_cl_nodes,
}

abbrev pub healthy_total : List ElNodeState → ℕ
healthy_total [] = 0
healthy_total (n ∷ ns) = (if n.is_healthy then 1 else 0) + healthy_total ns

abbrev pub cl_healthy_total : List ClNodeState → ℕ
cl_healthy_total [] = 0
cl_healthy_total (n ∷ ns) = (if n.is_healthy then 1 else 0) + cl_healthy_total ns

-- What of a node the monitor never changes.
pub record Identity : Type 0 where
  pub name : List ℕ
  pub http_url : List ℕ
  pub ws_url : List ℕ
  pub is_primary : Bool

abbrev pub identity : ElNodeState → Identity
identity n = record {
  name = n.name;
  http_url = n.http_url;
  ws_url = n.ws_url;
  is_primary = n.is_primary;
}

abbrev pub cl_identity : ClNodeState → List ℕ × List ℕ
cl_identity n = (n.name, n.url)

module _ (head l m : ℕ) where
  -- The state of a node after the health rule, seen from the chain head.
  pub record Assessed (healthy ok : Bool) (height lag failures : ℕ) : Type 0 where
    pub behind : lag + height ≡ head
    pub in_service : healthy ≡ true → ((ok ≡ true) × (lag ≤ l) × (failures ≡ 0)) ⊎ (failures < m)
    pub out_of_service : healthy ≡ false → (ok ≡ false) ⊎ (l < lag)

  abbrev pub ElAssessed : ElNodeState → Type 0
  ElAssessed n = Assessed n.is_healthy n.check_ok n.block_number n.lag n.consecutive_failures

  abbrev pub ClAssessed : ClNodeState → Type 0
  ClAssessed n = Assessed n.is_healthy n.health_ok n.slot n.lag n.consecutive_failures

  calculate_el_health-Assessed :
      (n : ElNodeState) → n.block_number ≤ head → ElAssessed (calculate_el_health n head l m)
  unfolding calculate_el_health
  calculate_el_health-Assessed n h = ground arith

  calculate_cl_health-Assessed :
      (n : ClNodeState) → n.slot ≤ head → ClAssessed (calculate_cl_health n head l m)
  unfolding calculate_cl_health
  calculate_cl_health-Assessed n h = ground arith

  pub el_pass-Assessed :
      (ns : List ElNodeState) (a : Bool) (c : ℕ)
      → All (λ n. n.block_number ≤ head) ns
      → All ElAssessed (el_pass head l m a c ns).nodes
  unfolding el_pass
  el_pass-Assessed [] a c h = tt
  el_pass-Assessed (n ∷ ns) a c h =
      (calculate_el_health-Assessed n h.0, el_pass-Assessed ns _ _ h.1)

  pub cl_pass-Assessed :
      (ns : List ClNodeState) (c : ℕ)
      → All (λ n. n.slot ≤ head) ns
      → All ClAssessed (cl_pass head l m c ns).nodes
  unfolding cl_pass
  cl_pass-Assessed [] c h = tt
  cl_pass-Assessed (n ∷ ns) c h = (calculate_cl_health-Assessed n h.0, cl_pass-Assessed ns _ h.1)

  pub el_pass-any :
      (ns : List ElNodeState) (a : Bool) (c : ℕ)
      → let pass = el_pass head l m a c ns in
        pass.any_primary_healthy ≡ (a || any healthy_primary pass.nodes)
  unfolding el_pass
  el_pass-any [] a c = ground arith
  el_pass-any (n ∷ ns) a c =
      let node = calculate_el_health n head l m in
      ground (arith, el_pass-any ns (note_primary a node) (count_if node.is_healthy c))

  pub el_pass-count :
      (ns : List ElNodeState) (a : Bool) (c : ℕ)
      → let pass = el_pass head l m a c ns in pass.healthy_count ≡ c + healthy_total pass.nodes
  unfolding el_pass
  el_pass-count [] a c = ground arith
  el_pass-count (n ∷ ns) a c =
      let node = calculate_el_health n head l m in
      ground (arith, el_pass-count ns (note_primary a node) (count_if node.is_healthy c))

  calculate_el_health-identity :
      (n : ElNodeState) → identity (calculate_el_health n head l m) ≡ identity n
  unfolding calculate_el_health
  calculate_el_health-identity n = ground arith

  pub cl_pass-count :
      (ns : List ClNodeState) (c : ℕ)
      → let pass = cl_pass head l m c ns in pass.healthy_count ≡ c + cl_healthy_total pass.nodes
  unfolding cl_pass
  cl_pass-count [] c = ground arith
  cl_pass-count (n ∷ ns) c =
      let node = calculate_cl_health n head l m in
      ground (arith, cl_pass-count ns (count_if node.is_healthy c))

  pub el_pass-identity :
      (ns : List ElNodeState) (a : Bool) (c : ℕ)
      → map identity (el_pass head l m a c ns).nodes ≡ map identity ns
  unfolding el_pass
  el_pass-identity [] a c = refl
  el_pass-identity (n ∷ ns) a c =
      let node = calculate_el_health n head l m in
      ap₂ ◌∷◌ (calculate_el_health-identity n)
        (el_pass-identity ns (note_primary a node) (count_if node.is_healthy c))

pub update_el_chain_head-ge :
    (ns : List ElNodeState) (h : ℕ) → update_el_chain_head ns ≤ h → All (λ n. n.block_number ≤ h) ns
unfolding update_el_chain_head
update_el_chain_head-ge [] h b = tt
update_el_chain_head-ge (n ∷ ns) h b = (omega arith, update_el_chain_head-ge ns h (omega arith))

pub update_cl_chain_head-ge :
    (ns : List ClNodeState) (h : ℕ) → update_cl_chain_head ns ≤ h → All (λ n. n.slot ≤ h) ns
unfolding update_cl_chain_head
update_cl_chain_head-ge [] h b = tt
update_cl_chain_head-ge (n ∷ ns) h b = (omega arith, update_cl_chain_head-ge ns h (omega arith))

poll_el-identity : (net : Net) (v : ℕ) (n : ElNodeState) → identity (poll_el net v n) ≡ identity n
unfolding poll_el
poll_el-identity net v n = ground arith

pub poll_el_nodes-identity :
    (net : Net) (v : ℕ) (ns : List ElNodeState)
    → map identity (poll_el_nodes net v ns) ≡ map identity ns
unfolding poll_el_nodes
poll_el_nodes-identity net v [] = refl
poll_el_nodes-identity net v (n ∷ ns) =
    ap₂ ◌∷◌ (poll_el-identity net v n) (poll_el_nodes-identity net (v + 1) ns)

poll_cl-identity :
    (net : Net) (v : ℕ) (n : ClNodeState) → cl_identity (poll_cl net v n) ≡ cl_identity n
unfolding poll_cl
poll_cl-identity net v n = ground arith

pub poll_cl_nodes-identity :
    (net : Net) (v : ℕ) (ns : List ClNodeState)
    → map cl_identity (poll_cl_nodes net v ns) ≡ map cl_identity ns
unfolding poll_cl_nodes
poll_cl_nodes-identity net v [] = refl
poll_cl_nodes-identity net v (n ∷ ns) =
    ap₂ ◌∷◌ (poll_cl-identity net v n) (poll_cl_nodes-identity net (v + 1) ns)

calculate_cl_health-identity :
    (h l m : ℕ) (n : ClNodeState) → cl_identity (calculate_cl_health n h l m) ≡ cl_identity n
unfolding calculate_cl_health
calculate_cl_health-identity h l m n = ground arith

pub cl_pass-identity :
    (ns : List ClNodeState) (h l m c : ℕ)
    → map cl_identity (cl_pass h l m c ns).nodes ≡ map cl_identity ns
unfolding cl_pass
cl_pass-identity [] h l m c = refl
cl_pass-identity (n ∷ ns) h l m c =
    ap₂ ◌∷◌ (calculate_cl_health-identity h l m n) (cl_pass-identity ns h l m _)
