-- ===== src/Monitor/Series.antt =====
-- The gauges of single nodes, and what the calls of a pass of monitor.rs over the nodes do to them.
use vixy.Prelude.{
  ℕ, ◌≡◌, refl, sym, ap, ◌∙◌, All, Bool, false, ◌&&◌, List, [], ◌∷◌, ◌++◌, map, Text, text_eq,
  text_eq_refl,
}
use mathlib.Core.Path.{subst}
use vixy.State.{ElNodeState, ClNodeState}
use vixy.Health.El.{calculate_el_health}
use vixy.Health.Cl.{calculate_cl_health}
use vixy.Metrics.{MetricCall, Prometric, PrometricLaws, VixyMetrics, record_call, record_calls, bit}
use vixy.Monitor.{tier, note_primary, count_if, el_node_calls, cl_node_calls, el_pass, cl_pass}
use vixy.Monitor.Pass.{Identity, identity, cl_identity}

-- Two EL nodes have the same labels in the metrics: one name in one tier.
abbrev pub same_labels : Identity → Identity → Bool
same_labels a b = text_eq a.name b.name && text_eq (tier a.is_primary) (tier b.is_primary)

-- The CL nodes have their names as labels.
abbrev pub same_name : List ℕ × List ℕ → List ℕ × List ℕ → Bool
same_name a b = text_eq a.0 b.0

-- No two elements are the same for the test.
abbrev pub Distinct {ℓ} : {A : Type ℓ} → (A → A → Bool) → List A → Type 0
Distinct same [] = Unit
Distinct same (a ∷ as') = All (λ b. same a b ≡ false) as' × Distinct same as'

-- The calls of a pass.
abbrev pub el_calls : List ElNodeState → List MetricCall
el_calls [] = []
el_calls (n ∷ ns) = el_node_calls n ++ el_calls ns

pub el_pass-calls :
    (ns : List ElNodeState) (head lag failures : ℕ) (any : Bool) (count : ℕ)
    → (el_pass head lag failures any count ns).calls
      ≡ el_calls (el_pass head lag failures any count ns).nodes
unfolding el_pass
el_pass-calls [] head lag failures any count = refl
el_pass-calls (n ∷ ns) head lag failures any count =
    let node = calculate_el_health n head lag failures in
    ap (λ cs. el_node_calls node ++ cs)
      (el_pass-calls ns head lag failures (note_primary any node) (count_if node.is_healthy count))

abbrev pub cl_calls : List ClNodeState → List MetricCall
cl_calls [] = []
cl_calls (n ∷ ns) = cl_node_calls n ++ cl_calls ns

pub cl_pass-calls :
    (ns : List ClNodeState) (head lag failures count : ℕ)
    → (cl_pass head lag failures count ns).calls
      ≡ cl_calls (cl_pass head lag failures count ns).nodes
unfolding cl_pass
cl_pass-calls [] head lag failures count = refl
cl_pass-calls (n ∷ ns) head lag failures count =
    let node = calculate_cl_health n head lag failures in
    ap (λ cs. cl_node_calls node ++ cs)
      (cl_pass-calls ns head lag failures (count_if node.is_healthy count))

module _ (p : Prometric) where
  open p use {Gauge, read}

  -- The gauges of the EL nodes, and those of the CL nodes.
  abbrev pub el_series : VixyMetrics p → Text → Text → Gauge × Gauge × Gauge
  el_series m name t = (m.el_block_number name t, m.el_lag name t, m.el_healthy name t)

  abbrev pub cl_series : VixyMetrics p → Text → Gauge × Gauge × Gauge
  cl_series m name = (m.cl_slot name, m.cl_lag name, m.cl_healthy name)

  abbrev pub Reads : Gauge × Gauge × Gauge → ℕ → ℕ → Bool → Type 0
  Reads (a, b, c) height lag healthy = (read a ≡ height) × (read b ≡ lag) × (read c ≡ bit healthy)

  pub shown_by :
      {g h : Gauge × Gauge × Gauge} (a b : ℕ) (c : Bool) → g ≡ h → Reads h a b c → Reads g a b c
  shown_by a b c e r = subst (λ x. Reads x a b c) (sym e) r

  -- The gauges with a node's labels show the node's state.
  abbrev pub ElShown : VixyMetrics p → ElNodeState → Type 0
  ElShown m n = Reads (el_series m n.name (tier n.is_primary)) n.block_number n.lag n.is_healthy

  abbrev pub ClShown : VixyMetrics p → ClNodeState → Type 0
  ClShown m n = Reads (cl_series m n.name) n.slot n.lag n.is_healthy

  el_calls-series :
      (i : Identity) (ns : List ElNodeState) (m : VixyMetrics p)
      → All (λ k. same_labels i k ≡ false) (map identity ns)
      → el_series (record_calls p (el_calls ns) m) i.name (tier i.is_primary)
        ≡ el_series m i.name (tier i.is_primary)
  unfolding record_calls record_call
  el_calls-series i [] m other = refl
  el_calls-series i (n ∷ ns) m (e, other) =
      el_calls-series i ns (record_calls p (el_node_calls n) m) other ∙ rw e refl

  pub el_calls-ElShown :
      (law : PrometricLaws p) (ns : List ElNodeState) (m : VixyMetrics p)
      → Distinct same_labels (map identity ns)
      → All (ElShown (record_calls p (el_calls ns) m)) ns
  unfolding record_calls record_call
  el_calls-ElShown law [] m distinct = tt
  el_calls-ElShown law (n ∷ ns) m (other, distinct) =
      let m' = record_calls p (el_node_calls n) m in
      let here : ElShown m' n =
        rw (text_eq_refl n.name, text_eq_refl (tier n.is_primary))
          (
            law.read-set n.block_number _,
            law.read-set n.lag _,
            law.read-set (bit n.is_healthy) _,
          ) in
      (
        shown_by _ _ _ (el_calls-series (identity n) ns m' other) here,
        el_calls-ElShown law ns m' distinct,
      )

  cl_calls-series :
      (i : List ℕ × List ℕ) (ns : List ClNodeState) (m : VixyMetrics p)
      → All (λ k. same_name i k ≡ false) (map cl_identity ns)
      → cl_series (record_calls p (cl_calls ns) m) i.0 ≡ cl_series m i.0
  unfolding record_calls record_call
  cl_calls-series i [] m other = refl
  cl_calls-series i (n ∷ ns) m (e, other) =
      cl_calls-series i ns (record_calls p (cl_node_calls n) m) other ∙ rw e refl

  pub cl_calls-ClShown :
      (law : PrometricLaws p) (ns : List ClNodeState) (m : VixyMetrics p)
      → Distinct same_name (map cl_identity ns)
      → All (ClShown (record_calls p (cl_calls ns) m)) ns
  unfolding record_calls record_call
  cl_calls-ClShown law [] m distinct = tt
  cl_calls-ClShown law (n ∷ ns) m (other, distinct) =
      let m' = record_calls p (cl_node_calls n) m in
      let here : ClShown m' n =
        rw (text_eq_refl n.name)
          (law.read-set n.slot _, law.read-set n.lag _, law.read-set (bit n.is_healthy) _) in
      (
        shown_by _ _ _ (cl_calls-series (cl_identity n) ns m' other) here,
        cl_calls-ClShown law ns m' distinct,
      )
