-- ===== src/Monitor/Nodes.antt =====
-- The gauges of single nodes, after a cycle of monitor.rs.
use vixy.Prelude.{
  ℕ, ◌+◌, ◌≡◌, refl, sym, ap, ◌∙◌, All, Bool, false, List, [], ◌∷◌, ◌++◌, map, arith, length, Text,
}
use mathlib.Core.Path.{subst}
use vixy.State.{ElNodeState, ClNodeState, AppState}
use vixy.Health.Net.{Net}
use vixy.Health.El.{update_el_chain_head}
use vixy.Health.Cl.{update_cl_chain_head}
use vixy.Metrics.{
  set_el_healthy_nodes, set_cl_healthy_nodes, set_el_chain_head, set_cl_chain_head, Prometric,
  PrometricLaws, VixyMetrics, record_call, record_calls,
}
use vixy.Monitor.{
  tier, el_pass, cl_pass, check_all_el_nodes, check_all_cl_nodes, update_failover_flag,
  run_health_check_cycle, poll_el_nodes, poll_cl_nodes,
}
use vixy.Monitor.Pass.{
  identity, cl_identity, el_pass-identity, poll_el_nodes-identity, cl_pass-identity,
  poll_cl_nodes-identity,
}
use vixy.Monitor.Cycle.{update_failover_flag-flag}
use vixy.Monitor.Gauges.{record_calls-append}
use vixy.Monitor.Series.{
  same_labels, same_name, Distinct, el_pass-calls, cl_calls, cl_pass-calls, el_series, cl_series,
  shown_by, ElShown, ClShown, el_calls-ElShown, cl_calls-ClShown,
}

module _ (p : Prometric) where
  open p use {Gauge, read}

  -- All the series of the EL nodes.
  abbrev families :
      VixyMetrics p → (Text → Text → Gauge) × (Text → Text → Gauge) × (Text → Text → Gauge)
  families m = (m.el_block_number, m.el_lag, m.el_healthy)

  abbrev cl_families : VixyMetrics p → (Text → Gauge) × (Text → Gauge) × (Text → Gauge)
  cl_families m = (m.cl_slot, m.cl_lag, m.cl_healthy)

  cl_calls-families :
      (ns : List ClNodeState) (m : VixyMetrics p)
      → families (record_calls p (cl_calls ns) m) ≡ families m
  unfolding record_calls record_call
  cl_calls-families [] m = refl
  cl_calls-families (n ∷ ns) m = cl_calls-families ns _

  update-families :
      (s : AppState) (b : Bool) (m : VixyMetrics p)
      → let m' = record_calls p (update_failover_flag s b).1 m in
        (families m' ≡ families m) × (cl_families m' ≡ cl_families m)
  unfolding update_failover_flag record_calls record_call
  update-families s b m = ground arith

  keep_el :
      (ns : List ElNodeState) (m m' : VixyMetrics p)
      → families m' ≡ families m
      → All (ElShown p m) ns
      → All (ElShown p m') ns
  keep_el [] m m' e h = tt
  keep_el (n ∷ ns) m m' e (h, rest) =
      let t = tier n.is_primary in
      let same : el_series p m' n.name t ≡ el_series p m n.name t =
        ap (λ f. (f.0 n.name t, f.1 n.name t, f.2 n.name t)) e in
      (shown_by p _ _ _ same h, keep_el ns m m' e rest)

  keep_cl :
      (ns : List ClNodeState) (m m' : VixyMetrics p)
      → cl_families m' ≡ cl_families m
      → All (ClShown p m) ns
      → All (ClShown p m') ns
  keep_cl [] m m' e h = tt
  keep_cl (n ∷ ns) m m' e (h, rest) =
      let same : cl_series p m' n.name ≡ cl_series p m n.name =
        ap (λ f. (f.0 n.name, f.1 n.name, f.2 n.name)) e in
      (shown_by p _ _ _ same h, keep_cl ns m m' e rest)

  check_el-ElShown :
      (law : PrometricLaws p) (net : Net) (visit : ℕ) (s : AppState) (m : VixyMetrics p)
      → Distinct same_labels (map identity s.el_nodes)
      → let (t, _, calls) = check_all_el_nodes net visit s in
        All (ElShown p (record_calls p calls m)) t.el_nodes
  unfolding check_all_el_nodes record_calls record_call
  check_el-ElShown law net visit s m distinct =
      let polled = poll_el_nodes net visit s.el_nodes in
      let head = update_el_chain_head polled in
      let pass = el_pass head s.max_el_lag s.health_check_max_failures false 0 polled in
      let m' = record_call p (set_el_chain_head head) m in
      let same : map identity pass.nodes ≡ map identity s.el_nodes =
        el_pass-identity head s.max_el_lag s.health_check_max_failures polled false 0
        ∙ poll_el_nodes-identity net visit s.el_nodes in
      rw
        (
          record_calls-append p pass.calls (set_el_healthy_nodes pass.healthy_count ∷ []) m',
          el_pass-calls polled head s.max_el_lag s.health_check_max_failures false 0,
        )
        (el_calls-ElShown p law pass.nodes m' (subst (Distinct same_labels) (sym same) distinct))

  check_cl-ClShown :
      (law : PrometricLaws p) (net : Net) (visit : ℕ) (s : AppState) (m : VixyMetrics p)
      → Distinct same_name (map cl_identity s.cl_nodes)
      → let (t, calls) = check_all_cl_nodes net visit s in
        let m' = record_calls p calls m in
        (families m' ≡ families m) × All (ClShown p m') t.cl_nodes
  unfolding check_all_cl_nodes record_calls record_call
  check_cl-ClShown law net visit s m distinct =
      let polled = poll_cl_nodes net visit s.cl_nodes in
      let head = update_cl_chain_head polled in
      let pass = cl_pass head s.max_cl_lag s.health_check_max_failures 0 polled in
      let m' = record_call p (set_cl_chain_head head) m in
      let same : map cl_identity pass.nodes ≡ map cl_identity s.cl_nodes =
        cl_pass-identity polled head s.max_cl_lag s.health_check_max_failures 0
        ∙ poll_cl_nodes-identity net visit s.cl_nodes in
      rw
        (
          record_calls-append p pass.calls (set_cl_healthy_nodes pass.healthy_count ∷ []) m',
          cl_pass-calls polled head s.max_cl_lag s.health_check_max_failures 0,
        )
        (
          cl_calls-families pass.nodes m',
          cl_calls-ClShown p law pass.nodes m' (subst (Distinct same_name) (sym same) distinct),
        )

  -- If no two EL nodes of one tier and no two CL nodes have the same name, then after a cycle the
  -- gauges with a node's labels show its block number or slot, its lag and its health.
  pub run_health_check_cycle-nodes :
      (law : PrometricLaws p) (net : Net) (visit : ℕ) (s : AppState) (m : VixyMetrics p)
      → Distinct same_labels (map identity s.el_nodes)
      → Distinct same_name (map cl_identity s.cl_nodes)
      → let (t, _, calls) = run_health_check_cycle net visit s in
        let m' = record_calls p calls m in
        All (ElShown p m') t.el_nodes × All (ClShown p m') t.cl_nodes
  unfolding run_health_check_cycle check_all_cl_nodes check_all_el_nodes
  run_health_check_cycle-nodes law net visit s m el_distinct cl_distinct =
      let (s₁, b, calls₁) = check_all_el_nodes net visit s in
      let (s₂, calls₂) = check_all_cl_nodes net (visit + length s.el_nodes) s₁ in
      let (_, calls₃) = update_failover_flag s₂ b in
      let m₁ = record_calls p calls₁ m in
      let m₂ = record_calls p calls₂ m₁ in
      let m₃ = record_calls p calls₃ m₂ in
      let el = check_el-ElShown law net visit s m el_distinct in
      let (kept, cl) = check_cl-ClShown law net (visit + length s.el_nodes) s₁ m₁ cl_distinct in
      let (kept_el, kept_cl) = update-families s₂ b m₂ in
      rw
        (
          record_calls-append p (calls₁ ++ calls₂) calls₃ m,
          record_calls-append p calls₁ calls₂ m,
          update_failover_flag-flag s₂ b,
        )
        (keep_el s₁.el_nodes m₁ m₃ (kept_el ∙ kept) el, keep_cl s₂.cl_nodes m₂ m₃ kept_cl cl)
