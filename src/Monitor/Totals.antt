-- ===== src/Monitor/Totals.antt =====
-- The gauges of the chain heads and of the numbers of healthy nodes, after a cycle of monitor.rs.
use vixy.Prelude.{ℕ, ◌+◌, ◌≡◌, refl, ap, ◌∙◌, Bool, false, List, [], ◌∷◌, ◌++◌, arith, length}
use vixy.State.{ElNodeState, ClNodeState, AppState}
use vixy.Health.Net.{Net}
use vixy.Metrics.{
  set_el_healthy_nodes, set_cl_healthy_nodes, set_el_chain_head, set_cl_chain_head, Prometric,
  PrometricLaws, VixyMetrics, record_call, record_calls,
}
use vixy.Monitor.{
  el_pass, cl_pass, check_all_el_nodes, check_all_cl_nodes, update_failover_flag,
  run_health_check_cycle, poll_el_nodes, poll_cl_nodes,
}
use vixy.Monitor.Pass.{healthy_total, cl_healthy_total, el_pass-count, cl_pass-count}
use vixy.Monitor.Cycle.{update_failover_flag-flag}
use vixy.Monitor.Gauges.{record_calls-append}
use vixy.Health.El.{update_el_chain_head}
use vixy.Health.Cl.{update_cl_chain_head}

module _ (p : Prometric) where
  open p use {Counter, Gauge, read, gauge_set}

  abbrev pub el_totals : VixyMetrics p → Gauge × Gauge
  el_totals m = (m.el_chain_head, m.el_healthy_nodes)

  abbrev pub cl_totals : VixyMetrics p → Gauge × Gauge
  cl_totals m = (m.cl_chain_head, m.cl_healthy_nodes)

  el_pass-totals :
      (ns : List ElNodeState) (head lag failures : ℕ) (any : Bool) (count : ℕ) (m : VixyMetrics p)
      → el_totals (record_calls p (el_pass head lag failures any count ns).calls m) ≡ el_totals m
  unfolding el_pass record_calls record_call
  el_pass-totals [] head lag failures any count m = refl
  el_pass-totals (n ∷ ns) head lag failures any count m = el_pass-totals ns head lag failures _ _ _

  cl_pass-totals :
      (ns : List ClNodeState) (head lag failures count : ℕ) (m : VixyMetrics p)
      → let m' = record_calls p (cl_pass head lag failures count ns).calls m in
        (el_totals m' ≡ el_totals m) × (cl_totals m' ≡ cl_totals m)
  unfolding cl_pass record_calls record_call
  cl_pass-totals [] head lag failures count m = (refl, refl)
  cl_pass-totals (n ∷ ns) head lag failures count m = cl_pass-totals ns head lag failures _ _

  update-totals :
      (s : AppState) (b : Bool) (m : VixyMetrics p)
      → let m' = record_calls p (update_failover_flag s b).1 m in
        (el_totals m' ≡ el_totals m) × (cl_totals m' ≡ cl_totals m)
  unfolding update_failover_flag record_calls record_call
  update-totals s b m = ground arith

  -- Two gauges show two numbers.
  abbrev pub Show : Gauge × Gauge → ℕ → ℕ → Type 0
  Show g a b = (read g.0 ≡ a) × (read g.1 ≡ b)

  shown_by : (g h : Gauge × Gauge) (a b : ℕ) → g ≡ h → Show h a b → Show g a b
  shown_by g h a b e (x, y) = (ap (λ i. read i.0) e ∙ x, ap (λ i. read i.1) e ∙ y)

  check_el-totals :
      (law : PrometricLaws p) (net : Net) (visit : ℕ) (s : AppState) (m : VixyMetrics p)
      → let (t, _, calls) = check_all_el_nodes net visit s in
        Show (el_totals (record_calls p calls m)) t.el_chain_head (healthy_total t.el_nodes)
  unfolding check_all_el_nodes record_calls record_call
  check_el-totals law net visit s m =
      let polled = poll_el_nodes net visit s.el_nodes in
      let head = update_el_chain_head polled in
      let pass = el_pass head s.max_el_lag s.health_check_max_failures false 0 polled in
      let m' = record_call p (set_el_chain_head head) m in
      let kept = el_pass-totals polled head s.max_el_lag s.health_check_max_failures false 0 m' in
      rw (record_calls-append p pass.calls (set_el_healthy_nodes pass.healthy_count ∷ []) m') (
        ap (λ g. read g.0) kept ∙ law.read-set head m.el_chain_head,
        law.read-set pass.healthy_count _ ∙ el_pass-count _ _ _ polled false 0 ∙ omega arith,
      )

  check_cl-totals :
      (law : PrometricLaws p) (net : Net) (visit : ℕ) (s : AppState) (m : VixyMetrics p)
      → let (t, calls) = check_all_cl_nodes net visit s in
        let m' = record_calls p calls m in
        (el_totals m' ≡ el_totals m)
        × Show (cl_totals m') t.cl_chain_head (cl_healthy_total t.cl_nodes)
  unfolding check_all_cl_nodes record_calls record_call
  check_cl-totals law net visit s m =
      let polled = poll_cl_nodes net visit s.cl_nodes in
      let head = update_cl_chain_head polled in
      let pass = cl_pass head s.max_cl_lag s.health_check_max_failures 0 polled in
      let m' = record_call p (set_cl_chain_head head) m in
      let kept = cl_pass-totals polled head s.max_cl_lag s.health_check_max_failures 0 m' in
      rw (record_calls-append p pass.calls (set_cl_healthy_nodes pass.healthy_count ∷ []) m') (
        kept.0,
        (
          ap (λ g. read g.0) kept.1 ∙ law.read-set head m.cl_chain_head,
          law.read-set pass.healthy_count _ ∙ cl_pass-count _ _ _ polled 0 ∙ omega arith,
        ),
      )

  -- After a cycle, the gauges of each layer show the stored chain head and how many of the nodes
  -- are healthy.
  pub run_health_check_cycle-totals :
      (law : PrometricLaws p) (net : Net) (visit : ℕ) (s : AppState) (m : VixyMetrics p)
      → let (t, _, calls) = run_health_check_cycle net visit s in
        let m' = record_calls p calls m in
        Show (el_totals m') t.el_chain_head (healthy_total t.el_nodes)
        × Show (cl_totals m') t.cl_chain_head (cl_healthy_total t.cl_nodes)
  unfolding run_health_check_cycle check_all_cl_nodes check_all_el_nodes
  run_health_check_cycle-totals law net visit s m =
      let (s₁, b, calls₁) = check_all_el_nodes net visit s in
      let (s₂, calls₂) = check_all_cl_nodes net (visit + length s.el_nodes) s₁ in
      let (_, calls₃) = update_failover_flag s₂ b in
      let m₁ = record_calls p calls₁ m in
      let m₂ = record_calls p calls₂ m₁ in
      let el = check_el-totals law net visit s m in
      let cl = check_cl-totals law net (visit + length s.el_nodes) s₁ m₁ in
      let kept = update-totals s₂ b m₂ in
      rw
        (
          record_calls-append p (calls₁ ++ calls₂) calls₃ m,
          record_calls-append p calls₁ calls₂ m,
          update_failover_flag-flag s₂ b,
        )
        (shown_by _ _ _ _ (kept.0 ∙ cl.0) el, shown_by _ _ _ _ kept.1 cl.1)
