-- ===== src/Monitor/Gauges.antt =====
-- The gauges and the counter that the health check cycles of monitor.rs set.
use vixy.Prelude.{
  ℕ, ◌+◌, ◌≡◌, refl, ap, ◌∙◌, Bool, false, not, ◌&&◌, List, [], ◌∷◌, ◌++◌, arith, length,
}
use vixy.State.{ElNodeState, ClNodeState, AppState}
use vixy.Health.Net.{Net}
use vixy.Metrics.{
  MetricCall, set_el_healthy_nodes, set_cl_healthy_nodes, set_el_chain_head, set_cl_chain_head,
  Prometric, PrometricLaws, VixyMetrics, record_call, record_calls, bit,
}
use vixy.Monitor.{
  el_pass, cl_pass, check_all_el_nodes, check_all_cl_nodes, update_failover_flag,
  run_health_check_cycle, run_health_monitor, poll_el_nodes, poll_cl_nodes,
}
use vixy.Health.El.{update_el_chain_head}
use vixy.Health.Cl.{update_cl_chain_head}

-- One failover if the flag rises.
abbrev pub rises : Bool → Bool → ℕ
rises was is = bit (not was && is)

-- The cycles at whose end the flag is set and before which it was not.
abbrev pub failovers : List Net → AppState → ℕ
failovers [] s = 0
failovers (net ∷ nets) s =
    let t = (run_health_check_cycle net 0 s).0 in
    rises s.el_failover_active t.el_failover_active + failovers nets t

module _ (p : Prometric) where
  open p use {Counter, Gauge, read, count}

  pub record_calls-append :
      (a b : List MetricCall) (m : VixyMetrics p)
      → record_calls p (a ++ b) m ≡ record_calls p b (record_calls p a m)
  unfolding record_calls
  record_calls-append [] b m = refl
  record_calls-append (c ∷ a) b m = record_calls-append a b (record_call p c m)

  -- The failover gauge and the failover counter.
  abbrev pub failover : VixyMetrics p → p.Gauge × p.Counter
  failover m = (m.el_failover_active, m.el_failovers)

  el_pass-failover :
      (ns : List ElNodeState) (head lag failures : ℕ) (any : Bool) (count : ℕ) (m : VixyMetrics p)
      → failover (record_calls p (el_pass head lag failures any count ns).calls m) ≡ failover m
  unfolding el_pass record_calls record_call
  el_pass-failover [] head lag failures any count m = refl
  el_pass-failover (n ∷ ns) head lag failures any count m =
      el_pass-failover ns head lag failures _ _ _

  cl_pass-failover :
      (ns : List ClNodeState) (head lag failures count : ℕ) (m : VixyMetrics p)
      → failover (record_calls p (cl_pass head lag failures count ns).calls m) ≡ failover m
  unfolding cl_pass record_calls record_call
  cl_pass-failover [] head lag failures count m = refl
  cl_pass-failover (n ∷ ns) head lag failures count m = cl_pass-failover ns head lag failures _ _

  check_el-failover :
      (net : Net) (visit : ℕ) (s : AppState) (m : VixyMetrics p)
      → failover (record_calls p (check_all_el_nodes net visit s).2 m) ≡ failover m
  unfolding check_all_el_nodes record_calls record_call
  check_el-failover net visit s m =
      let polled = poll_el_nodes net visit s.el_nodes in
      let head = update_el_chain_head polled in
      let pass = el_pass head s.max_el_lag s.health_check_max_failures false 0 polled in
      ap failover (record_calls-append pass.calls (set_el_healthy_nodes pass.healthy_count ∷ []) _)
      ∙ el_pass-failover polled _ _ _ _ _ (record_call p (set_el_chain_head head) m)

  check_cl-failover :
      (net : Net) (visit : ℕ) (s : AppState) (m : VixyMetrics p)
      → failover (record_calls p (check_all_cl_nodes net visit s).1 m) ≡ failover m
  unfolding check_all_cl_nodes record_calls record_call
  check_cl-failover net visit s m =
      let polled = poll_cl_nodes net visit s.cl_nodes in
      let head = update_cl_chain_head polled in
      let pass = cl_pass head s.max_cl_lag s.health_check_max_failures 0 polled in
      ap failover (record_calls-append pass.calls (set_cl_healthy_nodes pass.healthy_count ∷ []) _)
      ∙ cl_pass-failover polled _ _ _ _ (record_call p (set_cl_chain_head head) m)

  -- The gauge shows the flag, and `n` failovers are counted.
  abbrev pub Shows : AppState → ℕ → Gauge × Counter → Type 0
  Shows s n (gauge, counter) = (read gauge ≡ bit s.el_failover_active) × (count counter ≡ n)

  update-Shows :
      (law : PrometricLaws p) (s : AppState) (b : Bool) (n : ℕ) (m : VixyMetrics p)
      → Shows s n (failover m)
      → let (t, calls) = update_failover_flag s b in
        Shows t
          (n + rises s.el_failover_active t.el_failover_active)
          (failover (record_calls p calls m))
  unfolding update_failover_flag record_calls record_call
  update-Shows law s b n m (shown, counted) = ground (
    arith,
    law.read-set 0 m.el_failover_active,
    law.read-set 1 m.el_failover_active,
    law.count-inc m.el_failovers,
    shown,
    counted,
  )

  cycle-Shows :
      (law : PrometricLaws p) (net : Net) (visit : ℕ) (s : AppState) (n : ℕ) (m : VixyMetrics p)
      → Shows s n (failover m)
      → let (t, _, calls) = run_health_check_cycle net visit s in
        Shows t
          (n + rises s.el_failover_active t.el_failover_active)
          (failover (record_calls p calls m))
  unfolding run_health_check_cycle check_all_cl_nodes check_all_el_nodes
  cycle-Shows law net visit s n m shows =
      let (s₁, b, calls₁) = check_all_el_nodes net visit s in
      let (s₂, calls₂) = check_all_cl_nodes net (visit + length s.el_nodes) s₁ in
      let m₁ = record_calls p calls₁ m in
      let m₂ = record_calls p calls₂ m₁ in
      let unchanged : failover m₂ ≡ failover m =
        check_cl-failover net (visit + length s.el_nodes) s₁ m₁ ∙ check_el-failover net visit s m in
      let (_, calls₃) = update_failover_flag s₂ b in
      let shows₂ : Shows s₂ n (failover m₂) =
        (ap (λ f. read f.0) unchanged ∙ shows.0, ap (λ f. count f.1) unchanged ∙ shows.1) in
      rw (record_calls-append (calls₁ ++ calls₂) calls₃ m, record_calls-append calls₁ calls₂ m)
        (update-Shows law s₂ b n m₂ shows₂)

  -- Where the failover gauge shows the flag, it shows it after any number of cycles, and the
  -- failover counter has grown by the number of cycles that set the flag when it was not set.
  pub run_health_monitor-Shows :
      (law : PrometricLaws p) (nets : List Net) (s : AppState) (n : ℕ) (m : VixyMetrics p)
      → Shows s n (failover m)
      → let (t, calls) = run_health_monitor nets s in
        Shows t (n + failovers nets s) (failover (record_calls p calls m))
  unfolding run_health_monitor record_calls
  run_health_monitor-Shows law [] s n m shows = (shows.0, shows.1 ∙ omega arith)
  run_health_monitor-Shows law (net ∷ nets) s n m shows =
      let (t, _, calls) = run_health_check_cycle net 0 s in
      let (final, later) = run_health_monitor nets t in
      let first = cycle-Shows law net 0 s n m shows in
      let rest = run_health_monitor-Shows law nets t _ (record_calls p calls m) first in
      rw (record_calls-append calls later m) (rest.0, rest.1 ∙ omega arith)
