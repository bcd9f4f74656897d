-- ===== src/Tests/Cycles.antt =====
-- The theorems on health check cycles and their metrics, at concrete inputs.
use vixy.Prelude.{ℕ, ◌+◌, ◌-◌, refl, List, [], ◌∷◌, All, text_eq, arith}
use vixy.State
use vixy.State.{AppState, new, el_from_config, cl_from_config}
use vixy.Metrics.{Prometric, PrometricLaws, VixyMetrics, record_calls}
use vixy.Monitor.{run_health_check_cycle, run_health_monitor}
use vixy.Monitor.Cycle.{Settled, run_health_check_cycle-Settled}
use vixy.Monitor.Gauges.{Shows, failover, failovers, run_health_monitor-Shows}
use vixy.Monitor.Series.{ElShown, ClShown}
use vixy.Monitor.Nodes.{run_health_check_cycle-nodes}
use vixy.Tests.Sample.{initial, up, backup_only}

run_health_check_cycle-Settled_example : Settled (run_health_check_cycle backup_only 0 initial).0
run_health_check_cycle-Settled_example = run_health_check_cycle-Settled backup_only 0 initial

-- Counters and gauges as numbers.
abbrev pub numbers : Prometric
numbers = record {
  Counter = ℕ;
  Gauge = ℕ;
  Histogram = List ℕ;
  inc = λ c. c + 1;
  gauge_inc = λ g. g + 1;
  gauge_dec = λ g. g - 1;
  gauge_set = λ n g. n;
  observe = λ n h. n ∷ h;
  read = λ g. g;
  count = λ c. c;
}

pub numbers_laws : PrometricLaws numbers
numbers_laws = record { read-set = λ n g. refl; dec-inc = λ g. omega arith; count-inc = λ c. refl }

abbrev pub fresh : VixyMetrics numbers
fresh = record {
  el_requests = λ n t. 0;
  el_request_duration = λ n t. [];
  el_block_number = λ n t. 0;
  el_lag = λ n t. 0;
  el_healthy = λ n t. 0;
  el_failover_active = 0;
  el_failovers = 0;
  el_chain_head = 0;
  el_healthy_nodes = 0;
  cl_requests = λ n. 0;
  cl_request_duration = λ n. [];
  cl_slot = λ n. 0;
  cl_lag = λ n. 0;
  cl_healthy = λ n. 0;
  cl_chain_head = 0;
  cl_healthy_nodes = 0;
  ws_connections = 0;
  ws_connections_total = 0;
  ws_messages = λ d. 0;
  ws_reconnections = 0;
  ws_reconnection_attempts = λ s. 0;
  ws_subscriptions = 0;
  ws_subscriptions_total = 0;
  ws_upstream_node = λ n. 0;
}

run_health_monitor-Shows_example :
    let (t, calls) = run_health_monitor (up ∷ backup_only ∷ []) initial in
    Shows numbers t
      (0 + failovers (up ∷ backup_only ∷ []) initial)
      (failover numbers (record_calls numbers calls fresh))
unfolding State.new
run_health_monitor-Shows_example =
    run_health_monitor-Shows numbers numbers_laws (up ∷ backup_only ∷ []) initial 0 fresh
      (refl, refl)

run_health_check_cycle-nodes_example :
    let (t, _, calls) = run_health_check_cycle backup_only 0 initial in
    let m = record_calls numbers calls fresh in
    All (ElShown numbers m) t.el_nodes × All (ClShown numbers m) t.cl_nodes
unfolding new el_from_config cl_from_config text_eq
run_health_check_cycle-nodes_example =
    run_health_check_cycle-nodes numbers numbers_laws backup_only 0 initial fresh
      ((refl, tt), (tt, tt)) (tt, tt)
