-- ===== src/Monitor/Cycle.antt =====
-- What a health check cycle of monitor.rs leaves behind.
use vixy.Prelude.{
  ℕ, ◌+◌, ◌≡◌, refl, ap, ◌∙◌, ◌↔◌, any, All, Bool, false, not, List, [], ◌∷◌, map, none, arith,
  length, Text,
}
use vixy.State.{ClNodeState, AppState}
use vixy.Selection.{healthy_primary, select_el_node}
use vixy.Selection.Choice.{select_el_node-flag}
use vixy.Health.Net.{Net}
use vixy.Health.El.{update_el_chain_head}
use vixy.Health.Cl.{
  update_cl_chain_head, check_cl_node, check_cl_slot, check_cl_health, health_url, headers_url,
}
use vixy.Monitor.{
  poll_el_nodes, poll_cl_nodes, check_all_el_nodes, check_all_cl_nodes, update_failover_flag,
  run_health_check_cycle, run_health_monitor,
}
use vixy.Monitor.Pass.{
  ElAssessed, ClAssessed, el_pass-Assessed, cl_pass-Assessed, el_pass-any, el_pass-identity,
  identity, poll_el_nodes-identity, cl_identity, cl_pass-identity, poll_cl_nodes-identity,
  update_el_chain_head-ge, update_cl_chain_head-ge,
}

-- The nodes agree with the stored chain heads and thresholds, and the flag with the primaries.
pub record Settled (s : AppState) : Type 0 where
  pub el : All (ElAssessed s.el_chain_head s.max_el_lag s.health_check_max_failures) s.el_nodes
  pub cl : All (ClAssessed s.cl_chain_head s.max_cl_lag s.health_check_max_failures) s.cl_nodes
  pub flag : s.el_failover_active ≡ not (any healthy_primary s.el_nodes)

module _ (net : Net) (visit : ℕ) (s : AppState) where
  check_el-Assessed :
      let (t, _, _) = check_all_el_nodes net visit s in
      All (ElAssessed t.el_chain_head t.max_el_lag t.health_check_max_failures) t.el_nodes
  unfolding check_all_el_nodes
  check_el-Assessed =
      let polled = poll_el_nodes net visit s.el_nodes in
      el_pass-Assessed (update_el_chain_head polled) s.max_el_lag s.health_check_max_failures polled
        false 0 (update_el_chain_head-ge polled (update_el_chain_head polled) (omega arith))

  pub check_el-any :
      let (t, b, _) = check_all_el_nodes net visit s in b ≡ any healthy_primary t.el_nodes
  unfolding check_all_el_nodes
  check_el-any =
      let polled = poll_el_nodes net visit s.el_nodes in
      el_pass-any (update_el_chain_head polled) s.max_el_lag s.health_check_max_failures polled
        false 0

  check_cl-Assessed :
      let (t, _) = check_all_cl_nodes net visit s in
      All (ClAssessed t.cl_chain_head t.max_cl_lag t.health_check_max_failures) t.cl_nodes
  unfolding check_all_cl_nodes
  check_cl-Assessed =
      let polled = poll_cl_nodes net visit s.cl_nodes in
      cl_pass-Assessed (update_cl_chain_head polled) s.max_cl_lag s.health_check_max_failures polled
        0 (update_cl_chain_head-ge polled (update_cl_chain_head polled) (omega arith))

pub update_failover_flag-flag :
    (s : AppState) (b : Bool)
    → (update_failover_flag s b).0 ≡ record s { el_failover_active = not b }
unfolding update_failover_flag
update_failover_flag-flag s b = ground arith

-- After a cycle, from any state: every node's lag is its distance to the stored chain head; a
-- healthy node passed its check or has fewer failures than allowed, an unhealthy one failed its
-- check; and the failover flag is set exactly when no primary is healthy.
pub run_health_check_cycle-Settled :
    (net : Net) (visit : ℕ) (s : AppState) → Settled (run_health_check_cycle net visit s).0
unfolding run_health_check_cycle check_all_cl_nodes
run_health_check_cycle-Settled net visit s =
    let (t, b, _) = check_all_el_nodes net visit s in
    rw (update_failover_flag-flag (check_all_cl_nodes net (visit + length s.el_nodes) t).0 b)
      (record {
        el = check_el-Assessed net visit s;
        cl = check_cl-Assessed net (visit + length s.el_nodes) t;
        flag = ap not (check_el-any net visit s);
      })

pub settle :
    (net : Net) (nets : List Net) (s : AppState) → Settled (run_health_monitor (net ∷ nets) s).0
unfolding run_health_monitor
settle net [] s = run_health_check_cycle-Settled net 0 s
settle net (next ∷ nets) s = settle next nets (run_health_check_cycle net 0 s).0

-- After at least one cycle, an EL request finds no node exactly when all EL nodes are unhealthy,
-- backups included: the flag that the selection reads is never behind the nodes' states.
pub run_health_monitor-serves :
    (net : Net) (nets : List Net) (s : AppState)
    → let t = (run_health_monitor (net ∷ nets) s).0 in
      (select_el_node t.el_nodes t.el_failover_active ≡ none)
      ↔ All (λ n. n.is_healthy ≡ false) t.el_nodes
run_health_monitor-serves net nets s =
    let t = (run_health_monitor (net ∷ nets) s).0 in
    select_el_node-flag t.el_nodes t.el_failover_active (settle net nets s).flag

pub cycle-identity :
    (net : Net) (visit : ℕ) (s : AppState)
    → map identity (run_health_check_cycle net visit s).0.el_nodes ≡ map identity s.el_nodes
unfolding run_health_check_cycle check_all_cl_nodes check_all_el_nodes
cycle-identity net visit s =
    let polled = poll_el_nodes net visit s.el_nodes in
    let (t, b, _) = check_all_el_nodes net visit s in
    rw (update_failover_flag-flag (check_all_cl_nodes net (visit + length s.el_nodes) t).0 b) (
      el_pass-identity (update_el_chain_head polled) s.max_el_lag s.health_check_max_failures polled
        false 0
      ∙ poll_el_nodes-identity net visit s.el_nodes)

pub cycle-cl_identity :
    (net : Net) (visit : ℕ) (s : AppState)
    → map cl_identity (run_health_check_cycle net visit s).0.cl_nodes ≡ map cl_identity s.cl_nodes
unfolding run_health_check_cycle check_all_cl_nodes check_all_el_nodes
cycle-cl_identity net visit s =
    let polled = poll_cl_nodes net (visit + length s.el_nodes) s.cl_nodes in
    let (t, b, _) = check_all_el_nodes net visit s in
    rw (update_failover_flag-flag (check_all_cl_nodes net (visit + length s.el_nodes) t).0 b) (
      cl_pass-identity polled (update_cl_chain_head polled) s.max_cl_lag s.health_check_max_failures
        0
      ∙ poll_cl_nodes-identity net (visit + length s.el_nodes) s.cl_nodes)

-- The monitor neither adds nor drops nor reorders nodes of either layer, nor changes a name, a URL
-- or a tier.
pub run_health_monitor-identity :
    (nets : List Net) (s : AppState)
    → let t = (run_health_monitor nets s).0 in
      (map identity t.el_nodes ≡ map identity s.el_nodes)
      × (map cl_identity t.cl_nodes ≡ map cl_identity s.cl_nodes)
unfolding run_health_monitor
run_health_monitor-identity [] s = (refl, refl)
run_health_monitor-identity (net ∷ nets) s =
    let (el, cl) = run_health_monitor-identity nets (run_health_check_cycle net 0 s).0 in
    (el ∙ cycle-identity net 0 s, cl ∙ cycle-cl_identity net 0 s)

all_zero :
    (net : Net) (visit : ℕ) (ns : List ClNodeState)
    → ((v : ℕ) (url : Text) → net.fetch v url ≡ none)
    → update_cl_chain_head (poll_cl_nodes net visit ns) ≡ 0
unfolding update_cl_chain_head poll_cl_nodes check_cl_node check_cl_slot check_cl_health
all_zero net visit [] dead = refl
all_zero net visit (n ∷ ns) dead = ground (
  arith,
  dead visit (headers_url n.url),
  dead visit (health_url n.url),
  all_zero net (visit + 1) ns dead,
)

-- When no request of a cycle is answered, the stored CL chain head falls to 0, however high it was.
outage-cl_chain_head :
    (net : Net) (visit : ℕ) (s : AppState)
    → ((v : ℕ) (url : Text) → net.fetch v url ≡ none)
    → (check_all_cl_nodes net visit s).0.cl_chain_head ≡ 0
unfolding check_all_cl_nodes
outage-cl_chain_head net visit s dead = all_zero net visit s.cl_nodes dead
