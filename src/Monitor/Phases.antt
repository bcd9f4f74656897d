-- ===== src/Monitor/Phases.antt =====
-- monitor.rs, a health check cycle in single steps: what the monitor does under one hold of a lock
-- or in one store to an atomic. Between two steps any other task may read the shared state.
use vixy.Prelude.{ℕ, length, Bool, false, List, [], ◌∷◌, ◌++◌}
use vixy.State.{AppState}
use vixy.Health.Net.{Net}
use vixy.Health.El.{update_el_chain_head}
use vixy.Health.Cl.{update_cl_chain_head}
use vixy.Metrics.{
  MetricCall, set_el_chain_head, set_el_healthy_nodes, set_cl_chain_head, set_cl_healthy_nodes,
}
use vixy.Monitor.{poll_el_nodes, el_pass, poll_cl_nodes, cl_pass, update_failover_flag}

-- Where the monitor stands, with its variables that are live there: the chain head of the layer in
-- work, and whether a primary is healthy.
pub data Phase : Type 0 where
  waiting : Phase
  el_polled : Phase
  el_head_stored : ℕ → Phase
  el_assessed : Bool → Phase
  cl_polled : Bool → Phase
  cl_head_stored : ℕ → Bool → Phase
  cl_assessed : Bool → Phase

-- One step, with the calls of the metrics helpers in it. A poll asks the nodes under the write lock
-- of its layer; `net` answers.
unfoldable pub advance : Net → Phase → AppState → AppState × Phase × List MetricCall
advance net waiting s = (record s { el_nodes = poll_el_nodes net 0 s.el_nodes }, el_polled, [])
advance net el_polled s =
    let head = update_el_chain_head s.el_nodes in
    (record s { el_chain_head = head }, el_head_stored head, set_el_chain_head head ∷ [])
advance net (el_head_stored head) s =
    let pass = el_pass head s.max_el_lag s.health_check_max_failures false 0 s.el_nodes in
    (
      record s { el_nodes = pass.nodes },
      el_assessed pass.any_primary_healthy,
      pass.calls ++ set_el_healthy_nodes pass.healthy_count ∷ [],
    )
advance net (el_assessed b) s =
    (record s { cl_nodes = poll_cl_nodes net (length s.el_nodes) s.cl_nodes }, cl_polled b, [])
advance net (cl_polled b) s =
    let head = update_cl_chain_head s.cl_nodes in
    (record s { cl_chain_head = head }, cl_head_stored head b, set_cl_chain_head head ∷ [])
advance net (cl_head_stored head b) s =
    let pass = cl_pass head s.max_cl_lag s.health_check_max_failures 0 s.cl_nodes in
    (
      record s { cl_nodes = pass.nodes },
      cl_assessed b,
      pass.calls ++ set_cl_healthy_nodes pass.healthy_count ∷ [],
    )
advance net (cl_assessed b) s = let (t, calls) = update_failover_flag s b in (t, waiting, calls)

-- The shared state, and where the monitor stands.
pub record World : Type 0 where
  pub shared : AppState
  pub phase : Phase

abbrev pub moved : Net → World → World
moved net w = let (s, p, _) = advance net w.phase w.shared in record { shared = s; phase = p }

-- Every step may find the network in another condition.
pub data Step (w : World) : World → Type 0 where
  monitor : (net : Net) → Step w (moved net w)

-- What can be the case after `start` is shared, whatever the network does.
pub data Reach (start : AppState) : World → Type 0 where
  here : Reach start (record { shared = start; phase = waiting })
  next : {w u : World} → Reach start w → Step w u → Reach start u

-- As many steps as `nets` has entries, with all their calls.
unfoldable pub steps : List Net → World → World × List MetricCall
steps [] w = (w, [])
steps (net ∷ nets) w =
    let (_, _, calls) = advance net w.phase w.shared in
    let (final, later) = steps nets (moved net w) in (final, calls ++ later)
