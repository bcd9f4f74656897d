-- ===== src/Monitor/Refined.antt =====
-- The single steps of monitor.rs make up its cycle.
use vixy.Prelude.{
  ◌+◌, ◌≡◌, sym, ap, ◌∙◌, length, length-map, [], ◌∷◌, false, arith, append_assoc, append-nil,
}
use vixy.State.{AppState}
use vixy.Health.Net.{Net}
use vixy.Monitor.{
  poll_el_nodes, el_pass, run_health_check_cycle, check_all_el_nodes, check_all_cl_nodes,
}
use vixy.Monitor.Pass.{identity, el_pass-identity, poll_el_nodes-identity}
use vixy.Health.El.{update_el_chain_head}
use vixy.Monitor.Phases.{waiting, advance, steps}

-- The checks of the EL nodes keep their number.
length-checked :
    (net : Net) (s : AppState)
    → length (check_all_el_nodes net 0 s).0.el_nodes ≡ 0 + length s.el_nodes
unfolding check_all_el_nodes
length-checked net s =
    let polled = poll_el_nodes net 0 s.el_nodes in
    let head = update_el_chain_head polled in
    let pass = el_pass head s.max_el_lag s.health_check_max_failures false 0 polled in
    let same : length pass.nodes ≡ length s.el_nodes =
      sym (length-map pass.nodes identity)
      ∙ ap length (
          el_pass-identity head s.max_el_lag s.health_check_max_failures polled false 0
          ∙ poll_el_nodes-identity net 0 s.el_nodes)
      ∙ length-map s.el_nodes identity in
    omega arith

-- Seven steps from the start of a cycle, on one network, are `run_health_check_cycle`: they end at
-- the start of the next cycle, in the same state, and have made the same calls in the same order.
steps-cycle :
    (net : Net) (s : AppState)
    → let (t, _, calls) = run_health_check_cycle net 0 s in
      steps (net ∷ net ∷ net ∷ net ∷ net ∷ net ∷ net ∷ []) (record { shared = s; phase = waiting })
      ≡ (record { shared = t; phase = waiting }, calls)
unfolding run_health_check_cycle check_all_el_nodes check_all_cl_nodes steps advance
steps-cycle net s = simp (length-checked net s, append_assoc, append-nil)
