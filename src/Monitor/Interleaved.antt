-- ===== src/Monitor/Interleaved.antt =====
-- What other tasks can find in the shared state between two steps of the monitor of monitor.rs.
use vixy.Prelude.{
  ℕ, ◌+◌, ◌≡◌, ◌⊎◌, inl, inr, refl, sym, ap, ◌∙◌, any, All, Bool, true, false, not, List, [], ◌∷◌,
  map, arith,
}
use vixy.State.{ElNodeState, AppState}
use vixy.Selection.{healthy_primary}
use vixy.Health.Net.{Net}
use vixy.Monitor.{poll_el, poll_el_nodes}
use vixy.Monitor.Pass.{
  identity, cl_identity, el_pass-identity, poll_el_nodes-identity, el_pass-any, cl_pass-identity,
  poll_cl_nodes-identity,
}
use vixy.Monitor.Cycle.{update_failover_flag-flag}
use vixy.Monitor.Phases.{
  Phase, waiting, el_polled, el_head_stored, el_assessed, cl_polled, cl_head_stored, cl_assessed,
  World, monitor, Reach, here, next, advance,
}

-- The EL checks of the running cycle are done, and the flag is not updated yet.
abbrev pub in_window : Phase → Bool
in_window waiting = false
in_window el_polled = false
in_window (el_head_stored head) = false
in_window _ = true

abbrev pub AllUnhealthy : List ElNodeState → Type 0
AllUnhealthy ns = All (λ n. n.is_healthy ≡ false) ns

-- The flag is set exactly when no primary is healthy, or nothing was found healthy so far; in the
-- window, the monitor knows whether a primary is.
abbrev pub FlagAgrees : Phase → AppState → Type 0
FlagAgrees (el_assessed b) s = any healthy_primary s.el_nodes ≡ b
FlagAgrees (cl_polled b) s = any healthy_primary s.el_nodes ≡ b
FlagAgrees (cl_head_stored head b) s = any healthy_primary s.el_nodes ≡ b
FlagAgrees (cl_assessed b) s = any healthy_primary s.el_nodes ≡ b
FlagAgrees _ s =
    (s.el_failover_active ≡ not (any healthy_primary s.el_nodes))
    ⊎ ((s.el_failover_active ≡ false) × AllUnhealthy s.el_nodes)

poll_el-health :
    (net : Net) (v : ℕ) (n : ElNodeState)
    → ((poll_el net v n).is_healthy ≡ n.is_healthy) × ((poll_el net v n).is_primary ≡ n.is_primary)
unfolding poll_el
poll_el-health net v n = ground arith

poll_el_nodes-any :
    (net : Net) (v : ℕ) (ns : List ElNodeState)
    → any healthy_primary (poll_el_nodes net v ns) ≡ any healthy_primary ns
unfolding poll_el_nodes
poll_el_nodes-any net v [] = refl
poll_el_nodes-any net v (n ∷ ns) =
    ground (arith, poll_el-health net v n, poll_el_nodes-any net (v + 1) ns)

poll_el_nodes-AllUnhealthy :
    (net : Net) (v : ℕ) (ns : List ElNodeState)
    → AllUnhealthy ns
    → AllUnhealthy (poll_el_nodes net v ns)
unfolding poll_el_nodes
poll_el_nodes-AllUnhealthy net v [] h = tt
poll_el_nodes-AllUnhealthy net v (n ∷ ns) h =
    ((poll_el-health net v n).0 ∙ h.0, poll_el_nodes-AllUnhealthy net (v + 1) ns h.1)

advance-FlagAgrees :
    (net : Net) (p : Phase) (s : AppState)
    → FlagAgrees p s
    → let (t, q, _) = advance net p s in FlagAgrees q t
unfolding advance
advance-FlagAgrees net waiting s (inl h) =
    inl (h ∙ ap not (sym (poll_el_nodes-any net 0 s.el_nodes)))
advance-FlagAgrees net waiting s (inr (off, h)) =
    inr (off, poll_el_nodes-AllUnhealthy net 0 s.el_nodes h)
advance-FlagAgrees net el_polled s h = h
advance-FlagAgrees net (el_head_stored head) s h =
    sym (el_pass-any head s.max_el_lag s.health_check_max_failures s.el_nodes false 0)
advance-FlagAgrees net (el_assessed b) s h = h
advance-FlagAgrees net (cl_polled b) s h = h
advance-FlagAgrees net (cl_head_stored head b) s h = h
advance-FlagAgrees net (cl_assessed b) s h =
    rw (update_failover_flag-flag s b) (inl (ap not (sym h)))

pub Reach-FlagAgrees :
    {start : AppState} {w : World}
    → FlagAgrees waiting start
    → Reach start w
    → FlagAgrees w.phase w.shared
Reach-FlagAgrees h here = h
Reach-FlagAgrees h (next {w} r (monitor net)) =
    advance-FlagAgrees net w.phase w.shared (Reach-FlagAgrees h r)

-- The names, URLs and tiers that are there from the start.
abbrev pub SameNodes : AppState → AppState → Type 0
SameNodes s t =
    (map identity t.el_nodes ≡ map identity s.el_nodes)
    × (map cl_identity t.cl_nodes ≡ map cl_identity s.cl_nodes)

advance-SameNodes : (net : Net) (p : Phase) (s : AppState) → SameNodes s (advance net p s).0
unfolding advance
advance-SameNodes net waiting s = (poll_el_nodes-identity net 0 s.el_nodes, refl)
advance-SameNodes net el_polled s = (refl, refl)
advance-SameNodes net (el_head_stored head) s =
    (el_pass-identity head s.max_el_lag s.health_check_max_failures s.el_nodes false 0, refl)
advance-SameNodes net (el_assessed b) s = (refl, poll_cl_nodes-identity net _ s.cl_nodes)
advance-SameNodes net (cl_polled b) s = (refl, refl)
advance-SameNodes net (cl_head_stored head b) s =
    (refl, cl_pass-identity s.cl_nodes head s.max_cl_lag s.health_check_max_failures 0)
advance-SameNodes net (cl_assessed b) s = rw (update_failover_flag-flag s b) (refl, refl)

pub Reach-SameNodes : {start : AppState} {w : World} → Reach start w → SameNodes start w.shared
Reach-SameNodes here = (refl, refl)
Reach-SameNodes (next {w} r (monitor net)) =
    let (el, cl) = Reach-SameNodes r in
    let (el', cl') = advance-SameNodes net w.phase w.shared in (el' ∙ el, cl' ∙ cl)
