-- ===== src/Monitor/Outage.antt =====
-- What an outage of the primaries does to their states, check after check of monitor.rs.
use vixy.Selection.{healthy_primary}
use vixy.Prelude.{
  any, ℕ, suc, ◌+◌, ◌≤◌, ◌<◌, max, ◌≡◌, ◌⊎◌, inl, inr, refl, sym, ap, ◌∙◌, All, Bool, true, false,
  List, [], ◌∷◌, map, length, arith, Result, ok, err, Result-cases, Bool-cases,
}
use mathlib.Core.Path.{subst}
use vixy.State.{ElNodeState, AppState}
use vixy.Health.Net.{Net}
use vixy.Health.El.{u32_mod, check_el_node, update_el_chain_head, calculate_el_health}
use vixy.Monitor.{
  el_pass, poll_el, poll_el_nodes, check_all_el_nodes, check_all_cl_nodes, run_health_check_cycle,
  run_health_monitor,
}
use vixy.Monitor.Pass.{Identity, identity, ElAssessed}
use vixy.Monitor.Cycle.{settle, cycle-identity, update_failover_flag-flag}

abbrev pub failed {ℓ κ} : {E : Type κ} {A : Type ℓ} → Result E A → Bool
failed (ok a) = false
failed (err e) = true

-- The primaries among these nodes fail their checks, in whatever way and whenever they are visited.
abbrev pub PrimariesFail : List Identity → Net → Type 0
PrimariesFail nodes net =
    All
      (λ i. i.is_primary ≡ true → (visit : ℕ) → failed (check_el_node net visit i.http_url) ≡ true)
      nodes

-- The smallest number of failed checks in a row that takes a node out of service.
abbrev pub allowance : ℕ → ℕ
allowance max_failures = max max_failures 1

-- A primary after `k` failed checks in a row, where `m` failures are too many.
abbrev pub FadingAt : ℕ → ℕ → ElNodeState → Type 0
FadingAt m k n =
    n.is_primary ≡ true
    → (n.is_healthy ≡ false)
      ⊎ ((k ≤ n.consecutive_failures) × (n.consecutive_failures < allowance m))

module _ (m : ℕ) (small : m < u32_mod) where
  abbrev Fading : ℕ → ElNodeState → Type 0
  Fading = FadingAt m

  calculate_el_health-Fading :
      (n : ElNodeState) (head l k : ℕ)
      → (n.is_primary ≡ true → n.check_ok ≡ false)
      → Fading k n
      → Fading (suc k) (calculate_el_health n head l m)
  unfolding calculate_el_health
  calculate_el_health-Fading n head l k f h = elim (Bool-cases n.is_primary) [
    | inl primary ↦ λ _. ground (arith, f primary, h primary)
    | inr backup ↦ λ p. absurd (ground (arith, backup, p))
  ]

  el_pass-Fading :
      (ns : List ElNodeState) (head l k : ℕ) (a : Bool) (c : ℕ)
      → All (λ n. n.is_primary ≡ true → n.check_ok ≡ false) ns
      → All (Fading k) ns
      → All (Fading (suc k)) (el_pass head l m a c ns).nodes
  unfolding el_pass
  el_pass-Fading [] head l k a c f h = tt
  el_pass-Fading (n ∷ ns) head l k a c f h =
      (calculate_el_health-Fading n head l k f.0 h.0, el_pass-Fading ns head l k _ _ f.1 h.1)

  poll_el-Fading :
      (net : Net) (visit k : ℕ) (n : ElNodeState)
      → (n.is_primary ≡ true → (v : ℕ) → failed (check_el_node net v n.http_url) ≡ true)
      → Fading k n
      → ((poll_el net visit n).is_primary ≡ true → (poll_el net visit n).check_ok ≡ false)
        × Fading k (poll_el net visit n)
  unfolding poll_el
  poll_el-Fading net visit k n f h = elim (Result-cases (check_el_node net visit n.http_url)) [
    | inl (b, e) ↦ rw (e, poll_el) (λ p. absurd (cc (f p visit, ap failed e)), h)
    | inr (x, e) ↦ rw (e, poll_el) (λ p. refl, h)
  ]

  poll_el_nodes-Fading :
      (net : Net) (visit k : ℕ) (ns : List ElNodeState)
      → PrimariesFail (map identity ns) net
      → All (Fading k) ns
      → All (λ n. n.is_primary ≡ true → n.check_ok ≡ false) (poll_el_nodes net visit ns)
        × All (Fading k) (poll_el_nodes net visit ns)
  unfolding poll_el_nodes
  poll_el_nodes-Fading net visit k [] f h = (tt, tt)
  poll_el_nodes-Fading net visit k (n ∷ ns) f h =
      let (now, here) = poll_el-Fading net visit k n f.0 h.0 in
      let (later, there) = poll_el_nodes-Fading net (visit + 1) k ns f.1 h.1 in
      ((now, later), (here, there))

cycle-Fading :
    (net : Net) (k : ℕ) (s : AppState)
    → s.health_check_max_failures < u32_mod
    → PrimariesFail (map identity s.el_nodes) net
    → All (FadingAt s.health_check_max_failures k) s.el_nodes
    → All (FadingAt s.health_check_max_failures (suc k)) (run_health_check_cycle net 0 s).0.el_nodes
unfolding run_health_check_cycle check_all_cl_nodes check_all_el_nodes
cycle-Fading net k s small f h =
    let m = s.health_check_max_failures in
    let polled = poll_el_nodes net 0 s.el_nodes in
    let (t, b, _) = check_all_el_nodes net 0 s in
    let (answers, before) = poll_el_nodes-Fading m small net 0 k s.el_nodes f h in
    rw (update_failover_flag-flag (check_all_cl_nodes net (0 + length s.el_nodes) t).0 b) (
      el_pass-Fading m small polled (update_el_chain_head polled) s.max_el_lag k false 0 answers
        before)

cycle-max_failures :
    (net : Net) (s : AppState)
    → (run_health_check_cycle net 0 s).0.health_check_max_failures ≡ s.health_check_max_failures
unfolding run_health_check_cycle check_all_cl_nodes check_all_el_nodes
cycle-max_failures net s =
    let (t, b, _) = check_all_el_nodes net 0 s in
    rw (update_failover_flag-flag (check_all_cl_nodes net (0 + length s.el_nodes) t).0 b)

run_health_monitor-Fading :
    (m k : ℕ) (nets : List Net) (s : AppState)
    → s.health_check_max_failures ≡ m
    → m < u32_mod
    → All (PrimariesFail (map identity s.el_nodes)) nets
    → All (FadingAt m k) s.el_nodes
    → All (FadingAt m (length nets + k)) (run_health_monitor nets s).0.el_nodes
unfolding run_health_monitor
run_health_monitor-Fading m k [] s same small f h =
    subst (λ i. All (FadingAt m i) s.el_nodes) (omega arith) h
run_health_monitor-Fading m k (net ∷ nets) s same small f h =
    let next = (run_health_check_cycle net 0 s).0 in
    let faded : All (FadingAt m (suc k)) next.el_nodes =
      subst (λ i. All (FadingAt i (suc k)) next.el_nodes) same
        (cycle-Fading net k s (rw same small) f.0
          (subst (λ i. All (FadingAt i k) s.el_nodes) (sym same) h)) in
    subst (λ i. All (FadingAt m i) (run_health_monitor nets next).0.el_nodes) (omega arith)
      (run_health_monitor-Fading m (suc k) nets next (cycle-max_failures net s ∙ same) small
        (rw (cycle-identity net 0 s) f.1) faded)

module _ (m : ℕ) where
  n-Fading : (head l : ℕ) (n : ElNodeState) → ElAssessed head l m n → FadingAt m 0 n
  n-Fading head l n now = elim (Bool-cases n.is_healthy) [
    | inl up ↦ λ _. inr (ground (arith, now.in_service up))
    | inr out ↦ λ _. inl out
  ]

  Assessed-Fading :
      (head l : ℕ) (ns : List ElNodeState) → All (ElAssessed head l m) ns → All (FadingAt m 0) ns
  Assessed-Fading head l [] h = tt
  Assessed-Fading head l (n ∷ ns) (now, later) =
      (n-Fading head l n now, Assessed-Fading head l ns later)

  faded_out :
      (k : ℕ) (ns : List ElNodeState)
      → allowance m ≤ k
      → All (FadingAt m k) ns
      → any healthy_primary ns ≡ false
  faded_out k [] long h = refl
  faded_out k (n ∷ ns) long (now, later) = elim (Bool-cases n.is_primary) [
    | inl primary ↦ ground (arith, now primary, faded_out k ns long later)
    | inr backup ↦ ground (arith, faded_out k ns long later)
  ]

-- After at least one cycle, from any state, an outage of the primaries that lasts for as many cycles
-- as failures are allowed, and for one at least, leaves no primary healthy.
pub outage-any :
    (net : Net) (before nets : List Net) (s₀ : AppState)
    → let s = (run_health_monitor (net ∷ before) s₀).0 in
      s.health_check_max_failures < u32_mod
      → allowance s.health_check_max_failures ≤ length nets
      → All (PrimariesFail (map identity s.el_nodes)) nets
      → any healthy_primary (run_health_monitor nets s).0.el_nodes ≡ false
outage-any net before nets s₀ small long fail =
    let s = (run_health_monitor (net ∷ before) s₀).0 in
    let m = s.health_check_max_failures in
    faded_out m (length nets + 0) (run_health_monitor nets s).0.el_nodes (omega arith) (
      run_health_monitor-Fading m 0 nets s refl small fail
        (Assessed-Fading m s.el_chain_head s.max_el_lag s.el_nodes (settle net before s₀).el))
