-- ===== src/Monitor/Bounds.antt =====
-- Machine integers and failure counters of the node states in monitor.rs, at every point of a cycle.
use vixy.Prelude.{
  ℕ, ◌+◌, ◌<◌, ◌≡◌, ◌⊎◌, inl, inr, refl, All, All-append, All-map, map, Bool, true, false, List, [],
  ◌∷◌, arith, Result-cases,
}
use vixy.Config.{Config}
use vixy.State.{ElNodeState, ClNodeState, AppState, new, el_from_config, cl_from_config}
use vixy.Health.Number.{u64_mod}
use vixy.Health.Net.{Net}
use vixy.Health.El.{check_el_node, calculate_el_health, update_el_chain_head, u32_mod}
use vixy.Health.Hex.{check_el_node_iff}
use vixy.Health.Cl.{calculate_cl_health, update_cl_chain_head, check_cl_node}
use vixy.Health.Beacon.{check_cl_node-HeadSlot}
use vixy.Monitor.{poll_el, poll_el_nodes, el_pass, poll_cl, poll_cl_nodes, cl_pass}
use vixy.Monitor.Cycle.{update_failover_flag-flag}
use vixy.Monitor.Phases.{
  Phase, waiting, el_polled, el_head_stored, el_assessed, cl_polled, cl_head_stored, cl_assessed,
  World, monitor, Reach, here, next, advance,
}

-- The fields fit their machine integers, `height` and `lag` in 64 bits and the counter in 32; and a
-- node in service has no failure since its last passed check, or fewer than `m`.
pub record Sound (m : ℕ) (healthy : Bool) (height lag failures : ℕ) : Type 0 where
  pub height_fits : height < u64_mod
  pub lag_fits : lag < u64_mod
  pub failures_fit : failures < u32_mod
  pub counted : healthy ≡ true → (failures ≡ 0) ⊎ (failures < m)

at_height :
    {m : ℕ} {healthy : Bool} {height height' lag failures : ℕ}
    → height' < u64_mod
    → Sound m healthy height lag failures
    → Sound m healthy height' lag failures
at_height fits h = record {
  height_fits = fits;
  lag_fits = h.lag_fits;
  failures_fit = h.failures_fit;
  counted = h.counted;
}

abbrev pub ElSound : ℕ → ElNodeState → Type 0
ElSound m n = Sound m n.is_healthy n.block_number n.lag n.consecutive_failures

abbrev pub ClSound : ℕ → ClNodeState → Type 0
ClSound m n = Sound m n.is_healthy n.slot n.lag n.consecutive_failures

-- The chain head that the monitor holds in a variable fits too.
abbrev HeadFits : Phase → Type 0
HeadFits (el_head_stored head) = head < u64_mod
HeadFits (cl_head_stored head b) = head < u64_mod
HeadFits _ = Unit

pub record InRange (s : AppState) : Type 0 where
  pub el : All (ElSound s.health_check_max_failures) s.el_nodes
  pub cl : All (ClSound s.health_check_max_failures) s.cl_nodes
  pub el_head : s.el_chain_head < u64_mod
  pub cl_head : s.cl_chain_head < u64_mod

poll_el-ElSound :
    (net : Net) (v m : ℕ) (n : ElNodeState) → ElSound m n → ElSound m (poll_el net v n)
unfolding poll_el
poll_el-ElSound net v m n h = elim (Result-cases (check_el_node net v n.http_url)) [
  | inl (b, e) ↦
      let fits : b < u64_mod = ((check_el_node_iff net v n.http_url b).0 e).number.fits in
      rw (e, poll_el) (at_height fits h)
  | inr (e, f) ↦ rw (f, poll_el) h
]

poll_el_nodes-ElSound :
    (net : Net) (v m : ℕ) (ns : List ElNodeState)
    → All (ElSound m) ns
    → All (ElSound m) (poll_el_nodes net v ns)
unfolding poll_el_nodes
poll_el_nodes-ElSound net v m [] h = tt
poll_el_nodes-ElSound net v m (n ∷ ns) h =
    (poll_el-ElSound net v m n h.0, poll_el_nodes-ElSound net (v + 1) m ns h.1)

calculate_el_health-ElSound :
    (head l m : ℕ) (n : ElNodeState)
    → head < u64_mod
    → ElSound m n
    → ElSound m (calculate_el_health n head l m)
unfolding calculate_el_health
calculate_el_health-ElSound head l m n fits h = record {
  height_fits = ground (arith, h.height_fits);
  lag_fits = ground (arith, h.height_fits);
  failures_fit = ground arith;
  counted = λ healthy. ground (arith, h.counted);
}

head-lt : (m : ℕ) (ns : List ElNodeState) → All (ElSound m) ns → update_el_chain_head ns < u64_mod
unfolding update_el_chain_head
head-lt m [] h = omega arith
head-lt m (n ∷ ns) h = omega (arith, head-lt m ns h.1, h.0.height_fits)

el_pass-ElSound :
    (ns : List ElNodeState) (head l m : ℕ) (a : Bool) (c : ℕ)
    → head < u64_mod
    → All (ElSound m) ns
    → All (ElSound m) (el_pass head l m a c ns).nodes
unfolding el_pass
el_pass-ElSound [] head l m a c fits h = tt
el_pass-ElSound (n ∷ ns) head l m a c fits h =
    (calculate_el_health-ElSound head l m n fits h.0, el_pass-ElSound ns head l m _ _ fits h.1)

poll_cl-ClSound :
    (net : Net) (v m : ℕ) (n : ClNodeState) → ClSound m n → ClSound m (poll_cl net v n)
unfolding poll_cl
poll_cl-ClSound net v m n h = elim (Result-cases (check_cl_node net v n.url)) [
  | inl ((b, slot), e) ↦
      let fits : slot < u64_mod = (check_cl_node-HeadSlot net v n.url b slot e).fits in
      rw (e, poll_cl) (at_height fits h)
  | inr (e, f) ↦ rw (f, poll_cl) (at_height (omega arith) h)
]

poll_cl_nodes-ClSound :
    (net : Net) (v m : ℕ) (ns : List ClNodeState)
    → All (ClSound m) ns
    → All (ClSound m) (poll_cl_nodes net v ns)
unfolding poll_cl_nodes
poll_cl_nodes-ClSound net v m [] h = tt
poll_cl_nodes-ClSound net v m (n ∷ ns) h =
    (poll_cl-ClSound net v m n h.0, poll_cl_nodes-ClSound net (v + 1) m ns h.1)

calculate_cl_health-ClSound :
    (head l m : ℕ) (n : ClNodeState)
    → head < u64_mod
    → ClSound m n
    → ClSound m (calculate_cl_health n head l m)
unfolding calculate_cl_health
calculate_cl_health-ClSound head l m n fits h = record {
  height_fits = ground (arith, h.height_fits);
  lag_fits = ground (arith, h.height_fits);
  failures_fit = ground arith;
  counted = λ healthy. ground (arith, h.counted);
}

cl_head-lt :
    (m : ℕ) (ns : List ClNodeState) → All (ClSound m) ns → update_cl_chain_head ns < u64_mod
unfolding update_cl_chain_head
cl_head-lt m [] h = omega arith
cl_head-lt m (n ∷ ns) h = omega (arith, cl_head-lt m ns h.1, h.0.height_fits)

cl_pass-ClSound :
    (ns : List ClNodeState) (head l m c : ℕ)
    → head < u64_mod
    → All (ClSound m) ns
    → All (ClSound m) (cl_pass head l m c ns).nodes
unfolding cl_pass
cl_pass-ClSound [] head l m c fits h = tt
cl_pass-ClSound (n ∷ ns) head l m c fits h =
    (calculate_cl_health-ClSound head l m n fits h.0, cl_pass-ClSound ns head l m _ fits h.1)

advance-InRange :
    (net : Net) (p : Phase) (s : AppState)
    → HeadFits p × InRange s
    → let (t, q, _) = advance net p s in HeadFits q × InRange t
unfolding advance
advance-InRange net waiting s (f, h) = (
  tt,
  record {
    el = poll_el_nodes-ElSound net 0 s.health_check_max_failures s.el_nodes h.el;
    cl = h.cl;
    el_head = h.el_head;
    cl_head = h.cl_head;
  },
)
advance-InRange net el_polled s (f, h) =
    let fits = head-lt s.health_check_max_failures s.el_nodes h.el in
    (fits, record { el = h.el; cl = h.cl; el_head = fits; cl_head = h.cl_head })
advance-InRange net (el_head_stored head) s (f, h) = (
  tt,
  record {
    el = el_pass-ElSound s.el_nodes head s.max_el_lag s.health_check_max_failures false 0 f h.el;
    cl = h.cl;
    el_head = h.el_head;
    cl_head = h.cl_head;
  },
)
advance-InRange net (el_assessed b) s (f, h) = (
  tt,
  record {
    el = h.el;
    cl = poll_cl_nodes-ClSound net _ s.health_check_max_failures s.cl_nodes h.cl;
    el_head = h.el_head;
    cl_head = h.cl_head;
  },
)
advance-InRange net (cl_polled b) s (f, h) =
    let fits = cl_head-lt s.health_check_max_failures s.cl_nodes h.cl in
    (fits, record { el = h.el; cl = h.cl; el_head = h.el_head; cl_head = fits })
advance-InRange net (cl_head_stored head b) s (f, h) = (
  tt,
  record {
    el = h.el;
    cl = cl_pass-ClSound s.cl_nodes head s.max_cl_lag s.health_check_max_failures 0 f h.cl;
    el_head = h.el_head;
    cl_head = h.cl_head;
  },
)
advance-InRange net (cl_assessed b) s (f, h) =
    rw (update_failover_flag-flag s b)
      (tt, record { el = h.el; cl = h.cl; el_head = h.el_head; cl_head = h.cl_head })

Reach-InRange_lem :
    {start : AppState} {w : World}
    → InRange start
    → Reach start w
    → HeadFits w.phase × InRange w.shared
Reach-InRange_lem h here = (tt, h)
Reach-InRange_lem h (next {w} r (monitor net)) =
    advance-InRange net w.phase w.shared (Reach-InRange_lem h r)

new-InRange : (config : Config) → InRange (new config)
unfolding new el_from_config cl_from_config
new-InRange config = record {
  el =
      All-append _ (map _ config.el.primary) (map _ config.el.backup)
        (All-map _ _ config.el.primary (λ n. at_start))
        (All-map _ _ config.el.backup (λ n. at_start));
  cl = All-map _ _ config.cl (λ n. at_start);
  el_head = omega arith;
  cl_head = omega arith;
}
  where
    at_start : {m : ℕ} → Sound m false 0 0 0
    at_start = record {
      height_fits = omega arith;
      lag_fits = omega arith;
      failures_fit = omega arith;
      counted = λ h. inl refl;
    }

-- From the start of the program, at every point of every cycle and whatever the nodes answer, block
-- numbers, slots, lags and chain heads fit in 64 bits and failure counters in 32, and a node in
-- service has no failure since its last passed check or fewer than allowed.
pub Reach-InRange : (config : Config) {w : World} → Reach (new config) w → InRange w.shared
Reach-InRange config r = (Reach-InRange_lem (new-InRange config) r).1
