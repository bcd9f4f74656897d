-- ===== src/Health/Grace.antt =====
-- The health of a node over its whole history of checks: what `calculate_el_health` and
-- `calculate_cl_health` amount to, check after check. Histories have the newest check first.
use vixy.Prelude.{
  ℕ, suc, length-map, ◌+◌, ◌-◌, ◌%◌, ◌≤◌, ◌<◌, ◌≡◌, refl, ltb, leb, ◌==◌, Bool, true, false, ◌&&◌,
  ◌||◌, List, [], ◌∷◌, map, length, any, arith, if◌then◌else◌,
}
use vixy.Config.{ElNode, Cl}
use vixy.State.{ElNodeState, ClNodeState, el_from_config, cl_from_config}
use vixy.Health.El.{u32_mod, calculate_el_health}
use vixy.Health.Cl.{calculate_cl_health}

-- How many checks failed since the last one that passed.
abbrev pub misses : List Bool → ℕ
misses [] = 0
misses (true ∷ older) = 0
misses (false ∷ older) = suc (misses older)

-- The contract: healthy after a passed check, until `max_failures` checks in a row have failed.
abbrev pub healthy_after : ℕ → List Bool → Bool
healthy_after max_failures checks =
    any (λ passed. passed) checks && (misses checks == 0 || ltb (misses checks) max_failures)

-- The two fields that the rule of the code works on: healthy, and the failures in a row.
grace : ℕ → List Bool → Bool × ℕ
grace max_failures [] = (false, 0)
grace max_failures (true ∷ older) = (true, 0)
grace max_failures (false ∷ older) =
    let (healthy, failures) = grace max_failures older in
    let count : ℕ = (failures + 1) % u32_mod in
    (if leb max_failures count then false else healthy, count)

misses-le-length : (checks : List Bool) → misses checks ≤ length checks
misses-le-length [] = omega arith
misses-le-length (true ∷ older) = omega arith
misses-le-length (false ∷ older) = omega (arith, misses-le-length older)

grace_lem :
    (max_failures : ℕ) (checks : List Bool)
    → length checks < u32_mod
    → ((grace max_failures checks).0 ≡ healthy_after max_failures checks)
      × ((grace max_failures checks).1 ≡ misses checks)
unfolding grace
grace_lem m [] h = ground arith
grace_lem m (true ∷ older) h = ground arith
grace_lem m (false ∷ older) h = ground (arith, grace_lem m older, misses-le-length older)

pub record ElCheck : Type 0 where
  pub answered : Bool
  pub block : ℕ
  pub head : ℕ

abbrev pub el_passed : ℕ → ElCheck → Bool
el_passed max_lag c = c.answered && leb (c.head - c.block) max_lag

-- The state of an EL node after a history of checks.
pub el_after : ElNodeState → ℕ → ℕ → List ElCheck → ElNodeState
el_after node max_lag max_failures [] = node
el_after node max_lag max_failures (c ∷ older) =
    let before = el_after node max_lag max_failures older in
    calculate_el_health (record before { check_ok = c.answered; block_number = c.block }) c.head
      max_lag max_failures

el_after-grace :
    (node : ElNode) (p : Bool) (l m : ℕ) (checks : List ElCheck)
    → let after = el_after (el_from_config node p) l m checks in
      (after.is_healthy ≡ (grace m (map (el_passed l) checks)).0)
      × (after.consecutive_failures ≡ (grace m (map (el_passed l) checks)).1)
unfolding el_after grace el_from_config calculate_el_health
el_after-grace node p l m [] = (refl, refl)
el_after-grace node p l m (c ∷ older) = ground (arith, el_after-grace node p l m older)

-- A configured EL node is healthy after fewer than 2^32 checks exactly when some check passed and
-- fewer than `max_failures` have failed since, or none has; its counter holds their number. A
-- check passes if the node answered and its lag is at most `max_lag`.
pub el_after_lem :
    (node : ElNode) (p : Bool) (max_lag max_failures : ℕ) (checks : List ElCheck)
    → length checks < u32_mod
    → let after = el_after (el_from_config node p) max_lag max_failures checks in
      (after.is_healthy ≡ healthy_after max_failures (map (el_passed max_lag) checks))
      × (after.consecutive_failures ≡ misses (map (el_passed max_lag) checks))
el_after_lem node p l m checks h =
    let short : length (map (el_passed l) checks) < u32_mod =
      rw (length-map checks (el_passed l)) h in
    ground (arith, el_after-grace node p l m checks, grace_lem m (map (el_passed l) checks) short)

pub record ClCheck : Type 0 where
  pub health_ok : Bool
  pub slot : ℕ
  pub head : ℕ

abbrev pub cl_passed : ℕ → ClCheck → Bool
cl_passed max_lag c = c.health_ok && leb (c.head - c.slot) max_lag

-- The state of a CL node after a history of checks.
cl_after : ClNodeState → ℕ → ℕ → List ClCheck → ClNodeState
cl_after node max_lag max_failures [] = node
cl_after node max_lag max_failures (c ∷ older) =
    let before = cl_after node max_lag max_failures older in
    calculate_cl_health (record before { health_ok = c.health_ok; slot = c.slot }) c.head max_lag
      max_failures

cl_after-grace :
    (node : Cl) (l m : ℕ) (checks : List ClCheck)
    → let after = cl_after (cl_from_config node) l m checks in
      (after.is_healthy ≡ (grace m (map (cl_passed l) checks)).0)
      × (after.consecutive_failures ≡ (grace m (map (cl_passed l) checks)).1)
unfolding cl_after grace cl_from_config calculate_cl_health
cl_after-grace node l m [] = (refl, refl)
cl_after-grace node l m (c ∷ older) = ground (arith, cl_after-grace node l m older)

-- The same contract for a configured CL node, over slots: it is healthy after fewer than 2^32
-- checks exactly when some check passed and fewer than `max_failures` have failed since, or none.
cl_after_lem :
    (node : Cl) (max_lag max_failures : ℕ) (checks : List ClCheck)
    → length checks < u32_mod
    → let after = cl_after (cl_from_config node) max_lag max_failures checks in
      (after.is_healthy ≡ healthy_after max_failures (map (cl_passed max_lag) checks))
      × (after.consecutive_failures ≡ misses (map (cl_passed max_lag) checks))
cl_after_lem node l m checks h =
    let short : length (map (cl_passed l) checks) < u32_mod =
      rw (length-map checks (cl_passed l)) h in
    ground (arith, cl_after-grace node l m checks, grace_lem m (map (cl_passed l) checks) short)

-- One failed check does not make a healthy EL node unhealthy where two or more are allowed: a node
-- that did not answer stays in service.
el_failed_once :
    (node : ElNodeState) (chain_head max_lag max_failures : ℕ)
    → node.is_healthy ≡ true
    → node.consecutive_failures ≡ 0
    → node.check_ok ≡ false
    → 2 ≤ max_failures
    → (calculate_el_health node chain_head max_lag max_failures).is_healthy ≡ true
unfolding calculate_el_health
el_failed_once node head l m h f c b = ground arith
