-- ===== src/Http/Failover.antt =====
-- Which tier serves the EL requests of proxy/http.rs when the primaries fail, and when one recovers:
-- the monitor, the flag, the selection and the handler together.
use vixy.Prelude.{
  find, ℕ, ◌≤◌, ◌<◌, ◌≡◌, ap, ◌∙◌, any, All, Bool, true, false, not, ◌&&◌, List, [], ◌∷◌, map,
  length, leb, some, Option-cases, Bool-cases, inl, inr, arith,
}
use vixy.State.{ElNodeState, AppState}
use vixy.Selection.{healthy_primary, healthy_backup, select_el_node}
use vixy.Selection.Choice.{IsFirst, find_iff, find-none_iff, any-false_iff, select_el_node_iff}
use vixy.Health.Net.{Net}
use vixy.Health.El.{u32_mod}
use vixy.Metrics.{MetricCall, inc_el_requests, observe_el_duration}
use vixy.Monitor.{tier, run_health_monitor}
use vixy.Monitor.Pass.{identity, ElAssessed}
use vixy.Monitor.Cycle.{Settled, settle}
use vixy.Monitor.Outage.{PrimariesFail, allowance, outage-any}
use vixy.Http.{Client, Request, Response, el_proxy_handler, forward_request}

-- The node passed its last check.
abbrev passed : ℕ → ElNodeState → Bool
passed max_lag n = n.check_ok && leb n.lag max_lag

abbrev pub passed_primary : ℕ → ElNodeState → Bool
passed_primary max_lag n = n.is_primary && passed max_lag n

abbrev pub passed_backup : ℕ → ElNodeState → Bool
passed_backup max_lag n = not n.is_primary && passed max_lag n

-- The response and the metrics of an EL request that goes to the node `n`.
abbrev pub served_by : Client → Request → ElNodeState → Response × List MetricCall
served_by client request n = (
  forward_request client request n.http_url,
  inc_el_requests n.name (tier n.is_primary)
      ∷ observe_el_duration n.name (tier n.is_primary) client.elapsed
      ∷ [],
)

module _ (head l m : ℕ) where
  passed-healthy :
      (n : ElNodeState) → ElAssessed head l m n → passed l n ≡ true → n.is_healthy ≡ true
  passed-healthy n a p = elim (Bool-cases n.is_healthy) [
    | inl up ↦ up
    | inr out ↦ absurd (ground (arith, a.out_of_service out))
  ]

  any_primary :
      (ns : List ElNodeState)
      → All (ElAssessed head l m) ns
      → any (passed_primary l) ns ≡ true
      → any healthy_primary ns ≡ true
  any_primary [] a h = h
  any_primary (n ∷ ns) (now, later) h = ground (arith, passed-healthy n now, any_primary ns later)

  any_backup :
      (ns : List ElNodeState)
      → All (ElAssessed head l m) ns
      → any (passed_backup l) ns ≡ true
      → any healthy_backup ns ≡ true
  any_backup [] a h = h
  any_backup (n ∷ ns) (now, later) h = ground (arith, passed-healthy n now, any_backup ns later)

find-any {ℓ} :
    {A : Type ℓ} (p : A → Bool) (xs : List A) → any p xs ≡ true → (x : A) × IsFirst p xs x
find-any p xs h = elim (Option-cases (find p xs)) [
  | inl e ↦ absurd (cc (h, (any-false_iff p xs).1 ((find-none_iff p xs).0 e)))
  | inr (x, e) ↦ (x, (find_iff p xs x).0 e)
]

serves :
    (client : Client) (s : AppState) (request : Request) (n : ElNodeState)
    → select_el_node s.el_nodes s.el_failover_active ≡ some n
    → el_proxy_handler client s s request ≡ served_by client request n
unfolding el_proxy_handler
serves client s request n e = rw (e, el_proxy_handler)

-- If a primary passed the last check, an EL request that meets no write of the monitor goes to the
-- first healthy primary, and failover is not active, however long it was before.
pub el_proxy_handler-fails_back :
    (client : Client) (net : Net) (nets : List Net) (s : AppState) (request : Request)
    → let t = (run_health_monitor (net ∷ nets) s).0 in
      any (passed_primary t.max_el_lag) t.el_nodes ≡ true
      → (t.el_failover_active ≡ false)
        × (n : ElNodeState) × IsFirst healthy_primary t.el_nodes n
        × (el_proxy_handler client t t request ≡ served_by client request n)
el_proxy_handler-fails_back client net nets s request passes =
    let t = (run_health_monitor (net ∷ nets) s).0 in
    let settled : Settled t = settle net nets s in
    let up = any_primary _ _ _ t.el_nodes settled.el passes in
    let (n, chosen) = find-any healthy_primary t.el_nodes up in
    (
      settled.flag ∙ ap not up,
      n,
      chosen,
      serves client t request n
          ((select_el_node_iff t.el_nodes t.el_failover_active n).1 (inl chosen)),
    )

outage-serves :
    (client : Client) (t : AppState) (request : Request)
    → Settled t
    → any healthy_primary t.el_nodes ≡ false
    → any (passed_backup t.max_el_lag) t.el_nodes ≡ true
    → (t.el_failover_active ≡ true)
      × (n : ElNodeState) × IsFirst healthy_backup t.el_nodes n
      × (el_proxy_handler client t t request ≡ served_by client request n)
outage-serves client t request settled out passes =
    let (n, chosen) =
      find-any healthy_backup t.el_nodes (any_backup _ _ _ t.el_nodes settled.el passes) in
    let on : t.el_failover_active ≡ true = settled.flag ∙ ap not out in
    (
      on,
      n,
      chosen,
      serves client t request n (
          (select_el_node_iff t.el_nodes t.el_failover_active n).1
            (inr ((any-false_iff healthy_primary t.el_nodes).0 out, on, chosen))),
    )

nonempty-Settled :
    (nets : List Net) (s : AppState) → 1 ≤ length nets → Settled (run_health_monitor nets s).0
nonempty-Settled [] s h = absurd (omega arith)
nonempty-Settled (net ∷ nets) s h = settle net nets s

-- After at least one cycle, take an outage in which all primaries fail their checks, in whatever
-- way, for as many cycles as failures are allowed, and for one at least. If a backup passed the last
-- check, then failover is active, and an EL request that meets no write of the monitor goes to the
-- first healthy backup.
pub el_proxy_handler-fails_over :
    (client : Client) (net : Net) (before nets : List Net) (s₀ : AppState) (request : Request)
    → let s = (run_health_monitor (net ∷ before) s₀).0 in
      let t = (run_health_monitor nets s).0 in
      s.health_check_max_failures < u32_mod
      → allowance s.health_check_max_failures ≤ length nets
      → All (PrimariesFail (map identity s.el_nodes)) nets
      → any (passed_backup t.max_el_lag) t.el_nodes ≡ true
      → (t.el_failover_active ≡ true)
        × (n : ElNodeState) × IsFirst healthy_backup t.el_nodes n
        × (el_proxy_handler client t t request ≡ served_by client request n)
el_proxy_handler-fails_over client net before nets s₀ request small long fail passes =
    let s = (run_health_monitor (net ∷ before) s₀).0 in
    outage-serves client (run_health_monitor nets s).0 request
      (nonempty-Settled nets s (omega arith)) (outage-any net before nets s₀ small long fail) passes
