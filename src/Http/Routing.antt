-- ===== src/Http/Routing.antt =====
-- Which requests the handlers of proxy/http.rs serve, and from which node.
use vixy.Prelude.{
  ℕ, ◌+◌, ◌≡◌, ◌↔◌, refl, sym, ap, ◌∙◌, any, All, false, not, ◌&&◌, List, [], ◌∷◌, map, none,
  Option-cases, inl, inr, arith,
}
use vixy.State.{ElNodeState, ClNodeState, AppState}
use vixy.Selection.{healthy_primary, select_el_node, select_cl_node}
use vixy.Selection.Choice.{select_cl_node-none_lem, select_el_node-off}
use vixy.Health.Net.{Net}
use vixy.Monitor.{run_health_monitor, check_all_el_nodes}
use vixy.Monitor.Pass.{ElAssessed, ClAssessed}
use vixy.Monitor.Cycle.{Settled, check_el-any, run_health_monitor-serves}
use vixy.Http.{
  Client, Request, el_proxy_handler, cl_proxy_handler, status_handler, el_status, cl_status,
  unavailable, no_el_node, no_cl_node,
}

pub el_refused_iff :
    (client : Client) (early s : AppState) (request : Request)
    → (el_proxy_handler client early s request ≡ (unavailable no_el_node, []))
      ↔ (select_el_node s.el_nodes early.el_failover_active ≡ none)
unfolding el_proxy_handler
el_refused_iff client early s request =
    elim (Option-cases (select_el_node s.el_nodes early.el_failover_active)) [
      | inl e ↦ ground (arith, e)
      | inr (n, e) ↦ ground (arith, e)
    ]

-- After at least one health check cycle, an EL request that meets no write of the monitor is
-- answered 503 by the proxy itself, with no metric recorded, exactly when all EL nodes, the backups
-- included, are unhealthy.
pub el_proxy_handler-refuses :
    (client : Client) (net : Net) (nets : List Net) (s : AppState) (request : Request)
    → let t = (run_health_monitor (net ∷ nets) s).0 in
      (el_proxy_handler client t t request ≡ (unavailable no_el_node, []))
      ↔ All (λ n. n.is_healthy ≡ false) t.el_nodes
el_proxy_handler-refuses client net nets s request =
    let t = (run_health_monitor (net ∷ nets) s).0 in
    let a = el_refused_iff client t t request in
    let b = run_health_monitor-serves net nets s in (λ h. b.0 (a.0 h), λ h. a.1 (b.1 h))

-- A CL request is answered 503 by the proxy itself, with no metric recorded, exactly when all CL
-- nodes are unhealthy.
cl_proxy_handler-refuses :
    (client : Client) (s : AppState) (request : Request)
    → (cl_proxy_handler client s request ≡ (unavailable no_cl_node, []))
      ↔ All (λ n. n.is_healthy ≡ false) s.cl_nodes
unfolding cl_proxy_handler
cl_proxy_handler-refuses client s request = elim (Option-cases (select_cl_node s.cl_nodes)) [
  | inl e ↦ ground (arith, e, select_cl_node-none_lem s.cl_nodes)
  | inr (n, e) ↦ ground (arith, e, select_cl_node-none_lem s.cl_nodes)
]

-- The configured timeout and number of retries change nothing in what the handlers do.
handlers-ignore_limits :
    (client : Client) (early s : AppState) (request : Request) (timeout retries : ℕ)
    → let other = record s { proxy_timeout_ms = timeout; max_retries = retries } in
      (el_proxy_handler client early other request ≡ el_proxy_handler client early s request)
      × (cl_proxy_handler client other request ≡ cl_proxy_handler client s request)
unfolding el_proxy_handler cl_proxy_handler
handlers-ignore_limits client early s request timeout retries = (refl, refl)

el_status-behind :
    (head l m : ℕ) (ns : List ElNodeState)
    → All (ElAssessed head l m) ns
    → All (λ n. n.lag + n.block_number ≡ head) (map el_status ns)
el_status-behind head l m [] h = tt
el_status-behind head l m (n ∷ ns) h = (h.0.behind, el_status-behind head l m ns h.1)

cl_status-behind :
    (head l m : ℕ) (ns : List ClNodeState)
    → All (ClAssessed head l m) ns
    → All (λ n. n.lag + n.slot ≡ head) (map cl_status ns)
cl_status-behind head l m [] h = tt
cl_status-behind head l m (n ∷ ns) h = (h.0.behind, cl_status-behind head l m ns h.1)

el_status-any :
    (ns : List ElNodeState)
    → any healthy_primary ns ≡ any (λ n. n.is_primary && n.is_healthy) (map el_status ns)
el_status-any [] = refl
el_status-any (n ∷ ns) = rw (el_status-any ns)

-- A status response that meets no write of the monitor after a cycle is consistent: each node's
-- lag is its distance to the reported chain head of its layer, and failover is reported exactly
-- when no primary is reported healthy.
pub status_handler-Settled :
    (s : AppState)
    → Settled s
    → let r = status_handler s s s in
      All (λ n. n.lag + n.block_number ≡ r.el_chain_head) r.el_nodes
      × All (λ n. n.lag + n.slot ≡ r.cl_chain_head) r.cl_nodes
      × (r.el_failover_active ≡ not (any (λ n. n.is_primary && n.is_healthy) r.el_nodes))
unfolding status_handler
status_handler-Settled s settled = (
  el_status-behind _ _ _ s.el_nodes settled.el,
  cl_status-behind _ _ _ s.cl_nodes settled.cl,
  settled.flag ∙ ap not (el_status-any s.el_nodes),
)

-- Between the EL checks of a cycle and the update of the failover flag there is a window: if the
-- flag is not set and the checks leave no primary healthy, an EL request is answered 503 by the
-- proxy itself, whether or not a backup is healthy.
pub el_proxy_handler-window :
    (client : Client) (net : Net) (visit : ℕ) (s : AppState) (request : Request)
    → s.el_failover_active ≡ false
    → let (t, any_primary_healthy, _) = check_all_el_nodes net visit s in
      any_primary_healthy ≡ false
      → el_proxy_handler client t t request ≡ (unavailable no_el_node, [])
unfolding check_all_el_nodes
el_proxy_handler-window client net visit s request off no_primary =
    let t = (check_all_el_nodes net visit s).0 in
    let none_healthy : any healthy_primary t.el_nodes ≡ false =
      sym (check_el-any net visit s) ∙ no_primary in
    (el_refused_iff client t t request).1 (rw off (select_el_node-off t.el_nodes none_healthy))
