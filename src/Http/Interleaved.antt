-- ===== src/Http/Interleaved.antt =====
-- The EL handler of proxy/http.rs among the single steps of the monitor: it loads the flag at one
-- point and reads the nodes at another.
use vixy.Prelude.{
  ◌≡◌, ◌⊎◌, inl, inr, refl, sym, ap, ◌∙◌, any, All-append, All-map, true, false, List, [], ◌∷◌,
  ◌++◌, map, map-append, Option-cases, Bool-cases, arith,
}
use vixy.Config.{Config}
use vixy.State.{ElNodeState, AppState, new, el_from_config}
use vixy.Selection.{healthy_primary, select_el_node}
use vixy.Selection.Choice.{
  select_el_node-none_lem, unselected-primary, any-false_iff, select_el_node-healthy,
}
use vixy.Metrics.{inc_el_requests, observe_el_duration}
use vixy.Monitor.{tier}
use vixy.Monitor.Pass.{identity}
use vixy.Monitor.Phases.{
  Phase, waiting, el_polled, el_head_stored, el_assessed, cl_polled, cl_head_stored, cl_assessed,
  World, Reach,
}
use vixy.Monitor.Interleaved.{
  in_window, AllUnhealthy, FlagAgrees, Reach-FlagAgrees, Reach-SameNodes,
}
use vixy.Http.{Client, Request, el_proxy_handler, forward_request, unavailable, no_el_node}
use vixy.Http.Routing.{el_refused_iff}

-- Why the flag may be behind the nodes at `w`: a primary is healthy, so that failover would be
-- wrong; the monitor is about to update the flag; or nothing was found healthy yet.
abbrev pub Behind : World → Type 0
Behind w =
    (any healthy_primary w.shared.el_nodes ≡ true)
    ⊎ (in_window w.phase ≡ true)
    ⊎ AllUnhealthy w.shared.el_nodes

unset-Behind :
    (p : Phase) (s : AppState)
    → FlagAgrees p s
    → s.el_failover_active ≡ false
    → Behind (record { shared = s; phase = p })
unset-Behind waiting s (inl h) off = inl (ground (arith, h, off))
unset-Behind waiting s (inr (e, h)) off = inr (inr h)
unset-Behind el_polled s (inl h) off = inl (ground (arith, h, off))
unset-Behind el_polled s (inr (e, h)) off = inr (inr h)
unset-Behind (el_head_stored head) s (inl h) off = inl (ground (arith, h, off))
unset-Behind (el_head_stored head) s (inr (e, h)) off = inr (inr h)
unset-Behind (el_assessed b) s h off = inr (inl refl)
unset-Behind (cl_polled b) s h off = inr (inl refl)
unset-Behind (cl_head_stored head b) s h off = inr (inl refl)
unset-Behind (cl_assessed b) s h off = inr (inl refl)

new-FlagAgrees : (config : Config) → FlagAgrees waiting (new config)
unfolding new el_from_config
new-FlagAgrees config = inr (
  refl,
  All-append _ (map _ config.el.primary) (map _ config.el.backup)
      (All-map _ _ config.el.primary (λ n. refl)) (All-map _ _ config.el.backup (λ n. refl)),
)

-- A request that loads the flag at any point `w` of any cycle, and reads the nodes in any state
-- `s`, is answered 503 by the proxy itself only if in `s` all nodes are unhealthy; or if in `s` no
-- primary is healthy, and at `w` a primary was healthy, or the monitor had assessed the EL nodes
-- and not yet updated the flag, or all nodes were unhealthy.
pub el_proxy_handler-torn :
    (client : Client) (config : Config) {w : World}
    → Reach (new config) w
    → (s : AppState) (request : Request)
    → el_proxy_handler client w.shared s request ≡ (unavailable no_el_node, [])
    → AllUnhealthy s.el_nodes ⊎ ((any healthy_primary s.el_nodes ≡ false) × Behind w)
el_proxy_handler-torn client config {w} r s request refused =
    let e = (el_refused_iff client w.shared s request).0 refused in
    elim (Bool-cases w.shared.el_failover_active) [
      | inl on ↦ inl ((select_el_node-none_lem s.el_nodes).0 (rw (← on) e))
      | inr off ↦
          let no_primary = unselected-primary s.el_nodes w.shared.el_failover_active e in
          let agrees = Reach-FlagAgrees (new-FlagAgrees config) r in
          inr (
            (any-false_iff healthy_primary s.el_nodes).1 no_primary,
            unset-Behind w.phase w.shared agrees off,
          )
    ]

-- Wherever in a cycle the handler reads the nodes, and whatever flag it loaded before, it refuses
-- the request, or forwards it to a node that is healthy at that point, and whose name, URLs and
-- tier the configuration has; and its metrics name that node.
pub el_proxy_handler-forwards :
    (client : Client) (config : Config) (early : AppState) {w : World}
    → Reach (new config) w
    → (request : Request)
    → (el_proxy_handler client early w.shared request ≡ (unavailable no_el_node, []))
      ⊎ ((n : ElNodeState) × (before : List _) × (after : List _) × (n.is_healthy ≡ true)
          × (map identity (new config).el_nodes ≡ before ++ identity n ∷ after)
          × (el_proxy_handler client early w.shared request ≡ (
            forward_request client request n.http_url,
            inc_el_requests n.name (tier n.is_primary)
                ∷ observe_el_duration n.name (tier n.is_primary) client.elapsed
                ∷ [],
          )))
unfolding el_proxy_handler
el_proxy_handler-forwards client config early {w} r request =
    elim (Option-cases (select_el_node w.shared.el_nodes early.el_failover_active)) [
      | inl e ↦ inl ((el_refused_iff client early w.shared request).1 e)
      | inr (n, e) ↦
          let (healthy, before, after, split) =
            select_el_node-healthy w.shared.el_nodes early.el_failover_active n e in
          let same =
            sym (Reach-SameNodes r).0
            ∙ ap (map identity) split
            ∙ map-append identity before (n ∷ after) in
          inr (n, map identity before, map identity after, healthy, same, rw (e, el_proxy_handler))
    ]
