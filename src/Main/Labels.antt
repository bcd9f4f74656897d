-- ===== src/Main/Labels.antt =====
-- The labels of the metrics that metrics.rs keeps: the values that monitor.rs, proxy/http.rs and
-- proxy/ws.rs give them.
pub mod Bounded
use vixy.Prelude.{
  ℕ, ◌+◌, ◌≡◌, ◌⊎◌, inl, inr, refl, sym, ap, ◌∙◌, All, All-append, Bool, true, false, List, [], ◌∷◌,
  ◌++◌, map, map-append, Option, none, some, Option-cases, Bool-cases, Text, bytes, get, if_ind,
  arith, if◌then◌else◌, append_assoc, length,
}
use mathlib.Core.Path.{subst}
use vixy.Config.{Config}
use vixy.State.{ElNodeState, ClNodeState, AppState, new}
use vixy.Health.Net.{Net}
use vixy.Health.El.{update_el_chain_head, calculate_el_health}
use vixy.Health.Cl.{update_cl_chain_head, calculate_cl_health}
use vixy.Selection.{select_el_node, select_cl_node}
use vixy.Selection.Choice.{select_el_node-healthy, select_cl_node_iff}
use vixy.Metrics.{
  MetricCall, inc_el_requests, observe_el_duration, set_el_block_number, set_el_lag, set_el_healthy,
  inc_cl_requests, observe_cl_duration, set_cl_slot, set_cl_lag, set_cl_healthy, inc_ws_messages,
  set_el_failover_active, inc_el_failovers, inc_ws_reconnection_attempt, set_ws_upstream_node,
}
use vixy.Monitor.{
  tier, el_pass, cl_pass, poll_el_nodes, poll_cl_nodes, check_all_el_nodes, check_all_cl_nodes,
  update_failover_flag, run_health_check_cycle, run_health_monitor, note_primary, count_if,
}
use vixy.Monitor.Pass.{
  Identity, identity, cl_identity, el_pass-identity, cl_pass-identity, poll_el_nodes-identity,
  poll_cl_nodes-identity,
}
use vixy.Monitor.Cycle.{cycle-identity, cycle-cl_identity}
use vixy.Http.{Client, Request, el_proxy_handler, cl_proxy_handler}
use vixy.Ws.Messages.Invariant.{IsDirection}

-- The label of a reconnection attempt.
abbrev pub IsAttempt : Text → Type 0
IsAttempt status = (status ≡ bytes "success") ⊎ (status ≡ bytes "failed")

-- `P` holds of the labels of an EL node, `Q` of that of a CL node, `R` of that of an upstream
-- node; and the other labels are those of the program's text.
abbrev pub Labelled :
    (Text → Text → Type 0) → (Text → Type 0) → (Text → Type 0) → MetricCall → Type 0
Labelled P Q R (inc_el_requests node t) = P node t
Labelled P Q R (observe_el_duration node t d) = P node t
Labelled P Q R (set_el_block_number node t n) = P node t
Labelled P Q R (set_el_lag node t n) = P node t
Labelled P Q R (set_el_healthy node t b) = P node t
Labelled P Q R (inc_cl_requests node) = Q node
Labelled P Q R (observe_cl_duration node d) = Q node
Labelled P Q R (set_cl_slot node n) = Q node
Labelled P Q R (set_cl_lag node n) = Q node
Labelled P Q R (set_cl_healthy node b) = Q node
Labelled P Q R (inc_ws_messages d) = IsDirection d
Labelled P Q R (inc_ws_reconnection_attempt status) = IsAttempt status
Labelled P Q R (set_ws_upstream_node node b) = R node
Labelled P Q R _ = Unit

at_middle {ℓ κ μ} :
    {A : Type ℓ} {B : Type κ} (P : B → Type μ) (f : A → B) (before after : List A) (x : A)
    → All P (map f (before ++ x ∷ after))
    → P (f x)
at_middle P f [] after x h = h.0
at_middle P f (y ∷ before) after x h = at_middle P f before after x h.1

module _ (P : Text → Text → Type 0) (Q R : Text → Type 0) where
  abbrev pub Fine : List MetricCall → Type 0
  Fine = All (Labelled P Q R)

  -- The nodes of both layers have labels as they should.
  abbrev pub Named : AppState → Type 0
  Named s =
      All (λ i. P i.name (tier i.is_primary)) (map identity s.el_nodes)
      × All (λ i. Q i.0) (map cl_identity s.cl_nodes)

  el_pass-Fine :
      (ns : List ElNodeState) (head l m : ℕ) (a : Bool) (c : ℕ)
      → All (λ i. P i.name (tier i.is_primary)) (map identity (el_pass head l m a c ns).nodes)
      → Fine (el_pass head l m a c ns).calls
  unfolding el_pass
  el_pass-Fine [] head l m a c h = tt
  el_pass-Fine (n ∷ ns) head l m a c (p, h) = (p, (p, (p, el_pass-Fine ns head l m _ _ h)))

  cl_pass-Fine :
      (ns : List ClNodeState) (head l m c : ℕ)
      → All (λ i. Q i.0) (map cl_identity (cl_pass head l m c ns).nodes)
      → Fine (cl_pass head l m c ns).calls
  unfolding cl_pass
  cl_pass-Fine [] head l m c h = tt
  cl_pass-Fine (n ∷ ns) head l m c (p, h) = (p, (p, (p, cl_pass-Fine ns head l m _ h)))

  check_el-Fine :
      (net : Net) (visit : ℕ) (s : AppState) → Named s → Fine (check_all_el_nodes net visit s).2
  unfolding check_all_el_nodes
  check_el-Fine net visit s h =
      let polled = poll_el_nodes net visit s.el_nodes in
      let head = update_el_chain_head polled in
      let same =
        el_pass-identity head s.max_el_lag s.health_check_max_failures polled false 0
        ∙ poll_el_nodes-identity net visit s.el_nodes in
      (
        tt,
        All-append (Labelled P Q R) _ _
            (el_pass-Fine polled head s.max_el_lag s.health_check_max_failures false 0
              (rw same h.0))
            (tt, tt),
      )

  check_cl-Fine :
      (net : Net) (visit : ℕ) (s : AppState)
      → All (λ i. Q i.0) (map cl_identity s.cl_nodes)
      → Fine (check_all_cl_nodes net visit s).1
  unfolding check_all_cl_nodes
  check_cl-Fine net visit s h =
      let polled = poll_cl_nodes net visit s.cl_nodes in
      let head = update_cl_chain_head polled in
      let same =
        cl_pass-identity polled head s.max_cl_lag s.health_check_max_failures 0
        ∙ poll_cl_nodes-identity net visit s.cl_nodes in
      (
        tt,
        All-append (Labelled P Q R) _ _
            (cl_pass-Fine polled head s.max_cl_lag s.health_check_max_failures 0 (rw same h))
            (tt, tt),
      )

  if_Fine :
      (b : Bool) (s t : AppState) (xs ys : List MetricCall)
      → Fine xs
      → Fine ys
      → let r : AppState × List MetricCall = if b then (s, xs) else (t, ys) in Fine r.1
  if_Fine true s t xs ys f g = f
  if_Fine false s t xs ys f g = g

  flag-Fine : (s : AppState) (b : Bool) → Fine (update_failover_flag s b).1
  unfolding update_failover_flag
  flag-Fine s true = if_Fine _ _ _ (set_el_failover_active false ∷ []) [] (tt, tt) tt
  flag-Fine s false =
      if_Fine _ _ _ (set_el_failover_active true ∷ inc_el_failovers ∷ []) [] (tt, (tt, tt)) tt

  cycle-Fine : (net : Net) (s : AppState) → Named s → Fine (run_health_check_cycle net 0 s).2
  unfolding run_health_check_cycle check_all_el_nodes
  cycle-Fine net s h =
      let (t, b, calls) = check_all_el_nodes net 0 s in
      let (t', calls') = check_all_cl_nodes net (0 + length s.el_nodes) t in
      let (_, calls'') = update_failover_flag t' b in
      All-append (Labelled P Q R) (calls ++ calls') calls''
        (All-append (Labelled P Q R) calls calls' (check_el-Fine net 0 s h)
          (check_cl-Fine net (0 + length s.el_nodes) t h.1))
        (flag-Fine t' b)

  pub monitor-Fine : (nets : List Net) (s : AppState) → Named s → Fine (run_health_monitor nets s).1
  unfolding run_health_monitor
  monitor-Fine [] s h = tt
  monitor-Fine (net ∷ nets) s h =
      let next = (run_health_check_cycle net 0 s).0 in
      let later : Named next = rw (cycle-identity net 0 s, cycle-cl_identity net 0 s) h in
      All-append (Labelled P Q R) _ _ (cycle-Fine net s h) (monitor-Fine nets next later)

  -- The handlers of HTTP requests, which name the node that they chose.
  select-P :
      (s : AppState) (f : Bool) (n : ElNodeState)
      → Named s
      → select_el_node s.el_nodes f ≡ some n
      → P n.name (tier n.is_primary)
  select-P s f n h e =
      let (_, before, after, split) = select_el_node-healthy s.el_nodes f n e in
      at_middle (λ i. P i.name (tier i.is_primary)) identity before after n
        (subst (λ ns. All (λ i. P i.name (tier i.is_primary)) (map identity ns)) split h.0)

  pub el_handler-Fine :
      (client : Client) (early s : AppState) (request : Request)
      → Named s
      → Fine (el_proxy_handler client early s request).1
  unfolding el_proxy_handler
  el_handler-Fine client early s request h =
      elim (Option-cases (select_el_node s.el_nodes early.el_failover_active)) [
        | inl e ↦ rw (e, el_proxy_handler) tt
        | inr (n, e) ↦
            let p = select-P s early.el_failover_active n h e in
            rw (e, el_proxy_handler) (p, (p, tt))
      ]

  pub cl_handler-Fine :
      (client : Client) (s : AppState) (request : Request)
      → Named s
      → Fine (cl_proxy_handler client s request).1
  unfolding cl_proxy_handler
  cl_handler-Fine client s request h = elim (Option-cases (select_cl_node s.cl_nodes)) [
    | inl e ↦ rw (e, cl_proxy_handler) tt
    | inr (n, e) ↦
        let f = (select_cl_node_iff s.cl_nodes n).0 e in
        let q =
          at_middle (λ i. Q i.0) cl_identity f.before f.after n
            (subst (λ ns. All (λ i. Q i.0) (map cl_identity ns)) f.split h.1) in
        rw (e, cl_proxy_handler) (q, (q, tt))
  ]
