-- ===== src/Selection/Choice.antt =====
-- The contract of the two selection functions, and when they find no node.
use vixy.Prelude.{
  ◌≡◌, refl, ◌↔◌, ◌⊎◌, inl, inr, List, [], ◌∷◌, ◌++◌, map, find, any, All, All-append, All-map,
  Bool, not, true, false, none, some, Bool-cases, arith,
}
use vixy.Config.{Config}
use vixy.State.{ElNodeState, ClNodeState, new, el_from_config, cl_from_config}
use vixy.Selection.{healthy_primary, healthy_backup, select_el_node, select_cl_node}

module _ {ℓ} {A : Type ℓ} where
  -- `x` passes the test and stands in `xs`, and nothing before it passes.
  pub record IsFirst (p : A → Bool) (xs : List A) (x : A) : Type ℓ where
    pub before : List A
    pub after : List A
    pub split : xs ≡ before ++ x ∷ after
    pub passes : p x ≡ true
    pub skipped : All (λ y. p y ≡ false) before

  find_sound : (p : A → Bool) (xs : List A) {x : A} → find p xs ≡ some x → IsFirst p xs x
  find_sound p [] e = ground arith
  find_sound p (y ∷ xs) {x} e = elim (Bool-cases (p y)) [
    | inl hit ↦ record {
      before = [];
      after = xs;
      split = ground arith;
      passes = ground arith;
      skipped = tt;
    }
    | inr miss ↦
        let ih = find_sound p xs {x = x} (ground arith) in
        record {
          before = y ∷ ih.before;
          after = ih.after;
          split = ground (arith, ih.split);
          passes = ih.passes;
          skipped = (miss, ih.skipped);
        }
  ]

  pub find_complete :
      (p : A → Bool) (before after : List A) (x : A)
      → p x ≡ true
      → All (λ y. p y ≡ false) before
      → find p (before ++ x ∷ after) ≡ some x
  find_complete p [] after x h s = ground arith
  find_complete p (y ∷ before) after x h s = ground (arith, find_complete p before after x h s.1)

  pub find_iff : (p : A → Bool) (xs : List A) (x : A) → (find p xs ≡ some x) ↔ IsFirst p xs x
  find_iff p xs x =
      (find_sound p xs, λ f. rw f.split (find_complete p f.before f.after x f.passes f.skipped))

  pub find-none_iff : (p : A → Bool) (xs : List A) → (find p xs ≡ none) ↔ All (λ y. p y ≡ false) xs
  find-none_iff p [] = ground arith
  find-none_iff p (y ∷ xs) = ground (arith, find-none_iff p xs)

-- With the failover flag `f`, an EL node is chosen exactly when it is the first healthy primary,
-- or when no primary is healthy, `f` is set, and it is the first healthy backup.
pub select_el_node_iff :
    (nodes : List ElNodeState) (f : Bool) (n : ElNodeState)
    → (select_el_node nodes f ≡ some n) ↔ (
        IsFirst healthy_primary nodes n
        ⊎ (All (λ m. healthy_primary m ≡ false) nodes
            × (f ≡ true)
            × IsFirst healthy_backup nodes n))
unfolding select_el_node
select_el_node_iff nodes f n = ground (
  arith,
  find_iff healthy_primary nodes n,
  find_iff healthy_backup nodes n,
  find-none_iff healthy_primary nodes,
)

-- A CL node is chosen exactly when it is the first healthy one.
pub select_cl_node_iff :
    (nodes : List ClNodeState) (n : ClNodeState)
    → (select_cl_node nodes ≡ some n) ↔ IsFirst (λ m. m.is_healthy) nodes n
unfolding select_cl_node
select_cl_node_iff nodes n = find_iff (λ m. m.is_healthy) nodes n

All-unhealthy_iff :
    (nodes : List ElNodeState)
    → (All (λ m. healthy_primary m ≡ false) nodes × All (λ m. healthy_backup m ≡ false) nodes)
      ↔ All (λ m. m.is_healthy ≡ false) nodes
All-unhealthy_iff [] = ground arith
All-unhealthy_iff (m ∷ nodes) = ground (arith, All-unhealthy_iff nodes)

-- In failover, an EL request finds no node exactly when every node is unhealthy.
pub select_el_node-none_lem :
    (nodes : List ElNodeState)
    → (select_el_node nodes true ≡ none) ↔ All (λ m. m.is_healthy ≡ false) nodes
unfolding select_el_node
select_el_node-none_lem nodes = ground (
  arith,
  find-none_iff healthy_primary nodes,
  find-none_iff healthy_backup nodes,
  All-unhealthy_iff nodes,
)

pub any-false_iff {ℓ} :
    {A : Type ℓ} (p : A → Bool) (xs : List A) → (any p xs ≡ false) ↔ All (λ x. p x ≡ false) xs
any-false_iff p [] = ground arith
any-false_iff p (x ∷ xs) = ground (arith, any-false_iff p xs)

All-primary_of_unhealthy :
    (nodes : List ElNodeState)
    → All (λ m. m.is_healthy ≡ false) nodes
    → All (λ m. healthy_primary m ≡ false) nodes
All-primary_of_unhealthy nodes h = ((All-unhealthy_iff nodes).1 h).0

pub unselected-primary :
    (nodes : List ElNodeState) (f : Bool)
    → select_el_node nodes f ≡ none
    → All (λ m. healthy_primary m ≡ false) nodes
unfolding select_el_node
unselected-primary nodes f e = ground (arith, find-none_iff healthy_primary nodes)

-- Where the flag is set exactly when no primary is healthy, a request finds no node exactly when
-- all nodes are unhealthy.
pub select_el_node-flag :
    (nodes : List ElNodeState) (f : Bool)
    → f ≡ not (any healthy_primary nodes)
    → (select_el_node nodes f ≡ none) ↔ All (λ m. m.is_healthy ≡ false) nodes
select_el_node-flag nodes f e = elim (Bool-cases (any healthy_primary nodes)) [
  | inl some_primary ↦ (
    λ n.
        absurd
          (ground (arith, (any-false_iff healthy_primary nodes).1 (unselected-primary nodes f n))),
    λ h. absurd (
        ground (arith, (any-false_iff healthy_primary nodes).1 (All-primary_of_unhealthy nodes h))),
  )
  | inr no_primary ↦ let on : f ≡ true = ground arith in rw on (select_el_node-none_lem nodes)
]

select_el_node-unhealthy :
    (nodes : List ElNodeState) (f : Bool)
    → All (λ m. m.is_healthy ≡ false) nodes
    → select_el_node nodes f ≡ none
unfolding select_el_node
select_el_node-unhealthy nodes f h = ground (
  arith,
  find-none_iff healthy_primary nodes,
  find-none_iff healthy_backup nodes,
  All-unhealthy_iff nodes,
)

-- Before the first health check no request is served, whatever the configuration and the flag.
new-selects_none :
    (config : Config) (f : Bool)
    → (select_el_node (new config).el_nodes f ≡ none)
      × (select_cl_node (new config).cl_nodes ≡ none)
unfolding new select_cl_node el_from_config cl_from_config
new-selects_none config f = (
  select_el_node-unhealthy _ f (
      All-append (λ m. m.is_healthy ≡ false) (map _ config.el.primary) (map _ config.el.backup)
        (All-map _ _ config.el.primary (λ n. refl)) (All-map _ _ config.el.backup (λ n. refl))),
  (find-none_iff _ _).1 (All-map _ cl_from_config config.cl (λ n. refl)),
)

-- A CL request finds no node exactly when all CL nodes are unhealthy.
pub select_cl_node-none_lem :
    (nodes : List ClNodeState)
    → (select_cl_node nodes ≡ none) ↔ All (λ m. m.is_healthy ≡ false) nodes
unfolding select_cl_node
select_cl_node-none_lem nodes = find-none_iff (λ m. m.is_healthy) nodes

-- With the flag not set, a request finds no node if no primary is healthy.
pub select_el_node-off :
    (nodes : List ElNodeState)
    → any healthy_primary nodes ≡ false
    → select_el_node nodes false ≡ none
unfolding select_el_node
select_el_node-off nodes e =
    ground (arith, find-none_iff healthy_primary nodes, any-false_iff healthy_primary nodes)

-- The chosen node stands in the list and is healthy.
pub select_el_node-healthy :
    (nodes : List ElNodeState) (f : Bool) (n : ElNodeState)
    → select_el_node nodes f ≡ some n
    → (n.is_healthy ≡ true)
      × (before : List ElNodeState) × (after : List ElNodeState) × (nodes ≡ before ++ n ∷ after)
select_el_node-healthy nodes f n e = elim ((select_el_node_iff nodes f n).0 e) [
  | inl h ↦ (ground (arith, h.passes), h.before, h.after, h.split)
  | inr (_, _, h) ↦ (ground (arith, h.passes), h.before, h.after, h.split)
]
