-- ===== src/Orchestration/Chaining/Children.antt =====
-- The metadata of generated tasks, the bound on chains, and the graph behind them.
use hookclose.Prelude.{
  ℕ, zero, suc, ◌+◌, ◌≤◌, String, ◌≡◌, refl, ◌∙◌, ap, ◌⊎◌, inl, inr, List, [], ◌∷◌, arith, Result,
  ok, err, ltb, leb, All, Bool-cases, Option-cases, Result-cases,
}
use hookclose.Events.{DomainEvent}
use hookclose.Tasks.{text, TaskStatus, Task, Drawn}
use hookclose.Orchestration.Chaining.{
  ChainMeta, ChainError, Conversions, chain_meta, ChainPolicy, next_head, TaskChainer, make_child,
  link_and_record, hand_out, on_completed, repair_of, on_failed,
}

-- A task that was generated for `task`: its place in the chain, and what it inherits.
pub record IsChildOf (py : Conversions) (policy : ChainPolicy) (task child : Task) : Type 0 where
  pub meta : ChainMeta
  pub known : chain_meta py task ≡ ok meta
  pub placed :
      chain_meta py child
      ≡ ok (record { root = meta.root; parent = text task.id; depth = meta.depth + 1 })
  pub bounded : meta.depth + 1 ≤ policy.max_depth
  pub fresh : (child.status ≡ TaskStatus.pending) × (child.attempts ≡ 0)
  pub inherited :
      (child.workflow_id ≡ task.workflow_id)
      × (child.provider ≡ task.provider)
      × (child.max_attempts ≡ task.max_attempts)

chain_meta-make_child :
    (py : Conversions) (task : Task) (task_type : String) (meta : ChainMeta) (drawn : Drawn)
    → chain_meta py (make_child task task_type meta drawn)
      ≡ ok (record { root = meta.root; parent = text task.id; depth = meta.depth + 1 })
unfolding chain_meta make_child
chain_meta-make_child py task task_type meta drawn = refl

make_child-IsChildOf :
    (py : Conversions) (policy : ChainPolicy) (task : Task) (task_type : String) (meta : ChainMeta)
    (drawn : Drawn)
    → chain_meta py task ≡ ok meta
    → meta.depth + 1 ≤ policy.max_depth
    → IsChildOf py policy task (make_child task task_type meta drawn)
unfolding make_child
make_child-IsChildOf py policy task task_type meta drawn known bounded = record {
  meta = meta;
  known = known;
  placed = chain_meta-make_child py task task_type meta drawn;
  bounded = bounded;
  fresh = (refl, refl);
  inherited = (refl, refl, refl);
}

repair_of-IsChildOf :
    (py : Conversions) (policy : ChainPolicy) (task : Task) (meta : ChainMeta) (drawn : Drawn)
    → chain_meta py task ≡ ok meta
    → meta.depth + 1 ≤ policy.max_depth
    → IsChildOf py policy task (repair_of task meta drawn)
unfolding repair_of make_child chain_meta
repair_of-IsChildOf py policy task meta drawn known bounded = record {
  meta = meta;
  known = known;
  placed = refl;
  bounded = bounded;
  fresh = (refl, refl);
  inherited = (refl, refl, refl);
}

-- What a call returns: the children satisfy `P`, or it raised.
abbrev AllReturned : (Task → Type 0) → Result ChainError (List Task) → Type 0
AllReturned P (ok children) = All P children
AllReturned P (err e) = Unit

hand_out_returns :
    (P : Task → Type 0) (c : TaskChainer) (task child : Task) (meta : ChainMeta)
    (event : DomainEvent)
    → P child
    → AllReturned P (hand_out c task child meta event).1
hand_out_returns P c task child meta event p =
    elim (Option-cases (link_and_record c task child meta).1) [
      | inl fine ↦ rw (fine, AllReturned) (p, tt)
      | inr (e, raised) ↦ rw (raised, AllReturned) tt
    ]

on_completed_returned :
    (py : Conversions) (task : Task) (drawn : Drawn) (c : TaskChainer)
    → AllReturned (IsChildOf py c.policy task) (on_completed py task drawn c).1
unfolding on_completed
on_completed_returned py task drawn c = elim (Result-cases (chain_meta py task)) [
  | inr (e, raised) ↦ rw (raised, AllReturned) tt
  | inl (meta, known) ↦ elim (Option-cases (next_head c.policy task.task_type)) [
    | inl terminal ↦ rw (known, AllReturned) (rw (terminal, AllReturned) tt)
    | inr (next, more) ↦ elim (Bool-cases (ltb c.policy.max_depth (meta.depth + 1))) [
      | inl deep ↦ rw (known, AllReturned) (rw (more, AllReturned) (rw (deep, AllReturned) tt))
      | inr within ↦
          rw (known, AllReturned)
            (rw (more, AllReturned)
              (rw (within, AllReturned)
                (hand_out_returns (IsChildOf py c.policy task) _ task _ meta _
                  (make_child-IsChildOf py c.policy task _ meta drawn known (ground arith)))))
    ]
  ]
]

on_failed_returned :
    (py : Conversions) (task : Task) (drawn : Drawn) (c : TaskChainer)
    → AllReturned (IsChildOf py c.policy task) (on_failed py task drawn c).1
unfolding on_failed
on_failed_returned py task drawn c = elim (Result-cases (chain_meta py task)) [
  | inr (e, raised) ↦ rw (raised, AllReturned) tt
  | inl (meta, known) ↦ elim (Bool-cases (leb task.max_attempts task.attempts)) [
    | inl exhausted ↦ rw (known, AllReturned) (rw (exhausted, AllReturned) tt)
    | inr left' ↦ elim (Bool-cases (ltb c.policy.max_depth (meta.depth + 1))) [
      | inl deep ↦ rw (known, AllReturned) (rw (left', AllReturned) (rw (deep, AllReturned) tt))
      | inr within ↦
          rw (known, AllReturned)
            (rw (left', AllReturned)
              (rw (within, AllReturned)
                (hand_out_returns (IsChildOf py c.policy task) _ task _ meta _
                  (repair_of-IsChildOf py c.policy task meta drawn known (ground arith)))))
    ]
  ]
]

-- Every task that a call returns carries the root of the task it was made for, that task as its
-- parent, and one level more, which is within `max_depth`; it is pending with no attempt made, and
-- inherits the workflow, the provider and the number of attempts.
pub returned-IsChildOf :
    (py : Conversions) (task : Task) (drawn : Drawn) (c : TaskChainer) (children : List Task)
    → ((on_completed py task drawn c).1 ≡ ok children)
      ⊎ ((on_failed py task drawn c).1 ≡ ok children)
    → All (IsChildOf py c.policy task) children
returned-IsChildOf py task drawn c children (inl done) =
    let all = on_completed_returned py task drawn c in rw done at all
returned-IsChildOf py task drawn c children (inr failed) =
    let all = on_failed_returned py task drawn c in rw failed at all

-- `descendant` was generated from `ancestor` in so many generations, whatever happened in between.
pub data Descends (py : Conversions) (policy : ChainPolicy) : ℕ → Task → Task → Type 0 where
  same : (t : Task) → Descends py policy zero t t
  next :
      {n : ℕ} {t u : Task} (child : Task) (drawn : Drawn) (c : TaskChainer)
      → c.policy ≡ policy
      → ((on_completed py u drawn c).1 ≡ ok (child ∷ []))
        ⊎ ((on_failed py u drawn c).1 ≡ ok (child ∷ []))
      → Descends py policy n t u
      → Descends py policy (suc n) t child

-- The place of a descendant in the chain.
Descends-depth :
    (py : Conversions) (policy : ChainPolicy) (n : ℕ) (t u : Task) (meta : ChainMeta)
    → chain_meta py t ≡ ok meta
    → Descends py policy n t u
    → (found : ChainMeta) × (chain_meta py u ≡ ok found)
      × (found.root ≡ meta.root)
      × (found.depth ≡ meta.depth + n)
Descends-depth py policy zero t u meta known (same _) = (meta, known, refl, omega arith)
Descends-depth py policy (suc n) t u meta known (next child drawn c one_policy made d) =
    let (found, at, root, depth) = Descends-depth py policy n t _ meta known d in
    let is_child = (returned-IsChildOf py _ drawn c _ made).0 in
    let same_meta : is_child.meta ≡ found = cc (is_child.known, at) in
    let rooted = ap (λ (m : ChainMeta). m.root) same_meta in
    let deeper = ap (λ (m : ChainMeta). m.depth) same_meta in
    (_, is_child.placed, rooted ∙ root, omega (arith, depth, deeper))

-- A chain of n > 0 generations under one policy starts at a task whose depth is at most
-- `max_depth` less n, and all its tasks have one root: no chain goes on for ever.
pub chain_bounded :
    (py : Conversions) (policy : ChainPolicy) (n : ℕ) (t u : Task) (meta : ChainMeta)
    → chain_meta py t ≡ ok meta
    → Descends py policy (suc n) t u
    → (meta.depth + suc n ≤ policy.max_depth)
      × ((found : ChainMeta) × (chain_meta py u ≡ ok found)
          × (found.root ≡ meta.root)
          × (found.depth ≡ meta.depth + suc n))
chain_bounded py policy n t u meta known (next child drawn c one_policy made d) =
    let (found, at, root, depth) = Descends-depth py policy n t _ meta known d in
    let is_child = (returned-IsChildOf py _ drawn c _ made).0 in
    let same_meta : is_child.meta ≡ found = cc (is_child.known, at) in
    let deeper = ap (λ (m : ChainMeta). m.depth) same_meta in
    let rooted = ap (λ (m : ChainMeta). m.root) same_meta in
    (
      omega (
        arith,
        is_child.bounded,
        ap (λ (p : ChainPolicy). p.max_depth) one_policy,
        depth,
        deeper,
      ),
      (_, is_child.placed, rooted ∙ root, omega (arith, depth, deeper)),
    )
