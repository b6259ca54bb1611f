-- ===== src/Orchestration/Graph/Ready.antt =====
-- What can run now: the ready tasks, and that unfinished work is never stuck.
use hookclose.Prelude.{
  ℕ, zero, suc, ◌+◌, ◌≤◌, ◌<◌, String, ◌≡◌, ◌≢◌, ◌↔◌, ◌∙◌, sym, subst, inl, inr, true, false, List,
  [], ◌∷◌, arith, eq_iff, if◌then◌else◌, Dict, has_key, keys, contains, str_eq, Bool-cases, eq_refl,
  contains-cons, Distinct, contains_cast, subset, all, has_key-eq-contains,
}
use hookclose.Orchestration.Graph.{
  TaskDependencyGraph, deps_of, is_done, is_ready, ready_from, ready, is_complete, Edge, Reach,
  here,
}
use hookclose.Orchestration.Graph.Acyclic.{IsValid}
use hookclose.Orchestration.Graph.Search.{Reach-snoc}

-- The tasks of `ks` that are not in `visited`.
abbrev unvisited : List String → List String → ℕ
unvisited [] visited = 0
unvisited (k ∷ ks) visited = (if contains k visited then 0 else 1) + unvisited ks visited

unvisited-cons-le :
    (ks : List String) (x : String) (visited : List String)
    → unvisited ks (x ∷ visited) ≤ unvisited ks visited
unvisited-cons-le [] x visited = omega arith
unvisited-cons-le (k ∷ ks) x visited = ground (arith, unvisited-cons-le ks x visited)

unvisited-cons :
    (ks : List String) (x : String) (visited : List String)
    → contains x ks ≡ true
    → contains x visited ≡ false
    → unvisited ks (x ∷ visited) < unvisited ks visited
unvisited-cons [] x visited m new = cc
unvisited-cons (k ∷ ks) x visited m new = elim (Bool-cases (str_eq k x)) [
  | inl same ↦
      ground
        (arith, unvisited-cons-le ks x visited, eq_iff x k, eq_iff k x, contains_cast k x visited)
  | inr other ↦ ground (arith, unvisited-cons ks x visited, eq_iff x k, eq_iff k x)
]

-- A set that is not below another has an element outside it.
subset_witness :
    (xs ys : List String)
    → subset xs ys ≡ false
    → (x : String) × (contains x xs ≡ true) × (contains x ys ≡ false)
subset_witness [] ys h = cc
subset_witness (x ∷ xs) ys h = elim (Bool-cases (contains x ys)) [
  | inl inside ↦ let (y, m, out) = subset_witness xs ys (ground arith) in (y, ground arith, out)
  | inr outside ↦ (x, ground (arith, eq_refl x), outside)
]

all_witness :
    (g : TaskDependencyGraph) (ks : List String)
    → all (is_done g) ks ≡ false
    → (x : String) × (contains x ks ≡ true) × (is_done g x ≡ false)
all_witness g [] h = cc
all_witness g (k ∷ ks) h = elim (Bool-cases (is_done g k)) [
  | inl finished ↦ let (y, m, out) = all_witness g ks (ground arith) in (y, ground arith, out)
  | inr open' ↦ (k, ground (arith, eq_refl k), open')
]

-- With nothing ready, an unfinished task waits for an unfinished prerequisite.
blocked_entry :
    (g : TaskDependencyGraph) (d : Dict (List String)) (x : String)
    → ready_from g d ≡ []
    → has_key x d ≡ true
    → is_done g x ≡ false
    → subset (deps_of d x) g.finished ≡ false
blocked_entry g [] x stuck h open' = cc
blocked_entry g ((k, ps) ∷ d) x stuck h open' = elim (Bool-cases (is_ready g k ps)) [
  | inl runs ↦ ground arith
  | inr waits ↦ ground (arith, blocked_entry g d x, eq_iff k x)
]

blocked :
    (g : TaskDependencyGraph) (x : String)
    → ready g ≡ []
    → has_key x g.deps ≡ true
    → is_done g x ≡ false
    → (y : String) × Edge g.deps x y × (is_done g y ≡ false)
unfolding ready
blocked g x stuck h open' =
    subset_witness (deps_of g.deps x) g.finished (blocked_entry g g.deps x stuck h open')

-- Follow unfinished prerequisites: each visited task needs the one at hand, so by acyclicity no task
-- comes twice, and the tasks run out.
chase :
    (g : TaskDependencyGraph) (fuel : ℕ) (visited : List String) (x : String)
    → IsValid g
    → ready g ≡ []
    → ((v : String) → contains v visited ≡ true → (w : String) × Edge g.deps v w × Reach g.deps w x)
    → has_key x g.deps ≡ true
    → is_done g x ≡ false
    → unvisited (keys g.deps) visited < fuel
    → ⊥
chase g zero visited x v stuck trail h open' m = absurd (omega arith)
chase g (suc fuel) visited x v stuck trail h open' m =
    let (y, edge, later) = blocked g x stuck h open' in
    let new : contains x visited ≡ false = elim (Bool-cases (contains x visited)) [
      | inl old ↦ let (w, e, r) = trail x old in absurd (v.acyclic x w e r)
      | inr new ↦ new
    ] in
    let fewer =
      unvisited-cons (keys g.deps) x visited (sym (has_key-eq-contains x g.deps) ∙ h) new in
    chase g fuel (x ∷ visited) y v stuck
      (λ z m'. elim (contains-cons z x visited m') [
        | inl same ↦
            subst (λ n. (w : String) × Edge g.deps n w × Reach g.deps w y) same (y, edge, here y)
        | inr before ↦ let (w, e, r) = trail z before in (w, e, Reach-snoc r edge)
      ])
      (v.closed x y edge) later (omega arith)

-- Unless every task is done, some task is ready: the graph is never deadlocked.
pub ready_progress : (g : TaskDependencyGraph) → IsValid g → is_complete g ≡ false → ready g ≢ []
unfolding is_complete
ready_progress g v open' stuck =
    let (x, m, later) = all_witness g (keys g.deps) open' in
    chase g (suc (unvisited (keys g.deps) [])) [] x v stuck (λ z m'. cc)
      (has_key-eq-contains x g.deps ∙ m) later (omega arith)

ready_from_iff :
    (g : TaskDependencyGraph) (d : Dict (List String)) (x : String)
    → Distinct (keys d)
    → (contains x (ready_from g d) ≡ true)
      ↔ ((has_key x d ≡ true) × (is_ready g x (deps_of d x) ≡ true))
ready_from_iff g [] x h = (λ c. cc, λ c. cc)
ready_from_iff g ((k, ps) ∷ d) x h = elim (Bool-cases (str_eq k x)) [
  | inl same ↦ ground (
    arith,
    eq_iff k x,
    contains_cast k x (keys d),
    contains_cast k x g.finished,
    has_key-eq-contains x d,
    ready_from_iff g d x h.1,
  )
  | inr other ↦ ground (arith, ready_from_iff g d x h.1)
]

subset_iff :
    (xs ys : List String)
    → (subset xs ys ≡ true) ↔ ((y : String) → contains y xs ≡ true → contains y ys ≡ true)
subset_iff xs ys = (
  inside xs,
  λ all_in. elim (Bool-cases (subset xs ys)) [
    | inl in_it ↦ in_it
    | inr not_in ↦ let (y, m, out) = subset_witness xs ys not_in in ground (arith, all_in y m)
  ],
)
  where
    inside :
        (zs : List String)
        → subset zs ys ≡ true
        → (y : String) → contains y zs ≡ true
        → contains y ys ≡ true
    inside [] h y m = cc
    inside (z ∷ zs) h y m = elim (contains-cons y z zs m) [
      | inl same ↦ subst (λ n. contains n ys ≡ true) same (ground arith)
      | inr later ↦ inside zs (ground arith) y later
    ]

-- In a graph built by its methods, `ready` gives exactly the tasks of the graph that are not done and
-- whose prerequisites are all done.
pub ready_exact :
    (g : TaskDependencyGraph) (task : String)
    → IsValid g
    → (contains task (ready g) ≡ true) ↔ (
        (has_key task g.deps ≡ true)
        × (is_done g task ≡ false)
        × ((y : String) → Edge g.deps task y → is_done g y ≡ true))
unfolding ready
ready_exact g x v =
    let base = ready_from_iff g g.deps x v.distinct in
    let sub = subset_iff (deps_of g.deps x) g.finished in
    (
      λ m. let (k, r) = base.0 m in (k, ground arith, sub.0 (ground arith)),
      λ (k, f, a). base.1 (k, (let b = sub.1 a in ground arith)),
    )
