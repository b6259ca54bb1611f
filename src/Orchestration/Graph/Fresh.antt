-- ===== src/Orchestration/Graph/Fresh.antt =====
-- A new task and its first prerequisite.
use hookclose.Prelude.{
  String, ◌≡◌, ◌≢◌, refl, sym, ap, subst, inl, inr, true, false, none, [], arith, eq_iff, ◌||◌,
  is_some, Bool-cases, Option-cases, contains, has_key, lookup, str_eq, set_add, eq_refl,
  contains-set_add,
}
use hookclose.Orchestration.Graph.{
  TaskDependencyGraph, deps_of, add_task, add_edge, add_dependency, mark_done, is_done, ready, Edge,
  Reach, here, step,
}
use hookclose.Orchestration.Graph.Acyclic.{
  IsValid, finished-add_task, has_key-add_task, add_dependency-IsValid, add_dependency-raises_iff,
  add_dependency-deps,
}
use hookclose.Orchestration.Graph.Ready.{ready_exact}

-- No chain leads to a task that the graph does not have.
Reach-unknown :
    (g : TaskDependencyGraph) (x t : String)
    → IsValid g
    → has_key t g.deps ≡ false
    → x ≢ t
    → ¬ Reach g.deps x t
Reach-unknown g x t v new other (here _) = other refl
Reach-unknown g x t v new other (step {y = y} e r) = elim (Bool-cases (str_eq y t)) [
  | inl same ↦
      let last = subst (λ n. Edge g.deps x n) ((eq_iff y t).0 same) e in
      ground (arith, v.closed x t last)
  | inr differs ↦ Reach-unknown g y t v new (λ e'. ground (arith, eq_iff y t)) r
]

pub fresh_dependency :
    (g : TaskDependencyGraph) (t d : String)
    → IsValid g
    → has_key t g.deps ≡ false
    → t ≢ d
    → (add_dependency g t d).1 ≡ none
fresh_dependency g t d v new other = elim (Option-cases (add_dependency g t d).1) [
  | inl fine ↦ fine
  | inr (e, raised) ↦ elim ((add_dependency-raises_iff g t d).0 (ap is_some raised)) [
    | inl same ↦ absurd (other same)
    | inr r ↦ absurd (Reach-unknown g d t v new (λ e'. other (sym e')) r)
  ]
]

pub finished-add_dependency :
    (g : TaskDependencyGraph) (t d : String) → (add_dependency g t d).0.finished ≡ g.finished
unfolding add_dependency add_edge
finished-add_dependency g t d =
    ground (arith, finished-add_task (add_task g t) d, finished-add_task g t)

Edge-has_key : (g : TaskDependencyGraph) (x y : String) → Edge g.deps x y → has_key x g.deps ≡ true
Edge-has_key g x y e = elim (Option-cases (lookup x g.deps)) [
  | inl missing ↦ let none_there : contains y [] ≡ true = (rw missing at e) in cc
  | inr (ds, found) ↦ ap is_some found
]

-- The edge is there once the call did not raise.
linked :
    (g : TaskDependencyGraph) (t d : String)
    → (add_dependency g t d).1 ≡ none
    → deps_of (add_dependency g t d).0.deps t ≡ set_add d (deps_of g.deps t)
linked g t d fine = ground (arith, add_dependency-deps g t d t, ap is_some fine, eq_refl t)

linked-Edge :
    (g : TaskDependencyGraph) (t d : String)
    → (add_dependency g t d).1 ≡ none
    → Edge (add_dependency g t d).0.deps t d
linked-Edge g t d fine =
    rw (linked g t d fine) (ground (arith, contains-set_add d d (deps_of g.deps t), eq_refl d))

-- A new task is ready once its one prerequisite is done.
pub fresh_ready :
    (g : TaskDependencyGraph) (t d : String)
    → IsValid g
    → has_key t g.deps ≡ false
    → t ≢ d
    → is_done g t ≡ false
    → is_done g d ≡ true
    → contains t (ready (add_dependency g t d).0) ≡ true
fresh_ready g t d v new other open' finished =
    let g' = (add_dependency g t d).0 in
    let fine = fresh_dependency g t d v new other in
    let kept = finished-add_dependency g t d in
    (ready_exact g' t (add_dependency-IsValid g t d v)).1
      (Edge-has_key g' t d (linked-Edge g t d fine), rw kept open', λ y e. rw kept (only y e))
  where
    only : (y : String) → Edge (add_dependency g t d).0.deps t y → is_done g y ≡ true
    only y e =
        let fine = fresh_dependency g t d v new other in
        let e' : contains y (set_add d (deps_of g.deps t)) ≡ true = (rw (linked g t d fine) at e) in
        let one : str_eq d y ≡ true = ground (arith, contains-set_add d y (deps_of g.deps t)) in
        subst (λ n. is_done g n ≡ true) ((eq_iff d y).0 one) finished

-- A task with an unfinished prerequisite is not ready.
pub linked_waits :
    (g : TaskDependencyGraph) (t d : String)
    → IsValid g
    → (add_dependency g t d).1 ≡ none
    → is_done g d ≡ false
    → contains t (ready (add_dependency g t d).0) ≡ false
linked_waits g t d v fine open' =
    let g' = (add_dependency g t d).0 in
    elim (Bool-cases (contains t (ready g'))) [
      | inr out ↦ out
      | inl inside ↦
          let (k, f, prerequisites) =
            (ready_exact g' t (add_dependency-IsValid g t d v)).0 inside in
          let finished : is_done g d ≡ true =
            (rw (finished-add_dependency g t d) at (prerequisites d (linked-Edge g t d fine))) in
          ground arith
    ]

pub has_key-mark_done :
    (g : TaskDependencyGraph) (t x : String)
    → has_key x (mark_done g t).deps ≡ (str_eq t x || has_key x g.deps)
unfolding mark_done
has_key-mark_done g t x = has_key-add_task g t x

pub is_done-mark_done :
    (g : TaskDependencyGraph) (t x : String)
    → is_done (mark_done g t) x ≡ (str_eq t x || is_done g x)
unfolding mark_done
is_done-mark_done g t x =
    ground (arith, contains-set_add t x (add_task g t).finished, finished-add_task g t)

pub is_done-add_task :
    (g : TaskDependencyGraph) (t x : String) → is_done (add_task g t) x ≡ is_done g x
is_done-add_task g t x = ap (contains x) (finished-add_task g t)
