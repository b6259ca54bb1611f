-- ===== src/Orchestration/Graph/Acyclic.antt =====
-- The effect of each method on the edges, and the invariant that they all keep.
use hookclose.Prelude.{
  String, ◌≡◌, ◌↔◌, ◌∙◌, refl, sym, subst, ◌⊎◌, inl, inr, true, ◌||◌, List, [], ◌∷◌, arith, eq_iff,
  if◌then◌else◌, is_some, Dict, has_key, lookup_cast, Distinct, Distinct-insert, keys, set_add,
  str_eq, Bool-cases, eq_refl, lookup-insert, contains-set_add,
}
use hookclose.Orchestration.Graph.{
  TaskDependencyGraph, empty_graph, deps_of, add_task, reaches, add_edge, add_dependency, mark_done,
  Edge, Reach, here, step, IsAcyclic, IsClosed,
}
use hookclose.Orchestration.Graph.Search.{reaches_complete, reaches_correct}

pub record IsValid (g : TaskDependencyGraph) : Type 0 where
  pub acyclic : IsAcyclic g
  pub closed : IsClosed g
  pub distinct : Distinct (keys g.deps)

-- Adding a task adds no edge.
pub deps_of-add_task :
    (g : TaskDependencyGraph) (t x : String) → deps_of (add_task g t).deps x ≡ deps_of g.deps x
unfolding add_task
deps_of-add_task g t x =
    ground (arith, lookup-insert t x [] g.deps, eq_iff t x, lookup_cast t x g.deps)

pub has_key-add_task :
    (g : TaskDependencyGraph) (t x : String)
    → has_key x (add_task g t).deps ≡ (str_eq t x || has_key x g.deps)
unfolding add_task
has_key-add_task g t x =
    ground (arith, lookup-insert t x [] g.deps, eq_iff t x, lookup_cast t x g.deps)

pub finished-add_task :
    (g : TaskDependencyGraph) (t : String) → (add_task g t).finished ≡ g.finished
unfolding add_task
finished-add_task g t = ground arith

Reach-mono :
    {d e : Dict (List String)} {x y : String}
    → ((a b : String) → Edge d a b → Edge e a b)
    → Reach d x y
    → Reach e x y
Reach-mono up (here x) = here x
Reach-mono up (step e p) = step (up _ _ e) (Reach-mono up p)

add_task-Distinct :
    (g : TaskDependencyGraph) (t : String)
    → Distinct (keys g.deps)
    → Distinct (keys (add_task g t).deps)
unfolding add_task
add_task-Distinct g t h = elim (Bool-cases (has_key t g.deps)) [
  | inl old ↦ rw old h
  | inr new ↦ rw new (Distinct-insert t [] g.deps h)
]

pub add_task-IsValid : (g : TaskDependencyGraph) (t : String) → IsValid g → IsValid (add_task g t)
add_task-IsValid g t v = record {
  acyclic = λ x y e r. v.acyclic x y (down x y e) (Reach-mono down r);
  closed = λ x y e. ground (arith, has_key-add_task g t y, v.closed x y (down x y e));
  distinct = add_task-Distinct g t v.distinct;
}
  where
    down : (a b : String) → Edge (add_task g t).deps a b → Edge g.deps a b
    down a b e = rw (deps_of-add_task g t a) at e

-- The edges after `self._deps[t].add(d)`.
deps_of-add_edge :
    (g : TaskDependencyGraph) (t d x : String)
    → deps_of (add_edge g t d).deps x
      ≡ (if str_eq t x then set_add d (deps_of g.deps t) else deps_of g.deps x)
unfolding add_edge
deps_of-add_edge g t d x = ground (arith, lookup-insert t x (set_add d (deps_of g.deps t)) g.deps)

add_edge_edges :
    (g : TaskDependencyGraph) (t d x y : String)
    → Edge (add_edge g t d).deps x y
    → Edge g.deps x y ⊎ ((t ≡ x) × (d ≡ y))
add_edge_edges g t d x y e = ground (
  arith,
  deps_of-add_edge g t d x,
  contains-set_add d y (deps_of g.deps t),
  eq_iff t x,
  eq_iff d y,
  lookup_cast t x g.deps,
)

-- A chain after the edge t → d was added is an old one, or runs through that edge.
add_edge-Reach :
    (g : TaskDependencyGraph) (t d : String) {x z : String}
    → Reach (add_edge g t d).deps x z
    → Reach g.deps x z ⊎ (Reach g.deps x t × Reach g.deps d z)
add_edge-Reach g t d (here x) = inl (here x)
add_edge-Reach g t d (step {x} {y} {z} e p) =
    join (add_edge_edges g t d x y e) (add_edge-Reach g t d p)
  where
    join :
        Edge g.deps x y ⊎ ((t ≡ x) × (d ≡ y))
        → Reach g.deps y z ⊎ (Reach g.deps y t × Reach g.deps d z)
        → Reach g.deps x z ⊎ (Reach g.deps x t × Reach g.deps d z)
    join (inl old) (inl r) = inl (step old r)
    join (inl old) (inr (to_t, from_d)) = inr (step old to_t, from_d)
    join (inr (tx, dy)) (inl r) =
        inr (subst (λ n. Reach g.deps n t) tx (here t), subst (λ n. Reach g.deps n z) (sym dy) r)
    join (inr (tx, dy)) (inr (to_t, from_d)) =
        inr (subst (λ n. Reach g.deps n t) tx (here t), from_d)

Reach-trans : {d : Dict (List String)} {x y z : String} → Reach d x y → Reach d y z → Reach d x z
Reach-trans (here _) q = q
Reach-trans (step e p) q = step e (Reach-trans p q)

-- An edge t → d keeps the graph free of cycles if no chain leads from d to t.
add_edge-IsAcyclic :
    (g : TaskDependencyGraph) (t d : String)
    → IsAcyclic g
    → ¬ Reach g.deps d t
    → IsAcyclic (add_edge g t d)
add_edge-IsAcyclic g t d v free x y e r =
    close (add_edge_edges g t d x y e) (add_edge-Reach g t d r)
  where
    close :
        Edge g.deps x y ⊎ ((t ≡ x) × (d ≡ y))
        → Reach g.deps y x ⊎ (Reach g.deps y t × Reach g.deps d x)
        → ⊥
    close (inl old) (inl back) = v x y old back
    close (inl old) (inr (to_t, from_d)) = free (Reach-trans from_d (step old to_t))
    close (inr (tx, dy)) (inl back) =
        free (subst (λ n. Reach g.deps n t) (sym dy) (subst (Reach g.deps y) (sym tx) back))
    close (inr (tx, dy)) (inr (to_t, from_d)) = free (subst (λ n. Reach g.deps n t) (sym dy) to_t)

has_key-add_edge :
    (g : TaskDependencyGraph) (t d x : String)
    → has_key x g.deps ≡ true
    → has_key x (add_edge g t d).deps ≡ true
unfolding add_edge
has_key-add_edge g t d x h = ground (arith, lookup-insert t x (set_add d (deps_of g.deps t)) g.deps)

add_edge-IsClosed :
    (g : TaskDependencyGraph) (t d : String)
    → IsClosed g
    → has_key d g.deps ≡ true
    → IsClosed (add_edge g t d)
add_edge-IsClosed g t d v has x y e = has_key-add_edge g t d y (elim (add_edge_edges g t d x y e) [
  | inl old ↦ v x y old
  | inr (tx, dy) ↦ subst (λ n. has_key n g.deps ≡ true) dy has
])

add_edge-Distinct :
    (g : TaskDependencyGraph) (t d : String)
    → Distinct (keys g.deps)
    → Distinct (keys (add_edge g t d).deps)
unfolding add_edge
add_edge-Distinct g t d h = Distinct-insert t (set_add d (deps_of g.deps t)) g.deps h

-- `add_dependency` keeps the graph free of cycles, and its prerequisites among its tasks, whether it
-- adds the edge or raises.
pub add_dependency-IsValid :
    (g : TaskDependencyGraph) (task_id depends_on : String)
    → IsValid g
    → IsValid (add_dependency g task_id depends_on).0
unfolding add_dependency
add_dependency-IsValid g t d v =
    let g' = add_task (add_task g t) d in
    let v' = add_task-IsValid (add_task g t) d (add_task-IsValid g t v) in
    elim (Bool-cases (str_eq t d || reaches g' d t)) [
      | inl refused ↦ rw refused v'
      | inr taken ↦ rw taken (record {
        acyclic = add_edge-IsAcyclic g' t d v'.acyclic (reaches_complete g' d t (ground arith));
        closed =
            add_edge-IsClosed g' t d v'.closed
              (ground (arith, has_key-add_task (add_task g t) d d, eq_refl d));
        distinct = add_edge-Distinct g' t d v'.distinct;
      })
    ]

pub mark_done-IsValid : (g : TaskDependencyGraph) (t : String) → IsValid g → IsValid (mark_done g t)
unfolding mark_done
mark_done-IsValid g t v =
    let v' = add_task-IsValid g t v in
    record { acyclic = v'.acyclic; closed = v'.closed; distinct = v'.distinct }

-- A call of one of the graph's mutating methods.
pub data Call : Type 0 where
  adding : String → Call
  depending : String → String → Call
  marking : String → Call

-- The graph after the calls; a `CycleError` is caught by the caller, who goes on.
unfoldable pub run_calls : TaskDependencyGraph → List Call → TaskDependencyGraph
run_calls g [] = g
run_calls g (adding t ∷ cs) = run_calls (add_task g t) cs
run_calls g (depending t d ∷ cs) = run_calls (add_dependency g t d).0 cs
run_calls g (marking t ∷ cs) = run_calls (mark_done g t) cs

run_calls-IsValid_from :
    (g : TaskDependencyGraph) (cs : List Call) → IsValid g → IsValid (run_calls g cs)
unfolding run_calls
run_calls-IsValid_from g [] v = v
run_calls-IsValid_from g (adding t ∷ cs) v =
    run_calls-IsValid_from (add_task g t) cs (add_task-IsValid g t v)
run_calls-IsValid_from g (depending t d ∷ cs) v =
    run_calls-IsValid_from (add_dependency g t d).0 cs (add_dependency-IsValid g t d v)
run_calls-IsValid_from g (marking t ∷ cs) v =
    run_calls-IsValid_from (mark_done g t) cs (mark_done-IsValid g t v)

-- However the methods are called on a new graph, in any order and through refused edges, no task
-- ever needs itself at any remove, every prerequisite is a task of the graph, and no task has two
-- entries.
pub run_calls-IsValid : (cs : List Call) → IsValid (run_calls empty_graph cs)
run_calls-IsValid cs =
    run_calls-IsValid_from empty_graph cs
      (record { acyclic = λ x y e r. cc; closed = λ x y e. cc; distinct = tt })

-- The prerequisites of `x` after an accepted call.
abbrev pub grown : TaskDependencyGraph → String → String → String → List String
grown g t d x = if str_eq t x then set_add d (deps_of g.deps t) else deps_of g.deps x

deps_of-two :
    (g : TaskDependencyGraph) (t d x : String)
    → deps_of (add_task (add_task g t) d).deps x ≡ deps_of g.deps x
deps_of-two g t d x = deps_of-add_task (add_task g t) d x ∙ deps_of-add_task g t x

-- The test of `add_dependency`, in terms of the graph before the call.
refused_iff :
    (g : TaskDependencyGraph) (t d : String)
    → ((str_eq t d || reaches (add_task (add_task g t) d) d t) ≡ true)
      ↔ ((t ≡ d) ⊎ Reach g.deps d t)
refused_iff g t d = (there, back)
  where
    g2 : TaskDependencyGraph
    g2 = add_task (add_task g t) d

    down : (a b : String) → Edge g2.deps a b → Edge g.deps a b
    down a b e = rw (deps_of-two g t d a) at e

    up : (a b : String) → Edge g.deps a b → Edge g2.deps a b
    up a b e = rw (deps_of-two g t d a) e

    there : (str_eq t d || reaches g2 d t) ≡ true → (t ≡ d) ⊎ Reach g.deps d t
    there h = elim (Bool-cases (str_eq t d)) [
      | inl same ↦ inl ((eq_iff t d).0 same)
      | inr other ↦ inr (Reach-mono down ((reaches_correct g2 d t).0 (ground arith)))
    ]

    back : (t ≡ d) ⊎ Reach g.deps d t → (str_eq t d || reaches g2 d t) ≡ true
    back (inl same) = ground (arith, eq_iff t d)
    back (inr r) = let yes' = (reaches_correct g2 d t).1 (Reach-mono up r) in ground arith

-- `add_dependency` raises exactly when the two tasks are one or a chain of prerequisites already
-- leads from `depends_on` to `task_id`.
pub add_dependency-raises_iff :
    (g : TaskDependencyGraph) (task_id depends_on : String)
    → (is_some (add_dependency g task_id depends_on).1 ≡ true)
      ↔ ((task_id ≡ depends_on) ⊎ Reach g.deps depends_on task_id)
unfolding add_dependency
add_dependency-raises_iff g t d =
    elim (Bool-cases (str_eq t d || reaches (add_task (add_task g t) d) d t)) [
      | inl refused ↦ rw refused (λ _. (refused_iff g t d).0 refused, λ _. refl)
      | inr taken ↦ rw taken (λ h. cc, λ h. ground (arith, (refused_iff g t d).1 h))
    ]

-- A refused call changes no task's prerequisites; an accepted call adds `depends_on` to those of
-- `task_id` and changes no other's.
pub add_dependency-deps :
    (g : TaskDependencyGraph) (task_id depends_on x : String)
    → deps_of (add_dependency g task_id depends_on).0.deps x ≡ (
        if is_some (add_dependency g task_id depends_on).1
        then deps_of g.deps x
        else grown g task_id depends_on x)
unfolding add_dependency
add_dependency-deps g t d x =
    let g2 = add_task (add_task g t) d in
    elim (Bool-cases (str_eq t d || reaches g2 d t)) [
      | inl refused ↦ rw refused (deps_of-two g t d x)
      | inr taken ↦
          rw taken
            (ground (arith, deps_of-add_edge g2 t d x, deps_of-two g t d x, deps_of-two g t d t))
    ]
