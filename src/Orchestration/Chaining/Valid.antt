-- ===== src/Orchestration/Chaining/Valid.antt =====
-- The dependency graph behind the chains stays valid.
use hookclose.Prelude.{
  ◌+◌, ◌≡◌, refl, inl, inr, none, some, List, [], ◌∷◌, ltb, leb, Bool-cases, Option-cases,
  Result-cases, Option,
}
use hookclose.Events.{DomainEvent}
use hookclose.Tasks.{Task, Drawn}
use hookclose.Orchestration.Graph.{CycleError, add_dependency}
use hookclose.Orchestration.Graph.Acyclic.{
  IsValid, add_task-IsValid, mark_done-IsValid, add_dependency-IsValid,
}
use hookclose.Orchestration.Chaining.{
  ChainMeta, Conversions, chain_meta, next_head, TaskChainer, record_linked, link_and_record,
  hand_out, on_completed, on_failed,
}

record_linked-graph :
    (child : Task) (meta : ChainMeta) (c : TaskChainer) (raised : Option CycleError)
    → (record_linked child meta c raised).0.graph ≡ c.graph
record_linked-graph child meta c none = refl
record_linked-graph child meta c (some e) = refl

link_and_record-graph :
    (c : TaskChainer) (parent child : Task) (meta : ChainMeta)
    → (link_and_record c parent child meta).0.graph ≡ (add_dependency c.graph child.id parent.id).0
unfolding link_and_record
link_and_record-graph c parent child meta =
    let (g, raised) = add_dependency c.graph child.id parent.id in
    record_linked-graph child meta (record c { graph = g }) raised

link_and_record-IsValid :
    (c : TaskChainer) (parent child : Task) (meta : ChainMeta)
    → IsValid c.graph
    → IsValid (link_and_record c parent child meta).0.graph
link_and_record-IsValid c parent child meta v =
    rw (link_and_record-graph c parent child meta)
      (add_dependency-IsValid c.graph child.id parent.id v)

hand_out-IsValid :
    (c : TaskChainer) (parent child : Task) (meta : ChainMeta) (event : DomainEvent)
    → IsValid c.graph
    → IsValid (hand_out c parent child meta event).0.graph
hand_out-IsValid c parent child meta event v =
    let v' = link_and_record-IsValid c parent child meta v in
    elim (Option-cases (link_and_record c parent child meta).1) [
      | inl fine ↦ rw (fine, hand_out) v'
      | inr (e, raised) ↦ rw (raised, hand_out) v'
    ]

-- What happened to a task.
pub data Outcome : Type 0 where
  completed : Task → Drawn → Outcome
  failed : Task → Drawn → Outcome

-- The chainer after the outcomes; the caller goes on after an error.
unfoldable pub run_outcomes : Conversions → List Outcome → TaskChainer → TaskChainer
run_outcomes py [] c = c
run_outcomes py (completed task drawn ∷ rest) c =
    run_outcomes py rest (on_completed py task drawn c).0
run_outcomes py (failed task drawn ∷ rest) c = run_outcomes py rest (on_failed py task drawn c).0

on_completed-IsValid :
    (py : Conversions) (task : Task) (drawn : Drawn) (c : TaskChainer)
    → IsValid c.graph
    → IsValid (on_completed py task drawn c).0.graph
unfolding on_completed
on_completed-IsValid py task drawn c v =
    let v' = mark_done-IsValid c.graph task.id v in
    elim (Result-cases (chain_meta py task)) [
      | inr (e, raised) ↦ rw (raised, on_completed) v'
      | inl (meta, known) ↦ elim (Option-cases (next_head c.policy task.task_type)) [
        | inl terminal ↦ rw (known, on_completed) (rw (terminal, on_completed) v')
        | inr (next, more) ↦ elim (Bool-cases (ltb c.policy.max_depth (meta.depth + 1))) [
          | inl deep ↦
              rw (known, on_completed) (rw (more, on_completed) (rw (deep, on_completed) v'))
          | inr within ↦
              rw (known, on_completed)
                (rw (more, on_completed)
                  (rw (within, on_completed) (hand_out-IsValid _ task _ meta _ v')))
        ]
      ]
    ]

on_failed-IsValid :
    (py : Conversions) (task : Task) (drawn : Drawn) (c : TaskChainer)
    → IsValid c.graph
    → IsValid (on_failed py task drawn c).0.graph
unfolding on_failed
on_failed-IsValid py task drawn c v =
    let v' = add_task-IsValid c.graph task.id v in
    elim (Result-cases (chain_meta py task)) [
      | inr (e, raised) ↦ rw (raised, on_failed) v'
      | inl (meta, known) ↦ elim (Bool-cases (leb task.max_attempts task.attempts)) [
        | inl exhausted ↦ rw (known, on_failed) (rw exhausted v')
        | inr left' ↦ elim (Bool-cases (ltb c.policy.max_depth (meta.depth + 1))) [
          | inl deep ↦ rw (known, on_failed) (rw (left', on_failed) (rw (deep, on_failed) v'))
          | inr within ↦
              rw (known, on_failed)
                (rw (left', on_failed)
                  (rw (within, on_failed) (hand_out-IsValid _ task _ meta _ v')))
        ]
      ]
    ]

-- Whatever tasks complete or fail, in whatever order, and whether or not calls raise, the chainer's
-- graph keeps no cycle, no prerequisite outside it, and no task twice.
pub run_outcomes-IsValid :
    (py : Conversions) (outcomes : List Outcome) (c : TaskChainer)
    → IsValid c.graph
    → IsValid (run_outcomes py outcomes c).graph
unfolding run_outcomes
run_outcomes-IsValid py [] c v = v
run_outcomes-IsValid py (completed task drawn ∷ rest) c v =
    run_outcomes-IsValid py rest (on_completed py task drawn c).0
      (on_completed-IsValid py task drawn c v)
run_outcomes-IsValid py (failed task drawn ∷ rest) c v =
    run_outcomes-IsValid py rest (on_failed py task drawn c).0 (on_failed-IsValid py task drawn c v)
