-- ===== src/Orchestration/Chaining/Outcomes.antt =====
-- What follows a completed task can run at once; what follows a failed task waits for it.
use hookclose.Prelude.{
  ◌+◌, ◌≤◌, ◌<◌, String, format, ◌≡◌, ◌≢◌, refl, ap, true, false, Option, none, some, List, [], ◌∷◌,
  ◌++◌, arith, eq_iff, or_default, Result, ok, err, ltb, leb, lookup, has_key, contains, str_eq,
  lookup-insert_self,
}
use hookclose.Events.{DomainEvent, emit, next_task_generated, repair_task_created}
use hookclose.Tasks.{Task, Drawn}
use hookclose.Orchestration.Graph.{CycleError, add_task, add_dependency, mark_done, is_done, ready}
use hookclose.Orchestration.Graph.Acyclic.{
  IsValid, add_task-IsValid, mark_done-IsValid, has_key-add_task,
}
use hookclose.Orchestration.Graph.Fresh.{
  fresh_dependency, fresh_ready, linked_waits, has_key-mark_done, is_done-mark_done,
  is_done-add_task,
}
use hookclose.Orchestration.Chaining.{
  ChainMeta, ChainError, Conversions, chain_meta, next_head, TaskChainer, make_child,
  record_generated, record_linked, link_and_record, publish, hand_out, on_completed, repair_of,
  on_failed,
}

-- A child that the graph takes is recorded, announced and returned.
handed :
    (c : TaskChainer) (parent child : Task) (meta : ChainMeta) (event : DomainEvent)
    → (add_dependency c.graph child.id parent.id).1 ≡ none
    → hand_out c parent child meta event ≡ (
      publish event (record c {
        graph = (add_dependency c.graph child.id parent.id).0;
        generated = record_generated meta.root child c.generated;
      }),
      ok (child ∷ []),
    )
unfolding link_and_record
handed c parent child meta event fine =
    let c' : TaskChainer = record c { graph = (add_dependency c.graph child.id parent.id).0 } in
    ap
      (λ (r : Option CycleError).
        let (c'', raised) = record_linked child meta c' r in
        elim raised as (λ _. TaskChainer × Result ChainError (List Task)) [
          | some e ↦ (c'', err (ChainError.cycle e))
          | none ↦ (publish event c'', ok (child ∷ []))
        ])
      fine

-- The id that a new task draws is used nowhere yet.
pub record IsFresh (c : TaskChainer) (task : Task) (drawn : Drawn) : Type 0 where
  pub unknown : has_key drawn.id c.graph.deps ≡ false
  pub undone : is_done c.graph drawn.id ≡ false
  pub other : drawn.id ≢ task.id

-- Completing a task of a stage that has a next one, within the depth bound, generates one task under
-- the drawn id: it does not raise, the new task is of the next stage, it is ready in the graph at once,
-- it is appended to the record of its root, and one event tells of it.
pub continuation_ready :
    (py : Conversions) (task : Task) (drawn : Drawn) (c : TaskChainer) (meta : ChainMeta)
    (next : String)
    → IsValid c.graph
    → IsFresh c task drawn
    → chain_meta py task ≡ ok meta
    → next_head c.policy task.task_type ≡ some next
    → meta.depth + 1 ≤ c.policy.max_depth
    → let (c', returned) = on_completed py task drawn c in
      (child : Task) × (returned ≡ ok (child ∷ []))
      × ((child.id ≡ drawn.id) × (child.task_type ≡ format (next ∷ ".auto" ∷ [])))
      × (contains drawn.id (ready c'.graph) ≡ true)
      × (lookup meta.root c'.generated
          ≡ some (or_default (lookup meta.root c.generated) [] ++ child ∷ []))
      × (c'.bus
          ≡ emit
              (next_task_generated task.id drawn.id child.task_type
                (format (task.task_type ∷ ":completed" ∷ []))
                (meta.depth + 1))
              c.bus)
unfolding on_completed make_child
continuation_ready py task drawn c meta next v fresh known more within =
    let g = mark_done c.graph task.id in
    let v' = mark_done-IsValid c.graph task.id v in
    let differs : str_eq task.id drawn.id ≡ false =
      ground (arith, eq_iff task.id drawn.id, fresh.other) in
    let new : has_key drawn.id g.deps ≡ false =
      ground (arith, has_key-mark_done c.graph task.id drawn.id, fresh.unknown) in
    let open' : is_done g drawn.id ≡ false =
      ground (arith, is_done-mark_done c.graph task.id drawn.id, fresh.undone) in
    let finished : is_done g task.id ≡ true =
      ground (arith, is_done-mark_done c.graph task.id task.id, eq_iff task.id task.id) in
    let fine = fresh_dependency g drawn.id task.id v' new fresh.other in
    let child = make_child task (format (next ∷ ".auto" ∷ [])) meta drawn in
    let event =
      next_task_generated task.id drawn.id child.task_type
        (format (task.task_type ∷ ":completed" ∷ [])) (meta.depth + 1) in
    let fits : ltb c.policy.max_depth (meta.depth + 1) ≡ false = ground arith in
    rw (known, on_completed)
      (rw (more, on_completed)
        (rw (fits, on_completed)
          (rw (handed (record c { graph = g }) task child meta event fine) (
            child,
            refl,
            (refl, refl),
            fresh_ready g drawn.id task.id v' new fresh.other open' finished,
            lookup-insert_self meta.root _ c.generated,
            refl,
          ))))

-- Failing a task that has attempts left, within the depth bound, generates one repair task under the
-- drawn id; but the repair waits for the very task that failed: it is not ready in the graph.
pub repair_waits :
    (py : Conversions) (task : Task) (drawn : Drawn) (c : TaskChainer) (meta : ChainMeta)
    → IsValid c.graph
    → IsFresh c task drawn
    → chain_meta py task ≡ ok meta
    → task.attempts < task.max_attempts
    → meta.depth + 1 ≤ c.policy.max_depth
    → is_done c.graph task.id ≡ false
    → let (c', returned) = on_failed py task drawn c in
      let repair = repair_of task meta drawn in
      (returned ≡ ok (repair ∷ []))
      × ((repair.id ≡ drawn.id) × (repair.task_type ≡ "repair.auto"))
      × (contains drawn.id (ready c'.graph) ≡ false)
      × (lookup meta.root c'.generated
          ≡ some (or_default (lookup meta.root c.generated) [] ++ repair ∷ []))
      × (c'.bus
          ≡ emit (repair_task_created task.id drawn.id (task.attempts + 1) (meta.depth + 1)) c.bus)
unfolding on_failed repair_of make_child
repair_waits py task drawn c meta v fresh known left' within open' =
    let g = add_task c.graph task.id in
    let v' = add_task-IsValid c.graph task.id v in
    let differs : str_eq task.id drawn.id ≡ false =
      ground (arith, eq_iff task.id drawn.id, fresh.other) in
    let new : has_key drawn.id g.deps ≡ false =
      ground (arith, has_key-add_task c.graph task.id drawn.id, fresh.unknown) in
    let unfinished : is_done g task.id ≡ false =
      ground (arith, is_done-add_task c.graph task.id task.id) in
    let fine = fresh_dependency g drawn.id task.id v' new fresh.other in
    let child = repair_of task meta drawn in
    let event = repair_task_created task.id drawn.id (task.attempts + 1) (meta.depth + 1) in
    let tries : leb task.max_attempts task.attempts ≡ false = ground arith in
    let fits : ltb c.policy.max_depth (meta.depth + 1) ≡ false = ground arith in
    rw (known, on_failed)
      (rw (tries, on_failed)
        (rw (fits, on_failed)
          (rw (handed (record c { graph = g }) task child meta event fine) (
            refl,
            (refl, refl),
            linked_waits g drawn.id task.id v' fine unfinished,
            lookup-insert_self meta.root _ c.generated,
            refl,
          ))))
