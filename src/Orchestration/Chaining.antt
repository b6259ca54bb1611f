-- ===== src/Orchestration/Chaining.antt =====
-- orchestration/chaining.py: the follow-up work that a task's outcome generates. `str` and `int` of JSON
-- values that the chainer did not write are parameters; what `Task(...)` draws for itself is an argument.
pub mod Children
pub mod Valid
pub mod Outcomes
mod Examples
use hookclose.Prelude.{
  ℕ, suc, ◌+◌, String, format, head_segment, Bool, true, false, Option, none, some, List, [], ◌∷◌,
  ◌++◌, if◌then◌else◌, or_default, Result, ok, err, Dict, lookup, insert, ltb, leb,
}
use hookclose.Events.{
  DomainEvent, EventBus, emit, next_task_generated, repair_task_created, escalation_raised,
  chain_terminated,
}
use hookclose.Tasks.{
  Json, null, number, text, object, Fields, no_fields, field, get_field, set_field, TaskStatus,
  Task, Drawn, default_task,
}
use hookclose.Orchestration.Graph.{
  TaskDependencyGraph, CycleError, add_task, add_dependency, mark_done,
}

pub record ChainMeta : Type 0 where
  pub root : String
  pub parent : Json
  pub depth : ℕ

unfoldable pub to_payload : ChainMeta → Json
to_payload meta = object (
    field "root" (text meta.root)
      (field "parent" meta.parent (field "depth" (number meta.depth) no_fields)))

-- What a call may raise: `int` of a depth that is no number, or the graph's refusal.
pub data ChainError : Type 0 where
  bad_depth : Json → ChainError
  cycle : CycleError → ChainError

-- Python's `str` and `int` on what is no text or no number; `int` may raise.
pub record Conversions : Type 0 where
  pub str_of : Json → String
  pub int_of : Json → Option ℕ

abbrev pub root_of : Conversions → String → Option Json → String
root_of py task_id none = task_id
root_of py task_id (some (text s)) = s
root_of py task_id (some json) = py.str_of json

-- `int(raw.get("depth", 0))`
abbrev pub depth_of : Conversions → Option Json → Result ChainError ℕ
depth_of py none = ok 0
depth_of py (some (number n)) = ok n
depth_of py (some json) = elim (py.int_of json) [ none ↦ err (bad_depth json) | some n ↦ ok n ]

abbrev pub meta_of_fields : Conversions → String → Fields → Result ChainError ChainMeta
meta_of_fields py task_id raw = elim (depth_of py (get_field "depth" raw)) [
  | err e ↦ err e
  | ok depth ↦ ok (record {
    root = root_of py task_id (get_field "root" raw);
    parent = or_default (get_field "parent" raw) null;
    depth = depth;
  })
]

abbrev pub meta_of : Conversions → String → Option Json → Result ChainError ChainMeta
meta_of py task_id (some (object raw)) = meta_of_fields py task_id raw
meta_of py task_id _ = ok (record { root = task_id; parent = null; depth = 0 })

unfoldable pub chain_meta : Conversions → Task → Result ChainError ChainMeta
chain_meta py task = meta_of py task.id (get_field "_chain" task.payload)

pub record ChainPolicy : Type 0 where
  pub continuation : Dict String
  pub max_depth : ℕ

-- `ChainPolicy.default()`
abbrev pub default_chain_policy : ChainPolicy
default_chain_policy = record {
  continuation =
      ("codegen", "testing")
      ∷ ("testing", "review")
      ∷ ("review", "deploy")
      ∷ ("repair", "testing")
      ∷ [];
  max_depth = 8;
}

-- The head of the empty text is the empty text, so the source's test for it needs no case.
unfoldable pub next_head : ChainPolicy → String → Option String
next_head policy task_type = lookup (head_segment task_type) policy.continuation

-- The chainer with the `InMemoryChainStore`, whose field `generated` stands here.
pub record TaskChainer : Type 0 where
  pub policy : ChainPolicy
  pub generated : Dict (List Task)
  pub bus : EventBus
  pub graph : TaskDependencyGraph

-- `InMemoryChainStore.record`
abbrev pub record_generated : String → Task → Dict (List Task) → Dict (List Task)
record_generated root task generated =
    insert root (or_default (lookup root generated) [] ++ task ∷ []) generated

unfoldable pub make_child : Task → String → ChainMeta → Drawn → Task
unfolding to_payload
make_child parent task_type meta drawn =
    let child_meta : ChainMeta = record {
      root = meta.root;
      parent = text parent.id;
      depth = meta.depth + 1;
    } in
    record (default_task drawn) {
      workflow_id = parent.workflow_id;
      status = TaskStatus.pending;
      task_type = task_type;
      provider = parent.provider;
      payload = field "_chain" (to_payload child_meta) no_fields;
      max_attempts = parent.max_attempts;
    }

-- The store is not reached when the graph refuses.
abbrev pub record_linked :
    Task → ChainMeta → TaskChainer → Option CycleError → TaskChainer × Option CycleError
record_linked child meta c (some e) = (c, some e)
record_linked child meta c none =
    (record c { generated = record_generated meta.root child c.generated }, none)

unfoldable pub link_and_record :
    TaskChainer → Task → Task → ChainMeta → TaskChainer × Option CycleError
link_and_record c parent child meta =
    let (g, raised) = add_dependency c.graph child.id parent.id in
    record_linked child meta (record c { graph = g }) raised

abbrev pub publish : DomainEvent → TaskChainer → TaskChainer
publish event c = record c { bus = emit event c.bus }

abbrev pub terminate : TaskChainer → ChainMeta → TaskChainer
terminate c meta = publish (chain_terminated meta.root "max chain depth reached" meta.depth) c

-- The child is linked, recorded and announced, or the error of the graph raised.
abbrev pub hand_out :
    TaskChainer
    → Task
    → Task
    → ChainMeta
    → DomainEvent
    → TaskChainer × Result ChainError (List Task)
hand_out c parent child meta event =
    let (c', raised) = link_and_record c parent child meta in
    elim raised [ some e ↦ (c', err (cycle e)) | none ↦ (publish event c', ok (child ∷ [])) ]

-- The rest of `on_completed` once the metadata and the next stage are known.
abbrev pub continue_with :
    TaskChainer
    → Task
    → ChainMeta
    → Option String
    → Drawn
    → TaskChainer × Result ChainError (List Task)
continue_with c task meta none drawn = (c, ok [])
continue_with c task meta (some next) drawn =
    let child = make_child task (format (next ∷ ".auto" ∷ [])) meta drawn in
    let chained = hand_out c task child meta (
      next_task_generated task.id child.id child.task_type
        (format (task.task_type ∷ ":completed" ∷ [])) (meta.depth + 1)) in
    if ltb c.policy.max_depth (meta.depth + 1) then (terminate c meta, ok []) else chained

unfoldable pub on_completed :
    Conversions → Task → Drawn → TaskChainer → TaskChainer × Result ChainError (List Task)
on_completed py task drawn c =
    let c' = record c { graph = mark_done c.graph task.id } in
    elim (chain_meta py task) [
      | err e ↦ (c', err e)
      | ok meta ↦ continue_with c' task meta (next_head c.policy task.task_type) drawn
    ]

unfoldable pub repair_of : Task → ChainMeta → Drawn → Task
repair_of task meta drawn =
    let repair = make_child task "repair.auto" meta drawn in
    record repair {
      payload =
          set_field "original_task_type" (text task.task_type)
            (set_field "repairs_task_id" (text task.id) repair.payload);
    }

-- The rest of `on_failed` once the metadata are known.
abbrev pub repair_or_stop :
    TaskChainer → Task → ChainMeta → Drawn → TaskChainer × Result ChainError (List Task)
repair_or_stop c task meta drawn =
    let repair = repair_of task meta drawn in
    let repaired =
      hand_out c task repair meta
        (repair_task_created task.id repair.id (task.attempts + 1) (meta.depth + 1)) in
    if leb task.max_attempts task.attempts
    then (publish (escalation_raised task.id "retries exhausted" meta.depth) c, ok [])
    else if ltb c.policy.max_depth (meta.depth + 1)
    then (terminate c meta, ok [])
    else repaired

unfoldable pub on_failed :
    Conversions → Task → Drawn → TaskChainer → TaskChainer × Result ChainError (List Task)
on_failed py task drawn c =
    let c' = record c { graph = add_task c.graph task.id } in
    elim (chain_meta py task) [ err e ↦ (c', err e) | ok meta ↦ repair_or_stop c' task meta drawn ]
