-- ===== src/Orchestration/Chaining/Examples.antt =====
-- A concrete chain for the theorems about orchestration/chaining.py.
use hookclose.Prelude.{
  suc, ◌+◌, ◌≤◌, ◌≡◌, refl, inr, true, false, none, some, [], ◌∷◌, ◌++◌, arith, eq_iff, format,
  head_segment, ok, or_default, lookup, contains,
}
use hookclose.Events.{emit, next_task_generated, repair_task_created}
use hookclose.Tasks.{null, Task, Drawn, default_task}
use hookclose.Orchestration.Graph.{empty_graph, ready}
use hookclose.Orchestration.Graph.Acyclic.{IsValid}
use hookclose.Orchestration.Chaining.{
  ChainMeta, Conversions, chain_meta, next_head, default_chain_policy, TaskChainer, on_completed,
  on_failed, repair_of,
}
use hookclose.Orchestration.Chaining.Children.{same, next, chain_bounded}
use hookclose.Orchestration.Chaining.Valid.{completed, failed, run_outcomes, run_outcomes-IsValid}
use hookclose.Orchestration.Chaining.Outcomes.{IsFresh, continuation_ready, repair_waits}

abbrev py : Conversions
py = record { str_of = λ json. "?"; int_of = λ json. none }

abbrev drawn : Drawn
drawn = record { id = "t2"; created_at = "12:00"; updated_at = "12:00" }

abbrev task : Task
task = record (default_task (record drawn { id = "t1" })) { task_type = "codegen.api" }

abbrev chainer : TaskChainer
chainer = record {
  policy = default_chain_policy;
  generated = [];
  bus = some [];
  graph = empty_graph;
}

abbrev root_meta : ChainMeta
root_meta = record { root = "t1"; parent = null; depth = 0 }

empty-IsValid : IsValid empty_graph
empty-IsValid = record { acyclic = λ x y e r. cc; closed = λ x y e. cc; distinct = tt }

task-meta : chain_meta py task ≡ ok root_meta
unfolding chain_meta
task-meta = refl

drawn-IsFresh : IsFresh chainer task drawn
drawn-IsFresh = record {
  unknown = refl;
  undone = refl;
  other = λ e. ground (arith, eq_iff "t2" "t1");
}

run_outcomes-IsValid_example :
    IsValid (run_outcomes py (failed task drawn ∷ completed task drawn ∷ []) chainer).graph
run_outcomes-IsValid_example =
    run_outcomes-IsValid py (failed task drawn ∷ completed task drawn ∷ []) chainer empty-IsValid

next_stage : next_head default_chain_policy "codegen.api" ≡ some "testing"
unfolding next_head head_segment
next_stage = refl

continuation_ready_example :
    let (c', returned) = on_completed py task drawn chainer in
    (child : Task) × (returned ≡ ok (child ∷ []))
    × ((child.id ≡ "t2") × (child.task_type ≡ format ("testing" ∷ ".auto" ∷ [])))
    × (contains "t2" (ready c'.graph) ≡ true)
    × (lookup "t1" c'.generated
        ≡ some (or_default (lookup "t1" chainer.generated) [] ++ child ∷ []))
    × (c'.bus
        ≡ emit
            (next_task_generated "t1" "t2" child.task_type
              (format (task.task_type ∷ ":completed" ∷ []))
              (0 + 1))
            chainer.bus)
continuation_ready_example =
    continuation_ready py task drawn chainer root_meta "testing" empty-IsValid drawn-IsFresh
      task-meta next_stage (omega arith)

abbrev repair : Task
repair = repair_of task root_meta drawn

repair_waits_example :
    let (c', returned) = on_failed py task drawn chainer in
    (returned ≡ ok (repair ∷ []))
    × ((repair.id ≡ "t2") × (repair.task_type ≡ "repair.auto"))
    × (contains "t2" (ready c'.graph) ≡ false)
    × (lookup "t1" c'.generated
        ≡ some (or_default (lookup "t1" chainer.generated) [] ++ repair ∷ []))
    × (c'.bus ≡ emit (repair_task_created "t1" "t2" (0 + 1) (0 + 1)) chainer.bus)
repair_waits_example =
    repair_waits py task drawn chainer root_meta empty-IsValid drawn-IsFresh task-meta (omega arith)
      (omega arith) refl

repair_made : (on_failed py task drawn chainer).1 ≡ ok (repair ∷ [])
repair_made = repair_waits_example.0

chain_bounded_example :
    (0 + suc 0 ≤ 8)
    × ((found : ChainMeta) × (chain_meta py repair ≡ ok found)
        × (found.root ≡ "t1")
        × (found.depth ≡ 0 + suc 0))
chain_bounded_example =
    chain_bounded py default_chain_policy 0 task repair root_meta task-meta
      (next repair drawn chainer refl (inr repair_made) (same task))
