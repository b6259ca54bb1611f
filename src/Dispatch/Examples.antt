-- ===== src/Dispatch/Examples.antt =====
-- A concrete task for the theorems about scheduler/main.py and opencode-worker/main.py.
use hookclose.Prelude.{ℕ, suc, ◌+◌, ◌≤◌, ◌≡◌, refl, true, false, [], arith, insert}
use hookclose.Tasks.{default_task, Task}
use hookclose.Tasks.Executor.{Execution, failed, execute_task}
use hookclose.Dispatch.{Message, System, Backends, message_of, dispatch}
use hookclose.Dispatch.Retries.{Waits, GaveUp, IsStuck, rounds}
use hookclose.Dispatch.Failing.{sent, failing_task_runs, failure_loses_task}

abbrev task : Task
task = record (default_task (record { id = "t1"; created_at = "12:00"; updated_at = "12:00" })) {
  task_type = "fail";
}

abbrev system : System
system = record { table = insert "t1" task []; queues = []; published = [] }

abbrev migrated : Backends
migrated = record {
  decodes_json = true;
  has_error_column = true;
  lpush_raises = λ message. false;
  publish_raises = λ notice. false;
}

abbrev shipped : Backends
shipped = record migrated { decodes_json = false; has_error_column = false }

abbrev execute : Message → Execution
execute message = execute_task (λ json. "?") (λ json. true) message.task_type message.payload

execute-fails : execute (message_of (sent task)) ≡ failed "simulated failure for task type 'fail'"
unfolding execute_task
execute-fails = refl

failing_task_runs_example :
    let s' = (dispatch migrated "12:01" task system).1 in
    ((k : ℕ)
      → k ≤ 1
      → Waits (message_of (sent task)) (1 + k) 3 (rounds migrated "12:01" execute k s'))
    × GaveUp
        (message_of (sent task))
        3
        "simulated failure for task type 'fail'"
        (rounds migrated "12:01" execute (suc 1) s')
failing_task_runs_example =
    failing_task_runs migrated "12:01" execute task "simulated failure for task type 'fail'" system
      1 refl refl refl execute-fails refl refl refl (omega arith)

failure_loses_task_example :
    IsStuck
      (message_of (sent task))
      (rounds shipped "12:01" execute (suc 5) (dispatch shipped "12:01" task system).1)
failure_loses_task_example =
    failure_loses_task shipped "12:01" execute task "simulated failure for task type 'fail'" system
      5 refl refl execute-fails refl refl refl
