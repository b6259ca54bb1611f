-- ===== src/Dispatch.antt =====
-- scheduler/main.py and opencode-worker/main.py: how a task gets from the table to a worker and back. A
-- step of the system is one round of a service's loop. The database and Redis are state here; Redis calls
-- take effect or raise, as the parameters say. Times in messages are left out.
pub mod Retries
pub mod Failing
pub mod Engine
mod Examples
use hookclose.Prelude.{
  ℕ, ◌+◌, String, format, Bool, true, false, Option, none, some, List, [], ◌∷◌, ◌++◌, if◌then◌else◌,
  or_default, Result, ok, err, Dict, lookup, insert, ltb,
}
use hookclose.Tasks.{Json, Fields, TaskStatus, Task}
use hookclose.Tasks.Repository.{
  TaskTable, DatabaseError, RowError, get, update_status, get_pending, provider_or,
}
use hookclose.Tasks.Executor.{Execution, returned, failed, raised}

-- What travels through a queue.
pub record Message : Type 0 where
  pub id : String
  pub task_type : String
  pub payload : Fields
  pub provider : String
  pub max_attempts : ℕ

-- What is published on `workflow:events`.
pub data Notice : Type 0 where
  task_scheduled : (task_id provider : String) → Notice
  task_failed : (task_id error : String) → Notice
  task_completed : (task_id : String) (result : Json) → Notice

pub record System : Type 0 where
  pub table : TaskTable
  pub queues : Dict (List Message)
  pub published : List Notice

abbrev pub queue : String → System → List Message
queue key s = or_default (lookup key s.queues) []

-- `lpush`: at the head, from which `blpop` takes.
abbrev pub lpush : String → Message → System → System
lpush key message s = record s { queues = insert key (message ∷ queue key s) s.queues }

abbrev pub publish : Notice → System → System
publish notice s = record s { published = s.published ++ notice ∷ [] }

-- What may raise, whether the table of tasks has a column `error`, and whether the pool decodes its JSON
-- columns.
pub record Backends : Type 0 where
  pub decodes_json : Bool
  pub has_error_column : Bool
  pub lpush_raises : Message → Bool
  pub publish_raises : Notice → Bool

abbrev pub message_of : Task → Message
message_of task = record {
  id = task.id;
  task_type = task.task_type;
  payload = task.payload;
  provider = task.provider;
  max_attempts = task.max_attempts;
}

abbrev pub queue_key : String → String
queue_key provider = format ("tasks:" ∷ provider ∷ [])

-- What follows a database call that returned; an exception leaves what stood before.
abbrev pub after_update : System → Result DatabaseError TaskTable → (System → System) → System
after_update s (err e) rest = s
after_update s (ok table) rest = rest (record s { table = table })

module _ (os : Backends) (now : String) where
  -- `lpush` and `publish` in `poll_pg`, and whether the body of the loop came to its end.
  abbrev pub send : Task → System → Bool × System
  send task s =
      let queued = lpush (queue_key task.provider) (message_of task) s in
      let notice = task_scheduled task.id task.provider in
      if os.lpush_raises (message_of task)
      then (false, s)
      else if os.publish_raises notice
      then (false, queued)
      else (true, publish notice queued)

  abbrev pub send_updated : Task → System → Result DatabaseError TaskTable → Bool × System
  send_updated task s (err e) = (false, s)
  send_updated task s (ok table) = send task (record s { table = table })

  -- The body of the `for` loop of `poll_pg`.
  unfoldable pub dispatch : Task → System → Bool × System
  dispatch task s =
      let task' = record task { provider = provider_or task.provider } in
      send_updated task' s (
        update_status os.has_error_column now task'.id TaskStatus.scheduled none none (some 1)
          s.table)

  -- An exception leaves the loop over the pending tasks.
  unfoldable pub dispatch_all : List Task → System → System
  dispatch_all [] s = s
  dispatch_all (task ∷ rest) s =
      let (done, s') = dispatch task s in
      let later = dispatch_all rest s' in if done then later else s'

  abbrev pub dispatch_found : Result RowError (List Task) → System → System
  dispatch_found (err e) s = s
  dispatch_found (ok pending) s = dispatch_all pending s

  -- One round of `poll_pg`.
  unfoldable pub poll_pg : (Task → Task → Bool) → System → System
  poll_pg earlier s = dispatch_found (get_pending os.decodes_json earlier 10 s.table) s

  -- `publish_event` of the worker, which swallows exceptions.
  abbrev pub publish_event : Notice → System → System
  publish_event notice s = if os.publish_raises notice then s else publish notice s

  abbrev pub requeue : Message → System → System
  requeue message s = if os.lpush_raises message then s else lpush "tasks:opencode" message s

  -- The branch of `consume` that gives the task up.
  abbrev pub fail_task : Message → String → ℕ → System → System
  fail_task message error attempts s =
      after_update s
        (update_status os.has_error_column now message.id TaskStatus.failed none (some error)
          (some attempts) s.table)
        (publish_event (task_failed message.id error))

  -- What that branch does once the row of the task is read.
  unfoldable pub after_error : Option Task → Message → String → System → System
  after_error none message error s = fail_task message error (0 + 1) s
  after_error (some task_db) message error s =
      let attempts = task_db.attempts + 1 in
      if ltb attempts task_db.max_attempts
      then after_update s
          (update_status os.has_error_column now message.id TaskStatus.retrying none (some error)
            (some attempts) s.table)
          (requeue message)
      else fail_task message error attempts s

  -- The branch of `consume` on an error; where reading the row raises, the loop goes on.
  abbrev pub on_error : Result RowError (Option Task) → Message → String → System → System
  on_error (err e) message error s = s
  on_error (ok task_db) message error s = after_error task_db message error s

  -- What `consume` does with the result of the execution. An error is never the empty text, which the
  -- source would take for none (`execute_task` gives no such error).
  unfoldable pub settle_task : Execution → Message → System → System
  unfolding after_error
  settle_task (returned result) message s =
      after_update s
        (update_status os.has_error_column now message.id TaskStatus.completed (some result) none
          (some 0) s.table)
        (publish_event (task_completed message.id result))
  settle_task (failed error) message s =
      on_error (get os.decodes_json message.id s.table) message error s
  settle_task raised message s = s

  -- The body of the loop of `consume`, with the queue that `blpop` found. The queue of the worker is
  -- `tasks:opencode` unless the environment says otherwise.
  unfoldable pub consume_from : (Message → Execution) → List Message → System → System
  unfolding settle_task
  consume_from execute [] s = s
  consume_from execute (message ∷ rest) s =
      let taken = record s { queues = insert "tasks:opencode" rest s.queues } in
      after_update taken
        (update_status os.has_error_column now message.id TaskStatus.running none none none
          taken.table)
        (settle_task (execute message) message)

  -- One round of `consume`.
  unfoldable pub consume : (Message → Execution) → System → System
  unfolding consume_from
  consume execute s = consume_from execute (queue "tasks:opencode" s) s
