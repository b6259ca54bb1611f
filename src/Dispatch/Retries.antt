-- ===== src/Dispatch/Retries.antt =====
-- How often a failing task runs, and where it ends.
use hookclose.Prelude.{
  ℕ, zero, suc, ◌+◌, ◌≤◌, ◌<◌, String, ◌≡◌, refl, ap, ◌∙◌, true, false, ◌&&◌, Option, none, some,
  [], ◌∷◌, arith, ltb, lookup, insert, eq_refl, lookup-insert_self, or_default, Bool-cases, inl,
  inr,
}
use hookclose.Tasks.{TaskStatus, Task}
use hookclose.Tasks.Repository.{
  get, found, provider_or, update_status, lookup-update_found, update_row, update_found,
}
use hookclose.Tasks.Executor.{Execution, failed}
use hookclose.Dispatch.{
  Message, System, queue, lpush, task_failed, Backends, publish_event, settle_task, on_error,
  after_error, consume_from, consume,
}

-- The task of a message waits in the worker's queue, alone, with its row in the table.
pub record Waits (message : Message) (attempts limit : ℕ) (s : System) : Type 0 where
  pub row : Task
  pub stored : lookup message.id s.table ≡ some row
  pub tried : row.attempts ≡ attempts
  pub allowed : row.max_attempts ≡ limit
  pub queued : queue "tasks:opencode" s ≡ message ∷ []

-- The task has failed for good, after so many attempts, and the queue is empty.
pub record GaveUp (message : Message) (attempts : ℕ) (error : String) (s : System) : Type 0 where
  pub row : Task
  pub stored : lookup message.id s.table ≡ some row
  pub status : row.status ≡ TaskStatus.failed
  pub tried : row.attempts ≡ attempts
  pub told : row.error ≡ some error
  pub drained : queue "tasks:opencode" s ≡ []

-- The task is lost: it says that it runs, but it is in no queue.
pub record IsStuck (message : Message) (s : System) : Type 0 where
  pub row : Task
  pub stored : lookup message.id s.table ≡ some row
  pub status : row.status ≡ TaskStatus.running
  pub drained : queue "tasks:opencode" s ≡ []

-- The task that is made of a row.
abbrev as_task : Task → Task
as_task row = record row { provider = provider_or row.provider }

module _ (os : Backends) (now : String) (message : Message) (error : String) where
  -- The table after an update of the row of the message.
  abbrev updated : TaskStatus → Option String → Option ℕ → System → System
  updated status told attempts s = record s {
    table =
        update_found message.id (update_row now status none told attempts)
          (lookup message.id s.table) s.table;
  }

  stored-updated :
      (status : TaskStatus) (told : Option String) (attempts : Option ℕ) (s : System) (row : Task)
      → lookup message.id s.table ≡ some row
      → lookup message.id (updated status told attempts s).table
        ≡ some (update_row now status none told attempts row)
  stored-updated status told attempts s row at =
      let change = update_row now status none told attempts in
      ground
        (arith, lookup-update_found message.id message.id change row s.table at, eq_refl message.id)

  after_error-retry :
      (row : Task) (s : System)
      → os.has_error_column ≡ true
      → os.lpush_raises message ≡ false
      → ltb (row.attempts + 1) row.max_attempts ≡ true
      → after_error os now (some row) message error s
        ≡ lpush "tasks:opencode" message
            (updated TaskStatus.retrying (some error) (some (row.attempts + 1)) s)
  unfolding after_error update_status
  after_error-retry row s column up below =
      rw (below, after_error) (rw (column, after_error) (rw (up, after_error) refl))

  after_error-give_up :
      (row : Task) (s : System)
      → os.has_error_column ≡ true
      → ltb (row.attempts + 1) row.max_attempts ≡ false
      → after_error os now (some row) message error s
        ≡ publish_event os now
            (task_failed message.id error)
            (updated TaskStatus.failed (some error) (some (row.attempts + 1)) s)
  unfolding after_error update_status
  after_error-give_up row s column spent = rw (spent, after_error) (rw (column, after_error) refl)

  -- Without a column `error` the update raises, and the system stays as it was.
  after_error-raises :
      (row : Task) (s : System)
      → os.has_error_column ≡ false
      → after_error os now (some row) message error s ≡ s
  unfolding after_error update_status
  after_error-raises row s column = elim (Bool-cases (ltb (row.attempts + 1) row.max_attempts)) [
    | inl below ↦ rw (below, after_error) (rw (column, after_error) refl)
    | inr spent ↦ rw (spent, after_error) (rw (column, after_error) refl)
  ]

  -- The system when the task of the message has been taken from the queue and set to running.
  abbrev taken : System → System
  taken s =
      updated TaskStatus.running none none
        (record s { queues = insert "tasks:opencode" [] s.queues })

  queue-taken : (s : System) → queue "tasks:opencode" (taken s) ≡ []
  queue-taken s =
      ap (λ found. or_default found []) (lookup-insert_self "tasks:opencode" [] s.queues)

  publish_event-GaveUp :
      (attempts : ℕ) (s : System)
      → GaveUp message attempts error s
      → GaveUp message attempts error (publish_event os now (task_failed message.id error) s)
  publish_event-GaveUp attempts s g =
      elim (Bool-cases (os.publish_raises (task_failed message.id error))) [
        | inl lost ↦ rw (lost, publish_event) g
        | inr sent ↦
            rw (sent, publish_event)
              (record {
                row = g.row;
                stored = g.stored;
                status = g.status;
                tried = g.tried;
                told = g.told;
                drained = g.drained;
              })
      ]

  consume-failed :
      (execute : Message → Execution) (s : System) (row : Task)
      → execute message ≡ failed error
      → lookup message.id s.table ≡ some row
      → queue "tasks:opencode" s ≡ message ∷ []
      → consume os now execute s
        ≡ on_error os now
            (found os.decodes_json (some (update_row now TaskStatus.running none none none row)))
            message
            error
            (taken s)
  unfolding consume update_status get
  consume-failed execute s row fails at waiting =
      let s0 : System = record s { queues = insert "tasks:opencode" [] s.queues } in
      ap (λ q. consume_from os now execute q s) waiting
      ∙ ap (λ e. settle_task os now e message (taken s)) fails
      ∙ ap (λ r. on_error os now (found os.decodes_json r) message error (taken s))
          (stored-updated TaskStatus.running none none s0 row at)

  -- When the row can be read.
  consume-read :
      (execute : Message → Execution) (s : System) (row : Task)
      → os.decodes_json ≡ true
      → execute message ≡ failed error
      → lookup message.id s.table ≡ some row
      → queue "tasks:opencode" s ≡ message ∷ []
      → consume os now execute s
        ≡ after_error os now
            (some (as_task (update_row now TaskStatus.running none none none row)))
            message
            error
            (taken s)
  consume-read execute s row decodes fails at waiting =
      consume-failed execute s row fails at waiting
      ∙ ap
          (λ b.
            on_error os now (found b (some (update_row now TaskStatus.running none none none row)))
              message error (taken s))
          decodes

  -- Without a column `error`, or when the row cannot be read, the system stays as it was.
  on_error-raises :
      (execute : Message → Execution) (s : System) (row : Task)
      → (os.has_error_column && os.decodes_json) ≡ false
      → execute message ≡ failed error
      → lookup message.id s.table ≡ some row
      → queue "tasks:opencode" s ≡ message ∷ []
      → consume os now execute s ≡ taken s
  on_error-raises execute s row neither fails at waiting =
      let running = update_row now TaskStatus.running none none none row in
      elim (Bool-cases os.decodes_json) [
        | inl reads ↦
            consume-read execute s row reads fails at waiting
            ∙ after_error-raises (as_task running) (taken s) (ground arith)
        | inr raises ↦
            consume-failed execute s row fails at waiting
            ∙ ap (λ b. on_error os now (found b (some running)) message error (taken s)) raises
      ]

  module _ (execute : Message → Execution) (fails : execute message ≡ failed error) where
    pub retry-Waits :
        (attempts limit : ℕ) (s : System)
        → os.decodes_json ≡ true
        → os.has_error_column ≡ true
        → os.lpush_raises message ≡ false
        → attempts + 1 < limit
        → Waits message attempts limit s
        → Waits message (attempts + 1) limit (consume os now execute s)
    retry-Waits attempts limit s decodes column up below w =
        let running = update_row now TaskStatus.running none none none w.row in
        let s0 : System = record s { queues = insert "tasks:opencode" [] s.queues } in
        let at = stored-updated TaskStatus.running none none s0 w.row w.stored in
        let less : ltb (w.row.attempts + 1) w.row.max_attempts ≡ true =
          ground (arith, w.tried, w.allowed) in
        rw
          (consume-read execute s w.row decodes fails w.stored w.queued
            ∙ after_error-retry (as_task running) (taken s) column up less)
          (record {
            row =
                update_row now TaskStatus.retrying none (some error) (some (w.row.attempts + 1))
                  running;
            stored =
                stored-updated TaskStatus.retrying (some error) (some (w.row.attempts + 1))
                  (taken s) running at;
            tried = ap (λ (k : ℕ). k + 1) w.tried;
            allowed = w.allowed;
            queued =
                ap (λ found. or_default found [])
                  (lookup-insert_self "tasks:opencode" (message ∷ queue "tasks:opencode" (taken s))
                    (taken s).queues)
                ∙ ap (λ q. message ∷ q) (queue-taken s);
          })

    pub give_up-GaveUp :
        (attempts limit : ℕ) (s : System)
        → os.decodes_json ≡ true
        → os.has_error_column ≡ true
        → limit ≤ attempts + 1
        → Waits message attempts limit s
        → GaveUp message (attempts + 1) error (consume os now execute s)
    give_up-GaveUp attempts limit s decodes column spent w =
        let running = update_row now TaskStatus.running none none none w.row in
        let s0 : System = record s { queues = insert "tasks:opencode" [] s.queues } in
        let at = stored-updated TaskStatus.running none none s0 w.row w.stored in
        let no_more : ltb (w.row.attempts + 1) w.row.max_attempts ≡ false =
          ground (arith, w.tried, w.allowed) in
        rw
          (consume-read execute s w.row decodes fails w.stored w.queued
            ∙ after_error-give_up (as_task running) (taken s) column no_more)
          (publish_event-GaveUp (attempts + 1)
            (updated TaskStatus.failed (some error) (some (w.row.attempts + 1)) (taken s))
            (record {
              row =
                  update_row now TaskStatus.failed none (some error) (some (w.row.attempts + 1))
                    running;
              stored =
                  stored-updated TaskStatus.failed (some error) (some (w.row.attempts + 1))
                    (taken s) running at;
              status = refl;
              tried = ap (λ (k : ℕ). k + 1) w.tried;
              told = refl;
              drained = queue-taken s;
            }))

    pub failure-IsStuck :
        (attempts limit : ℕ) (s : System)
        → (os.has_error_column && os.decodes_json) ≡ false
        → Waits message attempts limit s
        → IsStuck message (consume os now execute s)
    failure-IsStuck attempts limit s column w =
        let running = update_row now TaskStatus.running none none none w.row in
        let s0 : System = record s { queues = insert "tasks:opencode" [] s.queues } in
        rw (on_error-raises execute s w.row column fails w.stored w.queued) (record {
          row = running;
          stored = stored-updated TaskStatus.running none none s0 w.row w.stored;
          status = refl;
          drained = queue-taken s;
        })

-- So many rounds of the worker.
unfoldable pub rounds : Backends → String → (Message → Execution) → ℕ → System → System
rounds os now execute zero s = s
rounds os now execute (suc n) s = rounds os now execute n (consume os now execute s)
