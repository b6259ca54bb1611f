-- ===== src/Dispatch/Failing.antt =====
-- What becomes of a task that fails every time it runs.
use hookclose.Prelude.{
  ℕ, zero, suc, ◌+◌, ◌≤◌, ◌<◌, String, ◌≡◌, refl, sym, ap, subst, ◌∙◌, true, false, ◌&&◌, none,
  some, [], ◌∷◌, arith, lookup, eq_refl, lookup-insert_self, or_default, Bool-cases, inl, inr,
}
use hookclose.Tasks.{TaskStatus, Task}
use hookclose.Tasks.Repository.{
  provider_or, update_status, lookup-update_found, update_row, update_found,
}
use hookclose.Tasks.Executor.{Execution, failed}
use hookclose.Dispatch.{
  Message, System, queue, lpush, task_scheduled, Backends, message_of, queue_key, send, dispatch,
  consume_from, consume,
}
use hookclose.Dispatch.Retries.{
  Waits, GaveUp, IsStuck, retry-Waits, give_up-GaveUp, failure-IsStuck, rounds,
}

-- The task as the scheduler sends it.
abbrev pub sent : Task → Task
sent task = record task { provider = provider_or task.provider }

queue-lpush :
    (key : String) (message : Message) (s : System)
    → queue key (lpush key message s) ≡ message ∷ queue key s
queue-lpush key message s =
    ap (λ found. or_default found []) (lookup-insert_self key (message ∷ queue key s) s.queues)

-- What the scheduler leaves when Redis takes the task.
record IsSent (s s' : System) (task : Task) : Type 0 where
  same_table : s'.table ≡ s.table
  there : queue (queue_key task.provider) s' ≡ message_of task ∷ queue (queue_key task.provider) s

send-IsSent :
    (os : Backends) (now : String) (task : Task) (s : System)
    → os.lpush_raises (message_of task) ≡ false
    → IsSent s (send os now task s).1 task
send-IsSent os now task s up =
    let arrived = queue-lpush (queue_key task.provider) (message_of task) s in
    elim (Bool-cases (os.publish_raises (task_scheduled task.id task.provider))) [
      | inl quiet ↦ rw (up, send) (rw (quiet, send) (record { same_table = refl; there = arrived }))
      | inr told ↦ rw (up, send) (rw (told, send) (record { same_table = refl; there = arrived }))
    ]

dispatch-Waits :
    (os : Backends) (now : String) (task : Task) (s : System)
    → lookup task.id s.table ≡ some task
    → task.provider ≡ "opencode"
    → queue "tasks:opencode" s ≡ []
    → os.lpush_raises (message_of (sent task)) ≡ false
    → Waits (message_of (sent task)) 1 task.max_attempts (dispatch os now task s).1
unfolding dispatch update_status
dispatch-Waits os now task s at provider empty up =
    let change = update_row now TaskStatus.scheduled none none (some 1) in
    let scheduled : System = record s {
      table = update_found task.id change (lookup task.id s.table) s.table;
    } in
    let done = send-IsSent os now (sent task) scheduled up in
    let stored : lookup task.id scheduled.table ≡ some (change task) =
      ground (arith, lookup-update_found task.id task.id change task s.table at, eq_refl task.id) in
    let its_key = ap (λ p. queue_key (provider_or p)) provider in
    record {
      row = change task;
      stored = ap (lookup task.id) done.same_table ∙ stored;
      tried = refl;
      allowed = refl;
      queued =
          ap (λ key. queue key (send os now (sent task) scheduled).1) (sym its_key)
          ∙ done.there
          ∙ ap (λ key. message_of (sent task) ∷ queue key scheduled) its_key
          ∙ ap (λ q. message_of (sent task) ∷ q) empty;
    }

module _ (os : Backends) (now : String) (execute : Message → Execution) (message : Message)
    (error : String) (fails : execute message ≡ failed error) where
  rounds-Waits :
      (n attempts limit : ℕ) (s : System)
      → os.decodes_json ≡ true
      → os.has_error_column ≡ true
      → os.lpush_raises message ≡ false
      → attempts + n < limit
      → Waits message attempts limit s
      → Waits message (attempts + n) limit (rounds os now execute n s)
  unfolding rounds
  rounds-Waits zero attempts limit s decodes column up below w =
      subst (λ k. Waits message k limit s) (omega arith) w
  rounds-Waits (suc n) attempts limit s decodes column up below w =
      let w' =
        retry-Waits os now message error execute fails attempts limit s decodes column up
          (omega arith) w in
      subst (λ k. Waits message k limit (rounds os now execute n (consume os now execute s)))
        (omega arith)
        (rounds-Waits n (attempts + 1) limit (consume os now execute s) decodes column up
          (omega arith) w')

  rounds-GaveUp :
      (n attempts limit : ℕ) (s : System)
      → os.decodes_json ≡ true
      → os.has_error_column ≡ true
      → os.lpush_raises message ≡ false
      → attempts + n + 1 ≡ limit
      → Waits message attempts limit s
      → GaveUp message limit error (rounds os now execute (suc n) s)
  unfolding rounds
  rounds-GaveUp zero attempts limit s decodes column up last w =
      subst (λ k. GaveUp message k error (consume os now execute s)) (omega (arith, last))
        (give_up-GaveUp os now message error execute fails attempts limit s decodes column
          (omega arith) w)
  rounds-GaveUp (suc n) attempts limit s decodes column up last w =
      rounds-GaveUp n (attempts + 1) limit (consume os now execute s) decodes column up
        (omega arith)
        (retry-Waits os now message error execute fails attempts limit s decodes column up
          (omega arith) w)

  -- An empty queue leaves the system as it is.
  rounds-IsStuck :
      (n : ℕ) (s : System) → IsStuck message s → IsStuck message (rounds os now execute n s)
  unfolding rounds consume
  rounds-IsStuck zero s stuck = stuck
  rounds-IsStuck (suc n) s stuck =
      let idle = ap (λ q. consume_from os now execute q s) stuck.drained in
      subst (λ s'. IsStuck message (rounds os now execute n s')) (sym idle)
        (rounds-IsStuck n s stuck)

-- On a pool that decodes the JSON columns, a schema with a column `error`, and with Redis up, a stored task of at least two attempts that is
-- dispatched to the empty queue of the worker and fails every time is run once less than
-- `max_attempts`: before each of these runs it waits in the queue, and after the last it has failed
-- for good, counts `max_attempts` attempts, tells the error, and is in no queue.
pub failing_task_runs :
    (os : Backends) (now : String) (execute : Message → Execution) (task : Task) (error : String)
    (s : System) (n : ℕ)
    → os.decodes_json ≡ true
    → os.has_error_column ≡ true
    → os.lpush_raises (message_of (sent task)) ≡ false
    → execute (message_of (sent task)) ≡ failed error
    → lookup task.id s.table ≡ some task
    → task.provider ≡ "opencode"
    → queue "tasks:opencode" s ≡ []
    → n + 2 ≡ task.max_attempts
    → let s' = (dispatch os now task s).1 in
      ((k : ℕ)
        → k ≤ n
        → Waits (message_of (sent task)) (1 + k) task.max_attempts (rounds os now execute k s'))
      × GaveUp (message_of (sent task)) task.max_attempts error (rounds os now execute (suc n) s')
failing_task_runs os now execute task error s n decodes column up fails at provider empty total =
    let s' = (dispatch os now task s).1 in
    let w = dispatch-Waits os now task s at provider empty up in
    (
      λ k below.
          rounds-Waits os now execute (message_of (sent task)) error fails k 1 task.max_attempts s'
            decodes column up (omega arith) w,
      rounds-GaveUp os now execute (message_of (sent task)) error fails n 1 task.max_attempts s'
          decodes column up (omega arith) w,
    )

-- On a schema without a column `error`, which is the one that the repository creates, and also on any
-- schema when the pool does not decode the JSON columns, and with Redis up, a stored task that is
-- dispatched to the empty queue of the worker and fails is lost with its first run: however many
-- rounds follow, its row says that it is running, and the queue stays empty.
pub failure_loses_task :
    (os : Backends) (now : String) (execute : Message → Execution) (task : Task) (error : String)
    (s : System) (n : ℕ)
    → (os.has_error_column && os.decodes_json) ≡ false
    → os.lpush_raises (message_of (sent task)) ≡ false
    → execute (message_of (sent task)) ≡ failed error
    → lookup task.id s.table ≡ some task
    → task.provider ≡ "opencode"
    → queue "tasks:opencode" s ≡ []
    → IsStuck (message_of (sent task)) (rounds os now execute (suc n) (dispatch os now task s).1)
unfolding rounds
failure_loses_task os now execute task error s n column up fails at provider empty =
    let s' = (dispatch os now task s).1 in
    let w = dispatch-Waits os now task s at provider empty up in
    rounds-IsStuck os now execute (message_of (sent task)) error fails n (consume os now execute s')
      (failure-IsStuck os now (message_of (sent task)) error execute fails 1 task.max_attempts s'
        column w)
