-- ===== src/Workers/Openclaw/Ungenerated.antt =====
-- A worker whose generator gives no files.
use hookclose.Prelude.{
  ℕ, zero, suc, ◌+◌, ◌-◌, max, String, ◌≡◌, refl, sym, ◌∙◌, subst, inl, inr, true, false, Option,
  none, some, List, [], ◌∷◌, arith, ok, is_some, Option-cases,
}
use hookclose.Events.{task_execution_started}
use hookclose.Tasks.{object, Fields, get_field, Task}
use hookclose.Workers.Contracts.{FilePatch, ExecutionReport, GenerationResult}
use hookclose.Workers.Workspace.{Workspace}
use hookclose.Workers.Openclaw.{
  Platform, Worker, tell, list_under, patches_of, failed_gen_step, text_of, generate,
  create_workspace,
}
use hookclose.Workers.Openclaw.Returns.{IsReadable}
use hookclose.Workers.Openclaw.Report.{Reported}
use hookclose.Workers.Openclaw.Retries.{IsFinal, execute-IsFinal}
use hookclose.Workers.Openclaw.Attempts.{
  persist_report, conclude_attempt, report_steps, timeout_of, run_all, with_patches, execute_once,
  schedule_retry, attempt_from, execute,
}

-- Whatever it is asked, the generator gives a degraded result.
abbrev pub Degrades : Platform → Type 0
Degrades os =
    (n : ℕ) (goal context : String)
    → (result : GenerationResult) × (os.generate n goal context ≡ ok result)
      × (result.degraded ≡ true)

-- The report of an attempt that ended with its generation.
pub record IsUngenerated (os : Platform) (report : ExecutionReport) : Type 0 where
  pub failed : report.success ≡ false
  pub named : report.failed_step ≡ some "generate"
  pub only : report.steps ≡ failed_gen_step os "provider returned no usable files" ∷ []

-- What the attempt leaves of the worker.
abbrev pub Untouched : Worker → Worker → Type 0
Untouched m m' = (m'.has_generator ≡ m.has_generator) × (m'.written ≡ m.written)

abbrev Ended : Platform → Worker → Option ExecutionReport × Worker → Type 0
Ended os m end =
    ((report : ExecutionReport) × (end.0 ≡ some report) × IsUngenerated os report)
    × Untouched m end.1

Ended-later :
    (os : Platform) (m m' : Worker) (end : Option ExecutionReport × Worker)
    → Untouched m m'
    → Ended os m' end
    → Ended os m end
Ended-later os m m' end (g, w) (report, (g', w')) = (report, (g' ∙ g, w' ∙ w))

module _ (os : Platform) (task : Task) (spec : Fields) where
  generate_degraded :
      (m : Worker)
      → Degrades os
      → get_field "generate" task.payload ≡ some (object spec)
      → m.has_generator ≡ true
      → generate os task m ≡ (
        ([], some (failed_gen_step os "provider returned no usable files")),
        record m { generations = m.generations + 1 },
      )
  unfolding generate
  generate_degraded m degrades wanted g =
      let (result, answered, degraded) =
        degrades m.generations (text_of os (get_field "goal" spec))
          (text_of os (get_field "context" spec)) in
      rw (g, wanted) (rw (answered, degraded) refl)

  report-Ended :
      (ws : Workspace) (attempt : ℕ) (timeout : ℕ) (m m' : Worker)
      → Untouched m m'
      → Ended os m (
          report_steps os task ws.branch attempt (
            run_all os task ws
              (some timeout)
              (failed_gen_step os "provider returned no usable files" ∷ [])
              (some "generate")
              m'))
  unfolding conclude_attempt persist_report
  report-Ended ws attempt timeout m m' kept =
      ((_, refl, record { failed = refl; named = refl; only = refl }), kept)

  with_patches-Ended :
      (ws : Workspace) (attempt timeout : ℕ) (static_patches : List FilePatch) (m : Worker)
      → Degrades os
      → get_field "generate" task.payload ≡ some (object spec)
      → m.has_generator ≡ true
      → timeout_of os (get_field "timeout" task.payload) ≡ some timeout
      → Ended os m (with_patches os task ws attempt (some static_patches) m)
  with_patches-Ended ws attempt timeout static_patches m degrades wanted g t =
      rw (generate_degraded m degrades wanted g, t)
        (report-Ended ws attempt timeout m (record m { generations = m.generations + 1 })
          (refl, refl))

  create_workspace-Untouched : (m : Worker) → Untouched m (create_workspace os task.id m).1
  unfolding create_workspace
  create_workspace-Untouched m = ground arith

  execute_once-Ended :
      (attempt : ℕ) (m : Worker)
      → Degrades os
      → get_field "generate" task.payload ≡ some (object spec)
      → m.has_generator ≡ true
      → is_some (patches_of (list_under (get_field "patches" task.payload))) ≡ true
      → is_some (timeout_of os (get_field "timeout" task.payload)) ≡ true
      → Ended os m (execute_once os task attempt m)
  unfolding execute_once
  execute_once-Ended attempt m degrades wanted g p t =
      elim (Option-cases (patches_of (list_under (get_field "patches" task.payload)))) [
        | inl gone ↦ ground arith
        | inr (patches, read) ↦
            elim (Option-cases (timeout_of os (get_field "timeout" task.payload))) [
              | inl gone ↦ ground arith
              | inr (timeout, until) ↦
                  let (ws, m') = create_workspace os task.id m in
                  let kept = create_workspace-Untouched m in
                  let m'' : Worker =
                    tell
                      (task_execution_started task.id task.task_type "openclaw" ws.branch attempt)
                      m' in
                  rw read (
                    Ended-later os m m'' (with_patches os task ws attempt (some patches) m'') kept (
                      with_patches-Ended ws attempt timeout patches m'' degrades wanted (kept.0 ∙ g)
                        until))
            ]
      ]

  -- A round whose attempt failed.
  attempt_from-failed :
      (n attempt limit : ℕ) (last : Option ExecutionReport) (m : Worker) (report : ExecutionReport)
      → (execute_once os task attempt m).0 ≡ some report
      → report.success ≡ false
      → attempt_from os (suc n) attempt task last limit m
        ≡ attempt_from os n
            (suc attempt)
            task
            (some report)
            limit
            (schedule_retry os task attempt limit report (execute_once os task attempt m).1)
  unfolding attempt_from
  attempt_from-failed n attempt limit last m report came failed =
      rw (came, attempt_from) (rw failed refl)

  retry-Untouched :
      (attempt limit : ℕ) (report : ExecutionReport) (m : Worker)
      → Untouched m (schedule_retry os task attempt limit report m)
  retry-Untouched attempt limit report m = ground arith

  module _ (degrades : Degrades os)
      (wanted : get_field "generate" task.payload ≡ some (object spec))
      (p : is_some (patches_of (list_under (get_field "patches" task.payload))) ≡ true)
      (t : is_some (timeout_of os (get_field "timeout" task.payload)) ≡ true) where
    -- The first of the rounds to go.
    round_fails :
        (n attempt limit : ℕ) (last : Option ExecutionReport) (m start : Worker)
        → start.has_generator ≡ true
        → Untouched start m
        → (report : ExecutionReport) × (m'' : Worker) × (attempt_from os
              (suc n)
              attempt
              task
              last
              limit
              m
            ≡ attempt_from os n (suc attempt) task (some report) limit m'')
          × IsUngenerated os report
          × Untouched start m''
    round_fails n attempt limit last m start g kept =
        let ((report, came, failed), later) =
          execute_once-Ended attempt m degrades wanted (kept.0 ∙ g) p t in
        let m' = (execute_once os task attempt m).1 in
        let m'' = schedule_retry os task attempt limit report m' in
        let kept' = retry-Untouched attempt limit report m' in
        (
          report,
          m'',
          attempt_from-failed n attempt limit last m report came failed.failed,
          failed,
          (kept'.0 ∙ later.0 ∙ kept.0, kept'.1 ∙ later.1 ∙ kept.1),
        )

    -- At least one round, and all after it.
    rounds-Ended :
        (n attempt limit : ℕ) (last : Option ExecutionReport) (m start : Worker)
        → start.has_generator ≡ true
        → Untouched start m
        → Ended os start (attempt_from os (suc n) attempt task last limit m)
    rounds-Ended zero attempt limit last m start g kept =
        let (report, m'', e, failed, whole) = round_fails zero attempt limit last m start g kept in
        rw e (unfold attempt_from in ((report, refl, failed), whole))
    rounds-Ended (suc k) attempt limit last m start g kept =
        let (report, m'', e, failed, whole) =
          round_fails (suc k) attempt limit last m start g kept in
        rw e (rounds-Ended k (suc attempt) limit (some report) m'' start g whole)

    execute-Ended : (m : Worker) → m.has_generator ≡ true → Ended os m (execute os task m)
    unfolding execute
    execute-Ended m g =
        let limit = max 1 task.max_attempts in
        let e : limit ≡ suc (limit - 1) = omega arith in
        subst (λ n. Ended os m (attempt_from os n 1 task none limit m)) (sym e)
          (rounds-Ended (limit - 1) 1 limit none m m g (refl, refl))

-- A task whose payload asks for a generation, on a worker whose generator always gives a degraded
-- result, always fails when the payload's patches and timeout can be read: `execute` returns the report
-- of the last attempt that is allowed, a failure at the step `generate` with no other step, and writes
-- no file.
pub degraded_tasks_fail :
    (os : Platform) (task : Task) (spec : Fields) (m : Worker)
    → Degrades os
    → get_field "generate" task.payload ≡ some (object spec)
    → m.has_generator ≡ true
    → IsReadable os task
    → (report : ExecutionReport) × ((execute os task m).0 ≡ some report)
      × IsUngenerated os report
      × (report.attempts ≡ max 1 task.max_attempts)
      × ((execute os task m).1.written ≡ m.written)
degraded_tasks_fail os task spec m degrades wanted g r =
    let ((report, came, failed), (_, written)) =
      execute-Ended os task spec degrades wanted r.patches r.timeout m g in
    let final : Reported (IsFinal os task (max 1 task.max_attempts)) (some report) =
      rw came at (execute-IsFinal os task m) in
    (report, came, failed, final.exhausted failed.failed, written)
