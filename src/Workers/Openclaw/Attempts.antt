-- ===== src/Workers/Openclaw/Attempts.antt =====
-- `_execute_once` and `execute` of workers/openclaw.py.
use hookclose.Prelude.{
  ℕ, zero, suc, max, String, format, Bool, true, Option, none, some, List, [], ◌∷◌, ◌++◌,
  if◌then◌else◌, str_eq, Dict, ltb, is_some, not,
}
use hookclose.Events.{
  task_execution_started, task_execution_succeeded, task_execution_failed, task_retry_scheduled,
}
use hookclose.Tasks.{Json, get_field, Task}
use hookclose.Workers.Contracts.{FilePatch, StepResult, ExecutionReport, to_dict, put}
use hookclose.Workers.Workspace.{Workspace, write_patches}
use hookclose.Workers.Openclaw.{
  Platform, Worker, tell, list_under, patches_of, generate, create_workspace, run_steps,
}

-- The steps and the failed step that the generation phase leaves.
abbrev pub after_generation : Option StepResult → List StepResult × Option String
after_generation none = ([], none)
after_generation (some step) = (step ∷ [], if step.success then none else some step.name)

-- `value or other`: the empty text counts as nothing.
abbrev pub text_or : Option String → String → String
text_or none other = other
text_or (some value) other = if str_eq value "" then other else value

module _ (os : Platform) where
  abbrev pub put_report :
      Task → ℕ → String → Option (Dict String) → List String × Option (Dict String)
  put_report task attempt payload none = ([], none)
  put_report task attempt payload (some stored) =
      let (uri, stored') =
        put task.id (format ("report-attempt-" ∷ os.decimal attempt ∷ ".json" ∷ [])) payload
          stored in
      (uri ∷ [], some stored')

  -- `_persist_report`, in the in-memory store.
  unfoldable pub persist_report :
      Task → String → ℕ → List StepResult → Option String → Worker → List String × Worker
  persist_report task branch attempt steps failed_step m =
      let report : ExecutionReport = record {
        task_id = task.id;
        worker = "openclaw";
        branch = branch;
        success = not (is_some failed_step);
        attempts = attempt;
        steps = steps;
        artifacts = [];
        error = none;
        failed_step = failed_step;
      } in
      let (uris, stored) = put_report task attempt (os.dumps (to_dict report)) m.artifacts in
      (uris, record m { artifacts = stored })

  abbrev pub error_of : Option String → Option String
  error_of none = none
  error_of (some step) = some (format ("step " ∷ os.repr step ∷ " failed" ∷ []))

  abbrev pub announce : ExecutionReport → Worker → Worker
  announce report m =
      if report.success
      then tell
          (task_execution_succeeded report.task_id "openclaw" report.branch report.attempts
            report.artifacts)
          m
      else tell
          (task_execution_failed report.task_id "openclaw" (text_or report.failed_step "unknown")
            report.attempts (text_or report.error "execution failed"))
          m

  -- The end of `_execute_once`, once the steps are known.
  unfoldable pub conclude_attempt :
      Task → String → ℕ → List StepResult → Option String → Worker → ExecutionReport × Worker
  unfolding persist_report
  conclude_attempt task branch attempt steps failed_step m =
      let (uris, m') = persist_report task branch attempt steps failed_step m in
      let report : ExecutionReport = record {
        task_id = task.id;
        worker = "openclaw";
        branch = branch;
        success = not (is_some failed_step);
        attempts = attempt;
        steps = steps;
        artifacts = uris;
        error = error_of failed_step;
        failed_step = failed_step;
      } in
      (report, announce report m')

  abbrev pub report_steps :
      Task
      → String
      → ℕ
      → Option (List StepResult × Option String) × Worker
      → Option ExecutionReport × Worker
  report_steps task branch attempt (none, m) = (none, m)
  report_steps task branch attempt (some (steps, failed_step), m) =
      let (report, m') = conclude_attempt task branch attempt steps failed_step m in
      (some report, m')

  -- `float(task.payload.get("timeout", _DEFAULT_TIMEOUT))`
  abbrev pub timeout_of : Option Json → Option ℕ
  timeout_of none = some 120
  timeout_of (some json) = os.float_of json

  abbrev pub run_all :
      Task
      → Workspace
      → Option ℕ
      → List StepResult
      → Option String
      → Worker
      → Option (List StepResult × Option String) × Worker
  run_all task ws none steps failed_step m = (none, m)
  run_all task ws (some timeout) steps (some failed_step) m = (some (steps, some failed_step), m)
  run_all task ws (some timeout) steps none m =
      run_steps os task ws timeout (list_under (get_field "steps" task.payload)) steps m

  -- The patches are written unless the generation failed; `false` is an exception.
  abbrev pub write_all : Workspace → List FilePatch → Option String → Worker → Bool × Worker
  write_all ws patches (some failed_step) m = (true, m)
  write_all ws patches none m =
      let (done, files) = write_patches os.files ws.root patches in
      (done, record m { written = m.written ++ files })

  abbrev pub with_patches :
      Task → Workspace → ℕ → Option (List FilePatch) → Worker → Option ExecutionReport × Worker
  with_patches task ws attempt none m = (none, m)
  with_patches task ws attempt (some static_patches) m =
      let ((generated_patches, gen_step), m') = generate os task m in
      let (steps, failed_step) = after_generation gen_step in
      let (done, m'') = write_all ws (generated_patches ++ static_patches) failed_step m' in
      if done
      then report_steps task ws.branch attempt
          (run_all task ws (timeout_of (get_field "timeout" task.payload)) steps failed_step m'')
      else (none, m'')

  -- `_execute_once`
  unfoldable pub execute_once : Task → ℕ → Worker → Option ExecutionReport × Worker
  execute_once task attempt m =
      let (ws, m') = create_workspace os task.id m in
      with_patches task ws attempt (patches_of (list_under (get_field "patches" task.payload)))
        (tell (task_execution_started task.id task.task_type "openclaw" ws.branch attempt) m')

  abbrev pub schedule_retry : Task → ℕ → ℕ → ExecutionReport → Worker → Worker
  schedule_retry task attempt max_attempts report m =
      if ltb attempt max_attempts
      then tell
          (task_retry_scheduled task.id attempt max_attempts
            (text_or report.failed_step "execution failed"))
          m
      else m

  -- `for attempt in range(1, max_attempts + 1)` with so many rounds to go, and the last report.
  unfoldable pub attempt_from :
      ℕ → ℕ → Task → Option ExecutionReport → ℕ → Worker → Option ExecutionReport × Worker
  attempt_from zero attempt task last max_attempts m = (last, m)
  attempt_from (suc n) attempt task last max_attempts m =
      let (outcome, m') = execute_once task attempt m in
      elim outcome [
        | none ↦ (none, m')
        | some report ↦
            let later =
              attempt_from n (suc attempt) task (some report) max_attempts
                (schedule_retry task attempt max_attempts report m') in
            if report.success then (some report, m') else later
      ]

  -- `execute`; with no round at all the source raises a RuntimeError, which is `none` here as well.
  unfoldable pub execute : Task → Worker → Option ExecutionReport × Worker
  unfolding attempt_from
  execute task m = attempt_from (max 1 task.max_attempts) 1 task none (max 1 task.max_attempts) m
