-- ===== src/Workers/Openclaw/BaseDir.antt =====
-- The worker's base directory, and with it the workspace of a task, never changes.
use hookclose.Prelude.{
  ℕ, zero, suc, max, String, format, ◌≡◌, refl, ◌∙◌, true, false, Bool, Option, none, some, List,
  [], ◌∷◌, ◌++◌, ◌||◌, arith, inl, inr, Option-cases, Result, ok, err, if◌then◌else◌, is_empty,
}
use hookclose.Tasks.{Json, null, boolean, number, text, array, object, get_field, Task}
use hookclose.Workers.Contracts.{
  FilePatch, StepResult, CommandResult, ExecutionReport, GenerationResult,
}
use hookclose.Workers.Workspace.{Workspace}
use hookclose.Workers.Openclaw.{
  Platform, Worker, list_under, patches_of, generated, generate_for, generate, create_workspace,
  named_step, run_command, command_of, run_step, run_steps,
}
use hookclose.Workers.Openclaw.Attempts.{
  after_generation, persist_report, conclude_attempt, report_steps, timeout_of, run_all, write_all,
  with_patches, execute_once, schedule_retry, attempt_from, execute,
}

-- The directory of a task.
abbrev pub root_of : String → Task → String
root_of base_dir task = format (base_dir ∷ "/" ∷ task.id ∷ [])

-- The worker after some step has the directory of this one.
abbrev Kept : Worker → Worker → Type 0
Kept m m' = m'.base_dir ≡ m.base_dir

if-Kept {ℓ} :
    {A : Type ℓ} (m : Worker) (b : Bool) (x y : A × Worker)
    → Kept m x.1
    → Kept m y.1
    → Kept m (if b then x else y).1
if-Kept m true x y p q = p
if-Kept m false x y p q = q

module _ (os : Platform) (task : Task) where
  pub create_workspace-root :
      (m : Worker) → (create_workspace os task.id m).0.root ≡ root_of m.base_dir task
  unfolding create_workspace
  create_workspace-root m = ground arith

  pub create_workspace-Kept : (m : Worker) → Kept m (create_workspace os task.id m).1
  unfolding create_workspace
  create_workspace-Kept m = ground arith

  generated-Kept :
      (answer : Result String GenerationResult) (m : Worker) → Kept m (generated os task answer m).1
  generated-Kept (err reason) m = refl
  generated-Kept (ok result) m =
      if-Kept m (result.degraded || is_empty result.patches) _ _ refl refl

  generate_for-Kept :
      (has : Bool) (wanted : Option Json) (m : Worker)
      → Kept m (generate_for os task has wanted m).1
  generate_for-Kept true (some (object spec)) m = generated-Kept _ _
  generate_for-Kept true (some null) m = refl
  generate_for-Kept true (some (boolean b)) m = refl
  generate_for-Kept true (some (number n)) m = refl
  generate_for-Kept true (some (text s)) m = refl
  generate_for-Kept true (some (array items)) m = refl
  generate_for-Kept true none m = refl
  generate_for-Kept false wanted m = refl

  pub generate-Kept : (m : Worker) → Kept m (generate os task m).1
  unfolding generate
  generate-Kept m = generate_for-Kept m.has_generator (get_field "generate" task.payload) m

  named_step-Kept :
      (name : Option Json) (command : List String) (result : CommandResult) (m : Worker)
      → Kept m (named_step os task name command result m).1
  named_step-Kept none command result m = refl
  named_step-Kept (some name) command result m = refl

  run_step-Kept :
      (ws : Workspace) (timeout : ℕ) (spec : Json) (m : Worker)
      → Kept m (run_step os task ws timeout spec m).1
  run_step-Kept ws timeout null m = refl
  run_step-Kept ws timeout (boolean b) m = refl
  run_step-Kept ws timeout (number n) m = refl
  run_step-Kept ws timeout (text s) m = refl
  run_step-Kept ws timeout (array items) m = refl
  run_step-Kept ws timeout (object spec) m = run (command_of os (get_field "command" spec))
    where
      run :
          (command : Option (List String))
          → Kept m (run_command os task ws timeout spec command m).1
      run none = refl
      run (some command) = named_step-Kept (get_field "name" spec) command _ _

  run_steps-Kept :
      (ws : Workspace) (timeout : ℕ) (specs : List Json) (steps : List StepResult) (m : Worker)
      → Kept m (run_steps os task ws timeout specs steps m).1
  unfolding run_steps
  run_steps-Kept ws timeout [] steps m = refl
  run_steps-Kept ws timeout (spec ∷ rest) steps m =
      let m' = (run_step os task ws timeout spec m).1 in
      let kept = run_step-Kept ws timeout spec m in
      elim (Option-cases (run_step os task ws timeout spec m).0) [
        | inl raised ↦ rw (raised, run_steps) kept
        | inr (step, ran) ↦
            rw (ran, run_steps)
              (if-Kept m step.success (run_steps os task ws timeout rest (steps ++ step ∷ []) m')
                (some (steps ++ step ∷ [], some step.name), m')
                (run_steps-Kept ws timeout rest (steps ++ step ∷ []) m' ∙ kept) kept)
      ]

  run_all-Kept :
      (ws : Workspace) (timeout : Option ℕ) (steps : List StepResult) (failed_step : Option String)
      (m : Worker)
      → Kept m (run_all os task ws timeout steps failed_step m).1
  run_all-Kept ws none steps failed_step m = refl
  run_all-Kept ws (some timeout) steps (some failed_step) m = refl
  run_all-Kept ws (some timeout) steps none m =
      run_steps-Kept ws timeout (list_under (get_field "steps" task.payload)) steps m

  report_steps-Kept :
      (branch : String) (attempt : ℕ) (outcome : Option (List StepResult × Option String) × Worker)
      → Kept outcome.1 (report_steps os task branch attempt outcome).1
  unfolding conclude_attempt persist_report
  report_steps-Kept branch attempt (none, m) = refl
  report_steps-Kept branch attempt (some (steps, none), m) = refl
  report_steps-Kept branch attempt (some (steps, some failed_step), m) = refl

  write_all-Kept :
      (ws : Workspace) (patches : List FilePatch) (failed_step : Option String) (m : Worker)
      → Kept m (write_all os ws patches failed_step m).1
  write_all-Kept ws patches none m = refl
  write_all-Kept ws patches (some failed_step) m = refl

  with_patches-Kept :
      (ws : Workspace) (attempt : ℕ) (patches : Option (List FilePatch)) (m : Worker)
      → Kept m (with_patches os task ws attempt patches m).1
  with_patches-Kept ws attempt none m = refl
  with_patches-Kept ws attempt (some static_patches) m =
      let ((patches, gen_step), m') = generate os task m in
      let (steps, failed_step) = after_generation gen_step in
      let (done, m'') = write_all os ws (patches ++ static_patches) failed_step m' in
      let outcome =
        run_all os task ws (timeout_of os (get_field "timeout" task.payload)) steps failed_step
          m'' in
      let written =
        write_all-Kept ws (patches ++ static_patches) failed_step m' ∙ generate-Kept m in
      if-Kept m done (report_steps os task ws.branch attempt outcome) (none, m'')
        (report_steps-Kept ws.branch attempt outcome
          ∙ run_all-Kept ws (timeout_of os (get_field "timeout" task.payload)) steps failed_step m''
          ∙ written)
        written

  pub execute_once-Kept : (attempt : ℕ) (m : Worker) → Kept m (execute_once os task attempt m).1
  unfolding execute_once
  execute_once-Kept attempt m =
      with_patches-Kept (create_workspace os task.id m).0 attempt
        (patches_of (list_under (get_field "patches" task.payload))) _
      ∙ create_workspace-Kept m

  pub schedule_retry-Kept :
      (attempt limit : ℕ) (report : ExecutionReport) (m : Worker)
      → Kept m (schedule_retry os task attempt limit report m)
  schedule_retry-Kept attempt limit report m = ground arith

  attempt_from-Kept :
      (n attempt limit : ℕ) (last : Option ExecutionReport) (m : Worker)
      → Kept m (attempt_from os n attempt task last limit m).1
  unfolding attempt_from
  attempt_from-Kept zero attempt limit last m = refl
  attempt_from-Kept (suc n) attempt limit last m =
      let m' = (execute_once os task attempt m).1 in
      let kept = execute_once-Kept attempt m in
      elim (Option-cases (execute_once os task attempt m).0) [
        | inl raised ↦ rw (raised, attempt_from) kept
        | inr (report, ran) ↦
            let again = schedule_retry os task attempt limit report m' in
            rw (ran, attempt_from)
              (if-Kept m report.success (some report, m')
                (attempt_from os n (suc attempt) task (some report) limit again) kept
                (attempt_from-Kept n (suc attempt) limit (some report) again
                  ∙ schedule_retry-Kept attempt limit report m'
                  ∙ kept))
      ]

  pub execute-Kept : (m : Worker) → (execute os task m).1.base_dir ≡ m.base_dir
  unfolding execute
  execute-Kept m = attempt_from-Kept (max 1 task.max_attempts) 1 (max 1 task.max_attempts) none m
