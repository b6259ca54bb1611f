-- ===== src/Workers/Openclaw/Report.antt =====
-- What the report of a task says, and how often the task was tried.
use hookclose.Prelude.{
  ℕ, String, ◌≡◌, refl, ap, ◌⊎◌, inl, inr, Bool, true, false, not, Option, none, some, List, [],
  ◌∷◌, ◌++◌, if◌then◌else◌, is_some, All, Bool-cases, Option-cases,
}
use hookclose.Tasks.{Json, get_field, Task}
use hookclose.Workers.Contracts.{FilePatch, StepResult, ExecutionReport}
use hookclose.Workers.Workspace.{Workspace}
use hookclose.Workers.Openclaw.{
  Platform, Worker, list_under, patches_of, generate, create_workspace, run_step, run_steps,
}
use hookclose.Workers.Openclaw.Attempts.{
  after_generation, error_of, conclude_attempt, report_steps, timeout_of, run_all, write_all,
  with_patches, execute_once,
}

abbrev pub Succeeds : StepResult → Type 0
Succeeds step = step.success ≡ true

-- Either every step succeeded and none is named as failed, or the last one failed and is named, and all
-- before it succeeded.
abbrev pub IsFailFast : List StepResult → Option String → Type 0
IsFailFast steps failed_step =
    (All Succeeds steps × (failed_step ≡ none))
    ⊎ ((before : List StepResult) × (last : StepResult) × (steps ≡ before ++ last ∷ [])
        × All Succeeds before
        × (last.success ≡ false)
        × (failed_step ≡ some last.name))

All-snoc :
    (steps : List StepResult) (step : StepResult)
    → All Succeeds steps
    → Succeeds step
    → All Succeeds (steps ++ step ∷ [])
All-snoc [] step all good = (good, tt)
All-snoc (first ∷ rest) step all good = (all.0, All-snoc rest step all.1 good)

-- A property of the outcome, unless an exception came.
abbrev StepsDone : Option (List StepResult × Option String) → Type 0
StepsDone none = Unit
StepsDone (some (steps, failed_step)) = IsFailFast steps failed_step

abbrev pub Reported : (ExecutionReport → Type 0) → Option ExecutionReport → Type 0
Reported P none = Unit
Reported P (some report) = P report

if-StepsDone :
    (b : Bool) (x y : Option (List StepResult × Option String) × Worker)
    → (b ≡ true → StepsDone x.0)
    → (b ≡ false → StepsDone y.0)
    → StepsDone (if b then x else y).0
if-StepsDone true x y good bad = good refl
if-StepsDone false x y good bad = bad refl

run_steps-StepsDone :
    (os : Platform) (task : Task) (ws : Workspace) (timeout : ℕ) (specs : List Json)
    (steps : List StepResult) (m : Worker)
    → All Succeeds steps
    → StepsDone (run_steps os task ws timeout specs steps m).0
unfolding run_steps
run_steps-StepsDone os task ws timeout [] steps m all = inl (all, refl)
run_steps-StepsDone os task ws timeout (spec ∷ rest) steps m all =
    let m' = (run_step os task ws timeout spec m).1 in
    elim (Option-cases (run_step os task ws timeout spec m).0) [
      | inl raised ↦ rw (raised, StepsDone) tt
      | inr (step, ran) ↦
          rw (ran, StepsDone)
            (if-StepsDone step.success (run_steps os task ws timeout rest (steps ++ step ∷ []) m')
              (some (steps ++ step ∷ [], some step.name), m')
              (λ good.
                run_steps-StepsDone os task ws timeout rest (steps ++ step ∷ []) m'
                  (All-snoc steps step all good))
              (λ bad. inr (steps, step, refl, all, bad, refl)))
    ]

-- A report of one attempt.
pub record IsProper (os : Platform) (task : Task) (attempt : ℕ) (report : ExecutionReport)
    : Type 0 where
  pub about : report.task_id ≡ task.id
  pub numbered : report.attempts ≡ attempt
  pub fail_fast : IsFailFast report.steps report.failed_step
  pub truthful : report.success ≡ not (is_some report.failed_step)
  pub told : report.error ≡ error_of os report.failed_step

report_steps-IsProper :
    (os : Platform) (task : Task) (branch : String) (attempt : ℕ)
    (outcome : Option (List StepResult × Option String)) (m : Worker)
    → StepsDone outcome
    → Reported (IsProper os task attempt) (report_steps os task branch attempt (outcome, m)).0
unfolding conclude_attempt
report_steps-IsProper os task branch attempt none m done = tt
report_steps-IsProper os task branch attempt (some (steps, failed_step)) m done = record {
  about = refl;
  numbered = refl;
  fail_fast = done;
  truthful = refl;
  told = refl;
}

run_all-StepsDone :
    (os : Platform) (task : Task) (ws : Workspace) (timeout : Option ℕ) (steps : List StepResult)
    (failed_step : Option String) (m : Worker)
    → IsFailFast steps failed_step
    → StepsDone (run_all os task ws timeout steps failed_step m).0
run_all-StepsDone os task ws none steps failed_step m before = tt
run_all-StepsDone os task ws (some timeout) steps (some failed_step) m before = before
run_all-StepsDone os task ws (some timeout) steps none m (inl (all, e)) =
    run_steps-StepsDone os task ws timeout (list_under (get_field "steps" task.payload)) steps m all
run_all-StepsDone os task ws (some timeout) steps none m (inr (before, last, s, all, bad, named)) =
    cc

after_generation-IsFailFast :
    (step : Option StepResult) → IsFailFast (after_generation step).0 (after_generation step).1
after_generation-IsFailFast none = inl (tt, refl)
after_generation-IsFailFast (some step) = elim (Bool-cases step.success) [
  | inl good ↦ inl ((good, tt), ap (λ (b : Bool). if b then none else some step.name) good)
  | inr bad ↦
      inr ([], step, refl, tt, bad, ap (λ (b : Bool). if b then none else some step.name) bad)
]

if-Reported :
    (P : ExecutionReport → Type 0) (done : Bool) (x : Option ExecutionReport × Worker) (m : Worker)
    → Reported P x.0
    → Reported P (if done then x else (none, m)).0
if-Reported P true x m r = r
if-Reported P false x m r = tt

with_patches-IsProper :
    (os : Platform) (task : Task) (ws : Workspace) (attempt : ℕ) (patches : Option (List FilePatch))
    (m : Worker)
    → Reported (IsProper os task attempt) (with_patches os task ws attempt patches m).0
with_patches-IsProper os task ws attempt none m = tt
with_patches-IsProper os task ws attempt (some static_patches) m =
    let ((patches, gen_step), m') = generate os task m in
    let (steps, failed_step) = after_generation gen_step in
    let (done, m'') = write_all os ws (patches ++ static_patches) failed_step m' in
    let outcome =
      run_all os task ws (timeout_of os (get_field "timeout" task.payload)) steps failed_step m'' in
    if-Reported (IsProper os task attempt) done (report_steps os task ws.branch attempt outcome) m''
      (report_steps-IsProper os task ws.branch attempt outcome.0 outcome.1 (
        run_all-StepsDone os task ws (timeout_of os (get_field "timeout" task.payload)) steps
          failed_step m'' (after_generation-IsFailFast gen_step)))

pub execute_once-IsProper :
    (os : Platform) (task : Task) (attempt : ℕ) (m : Worker)
    → Reported (IsProper os task attempt) (execute_once os task attempt m).0
unfolding execute_once
execute_once-IsProper os task attempt m =
    with_patches-IsProper os task (create_workspace os task.id m).0 attempt
      (patches_of (list_under (get_field "patches" task.payload))) _
