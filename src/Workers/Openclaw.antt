-- ===== src/Workers/Openclaw.antt =====
-- workers/openclaw.py: the execution of one task, with bounded retries. A result of `none` is an exception
-- that leaves `execute`. The runner, the generator, the file system and Python's conversions are
-- parameters; the runner does not raise, as its contract says.
pub mod Attempts
pub mod Report
pub mod Retries
pub mod Returns
mod BaseDir
pub mod Draining
pub mod Ungenerated
pub mod Examples
use hookclose.Prelude.{
  ℕ, zero, suc, ◌+◌, max, String, format, Bool, true, false, ◌||◌, Option, none, some, List, [],
  ◌∷◌, ◌++◌, map, length, if◌then◌else◌, or_default, Dict, insert, is_empty, ltb, is_some, not,
  Result, ok, err,
}
use hookclose.Events.{
  DomainEvent, EventBus, emit, task_execution_started, task_code_generated, task_step_completed,
  task_execution_succeeded, task_execution_failed, task_retry_scheduled,
}
use hookclose.Tasks.{Json, text, array, object, Items, no_items, item, Fields, get_field, Task}
use hookclose.Workers.Contracts.{
  CommandResult, command_success, FilePatch, StepResult, ExecutionReport, GenerationResult,
}
use hookclose.Workers.Workspace.{FileSystem, Workspace, Written, write_patches, branch_name}

-- What a worker is built on. The runner and the generator answer anew at each call, so their answers
-- depend on how often they were called.
pub record Platform : Type 0 where
  pub run : ℕ → List String → String → ℕ → CommandResult  -- call, command, cwd, timeout
  pub generate : ℕ → String → String → Result String GenerationResult  -- `err` is NoProviderAvailable
  pub files : FileSystem
  pub str_of : Json → String
  pub strings_of : Json → Option (List String)  -- `tuple(str(c) for c in command)`
  pub float_of : Json → Option ℕ
  pub tail : String → String  -- `s[-600:]`
  pub head : String → String  -- `s[:600]`
  pub dumps : Fields → String
  pub repr : String → String
  pub decimal : ℕ → String

pub record Worker : Type 0 where
  pub base_dir : String
  pub has_generator : Bool
  pub bus : EventBus
  pub artifacts : Option (Dict String)  -- an `InMemoryArtifactStore`
  pub runs : ℕ
  pub generations : ℕ
  pub written : List Written

abbrev pub tell : DomainEvent → Worker → Worker
tell event m = record m { bus = emit event m.bus }

abbrev pub items_of : Items → List Json
items_of no_items = []
items_of (item json rest) = json ∷ items_of rest

-- `_patches` and `_steps`: the list under a key, if it is one.
abbrev pub list_under : Option Json → List Json
list_under (some (array items)) = items_of items
list_under _ = []

abbrev pub patch_fields : Option Json → Option Json → Option FilePatch
patch_fields (some path) (some content) = some (record { path = path; content = content })
patch_fields _ _ = none

-- `FilePatch(path=p["path"], content=p["content"])`
abbrev pub patch_of : Json → Option FilePatch
patch_of (object p) = patch_fields (get_field "path" p) (get_field "content" p)
patch_of _ = none

abbrev pub patches_of : List Json → Option (List FilePatch)
patches_of [] = some []
patches_of (p ∷ rest) = elim (patch_of p) [
  | none ↦ none
  | some patch ↦ elim (patches_of rest) [ none ↦ none | some patches ↦ some (patch ∷ patches) ]
]

module _ (os : Platform) where
  abbrev pub failed_gen_step : String → StepResult
  failed_gen_step reason = record {
    name = "generate";
    command = "<llm:generate>" ∷ [];
    exit_code = 1;
    success = false;
    duration_ms = 0;
    stdout_tail = "";
    stderr_tail = os.head reason;
  }

  -- What `_generate` makes of the answer of the generator.
  abbrev pub generated :
      Task → Result String GenerationResult → Worker → (List FilePatch × Option StepResult) × Worker
  generated task (err reason) m =
      (([], some (failed_gen_step (format ("no provider available: " ∷ reason ∷ [])))), m)
  generated task (ok result) m =
      if result.degraded || is_empty result.patches
      then (([], some (failed_gen_step "provider returned no usable files")), m)
      else (
        (
          result.patches,
          some (record {
            name = "generate";
            command = "<llm:generate>" ∷ [];
            exit_code = 0;
            success = true;
            duration_ms = 0;
            stdout_tail =
                format
                  (os.decimal (length result.patches) ∷ " file(s) via " ∷ result.provider ∷ []);
            stderr_tail = "";
          }),
        ),
        tell (task_step_completed task.id "generate" 0 true 0) (
            tell
              (task_code_generated task.id result.provider (length result.patches)
                result.total_tokens)
              m),
      )

  -- `str(spec.get(key, ""))`
  abbrev pub text_of : Option Json → String
  text_of none = ""
  text_of (some json) = os.str_of json

  abbrev pub generate_for :
      Task → Bool → Option Json → Worker → (List FilePatch × Option StepResult) × Worker
  generate_for task true (some (object spec)) m =
      generated task
        (os.generate m.generations (text_of (get_field "goal" spec))
          (text_of (get_field "context" spec)))
        (record m { generations = m.generations + 1 })
  generate_for task _ _ m = (([], none), m)

  -- `_generate`
  unfoldable pub generate : Task → Worker → (List FilePatch × Option StepResult) × Worker
  generate task m = generate_for task m.has_generator (get_field "generate" task.payload) m

  -- `WorkspaceManager.create`
  unfoldable pub create_workspace : String → Worker → Workspace × Worker
  create_workspace task_id m =
      let root = format (m.base_dir ∷ "/" ∷ task_id ∷ []) in
      let branch = branch_name task_id in
      let init = os.run m.runs ("git" ∷ "init" ∷ "-q" ∷ []) root 30 in
      if command_success init
      then (
        record { root = root; branch = branch; git_enabled = true },
        record m { runs = m.runs + 2 },
      )
      else (
        record { root = root; branch = branch; git_enabled = false },
        record m { runs = m.runs + 1 },
      )

  abbrev pub step_of : String → List String → CommandResult → StepResult
  step_of name command result = record {
    name = name;
    command = command;
    exit_code = result.exit_code;
    success = command_success result;
    duration_ms = result.duration_ms;
    stdout_tail = os.tail result.stdout;
    stderr_tail = os.tail result.stderr;
  }

  -- One round of the loop over the steps, or an exception: of a specification without a command or,
  -- once the command has run, without a name.
  abbrev pub named_step :
      Task → Option Json → List String → CommandResult → Worker → Option StepResult × Worker
  named_step task none command result m = (none, m)
  named_step task (some name) command result m =
      let step = step_of (os.str_of name) command result in
      (
        some step,
        tell (task_step_completed task.id step.name step.exit_code step.success step.duration_ms) m,
      )

  abbrev pub run_command :
      Task → Workspace → ℕ → Fields → Option (List String) → Worker → Option StepResult × Worker
  run_command task ws timeout spec none m = (none, m)
  run_command task ws timeout spec (some command) m =
      named_step task (get_field "name" spec) command (os.run m.runs command ws.root timeout)
        (record m { runs = m.runs + 1 })

  abbrev pub command_of : Option Json → Option (List String)
  command_of none = none
  command_of (some json) = os.strings_of json

  abbrev pub run_step : Task → Workspace → ℕ → Json → Worker → Option StepResult × Worker
  run_step task ws timeout (object spec) m =
      run_command task ws timeout spec (command_of (get_field "command" spec)) m
  run_step task ws timeout _ m = (none, m)

  -- The loop over the steps: the steps so far and the step that failed, or an exception.
  unfoldable pub run_steps :
      Task
      → Workspace
      → ℕ
      → List Json
      → List StepResult
      → Worker
      → Option (List StepResult × Option String) × Worker
  run_steps task ws timeout [] steps m = (some (steps, none), m)
  run_steps task ws timeout (spec ∷ rest) steps m =
      let (outcome, m') = run_step task ws timeout spec m in
      elim outcome [
        | none ↦ (none, m')
        | some step ↦
            let later = run_steps task ws timeout rest (steps ++ step ∷ []) m' in
            if step.success then later else (some (steps ++ step ∷ [], some step.name), m')
      ]
