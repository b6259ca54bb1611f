-- ===== src/Workers/Contracts.antt =====
-- workers/contracts.py and the result of workers/codegen.py: what the worker gets and gives.
use hookclose.Prelude.{
  ℕ, String, format, Bool, ◌&&◌, not, Option, none, some, List, [], ◌∷◌, ◌==◌, Dict, insert,
}
use hookclose.Tasks.{
  Json, null, boolean, number, text, array, object, Items, no_items, item, Fields, no_fields, field,
}

-- An exit code is a natural number here.
pub record CommandResult : Type 0 where
  pub exit_code : ℕ
  pub stdout : String
  pub stderr : String
  pub duration_ms : ℕ
  pub timed_out : Bool

-- `CommandResult.success`
unfoldable pub command_success : CommandResult → Bool
command_success result = result.exit_code == 0 && not result.timed_out

-- The path and the content are what the payload holds, be they texts or not.
pub record FilePatch : Type 0 where
  pub path : Json
  pub content : Json

pub record StepResult : Type 0 where
  pub name : String
  pub command : List String
  pub exit_code : ℕ
  pub success : Bool
  pub duration_ms : ℕ
  pub stdout_tail : String
  pub stderr_tail : String

pub record ExecutionReport : Type 0 where
  pub task_id : String
  pub worker : String
  pub branch : String
  pub success : Bool
  pub attempts : ℕ
  pub steps : List StepResult
  pub artifacts : List String
  pub error : Option String
  pub failed_step : Option String

abbrev pub strings : List String → Items
strings [] = no_items
strings (s ∷ rest) = item (text s) (strings rest)

abbrev pub text_or_null : Option String → Json
text_or_null none = null
text_or_null (some s) = text s

abbrev pub step_dict : StepResult → Json
step_dict s = object (
    field "name" (text s.name) (
      field "command" (array (strings s.command)) (
        field "exit_code" (number s.exit_code) (
          field "success" (boolean s.success) (
            field "duration_ms" (number s.duration_ms) (
              field "stdout_tail" (text s.stdout_tail)
                (field "stderr_tail" (text s.stderr_tail) no_fields)))))))

abbrev pub step_dicts : List StepResult → Items
step_dicts [] = no_items
step_dicts (s ∷ rest) = item (step_dict s) (step_dicts rest)

-- `ExecutionReport.to_dict`
unfoldable pub to_dict : ExecutionReport → Fields
to_dict report = field "task_id" (text report.task_id) (
    field "worker" (text report.worker) (
      field "branch" (text report.branch) (
        field "success" (boolean report.success) (
          field "attempts" (number report.attempts) (
            field "error" (text_or_null report.error) (
              field "failed_step" (text_or_null report.failed_step) (
                field "steps" (array (step_dicts report.steps))
                  (field "artifacts" (array (strings report.artifacts)) no_fields))))))))

-- `InMemoryArtifactStore.put`
unfoldable pub put : String → String → String → Dict String → String × Dict String
put task_id name content stored =
    let key = format (task_id ∷ "/" ∷ name ∷ []) in
    (format ("mem://" ∷ key ∷ []), insert key content stored)

pub record GenerationResult : Type 0 where
  pub provider : String
  pub patches : List FilePatch
  pub notes : String
  pub total_tokens : ℕ
  pub degraded : Bool
