-- ===== src/Workflows.antt =====
-- workflows/machine.py and workflows/definitions/: the state machines that the workflows declare. No
-- definition gives a transition a guard or a description, or a machine metadata; these fields are left out.
pub mod WellFormed
use hookclose.Prelude.{String, Bool, List, [], ◌∷◌, filter, str_eq, contains}

pub record Transition : Type 0 where
  pub from_state : String
  pub to_state : String
  pub trigger : String

pub record StateMachine : Type 0 where
  pub name : String
  pub version : String
  pub initial_state : String
  pub states : List String
  pub terminal_states : List String
  pub transitions : List Transition

unfoldable pub transitions_from : StateMachine → String → List Transition
transitions_from machine state = filter (λ t. str_eq t.from_state state) machine.transitions

unfoldable pub is_terminal : StateMachine → String → Bool
is_terminal machine state = contains state machine.terminal_states

abbrev pub edge : String → String → String → Transition
edge from_state to_state trigger = record {
  from_state = from_state;
  to_state = to_state;
  trigger = trigger;
}

-- workflows/definitions/code_generation.py
abbrev pub code_generation_machine : StateMachine
code_generation_machine = record {
  name = "code_generation";
  version = "1.0.0";
  initial_state = "planning";
  states =
      "planning" ∷ "drafting" ∷ "self_reviewing" ∷ "validating" ∷ "committing" ∷ "completed"
      ∷ "failed" ∷ [];
  terminal_states = "completed" ∷ "failed" ∷ [];
  transitions =
      edge "planning" "drafting" "plan_ready"
      ∷ edge "drafting" "self_reviewing" "draft_ready"
      ∷ edge "self_reviewing" "drafting" "needs_revision"
      ∷ edge "self_reviewing" "validating" "draft_approved"
      ∷ edge "validating" "committing" "validation_passed"
      ∷ edge "validating" "drafting" "validation_failed"
      ∷ edge "committing" "completed" "commit_pushed"
      ∷ edge "planning" "failed" "plan_aborted"
      ∷ edge "drafting" "failed" "draft_aborted"
      ∷ edge "validating" "failed" "validation_exhausted"
      ∷ edge "committing" "failed" "commit_failed"
      ∷ [];
}

-- workflows/definitions/code_review.py
abbrev pub code_review_machine : StateMachine
code_review_machine = record {
  name = "code_review";
  version = "1.0.0";
  initial_state = "collecting_diff";
  states =
      "collecting_diff" ∷ "analyzing" ∷ "synthesizing_findings" ∷ "publishing" ∷ "completed"
      ∷ "failed" ∷ [];
  terminal_states = "completed" ∷ "failed" ∷ [];
  transitions =
      edge "collecting_diff" "analyzing" "diff_collected"
      ∷ edge "analyzing" "synthesizing_findings" "analysis_done"
      ∷ edge "synthesizing_findings" "publishing" "findings_ready"
      ∷ edge "publishing" "completed" "published"
      ∷ edge "collecting_diff" "failed" "diff_unavailable"
      ∷ edge "analyzing" "failed" "analysis_failed"
      ∷ edge "publishing" "failed" "publish_failed"
      ∷ [];
}

-- workflows/definitions/testing.py
abbrev pub testing_machine : StateMachine
testing_machine = record {
  name = "testing";
  version = "1.0.0";
  initial_state = "materializing_env";
  states =
      "materializing_env" ∷ "installing_deps" ∷ "running_tests" ∷ "collecting_artifacts"
      ∷ "completed" ∷ "failed" ∷ [];
  terminal_states = "completed" ∷ "failed" ∷ [];
  transitions =
      edge "materializing_env" "installing_deps" "env_ready"
      ∷ edge "installing_deps" "running_tests" "deps_installed"
      ∷ edge "running_tests" "collecting_artifacts" "tests_done"
      ∷ edge "collecting_artifacts" "completed" "artifacts_persisted"
      ∷ edge "materializing_env" "failed" "env_unavailable"
      ∷ edge "installing_deps" "failed" "deps_failed"
      ∷ edge "running_tests" "failed" "runner_crashed"
      ∷ [];
}

-- workflows/definitions/auto_repair.py
abbrev pub auto_repair_machine : StateMachine
auto_repair_machine = record {
  name = "auto_repair";
  version = "1.0.0";
  initial_state = "diagnosing";
  states =
      "diagnosing" ∷ "proposing_patch" ∷ "applying_patch" ∷ "validating" ∷ "completed" ∷ "exhausted"
      ∷ "failed" ∷ [];
  terminal_states = "completed" ∷ "exhausted" ∷ "failed" ∷ [];
  transitions =
      edge "diagnosing" "proposing_patch" "diagnosis_ready"
      ∷ edge "proposing_patch" "applying_patch" "patch_proposed"
      ∷ edge "applying_patch" "validating" "patch_applied"
      ∷ edge "validating" "completed" "validation_passed"
      ∷ edge "validating" "diagnosing" "validation_failed_retry"
      ∷ edge "validating" "exhausted" "max_attempts_reached"
      ∷ edge "diagnosing" "failed" "diagnosis_unavailable"
      ∷ edge "applying_patch" "failed" "apply_failed"
      ∷ [];
}

-- Every workflow that is declared.
abbrev pub definitions : List StateMachine
definitions =
    code_generation_machine ∷ code_review_machine ∷ testing_machine ∷ auto_repair_machine ∷ []
