-- ===== src/Workers/ArchitectPrompts.antt =====
-- workers/architect_prompts.py: the kinds of review and the requests for them.
use hookclose.Prelude.{String, format, none, some, [], ◌∷◌}
use hookclose.Contracts.{Role, LlmRequest}
use hookclose.Providers.State.{Capability}

pub data ReviewKind : Type 0 where
  architecture_review runtime_analysis spec_generation refactor_review : ReviewKind

-- `kind.value`
unfoldable pub kind_value : ReviewKind → String
kind_value ReviewKind.architecture_review = "architecture_review"
kind_value ReviewKind.runtime_analysis = "runtime_analysis"
kind_value ReviewKind.spec_generation = "spec_generation"
kind_value ReviewKind.refactor_review = "refactor_review"

-- `kind.capability`
unfoldable pub kind_capability : ReviewKind → Capability
kind_capability ReviewKind.architecture_review = Capability.architecture
kind_capability ReviewKind.runtime_analysis = Capability.analysis
kind_capability ReviewKind.spec_generation = Capability.architecture
kind_capability ReviewKind.refactor_review = Capability.review

-- `kind.task_type`
unfoldable pub kind_task_type : ReviewKind → String
kind_task_type ReviewKind.architecture_review = "architecture.review"
kind_task_type ReviewKind.runtime_analysis = "analysis.runtime"
kind_task_type ReviewKind.spec_generation = "architecture.spec"
kind_task_type ReviewKind.refactor_review = "review.refactor"

-- `_ROLE`
abbrev pub role_of : ReviewKind → String
role_of ReviewKind.architecture_review = "design review"
role_of ReviewKind.runtime_analysis = "runtime/orchestration analysis"
role_of ReviewKind.spec_generation = "specification generation"
role_of ReviewKind.refactor_review = "refactor review"

-- `_SYSTEM.format(role=role)`
abbrev pub system_prompt : String → String
system_prompt role = format (
    "You are a Principal Software Architect performing a " ∷ role ∷ ". "
    ∷ "Be precise, deterministic, and conservative. "
    ∷ "Respond with ONLY a JSON object and no prose. Schema: "
    ∷ "{\"score\": <int 0-100>, \"summary\": <string>, "
    ∷ "\"findings\": [<string>, ...], \"sections\": [<string>, ...]}. "
    ∷ "score is overall architectural health (100 = excellent). "
    ∷ "findings are concrete issues or risks. sections is the document outline "
    ∷ "(used for spec generation; otherwise [])." ∷ [])

unfoldable pub build_request : ReviewKind → String → String → String → LlmRequest
unfolding kind_value
build_request kind target content model = record {
  model = model;
  messages =
      record { role = Role.system; content = system_prompt (role_of kind) }
      ∷ record {
        role = Role.user;
        content = format (
            "Target: "
            ∷ target
            ∷ "\nReview kind: "
            ∷ kind_value kind
            ∷ "\n--- material ---\n"
            ∷ content
            ∷ "\n--- end ---\nReturn the JSON object now."
            ∷ []);
      }
      ∷ [];
  max_tokens = none;
  temperature = some 0;
  top_p = none;
  stop = none;
  response_format = some "json";
}
