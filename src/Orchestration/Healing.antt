-- ===== src/Orchestration/Healing.antt =====
-- orchestration/self_healing.py, second half: the decision how to repair a failure, the memory that
-- bounds it, and the record of both.
pub mod Bounded
pub mod Recurring
mod Examples
use hookclose.Prelude.{
  ℕ, zero, suc, ◌+◌, String, format, Bool, true, false, ◌&&◌, Option, none, some, List, [], ◌∷◌,
  ◌++◌, if◌then◌else◌, or_default, Result, ok, err, Dict, lookup, insert, leb, ◌==◌,
}
use hookclose.Events.{
  DomainEvent, EventBus, emit, failure_analyzed, repair_decision_made, rolled_back,
  repair_escalated,
}
use hookclose.Orchestration.Failures.{
  FailureCategory, category_value, FailureSignature, FailureAnalysis, TextTools, key, analyze,
}

pub data RepairAction : Type 0 where
  retry deterministic_fix llm_repair rollback escalate : RepairAction

unfoldable pub action_value : RepairAction → String
action_value RepairAction.retry = "retry"
action_value RepairAction.deterministic_fix = "deterministic_fix"
action_value RepairAction.llm_repair = "llm_repair"
action_value RepairAction.rollback = "rollback"
action_value RepairAction.escalate = "escalate"

pub record RepairPolicy : Type 0 where
  pub max_repair_attempts : ℕ
  pub deterministic_first : Bool
  pub rollback_after_repeats : ℕ

abbrev pub default_repair_policy : RepairPolicy
default_repair_policy = record {
  max_repair_attempts = 3;
  deterministic_first = true;
  rollback_after_repeats = 3;
}

-- `_counts`: how often each signature was seen.
abbrev pub FailureMemory : Type 0
FailureMemory = Dict ℕ

abbrev pub occurrences : String → FailureMemory → ℕ
occurrences signature_key memory = or_default (lookup signature_key memory) 0

-- `FailureMemory.record`, whose result is the new count.
unfoldable pub remember : String → FailureMemory → FailureMemory
remember signature_key memory = insert signature_key (occurrences signature_key memory + 1) memory

pub record RepairHistory : Type 0 where
  pub attempts : Dict ℕ
  pub log : List (String × RepairAction)

abbrev pub attempts_for : String → RepairHistory → ℕ
attempts_for signature_key history = or_default (lookup signature_key history.attempts) 0

-- The actions that count as an attempt.
abbrev pub is_attempt : RepairAction → Bool
is_attempt RepairAction.retry = true
is_attempt RepairAction.deterministic_fix = true
is_attempt RepairAction.llm_repair = true
is_attempt _ = false

-- `RepairHistory.record`; the log keeps the action, whose `value` the source writes.
unfoldable pub record_action : String → RepairAction → RepairHistory → RepairHistory
record_action signature_key action history = record {
  attempts =
      if is_attempt action
      then insert signature_key (attempts_for signature_key history + 1) history.attempts
      else history.attempts;
  log = history.log ++ (signature_key, action) ∷ [];
}

pub record RepairDecision : Type 0 where
  pub action : RepairAction
  pub category : FailureCategory
  pub signature_key : String
  pub attempt : ℕ
  pub reason : String

pub record SelfHealingRuntime : Type 0 where
  pub policy : RepairPolicy
  pub memory : FailureMemory
  pub history : RepairHistory
  pub bus : EventBus

abbrev pub is_timeout : FailureCategory → Bool
is_timeout FailureCategory.timeout = true
is_timeout _ = false

-- `_decide`
unfoldable pub decide_repair : RepairPolicy → FailureAnalysis → ℕ → ℕ → RepairAction × String
decide_repair policy analysis prior_attempts seen =
    if leb policy.max_repair_attempts prior_attempts
    then (RepairAction.escalate, "repair attempts exhausted")
    else if is_timeout analysis.signature.category && prior_attempts == 0
    then (RepairAction.retry, "transient timeout — retry once")
    else if analysis.deterministic_fixable && policy.deterministic_first
    then (
      RepairAction.deterministic_fix,
      format (category_value analysis.signature.category ∷ " is mechanically fixable" ∷ []),
    )
    else if leb policy.rollback_after_repeats seen
    then (RepairAction.rollback, "recurring regression — rolling back")
    else (RepairAction.llm_repair, "needs reasoning-based repair")

-- `rollback` is the callback, if there is one, with the exception that it raises, if any.
module _ (py : TextTools) (rollback : Option (String → String → Option String)) where
  abbrev pub rollback_raises : String → String → Option String
  rollback_raises task_id to_ref = elim rollback [ none ↦ none | some call ↦ call task_id to_ref ]

  -- What follows the announcement of the decision.
  abbrev pub carry_out :
      RepairAction → String → String → ℕ → String → EventBus → Option String × EventBus
  carry_out RepairAction.rollback task_id reason prior_attempts to_ref bus =
      elim (rollback_raises task_id to_ref) [
        | some exc ↦ (some exc, bus)
        | none ↦ (none, emit (rolled_back task_id to_ref reason) bus)
      ]
  carry_out RepairAction.escalate task_id reason prior_attempts to_ref bus =
      (none, emit (repair_escalated task_id reason prior_attempts) bus)
  carry_out _ task_id reason prior_attempts to_ref bus = (none, bus)

  abbrev pub finished : RepairDecision → Option String → Result String RepairDecision
  finished decision none = ok decision
  finished decision (some exc) = err exc

  unfoldable pub handle_failure :
      String
      → String
      → String
      → SelfHealingRuntime
      → Result String RepairDecision × SelfHealingRuntime
  handle_failure task_id failure_output rollback_ref m =
      let analysis = analyze py failure_output in
      let k = key py analysis.signature in
      let memory = remember k m.memory in
      let seen = occurrences k memory in
      let prior_attempts = attempts_for k m.history in
      let analyzed =
        emit
          (failure_analyzed task_id (category_value analysis.signature.category) k
            analysis.deterministic_fixable seen)
          m.bus in
      let (action, reason) = decide_repair m.policy analysis prior_attempts seen in
      let history = record_action k action m.history in
      let attempt = attempts_for k history in
      let decision : RepairDecision = record {
        action = action;
        category = analysis.signature.category;
        signature_key = k;
        attempt = attempt;
        reason = reason;
      } in
      let decided =
        emit (repair_decision_made task_id (action_value action) attempt reason) analyzed in
      let (raised, bus) = carry_out action task_id reason prior_attempts rollback_ref decided in
      (finished decision raised, record m { memory = memory; history = history; bus = bus })
