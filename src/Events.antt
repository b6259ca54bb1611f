-- ===== src/Events.antt =====
-- events/: the domain events that the modelled components publish, with the payload fields of each class
-- (events/domain/*.py), their wire names (events/schema.py, events/base.py), and the event bus.
-- Event metadata (ids, times, causation) is made by libraries and read by nothing here.
use hookclose.Prelude.{ℕ, String, Bool, Option, none, some, List, [], ◌∷◌, ◌++◌}

-- A score is in hundredths.
pub data DomainEvent : Type 0 where
  -- events/domain/provider.py
  provider_selected : (provider capability : String) (attempt : ℕ) → DomainEvent
  provider_invocation_succeeded : (provider capability : String) (total_tokens : ℕ) → DomainEvent
  provider_failed_over : (provider capability reason error_code : String) → DomainEvent
  provider_cooldown_entered :
      (provider status : String) (cooldown_until : Option String) (reason : String) → DomainEvent
  provider_credit_exhausted : (provider : String) → DomainEvent
  provider_recovered : (provider : String) → DomainEvent
  all_providers_exhausted : (capability : String) (tried : List String) → DomainEvent
  routing_decided :
      (capability : String) (complexity_score : ℕ) (ordered_providers : List String)
      (reason : String)
      → DomainEvent
  -- events/domain/worker.py
  task_execution_started : (task_id task_type worker branch : String) (attempt : ℕ) → DomainEvent
  task_code_generated : (task_id provider : String) (files total_tokens : ℕ) → DomainEvent
  task_step_completed :
      (task_id step : String) (exit_code : ℕ) (success : Bool) (duration_ms : ℕ) → DomainEvent
  task_execution_succeeded :
      (task_id worker branch : String) (attempts : ℕ) (artifacts : List String) → DomainEvent
  task_execution_failed :
      (task_id worker failed_step : String) (attempts : ℕ) (error : String) → DomainEvent
  task_retry_scheduled :
      (task_id : String) (attempt max_attempts : ℕ) (reason : String) → DomainEvent
  -- events/domain/chaining.py
  next_task_generated :
      (parent_task_id new_task_id new_task_type trigger : String) (depth : ℕ) → DomainEvent
  repair_task_created : (failed_task_id repair_task_id : String) (attempt depth : ℕ) → DomainEvent
  escalation_raised : (task_id reason : String) (depth : ℕ) → DomainEvent
  chain_terminated : (root_task_id reason : String) (depth : ℕ) → DomainEvent
  -- events/domain/healing.py
  failure_analyzed :
      (task_id category signature_key : String) (deterministic_fixable : Bool) (occurrences : ℕ)
      → DomainEvent
  repair_decision_made : (task_id action : String) (attempt : ℕ) (reason : String) → DomainEvent
  rolled_back : (task_id to_ref reason : String) → DomainEvent
  repair_escalated : (task_id reason : String) (attempts : ℕ) → DomainEvent
  -- events/domain/architecture.py
  architecture_reviewed :
      (target kind : String) (score finding_count : ℕ) (provider : String) → DomainEvent
  architecture_drift_detected :
      (target : String) (previous_score current_score delta : ℕ) → DomainEvent
  spec_generated : (target kind provider : String) (section_count : ℕ) → DomainEvent

pub data EventTopic : Type 0 where
  workflow agent codegen review testing repair memory scheduler provider worker chaining :
      EventTopic

-- `EventTopic.X.value`
unfoldable pub topic_value : EventTopic → String
topic_value EventTopic.workflow = "aine.workflow"
topic_value EventTopic.agent = "aine.agent"
topic_value EventTopic.codegen = "aine.codegen"
topic_value EventTopic.review = "aine.review"
topic_value EventTopic.testing = "aine.testing"
topic_value EventTopic.repair = "aine.repair"
topic_value EventTopic.memory = "aine.memory"
topic_value EventTopic.scheduler = "aine.scheduler"
topic_value EventTopic.provider = "aine.provider"
topic_value EventTopic.worker = "aine.worker"
topic_value EventTopic.chaining = "aine.chaining"

-- The class variable `event_type` of each event.
unfoldable pub event_type : DomainEvent → String
event_type (provider_selected _ _ _) = "provider.selected"
event_type (provider_invocation_succeeded _ _ _) = "provider.invocation_succeeded"
event_type (provider_failed_over _ _ _ _) = "provider.failed_over"
event_type (provider_cooldown_entered _ _ _ _) = "provider.cooldown_entered"
event_type (provider_credit_exhausted _) = "provider.credit_exhausted"
event_type (provider_recovered _) = "provider.recovered"
event_type (all_providers_exhausted _ _) = "provider.all_exhausted"
event_type (routing_decided _ _ _ _) = "provider.routing_decided"
event_type (task_execution_started _ _ _ _ _) = "worker.task_started"
event_type (task_code_generated _ _ _ _) = "worker.code_generated"
event_type (task_step_completed _ _ _ _ _) = "worker.step_completed"
event_type (task_execution_succeeded _ _ _ _ _) = "worker.task_succeeded"
event_type (task_execution_failed _ _ _ _ _) = "worker.task_failed"
event_type (task_retry_scheduled _ _ _ _) = "worker.task_retry_scheduled"
event_type (next_task_generated _ _ _ _ _) = "chaining.next_generated"
event_type (repair_task_created _ _ _ _) = "chaining.repair_created"
event_type (escalation_raised _ _ _) = "chaining.escalation_raised"
event_type (chain_terminated _ _ _) = "chaining.terminated"
event_type (failure_analyzed _ _ _ _ _) = "healing.failure_analyzed"
event_type (repair_decision_made _ _ _ _) = "healing.repair_decided"
event_type (rolled_back _ _ _) = "healing.rolled_back"
event_type (repair_escalated _ _ _) = "healing.escalated"
event_type (architecture_reviewed _ _ _ _ _) = "architecture.reviewed"
event_type (architecture_drift_detected _ _ _ _) = "architecture.drift_detected"
event_type (spec_generated _ _ _ _) = "architecture.spec_generated"

-- The class variable `topic` of each event.
unfoldable pub topic : DomainEvent → EventTopic
topic (provider_selected _ _ _) = EventTopic.provider
topic (provider_invocation_succeeded _ _ _) = EventTopic.provider
topic (provider_failed_over _ _ _ _) = EventTopic.provider
topic (provider_cooldown_entered _ _ _ _) = EventTopic.provider
topic (provider_credit_exhausted _) = EventTopic.provider
topic (provider_recovered _) = EventTopic.provider
topic (all_providers_exhausted _ _) = EventTopic.provider
topic (routing_decided _ _ _ _) = EventTopic.provider
topic (task_execution_started _ _ _ _ _) = EventTopic.worker
topic (task_code_generated _ _ _ _) = EventTopic.worker
topic (task_step_completed _ _ _ _ _) = EventTopic.worker
topic (task_execution_succeeded _ _ _ _ _) = EventTopic.worker
topic (task_execution_failed _ _ _ _ _) = EventTopic.worker
topic (task_retry_scheduled _ _ _ _) = EventTopic.worker
topic (next_task_generated _ _ _ _ _) = EventTopic.chaining
topic (repair_task_created _ _ _ _) = EventTopic.chaining
topic (escalation_raised _ _ _) = EventTopic.chaining
topic (chain_terminated _ _ _) = EventTopic.chaining
topic (failure_analyzed _ _ _ _ _) = EventTopic.repair
topic (repair_decision_made _ _ _ _) = EventTopic.repair
topic (rolled_back _ _ _) = EventTopic.repair
topic (repair_escalated _ _ _) = EventTopic.repair
topic (architecture_reviewed _ _ _ _ _) = EventTopic.review
topic (architecture_drift_detected _ _ _ _) = EventTopic.review
topic (spec_generated _ _ _ _) = EventTopic.review

-- `event_bus: EventBusPort | None`, as what was published on it; `publish` of the port returns nothing.
abbrev pub EventBus : Type 0
EventBus = Option (List DomainEvent)

-- `_emit`, which every component has alike.
abbrev pub emit : DomainEvent → EventBus → EventBus
emit event none = none
emit event (some published) = some (published ++ event ∷ [])
