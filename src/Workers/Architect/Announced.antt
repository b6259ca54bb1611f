-- ===== src/Workers/Architect/Announced.antt =====
-- The events of a review.
use mathlib.Core.List.{append-nil, append_assoc}
use hookclose.Prelude.{
  ℕ, ◌-◌, ◌≡◌, refl, sym, ap, ◌∙◌, Bool, true, false, Option, none, some, List, [], ◌∷◌, ◌++◌,
  if◌then◌else◌, length,
}
use hookclose.Events.{
  DomainEvent, EventBus, emit, architecture_reviewed, architecture_drift_detected, spec_generated,
}
use hookclose.Workers.ArchitectPrompts.{kind_value}
use hookclose.Workers.Architect.{ReviewResult, is_spec, emit_spec, emit_drift, emit_events}

abbrev pub publish_all : List DomainEvent → EventBus → EventBus
publish_all events none = none
publish_all events (some published) = some (published ++ events)

abbrev drift_events : ReviewResult → Option ℕ → List DomainEvent
drift_events result none = []
drift_events result (some previous) =
    if result.drift_detected
    then architecture_drift_detected result.target previous result.score (previous - result.score)
      ∷ []
    else []

-- The events of a review that was served, in their order.
abbrev pub announced : ReviewResult → Option ℕ → List DomainEvent
announced result previous =
    architecture_reviewed result.target (kind_value result.kind) result.score
      (length result.findings) result.provider
    ∷ ((if is_spec result.kind
          then spec_generated result.target (kind_value result.kind) result.provider
              (length result.sections)
            ∷ []
          else [])
        ++ drift_events result previous)

publish_all-nil : (bus : EventBus) → publish_all [] bus ≡ bus
publish_all-nil none = refl
publish_all-nil (some published) = ap (λ l. some l) (append-nil published)

publish_all-append :
    (first second : List DomainEvent) (bus : EventBus)
    → publish_all second (publish_all first bus) ≡ publish_all (first ++ second) bus
publish_all-append first second none = refl
publish_all-append first second (some published) =
    ap (λ l. some l) (append_assoc published first second)

emit-publish :
    (event : DomainEvent) (bus : EventBus) → emit event bus ≡ publish_all (event ∷ []) bus
emit-publish event none = refl
emit-publish event (some published) = refl

-- An event that is emitted only under a condition.
emit_if-publish :
    (wanted : Bool) (event : DomainEvent) (bus : EventBus)
    → (if wanted then emit event bus else bus) ≡ publish_all (if wanted then event ∷ [] else []) bus
emit_if-publish true event bus = emit-publish event bus
emit_if-publish false event bus = sym (publish_all-nil bus)

emit_drift-publish :
    (result : ReviewResult) (previous : Option ℕ) (bus : EventBus)
    → emit_drift result previous bus ≡ publish_all (drift_events result previous) bus
emit_drift-publish result none bus = sym (publish_all-nil bus)
emit_drift-publish result (some previous) bus = emit_if-publish result.drift_detected _ bus

pub emit_events-announced :
    (result : ReviewResult) (previous : Option ℕ) (bus : EventBus)
    → emit_events result previous bus ≡ publish_all (announced result previous) bus
unfolding emit_events
emit_events-announced result previous bus =
    let reviewed =
      architecture_reviewed result.target (kind_value result.kind) result.score
        (length result.findings) result.provider in
    let spec =
      spec_generated result.target (kind_value result.kind) result.provider
        (length result.sections) in
    let specs = if is_spec result.kind then spec ∷ [] else [] in
    emit_drift-publish result previous (emit_spec result (emit reviewed bus))
    ∙ ap (publish_all (drift_events result previous)) (
        emit_if-publish (is_spec result.kind) spec (emit reviewed bus)
        ∙ ap (publish_all specs) (emit-publish reviewed bus))
    ∙ publish_all-append specs (drift_events result previous) (publish_all (reviewed ∷ []) bus)
    ∙ publish_all-append (reviewed ∷ []) (specs ++ drift_events result previous) bus
