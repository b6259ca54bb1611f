-- ===== src/Workers/Architect.antt =====
-- workers/architect.py: reviews by a model, their scores, and the drift from one review to the next. The
-- manager and the worker each have a copy of the bus here, for their own events.
pub mod Announced
pub mod Reviewed
pub mod Outages
mod Examples
use hookclose.Prelude.{
  ℕ, ◌-◌, ◌+◌, min, String, take_chars, Bool, true, false, ◌&&◌, Option, none, some, List, [], ◌∷◌,
  ◌++◌, Result, ok, err, if◌then◌else◌, leb, str_eq, length, last?, or_default,
}
use hookclose.Events.{
  EventBus, emit, architecture_reviewed, architecture_drift_detected, spec_generated,
}
use hookclose.Contracts.{LlmRequest}
use hookclose.Providers.State.{ProviderInvocation, NoProviderAvailable}
use hookclose.Providers.Base.{Platform}
use hookclose.Providers.Manager.{ProviderManager, manager_complete}
use hookclose.Workers.Envelope.{
  ℤ, JsonValue, JsonValues, JsonFields, get_value, JsonReader, object_in,
}
use hookclose.Workers.ReviewEnvelope.{
  ParsedReview, ParseError, not_an_integer, clamp_score, int_of_score, texts_of, list_texts,
  text_or_empty, parsed_object, parsed_review, parse_review,
}
use hookclose.Workers.ArchitectPrompts.{ReviewKind, kind_value, kind_capability, build_request}

-- `DRIFT_THRESHOLD`
abbrev pub drift_threshold : ℕ
drift_threshold = 15

pub record ReviewResult : Type 0 where
  pub kind : ReviewKind
  pub target : String
  pub provider : String
  pub score : ℕ
  pub summary : String
  pub findings : List String
  pub sections : List String
  pub drift_detected : Bool
  pub degraded : Bool

-- `InMemoryReviewStore.history`, by target and kind.
abbrev pub ReviewStore : Type 0
ReviewStore = List ((String × String) × List ReviewResult)

abbrev pub same_key : String × String → String → String → Bool
same_key (t, k) target kind = str_eq t target && str_eq k kind

-- `self.history.get((target, kind), [])`
abbrev pub entries_of : String → String → ReviewStore → List ReviewResult
entries_of target kind [] = []
entries_of target kind ((key, entries) ∷ rest) =
    if same_key key target kind then entries else entries_of target kind rest

-- `self.history.setdefault((target, kind), []).append(result)`
abbrev pub append_entry : String → String → ReviewResult → ReviewStore → ReviewStore
append_entry target kind result [] = ((target, kind), result ∷ []) ∷ []
append_entry target kind result ((key, entries) ∷ rest) =
    if same_key key target kind
    then (key, entries ++ result ∷ []) ∷ rest
    else (key, entries) ∷ append_entry target kind result rest

unfoldable pub save_review : ReviewResult → ReviewStore → ReviewStore
save_review result store = append_entry result.target (kind_value result.kind) result store

abbrev pub score_of : Option ReviewResult → Option ℕ
score_of none = none
score_of (some result) = some result.score

unfoldable pub latest_score : String → ReviewKind → ReviewStore → Option ℕ
latest_score target kind store = score_of (last? (entries_of target (kind_value kind) store))

pub record ArchitectWorker : Type 0 where
  pub manager : ProviderManager
  pub store : ReviewStore
  pub bus : EventBus

-- `previous is not None and (previous - score) >= DRIFT_THRESHOLD`, where the difference of Python may
-- be negative.
abbrev pub has_drifted : Option ℕ → ℕ → Bool
has_drifted none score = false
has_drifted (some previous) score = leb (score + drift_threshold) previous

abbrev pub is_spec : ReviewKind → Bool
is_spec ReviewKind.spec_generation = true
is_spec _ = false

abbrev pub emit_spec : ReviewResult → EventBus → EventBus
emit_spec result bus =
    if is_spec result.kind
    then emit
        (spec_generated result.target (kind_value result.kind) result.provider
          (length result.sections))
        bus
    else bus

abbrev pub emit_drift : ReviewResult → Option ℕ → EventBus → EventBus
emit_drift result none bus = bus
emit_drift result (some previous) bus =
    if result.drift_detected
    then emit
        (architecture_drift_detected result.target previous result.score (previous - result.score))
        bus
    else bus

-- `_emit_events`
unfoldable pub emit_events : ReviewResult → Option ℕ → EventBus → EventBus
emit_events result previous bus = emit_drift result previous (
    emit_spec result (
      emit
        (architecture_reviewed result.target (kind_value result.kind) result.score
          (length result.findings) result.provider)
        bus))

-- The result of a review that nothing served.
unfoldable pub outage_result : ReviewKind → String → ReviewResult
outage_result kind target = record {
  kind = kind;
  target = target;
  provider = "none";
  score = 0;
  summary = "no provider available for cognition";
  findings = [];
  sections = [];
  drift_detected = false;
  degraded = true;
}

unfoldable pub result_of : ReviewKind → String → String → Option ℕ → ParsedReview → ReviewResult
result_of kind target provider previous parsed = record {
  kind = kind;
  target = target;
  provider = provider;
  score = parsed.score;
  summary = parsed.summary;
  findings = parsed.findings;
  sections = parsed.sections;
  drift_detected = has_drifted previous parsed.score;
  degraded = parsed.degraded;
}

-- What follows `_parse`.
unfoldable pub finish_review :
    ReviewKind
    → String
    → String
    → Option ℕ
    → Result ParseError ParsedReview
    → ArchitectWorker
    → Result ParseError ReviewResult × ArchitectWorker
unfolding emit_events result_of save_review
finish_review kind target provider previous (err e) w = (err e, w)
finish_review kind target provider previous (ok parsed) w =
    let result = result_of kind target provider previous parsed in
    (
      ok result,
      record w { store = save_review result w.store; bus = emit_events result previous w.bus },
    )

-- What follows the call of the manager.
unfoldable pub settle_review :
    JsonReader
    → ReviewKind
    → String
    → Option ℕ
    → Result NoProviderAvailable ProviderInvocation
    → ArchitectWorker
    → Result ParseError ReviewResult × ArchitectWorker
unfolding finish_review parse_review outage_result save_review
settle_review json kind target previous (err e) w =
    let result = outage_result kind target in
    (ok result, record w { store = save_review result w.store })
settle_review json kind target previous (ok invocation) w =
    finish_review kind target invocation.provider previous (parse_review json invocation.content) w

module _ (os : Platform) (json : JsonReader) where
  -- `_run`
  unfoldable pub run_review :
      ReviewKind
      → String
      → String
      → ArchitectWorker
      → Result ParseError ReviewResult × ArchitectWorker
  unfolding settle_review latest_score build_request
  run_review kind target content w =
      let previous = latest_score target kind w.store in
      let (answer, manager') =
        manager_complete os (build_request kind target content "auto") (kind_capability kind) none
          w.manager in
      settle_review json kind target previous answer (record w { manager = manager' })

  unfoldable pub review_architecture :
      String → String → ArchitectWorker → Result ParseError ReviewResult × ArchitectWorker
  unfolding run_review
  review_architecture target content w = run_review ReviewKind.architecture_review target content w

  unfoldable pub analyze_runtime :
      String → String → ArchitectWorker → Result ParseError ReviewResult × ArchitectWorker
  unfolding run_review
  analyze_runtime target content w = run_review ReviewKind.runtime_analysis target content w

  unfoldable pub generate_spec :
      String → String → ArchitectWorker → Result ParseError ReviewResult × ArchitectWorker
  unfolding run_review
  generate_spec target content w = run_review ReviewKind.spec_generation target content w

  unfoldable pub review_refactor :
      String → String → ArchitectWorker → Result ParseError ReviewResult × ArchitectWorker
  unfolding run_review
  review_refactor target content w = run_review ReviewKind.refactor_review target content w
