-- ===== src/Workers/Architect/Outages.antt =====
-- Reviews that no provider serves: what they leave, and that the composed runtime gives no others of
-- some kinds.
use hookclose.Prelude.{
  ℕ, String, ◌≡◌, refl, inl, inr, Bool, true, false, Option, none, some, List, arith, Result, ok,
  err, eq_refl, Bool-cases,
}
use hookclose.Events.{EventBus}
use hookclose.Providers.State.{ProviderInvocation, NoProviderAvailable}
use hookclose.Providers.Base.{Platform}
use hookclose.Providers.Manager.{ProviderStateStore, manager_complete}
use hookclose.Providers.Manager.Invariant.{Asked}
use hookclose.Runtime.Composition.{ProvidersConfig}
use hookclose.Runtime.Composition.Described.{has_vendor, never_offered}
use hookclose.Runtime.Composition.Unserved.{exhausted, manager_after, unoffered_after}
use hookclose.Workers.Envelope.{JsonReader}
use hookclose.Workers.ArchitectPrompts.{ReviewKind, kind_value, kind_capability, build_request}
use hookclose.Workers.Architect.{
  ReviewResult, ReviewStore, save_review, latest_score, ArchitectWorker, outage_result,
  settle_review, run_review,
}
use hookclose.Workers.Architect.Reviewed.{is_served, Reviewed, latest_score-save, run_review_exact}

settle_outage :
    (json : JsonReader) (kind : ReviewKind) (target : String) (previous : Option ℕ)
    (answer : Result NoProviderAvailable ProviderInvocation) (w : ArchitectWorker)
    → is_served answer ≡ false
    → settle_review json kind target previous answer w ≡ (
      ok (outage_result kind target),
      record w { store = save_review (outage_result kind target) w.store },
    )
unfolding settle_review
settle_outage json kind target previous (ok invocation) w h = cc
settle_outage json kind target previous (err e) w h = refl

-- The latest score after a review that was not served.
outage_latest :
    (os : Platform) (json : JsonReader) (kind : ReviewKind) (target content : String)
    (w : ArchitectWorker)
    → let request = build_request kind target content "auto" in
      is_served (manager_complete os request (kind_capability kind) none w.manager).0 ≡ false
      → latest_score target kind (run_review os json kind target content w).1.store ≡ some 0
unfolding run_review outage_result
outage_latest os json kind target content w h =
    let request = build_request kind target content "auto" in
    let (answer, manager') = manager_complete os request (kind_capability kind) none w.manager in
    rw
      (settle_outage json kind target (latest_score target kind w.store) answer
        (record w { manager = manager' }) h)
      (rw (latest_score-save (outage_result kind target) w.store target kind)
        (rw (eq_refl target, eq_refl (kind_value kind))))

not_drifted :
    (kind : ReviewKind) (target : String) (served : Bool) (w w' : ArchitectWorker)
    (result : ReviewResult)
    → latest_score target kind w.store ≡ some 0
    → Reviewed kind target served w w' (ok result)
    → result.drift_detected ≡ false
not_drifted kind target served w w' result zero (score, drift, _, _) =
    elim (Bool-cases result.drift_detected) [
      | inl drifted ↦ let (_, (s, e, le)) = drift.0 drifted in ground (arith, zero)
      | inr clear ↦ clear
    ]

-- A review that no provider served puts the score 0 in the place of the latest one, so the next
-- review of the same target and kind reports no drift, however low its score is.
pub outage_hides_drift :
    (os : Platform) (json : JsonReader) (kind : ReviewKind) (target content content' : String)
    (w : ArchitectWorker) (result : ReviewResult)
    → let request = build_request kind target content "auto" in
      is_served (manager_complete os request (kind_capability kind) none w.manager).0 ≡ false
      → let w' = (run_review os json kind target content w).1 in
        (run_review os json kind target content' w').0 ≡ ok result
        → (latest_score target kind w'.store ≡ some 0) × (result.drift_detected ≡ false)
outage_hides_drift os json kind target content content' w result outage returned =
    let w' = (run_review os json kind target content w).1 in
    let w'' = (run_review os json kind target content' w').1 in
    let request = build_request kind target content' "auto" in
    let served = is_served (manager_complete os request (kind_capability kind) none w'.manager).0 in
    let zero = outage_latest os json kind target content w outage in
    let exact = run_review_exact os json kind target content' w' in
    (zero, not_drifted kind target served w' w'' result zero (rw returned at exact))

-- In the runtime that a configuration gives, whatever was asked of it before, a review of a kind whose
-- capability no configured provider has is not served: it returns the degraded result with the score 0,
-- saves it, and publishes nothing but that the providers are exhausted. For reviews of an architecture
-- and for specifications this is so in every configuration, and without a key of a vendor for every
-- kind.
pub composed_reviews_unserved :
    (os : Platform) (json : JsonReader) (config : ProvidersConfig) (bus : EventBus)
    (provider_store : ProviderStateStore) (calls : List Asked) (kind : ReviewKind)
    (target content : String) (store : ReviewStore)
    → never_offered (has_vendor config) (kind_capability kind) ≡ true
    → let m = manager_after os config bus provider_store calls in
      run_review os json kind target content (record { manager = m; store = store; bus = bus }) ≡ (
        ok (outage_result kind target),
        record {
          manager = exhausted (kind_capability kind) m;
          store = save_review (outage_result kind target) store;
          bus = bus;
        },
      )
unfolding run_review settle_review
composed_reviews_unserved os json config bus provider_store calls kind target content store h = rw (
    unoffered_after os config bus provider_store calls (build_request kind target content "auto")
      (kind_capability kind) none h)
