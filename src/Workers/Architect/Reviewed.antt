-- ===== src/Workers/Architect/Reviewed.antt =====
-- What one review leaves: its score, its drift, the store and the events.
use hookclose.Prelude.{
  ℕ, ◌+◌, ◌≤◌, String, ◌≡◌, refl, ◌↔◌, inl, inr, Bool, true, false, ◌&&◌, Option, none, some, [],
  ◌∷◌, ◌++◌, arith, Result, ok, err, if◌then◌else◌, last?-append, str_eq, eq_iff, Bool-cases,
  leb→le,
}
use hookclose.Providers.State.{ProviderInvocation, NoProviderAvailable}
use hookclose.Providers.Base.{Platform}
use hookclose.Providers.Manager.{manager_complete}
use hookclose.Workers.Envelope.{ℤ, JsonFields, JsonReader, get_value, object_in}
use hookclose.Workers.ArchitectPrompts.{ReviewKind, kind_value, kind_capability, build_request}
use hookclose.Workers.Architect.Announced.{publish_all, announced, emit_events-announced}
use hookclose.Workers.ReviewEnvelope.{
  ParsedReview, ParseError, int_of_score, parsed_object, parsed_review, parse_review,
}
use hookclose.Workers.Architect.{
  ReviewResult, ReviewStore, entries_of, append_entry, save_review, latest_score, ArchitectWorker,
  has_drifted, outage_result, result_of, finish_review, settle_review, run_review,
}

abbrev pub is_served : Result NoProviderAvailable ProviderInvocation → Bool
is_served (ok invocation) = true
is_served (err e) = false

-- What a review of the target leaves, `w` before it and `w'` after it.
abbrev pub Reviewed :
    ReviewKind
    → String
    → Bool
    → ArchitectWorker
    → ArchitectWorker
    → Result ParseError ReviewResult
    → Type 0
Reviewed kind target served w w' (err e) = (w'.store ≡ w.store) × (w'.bus ≡ w.bus)
Reviewed kind target served w w' (ok result) =
    let previous = latest_score target kind w.store in
    (result.score ≤ 100)
    × ((result.drift_detected ≡ true)
        ↔ ((served ≡ true) × ((s : ℕ) × (previous ≡ some s) × (result.score + 15 ≤ s))))
    × ((t : String) (k : ReviewKind)
        → latest_score t k w'.store ≡ (
            if str_eq target t && str_eq (kind_value kind) (kind_value k)
            then some result.score
            else latest_score t k w.store))
    × (w'.bus ≡ (if served then publish_all (announced result previous) w.bus else w.bus))

entries_of-append :
    (target kind t k : String) (result : ReviewResult) (store : ReviewStore)
    → entries_of t k (append_entry target kind result store) ≡ (
        if str_eq target t && str_eq kind k
        then entries_of t k store ++ result ∷ []
        else entries_of t k store)
entries_of-append target kind t k result [] = ground arith
entries_of-append target kind t k result (((t', k'), entries) ∷ rest) = ground (
  arith,
  entries_of-append target kind t k result rest,
  eq_iff target t,
  eq_iff kind k,
  eq_iff t' target,
  eq_iff k' kind,
  eq_iff t' t,
  eq_iff k' k,
)

-- The latest score after a review is saved.
pub latest_score-save :
    (result : ReviewResult) (store : ReviewStore) (t : String) (k : ReviewKind)
    → latest_score t k (save_review result store) ≡ (
        if str_eq result.target t && str_eq (kind_value result.kind) (kind_value k)
        then some result.score
        else latest_score t k store)
unfolding latest_score save_review
latest_score-save result store t k =
    elim (Bool-cases (str_eq result.target t && str_eq (kind_value result.kind) (kind_value k))) [
      | inl same ↦
          rw
            (entries_of-append result.target (kind_value result.kind) t (kind_value k) result store)
            (rw same (rw (last?-append (entries_of t (kind_value k) store) result)))
      | inr other ↦
          rw
            (entries_of-append result.target (kind_value result.kind) t (kind_value k) result store)
            (rw other)
    ]

has_drifted_iff :
    (previous : Option ℕ) (score : ℕ)
    → (has_drifted previous score ≡ true)
      ↔ ((true ≡ true) × ((s : ℕ) × (previous ≡ some s) × (score + 15 ≤ s)))
has_drifted_iff none score = (λ h. cc, λ (_, (s, e, l)). cc)
has_drifted_iff (some previous) score =
    (λ h. (refl, (previous, refl, leb→le (score + 15) previous h)), λ (_, (s, e, l)). ground arith)

parsed_object-bounded :
    (json : JsonReader) (entries : JsonFields) (read : Result ParseError ℤ) (parsed : ParsedReview)
    → parsed_object json entries read ≡ ok parsed
    → parsed.score ≤ 100
parsed_object-bounded json entries (err e) parsed h = cc
parsed_object-bounded json entries (ok (ℤ.pos n)) parsed h = ground arith
parsed_object-bounded json entries (ok (ℤ.negsuc n)) parsed h = ground arith

parsed_review-bounded :
    (json : JsonReader) (content : String) (found : Option JsonFields) (parsed : ParsedReview)
    → parsed_review json content found ≡ ok parsed
    → parsed.score ≤ 100
parsed_review-bounded json content none parsed h = ground arith
parsed_review-bounded json content (some entries) parsed h =
    parsed_object-bounded json entries (int_of_score (get_value "score" entries)) parsed h

finish-Reviewed :
    (kind : ReviewKind) (target provider : String) (read : Result ParseError ParsedReview)
    (w : ArchitectWorker)
    → ((parsed : ParsedReview) → read ≡ ok parsed → parsed.score ≤ 100)
    → let (answer, w') =
        finish_review kind target provider (latest_score target kind w.store) read w in
      Reviewed kind target true w w' answer
unfolding finish_review
finish-Reviewed kind target provider (err e) w bounded = (refl, refl)
finish-Reviewed kind target provider (ok parsed) w bounded =
    let previous = latest_score target kind w.store in
    let result = result_of kind target provider previous parsed in
    (
      bounded parsed refl,
      has_drifted_iff previous parsed.score,
      latest_score-save result w.store,
      emit_events-announced result previous w.bus,
    )

settle-Reviewed :
    (json : JsonReader) (kind : ReviewKind) (target : String)
    (answer : Result NoProviderAvailable ProviderInvocation) (w : ArchitectWorker)
    → let (given, w') =
        settle_review json kind target (latest_score target kind w.store) answer w in
      Reviewed kind target (is_served answer) w w' given
unfolding settle_review
settle-Reviewed json kind target (err e) w = (
  unfold outage_result in omega arith,
  unfold outage_result in (λ h. cc, λ h. cc),
  unfold outage_result in latest_score-save (outage_result kind target) w.store,
  refl,
)
settle-Reviewed json kind target (ok invocation) w =
    finish-Reviewed kind target invocation.provider (parse_review json invocation.content) w (
      unfold parse_review in
      parsed_review-bounded json invocation.content (object_in (json.loads invocation.content)))

-- A review that returns has a score of at most 100; it reports drift exactly when it was served and
-- the latest review of its target and kind scored at least 15 more; it becomes the latest of its
-- target and kind and of no other; and when it was served, the events of its review, of a generated
-- specification and of drift are published in this order, and otherwise none. A review that raises
-- leaves the store and the events as they were.
pub run_review_exact :
    (os : Platform) (json : JsonReader) (kind : ReviewKind) (target content : String)
    (w : ArchitectWorker)
    → let (answer, w') = run_review os json kind target content w in
      let request = build_request kind target content "auto" in
      Reviewed kind target
        (is_served (manager_complete os request (kind_capability kind) none w.manager).0)
        w
        w'
        answer
unfolding run_review
run_review_exact os json kind target content w =
    let request = build_request kind target content "auto" in
    let (answer, manager') = manager_complete os request (kind_capability kind) none w.manager in
    settle-Reviewed json kind target answer (record w { manager = manager' })
