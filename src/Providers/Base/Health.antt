-- ===== src/Providers/Base/Health.antt =====
-- What a provider's health says: when it serves, when it rests, and how it recovers.
use hookclose.Prelude.{
  ℕ, ◌+◌, ◌≤◌, ◌<◌, min, String, ◌≡◌, ◌≢◌, refl, ap, ◌⊎◌, inl, inr, true, none, List, [], ◌∷◌,
  arith, Result, ok, err, leb, is_some, length, if◌then◌else◌, All, Bool-cases,
}
use hookclose.Contracts.{LlmRequest, LlmResponse}
use hookclose.Providers.State.{
  ProviderStatus, ProviderProfile, ProviderHealth, ErrorKind, ProviderError,
}
use hookclose.Providers.Base.{
  provider_raised, Platform, Readings, after_clock, ProviderKind, BaseProvider, name_of,
  is_available, record_success, record_failure, invoke, unavailable_error, settle, complete,
}

-- An available provider has no cooldown and is under its threshold, any other has a cooldown, and
-- no more failures than requests are counted.
pub record IsConsistent (profile : ProviderProfile) (h : ProviderHealth) : Type 0 where
  pub serving :
      h.status ≡ ProviderStatus.available
      → (h.cooldown_until ≡ none) × (h.consecutive_failures < profile.max_consecutive_failures)
  pub resting : h.status ≢ ProviderStatus.available → is_some h.cooldown_until ≡ true
  pub counted : h.total_failures ≤ h.total_requests

is_available-IsConsistent :
    (profile : ProviderProfile) (now : ℕ) (h : ProviderHealth)
    → 0 < profile.max_consecutive_failures
    → IsConsistent profile h
    → IsConsistent profile (is_available now h).1
unfolding is_available
is_available-IsConsistent profile now h positive v = ground arith

record_success-IsConsistent :
    (profile : ProviderProfile) (now : ℕ) (response : LlmResponse) (h : ProviderHealth)
    → 0 < profile.max_consecutive_failures
    → h.total_failures ≤ h.total_requests
    → IsConsistent profile (record_success now response h)
unfolding record_success
record_success-IsConsistent profile now response h positive v = ground arith

record_failure-IsConsistent :
    (profile : ProviderProfile) (now : ℕ) (exc : ProviderError) (h : ProviderHealth)
    → IsConsistent profile h
    → h.status ≡ ProviderStatus.available
    → h.total_failures < h.total_requests
    → IsConsistent profile (record_failure profile now exc h)
unfolding record_failure
record_failure-IsConsistent profile now exc h v a c = ground arith

available_after :
    (now : ℕ) (h : ProviderHealth)
    → (is_available now h).0 ≡ true
    → (is_available now h).1.status ≡ ProviderStatus.available
unfolding is_available
available_after now h ready = ground arith

settle-IsConsistent :
    (os : Platform) (answer : Result ProviderError LlmResponse) (p : BaseProvider) (r : Readings)
    → 0 < p.profile.max_consecutive_failures
    → IsConsistent p.profile p.health
    → p.health.status ≡ ProviderStatus.available
    → p.health.total_failures < p.health.total_requests
    → IsConsistent p.profile (settle os answer p r).1.health
unfolding settle
settle-IsConsistent os (ok response) p r positive v a c =
    record_success-IsConsistent p.profile (os.clock r.times) response p.health positive
      (omega arith)
settle-IsConsistent os (err exc) p r positive v a c =
    record_failure-IsConsistent p.profile (os.clock r.times) exc p.health v a c

-- When `max_consecutive_failures` is not 0 and the health was consistent before, `complete` leaves it
-- consistent, however the vendor answers: an available provider has no cooldown and is under its
-- threshold, any other has a cooldown, and no more failures than requests are counted.
pub complete-IsConsistent :
    (os : Platform) (request : LlmRequest) (p : BaseProvider) (r : Readings)
    → 0 < p.profile.max_consecutive_failures
    → IsConsistent p.profile p.health
    → IsConsistent p.profile (complete os request p r).1.health
unfolding complete
complete-IsConsistent os request p r positive v =
    let now = os.clock r.times in
    let v' = is_available-IsConsistent p.profile now p.health positive v in
    elim (Bool-cases (is_available now p.health).0) [
      | inl ready ↦
          let a = available_after now p.health ready in
          let h = (is_available now p.health).1 in
          let counted : BaseProvider = record p {
            health = record h { total_requests = h.total_requests + 1 };
          } in
          rw ready (
            settle-IsConsistent os (invoke os p.kind (name_of p) request (after_clock r)).0 counted
              (invoke os p.kind (name_of p) request (after_clock r)).1 positive
              (record {
                serving = v'.serving;
                resting = v'.resting;
                counted = omega (arith, v'.counted);
              })
              a (omega (arith, v'.counted)))
      | inr resting ↦ rw resting v'
    ]

-- A provider that hit its failure threshold is FAILED, and `refresh` does not list that status.
failed_refused :
    (os : Platform) (request : LlmRequest) (p : BaseProvider) (r : Readings)
    → p.health.status ≡ ProviderStatus.failed
    → complete os request p r ≡ (err (unavailable_error os p), p, after_clock r)
unfolding complete is_available
failed_refused os request p r h = ground arith

-- The provider after some requests, with what each got.
unfoldable pub serve :
    Platform
    → List LlmRequest
    → BaseProvider
    → Readings
    → List (Result ProviderError LlmResponse) × BaseProvider × Readings
serve os [] p r = ([], p, r)
serve os (request ∷ rest) p r =
    let (answer, p', r') = complete os request p r in
    let (answers, p'', r'') = serve os rest p' r' in (answer ∷ answers, p'', r'')

-- A FAILED provider never serves again: whatever the clock says, and however long its cooldown is
-- over, every later request is refused as unavailable and the health never changes.
pub failed_forever :
    (os : Platform) (requests : List LlmRequest) (p : BaseProvider) (r : Readings)
    → p.health.status ≡ ProviderStatus.failed
    → All (λ answer. answer ≡ err (unavailable_error os p)) (serve os requests p r).0
      × ((serve os requests p r).1 ≡ p)
unfolding serve
failed_forever os [] p r h = (tt, refl)
failed_forever os (request ∷ rest) p r h =
    rw (failed_refused os request p r h)
      (let (all, same) = failed_forever os rest p (after_clock r) h in ((refl, all), same))

-- A provider that was rate limited, or whose credit ran out, at the time `now` serves again exactly
-- from the end of its cooldown on, and then with no failure counted against it.
pub recovery_exact :
    (profile : ProviderProfile) (now later : ℕ) (exc : ProviderError) (h : ProviderHealth)
    → (exc.kind ≡ ErrorKind.rate_limit) ⊎ (exc.kind ≡ ErrorKind.credit_exhausted)
    → let h' = record_failure profile now exc h in
      let rest = is_available later h' in
      let wait : ℕ = elim exc.kind [
        | ErrorKind.rate_limit ↦ profile.cooldown_seconds
        | _ ↦ profile.credit_exhausted_cooldown_seconds
      ] in
      (rest.0 ≡ leb (now + wait) later)
      × (rest.1 ≡ (
          if leb (now + wait) later
          then record h' {
            status = ProviderStatus.available;
            consecutive_failures = 0;
            cooldown_until = none;
            last_error = none;
          }
          else h'))
unfolding record_failure is_available
recovery_exact profile now later exc h kinds = ground arith

-- An error of no special kind.
abbrev pub IsOrdinary : ProviderError → Type 0
IsOrdinary exc = (exc.kind ≢ ErrorKind.rate_limit) × (exc.kind ≢ ErrorKind.credit_exhausted)

-- Every call of the vendor raises a `ProviderError` of no special kind.
pub record IsDown (os : Platform) : Type 0 where
  pub error : ℕ → ProviderError
  pub raises :
      (n : ℕ) (name : String) (request : LlmRequest)
      → os.adapter n name request ≡ provider_raised (error n)
  pub ordinary : (n : ℕ) → IsOrdinary (error n)

-- One request to a vendor that is down.
down_step :
    (os : Platform) (down : IsDown os) (request : LlmRequest) (p : BaseProvider) (r : Readings)
    → p.kind ≡ ProviderKind.via_adapter
    → p.health.status ≡ ProviderStatus.available
    → let p' = (complete os request p r).1 in
      (p'.kind ≡ ProviderKind.via_adapter)
      × (p'.profile ≡ p.profile)
      × (p'.health.consecutive_failures ≡ p.health.consecutive_failures + 1)
      × (p'.health.status ≡ (
          if leb p.profile.max_consecutive_failures (p.health.consecutive_failures + 1)
          then ProviderStatus.failed
          else ProviderStatus.available))
unfolding complete is_available invoke settle record_failure
down_step os down request p r k a =
    ground (arith, down.raises r.calls (name_of p) request, down.ordinary r.calls)

-- Under a vendor that is down, an available provider counts each failure, turns FAILED with the
-- request that reaches `max_consecutive_failures` and not before, and stays at that count.
pub down_threshold :
    (os : Platform) (down : IsDown os) (requests : List LlmRequest) (p : BaseProvider)
    (r : Readings)
    → p.kind ≡ ProviderKind.via_adapter
    → p.health.status ≡ ProviderStatus.available
    → p.health.consecutive_failures < p.profile.max_consecutive_failures
    → let h = (serve os requests p r).1.health in
      let tried = p.health.consecutive_failures + length requests in
      (h.consecutive_failures ≡ min tried p.profile.max_consecutive_failures)
      × (h.status ≡ (
          if leb p.profile.max_consecutive_failures tried
          then ProviderStatus.failed
          else ProviderStatus.available))
unfolding serve
down_threshold os down [] p r k a c = ground arith
down_threshold os down (request ∷ rest) p r k a c =
    let (k', same, n, st) = down_step os down request p r k a in
    let p' = (complete os request p r).1 in
    let r' = (complete os request p r).2 in
    elim (Bool-cases (leb p.profile.max_consecutive_failures (p.health.consecutive_failures + 1))) [
      | inl reached ↦
          let stays = (failed_forever os rest p' r' (ground arith)).1 in
          ground (arith, ap (λ (q : BaseProvider). q.health) stays)
      | inr below ↦
          let later = down_threshold os down rest p' r' k' (ground arith) (ground (arith, same)) in
          ground (arith, same, later)
    ]
