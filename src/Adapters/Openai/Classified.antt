-- ===== src/Adapters/Openai/Classified.antt =====
-- What an exception of the client does to the health of the provider.
use hookclose.Prelude.{ℕ, suc, ◌+◌, String, ◌≡◌, refl, Option, some, arith, err, if◌then◌else◌, leb}
use hookclose.Contracts.{LlmRequest}
use hookclose.Providers.State.{ProviderStatus, ProviderProfile, ProviderHealth, ErrorKind}
use hookclose.Providers.Base.{
  Platform, Readings, ProviderKind, BaseProvider, is_available, record_failure, invoke, translate,
  settle, complete,
}
use hookclose.Adapters.Openai.{
  Sdk, OpenAiAdapter, SdkException, is_throttled, names_quota, is_timed_out, map_error,
  build_kwargs, adapter_complete,
}

-- The platform whose vendor is reached through the adapter.
abbrev pub through : Sdk → OpenAiAdapter → Platform → Platform
through sdk self os = record os { adapter = λ n name request. adapter_complete sdk self n request }

-- The kinds of error.
map_error-kind :
    (lower : String → String) (exc : SdkException)
    → (map_error lower exc).kind ≡ (
        if is_throttled exc
        then (if names_quota (lower exc.message)
            then ErrorKind.credit_exhausted
            else ErrorKind.rate_limit)
        else if is_timed_out exc (lower exc.message)
        then ErrorKind.timeout
        else ErrorKind.generic)
unfolding map_error
map_error-kind lower exc = ground arith

abbrev pub status_after : SdkException → String → ProviderProfile → ProviderHealth → ProviderStatus
status_after exc lowered profile h =
    if is_throttled exc
    then (if names_quota lowered then ProviderStatus.offline else ProviderStatus.rate_limited)
    else if leb profile.max_consecutive_failures (h.consecutive_failures + 1)
    then ProviderStatus.failed
    else ProviderStatus.available

abbrev pub rest_after : SdkException → String → ProviderProfile → ProviderHealth → ℕ → Option ℕ
rest_after exc lowered profile h now =
    if is_throttled exc
    then some (
        now
        + (if names_quota lowered
            then profile.credit_exhausted_cooldown_seconds
            else profile.cooldown_seconds))
    else if leb profile.max_consecutive_failures (h.consecutive_failures + 1)
    then some (now + profile.cooldown_seconds)
    else h.cooldown_until

-- The health of a provider after an error of this kind.
react-status :
    (profile : ProviderProfile) (now : ℕ) (lower : String → String) (exc : SdkException)
    (h : ProviderHealth)
    → h.status ≡ ProviderStatus.available
    → let h' = record_failure profile now (map_error lower exc) h in
      (h'.status ≡ status_after exc (lower exc.message) profile h)
      × (h'.cooldown_until ≡ rest_after exc (lower exc.message) profile h now)
      × (h'.total_failures ≡ h.total_failures + 1)
      × (h'.total_requests ≡ h.total_requests)
      × (h'.tokens_used ≡ h.tokens_used)
unfolding record_failure
react-status profile now lower exc h a = ground (arith, map_error-kind lower exc)

-- A call that raises in the client, of a provider that can serve, raises in the provider with the
-- client's message translated, and rests the provider by what was raised: offline for its long
-- cooldown when the quota is used up, rate limited for its cooldown on any other refusal for too
-- many requests, and otherwise failed for its cooldown once the failures in a row reach its
-- threshold, and in service before. Each such call is counted as a request and as a failure.
pub openai_failure_exact :
    (sdk : Sdk) (self : OpenAiAdapter) (os : Platform) (request : LlmRequest) (p : BaseProvider)
    (r : Readings) (exc : SdkException)
    → p.kind ≡ ProviderKind.via_adapter
    → p.health.status ≡ ProviderStatus.available
    → sdk.create r.calls self.client (build_kwargs self request) ≡ err exc
    → let (answer, p', r') = complete (through sdk self os) request p r in
      let now = os.clock (suc r.times) in
      (answer ≡ err (map_error sdk.lower exc))
      × (p'.health.status ≡ status_after exc (sdk.lower exc.message) p.profile p.health)
      × (p'.health.cooldown_until ≡ rest_after exc (sdk.lower exc.message) p.profile p.health now)
      × (p'.health.total_requests ≡ p.health.total_requests + 1)
      × (p'.health.total_failures ≡ p.health.total_failures + 1)
      × (p'.health.tokens_used ≡ p.health.tokens_used)
unfolding complete is_available invoke settle adapter_complete translate
openai_failure_exact sdk self os request p r exc k a raised =
    let now = os.clock (suc r.times) in
    let asked : ProviderHealth = record p.health {
      status = ProviderStatus.available;
      total_requests = p.health.total_requests + 1;
    } in
    let (status, until, failures, requests, tokens) =
      react-status p.profile now sdk.lower exc asked refl in
    rw (k, a, raised) (refl, status, until, requests, failures, tokens)
