-- ===== src/Providers/Base.antt =====
-- providers/base.py and the `_invoke` of providers/implementations.py: one vendor with its health.
-- Each `self._clock()` takes the next reading of the clock, and each call of a vendor's adapter gets
-- the next answer; both are parameters, and no order of the readings is assumed.
pub mod Health
use Prim.Native.String.{count}
use hookclose.Prelude.{
  ℕ, suc, ◌+◌, ◌*◌, ◌/◌, max, String, format, Bool, true, false, ◌&&◌, Option, none, some, List, [],
  ◌∷◌, ◌++◌, Result, ok, err, leb, ltb, if◌then◌else◌,
}
use hookclose.Contracts.{Role, LlmMessage, LlmRequest, LlmUsage, LlmResponse}
use hookclose.Providers.State.{
  Capability, ProviderStatus, status_value, is_available_status, ProviderProfile, ProviderHealth,
  new_health, remaining_budget, ErrorKind, ProviderError, error_code, supports,
}

-- What an adapter's `complete` does: it returns, raises a `ProviderError`, or raises another exception.
pub data AdapterAnswer : Type 0 where
  responded : LlmResponse → AdapterAnswer
  provider_raised : ProviderError → AdapterAnswer
  other_raised : String → AdapterAnswer

-- The code that is not in the repository: the clock, the vendors' adapters, `repr` of a text, `str`
-- of an `int`, the ISO text of a time and `str.strip`.
pub record Platform : Type 0 where
  pub clock : ℕ → ℕ
  pub adapter : ℕ → String → LlmRequest → AdapterAnswer
  pub repr : String → String
  pub decimal : ℕ → String  -- str(n)
  pub isoformat : ℕ → String
  pub strip : String → String

-- How far the clock and the adapters have been read.
pub record Readings : Type 0 where
  pub times : ℕ
  pub calls : ℕ

abbrev pub after_clock : Readings → Readings
after_clock r = record r { times = suc r.times }

-- `_AdapterProvider` and its subclasses, `LocalProvider` with an adapter, and `LocalProvider` without.
pub data ProviderKind : Type 0 where
  via_adapter local_adapter local_stub : ProviderKind

pub record BaseProvider : Type 0 where
  pub kind : ProviderKind
  pub profile : ProviderProfile
  pub health : ProviderHealth

abbrev pub name_of : BaseProvider → String
name_of p = p.profile.name

-- The statuses that `refresh` lists.
abbrev pub is_resting : ProviderStatus → Bool
is_resting ProviderStatus.cooldown = true
is_resting ProviderStatus.rate_limited = true
is_resting ProviderStatus.offline = true
is_resting _ = false

-- `cooldown_until is not None and now >= cooldown_until`
abbrev pub has_elapsed : ℕ → Option ℕ → Bool
has_elapsed now none = false
has_elapsed now (some until) = leb until now

unfoldable pub refresh : ℕ → ProviderHealth → ProviderHealth × Bool
refresh now h =
    if is_resting h.status && has_elapsed now h.cooldown_until
    then (
      record h {
        status = ProviderStatus.available;
        consecutive_failures = 0;
        cooldown_until = none;
        last_error = none;
      },
      true,
    )
    else (h, false)

-- `is_available` at the time `now`, with the health that it leaves.
unfoldable pub is_available : ℕ → ProviderHealth → Bool × ProviderHealth
unfolding refresh
is_available now h = let (h', _) = refresh now h in (is_available_status h'.status, h')

abbrev pub within_budget : Option ℕ → ℕ → Bool
within_budget none estimated_tokens = true
within_budget (some remaining) estimated_tokens =
    if leb remaining 0 then false else leb estimated_tokens remaining

unfoldable pub has_budget : BaseProvider → ℕ → Bool
has_budget p estimated_tokens =
    within_budget (remaining_budget p.health p.profile.daily_token_budget) estimated_tokens

unfoldable pub record_success : ℕ → LlmResponse → ProviderHealth → ProviderHealth
record_success now response h = record h {
  status = ProviderStatus.available;
  consecutive_failures = 0;
  cooldown_until = none;
  last_error = none;
  last_used_at = some now;
  tokens_used = h.tokens_used + response.usage.total_tokens;
}

-- The end of `_record_failure`, for errors of no special kind.
unfoldable pub count_failure : ProviderProfile → ℕ → ProviderHealth → ProviderHealth
count_failure profile now h =
    let h' = record h { consecutive_failures = h.consecutive_failures + 1 } in
    if leb profile.max_consecutive_failures h'.consecutive_failures
    then record h' {
      status = ProviderStatus.failed;
      cooldown_until = some (now + profile.cooldown_seconds);
    }
    else h'

-- The branches of `_record_failure` on the class of the error.
unfoldable pub react : ErrorKind → ProviderProfile → ℕ → ProviderHealth → ProviderHealth
unfolding count_failure
react ErrorKind.rate_limit profile now h = record h {
  status = ProviderStatus.rate_limited;
  cooldown_until = some (now + profile.cooldown_seconds);
}
react ErrorKind.credit_exhausted profile now h = record h {
  status = ProviderStatus.offline;
  cooldown_until = some (now + profile.credit_exhausted_cooldown_seconds);
}
react ErrorKind.generic profile now h = count_failure profile now h
react ErrorKind.timeout profile now h = count_failure profile now h
react ErrorKind.unavailable profile now h = count_failure profile now h

unfoldable pub record_failure :
    ProviderProfile → ℕ → ProviderError → ProviderHealth → ProviderHealth
unfolding react
record_failure profile now exc h = react exc.kind profile now (record h {
  total_failures = h.total_failures + 1;
  last_error = some (format (error_code exc.kind ∷ ": " ∷ exc.message ∷ []));
})

abbrev pub is_user : Role → Bool
is_user Role.user = true
is_user _ = false

-- `next((m.content for m in reversed(messages) if m.role == "user"), "")`
abbrev pub last_user : String → List LlmMessage → String
last_user found [] = found
last_user found (m ∷ ms) = last_user (if is_user m.role then m.content else found) ms

-- The deterministic answer of `LocalProvider` with no adapter.
unfoldable pub fallback_response : (String → String) → LlmRequest → LlmResponse
fallback_response strip request =
    let content = strip (format ("[local-fallback] " ∷ last_user "" request.messages ∷ [])) in
    let approx = max 1 (count content / 4) in
    record {
      model = "local-fallback";
      content = content;
      finish_reason = "stop";
      usage = record {
        prompt_tokens = approx;
        completion_tokens = approx;
        total_tokens = 2 * approx;
      };
    }

-- `except ProviderError: raise` and `except Exception as exc: raise ProviderError(...)`.
unfoldable pub translate : String → AdapterAnswer → Result ProviderError LlmResponse
translate name (responded response) = ok response
translate name (provider_raised exc) = err exc
translate name (other_raised exc) = err (record {
  kind = ErrorKind.generic;
  message = format (name ∷ " invocation failed: " ∷ exc ∷ []);
})

module _ (os : Platform) where
  -- `_invoke` of each class of provider.
  unfoldable pub invoke :
      ProviderKind → String → LlmRequest → Readings → Result ProviderError LlmResponse × Readings
  unfolding translate
  invoke ProviderKind.via_adapter name request r =
      (translate name (os.adapter r.calls name request), record r { calls = suc r.calls })
  invoke ProviderKind.local_adapter name request r =
      (translate "local" (os.adapter r.calls name request), record r { calls = suc r.calls })
  invoke ProviderKind.local_stub name request r = (ok (fallback_response os.strip request), r)

  unfoldable pub unavailable_error : BaseProvider → ProviderError
  unavailable_error p = record {
    kind = ErrorKind.unavailable;
    message = format (
        "provider "
        ∷ os.repr (name_of p)
        ∷ " is "
        ∷ status_value p.health.status
        ∷ " (not available)"
        ∷ []);
  }

  -- The `try` of `complete`: what `_invoke` did is recorded in the health.
  unfoldable pub settle :
      Result ProviderError LlmResponse
      → BaseProvider
      → Readings
      → Result ProviderError LlmResponse × BaseProvider × Readings
  settle (ok response) p r = (
    ok response,
    record p { health = record_success (os.clock r.times) response p.health },
    after_clock r,
  )
  settle (err exc) p r = (
    err exc,
    record p { health = record_failure p.profile (os.clock r.times) exc p.health },
    after_clock r,
  )

  unfoldable pub complete :
      LlmRequest
      → BaseProvider
      → Readings
      → Result ProviderError LlmResponse × BaseProvider × Readings
  complete request p r =
      let (ready, h) = is_available (os.clock r.times) p.health in
      let p' = record p { health = h } in
      let counted = record p' { health = record h { total_requests = h.total_requests + 1 } } in
      let (answer, r') = invoke p.kind (name_of p) request (after_clock r) in
      if ready then settle answer counted r' else (err (unavailable_error p'), p', after_clock r)
