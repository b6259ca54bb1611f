-- ===== src/Providers/State.antt =====
-- providers/state.py and providers/errors.py: the values that routing and failover read. Times and
-- intervals are numbers of one unit; `cost_per_1k_tokens` and `weight` are in thousandths, so the
-- decimals of the profiles are exact.
use hookclose.Prelude.{
  ℕ, ◌-◌, String, str_eq, if◌then◌else◌, Bool, true, false, ◌||◌, Option, none, some, List, [], ◌∷◌,
}

pub data Capability : Type 0 where
  architecture code_generation review analysis extraction embedding : Capability

-- `capability.value`
unfoldable pub capability_value : Capability → String
capability_value Capability.architecture = "architecture"
capability_value Capability.code_generation = "code_generation"
capability_value Capability.review = "review"
capability_value Capability.analysis = "analysis"
capability_value Capability.extraction = "extraction"
capability_value Capability.embedding = "embedding"

abbrev pub same_capability : Capability → Capability → Bool
same_capability Capability.architecture Capability.architecture = true
same_capability Capability.code_generation Capability.code_generation = true
same_capability Capability.review Capability.review = true
same_capability Capability.analysis Capability.analysis = true
same_capability Capability.extraction Capability.extraction = true
same_capability Capability.embedding Capability.embedding = true
same_capability _ _ = false

pub data ProviderStatus : Type 0 where
  available rate_limited offline cooldown failed : ProviderStatus

-- `status.value`
unfoldable pub status_value : ProviderStatus → String
status_value ProviderStatus.available = "AVAILABLE"
status_value ProviderStatus.rate_limited = "RATE_LIMITED"
status_value ProviderStatus.offline = "OFFLINE"
status_value ProviderStatus.cooldown = "COOLDOWN"
status_value ProviderStatus.failed = "FAILED"

-- `ProviderStatus(value)`, which raises `ValueError` on another text.
unfoldable pub status_of_value : String → Option ProviderStatus
status_of_value value =
    if str_eq value "AVAILABLE"
    then some ProviderStatus.available
    else if str_eq value "RATE_LIMITED"
    then some ProviderStatus.rate_limited
    else if str_eq value "OFFLINE"
    then some ProviderStatus.offline
    else if str_eq value "COOLDOWN"
    then some ProviderStatus.cooldown
    else if str_eq value "FAILED"
    then some ProviderStatus.failed
    else none

abbrev pub is_unavailable_status : ProviderStatus → Bool
is_unavailable_status ProviderStatus.available = false
is_unavailable_status ProviderStatus.rate_limited = true
is_unavailable_status ProviderStatus.offline = true
is_unavailable_status ProviderStatus.cooldown = true
is_unavailable_status ProviderStatus.failed = true

-- `status == ProviderStatus.AVAILABLE`
abbrev pub is_available_status : ProviderStatus → Bool
is_available_status ProviderStatus.available = true
is_available_status _ = false

pub record ProviderProfile : Type 0 where
  pub name : String
  pub capabilities : List Capability
  pub cost_per_1k_tokens : ℕ  -- in thousandths
  pub context_window : ℕ
  pub weight : ℕ  -- in thousandths
  pub max_consecutive_failures : ℕ
  pub cooldown_seconds : ℕ
  pub credit_exhausted_cooldown_seconds : ℕ
  pub daily_token_budget : Option ℕ

-- The profile with the default values of the dataclass.
abbrev pub profile_of : String → List Capability → ℕ → ℕ → ProviderProfile
profile_of name capabilities cost context_window = record {
  name = name;
  capabilities = capabilities;
  cost_per_1k_tokens = cost;
  context_window = context_window;
  weight = 1000;
  max_consecutive_failures = 3;
  cooldown_seconds = 60;
  credit_exhausted_cooldown_seconds = 1800;
  daily_token_budget = none;
}

abbrev pub supports_in : List Capability → Capability → Bool
supports_in [] capability = false
supports_in (c ∷ cs) capability = same_capability c capability || supports_in cs capability

-- `capability in self.capabilities`
abbrev pub supports : ProviderProfile → Capability → Bool
supports profile capability = supports_in profile.capabilities capability

pub record ProviderHealth : Type 0 where
  pub status : ProviderStatus
  pub consecutive_failures : ℕ
  pub cooldown_until : Option ℕ
  pub tokens_used : ℕ
  pub total_requests : ℕ
  pub total_failures : ℕ
  pub last_error : Option String
  pub last_used_at : Option ℕ

-- `ProviderHealth()`
abbrev pub new_health : ProviderHealth
new_health = record {
  status = ProviderStatus.available;
  consecutive_failures = 0;
  cooldown_until = none;
  tokens_used = 0;
  total_requests = 0;
  total_failures = 0;
  last_error = none;
  last_used_at = none;
}

-- Values are not shared here, so the copy is the value.
abbrev pub snapshot : ProviderHealth → ProviderHealth
snapshot h = h

-- `max(0, daily_token_budget - self.tokens_used)`: subtraction on ℕ stops at 0.
abbrev pub remaining_budget : ProviderHealth → Option ℕ → Option ℕ
remaining_budget h none = none
remaining_budget h (some daily_token_budget) = some (daily_token_budget - h.tokens_used)

pub record ProviderInvocation : Type 0 where
  pub provider : String
  pub content : String
  pub total_tokens : ℕ
  pub attempts : ℕ
  pub failed_over_from : List String

-- The subclasses of `ProviderError`, by kind.
pub data ErrorKind : Type 0 where
  generic rate_limit credit_exhausted timeout unavailable : ErrorKind

pub record ProviderError : Type 0 where
  pub kind : ErrorKind
  pub message : String  -- str(exc)

-- The class variable `code`.
unfoldable pub error_code : ErrorKind → String
error_code ErrorKind.generic = "aine.provider.error"
error_code ErrorKind.rate_limit = "aine.provider.rate_limited"
error_code ErrorKind.credit_exhausted = "aine.provider.credit_exhausted"
error_code ErrorKind.timeout = "aine.provider.timeout"
error_code ErrorKind.unavailable = "aine.provider.unavailable"

-- `NoProviderAvailable(message)`
pub data NoProviderAvailable : Type 0 where
  no_provider_available : String → NoProviderAvailable
