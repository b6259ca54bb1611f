-- ===== src/Adapters/Openai/Examples.antt =====
-- A client whose quota is used up.
use hookclose.Prelude.{◌+◌, ◌≡◌, refl, none, some, [], err}
use hookclose.Contracts.{LlmRequest}
use hookclose.Providers.Base.{Platform, Readings, BaseProvider, other_raised, complete}
use hookclose.Providers.Implementations.{openai_provider}
use hookclose.Adapters.Openai.{Sdk, OpenAiAdapter, SdkException, from_api_key, map_error}
use hookclose.Adapters.Openai.Classified.{through, status_after, rest_after, openai_failure_exact}

abbrev quota : SdkException
quota = record {
  status_code = some 429;
  class_name = "RateLimitError";
  message = "insufficient_quota";
}

abbrev sdk : Sdk
sdk = record { create = λ n options arguments. err quota; lower = λ s. s }

abbrev self : OpenAiAdapter
unfolding from_api_key
self = from_api_key "sk-1" "gpt-4o-mini" none 60000 none

abbrev os : Platform
os = record {
  clock = λ n. n;
  adapter = λ n name request. other_raised "no vendor";
  repr = λ s. s;
  decimal = λ n. "3";
  isoformat = λ t. "2026-01-01";
  strip = λ s. s;
}

abbrev request : LlmRequest
request = record {
  model = "auto";
  messages = [];
  max_tokens = none;
  temperature = some 0;
  top_p = none;
  stop = none;
  response_format = some "json";
}

abbrev start : Readings
start = record { times = 0; calls = 0 }

abbrev vendor : BaseProvider
vendor = openai_provider none

openai_failure_exact_example :
    let (answer, p', r') = complete (through sdk self os) request vendor start in
    (answer ≡ err (map_error sdk.lower quota))
    × (p'.health.status ≡ status_after quota (sdk.lower quota.message) vendor.profile vendor.health)
    × (p'.health.cooldown_until
        ≡ rest_after quota (sdk.lower quota.message) vendor.profile vendor.health 1)
    × (p'.health.total_requests ≡ vendor.health.total_requests + 1)
    × (p'.health.total_failures ≡ vendor.health.total_failures + 1)
    × (p'.health.tokens_used ≡ vendor.health.tokens_used)
openai_failure_exact_example =
    openai_failure_exact sdk self os request vendor start quota refl refl refl
