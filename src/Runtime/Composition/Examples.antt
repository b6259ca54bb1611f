-- ===== src/Runtime/Composition/Examples.antt =====
-- A runtime with a key of OpenRouter, and one with no key.
use hookclose.Prelude.{
  ◌≡◌, refl, inl, none, some, [], ◌∷◌, ok, err, true, if◌then◌else◌, filter, values,
}
use hookclose.Contracts.{LlmRequest}
use hookclose.Providers.State.{Capability, ErrorKind, ProviderInvocation, supports}
use hookclose.Providers.Base.{Platform, provider_raised}
use hookclose.Providers.Registry.{for_capability}
use hookclose.Providers.Manager.{manager_complete}
use hookclose.Providers.Manager.Invariant.{Asked, after_requests}
use hookclose.Adapters.Openai.{Connects}
use hookclose.Runtime.Composition.{
  ProvidersConfig, default_config, Runtime, adapter_error, build_provider_registry, build_runtime,
}
use hookclose.Runtime.Composition.Described.{
  described, description, connected, composition_described,
}
use hookclose.Runtime.Composition.Served.{runtime_serves}

-- The vendors are all down.
abbrev pub down : Platform
down = record {
  clock = λ n. n;
  adapter =
      λ n name request. provider_raised (record { kind = ErrorKind.timeout; message = "deadline" });
  repr = λ s. s;
  decimal = λ n. "3";
  isoformat = λ t. "2026-01-01";
  strip = λ s. s;
}

abbrev with_key : ProvidersConfig
with_key = record default_config { openrouter_api_key = some "sk-or-1" }

abbrev request : LlmRequest
request = record {
  model = "auto";
  messages = [];
  max_tokens = none;
  temperature = none;
  top_p = none;
  stop = none;
  response_format = none;
}

abbrev pub asked : Asked
asked = record { request = request; capability = Capability.review; order = none }

-- The package of the client is installed.
abbrev installed : Connects
installed adapter = true

composition_described_example :
    (build_provider_registry installed with_key
      ≡ (if connected installed with_key then ok (description with_key) else err adapter_error))
    × (for_capability (described with_key) Capability.extraction
        ≡ filter (λ p. supports p.profile Capability.extraction) (values (described with_key)))
composition_described_example = composition_described installed with_key Capability.extraction

runtime_serves_example :
    (runtime : Runtime) × (build_runtime installed (λ name. none) (some with_key) none none
      ≡ (if connected installed with_key then ok runtime else err adapter_error))
    × (inv : ProviderInvocation) × ((manager_complete down request Capability.code_generation none
          (after_requests down (asked ∷ asked ∷ []) runtime.providers)).0
        ≡ ok inv)
runtime_serves_example =
    runtime_serves installed down (λ name. none) with_key none none (asked ∷ asked ∷ []) request
      Capability.code_generation refl (inl refl)
