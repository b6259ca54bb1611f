-- ===== src/Workers/Keyless.antt =====
-- The worker of workers/openclaw.py with the generator of workers/codegen.py, in the runtime of
-- runtime/composition.py without a key of a vendor.
mod Examples
use hookclose.Prelude.{ℕ, String, refl, ◌∙◌, Option, List, Result, ok, err}
use hookclose.Events.{EventBus}
use hookclose.Providers.State.{Capability, NoProviderAvailable, no_provider_available}
use hookclose.Providers.Base
use hookclose.Providers.Manager.{ProviderStateStore}
use hookclose.Providers.Manager.Invariant.{Asked}
use hookclose.Runtime.Composition.{ProvidersConfig}
use hookclose.Runtime.Composition.Unserved.{manager_after}
use hookclose.Workers.Contracts.{GenerationResult}
use hookclose.Workers.Envelope.{JsonReader}
use hookclose.Workers.Codegen.{CodeGenerator, generate}
use hookclose.Workers.Openclaw.{Platform}

-- The answer of the generator, with `str(exc)` for what it raises.
abbrev pub told : Result NoProviderAvailable GenerationResult → Result String GenerationResult
told (ok result) = ok result
told (err (no_provider_available message)) = err message

-- The generator over the runtime's manager, after whatever else was asked of it.
abbrev pub generator_after :
    Base.Platform → ProvidersConfig → EventBus → ProviderStateStore → ℕ → List Asked → CodeGenerator
generator_after llm config bus store max_tokens calls = record {
  manager = manager_after llm config bus store calls;
  capability = Capability.code_generation;
  max_tokens = max_tokens;
}

-- The worker's platform with that generator: `calls n` was asked of the manager before the generation
-- with the number `n`.
abbrev pub with_codegen : Base.Platform → JsonReader → (ℕ → CodeGenerator) → Platform → Platform
with_codegen llm json generator os = record os {
  generate = λ n goal context. told (generate llm json goal context (generator n)).0;
}
