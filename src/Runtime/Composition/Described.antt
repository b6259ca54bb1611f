-- ===== src/Runtime/Composition/Described.antt =====
-- What a configuration registers, described without the registry's operations.
use hookclose.Prelude.{
  String, ◌≡◌, refl, Bool, true, false, not, ◌||◌, ◌&&◌, [], ◌∷◌, ◌++◌, arith, Result, ok, err,
  Dict, if◌then◌else◌, lookup, values, filter, is_empty,
}
use hookclose.Providers.State.{Capability, supports}
use hookclose.Providers.Base.{BaseProvider, name_of}
use hookclose.Providers.Implementations.{openai_provider, local_provider}
use hookclose.Providers.Registry.{ProviderRegistry, register, may_precede, for_capability, names}
use hookclose.Runtime.Composition.{
  ProvidersConfig, openrouter_profile, openrouter_adapter, openai_adapter, and_then, BuildError,
  adapter_error, Wired, register_vendor, register_local, build_provider_registry,
}
use hookclose.Adapters.Openai.{OpenAiAdapter, Connects, is_set}
use hookclose.Prelude.{some, none, eq_iff, All}
use hookclose.Providers.Manager.Turn.{IsKeyed}

abbrev openrouter : BaseProvider
openrouter = openai_provider (some openrouter_profile)

abbrev openai : BaseProvider
openai = openai_provider none

abbrev local : BaseProvider
local = local_provider none

abbrev entry_if : Bool → String → BaseProvider → ProviderRegistry
entry_if wanted name p = if wanted then (name, p) ∷ [] else []

-- The registered providers when the first two keys are there or not, and when the fallback is wanted.
abbrev registered : Bool → Bool → Bool → ProviderRegistry
registered has_openrouter has_openai fallback =
    entry_if has_openrouter "openrouter" openrouter
    ++ (entry_if has_openai "openai" openai
        ++ entry_if (fallback || not (has_openrouter || has_openai)) "local" local)

abbrev pub described : ProvidersConfig → ProviderRegistry
described config =
    registered (is_set config.openrouter_api_key) (is_set config.openai_api_key)
      config.enable_local_fallback

abbrev adapter_if : Bool → String → OpenAiAdapter → Dict OpenAiAdapter
adapter_if wanted name adapter = if wanted then (name, adapter) ∷ [] else []

-- The adapters of the vendors that have a key.
abbrev pub adapters_of : ProvidersConfig → Dict OpenAiAdapter
adapters_of config =
    adapter_if (is_set config.openrouter_api_key) "openrouter" (openrouter_adapter config)
    ++ adapter_if (is_set config.openai_api_key) "openai" (openai_adapter config)

-- Whether an adapter can be made for each vendor that has a key.
abbrev pub connected : Connects → ProvidersConfig → Bool
connected connects config =
    (not (is_set config.openrouter_api_key) || connects (openrouter_adapter config))
    && (not (is_set config.openai_api_key) || connects (openai_adapter config))

abbrev pub description : ProvidersConfig → Wired
description config = record { registry = described config; adapters = adapters_of config }

abbrev build_of :
    Connects → Bool → Bool → Bool → OpenAiAdapter → OpenAiAdapter → Result BuildError Wired
build_of connects a b l x y =
    and_then (register_vendor connects a x openrouter (record { registry = []; adapters = [] }))
      (λ w.
        and_then (register_vendor connects b y openai w)
          (λ w'. register_local (l || is_empty (names w'.registry)) w'))

build_of-eq :
    (connects : Connects) (a b l : Bool) (x y : OpenAiAdapter)
    → build_of connects a b l x y ≡ (
        if (not a || connects x) && (not b || connects y)
        then ok (record {
          registry = registered a b l;
          adapters = adapter_if a "openrouter" x ++ adapter_if b "openai" y;
        })
        else err adapter_error)
unfolding register
build_of-eq connects true true true x y = ground arith
build_of-eq connects true true false x y = ground arith
build_of-eq connects true false true x y = ground arith
build_of-eq connects true false false x y = ground arith
build_of-eq connects false true true x y = ground arith
build_of-eq connects false true false x y = ground arith
build_of-eq connects false false true x y = refl
build_of-eq connects false false false x y = refl

pub build-eq :
    (connects : Connects) (config : ProvidersConfig)
    → build_provider_registry connects config
      ≡ (if connected connects config then ok (description config) else err adapter_error)
unfolding build_provider_registry
build-eq connects config =
    build_of-eq connects (is_set config.openrouter_api_key) (is_set config.openai_api_key)
      config.enable_local_fallback (openrouter_adapter config) (openai_adapter config)

registered-order :
    (a b l : Bool) (c : Capability)
    → for_capability (registered a b l) c
      ≡ filter (λ p. supports p.profile c) (values (registered a b l))
unfolding for_capability may_precede
registered-order a b l c = ground arith

-- Building the registry raises only when no adapter can be made for a vendor that has a key. Otherwise it
-- gives the providers that the configuration names, those of the vendors with their adapters, in the
-- order in which failover prefers them: for each capability the order of the registry is that of the
-- registered providers that support it.
pub composition_described :
    (connects : Connects) (config : ProvidersConfig) (c : Capability)
    → (build_provider_registry connects config
        ≡ (if connected connects config then ok (description config) else err adapter_error))
      × (for_capability (described config) c
          ≡ filter (λ p. supports p.profile c) (values (described config)))
composition_described connects config c = (
  build-eq connects config,
  registered-order (is_set config.openrouter_api_key) (is_set config.openai_api_key)
      config.enable_local_fallback c,
)

-- Whether the configuration has a key of a vendor, and whether it registers the local provider.
abbrev pub has_vendor : ProvidersConfig → Bool
has_vendor config = is_set config.openrouter_api_key || is_set config.openai_api_key

abbrev pub has_local : ProvidersConfig → Bool
has_local config = config.enable_local_fallback || not (has_vendor config)

registered-local :
    (a b l : Bool) → (l || not (a || b)) ≡ true → lookup "local" (registered a b l) ≡ some local
registered-local a b l h = ground arith

pub described-local :
    (config : ProvidersConfig)
    → has_local config ≡ true
    → lookup "local" (described config) ≡ some local
described-local config h =
    registered-local (is_set config.openrouter_api_key) (is_set config.openai_api_key)
      config.enable_local_fallback h

registered-named :
    (a b l : Bool) (n : String) (p : BaseProvider)
    → lookup n (registered a b l) ≡ some p
    → name_of p ≡ n
registered-named a b l n p at =
    ground (arith, eq_iff "openrouter" n, eq_iff "openai" n, eq_iff "local" n)

pub described-IsKeyed : (config : ProvidersConfig) → IsKeyed (described config)
described-IsKeyed config = record {
  named =
      registered-named (is_set config.openrouter_api_key) (is_set config.openai_api_key)
        config.enable_local_fallback;
}

-- The capabilities that no configuration with or without a vendor offers.
abbrev pub never_offered : Bool → Capability → Bool
never_offered vendor Capability.architecture = true
never_offered vendor Capability.embedding = true
never_offered vendor Capability.review = not vendor
never_offered vendor Capability.analysis = not vendor
never_offered vendor Capability.code_generation = false
never_offered vendor Capability.extraction = false

registered-unoffered :
    (a b l : Bool) (c : Capability)
    → never_offered (a || b) c ≡ true
    → All (λ p. supports p.profile c ≡ false) (values (registered a b l))
registered-unoffered a b l c h = ground arith

pub described-unoffered :
    (config : ProvidersConfig) (c : Capability)
    → never_offered (has_vendor config) c ≡ true
    → All (λ p. supports p.profile c ≡ false) (values (described config))
described-unoffered config c h =
    registered-unoffered (is_set config.openrouter_api_key) (is_set config.openai_api_key)
      config.enable_local_fallback c h
