-- ===== src/Runtime/Composition.antt =====
-- runtime/composition.py: the runtime that a configuration gives. `None` for the event bus is a bus of
-- its own for each part here, where the source shares one.
pub mod Described
pub mod Served
pub mod Unserved
pub mod Examples
use hookclose.Prelude.{
  String, Bool, true, false, ◌||◌, Option, none, some, List, [], ◌∷◌, Result, ok, err,
  if◌then◌else◌, or_default, str_eq, is_empty, Dict, insert,
}
use hookclose.Events.{EventBus}
use hookclose.Adapters.Openai.{OpenAiAdapter, Connects, from_api_key, is_set}
use hookclose.Orchestration.Graph.{empty_graph}
use hookclose.Orchestration.Chaining.{TaskChainer, default_chain_policy}
use hookclose.Orchestration.Healing.{SelfHealingRuntime, default_repair_policy}
use hookclose.Providers.State.{Capability, ProviderProfile, profile_of}
use hookclose.Providers.Base.{BaseProvider, name_of, Readings}
use hookclose.Providers.Implementations.{openai_provider, local_provider}
use hookclose.Providers.Registry.{ProviderRegistry, RegistryError, register, names}
use hookclose.Providers.Manager.{ProviderManager, ProviderStateStore}
use hookclose.Providers.Routing.{RoutingPolicy, default_policy}

pub record ProvidersConfig : Type 0 where
  pub openrouter_api_key : Option String
  pub openrouter_base_url : String
  pub openrouter_model : String
  pub openai_api_key : Option String
  pub openai_model : String
  pub enable_local_fallback : Bool
  pub referer : String

-- `ProvidersConfig()`
abbrev pub default_config : ProvidersConfig
default_config = record {
  openrouter_api_key = none;
  openrouter_base_url = "https://openrouter.ai/api/v1";
  openrouter_model = "qwen/qwen-2.5-coder-32b-instruct";
  openai_api_key = none;
  openai_model = "gpt-4o-mini";
  enable_local_fallback = true;
  referer = "https://github.com/fmonfasani/hookclose";
}

-- `s or None`
abbrev pub set_or_none : Option String → Option String
set_or_none s = if is_set s then s else none

-- `ProvidersConfig.from_env()`, given what `os.environ.get` answers.
unfoldable pub config_from_env : (String → Option String) → ProvidersConfig
config_from_env environ = record default_config {
  openrouter_api_key = set_or_none (environ "OPENROUTER_API_KEY");
  openrouter_base_url =
      or_default (environ "OPENROUTER_BASE_URL") default_config.openrouter_base_url;
  openrouter_model = or_default (environ "OPENROUTER_MODEL") default_config.openrouter_model;
  openai_api_key = set_or_none (environ "OPENAI_API_KEY");
  openai_model = or_default (environ "OPENAI_MODEL") default_config.openai_model;
}

-- `_GENERAL_CAPS`
abbrev pub general_capabilities : List Capability
general_capabilities =
    Capability.code_generation ∷ Capability.review ∷ Capability.analysis ∷ Capability.extraction
    ∷ []

abbrev pub openrouter_profile : ProviderProfile
openrouter_profile = profile_of "openrouter" general_capabilities 300 128000

-- The adapters that `build_provider_registry` makes for its providers; a provider of the model finds its
-- adapter by its name.
unfoldable pub openrouter_adapter : ProvidersConfig → OpenAiAdapter
openrouter_adapter config =
    from_api_key (or_default config.openrouter_api_key "") config.openrouter_model
      (some config.openrouter_base_url) 60000
      (some (("HTTP-Referer", config.referer) ∷ ("X-Title", "HookClose") ∷ []))

unfoldable pub openai_adapter : ProvidersConfig → OpenAiAdapter
openai_adapter config =
    from_api_key (or_default config.openai_api_key "") config.openai_model none 60000 none

abbrev pub and_then {ℓ} : {E A B : Type ℓ} → Result E A → (A → Result E B) → Result E B
and_then (ok a) f = f a
and_then (err e) f = err e

-- `from_api_key` raises where the package of the client cannot be imported or does not take the settings.
pub data BuildError : Type 0 where
  adapter_error : BuildError
  registry_error : RegistryError → BuildError

-- A registry, with the adapters that its providers hold under the providers' names.
pub record Wired : Type 0 where
  pub registry : ProviderRegistry
  pub adapters : Dict OpenAiAdapter

abbrev pub registered_with :
    Dict OpenAiAdapter → Result RegistryError ProviderRegistry → Result BuildError Wired
registered_with adapters (err e) = err (registry_error e)
registered_with adapters (ok registry) = ok (record { registry = registry; adapters = adapters })

-- `if key: registry.register(OpenAIProvider(OpenAIAdapter.from_api_key(...)))`
abbrev pub register_vendor :
    Connects → Bool → OpenAiAdapter → BaseProvider → Wired → Result BuildError Wired
register_vendor connects has_key adapter provider w =
    if has_key
    then if connects adapter
      then registered_with (insert (name_of provider) adapter w.adapters)
          (register w.registry provider false)
      else err adapter_error
    else ok w

abbrev pub register_local : Bool → Wired → Result BuildError Wired
register_local wanted w =
    if wanted
    then registered_with w.adapters (register w.registry (local_provider none) false)
    else ok w

unfoldable pub build_provider_registry : Connects → ProvidersConfig → Result BuildError Wired
build_provider_registry connects config =
    and_then
      (register_vendor connects (is_set config.openrouter_api_key) (openrouter_adapter config)
        (openai_provider (some openrouter_profile)) (record { registry = []; adapters = [] }))
      (λ w.
        and_then
          (register_vendor connects (is_set config.openai_api_key) (openai_adapter config)
            (openai_provider none) w)
          (λ w'. register_local (config.enable_local_fallback || is_empty (names w'.registry)) w'))

-- The `registry` of the source is that of `providers`, which the routing engine shares.
pub record Runtime : Type 0 where
  pub providers : ProviderManager
  pub routing : RoutingPolicy
  pub chainer : TaskChainer
  pub healing : SelfHealingRuntime
  pub provider_names : List String

-- What `build_runtime` puts together once the registry is there; no clock or vendor has been read.
unfoldable pub assemble : EventBus → ProviderStateStore → ProviderRegistry → Runtime
assemble event_bus state_store registry = record {
  providers = record {
    registry = registry;
    bus = event_bus;
    store = state_store;
    readings = record { times = 0; calls = 0 };
  };
  routing = default_policy;
  chainer = record {
    policy = default_chain_policy;
    generated = [];
    bus = event_bus;
    graph = empty_graph;
  };
  healing = record {
    policy = default_repair_policy;
    memory = [];
    history = record { attempts = []; log = [] };
    bus = event_bus;
  };
  provider_names = names registry;
}

-- `build_runtime`; `none` for the store is a new in-memory one.
unfoldable pub build_runtime :
    Connects
    → (String → Option String)
    → Option ProvidersConfig
    → EventBus
    → Option ProviderStateStore
    → Result BuildError Runtime
unfolding assemble
build_runtime connects environ config event_bus state_store =
    and_then (build_provider_registry connects (or_default config (config_from_env environ)))
      (λ w. ok (assemble event_bus (or_default state_store []) w.registry))
