-- ===== src/Providers/Implementations.antt =====
-- providers/implementations.py: the classes of providers with their default profiles. What `_invoke` does
-- is in Providers.Base.
use hookclose.Prelude.{Option, [], ◌∷◌, or_default}
use hookclose.Providers.State.{Capability, ProviderProfile, profile_of, new_health}
use hookclose.Providers.Base.{ProviderKind, BaseProvider}

-- `ClaudeProvider.default_profile()`
abbrev pub claude_profile : ProviderProfile
claude_profile =
    profile_of "claude"
      (Capability.architecture ∷ Capability.review ∷ Capability.analysis
        ∷ Capability.code_generation ∷ [])
      15000 200000

-- `OpenCodeProvider.default_profile()`
abbrev pub opencode_profile : ProviderProfile
opencode_profile =
    profile_of "opencode" (Capability.code_generation ∷ Capability.review ∷ []) 2000 128000

-- `OpenAIProvider.default_profile()`
abbrev pub openai_profile : ProviderProfile
openai_profile =
    profile_of "openai"
      (Capability.code_generation ∷ Capability.review ∷ Capability.analysis ∷ Capability.extraction
        ∷ [])
      1000 128000

-- `GeminiProvider.default_profile()`
abbrev pub gemini_profile : ProviderProfile
gemini_profile =
    profile_of "gemini"
      (Capability.extraction ∷ Capability.code_generation ∷ Capability.analysis
        ∷ Capability.embedding ∷ [])
      500 1000000

-- `LocalProvider.default_profile()`
abbrev pub local_profile : ProviderProfile
local_profile =
    record (profile_of "local" (Capability.extraction ∷ Capability.code_generation ∷ []) 0 32000) {
      weight = 100;
    }

-- `_AdapterProvider(adapter, profile)`; the adapter is reached by the provider's name.
abbrev pub adapter_provider : ProviderProfile → BaseProvider
adapter_provider profile = record {
  kind = ProviderKind.via_adapter;
  profile = profile;
  health = new_health;
}

-- `profile or self.default_profile()` of each subclass.
abbrev pub claude_provider : Option ProviderProfile → BaseProvider
claude_provider profile = adapter_provider (or_default profile claude_profile)

abbrev pub opencode_provider : Option ProviderProfile → BaseProvider
opencode_provider profile = adapter_provider (or_default profile opencode_profile)

abbrev pub openai_provider : Option ProviderProfile → BaseProvider
openai_provider profile = adapter_provider (or_default profile openai_profile)

abbrev pub gemini_provider : Option ProviderProfile → BaseProvider
gemini_provider profile = adapter_provider (or_default profile gemini_profile)

-- `LocalProvider()`, which has no adapter.
abbrev pub local_provider : Option ProviderProfile → BaseProvider
local_provider profile = record {
  kind = ProviderKind.local_stub;
  profile = or_default profile local_profile;
  health = new_health;
}
