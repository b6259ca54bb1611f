-- ===== src/Providers/Registry.antt =====
-- providers/registry.py: the catalog of providers by name, and the default failover order: higher
-- `weight` first, then cheaper, then by name.
pub mod Order
use hookclose.Prelude.{
  ℕ, ◌≡◌, String, format, Bool, true, false, not, ◌&&◌, ◌||◌, Option, none, some, List, [], ◌∷◌,
  Result, ok, err, ltb, ◌==◌, if◌then◌else◌, Dict, lookup, insert, has_key, keys, values, filter,
  sorted, str_leb,
}
use hookclose.Providers.State.{Capability, ProviderProfile, supports}
use hookclose.Providers.Base.{BaseProvider, name_of}

abbrev pub ProviderRegistry : Type 0
ProviderRegistry = Dict BaseProvider

-- `ConfigurationError` and `NotFoundError` of runtime/errors.py.
pub data RegistryError : Type 0 where
  already_registered : String → RegistryError
  not_registered : String → RegistryError

unfoldable pub register :
    ProviderRegistry → BaseProvider → Bool → Result RegistryError ProviderRegistry
register providers provider replace =
    if not replace && has_key (name_of provider) providers
    then err (already_registered (name_of provider))
    else ok (insert (name_of provider) provider providers)

abbrev pub or_not_found : String → Option BaseProvider → Result RegistryError BaseProvider
or_not_found name none = err (not_registered name)
or_not_found name (some provider) = ok provider

unfoldable pub get : ProviderRegistry → String → Result RegistryError BaseProvider
get providers name = or_not_found name (lookup name providers)

-- `(-weight, cost_per_1k_tokens, name)` of the first is at most that of the second.
unfoldable pub may_precede : BaseProvider → BaseProvider → Bool
may_precede p q =
    let a = p.profile in
    let b = q.profile in
    ltb b.weight a.weight
    || a.weight == b.weight
      && (ltb a.cost_per_1k_tokens b.cost_per_1k_tokens
          || a.cost_per_1k_tokens == b.cost_per_1k_tokens && str_leb a.name b.name)

abbrev pub ordered : List BaseProvider → List BaseProvider
ordered providers = sorted may_precede providers

unfoldable pub all_providers : ProviderRegistry → List BaseProvider
all_providers providers = ordered (values providers)

unfoldable pub for_capability : ProviderRegistry → Capability → List BaseProvider
for_capability providers capability =
    ordered (filter (λ p. supports p.profile capability) (values providers))

abbrev pub names : ProviderRegistry → List String
names providers = keys providers
