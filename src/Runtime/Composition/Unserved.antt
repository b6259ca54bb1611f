-- ===== src/Runtime/Composition/Unserved.antt =====
-- What the runtime never serves: the capabilities that no registered provider has.
use hookclose.Prelude.{
  String, format, ◌≡◌, refl, ap, ◌∙◌, inl, inr, true, false, Option, none, some, List, [], ◌∷◌,
  arith, err, lookup, insert, values, filter, contains, str_eq, All, Bool-cases,
}
use hookclose.Contracts.{LlmRequest}
use hookclose.Events.{EventBus, emit, all_providers_exhausted}
use hookclose.Providers.State.{
  Capability, capability_value, ProviderProfile, NoProviderAvailable, no_provider_available,
  supports,
}
use hookclose.Providers.Base.{Platform, BaseProvider, name_of, is_available, complete}
use hookclose.Providers.Registry.{ProviderRegistry, for_capability}
use hookclose.Providers.Manager.{
  ProviderManager, ProviderStateStore, in_order, screen, give_up, candidates, complete_from,
  manager_complete,
}
use hookclose.Providers.Manager.Invariant.{IsInvariant, Asked, after_requests, requests_keep_inv}
use hookclose.Runtime.Composition.{ProvidersConfig, assemble}
use hookclose.Runtime.Composition.Described.{
  described, has_vendor, never_offered, described-unoffered,
}
use hookclose.Runtime.Composition.Served.{complete-class}

abbrev NoneOffers : Capability → ProviderRegistry → Type 0
NoneOffers c d = All (λ p. supports p.profile c ≡ false) (values d)

module _ (c : Capability) where
  found-unoffered :
      (n : String) (p : BaseProvider) (d : ProviderRegistry)
      → lookup n d ≡ some p
      → NoneOffers c d
      → supports p.profile c ≡ false
  found-unoffered n p [] found h = cc
  found-unoffered n p ((k, q) ∷ d) found h = elim (Bool-cases (str_eq k n)) [
    | inl same ↦ let e : q ≡ p = ground arith in rw⁻¹ e h.0
    | inr other ↦ found-unoffered n p d (ground arith) h.1
  ]

  insert-NoneOffers :
      (n : String) (p : BaseProvider) (d : ProviderRegistry)
      → supports p.profile c ≡ false
      → NoneOffers c d
      → NoneOffers c (insert n p d)
  insert-NoneOffers n p [] s h = (s, tt)
  insert-NoneOffers n p ((k, q) ∷ d) s h = elim (Bool-cases (str_eq k n)) [
    | inl same ↦ rw same (s, h.1)
    | inr other ↦ rw other (h.0, insert-NoneOffers n p d s h.1)
  ]

  NoneOffers-IsInvariant : (os : Platform) → IsInvariant os (NoneOffers c)
  NoneOffers-IsInvariant os = record {
    refreshed = λ now name p d found h.
        insert-NoneOffers name (record p { health = (is_available now p.health).1 }) d
          (found-unoffered name p d found h) h;
    completed = λ request name p r d found h.
        let (_, profile) = complete-class os request p r in
        insert-NoneOffers (name_of p) (complete os request p r).1 d
          (ap (λ (q : ProviderProfile). supports q c) profile ∙ found-unoffered name p d found h) h;
  }

  filter-none :
      (ps : List BaseProvider)
      → All (λ p. supports p.profile c ≡ false) ps
      → filter (λ p. supports p.profile c) ps ≡ []
  filter-none [] h = refl
  filter-none (p ∷ ps) h = ground (arith, filter-none ps h.1, h.0)

  for_capability-none : (d : ProviderRegistry) → NoneOffers c d → for_capability d c ≡ []
  unfolding for_capability
  for_capability-none d h = rw (filter-none (values d) h)

in_order-none : (order : Option (List String)) → in_order [] order ≡ []
in_order-none none = refl
in_order-none (some order) = only order
  where
    only : (ns : List String) → filter (λ n. contains n []) ns ≡ []
    only [] = refl
    only (n ∷ ns) = only ns

-- The message of the error when there is no candidate at all.
abbrev pub unsupported : Platform → Capability → NoProviderAvailable
unsupported os c =
    no_provider_available
      (format ("no available provider supports capability " ∷ os.repr (capability_value c) ∷ []))

-- The manager after a request that found no candidate: only the event is new.
abbrev pub exhausted : Capability → ProviderManager → ProviderManager
exhausted c m = record m { bus = emit (all_providers_exhausted (capability_value c) []) m.bus }

complete-unoffered :
    (os : Platform) (request : LlmRequest) (c : Capability) (order : Option (List String))
    (m : ProviderManager)
    → NoneOffers c m.registry
    → manager_complete os request c order m ≡ (err (unsupported os c), exhausted c m)
unfolding manager_complete candidates complete_from give_up screen
complete-unoffered os request c order m h =
    rw (for_capability-none c m.registry h, in_order-none order)

-- The manager of the runtime that the configuration gives, after some requests.
abbrev pub manager_after :
    Platform → ProvidersConfig → EventBus → ProviderStateStore → List Asked → ProviderManager
manager_after os config bus store calls =
    after_requests os calls (assemble bus store (described config)).providers

pub unoffered_after :
    (os : Platform) (config : ProvidersConfig) (bus : EventBus) (store : ProviderStateStore)
    (calls : List Asked) (request : LlmRequest) (c : Capability) (order : Option (List String))
    → never_offered (has_vendor config) c ≡ true
    → let m = manager_after os config bus store calls in
      manager_complete os request c order m ≡ (err (unsupported os c), exhausted c m)
unoffered_after os config bus store calls request c order h =
    let kept =
      requests_keep_inv os (NoneOffers c) (NoneOffers-IsInvariant c os) calls
        (assemble bus store (described config)).providers
        (unfold assemble in described-unoffered config c h) in
    complete-unoffered os request c order (manager_after os config bus store calls) kept
