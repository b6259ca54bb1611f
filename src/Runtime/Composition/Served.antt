-- ===== src/Runtime/Composition/Served.antt =====
-- The runtime serves: its local provider is never lost.
use hookclose.Prelude.{
  ℕ, String, ◌≡◌, refl, ap, ◌∙◌, ◌⊎◌, inl, inr, true, Option, none, some, List, [], arith, ok, err,
  if◌then◌else◌, lookup, insert, lookup-insert, str_eq, eq_iff, Bool-cases, or_default,
}
use hookclose.Contracts.{LlmRequest}
use hookclose.Events.{EventBus}
use hookclose.Providers.State.{
  Capability, ProviderStatus, ProviderProfile, ProviderHealth, ProviderInvocation, supports,
}
use hookclose.Providers.Base.{
  Platform, Readings, ProviderKind, BaseProvider, name_of, is_available, has_budget, record_success,
  invoke, settle, complete,
}
use hookclose.Providers.Implementations.{local_profile, local_provider}
use hookclose.Providers.Registry.{ProviderRegistry}
use hookclose.Providers.Manager.{ProviderManager, ProviderStateStore, manager_complete}
use hookclose.Providers.Manager.Turn.{IsKeyed}
use hookclose.Providers.Manager.Fallback.{fallback_serves}
use hookclose.Providers.Manager.Invariant.{IsInvariant, Asked, after_requests, requests_keep_inv}
use hookclose.Adapters.Openai.{Connects}
use hookclose.Runtime.Composition.{ProvidersConfig, Runtime, adapter_error, build_runtime, assemble}
use hookclose.Runtime.Composition.Described.{
  described, build-eq, connected, has_local, described-local, described-IsKeyed,
}

-- The registry has the local provider with no adapter, in service.
record HasLocal (d : ProviderRegistry) : Type 0 where
  keyed : IsKeyed d
  local : BaseProvider
  at : lookup "local" d ≡ some local
  kind : local.kind ≡ ProviderKind.local_stub
  profile : local.profile ≡ local_profile
  serving : local.health.status ≡ ProviderStatus.available

insert-IsKeyed :
    (n : String) (p : BaseProvider) (d : ProviderRegistry)
    → name_of p ≡ n
    → IsKeyed d
    → IsKeyed (insert n p d)
insert-IsKeyed n p d named keyed = record {
  named = λ k q at. ground (arith, lookup-insert n k p d, eq_iff n k, keyed.named k q);
}

-- A provider of the same class and profile takes the place of another; the local one stays in service.
insert-HasLocal :
    (n : String) (p p' : BaseProvider) (d : ProviderRegistry)
    → lookup n d ≡ some p
    → name_of p' ≡ n
    → (p'.kind ≡ p.kind)
    → (p'.profile ≡ p.profile)
    → (p.kind ≡ ProviderKind.local_stub
        → p.health.status ≡ ProviderStatus.available
        → p'.health.status ≡ ProviderStatus.available)
    → HasLocal d
    → HasLocal (insert n p' d)
insert-HasLocal n p p' d found named kind profile serves h = elim (Bool-cases (str_eq n "local")) [
  | inl same ↦
      let e : n ≡ "local" = (eq_iff n "local").0 same in
      let old : p ≡ h.local = ground (arith, found, h.at, e) in
      let stub = ap (λ (q : BaseProvider). q.kind) old ∙ h.kind in
      let available = ap (λ (q : BaseProvider). q.health.status) old ∙ h.serving in
      record {
        keyed = insert-IsKeyed n p' d named h.keyed;
        local = p';
        at = ground (arith, lookup-insert n "local" p' d);
        kind = kind ∙ stub;
        profile = profile ∙ ap (λ (q : BaseProvider). q.profile) old ∙ h.profile;
        serving = serves stub available;
      }
  | inr other ↦ record {
    keyed = insert-IsKeyed n p' d named h.keyed;
    local = h.local;
    at = ground (arith, lookup-insert n "local" p' d, h.at);
    kind = h.kind;
    profile = h.profile;
    serving = h.serving;
  }
]

pub complete-class :
    (os : Platform) (request : LlmRequest) (p : BaseProvider) (r : Readings)
    → let p' = (complete os request p r).1 in (p'.kind ≡ p.kind) × (p'.profile ≡ p.profile)
unfolding complete settle
complete-class os request p r = ground arith

pub complete_stub_serving :
    (os : Platform) (request : LlmRequest) (p : BaseProvider) (r : Readings)
    → p.kind ≡ ProviderKind.local_stub
    → p.health.status ≡ ProviderStatus.available
    → (complete os request p r).1.health.status ≡ ProviderStatus.available
unfolding complete is_available invoke settle record_success
complete_stub_serving os request p r k a = ground arith

pub refresh_serving :
    (now : ℕ) (h : ProviderHealth)
    → h.status ≡ ProviderStatus.available
    → (is_available now h).1.status ≡ ProviderStatus.available
unfolding is_available
refresh_serving now h a = ground arith

HasLocal-IsInvariant : (os : Platform) → IsInvariant os HasLocal
HasLocal-IsInvariant os = record {
  refreshed = λ now name p d found h.
      insert-HasLocal name p (record p { health = (is_available now p.health).1 }) d found
        (h.keyed.named name p found) refl refl (λ k a. refresh_serving now p.health a) h;
  completed = λ request name p r d found h.
      let named = h.keyed.named name p found in
      let (kind, profile) = complete-class os request p r in
      let at = ap (λ n. lookup n d) named ∙ found in
      insert-HasLocal (name_of p) p (complete os request p r).1 d at
        (ap (λ (q : ProviderProfile). q.name) profile) kind profile
        (λ k a. complete_stub_serving os request p r k a) h;
}

described-HasLocal :
    (config : ProvidersConfig) → has_local config ≡ true → HasLocal (described config)
described-HasLocal config h = record {
  keyed = described-IsKeyed config;
  local = local_provider none;
  at = described-local config h;
  kind = refl;
  profile = refl;
  serving = refl;
}

HasLocal-serves :
    (os : Platform) (request : LlmRequest) (capability : Capability) (m : ProviderManager)
    → supports local_profile capability ≡ true
    → HasLocal m.registry
    → (inv : ProviderInvocation) × ((manager_complete os request capability none m).0 ≡ ok inv)
HasLocal-serves os request capability m s h =
    let name = ap (λ (q : ProviderProfile). q.name) h.profile in
    fallback_serves os request capability m h.local h.keyed
      (ap (λ n. lookup n m.registry) name ∙ h.at) h.kind
      (record { status = h.serving; budget = unfold has_budget in ground (arith, h.profile) })
      (ap (λ (q : ProviderProfile). supports q capability) h.profile ∙ s)

-- With the local fallback enabled, or with no key of a vendor, the runtime is built, unless no adapter
-- can be made for a vendor that has a key; and in that runtime, after any requests, however the vendors
-- answered them, each request for code or for an extraction is answered.
pub runtime_serves :
    (connects : Connects) (os : Platform) (environ : String → Option String)
    (config : ProvidersConfig) (bus : EventBus) (store : Option ProviderStateStore)
    (calls : List Asked) (request : LlmRequest) (capability : Capability)
    → has_local config ≡ true
    → (capability ≡ Capability.code_generation) ⊎ (capability ≡ Capability.extraction)
    → (runtime : Runtime) × (build_runtime connects environ (some config) bus store
        ≡ (if connected connects config then ok runtime else err adapter_error))
      × (inv : ProviderInvocation) × ((manager_complete os request capability none
            (after_requests os calls runtime.providers)).0
          ≡ ok inv)
unfolding build_runtime
runtime_serves connects os environ config bus store calls request capability local which =
    let runtime = assemble bus (or_default store []) (described config) in
    let kept =
      requests_keep_inv os HasLocal (HasLocal-IsInvariant os) calls runtime.providers
        (unfold assemble in described-HasLocal config local) in
    let able : supports local_profile capability ≡ true = ground arith in
    let (inv, served) =
      HasLocal-serves os request capability (after_requests os calls runtime.providers) able kept in
    (runtime, built, inv, served)
  where
    built : build_runtime connects environ (some config) bus store ≡ (
        if connected connects config
        then ok (assemble bus (or_default store []) (described config))
        else err adapter_error)
    built = elim (Bool-cases (connected connects config)) [
      | inl able ↦ rw (build-eq connects config) (rw able refl)
      | inr unable ↦ rw (build-eq connects config) (rw unable refl)
    ]
