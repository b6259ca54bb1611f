-- ===== src/Workers/Codegen/Keyless.antt =====
-- Code generation in a runtime without a key of a vendor.
use hookclose.Prelude.{
  ℕ, String, format, ◌≡◌, refl, ap, ◌∙◌, true, false, none, some, List, [], ◌∷◌, arith, ok, lookup,
  insert, eq_iff,
}
use hookclose.Contracts.{LlmRequest}
use hookclose.Events.{EventBus}
use hookclose.Providers.State.{
  Capability, ProviderStatus, ProviderHealth, new_health, ProviderInvocation,
}
use hookclose.Providers.Base.{
  Platform, Readings, ProviderKind, BaseProvider, is_available, has_budget, invoke, settle,
  fallback_response, complete,
}
use hookclose.Providers.Implementations.{local_profile}
use hookclose.Providers.Registry.{ProviderRegistry, for_capability}
use hookclose.Runtime.Composition.{ProvidersConfig, assemble}
use hookclose.Runtime.Composition.Described.{described, has_vendor}
use hookclose.Runtime.Composition.Served.{complete_stub_serving, refresh_serving}
use hookclose.Runtime.Composition.Unserved.{manager_after}
use hookclose.Workers.Contracts.{GenerationResult}
use hookclose.Workers.Envelope.{JsonReader}
use hookclose.Workers.Codegen.{
  CodeGenerator, user_prompt, build_request, parse_code, generation_of, generate,
}
use hookclose.Providers.Manager.{
  ProviderManager, ProviderStateStore, asked, after_asking, passes, screen, candidates,
  attempt_provider, invocation_of, try_each, after_loop, complete_from, manager_complete,
}
use hookclose.Providers.Manager.Invariant.{IsInvariant, Asked, requests_keep_inv}

abbrev local_with : ProviderHealth → BaseProvider
local_with h = record { kind = ProviderKind.local_stub; profile = local_profile; health = h }

-- The registry has the local provider alone, in service.
abbrev OnlyLocal : ProviderRegistry → Type 0
OnlyLocal d =
    (h : ProviderHealth) × (h.status ≡ ProviderStatus.available)
    × (d ≡ ("local", local_with h) ∷ [])

complete_local :
    (os : Platform) (request : LlmRequest) (m : ProviderManager) (h : ProviderHealth)
    → h.status ≡ ProviderStatus.available
    → m.registry ≡ ("local", local_with h) ∷ []
    → (inv : ProviderInvocation) × ((manager_complete os request Capability.code_generation none
          m).0
        ≡ ok inv)
      × (inv.provider ≡ "local")
      × (inv.content ≡ (fallback_response os.strip request).content)
unfolding manager_complete candidates screen for_capability complete_from try_each attempt_provider
    after_loop passes asked after_asking is_available has_budget complete invoke settle
complete_local os request m h a e =
    rw (e, a) (invocation_of "local" (fallback_response os.strip request) 1 [], refl, refl, refl)

found_local :
    (name : String) (p : BaseProvider) (h : ProviderHealth)
    → lookup name (("local", local_with h) ∷ []) ≡ some p
    → ("local" ≡ name) × (local_with h ≡ p)
found_local name p h found = ground (arith, eq_iff "local" name)

-- The provider that is found, and with it what a step puts in its place.
replaced :
    (step : BaseProvider → BaseProvider) (name : String) (p : BaseProvider) (h h' : ProviderHealth)
    → lookup name (("local", local_with h) ∷ []) ≡ some p
    → step (local_with h) ≡ local_with h'
    → insert name (step p) (("local", local_with h) ∷ []) ≡ ("local", local_with h') ∷ []
replaced step name p h h' found e =
    let (named, same) = found_local name p h found in
    rw⁻¹ (named, same) (ap (λ q. ("local", q) ∷ []) e)

complete_same :
    (os : Platform) (request : LlmRequest) (h : ProviderHealth) (r : Readings)
    → h.status ≡ ProviderStatus.available
    → (complete os request (local_with h) r).1
      ≡ local_with (complete os request (local_with h) r).1.health
unfolding complete is_available invoke settle
complete_same os request h r a = rw a refl

OnlyLocal-IsInvariant : (os : Platform) → IsInvariant os OnlyLocal
OnlyLocal-IsInvariant os = record {
  refreshed = λ now name p d found (h, a, e). (
    (is_available now h).1,
    refresh_serving now h a,
    rw e (
        replaced (λ q. record q { health = (is_available now q.health).1 }) name p h
          (is_available now h).1 (rw e at found) refl),
  );
  completed = λ request name p r d found (h, a, e).
      let (named, same) = found_local name p h (rw e at found) in
      (
        (complete os request (local_with h) r).1.health,
        complete_stub_serving os request (local_with h) r refl a,
        rw (e) (
            rw⁻¹ same (
              replaced (λ q. (complete os request q r).1) "local" (local_with h) h
                (complete os request (local_with h) r).1.health refl
                (complete_same os request h r a))),
      );
}

described-OnlyLocal :
    (config : ProvidersConfig) → has_vendor config ≡ false → OnlyLocal (described config)
described-OnlyLocal config h = (new_health, refl, ground arith)

fallback-content :
    (os : Platform) (goal context : String) (self : CodeGenerator)
    → (fallback_response os.strip (build_request self goal context)).content
      ≡ os.strip (format ("[local-fallback] " ∷ user_prompt goal context ∷ []))
unfolding fallback_response build_request
fallback-content os goal context self = refl

generated_local :
    (os : Platform) (json : JsonReader) (goal context : String) (self : CodeGenerator)
    → self.capability ≡ Capability.code_generation
    → OnlyLocal self.manager.registry
    → ((s : String) → json.loads (os.strip (format ("[local-fallback] " ∷ s ∷ []))) ≡ none)
    → (result : GenerationResult) × ((generate os json goal context self).0 ≡ ok result)
      × (result.patches ≡ [])
      × (result.degraded ≡ true)
      × (result.provider ≡ "local")
unfolding generate build_request generation_of parse_code
generated_local os json goal context self for_code (h, a, e) rejects =
    let request = build_request self goal context in
    let (inv, answered, by, said) = complete_local os request self.manager h a e in
    let content : inv.content
        ≡ os.strip (format ("[local-fallback] " ∷ user_prompt goal context ∷ [])) =
      said ∙ fallback-content os goal context self in
    let unread : json.loads inv.content ≡ none =
      ap (λ s. json.loads s) content ∙ rejects (user_prompt goal context) in
    (
      generation_of json inv,
      rw (for_code, answered),
      unfold generation_of parse_code in rw unread,
      unfold generation_of parse_code in rw unread,
      by,
    )

-- In a runtime that was configured without a key of a vendor, whatever was asked of it before, the
-- generation of code returns, but its result is the local provider's, is degraded, and has no files,
-- since a text that starts with `[local-fallback]` is no JSON.
pub keyless_generation :
    (os : Platform) (json : JsonReader) (config : ProvidersConfig) (bus : EventBus)
    (store : ProviderStateStore) (calls : List Asked) (goal context : String) (max_tokens : ℕ)
    → has_vendor config ≡ false
    → ((s : String) → json.loads (os.strip (format ("[local-fallback] " ∷ s ∷ []))) ≡ none)
    → let self : CodeGenerator = record {
      manager = manager_after os config bus store calls;
      capability = Capability.code_generation;
      max_tokens = max_tokens;
    } in
      (result : GenerationResult) × ((generate os json goal context self).0 ≡ ok result)
      × (result.patches ≡ [])
      × (result.degraded ≡ true)
      × (result.provider ≡ "local")
keyless_generation os json config bus store calls goal context max_tokens none_set rejects =
    let kept =
      requests_keep_inv os OnlyLocal (OnlyLocal-IsInvariant os) calls
        (assemble bus store (described config)).providers
        (unfold assemble in described-OnlyLocal config none_set) in
    generated_local os json goal context _ refl kept rejects
