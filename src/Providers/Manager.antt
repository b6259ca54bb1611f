-- ===== src/Providers/Manager.antt =====
-- providers/manager.py and the in-memory store of providers/persistence.py: one request, tried on the
-- candidates in turn. A provider is an object shared by the registry and the candidates, so the
-- manager's copy in `registry` is the one that changes, and a candidate is its name.
pub mod Candidates
pub mod Turn
pub mod Failover
pub mod Fallback
pub mod Invariant
use hookclose.Prelude.{
  ℕ, suc, String, format, Bool, true, false, ◌&&◌, Option, none, some, List, [], ◌∷◌, ◌++◌, map,
  Result, ok, err, if◌then◌else◌, Dict, lookup, insert, contains, filter, length, is_empty,
}
use hookclose.Contracts.{LlmRequest, LlmResponse}
use hookclose.Events.{
  EventBus, emit, provider_selected, provider_failed_over, provider_credit_exhausted,
  provider_cooldown_entered, provider_invocation_succeeded, all_providers_exhausted,
}
use hookclose.Providers.State.{
  Capability, capability_value, status_value, is_unavailable_status, ProviderHealth, snapshot,
  ProviderInvocation, ErrorKind, ProviderError, error_code, NoProviderAvailable,
  no_provider_available,
}
use hookclose.Providers.Base.{
  Platform, Readings, after_clock, BaseProvider, name_of, is_available, has_budget, complete,
}
use hookclose.Providers.Registry.{ProviderRegistry, for_capability}

-- `InMemoryProviderStateStore`
abbrev pub ProviderStateStore : Type 0
ProviderStateStore = Dict ProviderHealth

unfoldable pub save : String → ProviderHealth → ProviderStateStore → ProviderStateStore
save name health store = insert name (snapshot health) store

unfoldable pub load : String → ProviderStateStore → Option ProviderHealth
load name store = lookup name store

unfoldable pub load_all : ProviderStateStore → Dict ProviderHealth
load_all store = map (λ (name, h). (name, snapshot h)) store

pub record ProviderManager : Type 0 where
  pub registry : ProviderRegistry
  pub bus : EventBus
  pub store : ProviderStateStore
  pub readings : Readings  -- how far the clock and the vendors have been read

-- The names, in `order` if it is given, of the providers that support the capability.
abbrev pub in_order : List String → Option (List String) → List String
in_order supporting none = supporting
in_order supporting (some order) = filter (λ n. contains n supporting) order

abbrev pub announce_credit : ErrorKind → String → EventBus → EventBus
announce_credit ErrorKind.credit_exhausted name bus = emit (provider_credit_exhausted name) bus
announce_credit _ name bus = bus

unfoldable pub on_success :
    BaseProvider → Capability → LlmResponse → ProviderManager → ProviderManager
on_success p capability response m = record m {
  store = save (name_of p) p.health m.store;
  bus =
      emit
        (provider_invocation_succeeded (name_of p) (capability_value capability)
          response.usage.total_tokens)
        m.bus;
}

abbrev pub invocation_of : String → LlmResponse → ℕ → List String → ProviderInvocation
invocation_of name response attempt failed_over = record {
  provider = name;
  content = response.content;
  total_tokens = response.usage.total_tokens;
  attempts = attempt;
  failed_over_from = failed_over;
}

-- The end of `complete`, when no candidate answered.
unfoldable pub give_up :
    Capability
    → String
    → List String
    → ProviderManager
    → Result NoProviderAvailable ProviderInvocation × ProviderManager
give_up capability message tried m = (
  err (no_provider_available message),
  record m { bus = emit (all_providers_exhausted (capability_value capability) tried) m.bus },
)

-- The `return` in the loop, or what follows the loop.
unfoldable pub after_loop :
    Capability
    → String
    → Option ProviderInvocation
    → List String
    → ProviderManager
    → Result NoProviderAvailable ProviderInvocation × ProviderManager
unfolding give_up
after_loop capability message (some invocation) tried m = (ok invocation, m)
after_loop capability message none tried m = give_up capability message tried m

module _ (os : Platform) where
  -- The provider after `p.is_available()`, which may refresh it.
  unfoldable pub asked : BaseProvider → ProviderManager → BaseProvider
  asked p m = record p { health = (is_available (os.clock m.readings.times) p.health).1 }

  unfoldable pub after_asking : String → BaseProvider → ProviderManager → ProviderManager
  after_asking name p m = record m {
    registry = insert name (asked p m) m.registry;
    readings = after_clock m.readings;
  }

  -- `p.is_available() and p.has_budget()`
  unfoldable pub passes : BaseProvider → ProviderManager → Bool
  passes p m = (is_available (os.clock m.readings.times) p.health).0 && has_budget (asked p m) 0

  -- `[p for p in ordered if p.is_available() and p.has_budget()]`
  unfoldable pub screen : List String → ProviderManager → List String × ProviderManager
  screen [] m = ([], m)
  screen (name ∷ rest) m = elim (lookup name m.registry) [
    | none ↦ screen rest m
    | some p ↦
        let (kept, m') = screen rest (after_asking name p m) in
        (if passes p m then name ∷ kept else kept, m')
  ]

  unfoldable pub candidates :
      Capability → Option (List String) → ProviderManager → List String × ProviderManager
  candidates capability order m =
      screen (in_order (map name_of (for_capability m.registry capability)) order) m

  abbrev pub announce_cooldown : ProviderError → BaseProvider → EventBus → EventBus
  announce_cooldown exc p bus =
      if is_unavailable_status p.health.status
      then emit
          (provider_cooldown_entered (name_of p) (status_value p.health.status)
            (elim p.health.cooldown_until [ none ↦ none | some t ↦ some (os.isoformat t) ])
            (error_code exc.kind))
          bus
      else bus

  unfoldable pub on_failure :
      BaseProvider → Capability → ProviderError → ProviderManager → ProviderManager
  on_failure p capability exc m = record m {
    store = save (name_of p) p.health m.store;
    bus = announce_cooldown exc p (
        announce_credit exc.kind (name_of p) (
          emit
            (provider_failed_over (name_of p) (capability_value capability) exc.message
              (error_code exc.kind))
            m.bus));
  }

  -- What follows the answer of a provider.
  unfoldable pub conclude :
      Result ProviderError LlmResponse
      → BaseProvider
      → Capability
      → ProviderManager
      → ProviderManager
  unfolding on_failure on_success
  conclude (ok response) p capability m = on_success p capability response m
  conclude (err exc) p capability m = on_failure p capability exc m

  -- What one turn of the loop does: the answer of the provider, and the manager after it.
  unfoldable pub attempt_provider :
      LlmRequest
      → Capability
      → ℕ
      → BaseProvider
      → ProviderManager
      → Result ProviderError LlmResponse × ProviderManager
  attempt_provider request capability attempt p m =
      let selected =
        emit (provider_selected (name_of p) (capability_value capability) attempt) m.bus in
      let (answer, p', r') = complete os request p m.readings in
      let m' = record m {
        registry = insert (name_of p) p' m.registry;
        bus = selected;
        readings = r';
      } in
      (answer, conclude answer p' capability m')

  -- The `for attempt, provider in enumerate(candidates, start=1)` loop; `none` when it runs out. Every
  -- candidate is in the registry (`Candidates.screen_serves`), so each name has its provider.
  unfoldable pub try_each :
      LlmRequest
      → Capability
      → ℕ
      → List String
      → List String
      → ProviderManager
      → Option ProviderInvocation × List String × ProviderManager
  try_each request capability attempt failed_over [] m = (none, failed_over, m)
  try_each request capability attempt failed_over (name ∷ rest) m = elim (lookup name m.registry) [
    | none ↦ try_each request capability (suc attempt) failed_over rest m
    | some p ↦
        let (answer, m') = attempt_provider request capability attempt p m in
        elim answer [
          | ok response ↦ (some (invocation_of name response attempt failed_over), failed_over, m')
          | err exc ↦ try_each request capability (suc attempt) (failed_over ++ name ∷ []) rest m'
        ]
  ]

  -- `complete`, once the candidates are known.
  unfoldable pub complete_from :
      LlmRequest
      → Capability
      → List String
      → ProviderManager
      → Result NoProviderAvailable ProviderInvocation × ProviderManager
  complete_from request capability [] m =
      give_up capability
        (format (
          "no available provider supports capability "
          ∷ os.repr (capability_value capability)
          ∷ []))
        [] m
  complete_from request capability (name ∷ rest) m =
      let (found, failed_over, m') = try_each request capability 1 [] (name ∷ rest) m in
      after_loop capability
        (format (
          "all "
          ∷ os.decimal (length (name ∷ rest))
          ∷ " provider(s) failed for capability "
          ∷ os.repr (capability_value capability)
          ∷ []))
        found failed_over m'

  unfoldable pub manager_complete :
      LlmRequest
      → Capability
      → Option (List String)
      → ProviderManager
      → Result NoProviderAvailable ProviderInvocation × ProviderManager
  unfolding complete_from
  manager_complete request capability order m =
      let (names, m') = candidates capability order m in complete_from request capability names m'
