-- ===== src/Providers/Examples.antt =====
-- Concrete providers for the theorems about providers/.
use mathlib.Core.List.{Perm}
use hookclose.Prelude.{
  ◌+◌, ◌≤◌, min, String, ◌≡◌, refl, inl, true, none, some, List, [], ◌∷◌, map, length, arith, All,
  ok, err, contains, values, filter, Pairwise, if◌then◌else◌, leb, eq_iff,
}
use hookclose.Contracts.{LlmRequest}
use hookclose.Providers.State.{
  Capability, ProviderStatus, profile_of, new_health, ErrorKind, ProviderError, supports,
  ProviderInvocation,
}
use hookclose.Providers.Base.{
  provider_raised, Platform, Readings, ProviderKind, BaseProvider, name_of, is_available,
  has_budget, record_failure, unavailable_error, complete,
}
use hookclose.Providers.Base.Health.{
  IsConsistent, complete-IsConsistent, serve, failed_forever, recovery_exact, IsDown,
  down_threshold,
}
use hookclose.Providers.Registry.{ProviderRegistry, register, for_capability}
use hookclose.Providers.Registry.Order.{Precedes, for_capability_order, Registers, register_exact}
use hookclose.Providers.Routing.{RoutingRequest, default_policy, complexity_score, decide}
use hookclose.Providers.Routing.Score.{complexity_score-bounds}
use hookclose.Providers.Routing.Decide.{AreCandidates, IsRanking, decide_order}
use hookclose.Providers.Manager.{ProviderManager, candidates, manager_complete}
use hookclose.Providers.Manager.Candidates.{CanServe, ServesAs, candidates_exact}
use hookclose.Providers.Manager.Failover.{Concluded, manager_complete_exact}
use hookclose.Providers.Manager.Turn.{IsKeyed}
use hookclose.Providers.Manager.Fallback.{fallback_serves}

-- A vendor that is always down, and a clock that counts its readings.
abbrev outage : ProviderError
outage = record { kind = ErrorKind.timeout; message = "deadline" }

abbrev os : Platform
os = record {
  clock = λ n. n;
  adapter = λ n name request. provider_raised outage;
  repr = λ s. s;
  decimal = λ n. "3";
  isoformat = λ t. "2026-01-01";
  strip = λ s. s;
}

os-IsDown : IsDown os
os-IsDown = record {
  error = λ n. outage;
  raises = λ n name request. refl;
  ordinary = λ n. (λ h. cc, λ h. cc);
}

abbrev request : LlmRequest
request = record {
  model = "auto";
  messages = [];
  max_tokens = none;
  temperature = none;
  top_p = none;
  stop = none;
  response_format = none;
}

abbrev start : Readings
start = record { times = 0; calls = 0 }

abbrev vendor : BaseProvider
vendor = record {
  kind = ProviderKind.via_adapter;
  profile = profile_of "openai" (Capability.code_generation ∷ []) 1000 128000;
  health = new_health;
}

abbrev dead : BaseProvider
dead = record vendor {
  health = record new_health { status = ProviderStatus.failed; cooldown_until = some 60 };
}

abbrev local : BaseProvider
local = record {
  kind = ProviderKind.local_stub;
  profile =
      record (profile_of "local" (Capability.extraction ∷ Capability.code_generation ∷ []) 0
        32000) { weight = 100 };
  health = new_health;
}

abbrev providers : ProviderRegistry
providers = ("openai", vendor) ∷ ("local", local) ∷ []

abbrev manager : ProviderManager
manager = record { registry = providers; bus = some []; store = []; readings = start }

vendor-IsConsistent : IsConsistent vendor.profile vendor.health
vendor-IsConsistent = record {
  serving = λ h. (refl, omega arith);
  resting = λ h. absurd (h refl);
  counted = omega arith;
}

providers-IsKeyed : IsKeyed providers
providers-IsKeyed = record { named = λ n p at. ground (arith, eq_iff "openai" n, eq_iff "local" n) }

local-CanServe : CanServe local
unfolding has_budget
local-CanServe = record { status = refl; budget = refl }

complete-IsConsistent_example :
    IsConsistent vendor.profile (complete os request vendor start).1.health
complete-IsConsistent_example =
    complete-IsConsistent os request vendor start (omega arith) vendor-IsConsistent

failed_forever_example :
    All
      (λ answer. answer ≡ err (unavailable_error os dead))
      (serve os (request ∷ request ∷ []) dead start).0
    × ((serve os (request ∷ request ∷ []) dead start).1 ≡ dead)
failed_forever_example = failed_forever os (request ∷ request ∷ []) dead start refl

abbrev limited : ProviderError
limited = record { kind = ErrorKind.rate_limit; message = "429" }

recovery_exact_example :
    let h' = record_failure vendor.profile 100 limited new_health in
    ((is_available 160 h').0 ≡ leb (100 + 60) 160)
    × ((is_available 160 h').1 ≡ (
        if leb (100 + 60) 160
        then record h' {
          status = ProviderStatus.available;
          consecutive_failures = 0;
          cooldown_until = none;
          last_error = none;
        }
        else h'))
recovery_exact_example = recovery_exact vendor.profile 100 160 limited new_health (inl refl)

abbrev thrice : List LlmRequest
thrice = request ∷ request ∷ request ∷ []

down_threshold_example :
    let h = (serve os thrice vendor start).1.health in
    (h.consecutive_failures ≡ min (0 + length thrice) 3)
    × (h.status
        ≡ (if leb 3 (0 + length thrice) then ProviderStatus.failed else ProviderStatus.available))
down_threshold_example = down_threshold os os-IsDown thrice vendor start refl refl (omega arith)

for_capability_order_example :
    Perm
      (for_capability providers Capability.code_generation)
      (filter (λ p. supports p.profile Capability.code_generation) (values providers))
    × All
        (λ p. supports p.profile Capability.code_generation ≡ true)
        (for_capability providers Capability.code_generation)
    × Pairwise Precedes (for_capability providers Capability.code_generation)
for_capability_order_example = for_capability_order providers Capability.code_generation

register_exact_example : Registers providers local true (register providers local true)
register_exact_example = register_exact providers local true

candidates_exact_example :
    let supporting = map name_of (for_capability providers Capability.code_generation) in
    let chosen = candidates os Capability.code_generation none manager in
    All (ServesAs chosen.1.registry) chosen.0
    × ((n : String) → contains n chosen.0 ≡ true → contains n supporting ≡ true)
    × ((n : String)
        → ServesAs providers n
        → contains n supporting ≡ true
        → contains n (candidates os Capability.code_generation none manager).0 ≡ true)
candidates_exact_example = candidates_exact os Capability.code_generation none manager

manager_complete_exact_example :
    Concluded os request Capability.code_generation
      (candidates os Capability.code_generation none manager).0
      (candidates os Capability.code_generation none manager).1
      (manager_complete os request Capability.code_generation none manager).0
      (manager_complete os request Capability.code_generation none manager).1
manager_complete_exact_example =
    manager_complete_exact os request Capability.code_generation none manager providers-IsKeyed

fallback_serves_example :
    (inv : ProviderInvocation) × ((manager_complete os request Capability.code_generation none
        manager).0
      ≡ ok inv)
fallback_serves_example =
    fallback_serves os request Capability.code_generation manager local providers-IsKeyed refl refl
      local-CanServe refl

abbrev routing_request : RoutingRequest
routing_request = record {
  capability = Capability.code_generation;
  task_type = "codegen.api";
  estimated_tokens = 50000;
  priority = 2;
  retry_count = 1;
  complexity_hint = none;
}

complexity_score-bounds_example :
    let urgent = record routing_request { priority = 2 + 3; retry_count = 1 + 1 } in
    (complexity_score default_policy routing_request ≤ complexity_score default_policy urgent)
    × (complexity_score default_policy urgent ≤ 100)
complexity_score-bounds_example = complexity_score-bounds default_policy routing_request 3 1

abbrev dear : BaseProvider
dear = record vendor {
  profile = record (profile_of "claude" [] 15 200000) { weight = vendor.profile.weight };
}

abbrev cheap : BaseProvider
cheap = record vendor {
  profile = record (profile_of "deepseek" [] 1 64000) { weight = vendor.profile.weight };
}

decide_order_example :
    let decision = decide (λ n. "0.80") (λ s. s) providers default_policy routing_request in
    (candidates : List BaseProvider) × AreCandidates routing_request
      (for_capability providers Capability.code_generation)
      candidates
    × IsRanking
        (complexity_score default_policy routing_request)
        candidates
        decision.provider_scores
    × (decision.ordered_providers ≡ map (λ (name, s). name) decision.provider_scores)
decide_order_example = decide_order (λ n. "0.80") (λ s. s) providers default_policy routing_request
