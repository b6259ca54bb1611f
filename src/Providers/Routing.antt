-- ===== src/Providers/Routing.antt =====
-- providers/routing.py: which providers to try, in which order, for a task of some complexity.
-- The floats of the source are exact decimals here: complexities in hundredths, costs and weights in
-- thousandths, scores in millionths, where `round(x, 6)` rounds the exact quotient, a half to the even
-- neighbour. The binary rounding error of the floats is not modelled.
pub mod Score
pub mod Decide
use hookclose.Prelude.{
  ℕ, ◌+◌, ◌-◌, ◌*◌, ◌/◌, ◌%◌, min, max, String, format, head_segment, Bool, ◌&&◌, ◌||◌, Option,
  none, some, List, [], ◌∷◌, map, if◌then◌else◌, or_default, Dict, lookup, filter, ltb, leb, ◌==◌,
  sorted, str_leb,
}
use hookclose.Events.{EventBus, emit, routing_decided}
use hookclose.Providers.State.{Capability, capability_value}
use hookclose.Providers.Base.{BaseProvider, name_of}
use hookclose.Providers.Registry.{ProviderRegistry, for_capability}

pub data TaskComplexity : Type 0 where
  trivial simple moderate complex critical : TaskComplexity

-- `_COMPLEXITY_SCORE`, in hundredths.
unfoldable pub score_of_complexity : TaskComplexity → ℕ
score_of_complexity trivial = 10
score_of_complexity simple = 30
score_of_complexity moderate = 50
score_of_complexity complex = 80
score_of_complexity critical = 100

abbrev pub quality_threshold : ℕ
quality_threshold = 50

pub record RoutingRequest : Type 0 where
  pub capability : Capability
  pub task_type : String
  pub estimated_tokens : ℕ
  pub priority : ℕ
  pub retry_count : ℕ
  pub complexity_hint : Option TaskComplexity

pub record RoutingPolicy : Type 0 where
  pub task_type_complexity : Dict TaskComplexity
  pub default_complexity : TaskComplexity
  pub priority_weight : ℕ
  pub retry_escalation : ℕ

-- `RoutingPolicy.default()`
abbrev pub default_policy : RoutingPolicy
default_policy = record {
  task_type_complexity =
      ("architecture", critical)
      ∷ ("review", complex)
      ∷ ("analysis", complex)
      ∷ ("refactor", complex)
      ∷ ("spec", complex)
      ∷ ("codegen", moderate)
      ∷ ("testing", simple)
      ∷ ("extraction", trivial)
      ∷ ("ingest", trivial)
      ∷ [];
  default_complexity = moderate;
  priority_weight = 3;
  retry_escalation = 15;
}

-- The head of the empty text is the empty text, so the source's test for it needs no case.
unfoldable pub base_complexity : RoutingPolicy → String → TaskComplexity
base_complexity policy task_type =
    or_default (lookup (head_segment task_type) policy.task_type_complexity)
      policy.default_complexity

pub record RoutingDecision : Type 0 where
  pub capability : Capability
  pub complexity_score : ℕ
  pub ordered_providers : List String
  pub provider_scores : List (String × ℕ)
  pub reason : String

unfoldable pub clamp : ℕ → ℕ → ℕ → ℕ
clamp value low high = max low (min high value)

abbrev pub base_score : RoutingPolicy → RoutingRequest → Option TaskComplexity → ℕ
base_score policy request none = score_of_complexity (base_complexity policy request.task_type)
base_score policy request (some hint) = score_of_complexity hint

unfoldable pub complexity_score : RoutingPolicy → RoutingRequest → ℕ
unfolding clamp
complexity_score policy request =
    clamp
      (base_score policy request request.complexity_hint
        + request.priority * policy.priority_weight
        + request.retry_count * policy.retry_escalation)
      0 100

abbrev pub lowest : ℕ → List BaseProvider → ℕ
lowest found [] = found
lowest found (p ∷ ps) = lowest (min found p.profile.cost_per_1k_tokens) ps

abbrev pub highest : ℕ → List BaseProvider → ℕ
highest found [] = found
highest found (p ∷ ps) = highest (max found p.profile.cost_per_1k_tokens) ps

-- The quotient `n / d`, rounded to the nearest number and a half to the even one.
unfoldable pub round_quotient : ℕ → ℕ → ℕ
round_quotient n d =
    let q = n / d in
    let r = n % d in
    if ltb (2 * r) d then q else if ltb d (2 * r) then q + 1 else if q % 2 == 0 then q else q + 1

-- `complexity * ncost + (1 - complexity) * (1 - ncost)` for `ncost = part / span`, times 100 * span.
unfoldable pub affinity : ℕ → ℕ → ℕ → ℕ
affinity complexity part span = complexity * part + (100 - complexity) * (span - part)

-- The rounded product of affinity and weight; with no span between the costs `ncost` is one half.
unfoldable pub provider_score : ℕ → ℕ → ℕ → BaseProvider → ℕ
unfolding affinity
provider_score complexity lo hi p =
    let span = hi - lo in
    let weighted = λ (part whole : ℕ).
      round_quotient (10 * (p.profile.weight * affinity complexity part whole)) whole in
    if span == 0 then weighted 1 2 else weighted (p.profile.cost_per_1k_tokens - lo) span

-- `(-score, name)` of the first is at most that of the second.
abbrev pub ranks_before : String × ℕ → String × ℕ → Bool
ranks_before (a, x) (b, y) = ltb y x || x == y && str_leb a b

-- `min` and `max` of no costs would raise; `decide` calls with at least one candidate.
unfoldable pub rank : List BaseProvider → ℕ → List (String × ℕ)
rank [] complexity = []
rank (p ∷ ps) complexity =
    let lo = lowest p.profile.cost_per_1k_tokens ps in
    let hi = highest p.profile.cost_per_1k_tokens ps in
    sorted ranks_before (map (λ q. (name_of q, provider_score complexity lo hi q)) (p ∷ ps))

abbrev pub fits : RoutingRequest → BaseProvider → Bool
fits request p = leb request.estimated_tokens p.profile.context_window

-- The candidates and the note on them: those whose window is large enough, or all if none is.
abbrev pub fitting_or_all : List BaseProvider → List BaseProvider → List BaseProvider × String
fitting_or_all supporting [] = (supporting, "context-overflow-relaxed")
fitting_or_all supporting (p ∷ ps) = (p ∷ ps, "context-fit")

-- `two_decimals n` is the text of n hundredths, and `repr` is Python's.
module _ (two_decimals : ℕ → String) (repr : String → String) where
  unfoldable pub decide_among : RoutingRequest → ℕ → List BaseProvider → RoutingDecision
  decide_among request score [] = record {
    capability = request.capability;
    complexity_score = score;
    ordered_providers = [];
    provider_scores = [];
    reason =
        format
          ("no provider declares capability " ∷ repr (capability_value request.capability) ∷ []);
  }
  decide_among request score (p ∷ ps) =
      let supporting = p ∷ ps in
      let (candidates, ctx_note) = fitting_or_all supporting (filter (fits request) supporting) in
      let ranked = rank candidates score in
      record {
        capability = request.capability;
        complexity_score = score;
        ordered_providers = map (λ (name, s). name) ranked;
        provider_scores = ranked;
        reason = format (
            "complexity="
            ∷ two_decimals score
            ∷ " ("
            ∷ ctx_note
            ∷ "); "
            ∷ (if leb quality_threshold score then "quality-weighted" else "cost-weighted")
            ∷ " order"
            ∷ []);
      }

  unfoldable pub decide : ProviderRegistry → RoutingPolicy → RoutingRequest → RoutingDecision
  unfolding decide_among
  decide registry policy request =
      decide_among request (complexity_score policy request)
        (for_capability registry request.capability)

  unfoldable pub route :
      ProviderRegistry → RoutingPolicy → RoutingRequest → EventBus → RoutingDecision × EventBus
  route registry policy request bus =
      let decision = decide registry policy request in
      (
        decision,
        emit
            (routing_decided (capability_value decision.capability) decision.complexity_score
              decision.ordered_providers decision.reason)
            bus,
      )
