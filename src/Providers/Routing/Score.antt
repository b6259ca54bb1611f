-- ===== src/Providers/Routing/Score.antt =====
-- How complexity, cost and weight make a score.
use native.Mathlib.Nat.{
  le_trans, div-add-mod, le-div_iff_mul-le, div-mul-le_self, mul-le-mul_right, mul-le-mul_left,
  mod-lt,
}
use hookclose.Prelude.{
  ℕ, ◌+◌, ◌-◌, ◌*◌, ◌/◌, ◌%◌, ◌≤◌, ◌<◌, ◌≡◌, ◌⊎◌, subst, ap, ◌∙◌, inl, inr, arith, ◌==◌, Bool-cases,
}
use hookclose.Providers.Base.{BaseProvider}
use hookclose.Providers.Routing.{
  RoutingRequest, RoutingPolicy, base_score, complexity_score, round_quotient, affinity,
  provider_score,
}

div_mono : (n n' d : ℕ) → 0 < d → n ≤ n' → n / d ≤ n' / d
div_mono n n' d pos h = (le-div_iff_mul-le pos).1 (le_trans (div-mul-le_self n d) h)

-- Rounding keeps the order of quotients by one divisor.
round_quotient_mono : (n n' d : ℕ) → 0 < d → n ≤ n' → round_quotient n d ≤ round_quotient n' d
unfolding round_quotient
round_quotient_mono n n' d pos h =
    let q = div_mono n n' d pos h in
    let e = div-add-mod n d in
    let e' = div-add-mod n' d in
    elim (Bool-cases (n / d == n' / d)) [
      | inl same ↦
          let same' : n / d ≡ n' / d = ground arith in
          let r : n % d ≤ n' % d = omega (arith, ap (λ (k : ℕ). d * k) same') in
          ground (arith, r, ap (λ (k : ℕ). k % 2) same')
      | inr other ↦ let less : n / d + 1 ≤ n' / d = ground arith in ground (arith, less)
    ]

-- Moving `d` from the part that counts `k` times to the part that counts `c` times.
mix_mono : (c k a d e : ℕ) → k ≤ c → c * a + k * (d + e) ≤ c * (a + d) + k * e
mix_mono c k a d e h = omega (arith, mul-le-mul_right d h)

mix_anti : (c k a d e : ℕ) → c ≤ k → c * (a + d) + k * e ≤ c * a + k * (d + e)
mix_anti c k a d e h = omega (arith, mul-le-mul_right d h)

-- With the same span, quality pays from one half of the complexity on, and cheapness up to it.
affinity_mono :
    (complexity part part' span : ℕ)
    → complexity ≤ 100
    → part ≤ part'
    → part' ≤ span
    → (50 ≤ complexity → affinity complexity part span ≤ affinity complexity part' span)
      × (complexity ≤ 50 → affinity complexity part' span ≤ affinity complexity part span)
unfolding affinity
affinity_mono complexity part part' span c p s =
    let d = part' - part in
    let e = span - part' in
    let k = 100 - complexity in
    let whole : span - part ≡ d + e = omega arith in
    let more : part' ≡ part + d = omega arith in
    (
      λ h. omega (
        arith,
        mix_mono complexity k part d e (omega arith),
        ap (λ (t : ℕ). k * t) whole,
        ap (λ (t : ℕ). complexity * t) more,
      ),
      λ h. omega (
        arith,
        mix_anti complexity k part d e (omega arith),
        ap (λ (t : ℕ). k * t) whole,
        ap (λ (t : ℕ). complexity * t) more,
      ),
    )

rounded_mono :
    (w n n' whole : ℕ)
    → 0 < whole
    → n ≤ n'
    → round_quotient (10 * (w * n)) whole ≤ round_quotient (10 * (w * n')) whole
rounded_mono w n n' whole pos h =
    round_quotient_mono (10 * (w * n)) (10 * (w * n')) whole pos
      (omega (arith, mul-le-mul_left w h))

-- Of two candidates of one weight whose costs lie in the span, the dearer one scores no less when the
-- task's complexity is one half or more, and the cheaper one scores no less when it is one half or less.
pub provider_score-cost :
    (complexity lo hi : ℕ) (p q : BaseProvider)
    → complexity ≤ 100
    → p.profile.weight ≡ q.profile.weight
    → lo ≤ p.profile.cost_per_1k_tokens
    → p.profile.cost_per_1k_tokens ≤ q.profile.cost_per_1k_tokens
    → q.profile.cost_per_1k_tokens ≤ hi
    → (50 ≤ complexity → provider_score complexity lo hi p ≤ provider_score complexity lo hi q)
      × (complexity ≤ 50 → provider_score complexity lo hi q ≤ provider_score complexity lo hi p)
unfolding provider_score
provider_score-cost complexity lo hi p q c w l m h =
    let span = hi - lo in
    let part = p.profile.cost_per_1k_tokens - lo in
    let part' = q.profile.cost_per_1k_tokens - lo in
    let (up, down) =
      affinity_mono complexity part part' span c (omega (arith, m)) (omega (arith, h)) in
    elim (Bool-cases (span == 0)) [
      | inl flat ↦ rw flat (rw w (λ x. omega arith, λ x. omega arith))
      | inr wide ↦
          let pos : 0 < span = ground arith in
          rw wide (
            rw w (
              λ x.
                  rounded_mono q.profile.weight (affinity complexity part span)
                    (affinity complexity part' span) span pos (up x),
              λ x.
                  rounded_mono q.profile.weight (affinity complexity part' span)
                    (affinity complexity part span) span pos (down x),
            ))
    ]

-- Rounding goes down at most from the half, and up at least from it.
round_quotient-cases :
    (n d : ℕ)
    → ((round_quotient n d ≡ n / d) × (2 * (n % d) ≤ d))
      ⊎ ((round_quotient n d ≡ n / d + 1) × (d ≤ 2 * (n % d)))
unfolding round_quotient
round_quotient-cases n d = ground arith

-- The number is the nearest to the quotient `n / d`, or one of the two nearest.
abbrev pub IsNearest : ℕ → ℕ → ℕ → Type 0
IsNearest n d s = (2 * (s * d) ≤ 2 * n + d) × (2 * n ≤ 2 * (s * d) + d)

round_quotient-IsNearest : (n d : ℕ) → 0 < d → IsNearest n d (round_quotient n d)
round_quotient-IsNearest n d pos =
    let e = div-add-mod n d in
    let r = mod-lt n pos in
    elim (round_quotient-cases n d) [
      | inl (down, half) ↦
          let s = ap (λ (k : ℕ). k * d) down in
          (omega (arith, e, r, s, half), omega (arith, e, r, s, half))
      | inr (up, half) ↦
          let s = ap (λ (k : ℕ). k * d) up in
          (omega (arith, e, r, s, half), omega (arith, e, r, s, half))
    ]

-- This is a provider's score at this complexity, when the costs of the candidates go from `lo` to `hi`:
-- the weight in thousandths, times a mix in hundredths, over the span of the costs.
abbrev pub IsScore : ℕ → ℕ → ℕ → BaseProvider → ℕ → Type 0
IsScore complexity lo hi p s =
    let cost = p.profile.cost_per_1k_tokens in
    let mix = complexity * (cost - lo) + (100 - complexity) * (hi - cost) in
    let exact = 10 * (p.profile.weight * mix) in
    (lo ≡ hi → s ≡ 500 * p.profile.weight) × (lo < hi → IsNearest exact (hi - lo) s)

half_weight : (w : ℕ) → round_quotient (10 * (w * 100)) 2 ≡ 500 * w
unfolding round_quotient
half_weight w = ground arith

pub provider_score-IsScore :
    (complexity lo hi : ℕ) (p : BaseProvider)
    → complexity ≤ 100
    → lo ≤ p.profile.cost_per_1k_tokens
    → p.profile.cost_per_1k_tokens ≤ hi
    → IsScore complexity lo hi p (provider_score complexity lo hi p)
unfolding provider_score affinity
provider_score-IsScore complexity lo hi p c low high =
    let w = p.profile.weight in
    let cost = p.profile.cost_per_1k_tokens in
    let part = cost - lo in
    elim (Bool-cases (hi - lo == 0)) [
      | inl flat ↦
          let whole : complexity * 1 + (100 - complexity) * (2 - 1) ≡ 100 = omega arith in
          rw flat (
            λ e. ap (λ (n : ℕ). round_quotient (10 * (w * n)) 2) whole ∙ half_weight w,
            λ less. ground arith,
          )
      | inr wide ↦
          let pos : 0 < hi - lo = ground arith in
          let rest : (hi - lo) - part ≡ hi - cost = omega arith in
          let mixed = complexity * part + (100 - complexity) * ((hi - lo) - part) in
          let nearest_at = λ (t : ℕ).
            IsNearest (10 * (w * (complexity * part + (100 - complexity) * t))) (hi - lo)
              (round_quotient (10 * (w * affinity complexity part (hi - lo))) (hi - lo)) in
          let near = round_quotient-IsNearest (10 * (w * mixed)) (hi - lo) pos in
          rw wide (λ e. ground arith, λ less. subst nearest_at rest near)
    ]

le_grow : (n more w : ℕ) → n * w ≤ (n + more) * w
le_grow n more w = mul-le-mul_right w (omega arith)

-- A request's complexity is at most 100, and never falls when its priority or its retries grow.
pub complexity_score-bounds :
    (policy : RoutingPolicy) (request : RoutingRequest) (more_priority more_retries : ℕ)
    → let urgent = record request {
      priority = request.priority + more_priority;
      retry_count = request.retry_count + more_retries;
    } in
      (complexity_score policy request ≤ complexity_score policy urgent)
      × (complexity_score policy urgent ≤ 100)
unfolding complexity_score
complexity_score-bounds policy request a b =
    let base = base_score policy request request.complexity_hint in
    let p = le_grow request.priority a policy.priority_weight in
    let r = le_grow request.retry_count b policy.retry_escalation in ground (arith, p, r)
