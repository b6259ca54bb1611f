-- ===== src/Providers/Routing/Decide.antt =====
-- What the routing decision promises about the providers it lists.
use mathlib.Core.List.{Perm}
use mathlib.Core.List.Perm
use hookclose.Prelude.{
  ℕ, ◌≤◌, ◌<◌, ◌⊎◌, String, ◌≡◌, refl, inl, inr, true, false, Bool, List, [], ◌∷◌, ◌++◌, map, arith,
  if◌then◌else◌, filter, List-cases, All, Bool-cases, min, max, leb, sorted-perm, sorted-Pairwise,
  Pairwise, str_leb, str_leb_total, str_leb_trans,
}
use hookclose.Providers.Base.{BaseProvider, name_of}
use hookclose.Providers.Registry.{ProviderRegistry, for_capability}
use hookclose.Providers.Routing.{
  RoutingRequest, RoutingPolicy, complexity_score, lowest, highest, provider_score, ranks_before,
  rank, fits, fitting_or_all, decide_among, decide,
}
use hookclose.Providers.Routing.Score.{complexity_score-bounds, IsScore, provider_score-IsScore}

-- A higher score, or the same and no greater a name.
abbrev pub Outranks : String × ℕ → String × ℕ → Type 0
Outranks (a, x) (b, y) = (y < x) ⊎ ((x ≡ y) × (str_leb a b ≡ true))

ranks_before-Outranks : (a b : String × ℕ) → ranks_before a b ≡ true → Outranks a b
ranks_before-Outranks (a, x) (b, y) h = ground arith

not_first-Outranks : (a b : String × ℕ) → ranks_before a b ≡ false → Outranks b a
not_first-Outranks (a, x) (b, y) h = ground (arith, str_leb_total a b)

Outranks-trans : (a b c : String × ℕ) → Outranks a b → Outranks b c → Outranks a c
Outranks-trans (a, x) (b, y) (c, z) h k = ground (arith, str_leb_trans a b c)

-- The candidates of a request: the providers with the capability whose window takes its tokens, or all
-- of them if no window does.
abbrev pub AreCandidates : RoutingRequest → List BaseProvider → List BaseProvider → Type 0
AreCandidates request supporting candidates =
    ((candidates ≡ supporting)
      × All (λ p. p.profile.context_window < request.estimated_tokens) supporting)
    ⊎ ((first : BaseProvider) × (rest : List BaseProvider) × (candidates ≡ first ∷ rest)
        × (others : List BaseProvider) × Perm (candidates ++ others) supporting
        × All (λ p. request.estimated_tokens ≤ p.profile.context_window) candidates
        × All (λ p. p.profile.context_window < request.estimated_tokens) others)

-- The least and the greatest cost of the candidates, if there are any.
abbrev pub AreExtremes : ℕ → ℕ → List BaseProvider → Type 0
AreExtremes lo hi [] = Unit
AreExtremes lo hi (p ∷ ps) =
    All (λ q. (lo ≤ q.profile.cost_per_1k_tokens) × (q.profile.cost_per_1k_tokens ≤ hi)) (p ∷ ps)
    × ((k : ℕ) → All (λ q. k ≤ q.profile.cost_per_1k_tokens) (p ∷ ps) → k ≤ lo)
    × ((k : ℕ) → All (λ q. q.profile.cost_per_1k_tokens ≤ k) (p ∷ ps) → hi ≤ k)

-- Splitting by a test.
rejected : (BaseProvider → Bool) → List BaseProvider → List BaseProvider
rejected test [] = []
rejected test (p ∷ ps) = let rest = rejected test ps in if test p then rest else p ∷ rest

append-cons : (xs ys : List BaseProvider) (y : BaseProvider) → Perm (xs ++ y ∷ ys) (y ∷ xs ++ ys)
append-cons [] ys y = Perm.refl _
append-cons (x ∷ xs) ys y = Perm.trans (Perm.cons x (append-cons xs ys y)) (Perm.swap _ _ _)

filter-rejected :
    (test : BaseProvider → Bool) (ps : List BaseProvider)
    → Perm (filter test ps ++ rejected test ps) ps
unfolding rejected
filter-rejected test [] = Perm.refl _
filter-rejected test (p ∷ ps) = elim (Bool-cases (test p)) [
  | inl kept ↦ rw kept (Perm.cons p (filter-rejected test ps))
  | inr gone ↦ rw gone (
      Perm.trans (append-cons (filter test ps) (rejected test ps) p)
        (Perm.cons p (filter-rejected test ps)))
]

filter-fits :
    (request : RoutingRequest) (ps : List BaseProvider)
    → All (λ p. request.estimated_tokens ≤ p.profile.context_window) (filter (fits request) ps)
      × All (λ p. p.profile.context_window < request.estimated_tokens) (rejected (fits request) ps)
unfolding rejected
filter-fits request [] = (tt, tt)
filter-fits request (p ∷ ps) =
    let ih = filter-fits request ps in
    elim (Bool-cases (leb request.estimated_tokens p.profile.context_window)) [
      | inl kept ↦ rw kept ((ground arith, ih.0), ih.1)
      | inr gone ↦ rw gone (ih.0, (ground arith, ih.1))
    ]

none-fits :
    (request : RoutingRequest) (ps : List BaseProvider)
    → filter (fits request) ps ≡ []
    → All (λ p. p.profile.context_window < request.estimated_tokens) ps
none-fits request [] h = tt
none-fits request (p ∷ ps) h =
    elim (Bool-cases (leb request.estimated_tokens p.profile.context_window)) [
      | inl kept ↦ ground arith
      | inr gone ↦ (ground arith, none-fits request ps (rw gone at h))
    ]

fitting-AreCandidates :
    (request : RoutingRequest) (supporting : List BaseProvider)
    → AreCandidates request supporting
        (fitting_or_all supporting (filter (fits request) supporting)).0
fitting-AreCandidates request supporting = elim (List-cases (filter (fits request) supporting)) [
  | inl none ↦ rw none (inl (refl, none-fits request supporting none))
  | inr (p, ps, some) ↦
      let (all, small) = filter-fits request supporting in
      let split = filter-rejected (fits request) supporting in
      rw some (
        inr (
          p,
          ps,
          refl,
          rejected (fits request) supporting,
          (rw some at split),
          (rw some at all),
          small,
        ))
]

-- The loops for the least and the greatest cost.
lowest_holds :
    (found : ℕ) (ps : List BaseProvider)
    → (lowest found ps ≤ found)
      × All (λ q. lowest found ps ≤ q.profile.cost_per_1k_tokens) ps
      × ((k : ℕ) → k ≤ found → All (λ q. k ≤ q.profile.cost_per_1k_tokens) ps → k ≤ lowest found ps)
lowest_holds found [] = (omega arith, tt, λ k h all. h)
lowest_holds found (p ∷ ps) =
    let (below, all, tight) = lowest_holds (min found p.profile.cost_per_1k_tokens) ps in
    (
      omega (arith, below),
      (omega (arith, below), all),
      λ k h least. tight k (omega (arith, h, least.0)) least.1,
    )

highest_holds :
    (found : ℕ) (ps : List BaseProvider)
    → (found ≤ highest found ps)
      × All (λ q. q.profile.cost_per_1k_tokens ≤ highest found ps) ps
      × ((k : ℕ)
          → found ≤ k
          → All (λ q. q.profile.cost_per_1k_tokens ≤ k) ps
          → highest found ps ≤ k)
highest_holds found [] = (omega arith, tt, λ k h all. h)
highest_holds found (p ∷ ps) =
    let (above, all, tight) = highest_holds (max found p.profile.cost_per_1k_tokens) ps in
    (
      omega (arith, above),
      (omega (arith, above), all),
      λ k h greatest. tight k (omega (arith, h, greatest.0)) greatest.1,
    )

All-both :
    (P Q : BaseProvider → Type 0) (ps : List BaseProvider)
    → All P ps
    → All Q ps
    → All (λ p. P p × Q p) ps
All-both P Q [] a b = tt
All-both P Q (p ∷ ps) a b = ((a.0, b.0), All-both P Q ps a.1 b.1)

extremes :
    (p : BaseProvider) (ps : List BaseProvider)
    → AreExtremes
        (lowest p.profile.cost_per_1k_tokens ps)
        (highest p.profile.cost_per_1k_tokens ps)
        (p ∷ ps)
extremes p ps =
    let lo = lowest p.profile.cost_per_1k_tokens ps in
    let hi = highest p.profile.cost_per_1k_tokens ps in
    let (below, least, tight) = lowest_holds p.profile.cost_per_1k_tokens ps in
    let (above, greatest, tight') = highest_holds p.profile.cost_per_1k_tokens ps in
    (
      (
        (below, above),
        All-both (λ q. lo ≤ q.profile.cost_per_1k_tokens) (λ q. q.profile.cost_per_1k_tokens ≤ hi)
            ps least greatest,
      ),
      λ k all. tight k all.0 all.1,
      λ k all. tight' k all.0 all.1,
    )

-- What a list of scores is for some candidates.
abbrev pub IsRanking : ℕ → List BaseProvider → List (String × ℕ) → Type 0
IsRanking complexity candidates scores =
    (lo : ℕ) × (hi : ℕ) × (score : BaseProvider → ℕ) × AreExtremes lo hi candidates
    × All (λ q. IsScore complexity lo hi q (score q)) candidates
    × Perm scores (map (λ q. (name_of q, score q)) candidates)
    × Pairwise Outranks scores

scored :
    (complexity lo hi : ℕ) (ps : List BaseProvider)
    → complexity ≤ 100
    → All (λ q. (lo ≤ q.profile.cost_per_1k_tokens) × (q.profile.cost_per_1k_tokens ≤ hi)) ps
    → All (λ q. IsScore complexity lo hi q (provider_score complexity lo hi q)) ps
scored complexity lo hi [] c all = tt
scored complexity lo hi (p ∷ ps) c ((low, high), all) =
    (provider_score-IsScore complexity lo hi p c low high, scored complexity lo hi ps c all)

rank-IsRanking :
    (complexity : ℕ) (ps : List BaseProvider)
    → complexity ≤ 100
    → IsRanking complexity ps (rank ps complexity)
unfolding rank
rank-IsRanking complexity [] c = (0, 0, λ q. 0, tt, tt, Perm.refl [], tt)
rank-IsRanking complexity (p ∷ ps) c =
    let lo = lowest p.profile.cost_per_1k_tokens ps in
    let hi = highest p.profile.cost_per_1k_tokens ps in
    let pairs =
      map (λ (q : BaseProvider). (name_of q, provider_score complexity lo hi q)) (p ∷ ps) in
    let range = extremes p ps in
    (
      lo,
      hi,
      provider_score complexity lo hi,
      range,
      scored complexity lo hi (p ∷ ps) c range.0,
      sorted-perm ranks_before pairs,
      sorted-Pairwise ranks_before Outranks ranks_before-Outranks not_first-Outranks Outranks-trans
          pairs,
    )

complexity_score_le :
    (policy : RoutingPolicy) (request : RoutingRequest) → complexity_score policy request ≤ 100
complexity_score_le policy request =
    let (up, bound) = complexity_score-bounds policy request 0 0 in omega (arith, up, bound)

module _ (two_decimals : ℕ → String) (repr : String → String) where
  decide_among_holds :
      (request : RoutingRequest) (complexity : ℕ) (supporting : List BaseProvider)
      → complexity ≤ 100
      → let decision = decide_among two_decimals repr request complexity supporting in
        (candidates : List BaseProvider) × AreCandidates request supporting candidates
        × IsRanking complexity candidates decision.provider_scores
        × (decision.ordered_providers ≡ map (λ (name, s). name) decision.provider_scores)
  unfolding decide_among
  decide_among_holds request complexity [] c =
      ([], inl (refl, tt), (0, 0, λ q. 0, tt, tt, Perm.refl [], tt), refl)
  decide_among_holds request complexity (p ∷ ps) c =
      let candidates = (fitting_or_all (p ∷ ps) (filter (fits request) (p ∷ ps))).0 in
      (
        candidates,
        fitting-AreCandidates request (p ∷ ps),
        rank-IsRanking complexity candidates c,
        refl,
      )

  -- A decision scores each candidate exactly as often as it is registered, and nothing else. The
  -- candidates are the providers with the capability whose context window holds the estimated tokens,
  -- or all with the capability if no window does. The score is the nearest millionth to the weight
  -- times the mix, by the complexity of the request, of how dear and of how cheap the candidate is
  -- between the cheapest and the dearest one; if these cost the same it is one half of the weight.
  -- The scores fall from each to every later one, equal ones go by name, and the failover order is
  -- theirs.
  pub decide_order :
      (registry : ProviderRegistry) (policy : RoutingPolicy) (request : RoutingRequest)
      → let decision = decide two_decimals repr registry policy request in
        (candidates : List BaseProvider) × AreCandidates request
          (for_capability registry request.capability)
          candidates
        × IsRanking (complexity_score policy request) candidates decision.provider_scores
        × (decision.ordered_providers ≡ map (λ (name, s). name) decision.provider_scores)
  unfolding decide
  decide_order registry policy request =
      decide_among_holds request (complexity_score policy request)
        (for_capability registry request.capability) (complexity_score_le policy request)
