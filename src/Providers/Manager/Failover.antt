-- ===== src/Providers/Manager/Failover.antt =====
-- The failover loop: which candidates are tried, what the caller and the bus learn of them.
use hookclose.Prelude.{
  ℕ, suc, String, ◌≡◌, refl, subst, sym, ◌∙◌, inl, inr, true, Option, none, some, List, [], ◌∷◌,
  ◌++◌, map, arith, eq_iff, lookup, has_key, All, Option-cases, lookup-insert, Result, ok, err,
  Result-cases,
}
use hookclose.Events.{emit, all_providers_exhausted}
use hookclose.Contracts.{LlmRequest, LlmResponse}
use hookclose.Providers.State.{
  Capability, capability_value, ProviderInvocation, ProviderError, NoProviderAvailable,
}
use hookclose.Providers.Base.{Platform, BaseProvider, name_of}
use hookclose.Providers.Registry.{ProviderRegistry, for_capability}
use mathlib.Core.List.{append-nil}
use hookclose.Providers.Manager.Candidates.{
  Registered, ServesAs, screen_serves, screen-some, screen-none,
}
use hookclose.Providers.Manager.Turn.{
  IsKeyed, AllRaise, no_more, attempt-answer, try_each-some, IsSynced, Outcome, ServedSynced,
  All-snoc, All-map, Outcome-cons, attempt-IsSynced, attempt_keeps_IsSynced, attempt_keeps_key,
  attempt-IsKeyed,
}
use hookclose.Providers.Manager.{
  ProviderManager, in_order, screen, asked, after_asking, candidates, attempt_provider,
  invocation_of, try_each, give_up, after_loop, complete_from, manager_complete,
}

-- What a request to these candidates, asked from the first manager on, gave and left.
abbrev pub Concluded :
    Platform
    → LlmRequest
    → Capability
    → List String
    → ProviderManager
    → Result NoProviderAvailable ProviderInvocation
    → ProviderManager
    → Type 0
Concluded os request capability names m (ok inv) m' =
    Outcome os request capability names [] 1 m (some inv) inv.failed_over_from m'
    × All (IsSynced m') inv.failed_over_from
    × IsSynced m' inv.provider
Concluded os request capability names m (err e) m' =
    ((last : ProviderManager) × AllRaise os request capability 1 m names last
      × (m' ≡ record last {
        bus = emit (all_providers_exhausted (capability_value capability) names) last.bus;
      }))
    × All (IsSynced m') names

module _ (os : Platform) (request : LlmRequest) (capability : Capability) where
  pub turn_gone :
      (attempt : ℕ) (failed_over : List String) (name : String) (rest : List String)
      (m : ProviderManager)
      → lookup name m.registry ≡ none
      → try_each os request capability attempt failed_over (name ∷ rest) m
        ≡ try_each os request capability (suc attempt) failed_over rest m
  unfolding try_each
  turn_gone attempt failed_over name rest m gone = rw (gone, try_each)

  -- The turn that ends the loop, and the turn that goes on.
  pub turn_ok :
      (attempt : ℕ) (failed_over : List String) (name : String) (rest : List String)
      (m : ProviderManager) (p : BaseProvider) (response : LlmResponse)
      → lookup name m.registry ≡ some p
      → (attempt_provider os request capability attempt p m).0 ≡ ok response
      → try_each os request capability attempt failed_over (name ∷ rest) m ≡ (
        some (invocation_of name response attempt failed_over),
        failed_over,
        (attempt_provider os request capability attempt p m).1,
      )
  turn_ok attempt failed_over name rest m p response found e =
      rw (try_each-some os request capability attempt failed_over name rest m p found) (rw e)

  pub turn_err :
      (attempt : ℕ) (failed_over : List String) (name : String) (rest : List String)
      (m : ProviderManager) (p : BaseProvider) (exc : ProviderError)
      → lookup name m.registry ≡ some p
      → (attempt_provider os request capability attempt p m).0 ≡ err exc
      → try_each os request capability attempt failed_over (name ∷ rest) m
        ≡ try_each os request capability
            (suc attempt)
            (failed_over ++ name ∷ [])
            rest
            (attempt_provider os request capability attempt p m).1
  turn_err attempt failed_over name rest m p exc found e =
      rw (try_each-some os request capability attempt failed_over name rest m p found) (rw e)

  try_each_holds :
      (names : List String) (attempt : ℕ) (failed_over : List String) (m : ProviderManager)
      → IsKeyed m.registry
      → Registered m.registry names
      → All (IsSynced m) failed_over
      → let (found, tried, m') = try_each os request capability attempt failed_over names m in
        Outcome os request capability names failed_over attempt m found tried m'
        × All (IsSynced m') tried
        × ServedSynced m' found
  try_each_holds [] attempt failed_over m keyed reg synced =
      unfold try_each in ((sym (append-nil failed_over), no_more), synced, tt)
  try_each_holds (name ∷ rest) attempt failed_over m keyed reg synced =
      elim (Option-cases (lookup name m.registry)) [
        | inl gone ↦ ground (arith, reg.0)
        | inr (p, found) ↦
            let named = keyed.named name p found in
            let m' = (attempt_provider os request capability attempt p m).1 in
            let kept =
              All-map (IsSynced m) (IsSynced m') failed_over
                (λ n. attempt_keeps_IsSynced os request capability attempt name m p n named)
                synced in
            let new = attempt-IsSynced os request capability attempt name m p named in
            let answer = sym (attempt-answer os request capability attempt p m) in
            elim (Result-cases (attempt_provider os request capability attempt p m).0) [
              | inl (response, e) ↦
                  rw (turn_ok attempt failed_over name rest m p response found e) (
                    (
                      [],
                      rest,
                      refl,
                      sym (append-nil failed_over),
                      refl,
                      omega arith,
                      m,
                      no_more,
                      (p, response, found, answer ∙ e, refl, refl, refl),
                    ),
                    kept,
                    new,
                  )
              | inr (exc, e) ↦ rw (turn_err attempt failed_over name rest m p exc found e) (
                  let (out, all, last) =
                    try_each_holds rest (suc attempt) (failed_over ++ name ∷ []) m'
                      (attempt-IsKeyed os request capability attempt name m p keyed)
                      (All-map (λ n. has_key n m.registry ≡ true)
                        (λ n. has_key n m'.registry ≡ true) rest
                        (λ n. attempt_keeps_key os request capability attempt name m p n) reg.1)
                      (All-snoc (IsSynced m') failed_over name kept new) in
                  (
                    Outcome-cons os request capability name rest failed_over attempt m _ p exc _ _
                        found (answer ∙ e) out,
                    all,
                    last,
                  ))
            ]
      ]

finish :
    (os : Platform) (request : LlmRequest) (capability : Capability)
    (found : Option ProviderInvocation) (names tried : List String) (m m' : ProviderManager)
    (message : String)
    → Outcome os request capability names [] 1 m found tried m'
    → All (IsSynced m') tried
    → ServedSynced m' found
    → let (answer, end) = after_loop capability message found tried m' in
      Concluded os request capability names m answer end
unfolding after_loop give_up
finish os request capability none names tried m m' message (out, raised) all last =
    ((m', raised, rw out refl), subst (All (IsSynced m')) out all)
finish os request capability (some inv) names tried m m' message
      (before, after, e, t, f, a, mid, raised, answered) all last =
    (
      (before, after, e, f ∙ t, refl, a, mid, raised, answered),
      subst (All (IsSynced m')) (sym f) all,
      last,
    )

module _ (os : Platform) where
  pub screen-IsKeyed :
      (names : List String) (m : ProviderManager)
      → IsKeyed m.registry
      → IsKeyed (screen os names m).1.registry
  screen-IsKeyed [] m keyed = unfold screen in keyed
  screen-IsKeyed (name ∷ rest) m keyed = elim (Option-cases (lookup name m.registry)) [
    | inl gone ↦ rw (screen-none os name rest m gone) (screen-IsKeyed rest m keyed)
    | inr (p, found) ↦
        rw (screen-some os name rest m p found)
          (screen-IsKeyed rest (after_asking os name p m) (asked_keyed name p m keyed found))
  ]
    where
      asked_keyed :
          (name : String) (p : BaseProvider) (m : ProviderManager)
          → IsKeyed m.registry
          → lookup name m.registry ≡ some p
          → IsKeyed (after_asking os name p m).registry
      asked_keyed name p m keyed found = record {
        named = λ n q at.
            unfold after_asking asked in
            ground (
              arith,
              lookup-insert name n (asked os p m) m.registry,
              eq_iff name n,
              keyed.named n q,
              keyed.named name p,
            );
      }

  ServesAs-Registered :
      (providers : ProviderRegistry) (names : List String)
      → All (ServesAs providers) names
      → Registered providers names
  ServesAs-Registered providers names =
      All-map (ServesAs providers) (λ n. has_key n providers ≡ true) names (λ n (p, at, can). rw at)

  complete_from_exact :
      (request : LlmRequest) (capability : Capability) (names : List String) (m : ProviderManager)
      → IsKeyed m.registry
      → Registered m.registry names
      → let (answer, m') = complete_from os request capability names m in
        Concluded os request capability names m answer m'
  unfolding complete_from give_up
  complete_from_exact request capability [] m keyed reg = ((m, no_more, refl), tt)
  complete_from_exact request capability (name ∷ rest) m keyed reg =
      let (out, all, last) =
        try_each_holds os request capability (name ∷ rest) 1 [] m keyed reg tt in
      finish os request capability _ (name ∷ rest) _ m _ _ out all last

  -- `complete` of the manager asks the candidates in order up to the first that answers. It returns
  -- when one answers: with that provider's content and tokens, numbered by its place, and with the
  -- ones before it, which all raised, as failed over from. It raises only when every candidate raised
  -- when it was asked, and the last event then names them all. The stored health of each provider
  -- tried is the one that it was left with. Each entry of the registry is under its provider's name.
  pub manager_complete_exact :
      (request : LlmRequest) (capability : Capability) (order : Option (List String))
      (m : ProviderManager)
      → IsKeyed m.registry
      → let (answer, m') = manager_complete os request capability order m in
        let (names, screened) = candidates os capability order m in
        Concluded os request capability names screened answer m'
  unfolding manager_complete
  manager_complete_exact request capability order m keyed =
      let supporting = map name_of (for_capability m.registry capability) in
      let chosen = candidates os capability order m in
      complete_from_exact request capability chosen.0 chosen.1
        (unfold candidates in screen-IsKeyed (in_order supporting order) m keyed)
        (ServesAs-Registered chosen.1.registry chosen.0
          (unfold candidates in screen_serves os (in_order supporting order) m))
