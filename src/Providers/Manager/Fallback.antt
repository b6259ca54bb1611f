-- ===== src/Providers/Manager/Fallback.antt =====
-- The local fallback: with it in the registry a request is always served.
use hookclose.Prelude.{
  ℕ, suc, String, ◌≡◌, refl, ap, sym, ◌∙◌, inl, inr, true, false, ◌||◌, none, some, List, [], ◌∷◌,
  ◌++◌, map, arith, eq_iff, lookup, contains, str_eq, values, filter, sorted, insert_sorted,
  Bool-cases, Option-cases, lookup-insert, lookup_cast, ok, err, Result-cases, eq_refl,
}
use hookclose.Contracts.{LlmRequest, LlmResponse}
use hookclose.Providers.State.{
  Capability, ProviderInvocation, ProviderError, supports, ProviderStatus,
}
use hookclose.Providers.Base.{
  Platform, Readings, ProviderKind, BaseProvider, name_of, invoke, settle, complete, is_available,
  fallback_response,
}
use hookclose.Providers.Registry.{ProviderRegistry, may_precede, for_capability}
use hookclose.Providers.Manager.Candidates.{CanServe, screen_includes, screen_keeps}
use hookclose.Providers.Manager.Turn.{IsKeyed, attempt_registry, attempt-IsKeyed}
use hookclose.Providers.Manager.Failover.{turn_ok, turn_err, turn_gone, screen-IsKeyed}
use hookclose.Providers.Manager.{
  ProviderManager, candidates, attempt_provider, invocation_of, try_each, after_loop, complete_from,
  manager_complete,
}

contains-insert_sorted :
    (n : String) (p : BaseProvider) (ps : List BaseProvider)
    → contains n (map name_of (insert_sorted may_precede p ps))
      ≡ (str_eq (name_of p) n || contains n (map name_of ps))
contains-insert_sorted n p [] = refl
contains-insert_sorted n p (q ∷ qs) = elim (Bool-cases (may_precede p q)) [
  | inl first ↦ rw first
  | inr later ↦ rw later (ground (arith, contains-insert_sorted n p qs))
]

contains-sorted :
    (n : String) (ps : List BaseProvider)
    → contains n (map name_of (sorted may_precede ps)) ≡ contains n (map name_of ps)
contains-sorted n [] = refl
contains-sorted n (p ∷ ps) =
    ground (arith, contains-insert_sorted n p (sorted may_precede ps), contains-sorted n ps)

contains-found :
    (capability : Capability) (n : String) (d : ProviderRegistry) (p : BaseProvider)
    → lookup n d ≡ some p
    → supports p.profile capability ≡ true
    → contains (name_of p) (map name_of (filter (λ q. supports q.profile capability) (values d)))
      ≡ true
contains-found capability n [] p at s = cc
contains-found capability n ((k, q) ∷ d) p at s = elim (Bool-cases (str_eq k n)) [
  | inl same ↦ let e : q ≡ p = ground arith in rw (e, s) (ground (arith, eq_refl (name_of p)))
  | inr other ↦
      let ih = contains-found capability n d p (ground arith) s in
      elim (Bool-cases (supports q.profile capability)) [
        | inl kept ↦ rw kept (ground arith)
        | inr dropped ↦ rw dropped ih
      ]
]

-- The stub answers every request while it can serve.
complete_stub :
    (os : Platform) (request : LlmRequest) (p : BaseProvider) (r : Readings)
    → p.kind ≡ ProviderKind.local_stub
    → p.health.status ≡ ProviderStatus.available
    → (complete os request p r).0 ≡ ok (fallback_response os.strip request)
unfolding complete is_available invoke settle
complete_stub os request p r k a = ground arith

err≢ok : (exc : ProviderError) (response : LlmResponse) → err exc ≡ ok response → ⊥
err≢ok exc response h = cc

-- A name of the registry under which a stub can serve.
record IsStub (m : ProviderManager) (n : String) : Type 0 where
  stub : BaseProvider
  at : lookup n m.registry ≡ some stub
  kind : stub.kind ≡ ProviderKind.local_stub
  serving : stub.health.status ≡ ProviderStatus.available

module _ (os : Platform) (request : LlmRequest) (capability : Capability) (n : String) where
  attempt_keeps_IsStub :
      (attempt : ℕ) (name : String) (m : ProviderManager) (p : BaseProvider)
      → name_of p ≡ name
      → str_eq name n ≡ false
      → IsStub m n
      → IsStub (attempt_provider os request capability attempt p m).1 n
  attempt_keeps_IsStub attempt name m p named other s =
      let p' = (complete os request p m.readings).1 in
      let (in_registry, _) = attempt_registry os request capability attempt p m in
      record {
        stub = s.stub;
        at = ground (
          arith,
          ap (λ (d : ProviderRegistry). lookup n d) in_registry,
          lookup-insert (name_of p) n p' m.registry,
          eq_iff (name_of p) n,
          eq_iff name n,
          s.at,
        );
        kind = s.kind;
        serving = s.serving;
      }

  attempt_stub :
      (attempt : ℕ) (m : ProviderManager) (p : BaseProvider)
      → p.kind ≡ ProviderKind.local_stub
      → p.health.status ≡ ProviderStatus.available
      → (attempt_provider os request capability attempt p m).0
        ≡ ok (fallback_response os.strip request)
  unfolding attempt_provider
  attempt_stub attempt m p k a = complete_stub os request p m.readings k a

  try_each_stub :
      (names : List String) (attempt : ℕ) (failed_over : List String) (m : ProviderManager)
      → IsKeyed m.registry
      → IsStub m n
      → contains n names ≡ true
      → (inv : ProviderInvocation) × ((try_each os request capability attempt failed_over names m).0
          ≡ some inv)
  try_each_stub [] attempt failed_over m keyed s h = cc
  try_each_stub (name ∷ rest) attempt failed_over m keyed s h =
      elim (Option-cases (lookup name m.registry)) [
        | inl gone ↦
            let absent = lookup_cast name n m.registry in
            let (inv, done) =
              try_each_stub rest (suc attempt) failed_over m keyed s
                (ground (arith, s.at, eq_iff name n)) in
            (inv, rw (turn_gone os request capability attempt failed_over name rest m gone) done)
        | inr (p, found) ↦
            let m' = (attempt_provider os request capability attempt p m).1 in
            elim (Result-cases (attempt_provider os request capability attempt p m).0) [
              | inl (response, e) ↦ (
                invocation_of name response attempt failed_over,
                rw (
                    turn_ok os request capability attempt failed_over name rest m p response found
                      e),
              )
              | inr (exc, e) ↦ elim (Bool-cases (str_eq name n)) [
                | inl same ↦
                    let same_entry = lookup_cast name n m.registry ((eq_iff name n).0 same) in
                    let is_stub : p ≡ s.stub = ground (arith, s.at) in
                    absurd (
                      err≢ok exc (fallback_response os.strip request) (
                        sym e
                        ∙ attempt_stub attempt m p
                            (ap (λ (q : BaseProvider). q.kind) is_stub ∙ s.kind)
                            (ap (λ (q : BaseProvider). q.health.status) is_stub ∙ s.serving)))
                | inr other ↦
                    let (inv, done) =
                      try_each_stub rest (suc attempt) (failed_over ++ name ∷ []) m'
                        (attempt-IsKeyed os request capability attempt name m p keyed)
                        (attempt_keeps_IsStub attempt name m p (keyed.named name p found) other s)
                        (ground arith) in
                    (
                      inv,
                      rw
                          (turn_err os request capability attempt failed_over name rest m p exc
                            found e)
                          done,
                    )
              ]
            ]
      ]

  complete_from_stub :
      (names : List String) (m : ProviderManager)
      → IsKeyed m.registry
      → IsStub m n
      → contains n names ≡ true
      → (inv : ProviderInvocation) × ((complete_from os request capability names m).0 ≡ ok inv)
  unfolding complete_from after_loop
  complete_from_stub [] m keyed s h = cc
  complete_from_stub (name ∷ rest) m keyed s h =
      let (inv, done) = try_each_stub (name ∷ rest) 1 [] m keyed s h in (inv, rw done)

-- With a `LocalProvider` that has no adapter in the registry, able to serve and supporting the
-- capability, a request with no given order is always answered: however the other vendors fail,
-- `NoProviderAvailable` is not raised.
pub fallback_serves :
    (os : Platform) (request : LlmRequest) (capability : Capability) (m : ProviderManager)
    (p : BaseProvider)
    → IsKeyed m.registry
    → lookup (name_of p) m.registry ≡ some p
    → p.kind ≡ ProviderKind.local_stub
    → CanServe p
    → supports p.profile capability ≡ true
    → (inv : ProviderInvocation) × ((manager_complete os request capability none m).0 ≡ ok inv)
unfolding manager_complete for_capability
fallback_serves os request capability m p keyed at k can s =
    let n = name_of p in
    let supporting = map name_of (for_capability m.registry capability) in
    let listed : contains n supporting ≡ true =
      contains-sorted n (filter (λ q. supports q.profile capability) (values m.registry))
      ∙ contains-found capability n m.registry p at s in
    let chosen = candidates os capability none m in
    complete_from_stub os request capability n chosen.0 chosen.1
      (unfold candidates in screen-IsKeyed os supporting m keyed)
      (unfold candidates in
        record {
          stub = p;
          at = screen_keeps os supporting m n p at can.status;
          kind = k;
          serving = can.status;
        })
      (unfold candidates in screen_includes os supporting m n p listed at can)
