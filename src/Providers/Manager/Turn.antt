-- ===== src/Providers/Manager/Turn.antt =====
-- One turn of the failover loop: what it does to the registry and the store.
use hookclose.Prelude.{
  ℕ, suc, ◌+◌, String, ◌≡◌, refl, ap, subst, ◌∙◌, inl, inr, true, Option, none, some, List, [], ◌∷◌,
  ◌++◌, arith, eq_iff, lookup, insert, has_key, str_eq, All, Bool-cases, lookup-insert, Result, ok,
  err, length,
}
use hookclose.Contracts.{LlmRequest, LlmResponse}
use hookclose.Providers.State.{Capability, ProviderProfile, ProviderInvocation, ProviderError}
use hookclose.Providers.Base.{Platform, BaseProvider, name_of, complete, settle}
use hookclose.Providers.Registry.{ProviderRegistry}
use hookclose.Providers.Manager.{
  ProviderManager, ProviderStateStore, conclude, save, attempt_provider, invocation_of, try_each,
}

-- Each entry of the registry is under its provider's name, as `register` puts it.
pub record IsKeyed (providers : ProviderRegistry) : Type 0 where
  pub named : (n : String) (p : BaseProvider) → lookup n providers ≡ some p → name_of p ≡ n

module _ (os : Platform) (request : LlmRequest) (capability : Capability) where
  pub try_each-some :
      (attempt : ℕ) (failed_over : List String) (name : String) (rest : List String)
      (m : ProviderManager) (p : BaseProvider)
      → lookup name m.registry ≡ some p
      → let (answer, m') = attempt_provider os request capability attempt p m in
        try_each os request capability attempt failed_over (name ∷ rest) m ≡ (elim answer [
          | ok response ↦ (some (invocation_of name response attempt failed_over), failed_over, m')
          | err exc ↦
              try_each os request capability (suc attempt) (failed_over ++ name ∷ []) rest m'
        ])
  unfolding try_each
  try_each-some attempt failed_over name rest m p found = rw (found, try_each)

  pub conclude-registry :
      (answer : Result ProviderError LlmResponse) (p : BaseProvider) (m : ProviderManager)
      → (conclude os answer p capability m).registry ≡ m.registry
  unfolding conclude
  conclude-registry (ok response) p m = refl
  conclude-registry (err exc) p m = refl

  pub conclude-store :
      (answer : Result ProviderError LlmResponse) (p : BaseProvider) (m : ProviderManager)
      → (conclude os answer p capability m).store ≡ insert (name_of p) p.health m.store
  unfolding conclude save
  conclude-store (ok response) p m = refl
  conclude-store (err exc) p m = refl

  -- The registry and the store after one turn of the loop.
  pub attempt_registry :
      (attempt : ℕ) (p : BaseProvider) (m : ProviderManager)
      → let m' = (attempt_provider os request capability attempt p m).1 in
        let p' = (complete os request p m.readings).1 in
        (m'.registry ≡ insert (name_of p) p' m.registry)
        × (m'.store ≡ insert (name_of p') p'.health m.store)
  unfolding attempt_provider
  attempt_registry attempt p m =
      let (answer, p', r') = complete os request p m.readings in
      (conclude-registry answer p' _, conclude-store answer p' _)

  pub complete-profile :
      (p : BaseProvider) (m : ProviderManager)
      → (complete os request p m.readings).1.profile ≡ p.profile
  unfolding complete settle
  complete-profile p m = ground arith

-- The stored health of this provider is the one that it has.
abbrev pub IsSynced : ProviderManager → String → Type 0
IsSynced m n =
    (p : BaseProvider) × (lookup n m.registry ≡ some p) × (lookup n m.store ≡ some p.health)

-- From this manager on, these candidates are asked in turn, the first as the given number, each raises,
-- and they leave the other manager.
pub data AllRaise (os : Platform) (request : LlmRequest) (capability : Capability)
    : ℕ → ProviderManager → List String → ProviderManager → Type 0 where
  no_more : {attempt : ℕ} {m : ProviderManager} → AllRaise os request capability attempt m [] m
  raises :
      {attempt : ℕ} {m m' : ProviderManager} {name : String} {rest : List String} (p : BaseProvider)
      (exc : ProviderError)
      → lookup name m.registry ≡ some p
      → (complete os request p m.readings).0 ≡ err exc
      → AllRaise os request capability
          (suc attempt)
          (attempt_provider os request capability attempt p m).1
          rest
          m'
      → AllRaise os request capability attempt m (name ∷ rest) m'

-- The provider that the invocation names answers when it is asked of this manager, the invocation has
-- its answer, and this turn leaves the other manager.
abbrev pub Answers :
    Platform
    → LlmRequest
    → Capability
    → ProviderManager
    → ProviderInvocation
    → ProviderManager
    → Type 0
Answers os request capability m inv m' =
    (p : BaseProvider) × (response : LlmResponse) × (lookup inv.provider m.registry ≡ some p)
    × ((complete os request p m.readings).0 ≡ ok response)
    × (inv.content ≡ response.content)
    × (inv.total_tokens ≡ response.usage.total_tokens)
    × (m' ≡ (attempt_provider os request capability inv.attempts p m).1)

module _ (os : Platform) (request : LlmRequest) (capability : Capability) where
  -- What the loop returned for `names`, when `failed_over` had failed before, and the manager that it
  -- left.
  abbrev pub Outcome :
      List String
      → List String
      → ℕ
      → ProviderManager
      → Option ProviderInvocation
      → List String
      → ProviderManager
      → Type 0
  Outcome names failed_over attempt m none tried m' =
      (tried ≡ failed_over ++ names) × AllRaise os request capability attempt m names m'
  Outcome names failed_over attempt m (some inv) tried m' =
      (before : List String) × (after : List String) × (names ≡ before ++ inv.provider ∷ after)
      × (tried ≡ failed_over ++ before)
      × (inv.failed_over_from ≡ tried)
      × (inv.attempts ≡ attempt + length before)
      × (mid : ProviderManager) × AllRaise os request capability attempt m before mid
      × Answers os request capability mid inv m'

abbrev pub ServedSynced : ProviderManager → Option ProviderInvocation → Type 0
ServedSynced m none = Unit
ServedSynced m (some inv) = IsSynced m inv.provider

pub All-snoc {ℓ κ} :
    {A : Type ℓ} (P : A → Type κ) (xs : List A) (x : A) → All P xs → P x → All P (xs ++ x ∷ [])
All-snoc P [] x a p = (p, tt)
All-snoc P (y ∷ ys) x a p = (a.0, All-snoc P ys x a.1 p)

pub All-map {ℓ κ μ} :
    {A : Type ℓ} (P : A → Type κ) (Q : A → Type μ) (xs : List A)
    → ((x : A) → P x → Q x)
    → All P xs
    → All Q xs
All-map P Q [] f a = tt
All-map P Q (x ∷ xs) f a = (f x a.0, All-map P Q xs f a.1)

pub append_assoc_one {ℓ} :
    {A : Type ℓ} (xs : List A) (y : A) (ys : List A) → (xs ++ y ∷ []) ++ ys ≡ xs ++ (y ∷ ys)
append_assoc_one [] y ys = refl
append_assoc_one (x ∷ xs) y ys = ap (λ l. x ∷ l) (append_assoc_one xs y ys)

pub attempt-answer :
    (os : Platform) (request : LlmRequest) (capability : Capability) (attempt : ℕ)
    (p : BaseProvider) (m : ProviderManager)
    → (attempt_provider os request capability attempt p m).0 ≡ (complete os request p m.readings).0
unfolding attempt_provider
attempt-answer os request capability attempt p m = refl

pub Outcome-cons :
    (os : Platform) (request : LlmRequest) (capability : Capability) (name : String)
    (rest failed_over : List String) (attempt : ℕ) (m m' : ProviderManager) (p : BaseProvider)
    (exc : ProviderError) (found : Option ProviderInvocation) (tried : List String)
    → lookup name m.registry ≡ some p
    → (complete os request p m.readings).0 ≡ err exc
    → Outcome os request capability rest
        (failed_over ++ name ∷ [])
        (suc attempt)
        (attempt_provider os request capability attempt p m).1
        found
        tried
        m'
    → Outcome os request capability (name ∷ rest) failed_over attempt m found tried m'
Outcome-cons os request capability name rest failed_over attempt m m' p exc none tried at e
      (h, all) =
    (h ∙ append_assoc_one failed_over name rest, raises p exc at e all)
Outcome-cons os request capability name rest failed_over attempt m m' p exc (some inv) tried at e
      (before, after, n, t, f, a, mid, all, answered) =
    (
      name ∷ before,
      after,
      ap (λ l. name ∷ l) n,
      t ∙ append_assoc_one failed_over name before,
      f,
      omega (arith, a),
      mid,
      raises p exc at e all,
      answered,
    )

module _ (os : Platform) (request : LlmRequest) (capability : Capability) where
  module _ (attempt : ℕ) (name : String) (m : ProviderManager) (p : BaseProvider) where
    pub attempt-IsSynced :
        name_of p ≡ name → IsSynced (attempt_provider os request capability attempt p m).1 name
    attempt-IsSynced named =
        let p' = (complete os request p m.readings).1 in
        let (in_registry, in_store) = attempt_registry os request capability attempt p m in
        let same =
          ap (λ (q : ProviderProfile). q.name) (complete-profile os request capability p m) in
        (
          p',
          ground (
            arith,
            ap (λ (d : ProviderRegistry). lookup name d) in_registry,
            lookup-insert (name_of p) name p' m.registry,
            eq_iff (name_of p) name,
          ),
          ground (
            arith,
            ap (λ (d : ProviderStateStore). lookup name d) in_store,
            lookup-insert (name_of p') name p'.health m.store,
            eq_iff (name_of p') name,
          ),
        )

    pub attempt_keeps_IsSynced :
        (n : String)
        → name_of p ≡ name
        → IsSynced m n
        → IsSynced (attempt_provider os request capability attempt p m).1 n
    attempt_keeps_IsSynced n named (q, at, stored) =
        let p' = (complete os request p m.readings).1 in
        let (in_registry, in_store) = attempt_registry os request capability attempt p m in
        let same =
          ap (λ (r : ProviderProfile). r.name) (complete-profile os request capability p m) in
        elim (Bool-cases (str_eq name n)) [
          | inl equal ↦
              subst (IsSynced (attempt_provider os request capability attempt p m).1)
                ((eq_iff name n).0 equal) (attempt-IsSynced named)
          | inr other ↦ (
            q,
            ground (
              arith,
              ap (λ (d : ProviderRegistry). lookup n d) in_registry,
              lookup-insert (name_of p) n p' m.registry,
              eq_iff (name_of p) n,
              eq_iff name n,
            ),
            ground (
              arith,
              ap (λ (d : ProviderStateStore). lookup n d) in_store,
              lookup-insert (name_of p') n p'.health m.store,
              eq_iff (name_of p') n,
              eq_iff name n,
            ),
          )
        ]

    pub attempt_keeps_key :
        (n : String)
        → has_key n m.registry ≡ true
        → has_key n (attempt_provider os request capability attempt p m).1.registry ≡ true
    attempt_keeps_key n h =
        let p' = (complete os request p m.readings).1 in
        let (in_registry, _) = attempt_registry os request capability attempt p m in
        ground (
          arith,
          ap (λ (d : ProviderRegistry). lookup n d) in_registry,
          lookup-insert (name_of p) n p' m.registry,
        )

    pub attempt-IsKeyed :
        IsKeyed m.registry → IsKeyed (attempt_provider os request capability attempt p m).1.registry
    attempt-IsKeyed keyed =
        let p' = (complete os request p m.readings).1 in
        let (in_registry, _) = attempt_registry os request capability attempt p m in
        let same =
          ap (λ (r : ProviderProfile). r.name) (complete-profile os request capability p m) in
        record {
          named = λ n q at. ground (
            arith,
            ap (λ (d : ProviderRegistry). lookup n d) in_registry,
            lookup-insert (name_of p) n p' m.registry,
            eq_iff (name_of p) n,
            keyed.named n q,
          );
        }
