-- ===== src/Providers/Manager/Invariant.antt =====
-- What holds of the registry whatever requests come: enough that it outlasts a refresh and a call of one
-- registered provider.
use hookclose.Prelude.{
  ℕ, suc, String, ◌≡◌, sym, subst, inl, inr, Option, some, List, [], ◌∷◌, ◌++◌, map, lookup, insert,
  Option-cases, Result-cases,
}
use hookclose.Contracts.{LlmRequest}
use hookclose.Providers.State.{Capability}
use hookclose.Providers.Base.{Platform, Readings, BaseProvider, name_of, is_available, complete}
use hookclose.Providers.Registry.{ProviderRegistry, for_capability}
use hookclose.Providers.Manager.Candidates.{screen-some, screen-none}
use hookclose.Providers.Manager.Turn.{attempt_registry}
use hookclose.Providers.Manager.Failover.{turn_ok, turn_err, turn_gone}
use hookclose.Providers.Manager.{
  ProviderManager, in_order, screen, asked, after_asking, candidates, attempt_provider, try_each,
  after_loop, complete_from, manager_complete,
}

pub record IsInvariant (os : Platform) (P : ProviderRegistry → Type 0) : Type 1 where
  pub refreshed :
      (now : ℕ) (name : String) (p : BaseProvider) (d : ProviderRegistry)
      → lookup name d ≡ some p
      → P d
      → P (insert name (record p { health = (is_available now p.health).1 }) d)
  pub completed :
      (request : LlmRequest) (name : String) (p : BaseProvider) (r : Readings)
      (d : ProviderRegistry)
      → lookup name d ≡ some p
      → P d
      → P (insert (name_of p) (complete os request p r).1 d)

-- A call of `manager_complete`.
pub record Asked : Type 0 where
  pub request : LlmRequest
  pub capability : Capability
  pub order : Option (List String)

-- The manager after some calls, each answered or not.
abbrev pub after_requests : Platform → List Asked → ProviderManager → ProviderManager
after_requests os [] m = m
after_requests os (a ∷ rest) m =
    after_requests os rest (manager_complete os a.request a.capability a.order m).1

module _ (os : Platform) (P : ProviderRegistry → Type 0) (inv : IsInvariant os P) where
  screen_keeps_inv :
      (names : List String) (m : ProviderManager) → P m.registry → P (screen os names m).1.registry
  screen_keeps_inv [] m h = unfold screen in h
  screen_keeps_inv (name ∷ rest) m h = elim (Option-cases (lookup name m.registry)) [
    | inl gone ↦ rw (screen-none os name rest m gone) (screen_keeps_inv rest m h)
    | inr (p, found) ↦ rw (screen-some os name rest m p found) (
        screen_keeps_inv rest (after_asking os name p m) (
          unfold after_asking asked in
          inv.refreshed (os.clock m.readings.times) name p m.registry found h))
  ]

  module _ (request : LlmRequest) (capability : Capability) where
    attempt_keeps_inv :
        (attempt : ℕ) (name : String) (m : ProviderManager) (p : BaseProvider)
        → lookup name m.registry ≡ some p
        → P m.registry
        → P (attempt_provider os request capability attempt p m).1.registry
    attempt_keeps_inv attempt name m p found h =
        subst P (sym (attempt_registry os request capability attempt p m).0)
          (inv.completed request name p m.readings m.registry found h)

    try_each_keeps_inv :
        (names : List String) (attempt : ℕ) (failed_over : List String) (m : ProviderManager)
        → P m.registry
        → P (try_each os request capability attempt failed_over names m).2.registry
    try_each_keeps_inv [] attempt failed_over m h = unfold try_each in h
    try_each_keeps_inv (name ∷ rest) attempt failed_over m h =
        elim (Option-cases (lookup name m.registry)) [
          | inl gone ↦
              rw (turn_gone os request capability attempt failed_over name rest m gone)
                (try_each_keeps_inv rest (suc attempt) failed_over m h)
          | inr (p, found) ↦
              let m' = (attempt_provider os request capability attempt p m).1 in
              let h' = attempt_keeps_inv attempt name m p found h in
              elim (Result-cases (attempt_provider os request capability attempt p m).0) [
                | inl (response, e) ↦
                    rw
                      (turn_ok os request capability attempt failed_over name rest m p response
                        found e)
                      h'
                | inr (exc, e) ↦
                    rw
                      (turn_err os request capability attempt failed_over name rest m p exc found e)
                      (try_each_keeps_inv rest (suc attempt) (failed_over ++ name ∷ []) m' h')
              ]
        ]

    complete_from_keeps_inv :
        (names : List String) (m : ProviderManager)
        → P m.registry
        → P (complete_from os request capability names m).1.registry
    unfolding complete_from after_loop
    complete_from_keeps_inv [] m h = h
    complete_from_keeps_inv (name ∷ rest) m h =
        let kept = try_each_keeps_inv (name ∷ rest) 1 [] m h in
        elim (Option-cases (try_each os request capability 1 [] (name ∷ rest) m).0) [
          | inl out ↦ rw out kept
          | inr (invocation, e) ↦ rw e kept
        ]

    pub complete_keeps_inv :
        (order : Option (List String)) (m : ProviderManager)
        → P m.registry
        → P (manager_complete os request capability order m).1.registry
    unfolding manager_complete
    complete_keeps_inv order m h =
        let supporting = map name_of (for_capability m.registry capability) in
        let chosen = candidates os capability order m in
        complete_from_keeps_inv chosen.0 chosen.1
          (unfold candidates in screen_keeps_inv (in_order supporting order) m h)

  -- The invariant outlasts any calls of the manager.
  pub requests_keep_inv :
      (calls : List Asked) (m : ProviderManager)
      → P m.registry
      → P (after_requests os calls m).registry
  requests_keep_inv [] m h = h
  requests_keep_inv (a ∷ rest) m h =
      requests_keep_inv rest (manager_complete os a.request a.capability a.order m).1
        (complete_keeps_inv a.request a.capability a.order m h)
