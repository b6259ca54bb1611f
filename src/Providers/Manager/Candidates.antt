-- ===== src/Providers/Manager/Candidates.antt =====
-- The candidates: who is asked, in what state, and that asking changes nobody else.
use hookclose.Prelude.{
  String, ◌≡◌, subst, inl, inr, true, Option, none, some, List, [], ◌∷◌, map, arith, eq_iff,
  if◌then◌else◌, lookup, has_key, contains, filter, All, lookup-insert_self, Bool-cases,
  Option-cases, lookup-insert, lookup_cast, contains-cons,
}
use hookclose.Providers.State.{Capability, ProviderStatus}
use hookclose.Providers.Base.{Platform, BaseProvider, name_of, is_available, has_budget}
use hookclose.Providers.Registry.{ProviderRegistry, for_capability}
use hookclose.Providers.Manager.{
  ProviderManager, in_order, asked, after_asking, passes, screen, candidates,
}

-- The provider can serve: it is available and within its budget.
pub record CanServe (p : BaseProvider) : Type 0 where
  pub status : p.health.status ≡ ProviderStatus.available
  pub budget : has_budget p 0 ≡ true

-- The registry has a provider of this name that can serve.
abbrev pub ServesAs : ProviderRegistry → String → Type 0
ServesAs providers name = (p : BaseProvider) × (lookup name providers ≡ some p) × CanServe p

abbrev pub Registered : ProviderRegistry → List String → Type 0
Registered providers names = All (λ n. has_key n providers ≡ true) names

module _ (os : Platform) where
  pub screen-some :
      (name : String) (rest : List String) (m : ProviderManager) (p : BaseProvider)
      → lookup name m.registry ≡ some p
      → screen os (name ∷ rest) m ≡ (
        if passes os p m
            then name ∷ (screen os rest (after_asking os name p m)).0
            else (screen os rest (after_asking os name p m)).0,
        (screen os rest (after_asking os name p m)).1,
      )
  unfolding screen
  screen-some name rest m p found = rw (found, screen)

  pub screen-none :
      (name : String) (rest : List String) (m : ProviderManager)
      → lookup name m.registry ≡ none
      → screen os (name ∷ rest) m ≡ screen os rest m
  unfolding screen
  screen-none name rest m gone = rw (gone, screen)

  -- A provider that is available is left as it is by asking any provider.
  after_asking_keeps :
      (name : String) (p : BaseProvider) (m : ProviderManager) (n : String) (q : BaseProvider)
      → lookup name m.registry ≡ some p
      → lookup n m.registry ≡ some q
      → q.health.status ≡ ProviderStatus.available
      → lookup n (after_asking os name p m).registry ≡ some q
  unfolding after_asking asked is_available
  after_asking_keeps name p m n q at_name at_n serving =
      let p' = record p { health = (is_available (os.clock m.readings.times) p.health).1 } in
      ground
        (arith, lookup-insert name n p' m.registry, eq_iff name n, lookup_cast name n m.registry)

  -- So is it by screening.
  pub screen_keeps :
      (names : List String) (m : ProviderManager) (n : String) (q : BaseProvider)
      → lookup n m.registry ≡ some q
      → q.health.status ≡ ProviderStatus.available
      → lookup n (screen os names m).1.registry ≡ some q
  screen_keeps [] m n q at serving = unfold screen in at
  screen_keeps (name ∷ rest) m n q at serving = elim (Option-cases (lookup name m.registry)) [
    | inl gone ↦ rw (screen-none name rest m gone) (screen_keeps rest m n q at serving)
    | inr (p, found) ↦ rw (screen-some name rest m p found) (
        screen_keeps rest (after_asking os name p m) n q
          (after_asking_keeps name p m n q found at serving) serving)
  ]

  passes-CanServe :
      (p : BaseProvider) (m : ProviderManager) → passes os p m ≡ true → CanServe (asked os p m)
  unfolding passes asked is_available
  passes-CanServe p m ok' = ground arith

  -- Every name that passes the screen stands for a provider that can serve when the screening ends.
  pub screen_serves :
      (names : List String) (m : ProviderManager)
      → All (ServesAs (screen os names m).1.registry) (screen os names m).0
  screen_serves [] m = unfold screen in tt
  screen_serves (name ∷ rest) m = elim (Option-cases (lookup name m.registry)) [
    | inl gone ↦ rw (screen-none name rest m gone) (screen_serves rest m)
    | inr (p, found) ↦
        rw (screen-some name rest m p found)
          (add name p m rest (screen_serves rest (after_asking os name p m)))
  ]
    where
      add :
          (name : String) (p : BaseProvider) (m : ProviderManager) (rest : List String)
          → let end = screen os rest (after_asking os name p m) in
            All (ServesAs end.1.registry) end.0
            → All (ServesAs end.1.registry) (if passes os p m then name ∷ end.0 else end.0)
      add name p m rest later = elim (Bool-cases (passes os p m)) [
        | inl pass ↦
            let can = passes-CanServe p m pass in
            rw pass (
              (
                asked os p m,
                screen_keeps rest (after_asking os name p m) name (asked os p m)
                    (unfold after_asking in lookup-insert_self name (asked os p m) m.registry)
                    can.status,
                can,
              ),
              later,
            )
        | inr fails ↦ rw fails later
      ]

  screen_within :
      (names : List String) (m : ProviderManager) (n : String)
      → contains n (screen os names m).0 ≡ true
      → contains n names ≡ true
  screen_within [] m n h = unfold screen in h
  screen_within (name ∷ rest) m n h = elim (Option-cases (lookup name m.registry)) [
    | inl gone ↦ ground (arith, screen-none name rest m gone, screen_within rest m n)
    | inr (p, found) ↦
        ground
          (arith, screen-some name rest m p found, screen_within rest (after_asking os name p m) n)
  ]

  -- A provider that can serve passes, whatever the clock says.
  CanServe-passes : (p : BaseProvider) (m : ProviderManager) → CanServe p → passes os p m ≡ true
  unfolding passes asked is_available
  CanServe-passes p m can = ground (arith, can.budget)

  pub screen_includes :
      (names : List String) (m : ProviderManager) (n : String) (q : BaseProvider)
      → contains n names ≡ true
      → lookup n m.registry ≡ some q
      → CanServe q
      → contains n (screen os names m).0 ≡ true
  screen_includes [] m n q h at can = unfold screen in h
  screen_includes (name ∷ rest) m n q h at can = elim (Option-cases (lookup name m.registry)) [
    | inl gone ↦ ground (
      arith,
      screen-none name rest m gone,
      screen_includes rest m n q,
      eq_iff name n,
      lookup_cast name n m.registry,
    )
    | inr (p, found) ↦
        let kept = after_asking_keeps name p m n q found at can.status in
        ground (
          arith,
          screen-some name rest m p found,
          λ (c : contains n rest ≡ true).
              screen_includes rest (after_asking os name p m) n q c kept can,
          CanServe-passes q m can,
          eq_iff name n,
          lookup_cast name n m.registry,
        )
  ]

  in_order_within :
      (supporting : List String) (order : Option (List String)) (n : String)
      → contains n (in_order supporting order) ≡ true
      → contains n supporting ≡ true
  in_order_within supporting none n h = h
  in_order_within supporting (some order) n h = kept order h
    where
      kept :
          (ns : List String)
          → contains n (filter (λ k. contains k supporting) ns) ≡ true
          → contains n supporting ≡ true
      kept [] h' = cc
      kept (k ∷ ks) h' = elim (Bool-cases (contains k supporting)) [
        | inl inside ↦
            elim (contains-cons n k (filter (λ j. contains j supporting) ks) (rw inside at h')) [
              | inl same ↦ subst (λ j. contains j supporting ≡ true) same inside
              | inr later ↦ kept ks later
            ]
        | inr outside ↦ kept ks (rw outside at h')
      ]

  -- Every candidate supports the capability and can serve once the candidates are chosen: it is
  -- available and within its budget. Conversely each supporting provider that could already serve is
  -- a candidate when no order is given.
  pub candidates_exact :
      (capability : Capability) (order : Option (List String)) (m : ProviderManager)
      → let supporting = map name_of (for_capability m.registry capability) in
        let chosen = candidates os capability order m in
        All (ServesAs chosen.1.registry) chosen.0
        × ((n : String) → contains n chosen.0 ≡ true → contains n supporting ≡ true)
        × ((n : String)
            → ServesAs m.registry n
            → contains n supporting ≡ true
            → contains n (candidates os capability none m).0 ≡ true)
  unfolding candidates
  candidates_exact capability order m =
      let supporting = map name_of (for_capability m.registry capability) in
      (
        screen_serves (in_order supporting order) m,
        λ n h. in_order_within supporting order n (screen_within (in_order supporting order) m n h),
        λ n (q, at, can) h. screen_includes supporting m n q h at can,
      )
