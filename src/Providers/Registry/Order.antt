-- ===== src/Providers/Registry/Order.antt =====
-- What the registry hands out, and in which order.
use mathlib.Core.List.{Perm}
use hookclose.Prelude.{
  String, ◌≡◌, ◌↔◌, ◌⊎◌, refl, not, ◌&&◌, Result, inl, inr, Bool, true, false, List, [], ◌∷◌, arith,
  ok, err, if◌then◌else◌, insert, has_key, values, filter, All, str_eq, Bool-cases, str_leb,
  str_leb_total, str_leb_trans, ◌<◌, lookup-insert, sorted-perm, sorted-All, sorted-Pairwise,
  Pairwise,
}
use hookclose.Providers.State.{Capability, supports}
use hookclose.Providers.Base.{BaseProvider, name_of}
use hookclose.Providers.Registry.{
  ProviderRegistry, RegistryError, already_registered, register, get, may_precede, for_capability,
}

All-filter :
    (test : BaseProvider → Bool) (ps : List BaseProvider)
    → All (λ p. test p ≡ true) (filter test ps)
All-filter test [] = tt
All-filter test (p ∷ ps) = elim (Bool-cases (test p)) [
  | inl kept ↦ rw kept (kept, All-filter test ps)
  | inr dropped ↦ rw dropped (All-filter test ps)
]

-- The failover order: more weight first, of equal weight the cheaper first, and of equal costs by name.
abbrev pub Precedes : BaseProvider → BaseProvider → Type 0
Precedes p q =
    let a = p.profile in
    let b = q.profile in
    (b.weight < a.weight)
    ⊎ ((a.weight ≡ b.weight)
        × ((a.cost_per_1k_tokens < b.cost_per_1k_tokens)
            ⊎ ((a.cost_per_1k_tokens ≡ b.cost_per_1k_tokens) × (str_leb a.name b.name ≡ true))))

may_precede-Precedes : (p q : BaseProvider) → may_precede p q ≡ true → Precedes p q
unfolding may_precede
may_precede-Precedes p q h = ground arith

not_first-Precedes : (p q : BaseProvider) → may_precede p q ≡ false → Precedes q p
unfolding may_precede
not_first-Precedes p q h = ground (arith, str_leb_total p.profile.name q.profile.name)

Precedes-trans : (p q r : BaseProvider) → Precedes p q → Precedes q r → Precedes p r
Precedes-trans p q r h k =
    ground (arith, str_leb_trans p.profile.name q.profile.name r.profile.name)

-- `for_capability` gives each registered provider with the capability exactly as often as it is
-- registered, gives no other, and puts them in the failover order: no provider stands anywhere before
-- one of more weight, nor of equal weight before a cheaper one, nor of equal weight and cost before one
-- whose name is less.
pub for_capability_order :
    (providers : ProviderRegistry) (capability : Capability)
    → Perm
        (for_capability providers capability)
        (filter (λ p. supports p.profile capability) (values providers))
      × All (λ p. supports p.profile capability ≡ true) (for_capability providers capability)
      × Pairwise Precedes (for_capability providers capability)
unfolding for_capability
for_capability_order providers capability =
    let test = λ (p : BaseProvider). supports p.profile capability in
    let found = filter test (values providers) in
    (
      sorted-perm may_precede found,
      sorted-All may_precede (λ p. supports p.profile capability ≡ true) found
          (All-filter test (values providers)),
      sorted-Pairwise may_precede Precedes may_precede-Precedes not_first-Precedes Precedes-trans
          found,
    )

-- Registering raises exactly when the name is taken and `replace` is off.
pub register_refuses :
    (providers : ProviderRegistry) (p : BaseProvider) (replace : Bool)
    → (register providers p replace ≡ err (already_registered (name_of p)))
      ↔ ((replace ≡ false) × (has_key (name_of p) providers ≡ true))
unfolding register
register_refuses providers p replace = (λ h. ground arith, λ h. ground arith)

-- After a registration, `get` gives the new provider under its name, and under every other name what
-- it gave before.
pub get-register :
    (providers providers' : ProviderRegistry) (p : BaseProvider) (replace : Bool) (name : String)
    → register providers p replace ≡ ok providers'
    → get providers' name ≡ (if str_eq (name_of p) name then ok p else get providers name)
unfolding register get
get-register providers providers' p replace name h =
    let kept : providers' ≡ insert (name_of p) p providers = ground arith in
    rw kept (ground (arith, lookup-insert (name_of p) name p providers))

-- What `register` promises of its result.
abbrev pub Registers :
    ProviderRegistry → BaseProvider → Bool → Result RegistryError ProviderRegistry → Type 0
Registers providers p replace (err e) =
    (e ≡ already_registered (name_of p))
    × (replace ≡ false)
    × (has_key (name_of p) providers ≡ true)
Registers providers p replace (ok providers') =
    ((replace ≡ true) ⊎ (has_key (name_of p) providers ≡ false))
    × ((name : String)
        → get providers' name ≡ (if str_eq (name_of p) name then ok p else get providers name))

-- Registering raises only when the name is taken and `replace` is off. When it returns, `replace` is on
-- or the name was free, and `get` gives the new provider under its name, and under every other name
-- what it gave before.
pub register_exact :
    (providers : ProviderRegistry) (p : BaseProvider) (replace : Bool)
    → Registers providers p replace (register providers p replace)
unfolding register
register_exact providers p replace =
    elim (Bool-cases (not replace && has_key (name_of p) providers)) [
      | inl taken ↦ rw taken (refl, ground arith, ground arith)
      | inr free ↦ rw free (
        ground arith,
        λ name.
            get-register providers (insert (name_of p) p providers) p replace name
              (unfold register in rw free),
      )
    ]
