-- ===== src/Prelude/Dicts.antt =====
-- Python's `dict` with string keys, as an association list in insertion order.
use Prim.Native.String.{String}
use mathlib.Core.Path.{◌≡◌, refl, ap}
use mathlib.Core.Logic.{inl, inr}
use mathlib.Core.Bool.{Bool, false}
use mathlib.Core.Option.{Option, none, some}
use mathlib.Core.List.{List, [], ◌∷◌, ◌++◌}
use native.Mathlib.Omega.{arith}
use text.Mathlib.TextEquality.{eq_iff}
use hookclose.Prelude.Tests.{if◌then◌else◌, is_some, Bool-cases}
use hookclose.Prelude.Texts.{str_eq, contains, contains-append, eq_refl}

abbrev pub Dict {ℓ} : Type ℓ → Type ℓ
Dict V = List (String × V)

module _ {ℓ} {V : Type ℓ} where
  -- `d.get(k)`
  abbrev pub lookup : String → Dict V → Option V
  lookup k [] = none
  lookup k ((j, v) ∷ d) = if str_eq j k then some v else lookup k d

  -- `d[k] = v`: an old key keeps its place, a new one comes last.
  abbrev pub insert : String → V → Dict V → Dict V
  insert k v [] = (k, v) ∷ []
  insert k v ((j, w) ∷ d) = if str_eq j k then (j, v) ∷ d else (j, w) ∷ insert k v d

  -- `k in d`
  abbrev pub has_key : String → Dict V → Bool
  has_key k d = is_some (lookup k d)

  -- `tuple(d)`
  abbrev pub keys : Dict V → List String
  keys [] = []
  keys ((j, v) ∷ d) = j ∷ keys d

  -- `d.values()`
  abbrev pub values : Dict V → List V
  values [] = []
  values ((j, v) ∷ d) = v ∷ values d

module _ {ℓ} {V : Type ℓ} where
  pub lookup-insert :
      (k j : String) (v : V) (d : Dict V)
      → lookup j (insert k v d) ≡ (if str_eq k j then some v else lookup j d)
  lookup-insert k j v [] = refl
  lookup-insert k j v ((i, w) ∷ d) =
      ground (arith, eq_iff k j, eq_iff i k, eq_iff i j, lookup-insert k j v d)

  pub lookup-insert_self : (k : String) (v : V) (d : Dict V) → lookup k (insert k v d) ≡ some v
  lookup-insert_self k v d = ground (arith, lookup-insert k k v d, eq_refl k)

  pub has_key-eq-contains : (k : String) (d : Dict V) → has_key k d ≡ contains k (keys d)
  has_key-eq-contains k [] = refl
  has_key-eq-contains k ((j, v) ∷ d) = ground (arith, has_key-eq-contains k d)

  pub keys-insert :
      (k : String) (v : V) (d : Dict V)
      → keys (insert k v d) ≡ (if contains k (keys d) then keys d else keys d ++ k ∷ [])
  keys-insert k v [] = refl
  keys-insert k v ((j, w) ∷ d) = ground (arith, keys-insert k v d)

pub lookup_cast {ℓ} : {V : Type ℓ} (k j : String) (d : Dict V) → k ≡ j → lookup k d ≡ lookup j d
lookup_cast k j d e = ap (λ t. lookup t d) e

-- Names that are all different, as the keys of a `dict` are.
abbrev pub Distinct : List String → Type 0
Distinct [] = Unit
Distinct (k ∷ ks) = (contains k ks ≡ false) × Distinct ks

Distinct-snoc :
    (ks : List String) (k : String) → Distinct ks → contains k ks ≡ false → Distinct (ks ++ k ∷ [])
Distinct-snoc [] k d new = (refl, tt)
Distinct-snoc (j ∷ ks) k d new = (
  ground (arith, contains-append j ks (k ∷ []), eq_iff j k, eq_iff k j),
  Distinct-snoc ks k d.1 (ground arith),
)

pub Distinct-insert {ℓ} :
    {V : Type ℓ} (k : String) (v : V) (d : Dict V)
    → Distinct (keys d)
    → Distinct (keys (insert k v d))
Distinct-insert k v d h = elim (Bool-cases (contains k (keys d))) [
  | inl old ↦ rw (keys-insert k v d) (rw old h)
  | inr new ↦ rw (keys-insert k v d) (rw new (Distinct-snoc (keys d) k h new))
]

-- `d.pop(k, None)`
abbrev pub erase {ℓ} : {V : Type ℓ} → String → Dict V → Dict V
erase k [] = []
erase k ((j, v) ∷ d) = let rest = erase k d in if str_eq j k then rest else (j, v) ∷ rest

pub lookup-erase {ℓ} :
    {V : Type ℓ} (k j : String) (d : Dict V)
    → lookup j (erase k d) ≡ (if str_eq k j then none else lookup j d)
lookup-erase k j [] = ground arith
lookup-erase k j ((i, v) ∷ d) =
    ground (arith, eq_iff k j, eq_iff i k, eq_iff i j, lookup-erase k j d)
