-- ===== src/Prelude/Sorting.antt =====
-- Python's stable `sorted`, over a test that says which of two items may come first, and the order of
-- texts.
use Prim.Native.Nat.{Ordering, compare as compare_ℕ}
use Prim.Native.Char.{Char, code}
use Prim.Native.String.{String, compare, then as in_turn}
use Prim.Native.String.compare as by_char
use mathlib.Core.Path.{◌≡◌, refl}
use mathlib.Core.Logic.{inl, inr}
use mathlib.Core.Bool.{Bool, true, false}
use mathlib.Core.List.{List, [], ◌∷◌, Perm}
use mathlib.Core.List.Perm
use native.Mathlib.Omega.{arith}
use hookclose.Prelude.Tests.{if◌then◌else◌, Bool-cases}
use hookclose.Prelude.Lists.{All}

module _ {ℓ} {A : Type ℓ} (may_precede : A → A → Bool) where
  abbrev pub insert_sorted : A → List A → List A
  insert_sorted x [] = x ∷ []
  insert_sorted x (y ∷ ys) = if may_precede x y then x ∷ y ∷ ys else y ∷ insert_sorted x ys

  abbrev pub sorted : List A → List A
  sorted [] = []
  sorted (x ∷ xs) = insert_sorted x (sorted xs)

  -- Each item may precede the next one.
  abbrev pub IsSorted : List A → Type 0
  IsSorted [] = Unit
  IsSorted (x ∷ []) = Unit
  IsSorted (x ∷ y ∷ ys) = (may_precede x y ≡ true) × IsSorted (y ∷ ys)

  insert_sorted-perm : (x : A) (xs : List A) → Perm (insert_sorted x xs) (x ∷ xs)
  insert_sorted-perm x [] = Perm.refl _
  insert_sorted-perm x (y ∷ ys) = elim (Bool-cases (may_precede x y)) [
    | inl first ↦ rw first (Perm.refl _)
    | inr later ↦ rw later (Perm.trans (Perm.cons y (insert_sorted-perm x ys)) (Perm.swap _ _ _))
  ]

  pub sorted-perm : (xs : List A) → Perm (sorted xs) xs
  sorted-perm [] = Perm.refl _
  sorted-perm (x ∷ xs) =
      Perm.trans (insert_sorted-perm x (sorted xs)) (Perm.cons x (sorted-perm xs))

  module _ (total : (x y : A) → may_precede x y ≡ false → may_precede y x ≡ true) where
    insert_sorted-IsSorted : (x : A) (xs : List A) → IsSorted xs → IsSorted (insert_sorted x xs)
    insert_sorted-IsSorted x [] s = tt
    insert_sorted-IsSorted x (y ∷ []) s = elim (Bool-cases (may_precede x y)) [
      | inl first ↦ rw first (first, tt)
      | inr later ↦ rw later (total x y later, tt)
    ]
    insert_sorted-IsSorted x (y ∷ z ∷ zs) s = elim (Bool-cases (may_precede x y)) [
      | inl first ↦ rw first (first, s)
      | inr later ↦ rw later (elim (Bool-cases (may_precede x z)) [
        | inl second ↦
            let rest = insert_sorted-IsSorted x (z ∷ zs) s.1 in
            rw second (total x y later, (second, s.1))
        | inr third ↦
            let rest = insert_sorted-IsSorted x (z ∷ zs) s.1 in rw third (s.0, (rw third at rest))
      ])
    ]

    pub sorted-IsSorted : (xs : List A) → IsSorted (sorted xs)
    sorted-IsSorted [] = tt
    sorted-IsSorted (x ∷ xs) = insert_sorted-IsSorted x (sorted xs) (sorted-IsSorted xs)

  pub insert_sorted-All {κ} :
      (P : A → Type κ) (x : A) (xs : List A) → P x → All P xs → All P (insert_sorted x xs)
  insert_sorted-All P x [] p a = (p, a)
  insert_sorted-All P x (y ∷ ys) p a = elim (Bool-cases (may_precede x y)) [
    | inl first ↦ rw first (p, a)
    | inr later ↦ rw later (a.0, insert_sorted-All P x ys p a.1)
  ]

  pub sorted-All {κ} : (P : A → Type κ) (xs : List A) → All P xs → All P (sorted xs)
  sorted-All P [] a = a
  sorted-All P (x ∷ xs) a = insert_sorted-All P x (sorted xs) a.0 (sorted-All P xs a.1)

-- Each item stands so to every later one.
abbrev pub Pairwise {ℓ} : {A : Type ℓ} → (A → A → Type 0) → List A → Type 0
Pairwise R [] = Unit
Pairwise R (x ∷ xs) = All (R x) xs × Pairwise R xs

All-weaken {ℓ} :
    {A : Type ℓ} (P Q : A → Type 0) (xs : List A) → ((x : A) → P x → Q x) → All P xs → All Q xs
All-weaken P Q [] f a = tt
All-weaken P Q (x ∷ xs) f a = (f x a.0, All-weaken P Q xs f a.1)

-- What sorting by a test gives, for a transitive relation that the test decides.
module _ {ℓ} {A : Type ℓ} (may_precede : A → A → Bool) (R : A → A → Type 0)
    (first_holds : (x y : A) → may_precede x y ≡ true → R x y)
    (later_holds : (x y : A) → may_precede x y ≡ false → R y x)
    (trans : (x y z : A) → R x y → R y z → R x z) where
  insert_sorted-Pairwise :
      (x : A) (xs : List A) → Pairwise R xs → Pairwise R (insert_sorted may_precede x xs)
  insert_sorted-Pairwise x [] s = (tt, tt)
  insert_sorted-Pairwise x (y ∷ ys) (all, s) = elim (Bool-cases (may_precede x y)) [
    | inl first ↦
        let before = first_holds x y first in
        rw first ((before, All-weaken (R y) (R x) ys (λ z. trans x y z before) all), (all, s))
    | inr later ↦ rw later (
      insert_sorted-All may_precede (R y) x ys (later_holds x y later) all,
      insert_sorted-Pairwise x ys s,
    )
  ]

  pub sorted-Pairwise : (xs : List A) → Pairwise R (sorted may_precede xs)
  sorted-Pairwise [] = tt
  sorted-Pairwise (x ∷ xs) = insert_sorted-Pairwise x (sorted may_precede xs) (sorted-Pairwise xs)

-- `a <= b` on texts, by code points.
abbrev pub str_leb : String → String → Bool
str_leb a b = elim (compare a b) [ Ordering.gt ↦ false | _ ↦ true ]

compare-nil-cons : (d : Char) (t : String) → compare String.[] (String.◌∷◌ d t) ≡ Ordering.lt
compare-nil-cons d t = λ i. by_char.nil-cons d t i

compare-cons-nil : (c : Char) (s : String) → compare (String.◌∷◌ c s) String.[] ≡ Ordering.gt
compare-cons-nil c s = λ i. by_char.cons-nil c s i

compare-cons-cons :
    (c d : Char) (s t : String)
    → compare (String.◌∷◌ c s) (String.◌∷◌ d t)
      ≡ in_turn (compare_ℕ (code c) (code d)) (compare s t)
compare-cons-cons c d s t = λ i. by_char.cons-cons c d s t i

pub str_leb_total : (a b : String) → str_leb a b ≡ false → str_leb b a ≡ true
str_leb_total String.[] String.[] h = cc
str_leb_total String.[] (String.◌∷◌ d t) h = ground (arith, compare-nil-cons d t)
str_leb_total (String.◌∷◌ c s) String.[] h = ground (arith, compare-nil-cons c s)
str_leb_total (String.◌∷◌ c s) (String.◌∷◌ d t) h =
    let ih = str_leb_total s t in
    ground (arith, ih, compare-cons-cons c d s t, compare-cons-cons d c t s)

pub str_leb_trans : (a b c : String) → str_leb a b ≡ true → str_leb b c ≡ true → str_leb a c ≡ true
str_leb_trans String.[] b String.[] h k = refl
str_leb_trans String.[] b (String.◌∷◌ e u) h k = ground (arith, compare-nil-cons e u)
str_leb_trans (String.◌∷◌ c s) String.[] d h k = ground (arith, compare-cons-nil c s)
str_leb_trans (String.◌∷◌ c s) (String.◌∷◌ d t) String.[] h k = ground (arith, compare-cons-nil d t)
str_leb_trans (String.◌∷◌ c s) (String.◌∷◌ d t) (String.◌∷◌ e u) h k = ground (
  arith,
  str_leb_trans s t u,
  compare-cons-cons c d s t,
  compare-cons-cons d e t u,
  compare-cons-cons c e s u,
)
