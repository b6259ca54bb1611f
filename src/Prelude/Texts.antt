-- ===== src/Prelude/Texts.antt =====
-- Python strings: comparison, f-strings, the head before the first dot, prefixes by characters; and
-- sets of strings as lists without repetition.
use Prim.Native.Nat.{ℕ, zero, suc}
use Prim.Native.Char.{code}
use Prim.Native.String.{String}
use Prim.Native.String
use mathlib.Core.Path.{◌≡◌, refl}
use mathlib.Core.Logic.{◌⊎◌}
use mathlib.Core.Bool.{Bool, true, false, ◌||◌, ◌&&◌}
use mathlib.Core.List.{List, [], ◌∷◌, ◌++◌}
use native.Mathlib.Omega.{arith}
use text.Mathlib.Text.{◌==◌ as ◌=ˢ◌}
use text.Mathlib.TextEquality.{eq_iff}
use hookclose.Prelude.Tests.{if◌then◌else◌, ◌==◌}

abbrev pub str_eq : String → String → Bool
str_eq a b = a =ˢ b

-- `"".join(parts)`, and so an f-string from its parts.
abbrev pub format : List String → String
format [] = String.[]
format (s ∷ parts) = String.◌++◌ s (format parts)

-- `s.split(".", 1)[0]`: what stands before the first dot.
unfoldable pub head_segment : String → String
head_segment String.[] = String.[]
head_segment (String.◌∷◌ c s) =
    let rest = head_segment s in if code c == b'.' then String.[] else String.◌∷◌ c rest

-- `s.startswith(prefix)`
unfoldable pub startswith : String → String → Bool
startswith String.[] s = true
startswith (String.◌∷◌ c prefix) String.[] = false
startswith (String.◌∷◌ c prefix) (String.◌∷◌ d s) =
    let rest = startswith prefix s in if code c == code d then rest else false

-- `part in s`, on texts.
unfoldable pub is_in : String → String → Bool
unfolding startswith
is_in part String.[] = startswith part String.[]
is_in part (String.◌∷◌ c s) = startswith part (String.◌∷◌ c s) || is_in part s

-- `s[:n]`, by characters.
abbrev pub take_chars : ℕ → String → String
take_chars zero s = String.[]
take_chars (suc n) String.[] = String.[]
take_chars (suc n) (String.◌∷◌ c s) = String.◌∷◌ c (take_chars n s)

-- `k in xs`
abbrev pub contains : String → List String → Bool
contains k [] = false
contains k (x ∷ xs) = str_eq x k || contains k xs

-- `xs.add(k)` on a set that is kept as a list without repetition.
abbrev pub set_add : String → List String → List String
set_add k xs = if contains k xs then xs else xs ++ k ∷ []

-- `xs <= ys` on sets.
abbrev pub subset : List String → List String → Bool
subset [] ys = true
subset (x ∷ xs) ys = contains x ys && subset xs ys

pub eq_refl : (k : String) → str_eq k k ≡ true
eq_refl k = (eq_iff k k).1 refl

pub str_eq_sym : (a b : String) → str_eq a b ≡ str_eq b a
str_eq_sym a b = ground (arith, eq_iff a b, eq_iff b a)

pub contains-append :
    (k : String) (xs ys : List String) → contains k (xs ++ ys) ≡ (contains k xs || contains k ys)
contains-append k [] ys = refl
contains-append k (x ∷ xs) ys = ground (arith, contains-append k xs ys)

pub contains_cast : (k x : String) (xs : List String) → k ≡ x → contains k xs ≡ contains x xs
contains_cast k x xs e = rw e

pub contains-set_add :
    (k x : String) (xs : List String) → contains x (set_add k xs) ≡ (str_eq k x || contains x xs)
contains-set_add k x xs =
    ground (arith, contains-append x xs (k ∷ []), eq_iff k x, contains_cast k x xs)

pub contains-cons :
    (x k : String) (xs : List String)
    → contains x (k ∷ xs) ≡ true
    → (k ≡ x) ⊎ (contains x xs ≡ true)
contains-cons x k xs h = ground (arith, eq_iff k x)

pub not_contains-cons :
    (x k : String) (xs : List String)
    → contains x (k ∷ xs) ≡ false
    → (str_eq k x ≡ false) × (contains x xs ≡ false)
not_contains-cons x k xs h = ground arith
