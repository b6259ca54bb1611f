-- ===== src/Runtime.antt =====
-- runtime/state.py: the state of the build process; Store is the file that keeps it.
mod Examples
pub mod Composition
pub mod Store
use hookclose.Prelude.{
  ℕ, suc, ◌+◌, ◌≤◌, ◌<◌, max, String, ◌≡◌, refl, ap, ◌∙◌, ◌↔◌, inl, inr, Bool, true, false, not,
  ◌||◌, ◌&&◌, Option, List, [], ◌∷◌, arith, if◌then◌else◌, ltb, ◌==◌, filter, Bool-cases,
}

pub data RuntimePhase : Type 0 where
  bootstrapping runtime_core providers routing workers chaining self_healing ci_cd stable :
      RuntimePhase

pub record RuntimeState : Type 0 where
  pub current_phase : ℕ
  pub current_prompt : ℕ
  pub completed_prompts : List ℕ
  pub failed_prompts : List ℕ
  pub architecture_version : String
  pub runtime_state : RuntimePhase
  pub updated_at : Option String

-- A number put into an ascending list of numbers, once.
abbrev pub insert_once : ℕ → List ℕ → List ℕ
insert_once n [] = n ∷ []
insert_once n (m ∷ ms) =
    let rest = insert_once n ms in
    if ltb n m then n ∷ m ∷ ms else if n == m then m ∷ ms else m ∷ rest

-- `sorted({*xs, n})`
abbrev pub sorted_set : ℕ → List ℕ → List ℕ
sorted_set n [] = n ∷ []
sorted_set n (x ∷ xs) = insert_once x (sorted_set n xs)

unfoldable pub mark_completed : ℕ → RuntimeState → RuntimeState
mark_completed prompt s = record s {
  completed_prompts = sorted_set prompt s.completed_prompts;
  failed_prompts = filter (λ p. not (p == prompt)) s.failed_prompts;
  current_prompt = max s.current_prompt (prompt + 1);
}

unfoldable pub mark_failed : ℕ → RuntimeState → RuntimeState
mark_failed prompt s = record s { failed_prompts = sorted_set prompt s.failed_prompts }

unfoldable pub transition : RuntimePhase → RuntimeState → RuntimeState
transition phase s = record s { runtime_state = phase }

abbrev pub has : ℕ → List ℕ → Bool
has n [] = false
has n (m ∷ ms) = n == m || has n ms

-- Each number is below the next one.
abbrev pub IsAscending : List ℕ → Type 0
IsAscending [] = Unit
IsAscending (n ∷ []) = Unit
IsAscending (n ∷ m ∷ ms) = (n < m) × IsAscending (m ∷ ms)

insert_once-IsAscending : (n : ℕ) (xs : List ℕ) → IsAscending xs → IsAscending (insert_once n xs)
insert_once-IsAscending n [] a = tt
insert_once-IsAscending n (m ∷ []) a = ground arith
insert_once-IsAscending n (m ∷ k ∷ ks) a = ground (arith, insert_once-IsAscending n (k ∷ ks) a.1)

sorted_set-IsAscending : (n : ℕ) (xs : List ℕ) → IsAscending (sorted_set n xs)
sorted_set-IsAscending n [] = tt
sorted_set-IsAscending n (x ∷ xs) =
    insert_once-IsAscending x (sorted_set n xs) (sorted_set-IsAscending n xs)

has-insert_once : (k n : ℕ) (xs : List ℕ) → has k (insert_once n xs) ≡ (k == n || has k xs)
has-insert_once k n [] = refl
has-insert_once k n (m ∷ ms) = ground (arith, has-insert_once k n ms)

has-sorted_set : (k n : ℕ) (xs : List ℕ) → has k (sorted_set n xs) ≡ (k == n || has k xs)
has-sorted_set k n [] = refl
has-sorted_set k n (x ∷ xs) =
    ground (arith, has-insert_once k x (sorted_set n xs), has-sorted_set k n xs)

has-filter :
    (k n : ℕ) (xs : List ℕ) → has k (filter (λ p. not (p == n)) xs) ≡ (not (k == n) && has k xs)
has-filter k n [] = ground arith
has-filter k n (x ∷ xs) = ground (arith, has-filter k n xs)

-- Completing a prompt leaves the completed prompts in ascending order, each once: those that were
-- completed before, and this one. It takes the prompt, and no other, from the failed ones, and the
-- current prompt is then beyond it and not before the one that it was.
pub mark_completed_exact :
    (prompt k : ℕ) (s : RuntimeState)
    → let s' = mark_completed prompt s in
      IsAscending s'.completed_prompts
      × (has k s'.completed_prompts ≡ (k == prompt || has k s.completed_prompts))
      × (has k s'.failed_prompts ≡ (not (k == prompt) && has k s.failed_prompts))
      × (prompt < s'.current_prompt)
      × (s.current_prompt ≤ s'.current_prompt)
unfolding mark_completed
mark_completed_exact prompt k s = (
  sorted_set-IsAscending prompt s.completed_prompts,
  has-sorted_set k prompt s.completed_prompts,
  has-filter k prompt s.failed_prompts,
  omega arith,
  omega arith,
)
