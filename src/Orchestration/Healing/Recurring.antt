-- ===== src/Orchestration/Healing/Recurring.antt =====
-- What happens when one failure keeps coming back.
use mathlib.Core.List.{append-nil}
use hookclose.Prelude.{
  ℕ, zero, suc, ◌+◌, ◌-◌, ◌≤◌, ◌<◌, min, String, ◌≡◌, refl, sym, ap, subst, ◌∙◌, false, ◌&&◌,
  Option, List, [], ◌∷◌, ◌++◌, arith, if◌then◌else◌, length, eq_refl,
}
use hookclose.Orchestration.Failures.{TextTools, key, analyze}
use hookclose.Orchestration.Healing.{
  RepairAction, RepairPolicy, occurrences, remember, RepairHistory, attempts_for, is_attempt,
  is_timeout, record_action, SelfHealingRuntime, decide_repair, handle_failure,
}
use hookclose.Orchestration.Healing.Bounded.{occurrences-remember, attempts_for-record_action}

-- An action under a key, logged so many times.
abbrev pub repeated : ℕ → String × RepairAction → List (String × RepairAction)
repeated zero entry = []
repeated (suc n) entry = entry ∷ repeated n entry

-- The runtime after the tasks failed, one after another, with the same output.
unfoldable pub recur :
    TextTools
    → Option (String → String → Option String)
    → String
    → String
    → List String
    → SelfHealingRuntime
    → SelfHealingRuntime
recur py rollback output ref [] m = m
recur py rollback output ref (task_id ∷ rest) m =
    recur py rollback output ref rest (handle_failure py rollback task_id output ref m).1

snoc_append :
    (log : List (String × RepairAction)) (e : String × RepairAction)
    (rest : List (String × RepairAction))
    → (log ++ e ∷ []) ++ rest ≡ log ++ e ∷ rest
snoc_append [] e rest = refl
snoc_append (x ∷ log) e rest = ap (λ t. x ∷ t) (snoc_append log e rest)

-- What the runtime looks like after one failure.
record IsStep (m m' : SelfHealingRuntime) (k : String) (action : RepairAction) : Type 0 where
  policy : m'.policy ≡ m.policy
  log : m'.history.log ≡ m.history.log ++ (k, action) ∷ []
  seen : occurrences k m'.memory ≡ occurrences k m.memory + 1
  tried :
      attempts_for k m'.history
      ≡ (if is_attempt action then attempts_for k m.history + 1 else attempts_for k m.history)

log_of :
    (k : String) (action : RepairAction) (history : RepairHistory)
    → (record_action k action history).log ≡ history.log ++ (k, action) ∷ []
unfolding record_action
log_of k action history = refl

handle_failure-IsStep :
    (py : TextTools) (rollback : Option (String → String → Option String))
    (task_id output ref : String) (m : SelfHealingRuntime)
    → let k = key py (analyze py output).signature in
      IsStep m
        (handle_failure py rollback task_id output ref m).1
        k
        (decide_repair m.policy
          (analyze py output)
          (attempts_for k m.history)
          (occurrences k m.memory + 1)).0
unfolding handle_failure
handle_failure-IsStep py rollback task_id output ref m =
    let k = key py (analyze py output).signature in
    let once : occurrences k (remember k m.memory) ≡ occurrences k m.memory + 1 =
      ground (arith, occurrences-remember k k m.memory, eq_refl k) in
    subst
      (λ n.
        IsStep m (handle_failure py rollback task_id output ref m).1 k
          (decide_repair m.policy (analyze py output) (attempts_for k m.history) n).0)
      once
      (let action =
          (decide_repair m.policy (analyze py output) (attempts_for k m.history)
            (occurrences k (remember k m.memory))).0 in
        record {
          policy = refl;
          log = log_of k action m.history;
          seen = once;
          tried = ground (arith, attempts_for-record_action k k action m.history, eq_refl k);
        })

-- A failure that is neither mechanical nor a first timeout.
abbrev pub NeedsReasoning : TextTools → RepairPolicy → String → Type 0
NeedsReasoning py policy output =
    ((analyze py output).deterministic_fixable && policy.deterministic_first ≡ false)
    × (is_timeout (analyze py output).signature.category ≡ false)

decide-rollback :
    (py : TextTools) (policy : RepairPolicy) (output : String) (prior seen : ℕ)
    → NeedsReasoning py policy output
    → prior < policy.max_repair_attempts
    → policy.rollback_after_repeats ≤ seen
    → (decide_repair policy (analyze py output) prior seen).0 ≡ RepairAction.rollback
unfolding decide_repair
decide-rollback py policy output prior seen (mechanical, late) left' often = ground arith

decide-llm_repair :
    (py : TextTools) (policy : RepairPolicy) (output : String) (prior seen : ℕ)
    → NeedsReasoning py policy output
    → prior < policy.max_repair_attempts
    → seen < policy.rollback_after_repeats
    → (decide_repair policy (analyze py output) prior seen).0 ≡ RepairAction.llm_repair
unfolding decide_repair
decide-llm_repair py policy output prior seen (mechanical, late) left' seldom = ground arith

-- One failure whose decision is known.
decided-IsStep :
    (py : TextTools) (rollback : Option (String → String → Option String))
    (task_id output ref : String) (m : SelfHealingRuntime) (action : RepairAction)
    → let k = key py (analyze py output).signature in
      (decide_repair m.policy
          (analyze py output)
          (attempts_for k m.history)
          (occurrences k m.memory + 1)).0
        ≡ action
      → IsStep m (handle_failure py rollback task_id output ref m).1 k action
decided-IsStep py rollback task_id output ref m action d =
    let k = key py (analyze py output).signature in
    subst (IsStep m (handle_failure py rollback task_id output ref m).1 k) d
      (handle_failure-IsStep py rollback task_id output ref m)

-- A signature that has attempts left and has been seen often enough is rolled back at each further
-- failure with it, for ever: rolling back counts as no attempt, so no failure ever escalates.
rollback_forever :
    (py : TextTools) (rollback : Option (String → String → Option String)) (output ref : String)
    (task_ids : List String) (policy : RepairPolicy) (m : SelfHealingRuntime)
    → let k = key py (analyze py output).signature in
      m.policy ≡ policy
      → NeedsReasoning py policy output
      → attempts_for k m.history < policy.max_repair_attempts
      → policy.rollback_after_repeats ≤ occurrences k m.memory + 1
      → (recur py rollback output ref task_ids m).history.log
        ≡ m.history.log ++ repeated (length task_ids) (k, RepairAction.rollback)
unfolding recur
rollback_forever py rollback output ref [] policy m p r left' often = sym (append-nil _)
rollback_forever py rollback output ref (task_id ∷ rest) policy m p r left' often =
    let k = key py (analyze py output).signature in
    let m' = (handle_failure py rollback task_id output ref m).1 in
    let d =
      decide-rollback py policy output (attempts_for k m.history) (occurrences k m.memory + 1) r
        left' often in
    let step = decided-IsStep py rollback task_id output ref m RepairAction.rollback (rw p d) in
    let later =
      rollback_forever py rollback output ref rest policy m' (step.policy ∙ p) r
        (omega (arith, step.tried)) (omega (arith, step.seen)) in
    later
    ∙ ap (λ log. log ++ repeated (length rest) (k, RepairAction.rollback)) step.log
    ∙ snoc_append m.history.log (k, RepairAction.rollback)
        (repeated (length rest) (k, RepairAction.rollback))

-- Repairs while some are left, and rollbacks from then on.
course : ℕ → ℕ → String → List (String × RepairAction)
course zero left' k = []
course (suc n) zero k = (k, RepairAction.rollback) ∷ course n zero k
course (suc n) (suc left') k = (k, RepairAction.llm_repair) ∷ course n left' k

course-eq :
    (n left' : ℕ) (k : String)
    → course n left' k
      ≡ repeated (min n left') (k, RepairAction.llm_repair)
        ++ repeated (n - left') (k, RepairAction.rollback)
unfolding course
course-eq zero left' k =
    let none_left : min 0 left' ≡ 0 = omega arith in
    let none_back : 0 - left' ≡ 0 = omega arith in rw none_left (rw none_back refl)
course-eq (suc n) zero k =
    let e : min (suc n) 0 ≡ 0 = omega arith in
    let f : min n 0 ≡ 0 = omega arith in
    let g : suc n - 0 ≡ suc (n - 0) = omega arith in
    let ih = course-eq n zero k in
    rw e (rw g (ap (λ t. (k, RepairAction.rollback) ∷ t) (rw f at ih)))
course-eq (suc n) (suc left') k =
    let e : min (suc n) (suc left') ≡ suc (min n left') = omega arith in
    let g : suc n - suc left' ≡ n - left' = omega arith in
    rw e (rw g (ap (λ t. (k, RepairAction.llm_repair) ∷ t) (course-eq n left' k)))

course-zero : (n : ℕ) (k : String) → course n 0 k ≡ repeated n (k, RepairAction.rollback)
unfolding course
course-zero zero k = refl
course-zero (suc n) k = ap (λ t. (k, RepairAction.rollback) ∷ t) (course-zero n k)

recur-course :
    (py : TextTools) (rollback : Option (String → String → Option String)) (output ref : String)
    (task_ids : List String) (policy : RepairPolicy) (m : SelfHealingRuntime) (left' : ℕ)
    → let k = key py (analyze py output).signature in
      m.policy ≡ policy
      → NeedsReasoning py policy output
      → attempts_for k m.history + left' < policy.max_repair_attempts
      → occurrences k m.memory + left' + 1 ≡ policy.rollback_after_repeats
      → (recur py rollback output ref task_ids m).history.log
        ≡ m.history.log ++ course (length task_ids) left' k
unfolding recur course
recur-course py rollback output ref [] policy m left' p r tried seen = sym (append-nil _)
recur-course py rollback output ref (task_id ∷ rest) policy m zero p r tried seen =
    let k = key py (analyze py output).signature in
    rollback_forever py rollback output ref (task_id ∷ rest) policy m p r (omega (arith, tried))
      (omega (arith, seen))
    ∙ ap (λ t. m.history.log ++ t) (sym (course-zero (suc (length rest)) k))
recur-course py rollback output ref (task_id ∷ rest) policy m (suc left') p r tried seen =
    let k = key py (analyze py output).signature in
    let m' = (handle_failure py rollback task_id output ref m).1 in
    let d =
      decide-llm_repair py policy output (attempts_for k m.history) (occurrences k m.memory + 1) r
        (omega (arith, tried)) (omega (arith, seen)) in
    let step = decided-IsStep py rollback task_id output ref m RepairAction.llm_repair (rw p d) in
    let later =
      recur-course py rollback output ref rest policy m' left' (step.policy ∙ p) r
        (omega (arith, step.tried, tried)) (omega (arith, step.seen, seen)) in
    later
    ∙ ap (λ log. log ++ course (length rest) left' k) step.log
    ∙ snoc_append m.history.log (k, RepairAction.llm_repair) (course (length rest) left' k)

-- A failure that needs reasoning and that keeps coming back, with `n` times left before it was seen
-- `rollback_after_repeats` times and more attempts than that left, is repaired by a model these `n`
-- times and rolled back ever after; it never escalates.
pub recurring_exact :
    (py : TextTools) (rollback : Option (String → String → Option String)) (output ref : String)
    (task_ids : List String) (m : SelfHealingRuntime) (n : ℕ)
    → let k = key py (analyze py output).signature in
      NeedsReasoning py m.policy output
      → attempts_for k m.history + n < m.policy.max_repair_attempts
      → occurrences k m.memory + n + 1 ≡ m.policy.rollback_after_repeats
      → (recur py rollback output ref task_ids m).history.log
        ≡ m.history.log
          ++ (repeated (min (length task_ids) n) (k, RepairAction.llm_repair)
              ++ repeated (length task_ids - n) (k, RepairAction.rollback))
recurring_exact py rollback output ref task_ids m n r tried seen =
    let k = key py (analyze py output).signature in
    recur-course py rollback output ref task_ids m.policy m n refl r tried seen
    ∙ ap (λ t. m.history.log ++ t) (course-eq (length task_ids) n k)
