-- ===== src/Orchestration/Healing/Examples.antt =====
-- A concrete runtime for the theorems about orchestration/self_healing.py.
use hookclose.Prelude.{
  ◌-◌, ◌≤◌, min, ◌≡◌, refl, true, false, none, Option, String, List, [], ◌∷◌, ◌++◌, arith, length,
}
use hookclose.Orchestration.Failures.{
  TextTools, key, analyze, parse, categorize, categorize_by_content,
}
use hookclose.Orchestration.Healing.{
  RepairAction, occurrences, attempts_for, is_attempt, default_repair_policy, SelfHealingRuntime,
}
use hookclose.Orchestration.Healing.Bounded.{
  Failure, handle_all, fresh_runtime, logged, repairs_bounded,
}
use hookclose.Orchestration.Healing.Recurring.{NeedsReasoning, repeated, recur, recurring_exact}

-- Text tools that find nothing in the output "boom".
abbrev tools : TextTools
tools = record {
  find_frames = λ s. [];
  match_exception = λ s. none;
  mentions_rule = λ s. false;
  without_numbers = λ s. s;
  strip = λ s. s;
  splitlines = λ s. s ∷ [];
  lower = λ s. s;
  within = λ part s. false;
  decimal = λ n. "1";
  sha1_hex = λ s. s;
}

abbrev no_rollback : Option (String → String → Option String)
no_rollback = none

abbrev runtime : SelfHealingRuntime
runtime = fresh_runtime default_repair_policy

boom-NeedsReasoning : NeedsReasoning tools default_repair_policy "boom"
unfolding analyze parse categorize categorize_by_content
boom-NeedsReasoning = (refl, refl)

abbrev four : List String
four = "t1" ∷ "t2" ∷ "t3" ∷ "t4" ∷ []

recurring_exact_example :
    let k = key tools (analyze tools "boom").signature in
    (recur tools no_rollback "boom" "last-good" four runtime).history.log
    ≡ runtime.history.log
      ++ (repeated (min (length four) 2) (k, RepairAction.llm_repair)
          ++ repeated (length four - 2) (k, RepairAction.rollback))
recurring_exact_example =
    recurring_exact tools no_rollback "boom" "last-good" four runtime 2 boom-NeedsReasoning
      (omega arith) (omega arith)

abbrev failures : List Failure
failures = ("t1", "boom", "last-good") ∷ ("t2", "boom", "last-good") ∷ []

repairs_bounded_example :
    let m = handle_all tools no_rollback failures runtime in
    let k = key tools (analyze tools "boom").signature in
    (logged is_attempt k m.history.log ≤ 3)
    × (attempts_for k m.history ≡ logged is_attempt k m.history.log)
    × (occurrences k m.memory ≡ logged (λ action. true) k m.history.log)
repairs_bounded_example =
    repairs_bounded tools no_rollback default_repair_policy failures
      (key tools (analyze tools "boom").signature)
