-- ===== src/Workers/Openclaw/Retries.antt =====
-- How often a task is tried.
use hookclose.Prelude.{
  ℕ, zero, suc, ◌+◌, ◌≤◌, max, ◌≡◌, refl, subst, inl, inr, Bool, true, false, Option, none, some,
  arith, if◌then◌else◌, Option-cases,
}
use hookclose.Tasks.{Task}
use hookclose.Workers.Contracts.{ExecutionReport}
use hookclose.Workers.Openclaw.{Platform, Worker}
use hookclose.Workers.Openclaw.Attempts.{execute_once, schedule_retry, attempt_from, execute}
use hookclose.Workers.Openclaw.Report.{Reported, IsProper, execute_once-IsProper}

-- A final report: of an attempt within the bound, and of the last one unless it succeeded.
pub record IsFinal (os : Platform) (task : Task) (limit : ℕ) (report : ExecutionReport)
    : Type 0 where
  pub proper : IsProper os task report.attempts report
  pub started : 1 ≤ report.attempts
  pub bounded : report.attempts ≤ limit
  pub exhausted : report.success ≡ false → report.attempts ≡ limit

-- The report of the attempt before this one.
record IsPrevious (os : Platform) (task : Task) (attempt : ℕ) (report : ExecutionReport)
    : Type 0 where
  proper : IsProper os task report.attempts report
  started : 1 ≤ report.attempts
  previous : report.attempts + 1 ≡ attempt

IsPrevious-IsFinal :
    (os : Platform) (task : Task) (limit : ℕ) (last : Option ExecutionReport)
    → Reported (IsPrevious os task (limit + 1)) last
    → Reported (IsFinal os task limit) last
IsPrevious-IsFinal os task limit none p = tt
IsPrevious-IsFinal os task limit (some report) p = record {
  proper = p.proper;
  started = p.started;
  bounded = omega (arith, p.previous);
  exhausted = λ failed. omega (arith, p.previous);
}

if-Reported_either :
    (P : ExecutionReport → Type 0) (b : Bool) (x y : Option ExecutionReport × Worker)
    → (b ≡ true → Reported P x.0)
    → (b ≡ false → Reported P y.0)
    → Reported P (if b then x else y).0
if-Reported_either P true x y good bad = good refl
if-Reported_either P false x y good bad = bad refl

own_attempt :
    (os : Platform) (task : Task) (attempt : ℕ) (report : ExecutionReport)
    → IsProper os task attempt report
    → IsProper os task report.attempts report
own_attempt os task attempt report p = record {
  about = p.about;
  numbered = refl;
  fail_fast = p.fail_fast;
  truthful = p.truthful;
  told = p.told;
}

attempt_from-IsFinal :
    (os : Platform) (task : Task) (n attempt limit : ℕ) (last : Option ExecutionReport) (m : Worker)
    → attempt + n ≡ limit + 1
    → 1 ≤ attempt
    → Reported (IsPrevious os task attempt) last
    → Reported (IsFinal os task limit) (attempt_from os n attempt task last limit m).0
unfolding attempt_from
attempt_from-IsFinal os task zero attempt limit last m total pos p =
    IsPrevious-IsFinal os task limit last
      (subst (λ k. Reported (IsPrevious os task k) last) (omega (arith, total)) p)
attempt_from-IsFinal os task (suc n) attempt limit last m total pos p =
    let m' = (execute_once os task attempt m).1 in
    let proper = execute_once-IsProper os task attempt m in
    elim (Option-cases (execute_once os task attempt m).0) [
      | inl raised ↦ rw (raised, Reported) tt
      | inr (report, came) ↦
          let it : IsProper os task attempt report = (rw (came, Reported) at proper) in
          let own = own_attempt os task attempt report it in
          let next = schedule_retry os task attempt limit report m' in
          rw (came, Reported)
            (if-Reported_either (IsFinal os task limit) report.success (some report, m')
              (attempt_from os n (suc attempt) task (some report) limit next)
              (λ good. record {
                proper = own;
                started = omega (arith, it.numbered);
                bounded = omega (arith, it.numbered, total);
                exhausted = λ failed. cc;
              })
              (λ bad.
                attempt_from-IsFinal os task n (suc attempt) limit (some report) next
                  (omega (arith, total)) (omega arith)
                  (record {
                    proper = own;
                    started = omega (arith, it.numbered);
                    previous = omega (arith, it.numbered);
                  })))
    ]

-- What `execute` reports, unless an exception leaves it.
pub execute-IsFinal :
    (os : Platform) (task : Task) (m : Worker)
    → Reported (IsFinal os task (max 1 task.max_attempts)) (execute os task m).0
unfolding execute
execute-IsFinal os task m =
    attempt_from-IsFinal os task (max 1 task.max_attempts) 1 (max 1 task.max_attempts) none m
      (omega arith) (omega arith) tt
