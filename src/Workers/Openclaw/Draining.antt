-- ===== src/Workers/Openclaw/Draining.antt =====
-- `consume_once` and `run_forever` of workers/openclaw.py, on the in-memory task source of
-- workers/contracts.py.
use hookclose.Prelude.{ℕ, zero, suc, Bool, false, Option, none, some, List, [], ◌∷◌, if◌then◌else◌}
use hookclose.Tasks.{Task}
use hookclose.Workers.Contracts.{ExecutionReport}
use hookclose.Workers.Openclaw.{Platform, Worker}
use hookclose.Workers.Openclaw.Attempts.{execute}

-- `InMemoryTaskSource.claim`
abbrev pub claim : List Task → Option Task × List Task
claim [] = (none, [])
claim (task ∷ rest) = (some task, rest)

-- What `consume_once` does: it returns `None`, returns a report, or raises.
pub data Consumed : Type 0 where
  nothing : Consumed
  reported : ExecutionReport → Consumed
  raised : Consumed

-- How `run_forever` ends: the source was empty, `stop` said so, or a task raised.
pub data Ended : Type 0 where
  drained stopped broken : Ended

-- `stop is not None and stop()`, as the given call of it.
abbrev pub is_stopped : Option (ℕ → Bool) → ℕ → Bool
is_stopped none n = false
is_stopped (some stop) n = stop n

module _ (os : Platform) where
  abbrev pub consumed : Option ExecutionReport → Consumed
  consumed none = raised
  consumed (some report) = reported report

  unfoldable pub consume_once : List Task → Worker → Consumed × List Task × Worker
  consume_once source w =
      let (task, rest) = claim source in
      elim task [
        | none ↦ (nothing, rest, w)
        | some t ↦ let (answer, w') = execute os t w in (consumed answer, rest, w')
      ]

  -- `run_forever` on fuel, `none` when it runs out; `n` counts the calls of `stop`.
  unfoldable pub run_forever :
      ℕ → Option (ℕ → Bool) → ℕ → List Task → Worker → Option (Ended × List Task × Worker)
  unfolding consume_once
  run_forever zero stop n source w = none
  run_forever (suc fuel) stop n source w =
      let (outcome, rest, w') = consume_once source w in
      let later = run_forever fuel stop (suc n) rest w' in
      if is_stopped stop n then some (stopped, source, w) else elim outcome [
        | nothing ↦ some (drained, rest, w')
        | reported report ↦ later
        | raised ↦ some (broken, rest, w')
      ]

  -- Each task executed once, in their order.
  abbrev pub executed : List Task → Worker → Worker
  executed [] w = w
  executed (task ∷ rest) w = executed rest (execute os task w).1
