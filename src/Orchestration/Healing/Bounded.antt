-- ===== src/Orchestration/Healing/Bounded.antt =====
-- The counters agree with the log, and repairs are bounded.
use hookclose.Prelude.{
  ℕ, ◌+◌, ◌≤◌, ◌<◌, String, ◌≡◌, refl, ap, Bool, true, ◌&&◌, Option, some, List, [], ◌∷◌, ◌++◌,
  arith, eq_iff, if◌then◌else◌, str_eq, lookup-insert, lookup_cast,
}
use hookclose.Orchestration.Failures.{FailureAnalysis, TextTools, key, analyze}
use hookclose.Orchestration.Healing.{
  RepairAction, RepairPolicy, FailureMemory, occurrences, remember, RepairHistory, attempts_for,
  is_attempt, record_action, SelfHealingRuntime, decide_repair, handle_failure,
}

-- How many log entries under a key satisfy a test.
abbrev pub logged : (RepairAction → Bool) → String → List (String × RepairAction) → ℕ
logged test k [] = 0
logged test k ((j, action) ∷ log) = (if str_eq j k && test action then 1 else 0) + logged test k log

logged-append :
    (test : RepairAction → Bool) (k j : String) (action : RepairAction)
    (log : List (String × RepairAction))
    → logged test k (log ++ (j, action) ∷ [])
      ≡ logged test k log + (if str_eq j k && test action then 1 else 0)
logged-append test k j action [] = omega arith
logged-append test k j action ((i, first) ∷ log) = omega (arith, logged-append test k j action log)

pub occurrences-remember :
    (k j : String) (memory : FailureMemory)
    → occurrences j (remember k memory)
      ≡ (if str_eq k j then occurrences j memory + 1 else occurrences j memory)
unfolding remember
occurrences-remember k j memory =
    ground (
      arith,
      lookup-insert k j (occurrences k memory + 1) memory,
      eq_iff k j,
      lookup_cast k j memory,
    )

pub attempts_for-record_action :
    (k j : String) (action : RepairAction) (history : RepairHistory)
    → attempts_for j (record_action k action history) ≡ (
        if str_eq k j && is_attempt action
        then attempts_for j history + 1
        else attempts_for j history)
unfolding record_action
attempts_for-record_action k j action history = ground (
  arith,
  lookup-insert k j (attempts_for k history + 1) history.attempts,
  eq_iff k j,
  lookup_cast k j history.attempts,
)

-- The memory counts the logged failures, the history counts the logged attempts, and no signature
-- has more attempts than allowed.
pub record IsAudited (m : SelfHealingRuntime) : Type 0 where
  pub seen : (k : String) → occurrences k m.memory ≡ logged (λ action. true) k m.history.log
  pub tried : (k : String) → attempts_for k m.history ≡ logged is_attempt k m.history.log
  pub bounded : (k : String) → attempts_for k m.history ≤ m.policy.max_repair_attempts

attempt_allowed :
    (policy : RepairPolicy) (analysis : FailureAnalysis) (prior seen : ℕ)
    → is_attempt (decide_repair policy analysis prior seen).0 ≡ true
    → prior < policy.max_repair_attempts
unfolding decide_repair
attempt_allowed policy analysis prior seen h = ground arith

-- The log and the counters after one failure under the key `k`, with the action that was decided.
record_action-IsAudited :
    (m m' : SelfHealingRuntime) (k : String) (action : RepairAction)
    → m'.policy ≡ m.policy
    → m'.memory ≡ remember k m.memory
    → m'.history ≡ record_action k action m.history
    → (is_attempt action ≡ true → attempts_for k m.history < m.policy.max_repair_attempts)
    → IsAudited m
    → IsAudited m'
unfolding record_action
record_action-IsAudited m m' k action p e h allowed v = record {
  seen = λ j. ground (
    arith,
    ap (occurrences j) e,
    occurrences-remember k j m.memory,
    ap (λ (history : RepairHistory). logged (λ a. true) j history.log) h,
    logged-append (λ a. true) j k action m.history.log,
    v.seen j,
  );
  tried = λ j. ground (
    arith,
    ap (attempts_for j) h,
    attempts_for-record_action k j action m.history,
    ap (λ (history : RepairHistory). logged is_attempt j history.log) h,
    logged-append is_attempt j k action m.history.log,
    v.tried j,
  );
  bounded = λ j. ground (
    arith,
    ap (attempts_for j) h,
    ap (λ (policy : RepairPolicy). policy.max_repair_attempts) p,
    attempts_for-record_action k j action m.history,
    allowed,
    v.bounded j,
    eq_iff k j,
    ap (λ (i : String). attempts_for i m.history),
  );
}

handle_failure-IsAudited :
    (py : TextTools) (rollback : Option (String → String → Option String))
    (task_id output ref : String) (m : SelfHealingRuntime)
    → IsAudited m
    → IsAudited (handle_failure py rollback task_id output ref m).1
unfolding handle_failure
handle_failure-IsAudited py rollback task_id output ref m v =
    let analysis = analyze py output in
    let k = key py analysis.signature in
    let seen = occurrences k (remember k m.memory) in
    record_action-IsAudited m (handle_failure py rollback task_id output ref m).1 k
      (decide_repair m.policy analysis (attempts_for k m.history) seen).0 refl refl refl
      (attempt_allowed m.policy analysis (attempts_for k m.history) seen) v

-- A failed task: its id, its output, and the ref to roll back to.
abbrev pub Failure : Type 0
Failure = String × String × String

-- The runtime after the failures; the caller goes on when a rollback raises.
unfoldable pub handle_all :
    TextTools
    → Option (String → String → Option String)
    → List Failure
    → SelfHealingRuntime
    → SelfHealingRuntime
handle_all py rollback [] m = m
handle_all py rollback ((task_id, output, ref) ∷ rest) m =
    handle_all py rollback rest (handle_failure py rollback task_id output ref m).1

handle_all-IsAudited :
    (py : TextTools) (rollback : Option (String → String → Option String)) (failures : List Failure)
    (m : SelfHealingRuntime)
    → IsAudited m
    → IsAudited (handle_all py rollback failures m)
unfolding handle_all
handle_all-IsAudited py rollback [] m v = v
handle_all-IsAudited py rollback ((task_id, output, ref) ∷ rest) m v =
    handle_all-IsAudited py rollback rest (handle_failure py rollback task_id output ref m).1
      (handle_failure-IsAudited py rollback task_id output ref m v)

-- A runtime with an empty memory and history.
abbrev pub fresh_runtime : RepairPolicy → SelfHealingRuntime
fresh_runtime policy = record {
  policy = policy;
  memory = [];
  history = record { attempts = []; log = [] };
  bus = some [];
}

handle_all-policy :
    (py : TextTools) (rollback : Option (String → String → Option String)) (failures : List Failure)
    (m : SelfHealingRuntime)
    → (handle_all py rollback failures m).policy ≡ m.policy
unfolding handle_all handle_failure
handle_all-policy py rollback [] m = refl
handle_all-policy py rollback ((task_id, output, ref) ∷ rest) m =
    handle_all-policy py rollback rest (handle_failure py rollback task_id output ref m).1

-- Whatever failures a new runtime handles, for each signature the log holds at most
-- `max_repair_attempts` retries and repairs together, the history counts exactly these, and the memory
-- counts exactly the logged failures.
pub repairs_bounded :
    (py : TextTools) (rollback : Option (String → String → Option String)) (policy : RepairPolicy)
    (failures : List Failure) (k : String)
    → let m = handle_all py rollback failures (fresh_runtime policy) in
      (logged is_attempt k m.history.log ≤ policy.max_repair_attempts)
      × (attempts_for k m.history ≡ logged is_attempt k m.history.log)
      × (occurrences k m.memory ≡ logged (λ action. true) k m.history.log)
repairs_bounded py rollback policy failures k =
    let v =
      handle_all-IsAudited py rollback failures (fresh_runtime policy)
        (record { seen = λ j. refl; tried = λ j. refl; bounded = λ j. omega arith }) in
    let same = handle_all-policy py rollback failures (fresh_runtime policy) in
    (
      omega (arith, v.bounded k, v.tried k, ap (λ (p : RepairPolicy). p.max_repair_attempts) same),
      v.tried k,
      v.seen k,
    )
