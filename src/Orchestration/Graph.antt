-- ===== src/Orchestration/Graph.antt =====
-- orchestration/graph.py: which task waits for which, and the refusal of cycles. A `set` is a list
-- without repetition; `stack.pop()` takes from the end, so the stack is kept with its end first, and
-- `extend` puts the new nodes on top in an order of its own (a set has none).
pub mod Search
pub mod Acyclic
pub mod Ready
pub mod Fresh
mod Examples
use hookclose.Prelude.{
  ℕ, zero, suc, ◌+◌, String, ◌≡◌, Bool, true, false, not, ◌&&◌, ◌||◌, Option, none, some, List, [],
  ◌∷◌, ◌++◌, if◌then◌else◌, or_default, Dict, lookup, insert, has_key, keys, contains, set_add,
  subset, str_eq, length, filter, all, map,
}

pub record TaskDependencyGraph : Type 0 where
  pub deps : Dict (List String)  -- task -> prerequisites
  pub finished : List String  -- the field `_done`

abbrev pub empty_graph : TaskDependencyGraph
empty_graph = record { deps = []; finished = [] }

-- What `add_dependency` raises.
pub data CycleError : Type 0 where
  cycle_error : String → String → CycleError

-- `self._deps.get(node, set())`
abbrev pub deps_of : Dict (List String) → String → List String
deps_of deps node = or_default (lookup node deps) []

-- `self._deps.setdefault(task_id, set())`
unfoldable pub add_task : TaskDependencyGraph → String → TaskDependencyGraph
add_task g task_id =
    if has_key task_id g.deps then g else record g { deps = insert task_id [] g.deps }

-- The `while stack` loop of `_reaches`; `none` says that the fuel ran out.
unfoldable pub reaches_loop :
    ℕ → Dict (List String) → String → List String → List String → Option Bool
reaches_loop zero deps target seen stack = none
reaches_loop (suc fuel) deps target seen [] = some false
reaches_loop (suc fuel) deps target seen (node ∷ stack) =
    let skip = reaches_loop fuel deps target seen stack in
    let expand = reaches_loop fuel deps target (node ∷ seen) (deps_of deps node ++ stack) in
    if str_eq node target then some true else if contains node seen then skip else expand

-- The edges out of the nodes that are not yet seen.
abbrev pub unseen_edges : Dict (List String) → List String → ℕ
unseen_edges [] seen = 0
unseen_edges ((k, ds) ∷ rest) seen =
    (if contains k seen then 0 else length ds) + unseen_edges rest seen

-- Each round pops one entry, and an edge is pushed at most once.
abbrev pub enough_fuel : Dict (List String) → ℕ
enough_fuel deps = suc (suc (unseen_edges deps []))

-- By `Search.reaches_loop_ends` the fuel suffices, so the default is never taken.
unfoldable pub reaches : TaskDependencyGraph → String → String → Bool
reaches g start target =
    or_default (reaches_loop (enough_fuel g.deps) g.deps target [] (start ∷ [])) false

-- `self._deps[task_id].add(depends_on)`
unfoldable pub add_edge : TaskDependencyGraph → String → String → TaskDependencyGraph
add_edge g task_id depends_on = record g {
  deps = insert task_id (set_add depends_on (deps_of g.deps task_id)) g.deps;
}

-- Both tasks are added before the test, and stay when it raises.
unfoldable pub add_dependency :
    TaskDependencyGraph → String → String → TaskDependencyGraph × Option CycleError
add_dependency g task_id depends_on =
    let g' = add_task (add_task g task_id) depends_on in
    if str_eq task_id depends_on || reaches g' depends_on task_id
    then (g', some (cycle_error task_id depends_on))
    else (add_edge g' task_id depends_on, none)

unfoldable pub mark_done : TaskDependencyGraph → String → TaskDependencyGraph
unfolding add_task
mark_done g task_id =
    let g' = add_task g task_id in record g' { finished = set_add task_id g'.finished }

abbrev pub is_done : TaskDependencyGraph → String → Bool
is_done g task_id = contains task_id g.finished

abbrev pub is_ready : TaskDependencyGraph → String → List String → Bool
is_ready g task prerequisites = not (is_done g task) && subset prerequisites g.finished

abbrev pub ready_from : TaskDependencyGraph → Dict (List String) → List String
ready_from g [] = []
ready_from g ((task, prerequisites) ∷ rest) =
    if is_ready g task prerequisites then task ∷ ready_from g rest else ready_from g rest

unfoldable pub ready : TaskDependencyGraph → List String
ready g = ready_from g g.deps

unfoldable pub is_complete : TaskDependencyGraph → Bool
is_complete g = all (is_done g) (keys g.deps)

-- `task` needs `prerequisite`.
abbrev pub Edge : Dict (List String) → String → String → Type 0
Edge deps task prerequisite = contains prerequisite (deps_of deps task) ≡ true

-- A chain of prerequisites.
pub data Reach (deps : Dict (List String)) : String → String → Type 0 where
  here : (x : String) → Reach deps x x
  step : {x y z : String} → Edge deps x y → Reach deps y z → Reach deps x z

-- No task needs itself, at any remove.
abbrev pub IsAcyclic : TaskDependencyGraph → Type 0
IsAcyclic g = (x y : String) → Edge g.deps x y → ¬ Reach g.deps y x

-- Every prerequisite is a task of the graph.
abbrev pub IsClosed : TaskDependencyGraph → Type 0
IsClosed g = (x y : String) → Edge g.deps x y → has_key y g.deps ≡ true
