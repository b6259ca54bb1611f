-- ===== src/Orchestration/Graph/Examples.antt =====
-- Concrete graphs for the theorems about orchestration/graph.py.
use hookclose.Prelude.{
  String, ◌≡◌, ◌≢◌, ◌↔◌, refl, ◌⊎◌, true, false, some, List, [], ◌∷◌, is_some, contains, has_key,
}
use hookclose.Orchestration.Graph.{
  TaskDependencyGraph, cycle_error, empty_graph, add_task, reaches_loop, reaches, add_edge,
  add_dependency, mark_done, is_done, ready, is_complete, Edge, Reach,
}
use hookclose.Orchestration.Graph.Search.{reaches_correct}
use hookclose.Orchestration.Graph.Acyclic.{
  IsValid, Call, depending, marking, run_calls, run_calls-IsValid, add_dependency-raises_iff,
}
use hookclose.Orchestration.Graph.Ready.{ready_progress, ready_exact}

-- deploy needs review, review needs testing; testing is done.
abbrev pipeline : List Call
pipeline = depending "deploy" "review" ∷ depending "review" "testing" ∷ marking "testing" ∷ []

abbrev pipeline_graph : TaskDependencyGraph
pipeline_graph = record {
  deps = ("deploy", "review" ∷ []) ∷ ("review", "testing" ∷ []) ∷ ("testing", []) ∷ [];
  finished = "testing" ∷ [];
}

pipeline_built : run_calls empty_graph pipeline ≡ pipeline_graph
unfolding run_calls add_dependency add_task reaches reaches_loop add_edge mark_done
pipeline_built = refl

pipeline-IsValid : IsValid pipeline_graph
pipeline-IsValid = rw pipeline_built at (run_calls-IsValid pipeline)

pipeline_refuses :
    (add_dependency pipeline_graph "testing" "deploy").1 ≡ some (cycle_error "testing" "deploy")
unfolding add_dependency add_task reaches reaches_loop
pipeline_refuses = refl

pipeline_ready : ready pipeline_graph ≡ "review" ∷ []
unfolding ready
pipeline_ready = refl

reaches_correct_example :
    (reaches pipeline_graph "deploy" "testing" ≡ true)
    ↔ Reach pipeline_graph.deps "deploy" "testing"
reaches_correct_example = reaches_correct pipeline_graph "deploy" "testing"

run_calls-IsValid_example : IsValid (run_calls empty_graph pipeline)
run_calls-IsValid_example = run_calls-IsValid pipeline

add_dependency-raises_iff_example :
    (is_some (add_dependency pipeline_graph "testing" "deploy").1 ≡ true)
    ↔ ((◌≡◌ {A = String} "testing" "deploy") ⊎ Reach pipeline_graph.deps "deploy" "testing")
add_dependency-raises_iff_example = add_dependency-raises_iff pipeline_graph "testing" "deploy"

pipeline_open : is_complete pipeline_graph ≡ false
unfolding is_complete
pipeline_open = refl

ready_progress_example : ready pipeline_graph ≢ []
ready_progress_example = ready_progress pipeline_graph pipeline-IsValid pipeline_open

ready_exact_example : (contains "review" (ready pipeline_graph) ≡ true) ↔ (
    (has_key "review" pipeline_graph.deps ≡ true)
    × (is_done pipeline_graph "review" ≡ false)
    × ((y : String) → Edge pipeline_graph.deps "review" y → is_done pipeline_graph y ≡ true))
ready_exact_example = ready_exact pipeline_graph "review" pipeline-IsValid
