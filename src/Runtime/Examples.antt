-- ===== src/Runtime/Examples.antt =====
-- A concrete state for the theorem about runtime/state.py.
use hookclose.Prelude.{◌≤◌, ◌<◌, ◌≡◌, not, ◌&&◌, ◌||◌, none, [], ◌∷◌, ◌==◌}
use hookclose.Runtime.{
  RuntimePhase, RuntimeState, mark_completed, has, IsAscending, mark_completed_exact,
}

abbrev state : RuntimeState
state = record {
  current_phase = 1;
  current_prompt = 4;
  completed_prompts = 3 ∷ 1 ∷ 3 ∷ [];
  failed_prompts = 2 ∷ 5 ∷ [];
  architecture_version = "v1";
  runtime_state = RuntimePhase.workers;
  updated_at = none;
}

mark_completed_exact_example :
    let s' = mark_completed 2 state in
    IsAscending s'.completed_prompts
    × (has 2 s'.completed_prompts ≡ (2 == 2 || has 2 state.completed_prompts))
    × (has 2 s'.failed_prompts ≡ (not (2 == 2) && has 2 state.failed_prompts))
    × (2 < s'.current_prompt)
    × (4 ≤ s'.current_prompt)
mark_completed_exact_example = mark_completed_exact 2 2 state
