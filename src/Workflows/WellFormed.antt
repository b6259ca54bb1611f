-- ===== src/Workflows/WellFormed.antt =====
-- The well-formedness that workflows/machine.py asks of every declaration, and a test for it.
use hookclose.Prelude.{
  String, ◌≡◌, refl, subst, inl, inr, Bool, true, false, ◌&&◌, ◌||◌, List, [], ◌∷◌, map, all,
  is_empty, arith, eq_iff, str_eq, contains, All, and_elim, Bool-cases,
}
use hookclose.Orchestration.Graph.{TaskDependencyGraph, reaches, reaches_loop, Reach}
use hookclose.Orchestration.Graph.Search.{reaches_correct}
use hookclose.Workflows.{
  Transition, StateMachine, transitions_from, is_terminal, definitions, code_generation_machine,
  code_review_machine, testing_machine, auto_repair_machine,
}

-- The machine as a graph: each state with the states that follow it.
abbrev pub graph_of : StateMachine → TaskDependencyGraph
graph_of machine = record {
  deps =
      map (λ s. (s, map (λ (t : Transition). t.to_state) (transitions_from machine s)))
        machine.states;
  finished = [];
}

-- Transitions stay among the states, every state can be reached from the initial one, a terminal state
-- can be reached from every state, and nothing leaves a terminal state.
pub record IsWellFormed (machine : StateMachine) : Type 0 where
  pub closed :
      All
        (λ (t : Transition).
          (contains t.from_state machine.states ≡ true)
          × (contains t.to_state machine.states ≡ true))
        machine.transitions
  pub reachable :
      (s : String)
      → contains s machine.states ≡ true
      → Reach (graph_of machine).deps machine.initial_state s
  pub ends :
      (s : String)
      → contains s machine.states ≡ true
      → (t : String) × (is_terminal machine t ≡ true) × Reach (graph_of machine).deps s t
  pub absorbing : (s : String) → is_terminal machine s ≡ true → transitions_from machine s ≡ []

abbrev any_reached : TaskDependencyGraph → String → List String → Bool
any_reached g s [] = false
any_reached g s (t ∷ ts) = reaches g s t || any_reached g s ts

abbrev stays : StateMachine → List Transition → Bool
stays machine [] = true
stays machine (t ∷ ts) =
    (contains t.from_state machine.states && contains t.to_state machine.states) && stays machine ts

-- The test of well-formedness.
abbrev check : StateMachine → Bool
check machine =
    (stays machine machine.transitions
      && all (λ s. reaches (graph_of machine) machine.initial_state s) machine.states)
    && (all (λ s. any_reached (graph_of machine) s machine.terminal_states) machine.states
        && all (λ s. is_empty (transitions_from machine s)) machine.terminal_states)

all-contains :
    (test : String → Bool) (xs : List String) (x : String)
    → all test xs ≡ true
    → contains x xs ≡ true
    → test x ≡ true
all-contains test [] x h m = cc
all-contains test (y ∷ ys) x h m = elim (Bool-cases (str_eq y x)) [
  | inl same ↦
      subst (λ z. test z ≡ true) ((eq_iff y x).0 same) (and_elim (test y) (all test ys) h).0
  | inr other ↦ all-contains test ys x (and_elim (test y) (all test ys) h).1 (ground arith)
]

any_witness :
    (g : TaskDependencyGraph) (s : String) (ts : List String)
    → any_reached g s ts ≡ true
    → (t : String) × (contains t ts ≡ true) × Reach g.deps s t
any_witness g s [] h = cc
any_witness g s (t ∷ ts) h = elim (Bool-cases (reaches g s t)) [
  | inl yes' ↦ (t, ground (arith, eq_iff t t), (reaches_correct g s t).0 yes')
  | inr no' ↦ let (u, m, r) = any_witness g s ts (ground arith) in (u, ground arith, r)
]

stays-All :
    (machine : StateMachine) (ts : List Transition)
    → stays machine ts ≡ true
    → All
        (λ (t : Transition).
          (contains t.from_state machine.states ≡ true)
          × (contains t.to_state machine.states ≡ true))
        ts
stays-All machine [] h = tt
stays-All machine (t ∷ ts) h = ((ground arith, ground arith), stays-All machine ts (ground arith))

nothing_left : (ts : List Transition) → is_empty ts ≡ true → ts ≡ []
nothing_left [] h = refl
nothing_left (t ∷ ts) h = cc

check-IsWellFormed : (machine : StateMachine) → check machine ≡ true → IsWellFormed machine
unfolding is_terminal
check-IsWellFormed machine h =
    let (first, second) = and_elim _ _ h in
    let (inside, from_start) = and_elim _ _ first in
    let (to_end, stop) = and_elim _ _ second in
    let g = graph_of machine in
    record {
      closed = stays-All machine machine.transitions inside;
      reachable = λ s m.
          (reaches_correct g machine.initial_state s).0
            (all-contains (λ x. reaches g machine.initial_state x) machine.states s from_start m);
      ends = λ s m.
          any_witness g s machine.terminal_states
            (all-contains (λ x. any_reached g x machine.terminal_states) machine.states s to_end m);
      absorbing = λ s m. nothing_left (transitions_from machine s) (
          all-contains (λ x. is_empty (transitions_from machine x)) machine.terminal_states s stop
            m);
    }

-- Each of the four declared workflows is well formed: its transitions stay among its states, every
-- state can be reached from the initial one, a terminal state can be reached from every state, and
-- nothing leaves a terminal state.
pub definitions-IsWellFormed : All IsWellFormed definitions
unfolding reaches reaches_loop transitions_from
definitions-IsWellFormed = (
  check-IsWellFormed code_generation_machine refl,
  (
    check-IsWellFormed code_review_machine refl,
    (check-IsWellFormed testing_machine refl, (check-IsWellFormed auto_repair_machine refl, tt)),
  ),
)
