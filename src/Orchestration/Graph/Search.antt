-- ===== src/Orchestration/Graph/Search.antt =====
-- `_reaches` ends, and answers whether a chain of prerequisites leads from one task to the other.
use hookclose.Prelude.{
  ℕ, zero, suc, ◌+◌, ◌≤◌, ◌<◌, String, ◌≡◌, refl, ◌↔◌, ◌⊎◌, inl, inr, Bool, true, false, some, List,
  [], ◌∷◌, ◌++◌, arith, eq_iff, Dict, contains, str_eq, length, subst, sym, contains-cons,
  length-append, contains-append, Bool-cases, eq_refl,
}
use hookclose.Orchestration.Graph.{
  TaskDependencyGraph, deps_of, reaches_loop, unseen_edges, enough_fuel, reaches, Edge, Reach, here,
  step,
}

unseen_edges-cons-le :
    (deps : Dict (List String)) (n : String) (seen : List String)
    → unseen_edges deps (n ∷ seen) ≤ unseen_edges deps seen
unseen_edges-cons-le [] n seen = omega arith
unseen_edges-cons-le ((k, ds) ∷ rest) n seen = ground (arith, unseen_edges-cons-le rest n seen)

-- Seeing a node takes its edges off the count.
unseen_edges-cons :
    (deps : Dict (List String)) (n : String) (seen : List String)
    → contains n seen ≡ false
    → unseen_edges deps (n ∷ seen) + length (deps_of deps n) ≤ unseen_edges deps seen
unseen_edges-cons [] n seen h = omega arith
unseen_edges-cons ((k, ds) ∷ rest) n seen h =
    ground (
      arith,
      unseen_edges-cons rest n seen,
      unseen_edges-cons-le rest n seen,
      eq_iff k n,
      eq_iff n k,
    )

-- The `while` loop ends within the edges not yet seen and the entries on the stack.
pub reaches_loop_ends :
    (fuel : ℕ) (deps : Dict (List String)) (target : String) (seen stack : List String)
    → unseen_edges deps seen + length stack < fuel
    → (b : Bool) × (reaches_loop fuel deps target seen stack ≡ some b)
unfolding reaches_loop
reaches_loop_ends zero deps target seen stack h = absurd (omega arith)
reaches_loop_ends (suc fuel) deps target seen [] h = (false, refl)
reaches_loop_ends (suc fuel) deps target seen (node ∷ stack) h =
    elim (Bool-cases (str_eq node target)) [
      | inl found ↦ (true, rw found)
      | inr other ↦ elim (Bool-cases (contains node seen)) [
        | inl old ↦
            let (b, e) = reaches_loop_ends fuel deps target seen stack (omega arith) in
            (b, rw other (rw old e))
        | inr new ↦
            let fits = unseen_edges-cons deps node seen new in
            let sum = length-append (deps_of deps node) stack in
            let (b, e) =
              reaches_loop_ends fuel deps target (node ∷ seen) (deps_of deps node ++ stack)
                (omega arith) in
            (b, rw other (rw new e))
      ]
    ]

pub Reach-snoc :
    {deps : Dict (List String)} {x y z : String} → Reach deps x y → Edge deps y z → Reach deps x z
Reach-snoc (here _) e = step e (here _)
Reach-snoc (step f p) e = step f (Reach-snoc p e)

module _ (deps : Dict (List String)) (start target : String) where
  -- An answer of `true` has a chain behind it.
  reaches_loop_sound :
      (fuel : ℕ) (seen stack : List String)
      → ((x : String) → contains x stack ≡ true → Reach deps start x)
      → reaches_loop fuel deps target seen stack ≡ some true
      → Reach deps start target
  unfolding reaches_loop
  reaches_loop_sound zero seen stack r h = cc
  reaches_loop_sound (suc fuel) seen [] r h = cc
  reaches_loop_sound (suc fuel) seen (node ∷ stack) r h =
      let at = r node (ground (arith, eq_refl node)) in
      elim (Bool-cases (str_eq node target)) [
        | inl found ↦ subst (Reach deps start) ((eq_iff node target).0 found) at
        | inr other ↦ elim (Bool-cases (contains node seen)) [
          | inl old ↦ reaches_loop_sound fuel seen stack (λ x m. r x (ground arith)) (ground arith)
          | inr new ↦
              reaches_loop_sound fuel (node ∷ seen) (deps_of deps node ++ stack)
                (λ x m. elim (Bool-cases (contains x (deps_of deps node))) [
                  | inl edge ↦ Reach-snoc at edge
                  | inr none_such ↦
                      r x (ground (arith, contains-append x (deps_of deps node) stack))
                ])
                (ground arith)
        ]
      ]

-- What the loop keeps: no seen node is the target, and each prerequisite of one is seen or pending.
record Frontier (deps : Dict (List String)) (target : String) (seen stack : List String)
    : Type 0 where
  missed : (x : String) → contains x seen ≡ true → str_eq x target ≡ false
  closed :
      (x y : String)
      → contains x seen ≡ true
      → Edge deps x y
      → (contains y seen ≡ true) ⊎ (contains y stack ≡ true)

module _ (deps : Dict (List String)) (target : String) where
  Frontier-skip :
      (seen stack : List String) (node : String)
      → contains node seen ≡ true
      → Frontier deps target seen (node ∷ stack)
      → Frontier deps target seen stack
  Frontier-skip seen stack node old f = record {
    missed = f.missed;
    closed = λ x y m e. elim (f.closed x y m e) [
      | inl s ↦ inl s
      | inr p ↦ elim (contains-cons y node stack p) [
        | inl same ↦ inl (subst (λ n. contains n seen ≡ true) same old)
        | inr q ↦ inr q
      ]
    ];
  }

  Frontier-expand :
      (seen stack : List String) (node : String)
      → str_eq node target ≡ false
      → Frontier deps target seen (node ∷ stack)
      → Frontier deps target (node ∷ seen) (deps_of deps node ++ stack)
  Frontier-expand seen stack node other f = record {
    missed = λ x m. elim (contains-cons x node seen m) [
      | inl same ↦ subst (λ n. str_eq n target ≡ false) same other
      | inr s ↦ f.missed x s
    ];
    closed = λ x y m e.
        let split = contains-append y (deps_of deps node) stack in
        elim (contains-cons x node seen m) [
          | inl same ↦
              let e' = subst (λ n. Edge deps n y) (sym same) e in inr (ground (arith, split))
          | inr s ↦ elim (f.closed x y s e) [
            | inl t ↦ inl (ground arith)
            | inr p ↦ elim (contains-cons y node stack p) [
              | inl same ↦ inl (ground (arith, eq_iff node y))
              | inr q ↦ inr (ground (arith, split))
            ]
          ]
        ];
  }

  -- A seen node leads to seen nodes only, once nothing is pending.
  seen-Reach :
      (seen : List String) {x z : String}
      → Frontier deps target seen []
      → contains x seen ≡ true
      → Reach deps x z
      → contains z seen ≡ true
  seen-Reach seen f m (here _) = m
  seen-Reach seen f m (step {x} {y} e p) = elim (f.closed x y m e) [
    | inl s ↦ seen-Reach seen f s p
    | inr none_such ↦ cc
  ]

  -- An answer of `false` leaves no chain from what was seen or pending.
  reaches_loop_complete :
      (fuel : ℕ) (seen stack : List String) (x : String)
      → Frontier deps target seen stack
      → reaches_loop fuel deps target seen stack ≡ some false
      → (contains x seen ≡ true) ⊎ (contains x stack ≡ true)
      → ¬ Reach deps x target
  unfolding reaches_loop
  reaches_loop_complete zero seen stack x f h m r = cc
  reaches_loop_complete (suc fuel) seen [] x f h (inl m) r =
      ground (arith, f.missed target (seen-Reach seen f m r), eq_refl target)
  reaches_loop_complete (suc fuel) seen [] x f h (inr m) r = cc
  reaches_loop_complete (suc fuel) seen (node ∷ stack) x f h m r =
      elim (Bool-cases (str_eq node target)) [
        | inl found ↦ ground arith
        | inr other ↦ elim (Bool-cases (contains node seen)) [
          | inl old ↦
              reaches_loop_complete fuel seen stack x (Frontier-skip seen stack node old f)
                (ground arith) (still old m) r
          | inr new ↦
              reaches_loop_complete fuel (node ∷ seen) (deps_of deps node ++ stack) x
                (Frontier-expand seen stack node other f) (ground arith) (pending m) r
        ]
      ]
    where
      still :
          contains node seen ≡ true
          → (contains x seen ≡ true) ⊎ (contains x (node ∷ stack) ≡ true)
          → (contains x seen ≡ true) ⊎ (contains x stack ≡ true)
      still old (inl s) = inl s
      still old (inr p) = elim (contains-cons x node stack p) [
        | inl same ↦ inl (subst (λ n. contains n seen ≡ true) same old)
        | inr q ↦ inr q
      ]

      pending :
          (contains x seen ≡ true) ⊎ (contains x (node ∷ stack) ≡ true)
          → (contains x (node ∷ seen) ≡ true) ⊎ (contains x (deps_of deps node ++ stack) ≡ true)
      pending (inl s) = inl (ground arith)
      pending (inr p) = elim (contains-cons x node stack p) [
        | inl same ↦ inl (ground (arith, eq_iff node x))
        | inr q ↦ inr (ground (arith, contains-append x (deps_of deps node) stack))
      ]

pub reaches_sound :
    (g : TaskDependencyGraph) (start target : String)
    → reaches g start target ≡ true
    → Reach g.deps start target
unfolding reaches
reaches_sound g start target h =
    let (b, e) =
      reaches_loop_ends (enough_fuel g.deps) g.deps target [] (start ∷ []) (omega arith) in
    reaches_loop_sound g.deps start target (enough_fuel g.deps) [] (start ∷ [])
      (λ x m. elim (contains-cons x start [] m) [
        | inl same ↦ subst (Reach g.deps start) same (here start)
        | inr none_such ↦ cc
      ])
      (ground arith)

pub reaches_complete :
    (g : TaskDependencyGraph) (start target : String)
    → reaches g start target ≡ false
    → ¬ Reach g.deps start target
unfolding reaches
reaches_complete g start target h =
    let (b, e) =
      reaches_loop_ends (enough_fuel g.deps) g.deps target [] (start ∷ []) (omega arith) in
    reaches_loop_complete g.deps target (enough_fuel g.deps) [] (start ∷ []) start
      (record { missed = λ x m. cc; closed = λ x y m edge. cc }) (ground arith)
      (inr (ground (arith, eq_refl start)))

-- `_reaches` answers true exactly when a chain of prerequisites leads from `start` to `target`: the
-- loop finds every such chain and invents none.
pub reaches_correct :
    (g : TaskDependencyGraph) (start target : String)
    → (reaches g start target ≡ true) ↔ Reach g.deps start target
reaches_correct g start target = (
  reaches_sound g start target,
  λ r. elim (Bool-cases (reaches g start target)) [
    | inl yes' ↦ yes'
    | inr no' ↦ absurd (reaches_complete g start target no' r)
  ],
)
