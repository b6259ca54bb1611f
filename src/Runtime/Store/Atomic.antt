-- ===== src/Runtime/Store/Atomic.antt =====
-- Wherever a save is stopped, the file of the state is whole.
use hookclose.Prelude.{
  String, ◌≡◌, ap, ◌∙◌, ◌⊎◌, inl, inr, false, none, some, arith, if◌then◌else◌, Dict, lookup,
  insert, lookup_cast, lookup-insert_self, str_eq, eq_iff,
}
use hookclose.Runtime.{RuntimeState}
use hookclose.Runtime.Store.Points.{Held, run-Held, run_others, Gone, run-Gone}
use hookclose.Runtime.Store.{
  StateTools, stamped, payload_of, validated, load_state, Point, Save, made, entered, synced,
  save_state, replaced, Steps, start, step,
}

-- `save(state)`, when `mkstemp` gives this name.
abbrev pub save_of : StateTools → String → String → RuntimeState → Save
save_of tools path tmp state = record { path = path; tmp = tmp; payload = payload_of tools state }

-- The state that was there before, or the new one.
abbrev pub OldOrNew : StateTools → String → Dict String → RuntimeState → Dict String → Type 0
OldOrNew tools path files state now =
    (load_state tools path now ≡ load_state tools path files)
    ⊎ (load_state tools path now ≡ some (stamped tools state))

-- What a save leaves where it was stopped, or where it ended.
abbrev pub Left :
    StateTools → String → String → Dict String → RuntimeState → Point → Dict String → Type 0
Left tools path tmp files state Point.finished now =
    (load_state tools path now ≡ some (stamped tools state)) × (lookup tmp now ≡ none)
Left tools path tmp files state Point.raising now =
    OldOrNew tools path files state now × (lookup tmp now ≡ none)
Left tools path tmp files state _ now = OldOrNew tools path files state now

module _ (tools : StateTools) (path tmp : String) (files : Dict String) (state : RuntimeState) where
  loads_old :
      (now : Dict String)
      → lookup path now ≡ lookup path files
      → load_state tools path now ≡ load_state tools path files
  unfolding load_state
  loads_old now h = ap (validated tools) h

  loads_new :
      (now : Dict String)
      → tools.validate (payload_of tools state) ≡ some (stamped tools state)
      → lookup path now ≡ some (payload_of tools state)
      → load_state tools path now ≡ some (stamped tools state)
  unfolding load_state
  loads_new now v h = ap (validated tools) h ∙ v

  either_loads :
      (now : Dict String)
      → tools.validate (payload_of tools state) ≡ some (stamped tools state)
      → (lookup path now ≡ lookup path files) ⊎ (lookup path now ≡ some (payload_of tools state))
      → OldOrNew tools path files state now
  either_loads now v h = elim h [
    | inl old ↦ inl (loads_old now old)
    | inr new ↦ inr (loads_new now v new)
  ]

  left :
      (at : Point) (now : Dict String) (other : str_eq tmp path ≡ false)
      → tools.validate (payload_of tools state) ≡ some (stamped tools state)
      → Held (save_of tools path tmp state) files at now
      → Gone (save_of tools path tmp state) files other at now
      → Left tools path tmp files state at now
  unfolding Gone
  left Point.starting now other v h g = inl (loads_old now h)
  left Point.opened now other v h g = inl (loads_old now h)
  left Point.writing now other v h g = inl (loads_old now h)
  left Point.written now other v h g = inl (loads_old now h.0)
  left Point.handling now other v h g = either_loads now v h
  left Point.raising now other v h g = (either_loads now v h, g)
  left Point.leaking now other v h g = either_loads now v h
  left Point.finished now other v h g = (loads_new now v h, g)

  -- Wherever a save is stopped, `load` gives the state that was there before or the new one, never
  -- a part of it, and no file but these two has changed. A save that ends has put the new state in
  -- place and leaves no temporary file, nor does one that raises, unless an exception came between
  -- `mkstemp` and the `try`, or kept the handler from its work. This is when the temporary file is a
  -- new one, and the written text validates as the state it was made of.
  pub save_atomic :
      (at : Point) (now : Dict String) (n : String)
      → str_eq tmp path ≡ false
      → lookup tmp files ≡ none
      → tools.validate (payload_of tools state) ≡ some (stamped tools state)
      → Steps (save_of tools path tmp state) files at now
      → Left tools path tmp files state at now
        × (lookup n now ≡ (
            if str_eq tmp n
            then lookup tmp now
            else if str_eq path n
            then lookup path now
            else lookup n files))
  save_atomic at now n other fresh v steps =
      let s = save_of tools path tmp state in
      let t = lookup_cast tmp n now in
      let p = lookup_cast path n now in
      let others = run_others s files other n at now in
      (
        left at now other v (run-Held s files other at now steps)
            (run-Gone s files other at now fresh steps),
        ground (
          arith,
          eq_iff tmp n,
          eq_iff path n,
          t,
          p,
          λ (a : str_eq tmp n ≡ false) (b : str_eq path n ≡ false). others a b steps,
        ),
      )

  -- The uninterrupted save is one of the runs.
  save_state_steps :
      str_eq tmp path ≡ false
      → Steps
          (save_of tools path tmp state)
          files
          Point.finished
          (save_state tools path tmp state files).1
  unfolding save_state
  save_state_steps other =
      step (step (step (step start made) entered) synced)
        (replaced (lookup-insert_self tmp (payload_of tools state) (insert tmp "" files)))

  -- The `save` that nothing interrupts loads as the state that it returns.
  load-save :
      str_eq tmp path ≡ false
      → lookup tmp files ≡ none
      → tools.validate (payload_of tools state) ≡ some (stamped tools state)
      → load_state tools path (save_state tools path tmp state files).1
        ≡ some (save_state tools path tmp state files).0
  load-save other fresh v =
      unfold save_state in
      (save_atomic Point.finished (save_state tools path tmp state files).1 path other fresh v
        (save_state_steps other)).0.0
