-- ===== src/Runtime/Store/Points.antt =====
-- What holds of the files at each point of a save.
use hookclose.Prelude.{
  String, ◌≡◌, refl, ◌∙◌, ◌⊎◌, inl, inr, false, none, some, arith, Dict, lookup, erase,
  lookup-insert, lookup-erase, str_eq, eq_iff, eq_refl,
}
use hookclose.Runtime.Store.{
  Point, Save, Step, refused, made, entered, never_entered, flushed, synced, write_failed,
  replace_failed, replaced, interrupted, interrupted_late, unlinked, unlink_failed, Steps, start,
  step,
}

-- What the file of the state holds at each point: what it held before, or the new text.
abbrev pub Held : Save → Dict String → Point → Dict String → Type 0
Held s files Point.starting now = lookup s.path now ≡ lookup s.path files
Held s files Point.opened now = lookup s.path now ≡ lookup s.path files
Held s files Point.writing now = lookup s.path now ≡ lookup s.path files
Held s files Point.written now =
    (lookup s.path now ≡ lookup s.path files) × (lookup s.tmp now ≡ some s.payload)
Held s files Point.handling now =
    (lookup s.path now ≡ lookup s.path files) ⊎ (lookup s.path now ≡ some s.payload)
Held s files Point.raising now =
    (lookup s.path now ≡ lookup s.path files) ⊎ (lookup s.path now ≡ some s.payload)
Held s files Point.leaking now =
    (lookup s.path now ≡ lookup s.path files) ⊎ (lookup s.path now ≡ some s.payload)
Held s files Point.finished now = lookup s.path now ≡ some s.payload

module _ (s : Save) (files : Dict String) (other : str_eq s.tmp s.path ≡ false) where
  next-Held :
      (at at' : Point) (now now' : Dict String)
      → Step s at now at' now'
      → Held s files at now
      → Held s files at' now'
  next-Held _ _ now _ refused h = inl h
  next-Held _ _ now _ made h = ground (arith, lookup-insert s.tmp s.path "" now)
  next-Held _ _ now _ entered h = h
  next-Held _ _ now _ never_entered h = inl h
  next-Held _ _ now _ (flushed part) h = ground (arith, lookup-insert s.tmp s.path part now)
  next-Held _ _ now _ synced h = (
    ground (arith, lookup-insert s.tmp s.path s.payload now),
    ground (arith, lookup-insert s.tmp s.tmp s.payload now, eq_refl s.tmp),
  )
  next-Held _ _ now _ write_failed h = inl h
  next-Held _ _ now _ replace_failed h = inl h.0
  next-Held _ _ now _ (replaced {content} read) h =
      ground (arith, lookup-insert s.path s.path content (erase s.tmp now), eq_refl s.path, h.1)
  next-Held _ _ now _ interrupted h = inr h
  next-Held _ _ now _ interrupted_late h = inr h
  next-Held _ _ now _ unlink_failed h = h
  next-Held _ _ now _ unlinked h = ground (arith, lookup-erase s.tmp s.path now)

  pub run-Held : (at : Point) (now : Dict String) → Steps s files at now → Held s files at now
  run-Held _ _ start = refl
  run-Held at' now' (step {at} {now} before last) =
      next-Held at at' now now' last (run-Held at now before)

  -- The files that the save has nothing to do with.
  next_others :
      (n : String) (at at' : Point) (now now' : Dict String)
      → str_eq s.tmp n ≡ false
      → str_eq s.path n ≡ false
      → Step s at now at' now'
      → lookup n now' ≡ lookup n now
  next_others n _ _ now _ t p refused = refl
  next_others n _ _ now _ t p made = ground (arith, lookup-insert s.tmp n "" now)
  next_others n _ _ now _ t p entered = refl
  next_others n _ _ now _ t p never_entered = refl
  next_others n _ _ now _ t p (flushed part) = ground (arith, lookup-insert s.tmp n part now)
  next_others n _ _ now _ t p synced = ground (arith, lookup-insert s.tmp n s.payload now)
  next_others n _ _ now _ t p write_failed = refl
  next_others n _ _ now _ t p replace_failed = refl
  next_others n _ _ now _ t p (replaced {content} read) =
      ground (arith, lookup-insert s.path n content (erase s.tmp now), lookup-erase s.tmp n now)
  next_others n _ _ now _ t p interrupted = refl
  next_others n _ _ now _ t p interrupted_late = refl
  next_others n _ _ now _ t p unlink_failed = refl
  next_others n _ _ now _ t p unlinked = ground (arith, lookup-erase s.tmp n now)

  pub run_others :
      (n : String) (at : Point) (now : Dict String)
      → str_eq s.tmp n ≡ false
      → str_eq s.path n ≡ false
      → Steps s files at now
      → lookup n now ≡ lookup n files
  run_others n _ _ t p start = refl
  run_others n at' now' t p (step {at} {now} before last) =
      next_others n at at' now now' t p last ∙ run_others n at now t p before

  -- The temporary file is not there before the save, nor after it if the handler did its work.
  unfoldable pub Gone : Point → Dict String → Type 0
  Gone Point.starting now = lookup s.tmp now ≡ none
  Gone Point.opened now = Unit
  Gone Point.writing now = Unit
  Gone Point.written now = Unit
  Gone Point.handling now = Unit
  Gone Point.raising now = lookup s.tmp now ≡ none
  Gone Point.leaking now = Unit
  Gone Point.finished now = lookup s.tmp now ≡ none

  next-Gone :
      (at at' : Point) (now now' : Dict String)
      → Step s at now at' now'
      → Gone at now
      → Gone at' now'
  unfolding Gone
  next-Gone _ _ now _ refused g = g
  next-Gone _ _ now _ made g = tt
  next-Gone _ _ now _ entered g = tt
  next-Gone _ _ now _ never_entered g = tt
  next-Gone _ _ now _ (flushed part) g = tt
  next-Gone _ _ now _ synced g = tt
  next-Gone _ _ now _ write_failed g = tt
  next-Gone _ _ now _ replace_failed g = tt
  next-Gone _ _ now _ (replaced {content} read) g = ground (
    arith,
    lookup-insert s.path s.tmp content (erase s.tmp now),
    lookup-erase s.tmp s.tmp now,
    eq_refl s.tmp,
    eq_iff s.tmp s.path,
    eq_iff s.path s.tmp,
  )
  next-Gone _ _ now _ interrupted g = tt
  next-Gone _ _ now _ interrupted_late g = g
  next-Gone _ _ now _ unlink_failed g = tt
  next-Gone _ _ now _ unlinked g = ground (arith, lookup-erase s.tmp s.tmp now, eq_refl s.tmp)

  pub run-Gone :
      (at : Point) (now : Dict String)
      → lookup s.tmp files ≡ none
      → Steps s files at now
      → Gone at now
  unfolding Gone
  run-Gone _ _ fresh start = fresh
  run-Gone at' now' fresh (step {at} {now} before last) =
      next-Gone at at' now now' last (run-Gone at now fresh before)
