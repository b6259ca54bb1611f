-- ===== src/Runtime/Store/Examples.antt =====
-- A save that is stopped after it moved the file into place.
use hookclose.Prelude.{
  String, ◌≡◌, refl, some, [], ◌∷◌, Dict, insert, erase, lookup, if◌then◌else◌, str_eq,
}
use hookclose.Runtime.{RuntimePhase, RuntimeState}
use hookclose.Runtime.Store.{
  default_state, StateTools, payload_of, Point, made, entered, flushed, synced, replaced, Steps,
  start, step,
}
use hookclose.Runtime.Store.Atomic.{save_of, Left, save_atomic}

abbrev state : RuntimeState
state = record default_state { current_prompt = 4; runtime_state = RuntimePhase.workers }

-- A text of one letter for the state.
abbrev tools : StateTools
tools = record {
  dumps = λ entries. "s";
  validate = λ raw. some (record state { updated_at = some "12:00" });
  now = "12:00";
}

abbrev before : Dict String
before = ("SYSTEM_STATE.json", "old") ∷ []

abbrev after : Dict String
after = insert "SYSTEM_STATE.json" (payload_of tools state) (
    erase ".system_state-1.tmp" (
      insert ".system_state-1.tmp" (payload_of tools state)
        (insert ".system_state-1.tmp" "half" (insert ".system_state-1.tmp" "" before))))

saved :
    Steps
      (save_of tools "SYSTEM_STATE.json" ".system_state-1.tmp" state)
      before
      Point.finished
      after
saved = step (step (step (step (step start made) entered) (flushed "half")) synced) (replaced refl)

save_atomic_example :
    Left tools "SYSTEM_STATE.json" ".system_state-1.tmp" before state Point.finished after
    × (lookup "other" after ≡ (
        if str_eq ".system_state-1.tmp" "other"
        then lookup ".system_state-1.tmp" after
        else if str_eq "SYSTEM_STATE.json" "other"
        then lookup "SYSTEM_STATE.json" after
        else lookup "other" before))
save_atomic_example =
    save_atomic tools "SYSTEM_STATE.json" ".system_state-1.tmp" before state Point.finished after
      "other" refl refl refl saved
