-- ===== src/Runtime/Store.antt =====
-- `RuntimeStateStore` of runtime/state.py: the state in a file, which is written beside and moved into
-- place. The directory is a dictionary of texts; saving is a sequence of steps, and the process may stop
-- between any two of them.
pub mod Points
pub mod Atomic
mod Examples
use hookclose.Prelude.{
  ℕ, String, format, ◌≡◌, Bool, true, false, Option, none, some, List, [], ◌∷◌, Dict, lookup,
  insert, erase,
}
use hookclose.Tasks.{Json, Items, Fields}
use hookclose.Runtime.{RuntimePhase, RuntimeState}

-- The value of the literal type.
unfoldable pub phase_value : RuntimePhase → String
phase_value RuntimePhase.bootstrapping = "BOOTSTRAPPING"
phase_value RuntimePhase.runtime_core = "RUNTIME_CORE"
phase_value RuntimePhase.providers = "PROVIDERS"
phase_value RuntimePhase.routing = "ROUTING"
phase_value RuntimePhase.workers = "WORKERS"
phase_value RuntimePhase.chaining = "CHAINING"
phase_value RuntimePhase.self_healing = "SELF_HEALING"
phase_value RuntimePhase.ci_cd = "CI_CD"
phase_value RuntimePhase.stable = "STABLE"

-- `RuntimeState()`
abbrev pub default_state : RuntimeState
default_state = record {
  current_phase = 1;
  current_prompt = 1;
  completed_prompts = [];
  failed_prompts = [];
  architecture_version = "v1";
  runtime_state = RuntimePhase.bootstrapping;
  updated_at = none;
}

-- `json.dumps` with an indent, `model_validate_json` (`none` where it raises), and the ISO text of the
-- current time.
pub record StateTools : Type 0 where
  pub dumps : Fields → String
  pub validate : String → Option RuntimeState
  pub now : String

abbrev pub numbers : List ℕ → Items
numbers [] = Items.no_items
numbers (n ∷ ns) = Items.item (Json.number n) (numbers ns)

abbrev pub text_or_null : Option String → Json
text_or_null none = Json.null
text_or_null (some s) = Json.text s

-- `state.model_dump()`, with its keys sorted.
unfoldable pub model_dump : RuntimeState → Fields
unfolding phase_value
model_dump s = Fields.field "architecture_version" (Json.text s.architecture_version) (
    Fields.field "completed_prompts" (Json.array (numbers s.completed_prompts)) (
      Fields.field "current_phase" (Json.number s.current_phase) (
        Fields.field "current_prompt" (Json.number s.current_prompt) (
          Fields.field "failed_prompts" (Json.array (numbers s.failed_prompts)) (
            Fields.field "runtime_state" (Json.text (phase_value s.runtime_state))
              (Fields.field "updated_at" (text_or_null s.updated_at) Fields.no_fields))))))

-- The state that `save` writes and returns.
abbrev pub stamped : StateTools → RuntimeState → RuntimeState
stamped tools state = record state { updated_at = some tools.now }

unfoldable pub payload_of : StateTools → RuntimeState → String
unfolding model_dump
payload_of tools state = format (tools.dumps (model_dump (stamped tools state)) ∷ "\n" ∷ [])

abbrev pub validated : StateTools → Option String → Option RuntimeState
validated tools none = some default_state
validated tools (some raw) = tools.validate raw

-- `load`; `none` is a file that does not validate.
unfoldable pub load_state : StateTools → String → Dict String → Option RuntimeState
load_state tools path files = validated tools (lookup path files)

-- `save` when nothing raises, with the name that `mkstemp` gives: the state that it returns, and the
-- directory.
unfoldable pub save_state :
    StateTools → String → String → RuntimeState → Dict String → RuntimeState × Dict String
unfolding payload_of
save_state tools path tmp state files =
    let payload = payload_of tools state in
    (
      stamped tools state,
      insert path payload (erase tmp (insert tmp payload (insert tmp "" files))),
    )

-- `update`; `none` is an exception of `load`, which leaves the directory as it is.
unfoldable pub update_state :
    StateTools
    → String
    → String
    → (RuntimeState → RuntimeState)
    → Dict String
    → Option RuntimeState × Dict String
unfolding save_state load_state
update_state tools path tmp mutate files = elim (load_state tools path files) [
  | none ↦ (none, files)
  | some state ↦
      let (new, files') = save_state tools path tmp (mutate state) files in (some new, files')
]

-- Where `save` stands: before `mkstemp`, between it and the `try`, before the end of the `with`, before
-- `os.replace`, in the handler of the exception, at the end with an exception, at the end with one that
-- kept the handler from its work, and after `os.replace`, which is the end unless an exception comes
-- from outside.
pub data Point : Type 0 where
  starting opened writing written handling raising leaking finished : Point

-- A save of this payload under `path`, by the temporary file `tmp`.
pub record Save : Type 0 where
  pub path : String
  pub tmp : String
  pub payload : String

-- One step of `save`. An exception from outside may come between any two statements: before the `try`
-- and in the handler it leaves the temporary file, as does an `unlink` that raises. What `write` and `flush` have brought to the file when the process is stopped is
-- any text.
pub data Step (s : Save) : Point → Dict String → Point → Dict String → Type 0 where
  refused : {files : Dict String} → Step s Point.starting files Point.raising files
  made : {files : Dict String} → Step s Point.starting files Point.opened (insert s.tmp "" files)
  entered : {files : Dict String} → Step s Point.opened files Point.writing files
  never_entered : {files : Dict String} → Step s Point.opened files Point.leaking files
  flushed :
      {files : Dict String} (part : String)
      → Step s Point.writing files Point.writing (insert s.tmp part files)
  synced :
      {files : Dict String}
      → Step s Point.writing files Point.written (insert s.tmp s.payload files)
  write_failed : {files : Dict String} → Step s Point.writing files Point.handling files
  replace_failed : {files : Dict String} → Step s Point.written files Point.handling files
  replaced :
      {files : Dict String} {content : String}
      → lookup s.tmp files ≡ some content
      → Step s Point.written files Point.finished (insert s.path content (erase s.tmp files))
  interrupted : {files : Dict String} → Step s Point.finished files Point.handling files
  interrupted_late : {files : Dict String} → Step s Point.finished files Point.raising files
  unlinked : {files : Dict String} → Step s Point.handling files Point.raising (erase s.tmp files)
  unlink_failed : {files : Dict String} → Step s Point.handling files Point.leaking files

-- The steps up to where the process stands, or was stopped.
pub data Steps (s : Save) (files : Dict String) : Point → Dict String → Type 0 where
  start : Steps s files Point.starting files
  step :
      {at : Point} {now : Dict String} {at' : Point} {now' : Dict String}
      → Steps s files at now
      → Step s at now at' now'
      → Steps s files at' now'
