-- ===== src/Workers/Openclaw/Returns.antt =====
-- A well-formed task always gets its report.
use hookclose.Prelude.{ℕ, String, ◌≡◌, true, false, some, List, is_some, All, ok}
use hookclose.Tasks.{Json, object, Fields, get_field, Task}
use hookclose.Workers.Contracts.{FilePatch, GenerationResult}
use hookclose.Workers.Workspace.{Workspace, IsWritable}
use hookclose.Workers.Openclaw.BaseDir.{root_of}
use hookclose.Workers.Openclaw.{
  Platform, list_under, patches_of, text_of, generated, generate, command_of,
}
use hookclose.Workers.Openclaw.Attempts.{timeout_of}

-- A step that has a command, which is a list, and a name.
abbrev pub IsStepSpec : Platform → Json → Type 0
IsStepSpec os (object spec) =
    (is_some (command_of os (get_field "command" spec)) ≡ true)
    × (is_some (get_field "name" spec) ≡ true)
IsStepSpec os _ = ⊥

-- The list of patches and the timeout of the payload, if any, can be read.
pub record IsReadable (os : Platform) (task : Task) : Type 0 where
  pub patches : is_some (patches_of (list_under (get_field "patches" task.payload))) ≡ true
  pub timeout : is_some (timeout_of os (get_field "timeout" task.payload)) ≡ true

-- The patches of the task may be written in its directory.
abbrev pub AreWritable : Platform → String → Task → List FilePatch → Type 0
AreWritable os base_dir task ps = All (IsWritable os.files (root_of base_dir task)) ps

-- A payload of the documented form, whose patches, and those that the generator answers for it, may be
-- written in the task's directory.
pub record IsRunnable (os : Platform) (base_dir : String) (task : Task) : Type 0 where
  pub readable : IsReadable os task
  pub steps : All (IsStepSpec os) (list_under (get_field "steps" task.payload))
  pub own :
      (ps : List FilePatch)
      → patches_of (list_under (get_field "patches" task.payload)) ≡ some ps
      → AreWritable os base_dir task ps
  pub generated :
      (n : ℕ) (spec : Fields) (result : GenerationResult)
      → get_field "generate" task.payload ≡ some (object spec)
      → os.generate n (text_of os (get_field "goal" spec)) (text_of os (get_field "context" spec))
        ≡ ok result
      → result.degraded ≡ false
      → AreWritable os base_dir task result.patches
