-- ===== src/Workers/Openclaw/Examples.antt =====
-- A concrete task for the theorems about workers/.
use hookclose.Prelude.{
  String, format, ◌≡◌, Bool, true, false, Option, none, some, List, [], ◌∷◌, ok, All, if◌then◌else◌,
}
use hookclose.Tasks.{
  Json, text, array, object, no_items, item, no_fields, field, default_task, Task,
}
use hookclose.Workers.Contracts.{FilePatch}
use hookclose.Prelude.{startswith}
use hookclose.Workers.Workspace.{FileSystem, write_patches, write_patches-guarded}
use hookclose.Workers.Openclaw.{Platform, Worker}

abbrev pub resolved : String → Json → Option String
resolved root (text path) =
    some (if startswith "/" path then path else format (root ∷ "/" ∷ path ∷ []))
resolved root _ = none

abbrev pub is_text : Json → Bool
is_text (text s) = true
is_text _ = false

-- A file system that puts relative paths into the workspace, leaves absolute ones where they are, and
-- takes texts.
abbrev pub files : FileSystem
files = record {
  resolve = resolved;
  resolve_root = λ root. root;
  writable = λ target content. is_text content;
}

abbrev patch_for : String → FilePatch
patch_for goal = record { path = text "main.py"; content = text goal }

-- A runner whose first command succeeds and whose others fail.
abbrev pub os : Platform
os = record {
  run = λ n command cwd timeout. record {
    exit_code = n;
    stdout = "";
    stderr = "";
    duration_ms = 5;
    timed_out = false;
  };
  generate = λ n goal context. ok (record {
    provider = "local";
    patches = patch_for goal ∷ [];
    notes = "";
    total_tokens = 0;
    degraded = false;
  });
  files = files;
  str_of = λ json. "test";
  strings_of = λ json. some ("pytest" ∷ []);
  float_of = λ json. none;
  tail = λ s. s;
  head = λ s. s;
  dumps = λ report. "{}";
  repr = λ s. s;
  decimal = λ n. "1";
}

abbrev pub worker : Worker
worker = record {
  base_dir = "/ws";
  has_generator = true;
  bus = some [];
  artifacts = some [];
  runs = 0;
  generations = 0;
  written = [];
}

-- A task that generates a file, brings another, and has one step.
abbrev task : Task
task = record (default_task (record { id = "t1"; created_at = "12:00"; updated_at = "12:00" })) {
  payload = field "generate" (object (field "goal" (text "a page") no_fields)) (
      field "patches"
        (array (
          item (object (field "path" (text "app.py") (field "content" (text "print()") no_fields)))
            no_items))
        (field "steps"
          (array (
            item
              (object (
                field "name" (text "test")
                  (field "command" (array (item (text "pytest") no_items)) no_fields)))
              no_items))
          no_fields));
}

abbrev patches : List FilePatch
patches = record { path = text "app.py"; content = text "print()" } ∷ []

write_patches-guarded_example :
    All (λ file. startswith "/ws/t1" file.0 ≡ true) (write_patches files "/ws/t1" patches).1
write_patches-guarded_example = write_patches-guarded files "/ws/t1" patches
