-- ===== src/Workers/Keyless/Examples.antt =====
-- A task that asks for a page, in a runtime with no key of a vendor.
use hookclose.Prelude.{◌∷◌, [], true, none}
use hookclose.Tasks.{text, object, Fields, no_fields, field, default_task, Task}
use hookclose.Runtime.Composition.{default_config}
use hookclose.Runtime.Composition.Examples.{down, asked}
use hookclose.Workers.Codegen.Examples.{json}
use hookclose.Workers.Openclaw.{Platform, Worker}
use hookclose.Workers.Openclaw.Examples.{os, worker}
use hookclose.Workers.Keyless.{generator_after, with_codegen}

abbrev spec : Fields
spec = field "goal" (text "a page") no_fields

abbrev task : Task
task = record (default_task (record { id = "t1"; created_at = "12:00"; updated_at = "12:00" })) {
  payload = field "generate" (object spec) no_fields;
}

-- Between two generations a review is asked for.
abbrev composed : Platform
composed =
    with_codegen down json (λ n. generator_after down default_config none [] 4096 (asked ∷ [])) os

abbrev generating : Worker
generating = record worker { has_generator = true }
