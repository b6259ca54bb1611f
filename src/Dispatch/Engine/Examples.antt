-- ===== src/Dispatch/Engine/Examples.antt =====
-- The notices of one task, on a schema whose events belong to workflows.
use hookclose.Prelude.{
  String, ◌≡◌, true, some, [], ◌∷◌, ◌++◌, refl, map, filter, str_eq, if◌then◌else◌,
}
use hookclose.Tasks.{Json, Fields}
use hookclose.Dispatch.{task_scheduled, task_failed}
use hookclose.Dispatch.Engine.{EventTables, Database, listen_events}
use hookclose.Dispatch.Engine.Recorded.{
  Stamped, message_for, notice_fields, rows_of, is_taken, notices_recorded,
}

abbrev scheduled : Stamped
scheduled = ("12:00", task_scheduled "t1" "opencode")

abbrev failed : Stamped
failed = ("12:01", task_failed "t1" "boom")

-- An encoding of these two dictionaries.
abbrev dumps : Fields → String
dumps (Fields.field _ (Json.text event) _) = event
dumps _ = ""

abbrev db : Database
db = record {
  loads = λ s. some (
      Json.object (
        if str_eq s "task_scheduled"
        then notice_fields scheduled.0 scheduled.1
        else notice_fields failed.0 failed.1));
  uuid_of = λ s. some s;
  refers_to_workflows = true;
}

abbrev tables : EventTables
tables = record { workflows = "w1" ∷ []; events = [] }

notices_recorded_example :
    listen_events db (map (message_for dumps) (scheduled ∷ failed ∷ [])) tables ≡ record tables {
      events =
          tables.events ++ rows_of (filter (λ s. is_taken db tables s.1) (scheduled ∷ failed ∷ []));
    }
notices_recorded_example =
    notices_recorded db dumps (scheduled ∷ failed ∷ []) tables
      (record { read = refl; is_uuid = refl }, (record { read = refl; is_uuid = refl }, tt))
