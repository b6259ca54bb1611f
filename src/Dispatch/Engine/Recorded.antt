-- ===== src/Dispatch/Engine/Recorded.antt =====
-- What the engine records of the notices that the scheduler and the worker publish.
use mathlib.Core.List.{append-nil, append_assoc}
use hookclose.Prelude.{
  String, ◌≡◌, refl, sym, ap, ◌∙◌, inl, inr, Bool, not, ◌||◌, some, List, [], ◌∷◌, ◌++◌, map, arith,
  if◌then◌else◌, contains, filter, All, Bool-cases,
}
use hookclose.Tasks.{Json, Fields}
use hookclose.Dispatch.{Notice, task_scheduled, task_failed, task_completed}
use hookclose.Dispatch.Engine.{
  EventRow, EventTables, Database, format_msg, record_event, listen, listen_events,
}

abbrev pub id_of : Notice → String
id_of (task_scheduled task_id provider) = task_id
id_of (task_failed task_id error) = task_id
id_of (task_completed task_id result) = task_id

abbrev pub event_of : Notice → String
event_of (task_scheduled task_id provider) = "task_scheduled"
event_of (task_failed task_id error) = "task_failed"
event_of (task_completed task_id result) = "task_completed"

abbrev entries_of : String → String → String → Fields → Fields
entries_of event task_id timestamp extra = Fields.field "event" (Json.text event) (
    Fields.field "task_id" (Json.text task_id)
      (Fields.field "timestamp" (Json.text timestamp) extra))

-- The dictionary that `poll_pg` and `publish_event` publish.
abbrev pub notice_fields : String → Notice → Fields
notice_fields timestamp (task_scheduled task_id provider) =
    Fields.field "event" (Json.text "task_scheduled") (
      Fields.field "task_id" (Json.text task_id) (
        Fields.field "provider" (Json.text provider)
          (Fields.field "timestamp" (Json.text timestamp) Fields.no_fields)))
notice_fields timestamp (task_failed task_id error) =
    entries_of "task_failed" task_id timestamp
      (Fields.field "error" (Json.text error) Fields.no_fields)
notice_fields timestamp (task_completed task_id result) =
    entries_of "task_completed" task_id timestamp (Fields.field "result" result Fields.no_fields)

-- The row of a notice: the task's id stands in the column of the workflow's.
abbrev pub row_of : String → Notice → EventRow
row_of timestamp notice = record {
  workflow_id = id_of notice;
  event_type = event_of notice;
  payload = Json.object (notice_fields timestamp notice);
}

-- The notice is of a task whose id the schema takes for that of a workflow.
abbrev pub is_taken : Database → EventTables → Notice → Bool
is_taken db t notice = not db.refers_to_workflows || contains (id_of notice) t.workflows

-- A notice with its time.
abbrev pub Stamped : Type 0
Stamped = String × Notice

-- What is published for a notice.
abbrev pub message_for : (Fields → String) → Stamped → String
message_for dumps (timestamp, notice) = dumps (notice_fields timestamp notice)

abbrev pub rows_of : List Stamped → List EventRow
rows_of [] = []
rows_of ((timestamp, notice) ∷ rest) = row_of timestamp notice ∷ rows_of rest

-- The notice comes out of Redis as it went in, and its task has a UUID, in its usual form.
pub record Arrives (db : Database) (dumps : Fields → String) (stamped : Stamped) : Type 0 where
  pub read :
      db.loads (message_for dumps stamped) ≡ some (Json.object (notice_fields stamped.0 stamped.1))
  pub is_uuid : db.uuid_of (id_of stamped.1) ≡ some (id_of stamped.1)

module _ (db : Database) where
  record_event-notice :
      (timestamp : String) (notice : Notice) (t : EventTables)
      → db.uuid_of (id_of notice) ≡ some (id_of notice)
      → (record_event db (Json.object (notice_fields timestamp notice)) t).1 ≡ (
          if is_taken db t notice
          then record t { events = t.events ++ row_of timestamp notice ∷ [] }
          else t)
  unfolding record_event
  record_event-notice timestamp (task_scheduled task_id provider) t u = rw u (ground arith)
  record_event-notice timestamp (task_failed task_id error) t u = rw u (ground arith)
  record_event-notice timestamp (task_completed task_id result) t u = rw u (ground arith)

  listen-notice :
      (dumps : Fields → String) (stamped : Stamped) (t : EventTables)
      → Arrives db dumps stamped
      → (listen db (some (message_for dumps stamped)) t).1 ≡ (
          if is_taken db t stamped.1
          then record t { events = t.events ++ row_of stamped.0 stamped.1 ∷ [] }
          else t)
  unfolding listen format_msg
  listen-notice dumps stamped t a = rw a.read (record_event-notice stamped.0 stamped.1 t a.is_uuid)

  -- The engine records the notices whose task's id it may take for that of a workflow, each once and in
  -- the order of their messages, under the task's id: every one on a schema in which the column refers
  -- to nothing, and on a schema in which it refers to a workflow none but those of tasks whose id is
  -- also that of a workflow.
  pub notices_recorded :
      (dumps : Fields → String) (notices : List Stamped) (t : EventTables)
      → All (Arrives db dumps) notices
      → listen_events db (map (message_for dumps) notices) t
        ≡ record t { events = t.events ++ rows_of (filter (λ s. is_taken db t s.1) notices) }
  notices_recorded dumps [] t a =
      ap (λ events. record t { events = events }) (sym (append-nil t.events))
  notices_recorded dumps (stamped ∷ rest) t a = elim (Bool-cases (is_taken db t stamped.1)) [
    | inl taken ↦
        let t' : EventTables = record t { events = t.events ++ row_of stamped.0 stamped.1 ∷ [] } in
        let step : (listen db (some (message_for dumps stamped)) t).1 ≡ t' =
          listen-notice dumps stamped t a.0 ∙ rw taken refl in
        let later = filter (λ (s : Stamped). is_taken db t s.1) rest in
        rw taken (
          ap (listen_events db (map (message_for dumps) rest)) step
          ∙ notices_recorded dumps rest t' a.1
          ∙ ap (λ events. record t { events = events })
              (append_assoc t.events (row_of stamped.0 stamped.1 ∷ []) (rows_of later)))
    | inr refused ↦
        let step : (listen db (some (message_for dumps stamped)) t).1 ≡ t =
          listen-notice dumps stamped t a.0 ∙ rw refused refl in
        rw refused (
          ap (listen_events db (map (message_for dumps) rest)) step
          ∙ notices_recorded dumps rest t a.1)
  ]
