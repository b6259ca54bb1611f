-- ===== src/Dispatch/Engine.antt =====
-- workflow-engine/main.py: what the engine makes of the messages on `workflow:events`. A step is one round
-- of its loop. Logging and times are left out, but for what they may raise.
pub mod Recorded
mod Examples
use hookclose.Prelude.{
  ℕ, zero, suc, ◌+◌, String, Bool, true, false, not, ◌&&◌, ◌||◌, Option, none, some, List, [], ◌∷◌,
  ◌++◌, if◌then◌else◌, or_default, contains, str_eq, leb, ◌==◌,
}
use hookclose.Tasks.{Json, Items, Fields, get_field}

-- A row of the table `events`.
pub record EventRow : Type 0 where
  pub workflow_id : String
  pub event_type : String
  pub payload : Json

-- The tables that the engine writes and depends on.
pub record EventTables : Type 0 where
  pub workflows : List String
  pub events : List EventRow

-- `json.loads` (`none` where it raises), the reading of a text as a UUID (in its usual form, `none`
-- where it is none), and whether the schema makes `events.workflow_id` refer to a workflow:
-- infra/postgres/init.sql does, scripts/init_db.py does not.
pub record Database : Type 0 where
  pub loads : String → Option Json
  pub uuid_of : String → Option String
  pub refers_to_workflows : Bool

-- What `format_msg` makes of a text: what is no JSON is wrapped.
abbrev pub wrapped : String → Option Json → Json
wrapped message none = Json.object (Fields.field "raw" (Json.text message) Fields.no_fields)
wrapped message (some json) = json

unfoldable pub format_msg : (String → Option Json) → Option String → Option Json
format_msg loads none = none
format_msg loads (some message) = some (wrapped message (loads message))

-- `bool(data)`
abbrev pub is_true : Json → Bool
is_true Json.null = false
is_true (Json.boolean b) = b
is_true (Json.number n) = not (n == 0)
is_true (Json.text s) = not (str_eq s "")
is_true (Json.array Items.no_items) = false
is_true (Json.array (Items.item _ _)) = true
is_true (Json.object Fields.no_fields) = false
is_true (Json.object (Fields.field _ _ _)) = true

abbrev pub field_count : Fields → ℕ
field_count Fields.no_fields = 0
field_count (Fields.field _ _ rest) = suc (field_count rest)

-- `task_id[:8] if len(task_id) > 8 else task_id` returns: `len` wants a text, a list or a dictionary,
-- and a dictionary cannot be cut.
abbrev pub can_be_cut : Json → Bool
can_be_cut (Json.text s) = true
can_be_cut (Json.array items) = true
can_be_cut (Json.object entries) = leb (field_count entries) 8
can_be_cut _ = false

-- `data.get("workflow_id") or task_id`
abbrev pub workflow_or : Option Json → Json → Json
workflow_or none task_id = task_id
workflow_or (some json) task_id = if is_true json then json else task_id

module _ (db : Database) where
  -- The row goes in, or the database refuses it: the first column wants a UUID, of a workflow if the
  -- schema says so, and the second a text.
  abbrev pub inserted : Option String → Json → Json → EventTables → Bool × EventTables
  inserted (some id) (Json.text event) payload t =
      if db.refers_to_workflows && not (contains id t.workflows) then (false, t) else (
        true,
        record t {
          events =
              t.events ++ record { workflow_id = id; event_type = event; payload = payload } ∷ [];
        },
      )
  inserted _ _ _ t = (false, t)

  abbrev pub uuid_in : Json → Option String
  uuid_in (Json.text s) = db.uuid_of s
  uuid_in _ = none

  -- What follows `format_msg` in `listen_events`, and whether it did not raise; what raises is logged.
  unfoldable pub record_event : Json → EventTables → Bool × EventTables
  record_event (Json.object entries) t =
      let event = or_default (get_field "event" entries) (Json.text "unknown") in
      let task_id = or_default (get_field "task_id" entries) (Json.text "?") in
      let insert_it =
        inserted (uuid_in (workflow_or (get_field "workflow_id" entries) task_id)) event
          (Json.object entries) t in
      if not (is_true (Json.object entries))
      then (true, t)
      else if can_be_cut task_id
      then insert_it
      else (false, t)
  record_event Json.null t = (true, t)
  record_event (Json.boolean b) t = (not b, t)
  record_event (Json.number n) t = (n == 0, t)
  record_event (Json.text s) t = (str_eq s "", t)
  record_event (Json.array items) t = (not (is_true (Json.array items)), t)

  abbrev pub heard : Option Json → EventTables → Bool × EventTables
  heard none t = (true, t)
  heard (some json) t = record_event json t

  -- The round that gets a message with this data.
  unfoldable pub listen : Option String → EventTables → Bool × EventTables
  unfolding record_event format_msg
  listen message t = heard (format_msg db.loads message) t

  -- The rounds that get these messages; an exception ends only its own round.
  abbrev pub listen_events : List String → EventTables → EventTables
  listen_events [] t = t
  listen_events (message ∷ rest) t = listen_events rest (listen (some message) t).1
