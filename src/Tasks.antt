-- ===== src/Tasks.antt =====
-- tasks/models.py: the task that every service passes on, and the JSON values of its payload.
pub mod Repository
pub mod Executor
use hookclose.Prelude.{ℕ, String, Bool, Option, none, some, if◌then◌else◌, str_eq}

-- A JSON value; numbers are the natural ones. The library's nested lists are types of their own here.
mutual
  pub data Json : Type 0 where
    null : Json
    boolean : Bool → Json
    number : ℕ → Json
    text : String → Json
    array : Items → Json
    object : Fields → Json

  pub data Items : Type 0 where
    no_items : Items
    item : Json → Items → Items

  -- A `dict` with string keys.
  pub data Fields : Type 0 where
    no_fields : Fields
    field : String → Json → Fields → Fields

-- `d.get(key)`
abbrev pub get_field : String → Fields → Option Json
get_field key no_fields = none
get_field key (field k v rest) = if str_eq k key then some v else get_field key rest

-- `d[key] = value`
abbrev pub set_field : String → Json → Fields → Fields
set_field key value no_fields = field key value no_fields
set_field key value (field k v rest) =
    if str_eq k key then field k value rest else field k v (set_field key value rest)

pub data TaskStatus : Type 0 where
  pending scheduled running completed failed retrying : TaskStatus

pub record Task : Type 0 where
  pub id : String
  pub workflow_id : Option String
  pub status : TaskStatus
  pub task_type : String
  pub payload : Fields
  pub result : Option Json
  pub provider : String
  pub attempts : ℕ
  pub max_attempts : ℕ
  pub error : Option String
  pub created_at : String
  pub updated_at : String

-- What `Task(...)` draws for itself: an id from `uuid4`, and the time twice.
pub record Drawn : Type 0 where
  pub id : String
  pub created_at : String
  pub updated_at : String

-- `Task()` with every default.
abbrev pub default_task : Drawn → Task
default_task drawn = record {
  id = drawn.id;
  workflow_id = none;
  status = TaskStatus.pending;
  task_type = "generic";
  payload = no_fields;
  result = none;
  provider = "opencode";
  attempts = 0;
  max_attempts = 3;
  error = none;
  created_at = drawn.created_at;
  updated_at = drawn.updated_at;
}
