-- ===== src/Workers/Envelope.antt =====
-- The JSON that a model answers with, as `json.loads` reads it, for workers/architect.py and
-- workers/codegen.py. The reading itself and `str` are parameters.
use hookclose.Prelude.{ℕ, String, Bool, Option, none, some, if◌then◌else◌, str_eq}

-- Python's `int`: `pos n` is n, and `negsuc n` is -n-1.
pub data ℤ : Type 0 where
  pos : ℕ → ℤ
  negsuc : ℕ → ℤ

-- A float is given as it is written with the integer that `int` cuts it to, which NaN and the
-- infinities do not have.
mutual
  pub data JsonValue : Type 0 where
    null : JsonValue
    boolean : Bool → JsonValue
    integer : ℤ → JsonValue
    floating : String → Option ℤ → JsonValue
    text : String → JsonValue
    array : JsonValues → JsonValue
    object : JsonFields → JsonValue

  pub data JsonValues : Type 0 where
    no_values : JsonValues
    value : JsonValue → JsonValues → JsonValues

  pub data JsonFields : Type 0 where
    no_fields : JsonFields
    field : String → JsonValue → JsonFields → JsonFields

-- `data.get(key)`
abbrev pub get_value : String → JsonFields → Option JsonValue
get_value key JsonFields.no_fields = none
get_value key (JsonFields.field k v rest) = if str_eq k key then some v else get_value key rest

-- `json.loads`, `none` for what raises `JSONDecodeError`, and `str` on what it gives.
pub record JsonReader : Type 0 where
  pub loads : String → Option JsonValue
  pub str_of : JsonValue → String

-- The object that a text holds: anything else raises in the `try` of `_parse`.
abbrev pub object_in : Option JsonValue → Option JsonFields
object_in (some (JsonValue.object fields)) = some fields
object_in _ = none
