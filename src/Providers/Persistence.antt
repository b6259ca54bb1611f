-- ===== src/Providers/Persistence.antt =====
-- providers/persistence.py: health as a dictionary, and the store that keeps it in Redis. The in-memory
-- store is that of Providers.Manager.
pub mod Stores
mod Examples
use hookclose.Prelude.{ℕ, String, Option, none, some, List, [], ◌∷◌, if◌then◌else◌, Dict}
use hookclose.Providers.State.{ProviderStatus, status_value, status_of_value, ProviderHealth}
use hookclose.Tasks.{Json, Items, Fields, get_field}

-- `datetime.isoformat`, `datetime.fromisoformat` (`none` where it raises), `json.dumps` of a dictionary
-- and `json.loads` of what was dumped, `none` where it raises or gives no dictionary. `Raw` is the type
-- of what is dumped: a text when it is written to Redis, and bytes when it is read.
pub record Encodings : Type 1 where
  pub Raw : Type 0
  pub isoformat : ℕ → String
  pub fromisoformat : String → Option ℕ
  pub dumps : Fields → Raw
  pub loads : Raw → Option Fields

abbrev pub text_or_null : Option String → Json
text_or_null none = Json.null
text_or_null (some s) = Json.text s

abbrev pub number_in : Option Json → Option ℕ
number_in (some (Json.number n)) = some n
number_in _ = none

-- A text, or nothing. The source takes over a value of any other type, which the model refuses.
abbrev pub optional_text : Option Json → Option (Option String)
optional_text none = some none
optional_text (some Json.null) = some none
optional_text (some (Json.text s)) = some (some s)
optional_text (some _) = none

-- `ProviderStatus(str(value))`: the text of any other value is no status.
abbrev pub status_in : Option Json → Option ProviderStatus
status_in (some (Json.text s)) = status_of_value s
status_in _ = none

infixl 5 ◌>>=◌
abbrev pub ◌>>=◌ {ℓ} : {A B : Type ℓ} → Option A → (A → Option B) → Option B
none >>= f = none
some a >>= f = f a

module _ (py : Encodings) where
  abbrev pub time_or_null : Option ℕ → Json
  time_or_null none = Json.null
  time_or_null (some t) = Json.text (py.isoformat t)

  unfoldable pub health_to_dict : ProviderHealth → Fields
  health_to_dict health = Fields.field "status" (Json.text (status_value health.status)) (
      Fields.field "consecutive_failures" (Json.number health.consecutive_failures) (
        Fields.field "cooldown_until" (time_or_null health.cooldown_until) (
          Fields.field "tokens_used" (Json.number health.tokens_used) (
            Fields.field "total_requests" (Json.number health.total_requests) (
              Fields.field "total_failures" (Json.number health.total_failures) (
                Fields.field "last_error" (text_or_null health.last_error) (
                  Fields.field "last_used_at" (time_or_null health.last_used_at)
                    Fields.no_fields)))))))

  -- `_dt`: only a text is read as a time.
  abbrev pub time_in : Option Json → Option (Option ℕ)
  time_in (some (Json.text s)) = elim (py.fromisoformat s) [ none ↦ none | some t ↦ some (some t) ]
  time_in _ = some none

  -- `none` is what raises: a missing key, an unknown status, a text that is no time.
  unfoldable pub health_from_dict : Fields → Option ProviderHealth
  health_from_dict entries = do
    status ← status_in (get_field "status" entries)
    consecutive_failures ← number_in (get_field "consecutive_failures" entries)
    cooldown_until ← time_in (get_field "cooldown_until" entries)
    tokens_used ← number_in (get_field "tokens_used" entries)
    total_requests ← number_in (get_field "total_requests" entries)
    total_failures ← number_in (get_field "total_failures" entries)
    last_error ← optional_text (get_field "last_error" entries)
    last_used_at ← time_in (get_field "last_used_at" entries)
    some (record {
      status = status;
      consecutive_failures = consecutive_failures;
      cooldown_until = cooldown_until;
      tokens_used = tokens_used;
      total_requests = total_requests;
      total_failures = total_failures;
      last_error = last_error;
      last_used_at = last_used_at;
    })

-- A client of Redis: its state, and the commands on the fields of a key.
pub record HashClient (Raw : Type 0) : Type 1 where
  pub State : Type 0
  pub hset : State → String → String → Raw → State
  pub hget : State → String → String → Option Raw
  pub hgetall : State → String → Dict Raw

-- What `load` gives for what `hget` found; the outer `none` is what raises.
abbrev pub decoded : (py : Encodings) → Option py.Raw → Option (Option ProviderHealth)
decoded py none = some none
decoded py (some raw) = do
  entries ← py.loads raw
  health ← health_from_dict py entries
  some (some health)

module _ (py : Encodings) (client : HashClient py.Raw) (key : String) where
  unfoldable pub redis_save : client.State → String → ProviderHealth → client.State
  unfolding health_to_dict
  redis_save state name health = client.hset state key name (py.dumps (health_to_dict py health))

  unfoldable pub redis_load : client.State → String → Option (Option ProviderHealth)
  unfolding health_from_dict
  redis_load state name = decoded py (client.hget state key name)

  abbrev pub decoded_all : Dict py.Raw → Option (Dict ProviderHealth)
  decoded_all [] = some []
  decoded_all ((name, raw) ∷ rest) = do
    entries ← py.loads raw
    health ← health_from_dict py entries
    later ← decoded_all rest
    some ((name, health) ∷ later)

  unfoldable pub redis_load_all : client.State → Option (Dict ProviderHealth)
  unfolding health_from_dict
  redis_load_all state = decoded_all (client.hgetall state key)
