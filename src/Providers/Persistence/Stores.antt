-- ===== src/Providers/Persistence/Stores.antt =====
-- The store in Redis keeps what the store in memory keeps.
use hookclose.Prelude.{
  ℕ, String, ◌≡◌, refl, ap, sym, ◌∙◌, Bool, true, false, Option, none, some, List, [], ◌∷◌, arith,
  if◌then◌else◌, str_eq, lookup-insert,
}
use hookclose.Tasks.{Fields}
use hookclose.Providers.State.{ProviderStatus, status_value, status_of_value, ProviderHealth}
use hookclose.Providers.Manager.{ProviderStateStore, save, load}
use hookclose.Providers.Persistence.{
  Encodings, time_in, time_or_null, text_or_null, optional_text, health_to_dict, health_from_dict,
  HashClient, decoded, redis_save, redis_load,
}

-- `ProviderStateStore`: what is kept of each provider, and `none` for a `load` that raises.
pub record StateStore : Type 1 where
  pub State : Type 0
  pub save : State → String → ProviderHealth → State
  pub load : State → String → Option (Option ProviderHealth)

-- The latest save of a name is what it loads.
pub record IsLawful (store : StateStore) : Type 0 where
  pub load-save :
      (s : store.State) (saved name : String) (health : ProviderHealth)
      → store.load (store.save s saved health) name
        ≡ (if str_eq saved name then some (some health) else store.load s name)

abbrev pub memory_store : StateStore
memory_store = record {
  State = ProviderStateStore;
  save = λ s name health. save name health s;
  load = λ s name. some (load name s);
}

abbrev pub redis_store : (py : Encodings) → HashClient py.Raw → String → StateStore
redis_store py client key = record {
  State = client.State;
  save = redis_save py client key;
  load = redis_load py client key;
}

pub memory_store-IsLawful : IsLawful memory_store
unfolding save load
memory_store-IsLawful = record {
  load-save = λ s saved name health. ground (arith, lookup-insert saved name health s);
}

-- What is documented of the encodings: each reads back what the other writes.
pub record ReadsBack (py : Encodings) : Type 0 where
  pub time : (t : ℕ) → py.fromisoformat (py.isoformat t) ≡ some t
  pub dictionary : (entries : Fields) → py.loads (py.dumps entries) ≡ some entries

-- What is documented of the commands: `hget` finds what `hset` last wrote under the key and the field.
pub record IsHash {Raw : Type 0} (client : HashClient Raw) : Type 0 where
  pub hget-hset :
      (s : client.State) (key field field' : String) (value : Raw)
      → client.hget (client.hset s key field value) key field'
        ≡ (if str_eq field field' then some value else client.hget s key field')

time_in-time_or_null :
    (py : Encodings) (t : Option ℕ) → ReadsBack py → time_in py (some (time_or_null py t)) ≡ some t
time_in-time_or_null py none back = refl
time_in-time_or_null py (some t) back = rw (back.time t)

optional_text-text_or_null : (s : Option String) → optional_text (some (text_or_null s)) ≡ some s
optional_text-text_or_null none = refl
optional_text-text_or_null (some s) = refl

status_of_value-status_value : (s : ProviderStatus) → status_of_value (status_value s) ≡ some s
unfolding status_of_value status_value
status_of_value-status_value ProviderStatus.available = refl
status_of_value-status_value ProviderStatus.rate_limited = refl
status_of_value-status_value ProviderStatus.offline = refl
status_of_value-status_value ProviderStatus.cooldown = refl
status_of_value-status_value ProviderStatus.failed = refl

-- `health_from_dict` reads back what `health_to_dict` writes.
pub health_from_dict-health_to_dict :
    (py : Encodings) (health : ProviderHealth)
    → ReadsBack py
    → health_from_dict py (health_to_dict py health) ≡ some health
unfolding health_from_dict health_to_dict
health_from_dict-health_to_dict py health back = rw (
  status_of_value-status_value health.status,
  time_in-time_or_null py health.cooldown_until back,
  time_in-time_or_null py health.last_used_at back,
  optional_text-text_or_null health.last_error,
)

decoded-saved :
    (py : Encodings) (health : ProviderHealth)
    → ReadsBack py
    → decoded py (some (py.dumps (health_to_dict py health))) ≡ some (some health)
decoded-saved py health back =
    rw (back.dictionary (health_to_dict py health), health_from_dict-health_to_dict py health back)

decoded_if :
    (py : Encodings) (found : Bool) (saved : ProviderHealth) (before : Option py.Raw)
    → ReadsBack py
    → decoded py (if found then some (py.dumps (health_to_dict py saved)) else before)
      ≡ (if found then some (some saved) else decoded py before)
decoded_if py true saved before back = decoded-saved py saved back
decoded_if py false saved before back = refl

pub redis_store-IsLawful :
    (py : Encodings) (client : HashClient py.Raw) (key : String)
    → ReadsBack py
    → IsHash client
    → IsLawful (redis_store py client key)
unfolding redis_save redis_load
redis_store-IsLawful py client key back hash = record {
  load-save = λ s saved name health.
      let raw = py.dumps (health_to_dict py health) in
      rw (hash.hget-hset s key saved name raw)
        (decoded_if py (str_eq saved name) health (client.hget s key name) back);
}

-- A store after some saves.
abbrev pub saved_all :
    (store : StateStore) → List (String × ProviderHealth) → store.State → store.State
saved_all store [] s = s
saved_all store ((name, health) ∷ rest) s = saved_all store rest (store.save s name health)

-- Two lawful stores that load alike load alike after the same saves.
saved-agree :
    (first second : StateStore) (saves : List (String × ProviderHealth)) (a : first.State)
    (b : second.State)
    → IsLawful first
    → IsLawful second
    → ((name : String) → first.load a name ≡ second.load b name)
    → (name : String)
    → first.load (saved_all first saves a) name ≡ second.load (saved_all second saves b) name
saved-agree first second [] a b lawful lawful' same = same
saved-agree first second ((saved, health) ∷ rest) a b lawful lawful' same =
    saved-agree first second rest (first.save a saved health) (second.save b saved health) lawful
      lawful'
      (λ name.
        lawful.load-save a saved name health
        ∙ ap (λ before. if str_eq saved name then some (some health) else before) (same name)
        ∙ sym (lawful'.load-save b saved name health))

-- On a client that keeps the fields of a key, and with encodings that read back what they write, the
-- store in Redis refines the one in memory: started without an entry, after any saves it loads for
-- each name what the one in memory loads, and never raises.
pub redis_refines_memory :
    (py : Encodings) (client : HashClient py.Raw) (key : String) (empty : client.State)
    (saves : List (String × ProviderHealth)) (name : String)
    → ReadsBack py
    → IsHash client
    → ((n : String) → client.hget empty key n ≡ none)
    → redis_load py client key (saved_all (redis_store py client key) saves empty) name
      ≡ some (load name (saved_all memory_store saves []))
unfolding redis_load load
redis_refines_memory py client key empty saves name back hash fresh =
    saved-agree (redis_store py client key) memory_store saves empty []
      (redis_store-IsLawful py client key back hash) memory_store-IsLawful (λ n. rw (fresh n)) name
