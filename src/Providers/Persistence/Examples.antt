-- ===== src/Providers/Persistence/Examples.antt =====
-- A client and encodings for the theorem about the stores.
use hookclose.Prelude.{
  ℕ, zero, suc, String, ◌≡◌, refl, ap, some, List, [], ◌∷◌, arith, Dict, lookup, insert,
  lookup-insert,
}
use hookclose.Tasks.{Fields}
use hookclose.Providers.State.{ProviderStatus, ProviderHealth, new_health}
use hookclose.Providers.Manager.{load}
use hookclose.Providers.Persistence.{Encodings, HashClient, redis_load}
use hookclose.Providers.Persistence.Stores.{
  memory_store, redis_store, ReadsBack, IsHash, saved_all, redis_refines_memory,
}

-- A time as so many marks.
abbrev marks : ℕ → String
marks zero = String.[]
marks (suc n) = String.◌∷◌ "i" (marks n)

abbrev counted : String → ℕ
counted String.[] = 0
counted (String.◌∷◌ c s) = suc (counted s)

counted-marks : (n : ℕ) → counted (marks n) ≡ n
counted-marks zero = refl
counted-marks (suc n) = ap (λ k. suc k) (counted-marks n)

abbrev py : Encodings
py = record {
  Raw = Fields;
  isoformat = marks;
  fromisoformat = λ s. some (counted s);
  dumps = λ entries. entries;
  loads = λ entries. some entries;
}

py-ReadsBack : ReadsBack py
py-ReadsBack = record { time = λ t. rw (counted-marks t); dictionary = λ entries. refl }

-- A server that is asked for one key only.
abbrev client : HashClient Fields
client = record {
  State = Dict Fields;
  hset = λ s key name value. insert name value s;
  hget = λ s key name. lookup name s;
  hgetall = λ s key. s;
}

client-IsHash : IsHash client
client-IsHash = record {
  hget-hset = λ s key name other value. ground (arith, lookup-insert name other value s);
}

abbrev offline : ProviderHealth
offline = record new_health { status = ProviderStatus.offline; cooldown_until = some 1800 }

abbrev saves : List (String × ProviderHealth)
saves = ("openai", offline) ∷ ("local", new_health) ∷ ("openai", new_health) ∷ []

redis_refines_memory_example :
    redis_load py client "providers:health"
      (saved_all (redis_store py client "providers:health") saves [])
      "openai"
    ≡ some (load "openai" (saved_all memory_store saves []))
redis_refines_memory_example =
    redis_refines_memory py client "providers:health" [] saves "openai" py-ReadsBack client-IsHash
      (λ n. refl)
