-- ===== src/Tasks/Repository.antt =====
-- tasks/repository.py: the table of tasks in the database, one row per id. A row is a task; `now` is the
-- database's clock, and `earlier` its order of `created_at`.
use hookclose.Prelude.{
  ℕ, String, ◌≡◌, Bool, true, false, Option, none, some, List, [], ◌∷◌, if◌then◌else◌, or_default,
  Result, ok, err, is_some, not, ◌&&◌, Dict, lookup, insert, has_key, values, filter, sorted, take,
  str_eq, lookup-insert,
}
use hookclose.Tasks.{Json, TaskStatus, Task}

abbrev pub TaskTable : Type 0
TaskTable = Dict Task

-- `INSERT` refuses an id that is taken, and an `UPDATE` a column that the table does not have. The
-- database draws the times and starts the attempts at 0; the workflow of a task is taken to have a row.
pub data DatabaseError : Type 0 where
  unique_violation : String → DatabaseError
  undefined_column : String → DatabaseError

unfoldable pub create : String → Task → TaskTable → Result DatabaseError (Task × TaskTable)
create now task table =
    let row : Task = record task {
      result = none;
      attempts = 0;
      error = none;
      created_at = now;
      updated_at = now;
    } in
    if has_key task.id table
    then err (unique_violation task.id)
    else ok (record task { created_at = now; updated_at = now }, insert task.id row table)

-- `row.get("provider") or "opencode"`
abbrev pub provider_or : String → String
provider_or provider = if str_eq provider "" then "opencode" else provider

-- `dict(row["payload"])` of a payload that came as text, which is never the empty one, raises.
pub data RowError : Type 0 where
  undecoded_payload : String → RowError

-- `_row_to_task`. Whether the pool decodes the JSON columns, with a codec or otherwise, is a parameter;
-- where it does, `payload` and `result` are dictionaries, which `dict` copies.
abbrev pub row_to_task : Bool → Task → Result RowError Task
row_to_task decodes_json row =
    if decodes_json
    then ok (record row { provider = provider_or row.provider })
    else err (undecoded_payload row.id)

abbrev pub as_found : Result RowError Task → Result RowError (Option Task)
as_found (err e) = err e
as_found (ok task) = ok (some task)

abbrev pub found : Bool → Option Task → Result RowError (Option Task)
found decodes_json none = ok none
found decodes_json (some row) = as_found (row_to_task decodes_json row)

unfoldable pub get : Bool → String → TaskTable → Result RowError (Option Task)
get decodes_json task_id table = found decodes_json (lookup task_id table)

-- A column that the statement sets only when it is given a value.
abbrev pub set_if_given {ℓ} : {A : Type ℓ} → Option A → Option A → Option A
set_if_given none old = old
set_if_given (some new) old = some new

abbrev pub update_row : String → TaskStatus → Option Json → Option String → Option ℕ → Task → Task
update_row now status result error attempts row = record row {
  status = status;
  updated_at = now;
  result = set_if_given result row.result;
  error = set_if_given error row.error;
  attempts = or_default attempts row.attempts;
}

abbrev pub update_found : String → (Task → Task) → Option Task → TaskTable → TaskTable
update_found task_id change none table = table
update_found task_id change (some row) table = insert task_id (change row) table

-- An `UPDATE` of an id that has no row changes nothing. Of the columns that it names, `error` is the one
-- that a schema may lack.
unfoldable pub update_status :
    Bool
    → String
    → String
    → TaskStatus
    → Option Json
    → Option String
    → Option ℕ
    → TaskTable
    → Result DatabaseError TaskTable
update_status has_error_column now task_id status result error attempts table =
    if is_some error && not has_error_column
    then err (undefined_column "error")
    else ok (
        update_found task_id (update_row now status result error attempts) (lookup task_id table)
          table)

abbrev pub is_pending : TaskStatus → Bool
is_pending TaskStatus.pending = true
is_pending _ = false

abbrev pub and_task :
    Result RowError Task → Result RowError (List Task) → Result RowError (List Task)
and_task (err e) tasks = err e
and_task (ok task) (err e) = err e
and_task (ok task) (ok tasks) = ok (task ∷ tasks)

-- `[self._row_to_task(r) for r in rows]`
abbrev pub rows_to_tasks : Bool → List Task → Result RowError (List Task)
rows_to_tasks decodes_json [] = ok []
rows_to_tasks decodes_json (row ∷ rows) =
    and_task (row_to_task decodes_json row) (rows_to_tasks decodes_json rows)

unfoldable pub get_pending :
    Bool → (Task → Task → Bool) → ℕ → TaskTable → Result RowError (List Task)
get_pending decodes_json earlier limit table =
    rows_to_tasks decodes_json
      (take limit (sorted earlier (filter (λ row. is_pending row.status) (values table))))

-- What an update leaves under an id.
pub lookup-update_found :
    (k j : String) (change : Task → Task) (row : Task) (table : TaskTable)
    → lookup k table ≡ some row
    → lookup j (update_found k change (lookup k table) table)
      ≡ (if str_eq k j then some (change row) else lookup j table)
lookup-update_found k j change row table at = rw at (lookup-insert k j (change row) table)
