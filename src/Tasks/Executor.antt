-- ===== src/Tasks/Executor.antt =====
-- tasks/executor.py: what a task of each type does.
use hookclose.Prelude.{String, format, str_eq, Bool, true, [], ◌∷◌, if◌then◌else◌, or_default}
use hookclose.Tasks.{Json, boolean, number, text, object, Fields, no_fields, field, get_field}

-- `return result, None`, `return None, error`, or an exception out of `asyncio.sleep`.
pub data Execution : Type 0 where
  returned : Json → Execution
  failed : String → Execution
  raised : Execution

-- `str_of` is Python's `str`; `sleeps` tells whether `asyncio.sleep` takes the duration.
module _ (str_of : Json → String) (sleeps : Json → Bool) where
  unfoldable pub execute_task : String → Fields → Execution
  execute_task task_type payload =
      let message = or_default (get_field "message" payload) (text "") in
      let duration = or_default (get_field "duration" payload) (number 1) in
      if str_eq task_type "echo"
      then returned (
          object (
            field "echo" message
              (field "output" (text (format ("processed: " ∷ str_of message ∷ []))) no_fields)))
      else if str_eq task_type "sleep"
      then if sleeps duration then returned (object (field "slept" duration no_fields)) else raised
      else if str_eq task_type "fail"
      then failed "simulated failure for task type 'fail'"
      else returned (
          object (
            field "processed" (boolean true)
              (field "task_type" (text task_type) (field "input" (object payload) no_fields))))
