-- ===== src/Cook.antt =====
-- api/api/cook.py: how a dish advances. `plan` is the decision of `_advance_dish`; its writes are in
-- Cook/Claim and what follows for the order in Cook/Finalize.
pub mod Claim
pub mod Finalize
pub mod Planning
pub mod Claiming
pub mod Settling
pub mod Dispatching
pub mod Suppress
pub mod Suppressing
use poundcake.Json.{
  end, int, text, bool, field, obj, is_false, fields_of, get_or_null, is_text, null, Value, get,
}
use poundcake.Prelude.{
  nat_eq, true, ◌-◌, any, false, map, not, ◌+◌, ◌∷◌, [], if◌then◌else◌, keep, none, ℕ, ◌&&◌, ◌||◌,
  Bool, List, Option, String, some,
}
use poundcake.Status.{
  is_canceled, errored, timeout, canceled, is_in_flight, or_text, succeeded, ExecStatus, is_failure,
  is_pending,
}
use poundcake.Tables.{running, Row, Dish, OnFailure, DishStatus}
use Prim.Native.String.{◌++◌ as append}
use poundcake.Prelude.Text.{show_nat}
use poundcake.Segments.{
  Item, Cell, missing, num, Bucket, Segment, bucket_lt, continues, or_value, unordered,
  next_pending_execution_segment, has_in_flight_execution,
}
use mathlib.Core.Option

cell_of : Option ℕ → Cell
cell_of none = missing
cell_of (some n) = num n

-- _dish_ingredient_runtime_dict, with the keys that the segment code reads
unfoldable pub runtime_item : Row → Item
unfolding cell_of
runtime_item r = record {
  id = num r.id;
  recipe_ingredient_id = cell_of r.recipe_ingredient_id;
  task_key = r.task_key;
  step_order = num r.step_order;
  depth = num r.depth;
  parallel_group = num r.parallel_group;
  service_type = some r.service_type;
  on_failure = r.on_failure;
  status = some r.status;
}

-- _runtime_bucket: the columns depth and parallel_group are not null
unfoldable pub runtime_bucket : Row → Bucket
runtime_bucket r = record { depth = r.depth; group = r.parallel_group }

unfoldable pub is_blocking_failure : Row → Bool
unfolding is_failure
is_blocking_failure r = is_failure r.status && not (continues r.on_failure)

-- min(blocking_buckets)
unfoldable pub first_bucket : List Row → Option Bucket
first_bucket [] = none
first_bucket (r ∷ rs) = elim (first_bucket rs) [
  | none ↦ some (runtime_bucket r)
  | some b ↦ some (if bucket_lt b (runtime_bucket r) then b else runtime_bucket r)
]

unfoldable pub pending_after : Bucket → Row → Bool
pending_after b r = is_pending r.status && bucket_lt b (runtime_bucket r)

unfoldable pub has_pending_after_blocking_failure : List Row → Bool
has_pending_after_blocking_failure rows = elim (first_bucket (keep is_blocking_failure rows)) [
  | none ↦ false
  | some b ↦ any (pending_after b) rows
]

abbrev params_of : Row → Value
params_of r = or_value r.service_exec_parameters null

abbrev outcome_of : Row → Value
outcome_of r = or_value r.actual_outcome null

unfoldable pub is_no_remediation_guard_false : Row → Bool
unfolding get
is_no_remediation_guard_false r =
    is_text (get_or_null "guard_role" (fields_of (params_of r))) "remediation_precondition"
    && is_text (get_or_null "false_outcome" (fields_of (params_of r)))
        "cancel_downstream_no_remediation"
    && is_false (get_or_null "is_firing" (fields_of (outcome_of r)))

-- (processing_status, dish_exec_status, error) of the dish
pub record Terminal : Type 0 where
  pub dish_status : DishStatus
  pub exec_status : ExecStatus
  pub error : Option String

abbrev error_or : Row → String → String
error_or r d = or_text r.service_exec_error d

-- what one row decides: nothing, or the terminal state of the dish
failed_as : ExecStatus → DishStatus
failed_as errored = DishStatus.errored
failed_as timeout = DishStatus.timeout
failed_as _ = DishStatus.failed

is_non_terminal : ExecStatus → Bool
is_non_terminal s = is_pending s || is_in_flight s

unfoldable pub row_verdict : Row → Option Terminal
unfolding is_non_terminal is_pending is_in_flight is_failure is_no_remediation_guard_false failed_as
row_verdict r =
    if is_non_terminal r.status
    then some (record {
      dish_status = DishStatus.processing;
      exec_status = r.status;
      error = some "Dish still has non-terminal work";
    })
    else if is_no_remediation_guard_false r
    then some (record {
      dish_status = DishStatus.canceled;
      exec_status = r.status;
      error = some "Remediation skipped because Alertmanager no longer shows the alert firing";
    })
    else if is_canceled r.status && not (continues r.on_failure)
    then some (record {
      dish_status = DishStatus.canceled;
      exec_status = r.status;
      error = some (error_or r "Dish step canceled");
    })
    else if is_failure r.status && not (continues r.on_failure)
    then some (record {
      dish_status = failed_as r.status;
      exec_status = r.status;
      error = some (error_or r "Dish step failed");
    })
    else none

unfoldable pub dish_terminal_state : List Row → Terminal
dish_terminal_state [] = record {
  dish_status = DishStatus.complete;
  exec_status = succeeded;
  error = none;
}
dish_terminal_state (r ∷ rs) = elim (row_verdict r) [ some t ↦ t | none ↦ dish_terminal_state rs ]

-- _total_work_execution_time_secs
add_time : Option ℕ → Option ℕ → Option ℕ
add_time none total = total
add_time (some t) none = some t
add_time (some t) (some total) = some (total + t)

unfoldable pub total_work_execution_time_secs : List Row → Option ℕ
unfolding add_time
total_work_execution_time_secs [] = none
total_work_execution_time_secs (r ∷ rs) = add_time r.run_time (total_work_execution_time_secs rs)

-- what `_advance_dish` does with the rows of the dish that are not deleted
pub data Plan : Type 0 where
  dispatch : Segment → Plan
  blocked_in_flight : Plan
  blocked_by_failure : Plan
  finish : Terminal → Plan

unfoldable pub no_segment : List Row → Plan
no_segment rows =
    if has_in_flight_execution (map runtime_item rows)
    then blocked_in_flight
    else if has_pending_after_blocking_failure rows
    then blocked_by_failure
    else finish (dish_terminal_state rows)

pub plan_of : Option Segment → List Row → Plan
plan_of (some seg) rows = dispatch seg
plan_of none rows = no_segment rows

unfoldable pub plan : List Row → Plan
unfolding no_segment plan_of runtime_item
plan rows = plan_of (next_pending_execution_segment [] (map runtime_item rows)) rows
