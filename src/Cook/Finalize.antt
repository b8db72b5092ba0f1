-- ===== src/Cook/Finalize.antt =====
-- `_finalize_order_for_dish`, `_finalize_scheduled_task_for_order` and the order's part of
-- `_complete_suppressed_dish_if_matched` (api/api/cook.py).
use poundcake.Status.{resolving, firing, OrderStatus, Outcome, Phase, is_order_terminal}
use poundcake.Prelude.{max, ◌+◌, none, some, false, if◌then◌else◌, str_eq, true, Bool, String, ℕ}
use poundcake.Prelude.Text.{lower}
use Prim.Native.String.{◌++◌ as append}
use poundcake.Tables.{Order, DishStatus, ScheduledTask, TaskStatus}

is_resolved : Order → Bool
unfolding lower
is_resolved o = str_eq (lower o.alert_status) "resolved"

is_complete : DishStatus → Bool
is_complete DishStatus.complete = true
is_complete _ = false

is_canceled_dish : DishStatus → Bool
is_canceled_dish DishStatus.canceled = true
is_canceled_dish _ = false

-- the remediation outcome when the alert resolved while its firing dish ran
resolved_outcome : DishStatus → Outcome
resolved_outcome DishStatus.complete = Outcome.succeeded
resolved_outcome DishStatus.canceled = Outcome.none_needed
resolved_outcome _ = Outcome.failed

-- the order's status for a dish that did not complete
failed_order : DishStatus → OrderStatus
failed_order DishStatus.errored = OrderStatus.errored
failed_order DishStatus.timeout = OrderStatus.timeout
failed_order DishStatus.canceled = OrderStatus.canceled
failed_order _ = OrderStatus.failed

-- the lines that every branch writes
settle_order : ℕ → OrderStatus → Outcome → Bool → Order → Order
settle_order now status outcome active o = record o {
  processing_status = status;
  remediation_outcome = outcome;
  is_active = active;
  auto_close_eligible = false;
  clear_deadline_at = none;
  clear_timed_out_at = none;
  updated_at = now;
}

-- What the caller has to do next: nothing, dispatch the resolving phase, or settle the scheduled task.
pub data After : Type 0 where
  nothing dispatch_resolving settle_task : After

after_resolving : Phase → ℕ → DishStatus → Order → Order × After
after_resolving firing now t o =
    if is_resolved o
    then (settle_order now OrderStatus.resolving (resolved_outcome t) true o, dispatch_resolving)
    else if is_canceled_dish t
    then (settle_order now OrderStatus.complete Outcome.none_needed false o, settle_task)
    else if is_complete t
    then (settle_order now OrderStatus.complete Outcome.succeeded false o, settle_task)
    else (settle_order now (failed_order t) Outcome.failed false o, settle_task)
after_resolving resolving now t o =
    if is_complete t
    then (settle_order now OrderStatus.complete o.remediation_outcome false o, settle_task)
    else (settle_order now (failed_order t) o.remediation_outcome false o, settle_task)

-- `other_active`: another dish of the order is new, processing or finalizing
unfoldable pub finalize_order_for_dish : Bool → ℕ → Phase → DishStatus → Order → Order × After
unfolding is_resolved is_complete is_canceled_dish resolved_outcome failed_order settle_order
    after_resolving is_order_terminal
finalize_order_for_dish other_active now phase t o =
    if is_order_terminal o.processing_status
    then (o, nothing)
    else if other_active
    then (o, nothing)
    else after_resolving phase now t o

dish_status_text : DishStatus → String
dish_status_text DishStatus.new = "new"
dish_status_text DishStatus.processing = "processing"
dish_status_text DishStatus.finalizing = "finalizing"
dish_status_text DishStatus.complete = "succeeded"
dish_status_text DishStatus.failed = "failed"
dish_status_text DishStatus.errored = "errored"
dish_status_text DishStatus.timeout = "timeout"
dish_status_text DishStatus.canceled = "canceled"

-- the task of raw_data["scheduled_task_id"]
unfoldable pub finalize_scheduled_task : ℕ → Order → DishStatus → ScheduledTask → ScheduledTask
unfolding is_complete dish_status_text
finalize_scheduled_task now o t task = record task {
  status = if task.is_enabled then TaskStatus.idle else TaskStatus.disabled;
  last_status = some (dish_status_text t);
  last_message = some (
      append "Scheduled task order "
        (append o.req_id (append " finished with " (dish_status_text t))));
  last_order_id = some o.id;
  last_order_req_id = some o.req_id;
  last_completed_at = some now;
  consecutive_failures = if is_complete t then 0 else task.consecutive_failures + 1;
  next_run_at = if task.is_enabled then some (now + max 1 task.run_interval_seconds) else none;
  updated_at = now;
}

-- the order of a dish that a suppression completes
unfoldable pub suppress_order : ℕ → Order → Order
unfolding settle_order
suppress_order now o = settle_order now OrderStatus.complete Outcome.none_needed false o
