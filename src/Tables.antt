-- ===== src/Tables.antt =====
-- The rows of the control plane's database (api/models/models.py), with the columns that the
-- modelled code reads or writes. A column with a check constraint is the data type of its values.
-- Instants are seconds on one UTC clock.
use poundcake.Prelude.{ℕ, String, Bool, Option}
use poundcake.Json.{Value}
use poundcake.Status.{ExecStatus, OrderStatus, Outcome, Phase}

-- dish_ingredients.on_failure: null or one of these
pub data OnFailure : Type 0 where
  continue stop retry : OnFailure

-- dish_ingredients
pub record Row : Type 0 where
  pub id : ℕ
  pub req_id : String
  pub dish_id : ℕ
  pub recipe_ingredient_id : Option ℕ
  pub task_key : Option String
  pub step_order : ℕ
  pub parallel_group : ℕ
  pub depth : ℕ
  pub service_type : String
  pub service_exec : String
  pub service_exec_id : Option String
  pub service_exec_parameters : Option Value
  pub service_exec_expected_secs : Option ℕ
  pub service_exec_timeout : Option ℕ
  pub on_failure : Option OnFailure
  pub expected_outcome : Option Value
  pub actual_outcome : Option Value
  pub service_exec_error : Option String
  pub run_time : Option ℕ
  pub sla_exceeded : Bool
  pub claimed_at : Option ℕ
  pub claimed_by : Option String
  pub status : ExecStatus
  pub start_time : Option ℕ
  pub completed_time : Option ℕ
  pub updated_at : ℕ
  pub deleted : Bool

-- dishes.processing_status
pub data DishStatus : Type 0 where
  new processing finalizing complete failed errored timeout canceled : DishStatus

-- dishes
pub record Dish : Type 0 where
  pub id : ℕ
  pub order_id : Option ℕ
  pub recipe_id : ℕ
  pub run_phase : Phase
  pub processing_status : DishStatus
  pub dish_exec_status : Option ExecStatus
  pub started_at : Option ℕ
  pub completed_at : Option ℕ
  pub run_time_secs : Option ℕ
  pub error_message : Option String
  pub updated_at : ℕ

-- orders; `alert_status` and `severity` have no check constraint
pub record Order : Type 0 where
  pub id : ℕ
  pub req_id : String
  pub fingerprint : String
  pub alert_group_name : String
  pub alert_status : String
  pub processing_status : OrderStatus
  pub is_active : Bool
  pub remediation_outcome : Outcome
  pub clear_timeout_sec : Option ℕ
  pub clear_deadline_at : Option ℕ
  pub clear_timed_out_at : Option ℕ
  pub auto_close_eligible : Bool
  pub severity : Option String
  pub counter : ℕ
  pub labels : Value
  pub raw_data : Option Value
  pub starts_at : ℕ
  pub ends_at : Option ℕ
  pub created_at : ℕ
  pub updated_at : ℕ

-- scheduled_tasks.status
pub data TaskStatus : Type 0 where
  idle queued running disabled : TaskStatus

-- scheduled_tasks.task_type
pub data TaskType : Type 0 where
  plugin_health_check service_execution : TaskType

-- scheduled_tasks.source
pub data TaskSource : Type 0 where
  core plugin_manifest registered : TaskSource

-- scheduled_tasks
pub record ScheduledTask : Type 0 where
  pub id : ℕ
  pub task_key : String
  pub task_type : TaskType
  pub service_type : Option String
  pub service_exec : Option String
  pub source : TaskSource
  pub is_enabled : Bool
  pub run_interval_seconds : ℕ
  pub next_run_at : Option ℕ
  pub priority : ℕ
  pub timeout_seconds : ℕ
  pub task_payload : Option Value
  pub task_parameters : Option Value
  pub expected_outcome : Option Value
  pub status : TaskStatus
  pub last_status : Option String
  pub last_message : Option String
  pub last_order_id : Option ℕ
  pub last_order_req_id : Option String
  pub last_started_at : Option ℕ
  pub last_completed_at : Option ℕ
  pub consecutive_failures : ℕ
  pub created_at : ℕ
  pub updated_at : ℕ
