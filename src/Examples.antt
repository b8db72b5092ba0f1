-- ===== src/Examples.antt =====
-- Concrete rows, orders and principals on which the theorems are applied.
use poundcake.Json.{Value, Fields}
use poundcake.Prelude.{false, [], some, none, String, ℕ}
use poundcake.Status.{Outcome, should_keep_active, ExecStatus, OrderStatus}
use poundcake.Tables.{OnFailure, Order, Row}
use poundcake.Auth.{AuthContext, AuthRole}
pub mod Kitchen
pub mod Dishes
pub mod Auth
pub mod PreHeat
pub mod OrderTypes
pub mod Suppressions
pub mod ScheduledTasks
pub mod Dispatch
pub mod Timer
pub mod Incidents
pub mod Groups
pub mod Runner

-- a row of a dish with a number, a depth and a status
abbrev pub row : ℕ → ℕ → ExecStatus → Row
row id depth status = record {
  id = id;
  req_id = "SYSTEM-1";
  dish_id = 7;
  recipe_ingredient_id = none;
  task_key = some "step_1_ping";
  step_order = depth;
  parallel_group = 0;
  depth = depth;
  service_type = "stackstorm";
  service_exec = "run";
  service_exec_id = none;
  service_exec_parameters = none;
  service_exec_expected_secs = some 30;
  service_exec_timeout = some 60;
  on_failure = some OnFailure.stop;
  expected_outcome = none;
  actual_outcome = none;
  service_exec_error = none;
  run_time = none;
  sla_exceeded = false;
  claimed_at = none;
  claimed_by = none;
  status = status;
  start_time = none;
  completed_time = none;
  updated_at = 100;
  deleted = false;
}

abbrev pub order : OrderStatus → String → Order
order status alert_status = record {
  id = 3;
  req_id = "SYSTEM-1";
  fingerprint = "f00";
  alert_group_name = "host-down";
  alert_status = alert_status;
  processing_status = status;
  is_active = should_keep_active status;
  remediation_outcome = Outcome.pending;
  clear_timeout_sec = none;
  clear_deadline_at = none;
  clear_timed_out_at = none;
  auto_close_eligible = false;
  severity = none;
  counter = 1;
  labels = Value.obj Fields.end;
  raw_data = none;
  starts_at = 10;
  ends_at = none;
  created_at = 10;
  updated_at = 10;
}

abbrev pub principal : AuthRole → AuthContext
principal role = record {
  provider = "local";
  subject_id = "s";
  username = "u";
  display_name = none;
  groups = [];
  role = role;
  principal_type = "user";
  is_superuser = false;
  permissions = [];
  principal_id = none;
  session_id = none;
  expires_at = none;
  service_plugin_id = none;
  service_type = some "timer";
  plugin_type = some "internal_plugin";
  credential_scope = some "poundcake_control_plane";
}
