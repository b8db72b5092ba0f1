-- ===== src/ScheduledTasks.antt =====
-- The scheduled tasks' control plane (api/api/scheduled_tasks.py): the registration of a task, the
-- claim of those that are due, and the requests of operators. The contract's validation of a payload
-- against a template's schema is a parameter. A request that sets a column to null that may not be is
-- refused by the database and not modelled, and the labels that a response derives are left out.
-- Lifecycle has these requests, the intake of a task's order and its end as steps; the proofs are in
-- Staying, Claiming and Keeping.
use poundcake.Prelude.{
  ℕ, String, Bool, true, false, not, ◌&&◌, ◌||◌, Option, none, some, str_eq, ltb, leb, nat_eq, List,
  [], ◌∷◌, if◌then◌else◌, keep, any, first, max, ◌+◌, sort_by, take, map, update_first,
}
use poundcake.Prelude.Text.{strip, lower, text_or_empty}
use poundcake.Json.{Value, Fields, fields_of, null, obj, end, field, set_field}
use poundcake.Segments.{or_value}
use poundcake.Status.{or_text}
use poundcake.Auth.{AuthContext, AuthRole, admin}
use poundcake.Tables.{ScheduledTask, TaskStatus, TaskType, TaskSource}
pub mod Changes
pub mod Lifecycle
pub mod Keeping
pub mod Staying
pub mod Claiming

-- the ingredients that describe a service's operation
pub record Template : Type 0 where
  pub service_type : String
  pub service_exec : String
  pub is_active : Bool
  pub deleted : Bool
  pub payload_schema : Option Value
  pub service_exec_parameters : Option Value

-- Whether validate_service_payload_for_operation accepts the payload for a schema and parameters.
abbrev pub Contract : Type 0
Contract = Value → Option Value → Option Fields → Bool

-- an HTTPException with its status code, or the task of the response and the tasks that are committed
pub data Answer : Type 0 where
  http_error : ℕ → Answer
  answer : ScheduledTask → List ScheduledTask → Answer

-- `d.update(e)`
unfoldable pub update_fields : Fields → Fields → Fields
unfolding set_field
update_fields d end = d
update_fields d (field k v rest) = update_fields (set_field k v d) rest

-- `d or None`
abbrev filled : Fields → Option Fields
filled end = none
filled (field k v rest) = some (field k v rest)

unfoldable pub parameters_for : Option Value → Template → Option Fields
unfolding update_fields
parameters_for task_parameters t = filled (
    update_fields (fields_of (or_value t.service_exec_parameters null))
      (fields_of (or_value task_parameters null)))

unfoldable pub is_template_for : String → String → Template → Bool
is_template_for service_type service_exec t =
    str_eq t.service_type service_type
    && str_eq t.service_exec service_exec
    && t.is_active
    && not t.deleted

abbrev is_empty {ℓ} : {A : Type ℓ} → List A → Bool
is_empty [] = true
is_empty (x ∷ xs) = false

-- `_validate_scheduled_task_payload` on the values that it finds in the payload or else in the row:
-- the status code of the HTTPException, none where it returns
unfoldable pub payload_error :
    Contract
    → List Template
    → TaskType
    → Option String
    → Option String
    → Option Value
    → Option Value
    → Option ℕ
unfolding parameters_for is_template_for
payload_error accepts templates TaskType.plugin_health_check type exec payload parameters = none
payload_error accepts templates TaskType.service_execution type exec payload parameters =
    let service_type = lower (strip (text_or_empty type)) in
    let service_exec = strip (text_or_empty exec) in
    let found = keep (is_template_for service_type service_exec) templates in
    if str_eq service_type "" || str_eq service_exec ""
    then some 400
    else if is_empty found
    then some 400
    else if any
        (λ t. accepts (or_value payload (obj end)) t.payload_schema (parameters_for parameters t))
        found
    then none
    else some 400

-- ScheduledTaskCreate
pub record TaskCreate : Type 0 where
  pub task_key : String
  pub task_type : TaskType
  pub service_type : Option String
  pub service_exec : Option String
  pub source : TaskSource
  pub is_enabled : Bool
  pub run_interval_seconds : ℕ
  pub next_run_at : Option ℕ
  pub priority : ℕ
  pub timeout_seconds : ℕ
  pub task_payload : Option Value
  pub task_parameters : Option Value
  pub expected_outcome : Option Value

-- `s or None`
abbrev or_null : String → Option String
or_null s = if str_eq s "" then none else some s

unfoldable pub new_task : ℕ → ℕ → TaskCreate → ScheduledTask
new_task id now p = record {
  id = id;
  task_key = p.task_key;
  task_type = p.task_type;
  service_type = or_null (lower (strip (text_or_empty p.service_type)));
  service_exec = p.service_exec;
  source = p.source;
  is_enabled = p.is_enabled;
  run_interval_seconds = p.run_interval_seconds;
  next_run_at = some (or_value p.next_run_at now);
  priority = p.priority;
  timeout_seconds = p.timeout_seconds;
  task_payload = p.task_payload;
  task_parameters = p.task_parameters;
  expected_outcome = p.expected_outcome;
  status = if p.is_enabled then TaskStatus.idle else TaskStatus.disabled;
  last_status = none;
  last_message = none;
  last_order_id = none;
  last_order_req_id = none;
  last_started_at = none;
  last_completed_at = none;
  consecutive_failures = 0;
  created_at = now;
  updated_at = now;
}

unfoldable pub has_key : String → ScheduledTask → Bool
has_key key t = str_eq t.task_key key

-- `create_scheduled_task`; id is the number of the new row
unfoldable pub create_scheduled_task :
    Contract → List Template → ℕ → ℕ → TaskCreate → List ScheduledTask → Answer
unfolding payload_error new_task has_key
create_scheduled_task accepts templates id now p tasks =
    elim (payload_error accepts templates p.task_type p.service_type p.service_exec p.task_payload
      p.task_parameters) [
        | some code ↦ http_error code
        | none ↦
            if any (has_key p.task_key) tasks
            then http_error 409
            else answer (new_task id now p) (new_task id now p ∷ tasks)
      ]

unfoldable pub has_id : ℕ → ScheduledTask → Bool
has_id id t = nat_eq t.id id

-- the row of a request is read by its id, changed and committed
unfoldable pub write_task :
    ScheduledTask → (ScheduledTask → ScheduledTask) → List ScheduledTask → Answer
unfolding has_id
write_task row f tasks = answer (f row) (update_first (has_id row.id) f tasks)

unfoldable pub is_idle : TaskStatus → Bool
is_idle TaskStatus.idle = true
is_idle _ = false

unfoldable pub is_queued : TaskStatus → Bool
is_queued TaskStatus.queued = true
is_queued _ = false

unfoldable pub is_disabled : TaskStatus → Bool
is_disabled TaskStatus.disabled = true
is_disabled _ = false

unfoldable pub is_plugin_manifest : TaskSource → Bool
is_plugin_manifest TaskSource.plugin_manifest = true
is_plugin_manifest _ = false

unfoldable pub supports_run_now : TaskType → Bool
supports_run_now TaskType.plugin_health_check = true
supports_run_now TaskType.service_execution = true

unfoldable pub is_blank : Option String → Bool
is_blank s = str_eq (strip (text_or_empty s)) ""

unfoldable pub note_queued : ℕ → ScheduledTask → ScheduledTask
note_queued now t = record t {
  last_message = some "Run already queued by Dishwasher";
  updated_at = now;
}

unfoldable pub request_run : ℕ → ScheduledTask → ScheduledTask
request_run now t = record t {
  next_run_at = some now;
  last_message = some "Run requested by operator";
  updated_at = now;
}

unfoldable pub run_now_row : ℕ → List ScheduledTask → ScheduledTask → Answer
unfolding is_plugin_manifest supports_run_now is_blank is_queued is_idle note_queued request_run
    write_task
run_now_row now tasks row =
    if not (is_plugin_manifest row.source)
    then http_error 400
    else if not (supports_run_now row.task_type)
    then http_error 400
    else if not row.is_enabled
    then http_error 400
    else if is_blank row.service_type || is_blank row.service_exec
    then http_error 400
    else if is_queued row.status
    then write_task row (note_queued now) tasks
    else if not (is_idle row.status)
    then http_error 409
    else write_task row (request_run now) tasks

abbrev pub by_task : (ScheduledTask → Answer) → Option ScheduledTask → Answer
by_task f none = http_error 404
by_task f (some row) = f row

-- `request_scheduled_task_run_now`
unfoldable pub request_scheduled_task_run_now : ℕ → ℕ → List ScheduledTask → Answer
unfolding has_id run_now_row
request_scheduled_task_run_now now id tasks =
    by_task (run_now_row now tasks) (first (has_id id) tasks)
