-- ===== src/ScheduledTasks/Changes.antt =====
-- The claim of due tasks, the changes of a task and its disabling (api/api/scheduled_tasks.py).
use poundcake.Prelude.{
  ℕ, Bool, true, false, not, ◌&&◌, ◌||◌, Option, none, some, ltb, leb, nat_eq, List, if◌then◌else◌,
  keep, any, first, max, ◌+◌, sort_by, take, map,
}
use poundcake.Json.{Value}
use poundcake.Segments.{or_value}
use poundcake.Auth.{AuthContext, AuthRole, admin}
use poundcake.Tables.{Order, ScheduledTask, TaskStatus}
use poundcake.ScheduledTasks.{
  Contract, Template, Answer, http_error, payload_error, has_id, is_idle, write_task, by_task,
}

-- `next_run_at is not null and next_run_at <= now`
abbrev pub is_at : ℕ → Option ℕ → Bool
is_at now none = false
is_at now (some t) = leb t now

-- the WHERE of the claim, and the rows that another transaction does not hold
unfoldable pub is_due : (ScheduledTask → Bool) → ℕ → ScheduledTask → Bool
unfolding is_idle
is_due locked now t = t.is_enabled && is_idle t.status && is_at now t.next_run_at && not (locked t)

-- ORDER BY priority, next_run_at, id, of rows that have an instant
unfoldable pub runs_before : ScheduledTask → ScheduledTask → Bool
runs_before a b =
    ltb a.priority b.priority
    || nat_eq a.priority b.priority
      && (ltb (or_value a.next_run_at 0) (or_value b.next_run_at 0)
          || nat_eq (or_value a.next_run_at 0) (or_value b.next_run_at 0) && ltb a.id b.id)

unfoldable pub queue_task : ℕ → ScheduledTask → ScheduledTask
queue_task now t = record t {
  status = TaskStatus.queued;
  last_started_at = some now;
  updated_at = now;
}

unfoldable pub due_batch : (ScheduledTask → Bool) → ℕ → ℕ → List ScheduledTask → List ScheduledTask
unfolding is_due runs_before
due_batch locked limit now tasks = take limit (sort_by runs_before (keep (is_due locked now) tasks))

-- a row that the query returned, by its primary key
unfoldable pub queue_if :
    (ScheduledTask → Bool) → ℕ → List ScheduledTask → ScheduledTask → ScheduledTask
unfolding queue_task has_id is_due
queue_if locked now claimed t =
    if is_due locked now t && any (has_id t.id) claimed then queue_task now t else t

-- `claim_due_scheduled_tasks`: the tasks of the response and those that are committed
unfoldable pub claim_due_scheduled_tasks :
    (ScheduledTask → Bool) → ℕ → ℕ → List ScheduledTask → List ScheduledTask × List ScheduledTask
unfolding due_batch queue_task queue_if
claim_due_scheduled_tasks locked limit now tasks =
    let claimed = due_batch locked limit now tasks in
    (map (queue_task now) claimed, map (queue_if locked now claimed) tasks)

-- ScheduledTaskUpdate: a field is none where the request does not set it
pub record TaskUpdate : Type 0 where
  pub is_enabled : Option Bool
  pub run_interval_seconds : Option ℕ
  pub next_run_at : Option (Option ℕ)
  pub priority : Option ℕ
  pub timeout_seconds : Option ℕ
  pub task_payload : Option (Option Value)
  pub task_parameters : Option (Option Value)
  pub expected_outcome : Option (Option Value)

abbrev unset {ℓ} : {A : Type ℓ} → Option A → Bool
unset none = true
unset (some a) = false

-- OPERATOR_SCHEDULED_TASK_UPDATE_FIELDS are the two that are not listed
unfoldable pub only_operator_fields : TaskUpdate → Bool
only_operator_fields u =
    unset u.next_run_at
    && unset u.priority
    && unset u.timeout_seconds
    && unset u.task_payload
    && unset u.task_parameters
    && unset u.expected_outcome

is_admin_role : AuthRole → Bool
is_admin_role admin = true
is_admin_role _ = false

unfoldable pub may_update_all : AuthContext → Bool
unfolding is_admin_role
may_update_all context = context.is_superuser || is_admin_role context.role

-- the loop over the fields that the request sets
unfoldable pub set_fields : TaskUpdate → ScheduledTask → ScheduledTask
set_fields u t = record t {
  is_enabled = or_value u.is_enabled t.is_enabled;
  run_interval_seconds = or_value u.run_interval_seconds t.run_interval_seconds;
  next_run_at = or_value u.next_run_at t.next_run_at;
  priority = or_value u.priority t.priority;
  timeout_seconds = or_value u.timeout_seconds t.timeout_seconds;
  task_payload = or_value u.task_payload t.task_payload;
  task_parameters = or_value u.task_parameters t.task_parameters;
  expected_outcome = or_value u.expected_outcome t.expected_outcome;
}

-- what a request that sets is_enabled does to the status and the instant of the next run
unfoldable pub switch_task : ℕ → Option Bool → ScheduledTask → ScheduledTask
switch_task now none t = t
switch_task now (some true) t = record t {
  status = TaskStatus.idle;
  next_run_at = some (or_value t.next_run_at (now + max 1 t.run_interval_seconds));
}
switch_task now (some false) t = record t { status = TaskStatus.disabled }

unfoldable pub apply_task_update : ℕ → TaskUpdate → ScheduledTask → ScheduledTask
unfolding set_fields switch_task
apply_task_update now u t = record (switch_task now u.is_enabled (set_fields u t)) {
  updated_at = now;
}

-- the payload that is validated: that of the request, or the row's
abbrev or_stored : Option (Option Value) → Option Value → Option Value
or_stored none stored = stored
or_stored (some none) stored = stored
or_stored (some (some v)) stored = some v

unfoldable pub update_row :
    Contract
    → List Template
    → AuthContext
    → ℕ
    → TaskUpdate
    → List ScheduledTask
    → ScheduledTask
    → Answer
unfolding only_operator_fields may_update_all payload_error apply_task_update write_task
update_row accepts templates context now u tasks row =
    if not (may_update_all context) && not (only_operator_fields u)
    then http_error 403
    else elim (payload_error accepts templates row.task_type row.service_type row.service_exec
        (or_stored u.task_payload row.task_payload)
        (or_stored u.task_parameters row.task_parameters)) [
          | some code ↦ http_error code
          | none ↦ write_task row (apply_task_update now u) tasks
        ]

-- `update_scheduled_task`
unfoldable pub update_scheduled_task :
    Contract → List Template → AuthContext → ℕ → ℕ → TaskUpdate → List ScheduledTask → Answer
unfolding has_id update_row
update_scheduled_task accepts templates context now id u tasks =
    by_task (update_row accepts templates context now u tasks) (first (has_id id) tasks)

unfoldable pub disable_task : ℕ → ScheduledTask → ScheduledTask
disable_task now t = record t { is_enabled = false; status = TaskStatus.disabled; updated_at = now }

-- what the intake of an order does to the task of its raw_data["scheduled_task_id"]
-- (api/services/order_intake.py, `create_manual_order`), whether the task is enabled or not
unfoldable pub note_order : ℕ → Order → ScheduledTask → ScheduledTask
note_order now o t = record t {
  status = TaskStatus.queued;
  last_order_id = some o.id;
  last_order_req_id = some o.req_id;
  updated_at = now;
}

-- `disable_scheduled_task`
unfoldable pub disable_scheduled_task : ℕ → ℕ → List ScheduledTask → Answer
unfolding has_id disable_task write_task
disable_scheduled_task now id tasks =
    by_task (λ row. write_task row (disable_task now) tasks) (first (has_id id) tasks)
