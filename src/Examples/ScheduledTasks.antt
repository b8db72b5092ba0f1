-- ===== src/Examples/ScheduledTasks.antt =====
-- The theorems on scheduled tasks at two tasks.
use poundcake.Tables.{Order, ScheduledTask, TaskStatus, TaskType, TaskSource}
use poundcake.ScheduledTasks.Changes.{
  disable_task, note_order, claim_due_scheduled_tasks, is_due, queue_task, runs_before,
}
use poundcake.ScheduledTasks.{is_idle, is_disabled, has_id}
use poundcake.Prelude.{
  sort_by, ℕ, Bool, none, some, true, false, List, [], ◌∷◌, ◌≡◌, ◌≢◌, ◌≤◌, ◌⊎◌, refl, In, inl, All,
  arith, count_if, length,
}
use poundcake.ScheduledTasks.Lifecycle.{Step, Run}
use poundcake.ScheduledTasks.Keeping.{IsAligned, Step-IsAligned}
use poundcake.ScheduledTasks.Claiming.{claim-most_urgent, claim-exclusive}

abbrev task : ℕ → ℕ → ScheduledTask
task id priority = record {
  id = id;
  task_key = "sync";
  task_type = TaskType.service_execution;
  service_type = some "git";
  service_exec = some "sync";
  source = TaskSource.plugin_manifest;
  is_enabled = true;
  run_interval_seconds = 300;
  next_run_at = some 40;
  priority = priority;
  timeout_seconds = 60;
  task_payload = none;
  task_parameters = none;
  expected_outcome = none;
  status = TaskStatus.idle;
  last_status = none;
  last_message = none;
  last_order_id = none;
  last_order_req_id = none;
  last_started_at = none;
  last_completed_at = none;
  consecutive_failures = 0;
  created_at = 1;
  updated_at = 1;
}

abbrev tasks : List ScheduledTask
tasks = task 1 100 ∷ task 2 50 ∷ []

abbrev unlocked : ScheduledTask → Bool
unlocked t = false

Step-IsAligned_example : All IsAligned (claim_due_scheduled_tasks unlocked 1 50 tasks).1
unfolding is_disabled is_idle
Step-IsAligned_example =
    Step-IsAligned (Step.claim unlocked 1 50 tasks) ((refl, refl), ((refl, refl), tt))

-- A task that an operator has disabled is queued by the intake of its order.
queued_while_disabled :
    (o : Order)
    → let after = note_order 60 o (disable_task 55 (queue_task 50 (task 2 50))) in
      (after.is_enabled ≡ false) × (after.status ≡ TaskStatus.queued)
unfolding note_order disable_task queue_task
queued_while_disabled o = (refl, refl)

claim-most_urgent_example :
    (length (claim_due_scheduled_tasks unlocked 1 50 tasks).0 ≤ 1)
    × ((x : ScheduledTask)
        → In x (claim_due_scheduled_tasks unlocked 1 50 tasks).0
        → (z : ScheduledTask) × In z tasks
          × (is_due unlocked 50 z ≡ true)
          × (x ≡ queue_task 50 z)
          × ((w : ScheduledTask)
              → In w tasks
              → is_due unlocked 50 w ≡ true
              → In (queue_task 50 w) (claim_due_scheduled_tasks unlocked 1 50 tasks).0
                ⊎ (runs_before w z ≡ false)))
claim-most_urgent_example = claim-most_urgent unlocked 1 50 tasks

unique : (k : ℕ) → count_if (has_id k) tasks ≤ 1
unfolding count_if has_id
unique k = ground arith

-- The task 2 is claimed, then the task 1; the second claim does not take the task 2.
claim-exclusive_example : (queue_task 60 (task 1 100)).id ≢ (queue_task 50 (task 2 50)).id
unfolding claim_due_scheduled_tasks sort_by
claim-exclusive_example =
    claim-exclusive unlocked unlocked 1 25 50 60 [] tasks
      (claim_due_scheduled_tasks unlocked 1 50 tasks).1 (queue_task 50 (task 2 50))
      (queue_task 60 (task 1 100)) unique (inl refl) (Run.stop _) refl (inl refl)
