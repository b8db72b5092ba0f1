-- ===== src/ScheduledTasks/Lifecycle.antt =====
-- The life of the scheduled tasks as a step relation: each step is one request of
-- api/api/scheduled_tasks.py that is answered, the intake of the order that a task injects
-- (api/services/order_intake.py, `create_manual_order`), or the end of that order (api/api/cook.py,
-- `_finalize_scheduled_task_for_order`). The tasks that plugins register at their start
-- (api/services/plugin_bootstrap.py) and the two operations of api/services/plugin_operations.py that
-- write tasks are no steps.
use poundcake.Prelude.{ℕ, Bool, true, false, Option, some, nat_eq, List, [], ◌∷◌, ◌≡◌, update_first}
use poundcake.Auth.{AuthContext}
use poundcake.Tables.{ScheduledTask, Order, DishStatus}
use poundcake.Cook.Finalize.{finalize_scheduled_task}
use poundcake.ScheduledTasks.{
  Contract, Template, answer, TaskCreate, create_scheduled_task, request_scheduled_task_run_now,
  has_id,
}
use poundcake.ScheduledTasks.Changes.{
  TaskUpdate, claim_due_scheduled_tasks, update_scheduled_task, disable_scheduled_task, note_order,
}

-- What happens, with the task that it is about.
pub data Event : Type 0 where
  created : ℕ → Event
  requested : ℕ → Event
  claimed : Event
  updated : ℕ → Option Bool → Event
  disabled : ℕ → Event
  ordered : ℕ → Event
  settled : ℕ → Event

pub data Step : Event → List ScheduledTask → List ScheduledTask → Type 0 where
  create :
      (accepts : Contract) (templates : List Template) (id now : ℕ) (p : TaskCreate)
      (row : ScheduledTask) (tasks after : List ScheduledTask)
      → create_scheduled_task accepts templates id now p tasks ≡ answer row after
      → Step (Event.created id) tasks after
  run_now :
      (now id : ℕ) (row : ScheduledTask) (tasks after : List ScheduledTask)
      → request_scheduled_task_run_now now id tasks ≡ answer row after
      → Step (Event.requested id) tasks after
  claim :
      (locked : ScheduledTask → Bool) (limit now : ℕ) (tasks : List ScheduledTask)
      → Step Event.claimed tasks (claim_due_scheduled_tasks locked limit now tasks).1
  update :
      (accepts : Contract) (templates : List Template) (context : AuthContext) (now id : ℕ)
      (u : TaskUpdate) (row : ScheduledTask) (tasks after : List ScheduledTask)
      → update_scheduled_task accepts templates context now id u tasks ≡ answer row after
      → Step (Event.updated id u.is_enabled) tasks after
  disable :
      (now id : ℕ) (row : ScheduledTask) (tasks after : List ScheduledTask)
      → disable_scheduled_task now id tasks ≡ answer row after
      → Step (Event.disabled id) tasks after
  order_intake :
      (now id : ℕ) (o : Order) (tasks : List ScheduledTask)
      → Step (Event.ordered id) tasks (update_first (has_id id) (note_order now o) tasks)
  settle :
      (now id : ℕ) (o : Order) (t : DishStatus) (tasks : List ScheduledTask)
      → Step
          (Event.settled id)
          tasks
          (update_first (has_id id) (finalize_scheduled_task now o t) tasks)

-- the steps of a list of events, the first event first
pub data Run : List Event → List ScheduledTask → List ScheduledTask → Type 0 where
  stop : (tasks : List ScheduledTask) → Run [] tasks tasks
  next :
      {e : Event} {es : List Event} {s t u : List ScheduledTask}
      → Step e s t
      → Run es t u
      → Run (e ∷ es) s u

-- The events after which a task may be idle that was not: its creation, a request that sets is_enabled
-- and the end of its order.
unfoldable pub frees : ℕ → Event → Bool
frees k (Event.created id) = nat_eq id k
frees k (Event.updated id (some true)) = nat_eq id k
frees k (Event.settled id) = nat_eq id k
frees k _ = false
