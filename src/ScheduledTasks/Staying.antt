-- ===== src/ScheduledTasks/Staying.antt =====
-- A task that is not idle stays so until a step frees it.
use poundcake.ScheduledTasks.Changes.{note_order}
use poundcake.Prelude.{
  nat_eq_refl, ℕ, Bool, true, false, Option, none, some, nat_eq, List, ◌≡◌, All, All-update_first,
  inl, inr, Bool-cases, refl, any, arith, ◌&&◌,
}
use poundcake.ScheduledTasks.{TaskCreate, has_id, new_task, note_queued, request_run, is_idle}
use poundcake.Tables.{ScheduledTask}
use poundcake.Cook.Finalize.{finalize_scheduled_task}
use poundcake.ScheduledTasks.Changes.{
  claim_due_scheduled_tasks, apply_task_update, disable_task, queue_task, queue_if, due_batch,
  switch_task, set_fields, is_due,
}
use poundcake.ScheduledTasks.Lifecycle.{Event, Step, Run, frees}
use poundcake.ScheduledTasks.Keeping.{
  Commits-answer, create-Commits, run_now-Commits, update-Commits, disable-Commits, All-map,
}

-- The task with the number k is not idle.
abbrev pub Busy : ℕ → ScheduledTask → Type 0
Busy k t = has_id k t ≡ true → is_idle t.status ≡ false

new_task-Busy : (k id now : ℕ) (p : TaskCreate) → nat_eq id k ≡ false → Busy k (new_task id now p)
unfolding new_task has_id
new_task-Busy k id now p f m = absurd (ground arith)

pub queue_if-Busy :
    (k now : ℕ) (locked : ScheduledTask → Bool) (claimed : List ScheduledTask) (t : ScheduledTask)
    → Busy k t
    → Busy k (queue_if locked now claimed t)
unfolding queue_if queue_task is_idle has_id
queue_if-Busy k now locked claimed t h m =
    elim (Bool-cases (is_due locked now t && any (has_id t.id) claimed)) [
      | inl q ↦ rw q refl
      | inr q ↦ rw q (h (rw q at m))
    ]

pub has_id-same : (t : ScheduledTask) → has_id t.id t ≡ true
unfolding has_id
has_id-same t = nat_eq_refl t.id

pub queued-Busy :
    (now : ℕ) (locked : ScheduledTask → Bool) (claimed : List ScheduledTask) (t : ScheduledTask)
    → is_due locked now t ≡ true
    → any (has_id t.id) claimed ≡ true
    → Busy t.id (queue_if locked now claimed t)
unfolding queue_if queue_task is_idle
queued-Busy now locked claimed t d h m = rw (d, h) refl

switched-Busy :
    (k id now : ℕ) (b : Option Bool) (t : ScheduledTask)
    → frees k (Event.updated id b) ≡ false
    → has_id id t ≡ true
    → Busy k t
    → Busy k (switch_task now b t)
unfolding switch_task is_idle frees has_id
switched-Busy k id now none t f q h m = h m
switched-Busy k id now (some true) t f q h m = absurd (ground arith)
switched-Busy k id now (some false) t f q h m = refl

-- A step that does not free a task that is not idle leaves it so.
Step-Busy :
    (k : ℕ) {e : Event} {s t : List ScheduledTask}
    → Step e s t
    → frees k e ≡ false
    → All (Busy k) s
    → All (Busy k) t
unfolding claim_due_scheduled_tasks queue_if queue_task is_idle apply_task_update disable_task
    note_queued request_run note_order finalize_scheduled_task frees has_id set_fields
Step-Busy k (Step.create accepts templates id now p row tasks after e) f h =
    Commits-answer (All (Busy k)) _ row after e (
      create-Commits (All (Busy k)) tasks accepts templates id now p
        (λ n. (new_task-Busy k id now p f, h)))
Step-Busy k (Step.run_now now id row tasks after e) f h =
    Commits-answer (All (Busy k)) _ row after e (
      run_now-Commits (All (Busy k)) tasks now id
        (All-update_first (has_id id) (note_queued now) (Busy k) tasks (λ t q a. a) h)
        (All-update_first (has_id id) (request_run now) (Busy k) tasks (λ t q a. a) h))
Step-Busy k (Step.claim locked limit now tasks) f h =
    All-map (Busy k) _ tasks
      (λ t a. queue_if-Busy k now locked (due_batch locked limit now tasks) t a) h
Step-Busy k (Step.update accepts templates context now id u row tasks after e) f h =
    Commits-answer (All (Busy k)) _ row after e (
      update-Commits (All (Busy k)) tasks accepts templates context now id u (
        All-update_first (has_id id) (apply_task_update now u) (Busy k) tasks
          (λ t q a. switched-Busy k id now u.is_enabled (set_fields u t) f q a) h))
Step-Busy k (Step.disable now id row tasks after e) f h =
    Commits-answer (All (Busy k)) _ row after e (
      disable-Commits (All (Busy k)) tasks now id
        (All-update_first (has_id id) (disable_task now) (Busy k) tasks (λ t q a n. refl) h))
Step-Busy k (Step.order_intake now id o tasks) f h =
    All-update_first (has_id id) (note_order now o) (Busy k) tasks (λ t q a n. refl) h
Step-Busy k (Step.settle now id o t tasks) f h =
    All-update_first (has_id id) (finalize_scheduled_task now o t) (Busy k) tasks
      (λ x q a n. absurd (ground arith)) h

pub Run-Busy :
    (k : ℕ) {es : List Event} {s t : List ScheduledTask}
    → Run es s t
    → any (frees k) es ≡ false
    → All (Busy k) s
    → All (Busy k) t
Run-Busy k (Run.stop tasks) f h = h
Run-Busy k (Run.next st r) f h = Run-Busy k r (ground arith) (Step-Busy k st (ground arith) h)
