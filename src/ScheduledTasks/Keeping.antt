-- ===== src/ScheduledTasks/Keeping.antt =====
-- What the answers of the requests commit, and what the steps of the scheduled tasks keep.
use poundcake.ScheduledTasks.{
  is_queued, is_blank, supports_run_now, is_plugin_manifest, Contract, Template, Answer, answer,
  http_error, TaskCreate, create_scheduled_task, request_scheduled_task_run_now, has_id, new_task,
  note_queued, request_run, write_task, run_now_row, by_task, is_idle, is_disabled, has_key,
}
use poundcake.Prelude.{
  ◌||◌, ◌&&◌, ℕ, Bool, true, false, not, Option, none, some, List, [], ◌∷◌, ◌≡◌, update_first, All,
  All-update_first, inl, inr, Bool-cases, Option-cases, refl, subst, first, any, map, arith,
  nat_eq_iff, if◌then◌else◌,
}
use poundcake.ScheduledTasks.Changes.{
  only_operator_fields, may_update_all, is_due, TaskUpdate, claim_due_scheduled_tasks,
  update_scheduled_task, disable_scheduled_task, apply_task_update, disable_task, queue_task,
  queue_if, update_row, due_batch, switch_task, set_fields, note_order,
}
use poundcake.Auth.{AuthContext}
use poundcake.Tables.{ScheduledTask, Order, DishStatus}
use poundcake.Cook.Finalize.{finalize_scheduled_task}
use poundcake.ScheduledTasks.Lifecycle.{Event, Step}

-- a predicate of the tasks that an answer commits
unfoldable pub Commits : (List ScheduledTask → Type 0) → Answer → Type 0
Commits R (http_error code) = Unit
Commits R (answer row after) = R after

Commits-error : (R : List ScheduledTask → Type 0) (code : ℕ) → Commits R (http_error code)
unfolding Commits
Commits-error R code = tt

pub Commits-answer :
    (R : List ScheduledTask → Type 0) (a : Answer) (row : ScheduledTask)
    (after : List ScheduledTask)
    → a ≡ answer row after
    → Commits R a
    → R after
unfolding Commits
Commits-answer R a row after e h = subst (Commits R) e h

Commits-if :
    (R : List ScheduledTask → Type 0) (b : Bool) (x y : Answer)
    → Commits R x
    → Commits R y
    → Commits R (if b then x else y)
Commits-if R true x y h k = h
Commits-if R false x y h k = k

refuse_if :
    (R : List ScheduledTask → Type 0) (b : Bool) (code : ℕ) (x : Answer)
    → Commits R x
    → Commits R (if b then http_error code else x)
refuse_if R b code x h = Commits-if R b _ _ (Commits-error R code) h

accepted-Commits :
    (R : List ScheduledTask → Type 0) (o : Option ℕ) (x : Answer)
    → Commits R x
    → Commits R (elim o [ some code ↦ http_error code | none ↦ x ])
accepted-Commits R none x h = h
accepted-Commits R (some code) x h = Commits-error R code

first-passes : {A : Type 0} (p : A → Bool) (xs : List A) (x : A) → first p xs ≡ some x → p x ≡ true
first-passes p [] x h = absurd (let n : Option.none ≡ some x = h in cc)
first-passes p (y ∷ ys) x h = elim (Bool-cases (p y)) [
  | inl e ↦ let same : y ≡ x = (let q = rw e at h in cc) in subst (λ z. p z ≡ true) same e
  | inr e ↦ first-passes p ys x (rw e at h)
]

pub All-map :
    {A : Type 0} (P : A → Type 0) (f : A → A) (xs : List A)
    → ((x : A) → P x → P (f x))
    → All P xs
    → All P (map f xs)
All-map P f [] h a = tt
All-map P f (x ∷ xs) h a = (h x a.0, All-map P f xs h a.1)

module _ (R : List ScheduledTask → Type 0) (tasks : List ScheduledTask) where
  by_task-Commits :
      (f : ScheduledTask → Answer) (id : ℕ)
      → ((row : ScheduledTask) → row.id ≡ id → Commits R (f row))
      → Commits R (by_task f (first (has_id id) tasks))
  unfolding has_id
  by_task-Commits f id h = elim (Option-cases (first (has_id id) tasks)) [
    | inl e ↦ rw e (Commits-error R 404)
    | inr (row, e) ↦ rw e (h row ((nat_eq_iff row.id id).0 (first-passes (has_id id) tasks row e)))
  ]

  pub create-Commits :
      (accepts : Contract) (templates : List Template) (id now : ℕ) (p : TaskCreate)
      → (any (has_key p.task_key) tasks ≡ false → R (new_task id now p ∷ tasks))
      → Commits R (create_scheduled_task accepts templates id now p tasks)
  unfolding create_scheduled_task Commits
  create-Commits accepts templates id now p h =
      accepted-Commits R _ _ (created_if (any (has_key p.task_key) tasks) h)
    where
      created_if :
          (b : Bool)
          → (b ≡ false → R (new_task id now p ∷ tasks))
          → Commits R
              (if b then http_error 409 else answer (new_task id now p) (new_task id now p ∷ tasks))
      created_if true g = Commits-error R 409
      created_if false g = g refl

  write-Commits :
      (row : ScheduledTask) (id : ℕ) (f : ScheduledTask → ScheduledTask)
      → row.id ≡ id
      → R (update_first (has_id id) f tasks)
      → Commits R (write_task row f tasks)
  unfolding write_task Commits
  write-Commits row id f e h = rw e h

  pub run_now-Commits :
      (now id : ℕ)
      → R (update_first (has_id id) (note_queued now) tasks)
      → R (update_first (has_id id) (request_run now) tasks)
      → Commits R (request_scheduled_task_run_now now id tasks)
  unfolding request_scheduled_task_run_now run_now_row
  run_now-Commits now id h k = by_task-Commits (run_now_row now tasks) id (λ row e.
      refuse_if R (not (is_plugin_manifest row.source)) 400 _ (
        refuse_if R (not (supports_run_now row.task_type)) 400 _ (
          refuse_if R (not row.is_enabled) 400 _ (
            refuse_if R (is_blank row.service_type || is_blank row.service_exec) 400 _ (
              Commits-if R (is_queued row.status) _ _ (write-Commits row id (note_queued now) e h) (
                refuse_if R (not (is_idle row.status)) 409 _
                  (write-Commits row id (request_run now) e k)))))))

  pub update-Commits :
      (accepts : Contract) (templates : List Template) (context : AuthContext) (now id : ℕ)
      (u : TaskUpdate)
      → R (update_first (has_id id) (apply_task_update now u) tasks)
      → Commits R (update_scheduled_task accepts templates context now id u tasks)
  unfolding update_scheduled_task update_row
  update-Commits accepts templates context now id u h =
      by_task-Commits (update_row accepts templates context now u tasks) id (λ row e.
        refuse_if R (not (may_update_all context) && not (only_operator_fields u)) 403 _
          (accepted-Commits R _ _ (write-Commits row id (apply_task_update now u) e h)))

  pub disable-Commits :
      (now id : ℕ)
      → R (update_first (has_id id) (disable_task now) tasks)
      → Commits R (disable_scheduled_task now id tasks)
  unfolding disable_scheduled_task
  disable-Commits now id h =
      by_task-Commits _ id (λ row e. write-Commits row id (disable_task now) e h)

-- A task that is idle is enabled, and a task with the status disabled is not.
abbrev pub IsAligned : ScheduledTask → Type 0
IsAligned t =
    ((is_idle t.status && not t.is_enabled) ≡ false)
    × ((is_disabled t.status && t.is_enabled) ≡ false)

new_task-IsAligned : (id now : ℕ) (p : TaskCreate) → IsAligned (new_task id now p)
unfolding new_task is_disabled is_idle
new_task-IsAligned id now p = ground arith

switched-IsAligned :
    (now : ℕ) (b : Option Bool) (u : TaskUpdate) (t : ScheduledTask)
    → IsAligned t
    → u.is_enabled ≡ b
    → IsAligned (switch_task now b (set_fields u t))
unfolding switch_task set_fields is_disabled is_idle
switched-IsAligned now none u t h e = rw e h
switched-IsAligned now (some true) u t h e = rw e (refl, refl)
switched-IsAligned now (some false) u t h e = rw e (refl, refl)

queue_if-IsAligned :
    (locked : ScheduledTask → Bool) (now : ℕ) (claimed : List ScheduledTask) (t : ScheduledTask)
    → IsAligned t
    → IsAligned (queue_if locked now claimed t)
unfolding queue_if is_due queue_task is_disabled is_idle
queue_if-IsAligned locked now claimed t h = ground arith

finalized-IsAligned :
    (now : ℕ) (o : Order) (d : DishStatus) (t : ScheduledTask)
    → IsAligned (finalize_scheduled_task now o d t)
unfolding finalize_scheduled_task is_disabled is_idle
finalized-IsAligned now o d t = ground arith

-- Each step of the scheduled tasks (a creation, a run-now request, a claim, a change, a disabling, the
-- intake of a task's order and its end) keeps that every idle task is enabled and that no task with
-- the status disabled is. A queued task may be either.
pub Step-IsAligned :
    {e : Event} {s t : List ScheduledTask} → Step e s t → All IsAligned s → All IsAligned t
unfolding claim_due_scheduled_tasks queue_if queue_task is_disabled is_idle apply_task_update
    disable_task note_queued request_run note_order
Step-IsAligned (Step.create accepts templates id now p row tasks after e) h =
    Commits-answer (All IsAligned) _ row after e (
      create-Commits (All IsAligned) tasks accepts templates id now p
        (λ k. (new_task-IsAligned id now p, h)))
Step-IsAligned (Step.run_now now id row tasks after e) h =
    Commits-answer (All IsAligned) _ row after e (
      run_now-Commits (All IsAligned) tasks now id
        (All-update_first (has_id id) (note_queued now) IsAligned tasks (λ t q a. a) h)
        (All-update_first (has_id id) (request_run now) IsAligned tasks (λ t q a. a) h))
Step-IsAligned (Step.claim locked limit now tasks) h =
    All-map IsAligned _ tasks
      (λ t a. queue_if-IsAligned locked now (due_batch locked limit now tasks) t a) h
Step-IsAligned (Step.update accepts templates context now id u row tasks after e) h =
    Commits-answer (All IsAligned) _ row after e (
      update-Commits (All IsAligned) tasks accepts templates context now id u (
        All-update_first (has_id id) (apply_task_update now u) IsAligned tasks
          (λ t q a. switched-IsAligned now u.is_enabled u t a refl) h))
Step-IsAligned (Step.disable now id row tasks after e) h =
    Commits-answer (All IsAligned) _ row after e (
      disable-Commits (All IsAligned) tasks now id
        (All-update_first (has_id id) (disable_task now) IsAligned tasks (λ t q a. (refl, refl)) h))
Step-IsAligned (Step.order_intake now id o tasks) h =
    All-update_first (has_id id) (note_order now o) IsAligned tasks (λ t q a. (refl, refl)) h
Step-IsAligned (Step.settle now id o t tasks) h =
    All-update_first (has_id id) (finalize_scheduled_task now o t) IsAligned tasks
      (λ x q a. finalized-IsAligned now o t x) h
