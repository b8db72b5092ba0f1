-- ===== src/ScheduledTasks/Claiming.antt =====
-- The claim takes the most urgent of the due tasks, and a claimed task is not claimed again before
-- something frees it.
use poundcake.Prelude.{
  map-In, take-Ascends, length-map, length-take, take-In, ◌∙◌, ◌≢◌, ℕ, Bool, true, false, nat_eq,
  List, [], ◌∷◌, ◌≡◌, All, inl, inr, ◌⊎◌, Bool-cases, refl, subst, sym, ap, any, map, arith,
  nat_eq_iff, count_if, ◌≤◌, In, All-In, length, keep, sort_by, sort_by-In, In-sort_by,
  sort_by-Ascends, keep-In, In-keep, any-true, In-map,
}
use poundcake.ScheduledTasks.{has_id}
use poundcake.Tables.{ScheduledTask}
use poundcake.ScheduledTasks.Staying.{Busy, queue_if-Busy, has_id-same, queued-Busy, Run-Busy}
use poundcake.ScheduledTasks.Changes.{
  claim_due_scheduled_tasks, queue_task, queue_if, due_batch, is_due, runs_before,
}
use poundcake.ScheduledTasks.Lifecycle.{Event, Run, frees}

counted :
    {A : Type 0} (p : A → Bool) (xs : List A) (x : A) → In x xs → p x ≡ true → 1 ≤ count_if p xs
unfolding count_if
counted p [] x m h = absurd m
counted p (y ∷ ys) x (inl e) h = let here = subst (λ z. p z ≡ true) e h in rw here (omega arith)
counted p (y ∷ ys) x (inr m) h = let later = counted p ys x m h in ground arith

one_passes :
    {A : Type 0} (p : A → Bool) (xs : List A) (x y : A)
    → count_if p xs ≤ 1
    → In x xs
    → In y xs
    → p x ≡ true
    → p y ≡ true
    → x ≡ y
unfolding count_if
one_passes p [] x y h i j a b = absurd i
one_passes p (z ∷ zs) x y h (inl e) (inl f) a b = e ∙ sym f
one_passes p (z ∷ zs) x y h (inl e) (inr j) a b =
    absurd (let none_left = counted p zs y j b in ground arith)
one_passes p (z ∷ zs) x y h (inr i) (inl f) a b =
    absurd (let none_left = counted p zs x i a in ground arith)
one_passes p (z ∷ zs) x y h (inr i) (inr j) a b = one_passes p zs x y (ground arith) i j a b

All-map-In :
    {A : Type 0} (P : A → Type 0) (f : A → A) (xs : List A)
    → ((x : A) → In x xs → P (f x))
    → All P (map f xs)
All-map-In P f [] h = tt
All-map-In P f (x ∷ xs) h = (h x (inl refl), All-map-In P f xs (λ y m. h y (inr m)))

module _ (locked : ScheduledTask → Bool) (limit now : ℕ) (tasks : List ScheduledTask) where
  abbrev batch : List ScheduledTask
  batch = due_batch locked limit now tasks

  batch-due : (z : ScheduledTask) → In z batch → In z tasks × (is_due locked now z ≡ true)
  unfolding due_batch
  batch-due z m =
      keep-In (is_due locked now) tasks z (sort_by-In runs_before _ z (take-In limit _ z m))

  runs_before-asym : (a b : ScheduledTask) → runs_before a b ≡ true → runs_before b a ≡ false
  unfolding runs_before
  runs_before-asym a b h = ground arith

  runs_before-not_later :
      (a b c : ScheduledTask)
      → runs_before b a ≡ false
      → runs_before c b ≡ false
      → runs_before c a ≡ false
  unfolding runs_before
  runs_before-not_later a b c h k = ground arith

  -- A claim answers with at most as many tasks as the limit, each a task that was due, and no due
  -- task that it leaves out runs before one that it takes (by priority, next_run_at and id).
  pub claim-most_urgent :
      (length (claim_due_scheduled_tasks locked limit now tasks).0 ≤ limit)
      × ((x : ScheduledTask)
          → In x (claim_due_scheduled_tasks locked limit now tasks).0
          → (z : ScheduledTask) × In z tasks
            × (is_due locked now z ≡ true)
            × (x ≡ queue_task now z)
            × ((w : ScheduledTask)
                → In w tasks
                → is_due locked now w ≡ true
                → In (queue_task now w) (claim_due_scheduled_tasks locked limit now tasks).0
                  ⊎ (runs_before w z ≡ false)))
  unfolding claim_due_scheduled_tasks due_batch
  claim-most_urgent = (urgent_count, urgent_rows)
    where
      ordered : List ScheduledTask
      ordered = sort_by runs_before (keep (is_due locked now) tasks)

      urgent_count : length (map (queue_task now) batch) ≤ limit
      urgent_count =
          let few = length-take limit ordered in
          let same = length-map (queue_task now) batch in omega arith

      urgent_rows :
          (x : ScheduledTask)
          → In x (map (queue_task now) batch)
          → (z : ScheduledTask) × In z tasks
            × (is_due locked now z ≡ true)
            × (x ≡ queue_task now z)
            × ((w : ScheduledTask)
                → In w tasks
                → is_due locked now w ≡ true
                → In (queue_task now w) (map (queue_task now) batch) ⊎ (runs_before w z ≡ false))
      urgent_rows x m =
          let (z, i, e) = In-map (queue_task now) batch x m in
          let (j, d) = batch-due z i in
          (
            z,
            j,
            d,
            e,
            λ w k q.
                let placed = In-sort_by runs_before _ w (In-keep (is_due locked now) tasks w k q) in
                let sorted =
                  sort_by-Ascends runs_before runs_before-asym runs_before-not_later
                    (keep (is_due locked now) tasks) in
                elim (take-Ascends runs_before runs_before-asym runs_before-not_later limit ordered
                  z w sorted i placed) [
                    | inl n ↦ inl (map-In (queue_task now) batch w n)
                    | inr n ↦ inr n
                  ],
          )

  claimed-Busy :
      (z : ScheduledTask)
      → ((k : ℕ) → count_if (has_id k) tasks ≤ 1)
      → In z batch
      → All (Busy z.id) (claim_due_scheduled_tasks locked limit now tasks).1
  unfolding claim_due_scheduled_tasks
  claimed-Busy z one m =
      let (n, d) = batch-due z m in
      All-map-In (Busy z.id) (queue_if locked now batch) tasks (λ t i.
        elim (Bool-cases (has_id z.id t)) [
          | inr q ↦ queue_if-Busy z.id now locked batch t (λ h. absurd cc)
          | inl q ↦
              let same = one_passes (has_id z.id) tasks t z (one z.id) i n q (has_id-same z) in
              subst (λ x. Busy z.id (queue_if locked now batch x)) (sym same)
                (queued-Busy now locked batch z d
                  (any-true (has_id z.id) batch z m (has_id-same z)))
        ])

-- When the numbers of the tasks are unique, a task that was claimed is not claimed again, whatever
-- steps follow, before one of them frees it.
pub claim-exclusive :
    (locked later_locked : ScheduledTask → Bool) (limit later_limit now later : ℕ) (es : List Event)
    (tasks after : List ScheduledTask) (x y : ScheduledTask)
    → ((k : ℕ) → count_if (has_id k) tasks ≤ 1)
    → In x (claim_due_scheduled_tasks locked limit now tasks).0
    → Run es (claim_due_scheduled_tasks locked limit now tasks).1 after
    → any (frees x.id) es ≡ false
    → In y (claim_due_scheduled_tasks later_locked later_limit later after).0
    → y.id ≢ x.id
unfolding claim_due_scheduled_tasks queue_task is_due has_id
claim-exclusive locked later_locked limit later_limit now later es tasks after x y one m r f n =
    let (z, i, e) = In-map (queue_task now) (due_batch locked limit now tasks) x m in
    let (w, j, g) =
      In-map (queue_task later) (due_batch later_locked later_limit later after) y n in
    let (k, d) = batch-due later_locked later_limit later after w j in
    let same : x.id ≡ z.id = ap (λ (t : ScheduledTask). t.id) e in
    let start = claimed-Busy locked limit now tasks z one i in
    let busy = Run-Busy z.id r (subst (λ v. any (frees v) es ≡ false) same f) start in
    λ q.
      let named : nat_eq w.id z.id ≡ true =
        (nat_eq_iff w.id z.id).1 (sym (ap (λ (t : ScheduledTask). t.id) g) ∙ q ∙ same) in
      let idle = All-In (Busy z.id) after w busy k named in ground arith
