-- ===== src/Cook/Planning.antt =====
-- What the decision of `_advance_dish` guarantees.
use poundcake.Prelude.{
  map-In, In-keep, any-false, any, if◌then◌else◌, keep, false, Option, map, Option-cases, ◌≢◌, refl,
  true, ◌⊎◌, arith, inr, sym, ap, subst, inl, [], In, none, ◌≡◌, List, some,
}
use poundcake.Segments.{
  item_in_flight, Segment, bucket_lt, next_pending_execution_segment, Bucket,
  has_in_flight_execution,
}
use poundcake.Cook.{
  pending_after, is_blocking_failure, dispatch, has_pending_after_blocking_failure, Plan,
  runtime_bucket, runtime_item, finish, first_bucket, no_segment, plan, plan_of, Terminal, ◌∷◌,
  row_verdict, dish_terminal_state,
}
use poundcake.Status.{succeeded, ExecStatus, is_in_flight, is_pending, is_failure}
use poundcake.Tables.{DishStatus, Row}
use poundcake.Segments.Safety.{FinishedAs}

-- A row that no longer holds the dish back: a success, or a failure that its step tolerates.
abbrev pub RowFinished : Row → Type 0
RowFinished r = FinishedAs (some r.status) r.on_failure

status_cases :
    (s : ExecStatus)
    → (s ≡ succeeded) ⊎ ((is_failure s ≡ true) ⊎ ((is_pending s ≡ true) ⊎ (is_in_flight s ≡ true)))
unfolding is_failure is_pending is_in_flight
status_cases succeeded = inl refl
status_cases _ = ground arith

row_verdict-none : (r : Row) → row_verdict r ≡ none → RowFinished r
unfolding row_verdict
row_verdict-none r h = elim (status_cases r.status) [
  | inl e ↦ inl (ap some e)
  | inr (inl f) ↦ inr (r.status, refl, f, ground arith)
  | inr (inr k) ↦ absurd (ground arith)
]

row_verdict-ne-complete :
    (r : Row) (t : Terminal) → row_verdict r ≡ some t → t.dish_status ≢ DishStatus.complete
unfolding row_verdict
row_verdict-ne-complete r t h e = ground arith

-- The terminal state is the verdict of the first row that has one.
terminal-step :
    (r : Row) (rs : List Row)
    → (dish_terminal_state (r ∷ rs) ≡ dish_terminal_state rs) × (row_verdict r ≡ none)
      ⊎ ((t : Terminal) × (row_verdict r ≡ some t) × (dish_terminal_state (r ∷ rs) ≡ t))
unfolding dish_terminal_state
terminal-step r rs = elim (Option-cases (row_verdict r)) [
  | inl e ↦ inl (ground arith, e)
  | inr (t, e) ↦ inr (t, e, ground arith)
]

terminal-complete :
    (rows : List Row) (r : Row)
    → (dish_terminal_state rows).dish_status ≡ DishStatus.complete
    → In r rows
    → RowFinished r
terminal-complete [] r h m = absurd m
terminal-complete (x ∷ xs) r h m = elim (terminal-step x xs) [
  | inl (e, q) ↦ at_row q m (λ n. terminal-complete xs r (rw e at h) n)
  | inr (t, e, q) ↦ absurd (row_verdict-ne-complete x t e (rw q at h))
]
  where
    at_row : row_verdict x ≡ none → In r (x ∷ xs) → (In r xs → RowFinished r) → RowFinished r
    at_row q (inl e) ih = subst RowFinished (sym e) (row_verdict-none x q)
    at_row q (inr n) ih = ih n

pub plan-cases :
    (rows : List Row) (o : Option Segment) (p : Plan)
    → plan_of o rows ≡ p
    → ((seg : Segment) × (o ≡ some seg) × (p ≡ dispatch seg)) ⊎ ((o ≡ none) × (no_segment rows ≡ p))
unfolding plan_of
plan-cases rows (some seg) p h = inl (seg, refl, sym h)
plan-cases rows none p h = inr (refl, h)

-- How a dish ends: no segment, nothing in flight, nothing pending behind a blocking failure.
abbrev Ending : List Row → Terminal → Type 0
Ending rows t =
    (has_in_flight_execution (map runtime_item rows) ≡ false)
    × (has_pending_after_blocking_failure rows ≡ false)
    × (dish_terminal_state rows ≡ t)

no_segment-finish : (rows : List Row) (t : Terminal) → no_segment rows ≡ finish t → Ending rows t
unfolding no_segment
no_segment-finish rows t h = ground arith

finish-Ending : (rows : List Row) (t : Terminal) → plan rows ≡ finish t → Ending rows t
unfolding plan
finish-Ending rows t h =
    elim (plan-cases rows (next_pending_execution_segment [] (map runtime_item rows)) (finish t)
      h) [ inl (seg, e, q) ↦ absurd (cc) | inr (e, q) ↦ no_segment-finish rows t q ]

-- When the plan of a dish is to finish it with the status complete, every row of the dish succeeded, or
-- failed under a step whose on_failure is "continue".
pub complete-RowFinished :
    (rows : List Row) (t : Terminal) (r : Row)
    → plan rows ≡ finish t
    → t.dish_status ≡ DishStatus.complete
    → In r rows
    → RowFinished r
complete-RowFinished rows t r h c m = terminal-complete rows r (rw ((finish-Ending rows t h).2) c) m

smaller : Bucket → Bucket → Bucket
smaller b c = if bucket_lt b c then b else c

smaller-le :
    (b c x : Bucket)
    → (bucket_lt x b ≡ false) ⊎ (bucket_lt x c ≡ false)
    → bucket_lt x (smaller b c) ≡ false
unfolding smaller
smaller-le b c x h = ground arith

first_bucket-ne-none : (rows : List Row) (f : Row) → In f rows → first_bucket rows ≢ none
unfolding first_bucket
first_bucket-ne-none [] f m = absurd m
first_bucket-ne-none (r ∷ rs) f m =
    λ e. elim (Option-cases (first_bucket rs)) [ inl q ↦ cc | inr (c, q) ↦ ground arith ]

min_bucket-le :
    (rows : List Row) (b : Bucket) (f : Row)
    → first_bucket rows ≡ some b
    → In f rows
    → bucket_lt (runtime_bucket f) b ≡ false
unfolding first_bucket
min_bucket-le [] b f h m = absurd m
min_bucket-le (r ∷ rs) b f h m =
    by_rest (first_bucket rs) refl h m (λ c e n. min_bucket-le rs c f e n)
  where
    by_rest :
        (o : Option Bucket)
        → first_bucket rs ≡ o
        → (elim o [
          | none ↦ some (runtime_bucket r)
          | some c ↦ some (if bucket_lt c (runtime_bucket r) then c else runtime_bucket r)
        ])
          ≡ some b
        → In f (r ∷ rs)
        → ((c : Bucket)
            → first_bucket rs ≡ some c
            → In f rs
            → bucket_lt (runtime_bucket f) c ≡ false)
        → bucket_lt (runtime_bucket f) b ≡ false
    by_rest none e q (inl same) ih = rw same (ground arith)
    by_rest none e q (inr n) ih = absurd (first_bucket-ne-none rs f n e)
    by_rest (some c) e q (inl same) ih = rw same (ground arith)
    by_rest (some c) e q (inr n) ih = let le = ih c e n in ground arith

first_blocking :
    (rows : List Row) (b : Bucket)
    → has_pending_after_blocking_failure rows ≡ false
    → first_bucket (keep is_blocking_failure rows) ≡ some b
    → any (pending_after b) rows ≡ false
unfolding has_pending_after_blocking_failure
first_blocking rows b h e = ground arith

no_flight_row :
    (rows : List Row) (r : Row)
    → has_in_flight_execution (map runtime_item rows) ≡ false
    → In r rows
    → is_in_flight r.status ≡ false
unfolding has_in_flight_execution runtime_item
no_flight_row rows r h m =
    any-false item_in_flight (map runtime_item rows) (runtime_item r) h
      (map-In runtime_item rows r m)

-- When a dish ends, none of its rows is dispatched or running.
finish-no_flight :
    (rows : List Row) (t : Terminal) (r : Row)
    → plan rows ≡ finish t
    → In r rows
    → is_in_flight r.status ≡ false
finish-no_flight rows t r h m = no_flight_row rows r (finish-Ending rows t h).0 m

-- When a dish ends, a row that is still pending lies in no later bucket than any blocking failure.
finish-nothing_behind :
    (rows : List Row) (t : Terminal) (f p : Row)
    → plan rows ≡ finish t
    → In f rows
    → In p rows
    → is_blocking_failure f ≡ true
    → is_pending p.status ≡ true
    → bucket_lt (runtime_bucket f) (runtime_bucket p) ≡ false
finish-nothing_behind rows t f p h mf mp hf hp =
    let after = (finish-Ending rows t h).1 in
    let kept = In-keep is_blocking_failure rows f mf hf in
    elim (Option-cases (first_bucket (keep is_blocking_failure rows))) [
      | inl e ↦ absurd (first_bucket-ne-none _ f kept e)
      | inr (b, e) ↦
          let low = min_bucket-le _ b f e kept in
          let none_after = any-false (pending_after b) rows p (first_blocking rows b after e) mp in
          unfold pending_after in ground arith
    ]
