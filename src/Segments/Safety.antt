-- ===== src/Segments/Safety.antt =====
-- A segment never overtakes: what it holds, and what has finished before it starts.
use poundcake.Prelude.{
  All-In, ◌↔◌, ◌≢◌, ℕ, ◌≡◌, refl, ◌⊎◌, inl, inr, true, List, [], ◌∷◌, arith, In, Option, none, some,
  sym, subst,
}
use poundcake.Segments.Collect.{collect-In, segment_parts}
use poundcake.Segments.Sorting.{sort-In, sort-Ascending, Before, Ascending}
use poundcake.Segments.{
  is_ready_status, sort_ingredients_for_execution, bucket_eq, next_pending_execution_segment,
  Segment, in_segment, OnFailure, Item, RecipeStep, Bucket, Scan, pass, halt, take_bucket,
  scan_item, ready_bucket, execution_bucket, coerce_int, sort_key, continues, bucket_lt,
}
use poundcake.Tables.{OnFailure}
use poundcake.Status.{
  failed, errored, timeout, canceled, ExecStatus, succeeded, is_failure, is_in_flight,
}

-- Every row of dish_ingredients has a depth, so the items made of rows have one.
abbrev pub HasDepth : Item → Type 0
HasDepth x = (d : ℕ) × (coerce_int x.depth ≡ some d)

-- What the scan may pass: a success, or a failure whose step lets the dish go on.
abbrev pub FinishedAs : Option ExecStatus → Option OnFailure → Type 0
FinishedAs status f =
    (status ≡ some succeeded)
    ⊎ ((s : ExecStatus) × (status ≡ some s) × (is_failure s ≡ true) × (continues f ≡ true))

abbrev pub Finished : Item → Type 0
Finished x = FinishedAs x.status x.on_failure

scan-pass-Finished :
    (status : Option ExecStatus) (f : Option OnFailure)
    → scan_item status f ≡ pass
    → FinishedAs status f
unfolding scan_item is_failure is_in_flight
scan-pass-Finished none f h = cc
scan-pass-Finished (some succeeded) f h = inl refl
scan-pass-Finished (some failed) f h = inr (failed, refl, refl, ground arith)
scan-pass-Finished (some errored) f h = inr (errored, refl, refl, ground arith)
scan-pass-Finished (some timeout) f h = inr (timeout, refl, refl, ground arith)
scan-pass-Finished (some canceled) f h = inr (canceled, refl, refl, ground arith)
scan-pass-Finished (some _) f h = cc

module _ (recipe : List RecipeStep) where
  Before-not-lt :
      (x z : Item)
      → HasDepth x
      → HasDepth z
      → Before recipe x z
      → bucket_lt (execution_bucket z) (execution_bucket x) ≡ true
      → ⊥
  unfolding execution_bucket sort_key
  Before-not-lt x z hx hz p h = ground (arith, hx.1, hz.1)

  ready-Finished :
      (xs : List Item) (b : Bucket) (z : Item)
      → ((y : Item) → In y xs → HasDepth y)
      → Ascending recipe xs
      → ready_bucket xs ≡ some b
      → In z xs
      → bucket_lt (execution_bucket z) b ≡ true
      → Finished z
  unfolding ready_bucket
  ready-Finished [] b z d a r m h = absurd m
  ready-Finished (x ∷ xs) b z d a r m h =
      by_scan (scan_item x.status x.on_failure) refl r m
        (λ e n. ready-Finished xs b z (λ y k. d y (inr k)) a.1 e n h)
    where
      by_scan :
          (s : Scan)
          → scan_item x.status x.on_failure ≡ s
          → (elim s [
            | pass ↦ ready_bucket xs
            | halt ↦ none
            | take_bucket ↦ some (execution_bucket x)
          ])
            ≡ some b
          → In z (x ∷ xs)
          → (ready_bucket xs ≡ some b → In z xs → Finished z)
          → Finished z
      by_scan pass e q (inl same) ih =
          subst Finished (sym same) (scan-pass-Finished x.status x.on_failure e)
      by_scan pass e q (inr n) ih = ih q n
      by_scan halt e q n ih = cc
      by_scan take_bucket e q (inl same) ih = absurd (ground arith)
      by_scan take_bucket e q (inr n) ih = absurd (
          Before-not-lt x z (d x (inl refl)) (d z (inr n)) (All-In (Before recipe x) xs z a.0 n)
            (ground arith))

in_segment_iff :
    (b : Bucket) (z : Item)
    → (in_segment b z ≡ true)
      ↔ ((bucket_eq (execution_bucket z) b ≡ true) × (is_ready_status z.status ≡ true))
unfolding in_segment
in_segment_iff b z = ground arith

module _ (recipe : List RecipeStep) (items : List Item) (seg : Segment) where
  -- When a segment is returned, it is not empty, and its rows are exactly the items with a pending
  -- status (or none) whose bucket is the segment's.
  segment-rows :
      (z : Item)
      → next_pending_execution_segment recipe items ≡ some seg
      → (seg.rows ≢ [])
        × (In z seg.rows ↔ (
            In z items
            × (bucket_eq (execution_bucket z) seg.bucket ≡ true)
            × (is_ready_status z.status ≡ true)))
  unfolding next_pending_execution_segment
  segment-rows z h =
      let (p, q, r) = segment_parts _ (sort_ingredients_for_execution recipe items) seg h in
      let held = collect-In seg.bucket _ seg.rows z q in
      (
        r,
        (
          λ m.
              let (i, t) = held.0 m in
              let (u, v) = (in_segment_iff seg.bucket z).0 t in
              ((sort-In recipe items z).0 i, u, v),
          λ (i, t, u).
              held.1 ((sort-In recipe items z).1 i, (in_segment_iff seg.bucket z).1 (t, u)),
        ),
      )

  -- When a segment is returned and every item has a depth, every item of an earlier bucket has
  -- succeeded, or has failed under a step whose on_failure is "continue".
  pub segment-earlier-Finished :
      (z : Item)
      → ((y : Item) → In y items → HasDepth y)
      → next_pending_execution_segment recipe items ≡ some seg
      → In z items
      → bucket_lt (execution_bucket z) seg.bucket ≡ true
      → Finished z
  unfolding next_pending_execution_segment
  segment-earlier-Finished z d h m lt =
      ready-Finished recipe _ seg.bucket z (λ y k. d y ((sort-In recipe items y).0 k))
        (sort-Ascending recipe items)
        (segment_parts (ready_bucket (sort_ingredients_for_execution recipe items))
          (sort_ingredients_for_execution recipe items) seg h).0
        ((sort-In recipe items z).1 m) lt
