-- ===== src/Segments/Progress.antt =====
-- A dish with pending work that nothing holds back has a next segment.
use poundcake.Prelude.{
  Bool-cases, inl, inr, refl, [], arith, false, none, ◌∷◌, some, str_eq, true, ◌≢◌, In, Option, ◌≡◌,
  List,
}
use poundcake.Status.{pending, ExecStatus, is_in_flight}
use poundcake.Segments.{
  sort_ingredients_for_execution, execution_bucket, service_type_of, RecipeStep, segment_from,
  collect, in_segment, is_ready_status, next_pending_execution_segment, ready_bucket, segment_at,
  Item, Bucket, Segment, Scan, pass, halt, take_bucket, scan_item,
}
use poundcake.Tables.{OnFailure}
use poundcake.Segments.Collect.{collect-In}
use poundcake.Segments.Sorting.{sort-In}

scan-ready :
    (status : Option ExecStatus) (f : Option OnFailure)
    → is_ready_status status ≡ true
    → scan_item status f ≡ take_bucket
unfolding scan_item is_ready_status
scan-ready none f h = refl
scan-ready (some pending) f h = refl
scan-ready (some _) f h = cc

scan-take-ready :
    (status : Option ExecStatus) (f : Option OnFailure)
    → scan_item status f ≡ take_bucket
    → is_ready_status status ≡ true
unfolding scan_item is_ready_status is_in_flight
scan-take-ready none f h = refl
scan-take-ready (some pending) f h = refl
scan-take-ready (some _) f h = ground arith

-- A bucket that the scan can take, with an item of it.
abbrev Taken : List Item → Type 0
Taken xs =
    (b : Bucket) × (ready_bucket xs ≡ some b) × ((w : Item) × In w xs × (in_segment b w ≡ true))

own_bucket : (x : Item) → is_ready_status x.status ≡ true → in_segment (execution_bucket x) x ≡ true
unfolding in_segment
own_bucket x h = ground arith

ready-Taken :
    (xs : List Item) (z : Item)
    → ((y : Item) → In y xs → scan_item y.status y.on_failure ≢ halt)
    → In z xs
    → is_ready_status z.status ≡ true
    → Taken xs
unfolding ready_bucket
ready-Taken [] z free m h = absurd m
ready-Taken (x ∷ xs) z free m h =
    by_scan (scan_item x.status x.on_failure) refl m
      (λ n. ready-Taken xs z (λ y k. free y (inr k)) n h)
  where
    by_scan :
        (s : Scan)
        → scan_item x.status x.on_failure ≡ s
        → In z (x ∷ xs)
        → (In z xs → Taken xs)
        → (b : Bucket) × ((elim s [
          | pass ↦ ready_bucket xs
          | halt ↦ none
          | take_bucket ↦ some (execution_bucket x)
        ])
            ≡ some b)
          × ((w : Item) × In w (x ∷ xs) × (in_segment b w ≡ true))
    by_scan pass e (inl same) ih = absurd (cc (scan-ready x.status x.on_failure (rw same at h)))
    by_scan pass e (inr n) ih = let (b, p, q) = ih n in (b, p, (q.0, inr q.1, q.2))
    by_scan halt e n ih = absurd (free x (inl refl) e)
    by_scan take_bucket e n ih = (
      execution_bucket x,
      refl,
      (x, inl refl, own_bucket x (scan-take-ready x.status x.on_failure e)),
    )

collect-some :
    (b : Bucket) (xs : List Item)
    → ((y : Item) → In y xs → str_eq (service_type_of y) "" ≡ false)
    → (rows : List Item) × (collect b xs ≡ some rows)
unfolding collect
collect-some b [] typed = ([], refl)
collect-some b (x ∷ xs) typed =
    let (rows, p) = collect-some b xs (λ y k. typed y (inr k)) in
    elim (Bool-cases (in_segment b x)) [
      | inl inside ↦ (x ∷ rows, rw (inside, typed x (inl refl), p) refl)
      | inr outside ↦ (rows, rw outside p)
    ]

segment_at-some :
    (b : Bucket) (rows : List Item) (w : Item)
    → In w rows
    → (seg : Segment) × (segment_at b (some rows) ≡ some seg)
unfolding segment_at
segment_at-some b [] w m = absurd m
segment_at-some b (x ∷ xs) w m = (record { bucket = b; rows = x ∷ xs }, refl)

-- Where no item is in flight or failed under a step that stops, every item has a service type, and
-- some item is pending, there is a next segment.
pub segment-progress :
    (recipe : List RecipeStep) (items : List Item) (z : Item)
    → ((y : Item) → In y items → scan_item y.status y.on_failure ≢ halt)
    → ((y : Item) → In y items → str_eq (service_type_of y) "" ≡ false)
    → In z items
    → is_ready_status z.status ≡ true
    → (seg : Segment) × (next_pending_execution_segment recipe items ≡ some seg)
unfolding next_pending_execution_segment segment_from
segment-progress recipe items z free typed m h =
    let sorted : List Item = sort_ingredients_for_execution recipe items in
    let (b, p, found) =
      ready-Taken sorted z (λ y k. free y ((sort-In recipe items y).0 k))
        ((sort-In recipe items z).1 m) h in
    let (rows, q) = collect-some b sorted (λ y k. typed y ((sort-In recipe items y).0 k)) in
    let (seg, r) =
      segment_at-some b rows found.0 ((collect-In b sorted rows found.0 q).1 (found.1, found.2)) in
    (seg, rw p (rw q r))
