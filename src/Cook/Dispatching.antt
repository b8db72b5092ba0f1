-- ===== src/Cook/Dispatching.antt =====
-- When a dish dispatches its next segment: it never overtakes, and it does not wait for nothing.
use poundcake.Cook.{
  plan_of, runtime_item, runtime_bucket, is_blocking_failure, dispatch, no_segment, plan,
}
use poundcake.Prelude.{
  ap, refl, sym, ◌≢◌, subst, arith, map-In, inr, In-map, inl, some, map, true, [], str_eq, false,
  ◌≡◌, In, List,
}
use poundcake.Segments.{
  halt, coerce_int, execution_bucket, is_ready_status, scan_item, service_type_of, Item, bucket_lt,
  next_pending_execution_segment, Segment,
}
use poundcake.Segments.Progress.{segment-progress}
use poundcake.Segments.Safety.{Finished, segment-earlier-Finished, HasDepth}
use poundcake.Status.{is_pending, is_in_flight}
use poundcake.Prelude.Text.{strip, lower}
use poundcake.Tables.{Row}
use poundcake.Cook.Planning.{RowFinished, plan-cases}

dispatch-segment :
    (rows : List Row) (seg : Segment)
    → plan rows ≡ dispatch seg
    → next_pending_execution_segment [] (map runtime_item rows) ≡ some seg
unfolding plan no_segment
dispatch-segment rows seg h =
    elim (plan-cases rows (next_pending_execution_segment [] (map runtime_item rows)) _ h) [
      | inl (s, e, q) ↦ cc
      | inr (e, q) ↦ absurd (ground arith)
    ]

-- The bucket of a row is the bucket of its item, and its item has a depth.
item_bucket : (r : Row) → execution_bucket (runtime_item r) ≡ runtime_bucket r
unfolding execution_bucket runtime_item runtime_bucket
item_bucket r = refl

pub item_deep : (rows : List Row) (y : Item) → In y (map runtime_item rows) → HasDepth y
unfolding runtime_item coerce_int
item_deep rows y k =
    let (x, _, e) = In-map runtime_item rows y k in subst HasDepth (sym e) (x.depth, refl)

Finished-row : (r : Row) → Finished (runtime_item r) → RowFinished r
unfolding runtime_item
Finished-row r h = h

-- When a segment is dispatched, every row of an earlier bucket succeeded, or failed under a step
-- whose on_failure is "continue".
pub dispatch-earlier-finished :
    (rows : List Row) (seg : Segment) (r : Row)
    → plan rows ≡ dispatch seg
    → In r rows
    → bucket_lt (runtime_bucket r) seg.bucket ≡ true
    → RowFinished r
dispatch-earlier-finished rows seg r h m lt = Finished-row r (
    segment-earlier-Finished [] (map runtime_item rows) seg (runtime_item r) (item_deep rows)
      (dispatch-segment rows seg h) (map-In runtime_item rows r m)
      (subst (λ b. bucket_lt b seg.bucket ≡ true) (sym (item_bucket r)) lt))

scan-not-halt :
    (r : Row)
    → is_in_flight r.status ≡ false
    → is_blocking_failure r ≡ false
    → scan_item (some r.status) r.on_failure ≢ halt
unfolding scan_item is_blocking_failure is_in_flight
scan-not-halt r h k = λ e. ground arith

item_free :
    (rows : List Row)
    → ((r : Row) → In r rows → (is_in_flight r.status ≡ false) × (is_blocking_failure r ≡ false))
    → (y : Item) → In y (map runtime_item rows)
    → scan_item y.status y.on_failure ≢ halt
unfolding runtime_item
item_free rows free y k =
    let (x, m, e) = In-map runtime_item rows y k in
    let (a, b) = free x m in
    subst (λ (z : Item). scan_item z.status z.on_failure ≢ halt) (sym e) (scan-not-halt x a b)

item_typed :
    (rows : List Row)
    → ((r : Row) → In r rows → str_eq (lower (strip r.service_type)) "" ≡ false)
    → (y : Item) → In y (map runtime_item rows)
    → str_eq (service_type_of y) "" ≡ false
unfolding runtime_item service_type_of
item_typed rows typed y k =
    let (x, m, e) = In-map runtime_item rows y k in
    subst (λ z. str_eq (service_type_of z) "" ≡ false) (sym e) (typed x m)

item_ready : (p : Row) → is_pending p.status ≡ true → is_ready_status (runtime_item p).status ≡ true
unfolding runtime_item is_ready_status
item_ready p h = h

planned :
    (rows : List Row) (seg : Segment)
    → next_pending_execution_segment [] (map runtime_item rows) ≡ some seg
    → plan rows ≡ dispatch seg
unfolding plan
planned rows seg e = ap (λ o. plan_of o rows) e

-- Where a row is pending, no row is in flight or a blocking failure, and every row has a service
-- type that is not blank, the dish dispatches a segment.
pub dispatch-progress :
    (rows : List Row) (p : Row)
    → ((r : Row) → In r rows → (is_in_flight r.status ≡ false) × (is_blocking_failure r ≡ false))
    → ((r : Row) → In r rows → str_eq (lower (strip r.service_type)) "" ≡ false)
    → In p rows
    → is_pending p.status ≡ true
    → (seg : Segment) × (plan rows ≡ dispatch seg)
dispatch-progress rows p free typed m h =
    let (seg, e) =
      segment-progress [] (map runtime_item rows) (runtime_item p) (item_free rows free)
        (item_typed rows typed) (map-In runtime_item rows p m) (item_ready p h) in
    (seg, planned rows seg e)
