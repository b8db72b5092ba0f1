-- ===== src/Timer/Groups.antt =====
-- The groups of Timer (kitchen/timer.py): what `monitor_in_flight` does to the rows of a dish that lie
-- in one bucket, the cancellation of the rows behind a failure, and `monitor_advance_ready`. A pass
-- meets no other writer here. The response's outcome is left out where the row of a list is reconciled.
use poundcake.Prelude.{
  ℕ, String, Bool, true, false, not, Option, none, some, List, [], ◌∷◌, ◌&&◌, ◌||◌, nat_eq, ltb,
  any, keep, first, if◌then◌else◌,
}
use poundcake.Json.{Fields, field, end, text, bool, int}
use poundcake.Status.{is_in_flight, is_pending}
use poundcake.Tables.{Row}
use poundcake.Dishes.{is_blocking_row}
use poundcake.Dishes.Routes.{Reply, http_error, updated, Upsert, Reconciler, reconcile}
use poundcake.Dishes.Listing.{View, list_dish_ingredient_status, redacted}
use poundcake.Timer.{Poll, Polled, poll_row, reconcile_payload}

-- A pass: Timer's service_type, the clocks of Timer and of the reconciling request at the row with
-- a number, what the list of a dish meets, and the text of the reason that a row gives.
pub record Sweep : Type 0 where
  pub caller : String
  pub now : ℕ → ℕ
  pub reconciled_now : ℕ → ℕ
  pub view : View
  pub reason : Row → String

-- `_execution_bucket(a) == _execution_bucket(b)` and `>`, on columns that are never null
unfoldable pub same_bucket : Row → Row → Bool
same_bucket a b = nat_eq a.depth b.depth && nat_eq a.parallel_group b.parallel_group

unfoldable pub is_later : Row → Row → Bool
is_later f x =
    ltb f.depth x.depth || nat_eq f.depth x.depth && ltb f.parallel_group x.parallel_group

unfoldable pub blocked_outcome : String → ℕ → Fields
blocked_outcome reason id = field "success" (bool false) (
    field "status" (text "canceled") (
      field "reason" (text "blocked_by_prior_group_failure")
        (field "message" (text reason) (field "blocked_by_dish_ingredient_id" (int id) end))))

-- the request that cancels x, which f blocks
unfoldable pub cancel_payload : Sweep → Row → Row → Upsert
unfolding blocked_outcome redacted reconcile_payload
cancel_payload s f x =
    reconcile_payload (s.now x.id) (redacted x) "canceled"
      (some (blocked_outcome (s.reason f) f.id)) (some (s.reason f))

unfoldable pub rows_after : List Row → Reply → List Row
rows_after rows (http_error code) = rows
rows_after rows (updated r after) = after

unfoldable pub cancel_row : Sweep → Row → Row → List Row → List Row
unfolding rows_after cancel_payload
cancel_row s f x rows =
    rows_after rows
      (reconcile Reconciler.timer s.caller (s.reconciled_now x.id) (cancel_payload s f x) x.id rows)

unfoldable pub cancel_rows : Sweep → Row → List Row → List Row → List Row
unfolding cancel_row
cancel_rows s f [] rows = rows
cancel_rows s f (x ∷ xs) rows = cancel_rows s f xs (cancel_row s f x rows)

unfoldable pub is_blocked_by : Row → Row → Bool
unfolding is_later
is_blocked_by f x = is_pending x.status && is_later f x

-- `_cancel_blocked_future_rows`
unfoldable pub cancel_blocked_future_rows : Sweep → Row → List Row → List Row
unfolding cancel_rows is_blocked_by list_dish_ingredient_status
cancel_blocked_future_rows s f rows =
    if s.view.answered
    then cancel_rows s f
        (keep (is_blocked_by f) (list_dish_ingredient_status s.view f.dish_id rows)) rows
    else rows

-- `_group_has_in_flight`
unfoldable pub group_has_in_flight : Row → List Row → Bool
unfolding same_bucket
group_has_in_flight member rows = any (λ r. same_bucket r member && is_in_flight r.status) rows

unfoldable pub poll_group : (Row → Poll) → List Row → List Row → List Polled × List Row
unfolding poll_row
poll_group polls [] rows = ([], rows)
poll_group polls (r ∷ rs) rows =
    let (here, polled) = poll_row (polls r) r rows in
    let (results, after) = poll_group polls rs polled in (here ∷ results, after)

unfoldable pub was_reconciled : Polled → Bool
was_reconciled p = elim p.reconciled [ none ↦ false | some r ↦ true ]

unfoldable pub none_of : List Polled → Bool
none_of [] = true
none_of (p ∷ ps) = false

-- the first of the reconciled results that blocks
unfoldable pub blocking_result : List Polled → Option Polled
blocking_result ps = first (λ p. p.blocking_failure) ps

unfoldable pub cancel_behind : Sweep → Option Polled → List Row → List Row
unfolding cancel_blocked_future_rows
cancel_behind s none rows = rows
cancel_behind s (some p) rows = cancel_blocked_future_rows s p.row rows

-- What a group leaves: the rows as the polls left them and at the end, and whether Cook is asked to
-- advance the dish.
pub record Grouped : Type 0 where
  pub polled : List Row
  pub rows : List Row
  pub advanced : Bool

-- after the polls
unfoldable pub settle_group : Sweep → Row → List Polled → List Row → Grouped
unfolding group_has_in_flight list_dish_ingredient_status cancel_behind none_of blocking_result
settle_group s member done polled =
    if none_of done
      || not s.view.answered
      || group_has_in_flight member (list_dish_ingredient_status s.view member.dish_id polled)
    then record { polled = polled; rows = polled; advanced = false }
    else record {
      polled = polled;
      rows = cancel_behind s (blocking_result done) polled;
      advanced = true;
    }

-- one turn of the loop of `monitor_in_flight`, for the group of a row and the others of its bucket
unfoldable pub monitor_group : Sweep → (Row → Poll) → Row → List Row → List Row → Grouped
unfolding poll_group settle_group was_reconciled
monitor_group s polls member others rows =
    let (results, polled) = poll_group polls (member ∷ others) rows in
    settle_group s member (keep was_reconciled results) polled

-- one turn of the loop of `monitor_advance_ready`: the rows before Cook is asked to advance the dish
unfoldable pub advance_ready : Sweep → Row → List Row → List Row
unfolding cancel_blocked_future_rows
advance_ready s r rows = if is_blocking_row r then cancel_blocked_future_rows s r rows else rows
