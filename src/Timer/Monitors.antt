-- ===== src/Timer/Monitors.antt =====
-- The passes of Timer over the rows that the lists give it: `monitor_cancel_requested`,
-- `monitor_in_flight` and `monitor_advance_ready`. A pass leaves the rows and the dishes that Cook is
-- asked to advance, the last one first.
use poundcake.Prelude.{
  ℕ, String, Bool, false, not, Option, none, some, List, [], ◌∷◌, nat_eq, ltb, sort_by, str_eq,
  ◌&&◌, if◌then◌else◌,
}
use poundcake.Prelude.Text.{strip, text_or_empty}
use poundcake.Json.{Fields, field, end, text, get_or_null, dict_of, first_truthy}
use poundcake.Tables.{Row}
use poundcake.Dishes.Routes.{http_error, updated, poll_claim}
use poundcake.Timer.{Poll, Polled, post_reconcile, reconcile_payload, identity}
use poundcake.Timer.Groups.{Sweep, same_bucket, monitor_group, advance_ready}

-- `_group_rows`: a group is its first row with the others; dish and bucket are its key
unfoldable pub same_group : Row → Row → Bool
unfolding same_bucket
same_group a b = nat_eq a.dish_id b.dish_id && same_bucket a b

unfoldable pub add_row : Row → List (Row × List Row) → List (Row × List Row)
unfolding same_group
add_row r [] = (r, []) ∷ []
add_row r ((m, others) ∷ groups) =
    let later = add_row r groups in
    if same_group m r then (m, append_row others) ∷ groups else (m, others) ∷ later
  where
    append_row : List Row → List Row
    append_row [] = r ∷ []
    append_row (x ∷ xs) = x ∷ append_row xs

unfoldable pub group_rows : List (Row × List Row) → List Row → List (Row × List Row)
unfolding add_row
group_rows groups [] = groups
group_rows groups (r ∷ rs) = group_rows (add_row r groups) rs

-- the order of (dish_id, bucket)
unfoldable pub group_before : Row × List Row → Row × List Row → Bool
group_before (a, xs) (b, ys) =
    if not (nat_eq a.dish_id b.dish_id)
    then ltb a.dish_id b.dish_id
    else if not (nat_eq a.depth b.depth)
    then ltb a.depth b.depth
    else ltb a.parallel_group b.parallel_group

unfoldable pub monitor_groups :
    Sweep → (Row → Poll) → List (Row × List Row) → List Row → List ℕ → List Row × List ℕ
unfolding monitor_group
monitor_groups s polls [] rows dishes = (rows, dishes)
monitor_groups s polls ((m, others) ∷ groups) rows dishes =
    let g = monitor_group s polls m others rows in
    monitor_groups s polls groups g.rows (if g.advanced then m.dish_id ∷ dishes else dishes)

-- `monitor_in_flight`, on the rows that the list of rows in flight holds
unfoldable pub monitor_in_flight : Sweep → (Row → Poll) → List Row → List Row → List Row × List ℕ
unfolding group_rows group_before monitor_groups
monitor_in_flight s polls listed rows =
    monitor_groups s polls (sort_by group_before (group_rows [] listed)) rows []

-- `monitor_advance_ready`
unfoldable pub monitor_advance_ready : Sweep → List Row → List Row → List ℕ → List Row × List ℕ
unfolding advance_ready
monitor_advance_ready s [] rows dishes = (rows, dishes)
monitor_advance_ready s (r ∷ rs) rows dishes =
    monitor_advance_ready s rs (advance_ready s r rows) (r.dish_id ∷ dishes)

-- the outcome that `_cancel_row_without_advance` reports, from the body that the provider's
-- cancellation answers, if it answers one
unfoldable pub canceled_outcome : String → Row → Option Fields → Fields
unfolding dict_of first_truthy
canceled_outcome reason r body =
    let own = field "status" (text "canceled") (
      field "service_exec_id" (text (strip (text_or_empty r.service_exec_id)))
        (field "reason" (text reason) end)) in
    elim body [
      | none ↦ own
      | some fs ↦
          elim (dict_of
            (first_truthy (get_or_null "service_exec_actual_outcome" fs) (get_or_null "raw" fs))) [
              | none ↦ own
              | some outcome ↦ outcome
            ]
    ]

-- `_cancel_execution`: no request without a service_type and an execution id
unfoldable pub has_identity : Row → Bool
unfolding identity
has_identity r = not (str_eq (identity r).0 "") && not (str_eq (identity r).1 "")

unfoldable pub cancel_body : Row → Option Fields → Option Fields
unfolding has_identity
cancel_body r body = if has_identity r then body else none

-- `_cancel_row_without_advance`
unfoldable pub cancel_row_without_advance :
    Poll → (Row → Option Fields) → String → Row → List Row → Polled × List Row
unfolding cancel_body has_identity canceled_outcome reconcile_payload post_reconcile
cancel_row_without_advance c answers reason r rows =
    elim (poll_claim c.lock c.claimed_now c.req r.id rows) [
      | http_error code ↦ (
        record { row = r; reconciled = none; blocking_failure = false; cancel_asked = false },
        rows,
      )
      | updated claimed after ↦
          post_reconcile c (has_identity claimed)
            (reconcile_payload c.now claimed "canceled"
              (some (canceled_outcome reason claimed (cancel_body claimed (answers claimed))))
              (some reason))
            claimed after
    ]
