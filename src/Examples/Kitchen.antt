-- ===== src/Examples/Kitchen.antt =====
-- The theorems on segments, dishes and orders at concrete rows.
use poundcake.Cook.Suppress.{complete_suppressed_dish_if_matched, Suppressed}
use poundcake.Cook.Suppressing.{complete_suppressed-settled, Refuses, Settled, WasFiring}
use poundcake.Prelude.{
  not, ◌<◌, ◌&&◌, ◌⊎◌, inr, All-In, In, length, refl, str_eq, ◌↔◌, ◌≤◌, inl, none, [], false, some,
  true, ◌∷◌, ◌≡◌, All, List,
}
use poundcake.Tables.{Dish, DishStatus, Order, Row}
use poundcake.Status.{
  is_canceled, is_pending, is_order_terminal, ExecStatus, OrderStatus, firing, ok, pending,
  succeeded, is_in_flight, normalize_execution_status, validate_execution_transition,
}
use poundcake.Cook.{
  row_verdict, dish_terminal_state, first_bucket, has_pending_after_blocking_failure, dispatch,
  is_blocking_failure, plan, runtime_bucket, runtime_item, Terminal,
}
use poundcake.Segments.{has_in_flight_execution, next_pending_execution_segment, Segment}
use poundcake.Status.Laws.{validate_iff, rank}
use poundcake.Cook.Settling.{finalize_outcome, is_firing, is_dispatch}
use poundcake.Prelude.Text.{strip, lower}
use poundcake.Cook.Claiming.{count-dispatched-le-one, count}
use poundcake.Cook.Dispatching.{dispatch-progress, dispatch-earlier-finished}
use poundcake.Cook.Finalize.{finalize_order_for_dish}
use poundcake.Cook.Planning.{complete-RowFinished, RowFinished}
use poundcake.Cook.Claim.{claim_rows}
use poundcake.Examples.{order, row}

abbrev done : Row
done = row 1 1 succeeded

abbrev waiting : Row
waiting = row 2 2 pending

abbrev broken : Row
broken = row 3 3 ExecStatus.failed

abbrev ready : List Row
ready = done ∷ waiting ∷ []

abbrev second : Segment
second = record { bucket = record { depth = 2; group = 0 }; rows = runtime_item waiting ∷ [] }

dispatch-earlier-finished_example : RowFinished done
unfolding plan next_pending_execution_segment runtime_bucket
dispatch-earlier-finished_example = dispatch-earlier-finished ready second done refl (inl refl) refl

-- What `dispatch-progress` asks of a row.
abbrev Startable : Row → Type 0
Startable r =
    (is_in_flight r.status ≡ false)
    × (is_blocking_failure r ≡ false)
    × (str_eq (lower (strip r.service_type)) "" ≡ false)

ready-Startable : All Startable ready
unfolding is_in_flight is_blocking_failure lower strip
ready-Startable = ((refl, refl, refl), ((refl, refl, refl), tt))

dispatch-progress_example : (seg : Segment) × (plan ready ≡ dispatch seg)
unfolding is_pending
dispatch-progress_example =
    dispatch-progress ready waiting
      (λ r m. let s = All-In Startable ready r ready-Startable m in (s.0, s.1))
      (λ r m. (All-In Startable ready r ready-Startable m).2) (inr (inl refl)) refl

abbrev finished : List Row
finished = done ∷ []

abbrev completed : Terminal
completed = record { dish_status = DishStatus.complete; exec_status = succeeded; error = none }

complete-RowFinished_example : RowFinished done
unfolding plan next_pending_execution_segment has_in_flight_execution
    has_pending_after_blocking_failure first_bucket is_blocking_failure dish_terminal_state
    row_verdict is_canceled
complete-RowFinished_example = complete-RowFinished finished completed done refl refl (inl refl)

-- a failed row and a pending one in the same bucket
abbrev beside : List Row
beside = broken ∷ row 4 3 pending ∷ []

abbrev stopped : Terminal
stopped = record {
  dish_status = DishStatus.failed;
  exec_status = ExecStatus.failed;
  error = some "Dish step failed";
}

count-dispatched-le-one_example :
    count 2 (claim_rows ((2, 50) ∷ (2, 51) ∷ []) (record { dish = none; rows = ready })).1 ≤ 1
count-dispatched-le-one_example =
    count-dispatched-le-one ((2, 50) ∷ (2, 51) ∷ []) (record { dish = none; rows = ready }) 2

abbrev resolved : Order
resolved = order OrderStatus.processing "resolved"

finalize_outcome_example :
    let (o, after) = finalize_order_for_dish false 90 firing DishStatus.complete resolved in
    (is_dispatch after ≡ (is_firing firing && str_eq (lower "resolved") "resolved"))
    × (is_order_terminal o.processing_status ≡ not (is_dispatch after))
    × (o.is_active ≡ is_dispatch after)
    × (o.clear_deadline_at ≡ none)
unfolding is_order_terminal
finalize_outcome_example = finalize_outcome 90 firing DishStatus.complete resolved refl

validate_iff_example :
    (validate_execution_transition (some "running") (some "failed") ≡ ok ExecStatus.failed) ↔ (
      (c : ExecStatus) × (normalize_execution_status (some "running") ≡ ok c)
      × (normalize_execution_status (some "failed") ≡ ok ExecStatus.failed)
      × ((c ≡ ExecStatus.failed) ⊎ (rank c < rank ExecStatus.failed)))
validate_iff_example = validate_iff (some "running") (some "failed") ExecStatus.failed

abbrev firing_dish : Dish
firing_dish = record {
  id = 7;
  order_id = some 3;
  recipe_id = 1;
  run_phase = firing;
  processing_status = DishStatus.new;
  dish_exec_status = none;
  started_at = none;
  completed_at = none;
  run_time_secs = none;
  error_message = none;
  updated_at = 10;
}

-- an order of an alert that fires
abbrev alerted : Order
alerted = order OrderStatus.processing "firing"

complete_suppressed-settled_example :
    ((s : Suppressed) × (complete_suppressed_dish_if_matched true true 90 firing_dish alerted ready
        ≡ some s)
      × ((true ≡ true) × ((true ≡ true) × WasFiring firing_dish alerted))
      × ((s.dish.processing_status ≡ DishStatus.complete)
          × ((is_order_terminal s.order.processing_status ≡ true) × (s.order.is_active ≡ false)))
      × (length s.rows ≡ length ready)
      × ((r : Row) → In r ready → Settled 7 r s.rows))
    ⊎ ((complete_suppressed_dish_if_matched true true 90 firing_dish alerted ready ≡ none)
        × Refuses true true firing_dish alerted)
complete_suppressed-settled_example =
    complete_suppressed-settled true true 90 firing_dish alerted ready
