-- ===== src/Timer/Lasting.antt =====
-- A pass over the rows in flight keeps ids keys and steps single, so that what holds of a group holds
-- at each group of a pass.
use poundcake.Prelude.{
  ℕ, Bool, true, false, Option, none, some, List, [], ◌∷◌, ◌≡◌, refl, if◌then◌else◌, keep, sort_by,
  ◌||◌, not, Bool-cases, inl, inr,
}
use poundcake.Tables.{Row}
use poundcake.Dishes.Listing.{View, list_dish_ingredient_status}
use poundcake.Dishes.Routes.{Reply, http_error, updated, Reconciler, reconcile}
use poundcake.Dishes.Steady.{IsSteady, reconcile-IsSteady}
use poundcake.Timer.{reconcile_payload, Poll, Polled}
use poundcake.Timer.Groups.{
  Sweep, monitor_group, cancel_row, cancel_rows, rows_after, cancel_payload, is_blocked_by,
  cancel_blocked_future_rows, cancel_behind, settle_group, poll_group, was_reconciled, none_of,
  group_has_in_flight, blocking_result,
}
use poundcake.Timer.Steady.{poll_group-IsSteady}
use poundcake.Timer.Monitors.{monitor_groups, monitor_in_flight, group_rows, group_before}

module _ (v : View) (dish_id : ℕ) (s : Sweep) where
  cancel_row-IsSteady :
      (f x : Row) (rows : List Row)
      → IsSteady v dish_id rows
      → IsSteady v dish_id (cancel_row s f x rows)
  unfolding cancel_row rows_after cancel_payload reconcile_payload
  cancel_row-IsSteady f x rows h = by_reply (reconcile _ _ _ _ x.id rows) refl
    where
      by_reply :
          (a : Reply)
          → reconcile Reconciler.timer s.caller
              (s.reconciled_now x.id)
              (cancel_payload s f x)
              x.id
              rows
            ≡ a
          → IsSteady v dish_id (rows_after rows a)
      by_reply (http_error code) e = h
      by_reply (updated r after) e =
          reconcile-IsSteady v dish_id Reconciler.timer s.caller (s.reconciled_now x.id)
            (cancel_payload s f x) x.id rows after r (refl, refl) e h

  cancel_rows-IsSteady :
      (f : Row) (xs rows : List Row)
      → IsSteady v dish_id rows
      → IsSteady v dish_id (cancel_rows s f xs rows)
  unfolding cancel_rows
  cancel_rows-IsSteady f [] rows h = h
  cancel_rows-IsSteady f (x ∷ xs) rows h =
      cancel_rows-IsSteady f xs (cancel_row s f x rows) (cancel_row-IsSteady f x rows h)

  answered-IsSteady :
      (answered : Bool) (f : Row) (xs rows : List Row)
      → IsSteady v dish_id rows
      → IsSteady v dish_id (if answered then cancel_rows s f xs rows else rows)
  answered-IsSteady true f xs rows h = cancel_rows-IsSteady f xs rows h
  answered-IsSteady false f xs rows h = h

  cancel_behind-IsSteady :
      (p : Option Polled) (rows : List Row)
      → IsSteady v dish_id rows
      → IsSteady v dish_id (cancel_behind s p rows)
  unfolding cancel_behind cancel_blocked_future_rows
  cancel_behind-IsSteady none rows h = h
  cancel_behind-IsSteady (some p) rows h =
      answered-IsSteady s.view.answered p.row
        (keep (is_blocked_by p.row) (list_dish_ingredient_status s.view p.row.dish_id rows)) rows h

  monitor_group-IsSteady :
      (polls : Row → Poll) (m : Row) (others rows : List Row)
      → IsSteady v dish_id rows
      → IsSteady v dish_id (monitor_group s polls m others rows).rows
  unfolding monitor_group settle_group
  monitor_group-IsSteady polls m others rows h =
      let (results, polled) = poll_group polls (m ∷ others) rows in
      let done = keep was_reconciled results in
      let k = poll_group-IsSteady v dish_id polls (m ∷ others) rows h in
      let waits =
        none_of done
        || not s.view.answered
        || group_has_in_flight m (list_dish_ingredient_status s.view m.dish_id polled) in
      elim (Bool-cases waits) [
        | inl q ↦ rw (settle_group, q) k
        | inr q ↦ rw (settle_group, q) (cancel_behind-IsSteady (blocking_result done) polled k)
      ]

  monitor_groups-IsSteady :
      (polls : Row → Poll) (groups : List (Row × List Row)) (rows : List Row) (dishes : List ℕ)
      → IsSteady v dish_id rows
      → IsSteady v dish_id (monitor_groups s polls groups rows dishes).0
  unfolding monitor_groups
  monitor_groups-IsSteady polls [] rows dishes h = h
  monitor_groups-IsSteady polls ((m, others) ∷ groups) rows dishes h =
      monitor_groups-IsSteady polls groups _ _ (monitor_group-IsSteady polls m others rows h)

  -- A pass over the rows in flight keeps ids keys and the rows of a dish single steps.
  monitor_in_flight-IsSteady :
      (polls : Row → Poll) (listed rows : List Row)
      → IsSteady v dish_id rows
      → IsSteady v dish_id (monitor_in_flight s polls listed rows).0
  unfolding monitor_in_flight
  monitor_in_flight-IsSteady polls listed rows h =
      monitor_groups-IsSteady polls (sort_by group_before (group_rows [] listed)) rows [] h
