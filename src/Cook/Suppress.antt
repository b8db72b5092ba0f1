-- ===== src/Cook/Suppress.antt =====
-- `_complete_suppressed_dish_if_matched` (api/api/cook.py): a firing dish whose alert a suppression
-- matches ends at once. The evidence that it stores, and the suppressed event, are not modelled.
use poundcake.OrderTypes.{order_is_subject_to_alert_suppressions}
use poundcake.Prelude.{
  ◌-◌, [], none, not, str_eq, false, if◌then◌else◌, nat_eq, some, ◌&&◌, ◌∷◌, List, true, Bool,
  Option, ℕ,
}
use poundcake.Prelude.Text.{lower}
use poundcake.Segments.{or_value}
use poundcake.Status.{is_pending, resolving, ExecStatus, firing, Phase}
use poundcake.Cook.Finalize.{suppress_order}
use poundcake.Tables.{DishStatus, Order, Row, Dish}

-- what the commit holds: the dish, its order and the rows
pub record Suppressed : Type 0 where
  pub dish : Dish
  pub order : Order
  pub rows : List Row

unfoldable pub is_firing_phase : Phase → Bool
is_firing_phase firing = true
is_firing_phase resolving = false

-- the guards: `matches` says that find_first_matching_suppression finds one for the labels
unfoldable pub is_suppressed : Bool → Bool → Dish → Order → Bool
unfolding is_firing_phase
is_suppressed enabled matches d o =
    enabled
    && is_firing_phase d.run_phase
    && str_eq (lower o.alert_status) "firing"
    && order_is_subject_to_alert_suppressions o.raw_data
    && matches

unfoldable pub complete_dish : ℕ → Dish → Dish
complete_dish now d = record d {
  processing_status = DishStatus.complete;
  dish_exec_status = some ExecStatus.succeeded;
  started_at = some (or_value d.started_at now);
  completed_at = some now;
  run_time_secs = some (now - or_value d.started_at now);
  error_message = none;
  updated_at = now;
}

unfoldable pub unstarted : Option ℕ → Bool
unstarted none = true
unstarted (some t) = false

-- the WHERE clause of the UPDATE that drops rows
unfoldable pub is_droppable : ℕ → Row → Bool
unfolding unstarted
is_droppable dish r =
    nat_eq r.dish_id dish && not r.deleted && is_pending r.status && unstarted r.start_time

unfoldable pub drop_row : ℕ → Row → Row
drop_row now r = record r { deleted = true; updated_at = now }

unfoldable pub drop_rows : ℕ → ℕ → List Row → List Row
unfolding drop_row
drop_rows now dish [] = []
drop_rows now dish (r ∷ rs) =
    (if is_droppable dish r then drop_row now r else r) ∷ drop_rows now dish rs

unfoldable pub complete_suppressed_dish_if_matched :
    Bool → Bool → ℕ → Dish → Order → List Row → Option Suppressed
unfolding is_suppressed complete_dish drop_rows
complete_suppressed_dish_if_matched enabled matches now d o rows =
    if is_suppressed enabled matches d o
    then some (record {
      dish = complete_dish now d;
      order = suppress_order now o;
      rows = drop_rows now d.id rows;
    })
    else none
