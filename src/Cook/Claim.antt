-- ===== src/Cook/Claim.antt =====
-- The writes of `_advance_dish` (api/api/cook.py): the claim of a segment's rows and the terminal
-- dish.
use poundcake.Prelude.{
  ◌∷◌, [], false, if◌then◌else◌, ◌&&◌, any, nat_eq, none, true, ◌-◌, Bool, some, List, Option,
  String, ℕ,
}
use poundcake.Cook.{end, int, text, bool, field, obj, Terminal}
use poundcake.Segments.{or_value}
use poundcake.Tables.{DishStatus, Dish, Row}
use poundcake.Json.{Value}
use poundcake.Prelude.Text.{show_nat}
use poundcake.Status.{is_pending, running}
use Prim.Native.String.{◌++◌ as append}
use mathlib.Core.Option

-- EXPEDITER_RUNNER_RECEIPT_PREFIX and the receipt of a row; `digits` prints its number
abbrev pub receipt_prefix : String
receipt_prefix = "expediter-runner:"

unfoldable pub receipt : ℕ → String
unfolding show_nat
receipt id = append receipt_prefix (show_nat id)

running_outcome : ℕ → Value
running_outcome id = obj (
    field "success" (bool true) (
      field "status" (text "running") (
        field "receipt_owner" (text "expediter-runner") (field "dish_ingredient_id" (int id) end))))

is_none {ℓ} : {A : Type ℓ} → Option A → Bool
is_none none = true
is_none (some a) = false

-- the WHERE clause of the claim
unfoldable pub is_claimable : ℕ → Row → Bool
unfolding is_none is_pending
is_claimable id r =
    nat_eq r.id id && is_pending r.status && is_none r.start_time && is_none r.claimed_at

-- the VALUES of the claim
unfoldable pub mark_running : ℕ → Row → Row
unfolding receipt running_outcome
mark_running now r = record r {
  status = running;
  start_time = some now;
  service_exec_id = some (receipt r.id);
  actual_outcome = some (running_outcome r.id);
  claimed_at = none;
  claimed_by = none;
  updated_at = now;
}

-- UPDATE dish_ingredients … WHERE id = row_id …, and whether a row was written
unfoldable pub claim_row : ℕ → ℕ → List Row → List Row
claim_row now id [] = []
claim_row now id (r ∷ rs) =
    (if is_claimable id r then mark_running now r else r) ∷ claim_row now id rs

unfoldable pub was_claimed : ℕ → List Row → Bool
was_claimed id rows = any (is_claimable id) rows

-- the rows of the database and the dish, which may be gone when it is read again
pub record Kitchen : Type 0 where
  pub dish : Option Dish
  pub rows : List Row

start_dish : ℕ → Dish → Dish
start_dish now d = record d {
  processing_status = DishStatus.processing;
  started_at = some (or_value d.started_at now);
  updated_at = now;
}

-- the loop over `ready`: each row's number, with the instant at which the loop reaches it
unfoldable pub claim_rows : List (ℕ × ℕ) → Kitchen → Kitchen × List ℕ
unfolding start_dish
claim_rows [] k = (k, [])
claim_rows ((id, now) ∷ ready) k =
    let claimed = was_claimed id k.rows in
    let (k', dispatched) = claim_rows ready (record {
      dish = if claimed then Option.map (start_dish now) k.dish else k.dish;
      rows = claim_row now id k.rows;
    }) in
    (k', if claimed then id ∷ dispatched else dispatched)

seconds_between : Option ℕ → ℕ → Option ℕ
seconds_between none now = none
seconds_between (some t) now = some (now - t)

-- the terminal writes to the dish; runtime_seconds is never below 0
unfoldable pub finish_dish : ℕ → Terminal → Dish → Dish
unfolding seconds_between
finish_dish now t d = record d {
  processing_status = t.dish_status;
  dish_exec_status = some t.exec_status;
  completed_at = some now;
  run_time_secs = seconds_between d.started_at now;
  error_message = t.error;
}
