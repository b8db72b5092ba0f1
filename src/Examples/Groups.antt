-- ===== src/Examples/Groups.antt =====
-- Timer's groups at two rows of a dish: one that a provider runs, and one that waits behind it.
use poundcake.Prelude.{
  true, false, none, some, refl, sym, ◌∙◌, inl, inr, [], ◌∷◌, ◌≡◌, ◌⊎◌, ◌&&◌, not, List, any, keep,
  sort_by,
}
use poundcake.Prelude.Text.{lower, strip, text_or_empty}
use poundcake.Status.{
  ExecStatus, is_in_flight, validate_execution_transition, normalize_execution_status, show_status,
  is_terminal, verdict_status, is_failure, is_pending,
}
use poundcake.Json.{field, end, text, get}
use poundcake.Tables.{Row}
use poundcake.Dishes.{has_expediter_runner_receipt}
use poundcake.Dishes.Routes.{find_row, poll_claim, reconcile}
use poundcake.Dishes.Listing.{View, same_key, dish_ingredient_identity}
use poundcake.Dishes.Keyed.{IsKeyed}
use poundcake.Dishes.Shown.{IsSingle}
use poundcake.Timer.{Poll, StatusReply, poll_row}
use poundcake.Timer.Groups.{
  Sweep, cancel_blocked_future_rows, monitor_group, poll_group, none_of, was_reconciled,
}
use poundcake.Timer.Cancelling.{is_doomed, Gone, cancel_blocked-exact}
use poundcake.Timer.Advancing.{in_flight_beside, monitor_group-advanced, monitor_group-Gone}
use poundcake.Examples.{row}

abbrev first_row : Row
first_row = record (row 5 1 ExecStatus.running) {
  recipe_ingredient_id = some 1;
  service_exec_id = some "run-9";
  start_time = some 100;
}

abbrev later_row : Row
later_row = record (row 6 2 ExecStatus.pending) { recipe_ingredient_id = some 2 }

abbrev rows : List Row
rows = first_row ∷ later_row ∷ []

abbrev view : View
view = record {
  answered = true;
  recipe_step_lookup = λ key. none;
  outranks = λ a b. false;
  before = λ a b. false;
}

abbrev sweep : Sweep
sweep = record {
  caller = "timer";
  now = λ id. 200;
  reconciled_now = λ id. 201;
  view = view;
  reason = λ r. "failed";
}

abbrev polls : Row → Poll
polls r = record {
  lock = 30;
  claimed_now = 200;
  now = 200;
  reconciled_now = 201;
  req = "T-1";
  caller = "timer";
  meets = StatusReply.answered (field "status" (text "failed") end);
}

keyed : IsKeyed rows
unfolding IsKeyed find_row
keyed r (inl e) = rw e refl
keyed r (inr (inl e)) = rw e refl
keyed r (inr (inr m)) = absurd m

single : IsSingle view 7 rows
unfolding IsSingle same_key dish_ingredient_identity
single a b (inl e) (inl f) da db h = e ∙ sym f
single a b (inl e) (inr (inl f)) da db h = absurd (let q : false ≡ true = rw (e, f) at h in cc)
single a b (inr (inl e)) (inl f) da db h = absurd (let q : false ≡ true = rw (e, f) at h in cc)
single a b (inr (inl e)) (inr (inl f)) da db h = e ∙ sym f
single a b (inl e) (inr (inr n)) da db h = absurd n
single a b (inr (inl e)) (inr (inr n)) da db h = absurd n
single a b (inr (inr m)) n da db h = absurd m

cancel_blocked-exact_example :
    ((is_doomed first_row later_row ≡ true)
      × Gone 6 (cancel_blocked_future_rows sweep first_row rows))
    ⊎ ((is_doomed first_row later_row ≡ false)
        × (find_row 6 (cancel_blocked_future_rows sweep first_row rows) ≡ some later_row))
unfolding lower strip has_expediter_runner_receipt text_or_empty
cancel_blocked-exact_example =
    cancel_blocked-exact sweep first_row rows keyed single refl refl later_row (inr (inl refl)) refl

monitor_group-advanced_example : (monitor_group sweep polls first_row [] rows).advanced ≡ (
    not (none_of (keep was_reconciled (poll_group polls (first_row ∷ []) rows).0))
    && not (any (in_flight_beside first_row) (poll_group polls (first_row ∷ []) rows).1))
monitor_group-advanced_example =
    monitor_group-advanced sweep polls first_row [] rows keyed single refl

monitor_group-Gone_example :
    (any (in_flight_beside first_row) (poll_group polls (first_row ∷ []) rows).1 ≡ false)
    × Gone 6 (monitor_group sweep polls first_row [] rows).rows
unfolding lower strip monitor_group poll_claim is_in_flight text_or_empty get reconcile
    has_expediter_runner_receipt validate_execution_transition normalize_execution_status
    show_status sort_by is_terminal verdict_status is_failure is_pending
monitor_group-Gone_example =
    monitor_group-Gone sweep polls first_row [] rows keyed single refl refl refl
      (poll_row (polls first_row) first_row rows).0 refl refl later_row (inr (inl refl)) refl refl
