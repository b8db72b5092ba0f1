-- ===== src/Examples/Dishes.antt =====
-- The theorems on claims, releases, reconciliations and advancing at concrete rows.
use poundcake.Dishes.{advance_ready_representative}
use poundcake.Status.{is_in_flight, ExecStatus, is_terminal}
use poundcake.Dishes.Routes.{
  apply_update, poll_claim, http_error, updated, put_row, release_claim, take_claim, Upsert,
  settle_row,
}
use poundcake.Dishes.Advancing.{representative-some}
use poundcake.Dishes.Claiming.{claim-release-claim, claim-claim, polls, claim}
use poundcake.Dishes.Reconciling.{apply_update-terminal}
use poundcake.Prelude.{arith, inl, inr, refl, [], true, none, some, ◌∷◌, List, ◌≡◌}
use poundcake.Examples.{row}
use poundcake.Tables.{Row}

-- a row that Timer may claim, and one that the expediter runner has to execute
abbrev polled : Row
polled = row 5 1 ExecStatus.running

abbrev held : Row
held = take_claim 100 "T-1" polled

abbrev open_rows : List Row
open_rows = polled ∷ []

abbrev held_rows : List Row
held_rows = put_row held open_rows

claim-claim_example : claim polls 30 110 "T-2" 5 held_rows ≡ http_error 409
unfolding claim poll_claim is_in_flight
claim-claim_example =
    claim-claim polls polls 30 100 110 "T-1" "T-2" 5 open_rows held_rows held refl (omega arith)

claim-release-claim_example :
    (s : Row) × (freed : List Row) × (t : Row) × (taken : List Row) × (release_claim "T-1" 5
        held_rows
      ≡ updated s freed)
    × (poll_claim 30 101 "T-2" 5 freed ≡ updated t taken)
    × (t.claimed_by ≡ some "T-2")
unfolding claim poll_claim is_in_flight
claim-release-claim_example =
    claim-release-claim polls 30 100 101 "T-1" "T-2" 5 open_rows held_rows held refl

-- an update that sets the error and nothing else
abbrev error_only : Upsert
error_only = record {
  status = none;
  req_id = none;
  recipe_ingredient_id = none;
  task_key = none;
  service_type = none;
  service_exec = none;
  service_exec_parameters = none;
  on_failure = none;
  service_exec_id = none;
  expected_secs = none;
  timeout_secs = none;
  expected = none;
  actual = none;
  started = none;
  completed = none;
  run_secs = none;
  claim_time = none;
  claim_owner = none;
  error = some (some "late");
}

abbrev over : Row
over = row 6 1 ExecStatus.failed

apply_update-terminal_example :
    is_terminal (settle_row 120 error_only ExecStatus.failed over).status ≡ true
unfolding is_terminal apply_update
apply_update-terminal_example =
    apply_update-terminal 120 error_only over (settle_row 120 error_only ExecStatus.failed over)
      refl refl

abbrev reconciled : Row
reconciled = settle_row 120 error_only ExecStatus.running polled

abbrev ended_rows : List Row
ended_rows = row 7 1 ExecStatus.succeeded ∷ over ∷ []

representative-some_example : (r : Row) × (advance_ready_representative ended_rows ≡ some r)
unfolding is_in_flight
representative-some_example = representative-some ended_rows over (inr (inl refl)) refl
