-- ===== src/Examples/Timer.antt =====
-- Timer's theorems at a row that it polls.
use poundcake.Prelude.Text.{text_or_empty, strip, lower}
use poundcake.Dishes.{has_expediter_runner_receipt}
use poundcake.Status.{is_in_flight, ExecStatus}
use poundcake.Dishes.Routes.{poll_claim, take_claim, find_row}
use poundcake.Timer.Carrying.{given_updates, Carries, actual_outcome-Carries}
use poundcake.Prelude.{none, some, true, refl, [], ◌∷◌, ◌≡◌, String}
use poundcake.Json.{Value, Fields, end, field, obj, text, get}
use poundcake.Tables.{Row}
use poundcake.Timer.{Poll, StatusReply, poll_row, runtime_exceeded_timeout}
use poundcake.Timer.Context.{actual_outcome_with_context_updates, kept_updates}
use poundcake.Timer.Polling.{Ends, poll_row-Ends}
use poundcake.Timer.Refusing.{poll_row-Stuck}
use poundcake.Examples.{row}

-- a row that a provider runs, and one that waits for the expediter runner
abbrev started : String → Row
started exec_id = record (row 5 1 ExecStatus.running) {
  service_exec_id = some exec_id;
  start_time = some 100;
}

abbrev poll : StatusReply → Poll
poll reply = record {
  lock = 30;
  claimed_now = 200;
  now = 200;
  reconciled_now = 201;
  req = "T-1";
  caller = "timer";
  meets = reply;
}

abbrev succeeded_body : Fields
succeeded_body = field "status" (text "Succeeded") end

abbrev provider_row : Row
provider_row = started "run-9"

abbrev runner_row : Row
runner_row = started "expediter-runner:9"

poll_row-Ends_example :
    Ends true 5
      (poll_row (poll (StatusReply.answered succeeded_body)) provider_row (provider_row ∷ []))
unfolding poll_claim is_in_flight lower strip has_expediter_runner_receipt text_or_empty
    runtime_exceeded_timeout
poll_row-Ends_example =
    poll_row-Ends (poll (StatusReply.answered succeeded_body)) provider_row
      (take_claim 200 "T-1" provider_row) (provider_row ∷ [])
      (take_claim 200 "T-1" provider_row ∷ []) refl refl refl

poll_row-Stuck_example :
    let (p, left) =
      poll_row (poll (StatusReply.answered succeeded_body)) runner_row (runner_row ∷ []) in
    (p.reconciled ≡ none)
    × (left ≡ take_claim 200 "T-1" runner_row ∷ [])
    × (find_row 5 left ≡ some (take_claim 200 "T-1" runner_row))
    × ((take_claim 200 "T-1" runner_row).claimed_by ≡ some "T-1")
unfolding poll_claim is_in_flight lower strip has_expediter_runner_receipt text_or_empty
    runtime_exceeded_timeout
poll_row-Stuck_example =
    poll_row-Stuck (poll (StatusReply.answered succeeded_body)) runner_row
      (take_claim 200 "T-1" runner_row) (runner_row ∷ []) (take_claim 200 "T-1" runner_row ∷ [])
      refl refl refl refl

abbrev kept_outcome : Value
kept_outcome = obj (field "context_updates" (obj (field "ticket" (text "T-7") end)) end)

actual_outcome-Carries_example :
    Carries "ticket"
      (text "T-7")
      (actual_outcome_with_context_updates (some kept_outcome) (some succeeded_body))
unfolding get kept_updates given_updates
actual_outcome-Carries_example =
    actual_outcome-Carries (some kept_outcome) (some succeeded_body) "ticket" (text "T-7") refl refl
