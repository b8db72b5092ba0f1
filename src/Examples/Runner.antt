-- ===== src/Examples/Runner.antt =====
-- The expediter runner at a row that waits for it.
use poundcake.Prelude.{true, some, refl, [], ◌∷◌}
use poundcake.Prelude.Text.{lower, strip, text_or_empty}
use poundcake.Status.{ExecStatus, RunState, is_in_flight, run_state_blocks_dispatch}
use poundcake.Json.{Fields, field, end, text, get}
use poundcake.Tables.{Row}
use poundcake.Dishes.{ServicePlugin, expediter_runner_claimable, has_expediter_runner_receipt}
use poundcake.Dishes.Routes.{execution_claim, take_claim}
use poundcake.Timer.{is_terminal_text, status_of}
use poundcake.Runner.{Run, ExecuteReply, execute_row}
use poundcake.Runner.Ending.{EndsRun, execute_row-EndsRun, names_observed}
use poundcake.Examples.{row}

abbrev runner_row : Row
runner_row = record (row 5 1 ExecStatus.dispatched) {
  service_exec_id = some "expediter-runner:9";
  start_time = some 100;
}

abbrev plugin : ServicePlugin
plugin = record { service_type = "stackstorm"; enabled = true; health_status = RunState.healthy }

-- the provider accepted the execution under a number of its own
abbrev accepted : Fields
accepted = field "status" (text "dispatched") (field "service_exec_id" (text "run-9") end)

abbrev run : Run
run = record {
  plugins = plugin ∷ [];
  lock = 30;
  claimed_now = 120;
  now = 121;
  reconciled_now = 122;
  req = "E-1";
  caller = "expediter-runner";
  meets = ExecuteReply.answered accepted;
}

execute_row-EndsRun_example : EndsRun 5 (execute_row run runner_row (runner_row ∷ []))
unfolding execution_claim is_in_flight has_expediter_runner_receipt strip text_or_empty
    expediter_runner_claimable lower run_state_blocks_dispatch names_observed is_terminal_text
    status_of get
execute_row-EndsRun_example =
    execute_row-EndsRun run runner_row (take_claim 120 "E-1" runner_row) (runner_row ∷ [])
      (take_claim 120 "E-1" runner_row ∷ []) refl refl refl
