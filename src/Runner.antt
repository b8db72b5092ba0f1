-- ===== src/Runner.antt =====
-- The expediter runner (kitchen/expediter_runner.py): `_execute_row` with the calls that it makes,
-- against the transactions of api/api/dishes.py that they reach. The answers of the routes to claim,
-- to release and to reconcile arrive; what the request to execute meets is given for each run. Log
-- lines are left out. The proofs are in Ending.
pub mod Ending
use poundcake.Prelude.{
  ℕ, String, Bool, true, false, Option, none, some, List, str_eq, ◌-◌, if◌then◌else◌,
}
use Prim.Native.String.{◌++◌ as append}
use poundcake.Prelude.Text.{show_nat}
use poundcake.Json.{
  Value, Fields, end, field, obj, text, bool, get_or_null, first_truthy, dict_of, fields_of,
  set_field,
}
use poundcake.Tables.{Row}
use poundcake.Dishes.{ServicePlugin}
use poundcake.Dishes.Routes.{
  http_error, updated, Upsert, Reconciler, execution_claim, release_claim, reconcile,
}
use poundcake.Timer.{is_terminal_text, status_of, error_of}
use poundcake.Timer.Context.{kept_updates, merge}

-- What the request to execute meets: an exception with its text, a status code of 400 or more with the
-- response's text, a body that is no object, or a body.
pub data ExecuteReply : Type 0 where
  transport_failure : String → ExecuteReply
  refused : ℕ → String → ExecuteReply
  not_object : ExecuteReply
  answered : Fields → ExecuteReply

-- One run: the plugins, the setting lock_timeout_seconds, the clocks of the claim, of the runner and
-- of the reconciling request, the request's number, the runner's service_type, and the answer.
pub record Run : Type 0 where
  pub plugins : List ServicePlugin
  pub lock : ℕ
  pub claimed_now : ℕ
  pub now : ℕ
  pub reconciled_now : ℕ
  pub req : String
  pub caller : String
  pub meets : ExecuteReply

-- the reconciled row, and whether Cook was asked to advance the dish
pub record Executed : Type 0 where
  pub reconciled : Option Row
  pub advance_asked : Bool

-- `_runtime_seconds`, as the key that a payload then has
unfoldable pub run_secs_of : ℕ → Row → Option (Option ℕ)
run_secs_of now r = elim r.start_time [ none ↦ none | some started ↦ some (some (now - started)) ]

-- `_merged_context_updates`
unfoldable pub merged_updates : Row → Fields → Fields
unfolding kept_updates merge
merged_updates r body =
    merge (kept_updates r.actual_outcome) (fields_of (get_or_null "context_updates" body))

-- `body.get("service_exec_id") or row.get("service_exec_id")`, for a text or null
unfoldable pub exec_id_of : Row → Value → Option String
exec_id_of r (text s) = if str_eq s "" then r.service_exec_id else some s
exec_id_of r _ = r.service_exec_id

unfoldable pub with_updates : Fields → Fields → Fields
unfolding set_field
with_updates end outcome = outcome
with_updates updates outcome = set_field "_context_updates" (obj updates) outcome

unfoldable pub terminal_outcome : Row → Fields → Option Value
unfolding merged_updates with_updates dict_of first_truthy
terminal_outcome r body =
    elim (dict_of
      (first_truthy (get_or_null "service_exec_actual_outcome" body) (get_or_null "raw" body))) [
        | none ↦ none
        | some outcome ↦ some (obj (with_updates (merged_updates r body) outcome))
      ]

-- `_terminal_payload`; service_exec_sla_exceeded is not among the keys, as the route computes it anew
unfoldable pub terminal_payload : ℕ → Row → Fields → String → Upsert
unfolding exec_id_of run_secs_of terminal_outcome error_of
terminal_payload now r body status = record {
  status = some status;
  req_id = none;
  recipe_ingredient_id = none;
  task_key = none;
  service_type = none;
  service_exec = none;
  service_exec_parameters = none;
  on_failure = none;
  service_exec_id = some (exec_id_of r (get_or_null "service_exec_id" body));
  expected_secs = none;
  timeout_secs = none;
  expected = none;
  actual = some (terminal_outcome r body);
  started = none;
  completed = some (some now);
  run_secs = run_secs_of now r;
  claim_time = none;
  claim_owner = none;
  error = some (error_of (get_or_null "service_exec_error" body));
}

unfoldable pub kept_outcome : Fields → Option (Option Value)
kept_outcome end = none
kept_outcome updates = some (some (obj (field "_context_updates" (obj updates) end)))

-- `status or "running"`, and running for dispatched
unfoldable pub observed_status : String → String
observed_status s =
    if str_eq s "" then "running" else if str_eq s "dispatched" then "running" else s

-- `_nonterminal_payload`
unfoldable pub nonterminal_payload : Row → Fields → String → Upsert
unfolding exec_id_of kept_outcome merged_updates observed_status error_of
nonterminal_payload r body status = record {
  status = some (observed_status status);
  req_id = none;
  recipe_ingredient_id = none;
  task_key = none;
  service_type = none;
  service_exec = none;
  service_exec_parameters = none;
  on_failure = none;
  service_exec_id = some (exec_id_of r (get_or_null "service_exec_id" body));
  expected_secs = none;
  timeout_secs = none;
  expected = none;
  actual = kept_outcome (merged_updates r body);
  started = none;
  completed = none;
  run_secs = none;
  claim_time = none;
  claim_owner = none;
  error = some (error_of (get_or_null "service_exec_error" body));
}

-- `_error_payload`
unfoldable pub error_payload : ℕ → Row → String → Upsert
unfolding run_secs_of
error_payload now r error = record {
  status = some "errored";
  req_id = none;
  recipe_ingredient_id = none;
  task_key = none;
  service_type = none;
  service_exec = none;
  service_exec_parameters = none;
  on_failure = none;
  service_exec_id = none;
  expected_secs = none;
  timeout_secs = none;
  expected = none;
  actual = some (
      some (
        obj (
          field "success" (bool false) (
            field "status" (text "errored") (
              field "reason" (text "expediter_runner_execute_failed")
                (field "detail" (text error) end))))));
  started = none;
  completed = some (some now);
  run_secs = run_secs_of now r;
  claim_time = none;
  claim_owner = none;
  error = some (some error);
}

-- `_post_reconcile`, with `_advance_dish` where it succeeds
unfoldable pub settle_execution : Run → Upsert → Row → List Row → Executed × List Row
settle_execution c payload r rows =
    elim (reconcile Reconciler.expediter_runner c.caller c.reconciled_now payload r.id rows) [
      | http_error code ↦ (record { reconciled = none; advance_asked = false }, rows)
      | updated x after ↦ (record { reconciled = some x; advance_asked = true }, after)
    ]

-- `_post_reconcile`, with `_release_row` where it succeeds
unfoldable pub hand_over : Run → Upsert → Row → List Row → Executed × List Row
hand_over c payload r rows =
    elim (reconcile Reconciler.expediter_runner c.caller c.reconciled_now payload r.id rows) [
      | http_error code ↦ (record { reconciled = none; advance_asked = false }, rows)
      | updated x after ↦ (
        record { reconciled = some x; advance_asked = false },
        elim (release_claim c.req r.id after) [ http_error code ↦ after | updated y freed ↦ freed ],
      )
    ]

-- the row as the claim returned it
unfoldable pub execute_claimed : Run → ExecuteReply → Row → List Row → Executed × List Row
unfolding settle_execution hand_over error_payload terminal_payload nonterminal_payload status_of
    is_terminal_text
execute_claimed c (ExecuteReply.transport_failure error) r rows =
    settle_execution c (error_payload c.now r (append "Expediter runner transport failure: " error))
      r rows
execute_claimed c (ExecuteReply.refused code detail) r rows =
    settle_execution c
      (error_payload c.now r (
        append "Expediter execute failed with HTTP " (append (show_nat code) (append ": " detail))))
      r rows
execute_claimed c ExecuteReply.not_object r rows =
    settle_execution c (error_payload c.now r "Expediter execute returned a non-object payload") r
      rows
execute_claimed c (ExecuteReply.answered body) r rows =
    let status = status_of (get_or_null "status" body) in
    if is_terminal_text status
    then settle_execution c (terminal_payload c.now r body status) r rows
    else hand_over c (nonterminal_payload r body status) r rows

-- `_execute_row`
unfoldable pub execute_row : Run → Row → List Row → Executed × List Row
unfolding execute_claimed
execute_row c r rows = elim (execution_claim c.plugins c.lock c.claimed_now c.req r.id rows) [
  | http_error code ↦ (record { reconciled = none; advance_asked = false }, rows)
  | updated claimed after ↦ execute_claimed c c.meets claimed after
]
