-- ===== src/Timer.antt =====
-- One poll of Timer (kitchen/timer.py): `_poll_row` with the calls that it makes, against the
-- transactions of api/api/dishes.py that they reach. The answers of the routes to claim, to release
-- and to reconcile arrive; the provider's status, which the expediter asks for, is what each poll
-- meets. Log lines and the texts that only its log shows are left out.
-- Context has the updates that an outcome carries, Groups the rows of a dish that lie in one bucket,
-- and Monitors the passes; the proofs are in Carrying, Polling, Refusing, Cancelling, Steady,
-- Advancing and Lasting.
pub mod Context
pub mod Polling
pub mod Refusing
pub mod Carrying
pub mod Groups
pub mod Cancelling
pub mod Steady
pub mod Advancing
pub mod Monitors
pub mod Lasting
use poundcake.Prelude.{
  ℕ, String, Bool, true, false, not, Option, none, some, List, [], ◌∷◌, str_eq, nat_eq, ltb, one_of,
  ◌-◌, ◌&&◌, ◌||◌, if◌then◌else◌,
}
use Prim.Native.String.{◌++◌ as append}
use poundcake.Prelude.Text.{strip, lower, show_nat, text_or_empty}
use poundcake.Json.{
  Value, Fields, end, field, obj, text, bool, int, get_or_null, first_truthy, dict_of,
}
use poundcake.Status.{is_failure}
use poundcake.Segments.{continues}
use poundcake.Tables.{Row}
use poundcake.Dishes.Routes.{
  Reply, http_error, updated, Upsert, Reconciler, poll_claim, release_claim, reconcile,
}
use poundcake.Timer.Context.{actual_outcome_with_context_updates}

-- `_runtime_exceeded_timeout`
unfoldable pub runtime_exceeded_timeout : ℕ → Row → Bool
runtime_exceeded_timeout now r = elim r.service_exec_timeout [
  | none ↦ false
  | some limit ↦ elim r.start_time [
    | none ↦ false
    | some started ↦ not (nat_eq limit 0) && not (ltb (now - started) limit)
  ]
]

since_start : ℕ → Row → Option (Option ℕ)
since_start now r = elim r.start_time [ none ↦ none | some started ↦ some (some (now - started)) ]

-- `_reconcile_payload`; service_exec_sla_exceeded is not among the keys, as the route computes it anew
unfoldable pub reconcile_payload : ℕ → Row → String → Option Fields → Option String → Upsert
unfolding since_start actual_outcome_with_context_updates
reconcile_payload now r status outcome error = record {
  status = some status;
  req_id = none;
  recipe_ingredient_id = none;
  task_key = none;
  service_type = none;
  service_exec = none;
  service_exec_parameters = none;
  on_failure = none;
  service_exec_id = none;
  expected_secs = none;
  timeout_secs = none;
  expected = none;
  actual = some (actual_outcome_with_context_updates r.actual_outcome outcome);
  started = none;
  completed = some (some now);
  run_secs = since_start now r;
  claim_time = none;
  claim_owner = none;
  error = some error;
}

-- `_is_blocking_failure`
unfoldable pub is_blocking_after : Row → Row → Bool
is_blocking_after r reconciled = is_failure reconciled.status && not (continues r.on_failure)

-- What the request for the provider's status meets: an exception with its text, a status code of 400
-- or more with the detail, or a body.
pub data StatusReply : Type 0 where
  transport_failure : String → StatusReply
  refused : ℕ → String → StatusReply
  answered : Fields → StatusReply

-- One poll: the setting lock_timeout_seconds, the clocks of the claim, of Timer and of the reconciling
-- request, the request's number, Timer's service_type, and the answer to the request for the status.
pub record Poll : Type 0 where
  pub lock : ℕ
  pub claimed_now : ℕ
  pub now : ℕ
  pub reconciled_now : ℕ
  pub req : String
  pub caller : String
  pub meets : StatusReply

-- `_poll_result`, and whether the provider was asked to cancel
pub record Polled : Type 0 where
  pub row : Row
  pub reconciled : Option Row
  pub blocking_failure : Bool
  pub cancel_asked : Bool

-- TERMINAL_EXECUTION_STATUSES, as texts
unfoldable pub is_terminal_text : String → Bool
is_terminal_text s = one_of s ("succeeded" ∷ "failed" ∷ "errored" ∷ "timeout" ∷ "canceled" ∷ [])

-- `str(body.get("status") or "").strip().lower()`, where a value that is no text names no status
unfoldable pub status_of : Value → String
status_of (text s) = lower (strip s)
status_of _ = ""

-- the body's service_exec_error, whose schema has a text or null
unfoldable pub error_of : Value → Option String
error_of (text s) = some s
error_of _ = none

unfoldable pub identity : Row → String × String
identity r = (lower (strip r.service_type), strip (text_or_empty r.service_exec_id))

-- `_release_row`, and the result of a row that is not reconciled
unfoldable pub release_polled : Poll → Row → List Row → Polled × List Row
release_polled c r rows = (
  record { row = r; reconciled = none; blocking_failure = false; cancel_asked = false },
  elim (release_claim c.req r.id rows) [ http_error code ↦ rows | updated freed after ↦ after ],
)

-- `_post_reconcile`, and the result of its answer
unfoldable pub post_reconcile : Poll → Bool → Upsert → Row → List Row → Polled × List Row
unfolding is_blocking_after
post_reconcile c cancel payload r rows =
    elim (reconcile Reconciler.timer c.caller c.reconciled_now payload r.id rows) [
      | http_error code ↦ (
        record { row = r; reconciled = none; blocking_failure = false; cancel_asked = cancel },
        rows,
      )
      | updated reconciled after ↦ (
        record {
          row = r;
          reconciled = some reconciled;
          blocking_failure = is_blocking_after r reconciled;
          cancel_asked = cancel;
        },
        after,
      )
    ]

-- the outcomes that Timer writes itself
unfoldable pub missing_identity : Fields
missing_identity = field "success" (bool false) (
    field "status" (text "timeout")
      (field "reason" (text "missing_service_execution_identity") end))

unfoldable pub transport_outcome : String → Fields
transport_outcome exec_id = field "timeout" (bool true) (
    field "service_exec_id" (text exec_id)
      (field "reason" (text "expediter_status_poll_transport_failure") end))

unfoldable pub refused_outcome : ℕ → String → String × String → Fields
refused_outcome code detail (service_type, exec_id) = field "success" (bool false) (
    field "status" (text "errored") (
      field "reason" (text "expediter_status_poll_failed") (
        field "http_status" (int code) (
          field "service_type" (text service_type)
            (field "service_exec_id" (text exec_id) (field "detail" (text detail) end))))))

unfoldable pub late_outcome : String → Fields
late_outcome exec_id = field "timeout" (bool true) (field "service_exec_id" (text exec_id) end)

unfoldable pub poll_body : Poll → Fields → Row → List Row → Polled × List Row
unfolding status_of is_terminal_text error_of late_outcome runtime_exceeded_timeout post_reconcile
    release_polled reconcile_payload identity first_truthy dict_of
poll_body c body r rows =
    let status = status_of (get_or_null "status" body) in
    if not (is_terminal_text status)
    then if runtime_exceeded_timeout c.now r
      then post_reconcile c true
          (reconcile_payload c.now r "timeout" (some (late_outcome (identity r).1))
            (some "Service execution timed out"))
          r rows
      else release_polled c r rows
    else post_reconcile c false
        (reconcile_payload c.now r status
          (dict_of (
            first_truthy (get_or_null "service_exec_actual_outcome" body) (get_or_null "raw" body)))
          (error_of (get_or_null "service_exec_error" body)))
        r rows

unfoldable pub poll_status : Poll → StatusReply → Row → List Row → Polled × List Row
unfolding transport_outcome refused_outcome runtime_exceeded_timeout post_reconcile release_polled
    reconcile_payload poll_body identity
poll_status c (transport_failure error) r rows =
    if runtime_exceeded_timeout c.now r
    then post_reconcile c true
        (reconcile_payload c.now r "timeout" (some (transport_outcome (identity r).1))
          (some (append "Service execution timed out while polling plugin status: " error)))
        r rows
    else release_polled c r rows
poll_status c (refused code detail) r rows =
    post_reconcile c false
      (reconcile_payload c.now r "errored" (some (refused_outcome code detail (identity r))) (
        some (
          append "Expediter status poll failed with HTTP "
            (append (show_nat code) (append ": " detail)))))
      r rows
poll_status c (answered body) r rows = poll_body c body r rows

-- the row as the claim returned it
unfoldable pub poll_claimed : Poll → Row → List Row → Polled × List Row
unfolding missing_identity runtime_exceeded_timeout post_reconcile release_polled reconcile_payload
    poll_status identity
poll_claimed c r rows =
    if str_eq (identity r).0 "" || str_eq (identity r).1 ""
    then if not (runtime_exceeded_timeout c.now r)
      then release_polled c r rows
      else post_reconcile c false
          (reconcile_payload c.now r "timeout" (some missing_identity)
            (some "Missing service_type or service_exec_id"))
          r rows
    else poll_status c c.meets r rows

-- `_poll_row`
unfoldable pub poll_row : Poll → Row → List Row → Polled × List Row
unfolding poll_claimed
poll_row c r rows = elim (poll_claim c.lock c.claimed_now c.req r.id rows) [
  | http_error code ↦
      (record { row = r; reconciled = none; blocking_failure = false; cancel_asked = false }, rows)
  | updated claimed after ↦ poll_claimed c claimed after
]
