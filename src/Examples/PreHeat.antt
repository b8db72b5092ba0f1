-- ===== src/Examples/PreHeat.antt =====
-- The theorems on the intake of alerts at a concrete alert.
use poundcake.Prelude.{
  count_if, nat_eq, if◌then◌else◌, ◌≢◌, ℕ, none, refl, [], arith, true, ◌∷◌, ◌≡◌, ◌≤◌, some, List,
  any,
}
use poundcake.PreHeat.Retry.{
  commits, loop_exited, Attempt, attempt_once, lock_error, Call, process_with_retries,
}
use poundcake.PreHeat.Retrying.{process_with_retries-decided, process_with_retries-ends}
use poundcake.PreHeat.{fingerprint, alert_status, severity, is_active_for, Alert}
use poundcake.PreHeat.Process.{process_alert}
use poundcake.Json.{get, null, end, text, field}
use poundcake.Prelude.Text.{strip, lower}
use poundcake.Status.{should_keep_active, OrderStatus}
use poundcake.PreHeat.Single.{process_alert-firing_active, process_alert-active_le_one}
use poundcake.Examples.{order}
use poundcake.Tables.{Order}

abbrev pub alert : Alert
alert = record {
  status = some "firing";
  fingerprint = some "f00";
  labels = field "alertname" (text "host-down") (field "severity" (text "critical") end);
  starts_at = 10;
  ends_at = none;
  raw_data = null;
}

-- an active order of the alert's fingerprint, in its resolving phase
abbrev current : List Order
current = order OrderStatus.resolving "resolved" ∷ order OrderStatus.complete "resolved" ∷ []

process_alert-active_le_one_example :
    count_if (is_active_for "f00") (process_alert 9 50 "SYSTEM-2" alert current).1 ≤ 1
unfolding count_if is_active_for should_keep_active
process_alert-active_le_one_example =
    process_alert-active_le_one 9 50 "SYSTEM-2" alert current "f00" (omega arith)

process_alert-firing_active_example :
    any (is_active_for "f00") (process_alert 9 50 "SYSTEM-2" alert current).1 ≡ true
unfolding severity lower strip get alert_status fingerprint
process_alert-firing_active_example =
    process_alert-firing_active 9 50 "SYSTEM-2" alert current refl refl

-- a call that meets one lock error
once_locked : ℕ → Attempt
once_locked n = if nat_eq n 1 then lock_error else commits

abbrev call : Call
call = record {
  id = 9;
  now = 50;
  req = "SYSTEM-2";
  alert = alert;
  meets = once_locked;
  sees = λ n. current;
  recovery_sees = current;
}

process_with_retries-decided_example :
    process_with_retries call ≡ attempt_once call (call.meets 2) (call.sees 2) loop_exited
unfolding once_locked
process_with_retries-decided_example =
    process_with_retries-decided call 2 (omega arith) (omega arith) (λ m lo hi. ground arith)
      (λ e. cc)

process_with_retries-ends_example : process_with_retries call ≢ loop_exited
process_with_retries-ends_example = process_with_retries-ends call
