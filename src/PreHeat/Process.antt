-- ===== src/PreHeat/Process.antt =====
-- What one alert writes (api/services/pre_heat.py): new orders, the counting, reopening and resolving of
-- an order, and the attempt as a whole.
use poundcake.Prelude.{
  update_first, first, none, not, ◌∷◌, List, false, some, str_eq, true, ◌+◌, Bool, String,
  if◌then◌else◌, ℕ,
}
use poundcake.Prelude.Text.{strip, lower}
use poundcake.Status.{
  alert_resolved, should_keep_active, can_transition_to_resolving, is_order_terminal, OrderStatus,
  Outcome,
}
use poundcake.Segments.{or_value}
use poundcake.Json.{obj}
use poundcake.Tables.{Order}
use poundcake.PreHeat.{
  Alert, Intake, label, group_name, alert_status, severity, fingerprint, is_active_for,
  is_unresolved_for, is_warning_for, reply,
}

-- the columns of a new order that do not depend on the branch
unfoldable pub new_order : ℕ → ℕ → String → Alert → Order
new_order id now req a = record {
  id = id;
  req_id = req;
  fingerprint = fingerprint a;
  alert_group_name = group_name a;
  alert_status = "firing";
  processing_status = OrderStatus.new;
  is_active = true;
  remediation_outcome = Outcome.pending;
  clear_timeout_sec = none;
  clear_deadline_at = none;
  clear_timed_out_at = none;
  auto_close_eligible = false;
  severity = some (or_value (label "severity" a) "unknown");
  counter = 1;
  labels = obj a.labels;
  raw_data = some a.raw_data;
  starts_at = a.starts_at;
  ends_at = none;
  created_at = now;
  updated_at = now;
}

-- a warning needs no remediation
unfoldable pub warning_order : ℕ → ℕ → String → Alert → Order
unfolding new_order
warning_order id now req a = record (new_order id now req a) {
  processing_status = OrderStatus.complete;
  is_active = false;
  severity = some "warning";
  remediation_outcome = Outcome.none_needed;
}

unfoldable pub close_warning : ℕ → Alert → Order → Order
close_warning now a o = record o {
  alert_status = "resolved";
  ends_at = some (or_value a.ends_at now);
  processing_status = OrderStatus.complete;
  remediation_outcome = Outcome.none_needed;
  is_active = false;
  updated_at = now;
}

unfoldable pub count_warning : ℕ → Order → Order
count_warning now o = record o {
  counter = o.counter + 1;
  alert_status = "firing";
  processing_status = OrderStatus.complete;
  remediation_outcome = Outcome.none_needed;
  is_active = false;
  updated_at = now;
}

-- `_process_warning_alert`
unfoldable pub process_warning_alert : ℕ → ℕ → String → Alert → List Order → Intake × List Order
unfolding warning_order close_warning count_warning reply
process_warning_alert id now req a orders =
    let fp = fingerprint a in
    let existing = first (is_warning_for fp) orders in
    if str_eq (alert_status a) "resolved"
    then elim existing [
      | none ↦ (reply "ignored" none, orders)
      | some o ↦ (
        reply "warning_resolved" (some o),
        update_first (is_warning_for fp) (close_warning now a) orders,
      )
    ]
    else if not (str_eq (alert_status a) "firing")
    then (reply "ignored" existing, orders)
    else elim existing [
      | none ↦ (
        record { status = "warning_recorded"; order_id = some id },
        warning_order id now req a ∷ orders,
      )
      | some o ↦ (
        reply "warning_counter_incremented" (some o),
        update_first (is_warning_for fp) (count_warning now) orders,
      )
    ]

unfoldable pub reopened : OrderStatus → OrderStatus
reopened OrderStatus.resolving = OrderStatus.new
reopened s = s

-- `_increment_existing_order` with reopen_resolving, and without
unfoldable pub increment_and_reopen : ℕ → Order → Order
unfolding reopened
increment_and_reopen now o = record o {
  counter = o.counter + 1;
  updated_at = now;
  alert_status = "firing";
  processing_status = reopened o.processing_status;
  ends_at = none;
  is_active = true;
}

unfoldable pub increment_existing : ℕ → Order → Order
increment_existing now o = record o { counter = o.counter + 1; updated_at = now }

-- `_should_reopen_terminal_order_for_resolve`
unfoldable pub should_reopen_terminal : OrderStatus → String → Bool
should_reopen_terminal s prior =
    if is_order_terminal s then not (str_eq (lower (strip prior)) "resolved") else false

unfoldable pub resolved_status : Order → OrderStatus
unfolding should_reopen_terminal
resolved_status o =
    if can_transition_to_resolving o.processing_status alert_resolved
    then OrderStatus.resolving
    else if should_reopen_terminal o.processing_status o.alert_status
    then OrderStatus.resolving
    else o.processing_status

-- what a resolved alert writes
unfoldable pub resolve_order : ℕ → Alert → Order → Order
unfolding resolved_status
resolve_order now a o = record o {
  alert_status = "resolved";
  ends_at = a.ends_at;
  processing_status = resolved_status o;
  is_active =
      if is_order_terminal (resolved_status o)
      then false
      else should_keep_active (resolved_status o);
  updated_at = now;
}

unfoldable pub process_firing : ℕ → ℕ → String → Alert → List Order → Intake × List Order
unfolding new_order reply increment_and_reopen
process_firing id now req a orders = elim (first (is_active_for (fingerprint a)) orders) [
  | none ↦ (record { status = "created"; order_id = some id }, new_order id now req a ∷ orders)
  | some o ↦ (
    reply "counter_incremented" (some o),
    update_first (is_active_for (fingerprint a)) (increment_and_reopen now) orders,
  )
]

unfoldable pub process_resolved : ℕ → Alert → List Order → Intake × List Order
unfolding reply resolve_order is_unresolved_for is_active_for
process_resolved now a orders = elim (first (is_active_for (fingerprint a)) orders) [
  | some o ↦ (
    reply "resolved" (some o),
    update_first (is_active_for (fingerprint a)) (resolve_order now a) orders,
  )
  | none ↦ elim (first (is_unresolved_for (fingerprint a)) orders) [
    | some o ↦ (
      reply "resolved" (some o),
      update_first (is_unresolved_for (fingerprint a)) (resolve_order now a) orders,
    )
    | none ↦ (reply "ignored" none, orders)
  ]
]

-- one attempt of `_process_alert`, for an alert that is no watchdog's
unfoldable pub process_alert : ℕ → ℕ → String → Alert → List Order → Intake × List Order
unfolding process_warning_alert process_firing process_resolved reply
process_alert id now req a orders =
    if str_eq (severity a) "warning"
    then process_warning_alert id now req a orders
    else if str_eq (alert_status a) "firing"
    then process_firing id now req a orders
    else if str_eq (alert_status a) "resolved"
    then process_resolved now a orders
    else (reply "ignored" (first (is_active_for (fingerprint a)) orders), orders)
