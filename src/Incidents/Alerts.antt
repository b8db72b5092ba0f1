-- ===== src/Incidents/Alerts.antt =====
-- Whether an order's alert fires among the alerts that Prometheus shows, and what the observation
-- writes to the order.
use poundcake.Prelude.{
  ℕ, String, Bool, true, false, not, Option, none, some, List, [], ◌∷◌, str_eq, ◌&&◌, ◌||◌, all,
  any, if◌then◌else◌,
}
use poundcake.Prelude.Text.{strip, lower}
use poundcake.Json.{Value, Fields, text, null, get_or_null, dict_of, fields_of}
use poundcake.Status.{OrderStatus, alert_resolved, can_transition_to_resolving}
use poundcake.Segments.{or_value}
use poundcake.Tables.{Order}
use poundcake.Incidents.{Python, str_or_empty}

-- RECONCILE_MATCH_LABEL_KEYS
abbrev pub match_label_keys : List String
match_label_keys =
    "alertname" ∷ "group_name" ∷ "severity" ∷ "namespace" ∷ "cluster" ∷ "horizontalpodautoscaler"
    ∷ "deployment" ∷ "statefulset" ∷ "daemonset" ∷ "replicaset" ∷ "persistentvolumeclaim"
    ∷ "persistentvolume" ∷ "pod" ∷ "container" ∷ "node" ∷ "node_name" ∷ "k8s_node_name"
    ∷ "host_name" ∷ "node_hostname" ∷ "hostname" ∷ "instance" ∷ "job" ∷ "service" ∷ []

-- `value not in (None, "")`, and its text
unfoldable pub label_text : Python → Value → Option String
label_text py null = none
label_text py (text s) = if str_eq s "" then none else some s
label_text py v = some (py.str v)

-- `_matching_labels`
unfoldable pub matching_labels : Python → Fields → List String → List (String × String)
unfolding label_text
matching_labels py labels [] = []
matching_labels py labels (k ∷ ks) =
    let rest = matching_labels py labels ks in
    elim (label_text py (get_or_null k labels)) [ none ↦ rest | some v ↦ (k, v) ∷ rest ]

unfoldable pub has_label : Python → Fields → String × String → Bool
unfolding label_text
has_label py labels (k, v) = elim (label_text py (get_or_null k labels)) [
  | none ↦ false
  | some w ↦ str_eq w v
]

unfoldable pub no_labels : List (String × String) → Bool
no_labels [] = true
no_labels (x ∷ xs) = false

-- `_alert_matches_order`, for an alert that is a dict
unfoldable pub alert_matches_order : Python → Order → Fields → Bool
unfolding str_or_empty matching_labels has_label no_labels
alert_matches_order py o alert = elim (dict_of (get_or_null "labels" alert)) [
  | none ↦ false
  | some labels ↦
      let fp = strip (str_or_empty py (get_or_null "fingerprint" alert)) in
      let expected = matching_labels py (fields_of o.labels) match_label_keys in
      if not (str_eq fp "") && str_eq fp (strip o.fingerprint)
      then true
      else not (no_labels expected) && all (has_label py labels) expected
]

-- the test of one alert in the loop of `_alert_is_firing`
unfoldable pub fires_for : Python → Order → Fields → Bool
unfolding str_or_empty alert_matches_order
fires_for py o alert =
    let state = lower (strip (str_or_empty py (get_or_null "state" alert))) in
    (str_eq state "" || str_eq state "firing") && alert_matches_order py o alert

-- `_alert_is_firing`
unfoldable pub alert_is_firing : Python → Order → List Fields → Bool
unfolding fires_for
alert_is_firing py o alerts = any (fires_for py o) alerts

unfoldable pub is_resolving : OrderStatus → Bool
is_resolving OrderStatus.resolving = true
is_resolving _ = false

unfoldable pub refired_status : OrderStatus → OrderStatus
unfolding is_resolving
refired_status s = if is_resolving s then OrderStatus.new else s

unfoldable pub cleared_status : OrderStatus → OrderStatus
cleared_status s = if can_transition_to_resolving s alert_resolved then OrderStatus.resolving else s

-- what the observation writes; "waiting_ticket_close" is no status that the column may hold
unfoldable pub observe : ℕ → Bool → Order → Order
unfolding refired_status cleared_status
observe now true o = record o {
  alert_status = "firing";
  ends_at = none;
  is_active = true;
  processing_status = refired_status o.processing_status;
}
observe now false o = record o {
  alert_status = "resolved";
  ends_at = some (or_value o.ends_at now);
  is_active = true;
  processing_status = cleared_status o.processing_status;
}

-- the actions that it reports
unfoldable pub observed_actions : Bool → Order → List String
unfolding is_resolving
observed_actions true o = if is_resolving o.processing_status then "redispatch_firing" ∷ [] else []
observed_actions false o =
    if can_transition_to_resolving o.processing_status alert_resolved
      && not (is_resolving o.processing_status)
    then "dispatch_resolving" ∷ []
    else []

-- `refired_existing_incident`, before the order is written
unfoldable pub refired : Bool → Order → Bool
unfolding is_resolving
refired fires o =
    fires && (is_resolving o.processing_status || str_eq (lower (strip o.alert_status)) "resolved")
