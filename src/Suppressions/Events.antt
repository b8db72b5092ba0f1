-- ===== src/Suppressions/Events.antt =====
-- What a suppressed alert leaves, and the statistics of a suppression's events
-- (api/services/suppression_service.py). The digest of a payload is a parameter, and so is the ISO
-- text of an instant; a dict is a list of its pairs, in the order in which the keys were added. The
-- alert's texts are texts or null, as the payload's schema has them.
use poundcake.Prelude.{
  ℕ, suc, String, Bool, false, not, ◌&&◌, Option, none, some, str_eq, ltb, nat_eq, List, [], ◌∷◌,
  ◌++◌, if◌then◌else◌, keep, first, sort_by, length, min, max,
}
use poundcake.Prelude.Text.{lower}
use poundcake.Status.{or_text}
use poundcake.Json.{Value, Fields, get, text, null, obj, end, field, fields_of, get_or_null}

-- suppressed_events
pub record SuppressedEvent : Type 0 where
  pub id : ℕ
  pub suppression_id : ℕ
  pub received_at : ℕ
  pub fingerprint : Option String
  pub alertname : Option String
  pub severity : Option String
  pub labels : Fields
  pub annotations : Fields
  pub status : String
  pub payload_hash : String
  pub req_id : Option String

-- `d.get(key, default)` of a text or null
unfoldable pub text_at : String → String → Fields → Option String
text_at key default fs = elim (get key fs) [
  | none ↦ some default
  | some v ↦ elim v [ text s ↦ some s | _ ↦ none ]
]

unfoldable pub is_same_event : ℕ → String → SuppressedEvent → Bool
is_same_event suppression digest e =
    nat_eq e.suppression_id suppression && str_eq e.payload_hash digest

unfoldable pub new_event : ℕ → ℕ → Fields → String → ℕ → String → SuppressedEvent
unfolding text_at
new_event id suppression alert_data req_id received digest =
    let labels = fields_of (get_or_null "labels" alert_data) in
    record {
      id = id;
      suppression_id = suppression;
      received_at = received;
      fingerprint = elim (get_or_null "fingerprint" alert_data) [ text s ↦ some s | _ ↦ none ];
      alertname = text_at "alertname" "Unknown" labels;
      severity = text_at "severity" "unknown" labels;
      labels = labels;
      annotations = fields_of (get_or_null "annotations" alert_data);
      status = or_text (text_at "status" "firing" alert_data) "";
      payload_hash = digest;
      req_id = some req_id;
    }

-- `_payload_hash` is the parameter; id is the number of the row that may be added
unfoldable pub save_suppressed_event :
    (Fields → String → String)
    → ℕ
    → ℕ
    → Fields
    → String
    → ℕ
    → List SuppressedEvent
    → SuppressedEvent × List SuppressedEvent
unfolding is_same_event new_event
save_suppressed_event payload_hash suppression id alert_data req_id received events =
    let digest = payload_hash alert_data req_id in
    elim (first (is_same_event suppression digest) events) [
      | some existing ↦ (existing, events)
      | none ↦
          let event = new_event id suppression alert_data req_id received digest in
          (event, events ++ (event ∷ []))
    ]

-- a dict from texts
abbrev pub Dict : Type 0 → Type 0
Dict A = List (String × A)

-- `d[key] = f(d.get(key))`
unfoldable pub put : {A : Type 0} → String → (Option A → A) → Dict A → Dict A
put k f [] = (k, f none) ∷ []
put k f ((j, v) ∷ rest) =
    let later = put k f rest in if str_eq j k then (j, f (some v)) ∷ rest else (j, v) ∷ later

abbrev pub one_more : Option ℕ → ℕ
one_more none = 1
one_more (some n) = suc n

-- `Counter(…)` of a column
unfoldable pub count_by : (SuppressedEvent → String) → Dict ℕ → List SuppressedEvent → Dict ℕ
unfolding put
count_by column counts [] = counts
count_by column counts (e ∷ es) = count_by column (put (column e) one_more counts) es

abbrev pub received_before : SuppressedEvent → SuppressedEvent → Bool
received_before a b = ltb a.received_at b.received_at

-- an event without a fingerprint, or with an empty one, is passed over
abbrev pub names : String → Option String → Bool
names fp none = false
names fp (some f) = not (str_eq f "") && str_eq f fp

abbrev pub has_fingerprint : String → SuppressedEvent → Bool
has_fingerprint fp e = names fp e.fingerprint

unfoldable pub note_as :
    Option String → SuppressedEvent → Dict SuppressedEvent → Dict SuppressedEvent
unfolding put
note_as none e latest = latest
note_as (some fp) e latest = if str_eq fp "" then latest else put fp (λ old. e) latest

unfoldable pub note_latest : SuppressedEvent → Dict SuppressedEvent → Dict SuppressedEvent
unfolding note_as
note_latest e latest = note_as e.fingerprint e latest

unfoldable pub latest_from : Dict SuppressedEvent → List SuppressedEvent → Dict SuppressedEvent
unfolding note_latest
latest_from latest [] = latest
latest_from latest (e ∷ es) = latest_from (note_latest e latest) es

unfoldable pub is_cleared : SuppressedEvent → Bool
is_cleared e = str_eq (lower e.status) "resolved"

abbrev option_text : Option String → Value
option_text none = null
option_text (some s) = text s

-- one value of still_firing_alerts
unfoldable pub still_firing_alert : (ℕ → String) → SuppressedEvent → Value
still_firing_alert isoformat e = obj (
    field "alertname" (text (or_text e.alertname "Unknown")) (
      field "severity" (text (or_text e.severity "unknown")) (
        field "last_status" (text e.status) (
          field "last_received_at" (text (isoformat e.received_at)) (
            field "labels" (obj e.labels) (
              field "annotations" (obj e.annotations)
                (field "req_id" (option_text e.req_id) end)))))))

pub record Stats : Type 0 where
  pub total_suppressed : ℕ
  pub by_alertname : Dict ℕ
  pub by_severity : Dict ℕ
  pub first_seen_at : Option ℕ
  pub last_seen_at : Option ℕ
  pub total_cleared : ℕ
  pub total_still_firing : ℕ
  pub still_firing_alerts : Dict Value
  pub latest_by_fingerprint : Dict SuppressedEvent

-- `min(…, default=None)` and `max(…, default=None)` of the instants
unfoldable pub extreme : (ℕ → ℕ → ℕ) → List SuppressedEvent → Option ℕ
extreme pick [] = none
extreme pick (e ∷ es) = elim (extreme pick es) [
  | none ↦ some e.received_at
  | some n ↦ some (pick e.received_at n)
]

-- the loop over latest_by_fingerprint: how many are cleared, how many fire, and those that fire
unfoldable pub tally : (ℕ → String) → Dict SuppressedEvent → ℕ × ℕ × Dict Value
unfolding is_cleared still_firing_alert
tally isoformat [] = (0, 0, [])
tally isoformat ((fp, e) ∷ rest) =
    let (cleared, firing, alerts) = tally isoformat rest in
    if is_cleared e
    then (suc cleared, firing, alerts)
    else (cleared, suc firing, (fp, still_firing_alert isoformat e) ∷ alerts)

unfoldable pub latest_of : List SuppressedEvent → Dict SuppressedEvent
unfolding latest_from
latest_of events = latest_from [] (sort_by received_before events)

unfoldable pub compute_suppression_stats : (ℕ → String) → ℕ → List SuppressedEvent → Stats
unfolding count_by extreme tally latest_of
compute_suppression_stats isoformat suppression all =
    let events = keep (λ e. nat_eq e.suppression_id suppression) all in
    let latest = latest_of events in
    let counted = tally isoformat latest in
    record {
      total_suppressed = length events;
      by_alertname = count_by (λ e. or_text e.alertname "Unknown") [] events;
      by_severity = count_by (λ e. or_text e.severity "unknown") [] events;
      first_seen_at = extreme min events;
      last_seen_at = extreme max events;
      total_cleared = counted.0;
      total_still_firing = counted.1;
      still_firing_alerts = counted.2;
      latest_by_fingerprint = latest;
    }
