-- ===== src/PreHeat.antt =====
-- The intake of alerts (api/services/pre_heat.py): one transaction on the orders for each alert. The
-- orders are listed newest first, as `ORDER BY created_at DESC` gives them; an order that a query
-- returns is written in place. The columns instance, correlation_key and annotations, which nothing
-- here reads, are left out. Process has the writes and Retry the attempts; the proofs are in Active,
-- Single and Retrying.
pub mod Process
pub mod Active
pub mod Single
pub mod Retry
pub mod Retrying
use poundcake.Prelude.{
  [], first, none, not, ◌∷◌, List, false, some, str_eq, true, ◌&&◌, ◌+◌, Bool, Option, String,
  if◌then◌else◌, ℕ,
}
use poundcake.Prelude.Text.{strip, lower}
use poundcake.Status.{
  alert_resolved, should_keep_active, can_transition_to_resolving, is_order_terminal, or_text,
  OrderStatus, Outcome,
}
use poundcake.Segments.{or_value}
use poundcake.Json.{text, obj, get, Value, Fields}
use Prim.Native.String.{◌++◌ as append}
use poundcake.Tables.{Order}
use mathlib.Core.Option

-- One alert of the payload: its texts, the instants of startsAt and endsAt as dateutil reads them (the
-- present one where it cannot), none for an endsAt that is missing, and its payload with the order
-- type, as ensure_raw_data_order_type gives it.
pub record Alert : Type 0 where
  pub status : Option String
  pub fingerprint : Option String
  pub labels : Fields
  pub starts_at : ℕ
  pub ends_at : Option ℕ
  pub raw_data : Value

unfoldable pub text_of : Option Value → Option String
text_of (some (text s)) = some s
text_of _ = none

-- labels.get(key), for a label that is a text
unfoldable pub label : String → Alert → Option String
unfolding text_of
label key a = text_of (get key a.labels)

unfoldable pub alert_name : Alert → String
unfolding label
alert_name a = or_value (label "alertname" a) "Unknown"

unfoldable pub group_name : Alert → String
unfolding label alert_name
group_name a = or_text (label "group_name" a) (alert_name a)

unfoldable pub alert_status : Alert → String
alert_status a = lower (strip (or_text a.status "firing"))

unfoldable pub severity : Alert → String
unfolding label
severity a = lower (strip (or_text (label "severity" a) "unknown"))

unfoldable pub fingerprint : Alert → String
unfolding alert_name label
fingerprint a =
    or_text a.fingerprint
      (append (alert_name a) (append "_" (or_value (label "instance" a) "unknown")))

-- fingerprint_when_active = fingerprint
unfoldable pub is_active_for : String → Order → Bool
is_active_for fp o = o.is_active && str_eq o.fingerprint fp

-- the latest order of the fingerprint whose alert has not resolved
unfoldable pub is_unresolved_for : String → Order → Bool
is_unresolved_for fp o = str_eq o.fingerprint fp && not (str_eq (lower o.alert_status) "resolved")

unfoldable pub is_warning_for : String → Order → Bool
is_warning_for fp o = str_eq o.fingerprint fp && str_eq (or_value o.severity "") "warning"

-- The status and the order's number of the reply.
pub record Intake : Type 0 where
  pub status : String
  pub order_id : Option ℕ

unfoldable pub reply : String → Option Order → Intake
reply status o = record { status = status; order_id = Option.map (λ x. x.id) o }
