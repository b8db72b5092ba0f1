-- ===== src/Incidents.antt =====
-- The reconciliation of active orders against the alerts that Prometheus shows and the tickets of
-- Bakery (api/plugins/bakery/incident_reconciliation.py). A step here is a row of dish_ingredients
-- with the columns that the module reads and its dish; an order's steps stand in the order of its
-- dishes. Bakery answers as a function of the calls made so far, the last one first; the texts of
-- notes and tickets are left out of the calls. str() of a value that is no text, the ISO text of an
-- instant and its reading are parameters.
-- Notes has the metadata on a ticket's notes, Alerts the alerts, Tickets, Reopening and Reconciling the
-- work on tickets, and Pass the pass; the proofs are in Telling, Once, Closing, Flags and Counted.
pub mod Notes
pub mod Alerts
pub mod Tickets
pub mod Reopening
pub mod Reconciling
pub mod Pass
pub mod Remembering
pub mod Telling
pub mod Once
pub mod Closing
pub mod Flags
pub mod Counted
use poundcake.Prelude.{
  ℕ, String, Bool, true, false, not, Option, none, some, List, [], ◌∷◌, str_eq, one_of, ◌&&◌,
  if◌then◌else◌,
}
use poundcake.Prelude.Text.{strip, lower, text_or_empty}
use poundcake.Json.{
  Value, Fields, end, obj, text, get_or_null, fields_of, first_truthy, truthy, set_field,
}
use poundcake.Status.{ExecStatus, Phase}
use poundcake.Tables.{DishStatus}

pub record Comm : Type 0 where
  pub run_phase : Phase
  pub dish_status : DishStatus
  pub service_type : String
  pub service_exec : String
  pub destination_target : Option String
  pub service_payload : Option Value
  pub parameters : Option Value
  pub status : ExecStatus
  pub outcome : Option Value
  pub completed_time : Option ℕ
  pub updated_at : ℕ
  pub deleted : Bool

-- Python's str() beside a text, datetime.isoformat() and datetime.fromisoformat()
pub record Python : Type 0 where
  pub str : Value → String
  pub isoformat : ℕ → String
  pub fromisoformat : String → Option ℕ

-- TICKET_TERMINAL_STATES, TICKET_REOPENABLE_STATES
unfoldable pub is_ticket_terminal : String → Bool
is_ticket_terminal s =
    one_of s
      ("closed" ∷ "resolved" ∷ "cancelled" ∷ "canceled" ∷ "completed" ∷ "dead" ∷ "archived" ∷ [])

unfoldable pub is_reopenable : String → Bool
is_reopenable s = one_of s ("closed" ∷ "resolved" ∷ "confirmed_solved" ∷ [])

-- `str(value or "")`
unfoldable pub str_or_empty : Python → Value → String
unfolding truthy
str_or_empty py (text s) = s
str_or_empty py v = if truthy v then py.str v else ""

unfoldable pub is_bakery_type : Comm → Bool
is_bakery_type c = str_eq (lower (strip c.service_type)) "bakery"

-- `_is_bakery_communication`
unfoldable pub is_bakery_communication : Comm → Bool
unfolding is_bakery_type
is_bakery_communication c =
    is_bakery_type c && str_eq (lower (strip c.service_exec)) "communication" && not c.deleted

unfoldable pub column : Option Value → Fields
column none = end
column (some v) = fields_of v

-- `value.strip() if isinstance(value, str) and value.strip()`
unfoldable pub stripped : Value → Option String
stripped (text s) = if str_eq (strip s) "" then none else some (strip s)
stripped _ = none

unfoldable pub or_else_text : Option String → Option String → Option String
or_else_text none b = b
or_else_text (some a) b = some a

-- `_ticket_id_from_ingredient`
unfoldable pub ticket_id : Comm → Option String
unfolding column stripped or_else_text first_truthy
ticket_id c =
    let outcome = column c.outcome in
    let updates = fields_of (
      first_truthy (get_or_null "_context_updates" outcome)
        (get_or_null "context_updates" outcome)) in
    or_else_text
      (stripped (
        first_truthy (get_or_null "bakery_comms_id" updates)
          (get_or_null "bakery_ticket_id" updates)))
      (stripped (get_or_null "ticket_id" (column c.service_payload)))

-- `_ingredient_metadata`
unfoldable pub metadata : Option Value → Fields
unfolding column
metadata outcome = fields_of (get_or_null "reconcile_metadata" (column outcome))

-- `_set_ingredient_metadata`
unfoldable pub set_metadata : Fields → Option Value → Option Value
unfolding column set_field
set_metadata m outcome = some (obj (set_field "reconcile_metadata" (obj m) (column outcome)))

-- normalize_destination_target
unfoldable pub target_of : Comm → String
target_of c = strip (text_or_empty c.destination_target)
