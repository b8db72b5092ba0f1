-- ===== src/OrderTypes.antt =====
-- The type of an order, which its raw_data carries (api/services/order_types.py). A ValueError is none.
-- The proofs are in Laws.
pub mod Laws
use poundcake.Json.{
  set_field, end, fields_of, get_or_null, null, field, get, is_true, text, Fields, obj, Value,
}
use poundcake.Prelude.Text.{strip, lower}
use poundcake.Prelude.{none, false, if◌then◌else◌, some, str_eq, true, Bool, Option, String}
use mathlib.Core.Option

-- OrderType
pub data OrderType : Type 0 where
  webhook_alert scheduled_task manual : OrderType

unfoldable pub show_order_type : OrderType → String
show_order_type webhook_alert = "webhook_alert"
show_order_type scheduled_task = "scheduled_task"
show_order_type manual = "manual"

-- ALL_ORDER_TYPES
unfoldable pub order_type_named : String → Option OrderType
order_type_named s =
    if str_eq s "webhook_alert"
    then some webhook_alert
    else if str_eq s "scheduled_task"
    then some scheduled_task
    else if str_eq s "manual"
    then some manual
    else none

-- The text of any value that is no text names no order type.
unfoldable pub normalize_order_type : Option Value → Option OrderType
unfolding order_type_named
normalize_order_type (some (text s)) = order_type_named (lower (strip s))
normalize_order_type _ = none

-- raw_data.get("order_type"), for a column that holds a dict, something else or nothing
unfoldable pub stored_type : Option Value → Option Value
stored_type none = none
stored_type (some raw) = get "order_type" (fields_of raw)

unfoldable pub require_order_type : Option Value → Option OrderType
unfolding normalize_order_type stored_type
require_order_type raw = normalize_order_type (stored_type raw)

is_operator_action : Option Value → Bool
is_operator_action none = false
is_operator_action (some raw) = is_true (get_or_null "operator_action" (fields_of raw))

subject_type : Option OrderType → Bool
subject_type none = true
subject_type (some webhook_alert) = true
subject_type (some _) = false

unfoldable pub order_is_subject_to_alert_suppressions : Option Value → Bool
unfolding is_operator_action subject_type normalize_order_type stored_type
order_is_subject_to_alert_suppressions raw =
    if is_operator_action raw then false else subject_type (normalize_order_type (stored_type raw))

-- OrderScope, and the types of a scope: OPERATOR_ORDER_TYPES, SYSTEM_ORDER_TYPES, or all of them, as
-- for no scope
pub data OrderScope : Type 0 where
  operator_scope system_scope all_scope : OrderScope

unfoldable pub in_scope : OrderScope → OrderType → Bool
in_scope operator_scope webhook_alert = true
in_scope operator_scope _ = false
in_scope system_scope scheduled_task = true
in_scope system_scope _ = false
in_scope all_scope _ = true

type_eq : OrderType → OrderType → Bool
unfolding show_order_type
type_eq s t = str_eq (show_order_type s) (show_order_type t)

passes : OrderScope → Option OrderType → OrderType → Bool
unfolding in_scope type_eq
passes scope none t = in_scope scope t
passes scope (some wanted) t = if type_eq t wanted then in_scope scope t else false

unfoldable pub order_matches_filters : Option Value → OrderScope → Option OrderType → Option Bool
unfolding require_order_type passes
order_matches_filters raw scope wanted = Option.map (passes scope wanted) (require_order_type raw)

unfoldable pub with_type : OrderType → Value → Value
unfolding set_field show_order_type
with_type t raw = obj (set_field "order_type" (text (show_order_type t)) (fields_of raw))

-- `current is None or current == ""`
unfoldable pub is_unset : Option Value → Bool
is_unset none = true
is_unset (some null) = true
is_unset (some (text s)) = str_eq s ""
is_unset (some _) = false

unfoldable pub ensure_raw_data_order_type : Value → OrderType → Option Value
unfolding with_type is_unset normalize_order_type
ensure_raw_data_order_type raw default =
    if is_unset (get "order_type" (fields_of raw))
    then some (with_type default raw)
    else Option.map (λ t. with_type t raw) (normalize_order_type (get "order_type" (fields_of raw)))
