-- ===== src/Status.antt =====
-- The status vocabularies (api/core/statuses.py, api/types.py and the check constraints of
-- api/models/models.py) and the run-time state machine of a service execution
-- (api/plugins/state.py). A column with a check constraint is the data type of its values; a text
-- that arrives from outside is a `String` and goes through the source's normalising function.
-- The proofs are in the child modules.
pub mod Laws
use poundcake.Prelude.{
  ℕ, ◌≡◌, String, Bool, true, false, not, Option, none, some, str_eq, ltb, nat_eq, if◌then◌else◌,
}
use poundcake.Json.{Value, expected_outcome_matches}
use poundcake.Prelude.Text.{lower, strip}

-- dish_ingredients.service_exec_status
pub data ExecStatus : Type 0 where
  pending dispatched running succeeded failed errored timeout canceled : ExecStatus

-- orders.processing_status
pub data OrderStatus : Type 0 where
  new processing resolving complete failed errored timeout canceled : OrderStatus

-- orders.remediation_outcome
pub data Outcome : Type 0 where
  pending succeeded failed none_needed : Outcome

-- dishes.run_phase
pub data Phase : Type 0 where
  firing resolving : Phase

-- the two events that `can_transition_to_resolving` supports, and any other text
pub data SourceEvent : Type 0 where
  dish_terminal alert_resolved other_event : SourceEvent

-- EXECUTION_NON_TERMINAL_STATUSES, EXECUTION_TERMINAL_STATUSES
unfoldable pub is_terminal : ExecStatus → Bool
is_terminal succeeded = true
is_terminal failed = true
is_terminal errored = true
is_terminal timeout = true
is_terminal canceled = true
is_terminal _ = false

-- {"dispatched", "running"}
unfoldable pub is_in_flight : ExecStatus → Bool
is_in_flight dispatched = true
is_in_flight running = true
is_in_flight _ = false

-- {"failed", "errored", "timeout", "canceled"}
unfoldable pub is_failure : ExecStatus → Bool
is_failure failed = true
is_failure errored = true
is_failure timeout = true
is_failure canceled = true
is_failure _ = false

unfoldable pub is_pending : ExecStatus → Bool
is_pending pending = true
is_pending _ = false

-- ORDER_TERMINAL_PROCESSING_STATUSES, ORDER_RESOLVING_TRANSITIONABLE_STATUSES
unfoldable pub is_order_terminal : OrderStatus → Bool
is_order_terminal complete = true
is_order_terminal failed = true
is_order_terminal errored = true
is_order_terminal timeout = true
is_order_terminal canceled = true
is_order_terminal _ = false

unfoldable pub resolving_transitionable : OrderStatus → Bool
resolving_transitionable new = true
resolving_transitionable processing = true
resolving_transitionable resolving = true
resolving_transitionable _ = false

is_processing : OrderStatus → Bool
is_processing processing = true
is_processing _ = false

by_event : SourceEvent → OrderStatus → Bool
by_event dish_terminal s = is_processing s
by_event alert_resolved s = resolving_transitionable s
by_event other_event s = false

unfoldable pub can_transition_to_resolving : OrderStatus → SourceEvent → Bool
unfolding is_order_terminal resolving_transitionable is_processing by_event
can_transition_to_resolving s e = if is_order_terminal s then false else by_event e s

unfoldable pub should_keep_active : OrderStatus → Bool
unfolding is_order_terminal
should_keep_active s = not (is_order_terminal s)

-- A function of state.py that may raise `ServiceExecutionStateError`.
pub data Checked {ℓ} (A : Type ℓ) : Type ℓ where
  ok : A → Checked A
  invalid_status : String → Checked A
  invalid_transition : ExecStatus → ExecStatus → Checked A

-- the text of a status, as it is stored
unfoldable pub show_status : ExecStatus → String
show_status pending = "pending"
show_status dispatched = "dispatched"
show_status running = "running"
show_status succeeded = "succeeded"
show_status failed = "failed"
show_status errored = "errored"
show_status timeout = "timeout"
show_status canceled = "canceled"

read_status : String → String → Checked ExecStatus
read_status raw s =
    if str_eq s "pending"
    then ok pending
    else if str_eq s "dispatched"
    then ok dispatched
    else if str_eq s "running"
    then ok running
    else if str_eq s "succeeded"
    then ok succeeded
    else if str_eq s "failed"
    then ok failed
    else if str_eq s "errored"
    then ok errored
    else if str_eq s "timeout"
    then ok timeout
    else if str_eq s "canceled"
    then ok canceled
    else invalid_status raw

-- `value or default`, for a text
abbrev pub or_text : Option String → String → String
or_text none d = d
or_text (some s) d = if str_eq s "" then d else s

abbrev raw_text : Option String → String
raw_text none = "None"
raw_text (some s) = s

unfoldable pub normalize_execution_status : Option String → Checked ExecStatus
unfolding read_status lower strip
normalize_execution_status value =
    read_status (raw_text value) (lower (strip (or_text value "pending")))

-- EXECUTION_STATUS_TRANSITIONS: `allowed current requested`
unfoldable pub allowed : ExecStatus → ExecStatus → Bool
allowed pending _ = true
allowed dispatched pending = false
allowed dispatched _ = true
allowed running pending = false
allowed running dispatched = false
allowed running _ = true
allowed succeeded succeeded = true
allowed failed failed = true
allowed errored errored = true
allowed timeout timeout = true
allowed canceled canceled = true
allowed _ _ = false

infixl 5 ◌>>=◌
abbrev pub ◌>>=◌ {ℓ κ} : {A : Type ℓ} {B : Type κ} → Checked A → (A → Checked B) → Checked B
ok a >>= f = f a
invalid_status s >>= f = invalid_status s
invalid_transition a b >>= f = invalid_transition a b

-- the test after both texts are normalised
unfoldable pub check_transition : ExecStatus → ExecStatus → Checked ExecStatus
unfolding allowed
check_transition current requested =
    if allowed current requested then ok requested else invalid_transition current requested

unfoldable pub validate_execution_transition : Option String → Option String → Checked ExecStatus
unfolding check_transition
validate_execution_transition current requested = do
  current_status ← normalize_execution_status current
  requested_status ← normalize_execution_status requested
  check_transition current_status requested_status

-- sla_exceeded(expected_secs, run_time)
unfoldable pub sla_exceeded : Option ℕ → Option ℕ → Bool
sla_exceeded none run_time = false
sla_exceeded (some e) none = false
sla_exceeded (some e) (some r) = if nat_eq e 0 then false else ltb e r

-- `expected_outcome is None or actual_outcome is None`, for columns that hold JSON or nothing
unfoldable pub settle : ExecStatus → Option Value → Option Value → ExecStatus
settle status (some expected) (some actual) =
    if expected_outcome_matches expected actual (some (show_status status))
    then succeeded
    else failed
settle status _ _ = status

unfoldable pub is_canceled : ExecStatus → Bool
is_canceled canceled = true
is_canceled _ = false

-- verdict_status, on a status that is already one of the vocabulary
unfoldable pub verdict_status : ExecStatus → Option Value → Option Value → ExecStatus
unfolding is_terminal is_canceled settle
verdict_status status expected actual =
    if is_terminal status
    then (if is_canceled status then status else settle status expected actual)
    else status

-- PLUGIN_RUN_STATES: service_plugins.health_status
pub data RunState : Type 0 where
  unknown initializing healthy degraded failed disabled : RunState

-- PLUGIN_CALLABLE_RUN_STATES and PLUGIN_BLOCKED_RUN_STATES
unfoldable pub is_callable_run_state : RunState → Bool
is_callable_run_state healthy = true
is_callable_run_state degraded = true
is_callable_run_state _ = false

unfoldable pub run_state_blocks_dispatch : RunState → Bool
run_state_blocks_dispatch unknown = true
run_state_blocks_dispatch initializing = true
run_state_blocks_dispatch failed = true
run_state_blocks_dispatch disabled = true
run_state_blocks_dispatch _ = false
