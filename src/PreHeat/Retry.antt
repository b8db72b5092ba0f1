-- ===== src/PreHeat/Retry.antt =====
-- The attempts of `_process_alert` (api/services/pre_heat.py): a lock error of the database makes it try
-- again, three times in all, and a violated constraint makes it look for the order that won.
use poundcake.Prelude.{
  update_first, none, zero, some, nat_eq, first, if◌then◌else◌, String, suc, List, ℕ,
}
use poundcake.PreHeat.{reply, fingerprint, is_active_for, Alert, Intake}
use poundcake.PreHeat.Process.{increment_existing, process_alert}
use poundcake.Tables.{Order}

-- MAX_PRE_HEAT_ATTEMPTS
abbrev pub max_attempts : ℕ
max_attempts = 3

-- What the transaction of an attempt meets: nothing, IntegrityError, an OperationalError of the codes
-- 1205 and 1213, any other OperationalError.
pub data Attempt : Type 0 where
  commits integrity_error lock_error operational_error : Attempt

-- What the caller gets: the reply with the orders committed, the error raised, or the RuntimeError at
-- the end of the loop.
pub data Handled : Type 0 where
  handled : Intake × List Order → Handled
  raised : Attempt → Handled
  loop_exited : Handled

-- `_recover_integrity_conflict`, on the orders that its own transaction sees
unfoldable pub recover_integrity_conflict : ℕ → Alert → List Order → Intake × List Order
recover_integrity_conflict now a orders = elim (first (is_active_for (fingerprint a)) orders) [
  | some o ↦ (
    reply "counter_incremented" (some o),
    update_first (is_active_for (fingerprint a)) (increment_existing now) orders,
  )
  | none ↦ (reply "conflict" none, orders)
]

-- One call: its number for a new order, instant, request and alert; what each attempt meets, and the
-- orders that each attempt's transaction and the recovery see.
pub record Call : Type 0 where
  pub id : ℕ
  pub now : ℕ
  pub req : String
  pub alert : Alert
  pub meets : ℕ → Attempt
  pub sees : ℕ → List Order
  pub recovery_sees : List Order

-- an attempt, with what follows a lock error
unfoldable pub attempt_once : Call → Attempt → List Order → Handled → Handled
attempt_once c commits orders later = handled (process_alert c.id c.now c.req c.alert orders)
attempt_once c integrity_error orders later =
    handled (recover_integrity_conflict c.now c.alert c.recovery_sees)
attempt_once c lock_error orders later = later
attempt_once c operational_error orders later = raised operational_error

-- `for attempt in range(1, MAX_PRE_HEAT_ATTEMPTS + 1)` from the attempt n on, with so many left
unfoldable pub attempts : Call → ℕ → ℕ → Handled
unfolding attempt_once
attempts c n zero = loop_exited
attempts c n (suc left) =
    let later = attempts c (suc n) left in
    attempt_once c (c.meets n) (c.sees n) (if nat_eq left 0 then raised lock_error else later)

unfoldable pub process_with_retries : Call → Handled
unfolding attempts
process_with_retries c = attempts c 1 max_attempts
