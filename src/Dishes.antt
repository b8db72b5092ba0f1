-- ===== src/Dishes.antt =====
-- The routes of api/api/dishes.py on service executions: which rows Timer and the expediter runner
-- may work on (with the tests of api/api/expediter.py), and the row that makes Timer advance a dish.
-- Routes holds the claims, releases and reconciliations, each one a transaction on the row whose
-- number is given. Instants are seconds on one UTC clock, so aligning time zones is the identity.
-- Listing has the list of a dish's rows. The proofs are in Claiming, Reconciling, Advancing, Keyed,
-- Shown and Steady.
use poundcake.Prelude.{
  keep, ◌+◌, ltb, none, true, nat_eq, some, str_eq, [], any, false, not, starts_with, ◌&&◌, ◌||◌,
  Bool, first, if◌then◌else◌, ℕ, ◌∷◌, List, Option, String,
}
use poundcake.Cook.Claim.{receipt_prefix}
use poundcake.Status.{
  is_terminal, run_state_blocks_dispatch, is_in_flight, RunState, is_failure, is_pending,
}
use poundcake.Prelude.Text.{text_or_empty, strip}
use poundcake.Segments.{continues, or_value}
use poundcake.Tables.{OnFailure, Row}
pub mod Routes
pub mod Claiming
pub mod Reconciling
pub mod Advancing
pub mod Listing
pub mod Keyed
pub mod Shown
pub mod Steady

-- service_plugins: the columns that these routes read
pub record ServicePlugin : Type 0 where
  pub service_type : String
  pub enabled : Bool
  pub health_status : RunState

unfoldable pub has_service_execution_identity : Row → Bool
has_service_execution_identity r = not (str_eq (strip (text_or_empty r.service_exec_id)) "")

unfoldable pub has_expediter_runner_receipt : Row → Bool
has_expediter_runner_receipt r =
    starts_with (strip (text_or_empty r.service_exec_id)) receipt_prefix

-- `started_at + timedelta(seconds=timeout) < now`, for a timeout above 0
unfoldable pub timed_out : Option ℕ → ℕ → ℕ → Bool
timed_out none started now = false
timed_out (some limit) started now = not (nat_eq limit 0) && ltb (started + limit) now

unfoldable pub dispatch_identity_timed_out : Row → ℕ → Bool
unfolding timed_out
dispatch_identity_timed_out r now = timed_out r.service_exec_timeout (or_value r.start_time now) now

unfoldable pub timer_pollable : Row → ℕ → Bool
unfolding has_expediter_runner_receipt dispatch_identity_timed_out has_service_execution_identity
timer_pollable r now =
    if has_expediter_runner_receipt r
    then dispatch_identity_timed_out r now
    else has_service_execution_identity r || dispatch_identity_timed_out r now

started_and_timed_out : Option ℕ → Option ℕ → ℕ → Bool
unfolding timed_out
started_and_timed_out limit none now = false
started_and_timed_out limit (some started) now = timed_out limit started now

-- `_runner_row_timed_out`
unfoldable pub runner_row_timed_out : Row → ℕ → Bool
unfolding started_and_timed_out
runner_row_timed_out r now = started_and_timed_out r.service_exec_timeout r.start_time now

unfoldable pub expediter_runner_adapter_callable : Option ServicePlugin → Bool
expediter_runner_adapter_callable none = false
expediter_runner_adapter_callable (some p) =
    p.enabled && not (run_state_blocks_dispatch p.health_status)

is_enabled : Option ServicePlugin → Bool
is_enabled none = false
is_enabled (some p) = p.enabled

unfoldable pub expediter_runner_claimable : Row → Option ServicePlugin → ℕ → Bool
unfolding is_enabled runner_row_timed_out expediter_runner_adapter_callable
expediter_runner_claimable r plugin now =
    if is_enabled plugin && str_eq (strip r.service_exec) "health_check"
    then true
    else runner_row_timed_out r now || expediter_runner_adapter_callable plugin

-- `_is_blocking_failure`
unfoldable pub is_blocking_row : Row → Bool
is_blocking_row r = is_failure r.status && not (continues r.on_failure)

-- the order of `(_runtime_bucket(row), row.step_order, row.id)`
unfoldable pub row_lt : Row → Row → Bool
row_lt a b =
    if not (nat_eq a.depth b.depth)
    then ltb a.depth b.depth
    else if not (nat_eq a.parallel_group b.parallel_group)
    then ltb a.parallel_group b.parallel_group
    else if not (nat_eq a.step_order b.step_order)
    then ltb a.step_order b.step_order
    else ltb a.id b.id

unfoldable pub insert_row : Row → List Row → List Row
unfolding row_lt
insert_row r [] = r ∷ []
insert_row r (x ∷ xs) = let rest = insert_row r xs in if row_lt x r then x ∷ rest else r ∷ x ∷ xs

unfoldable pub sort_rows : List Row → List Row
unfolding insert_row
sort_rows [] = []
sort_rows (r ∷ rs) = insert_row r (sort_rows rs)

unfoldable pub last : Row → List Row → Row
last r [] = r
last r (x ∷ xs) = last x xs

unfoldable pub by_terminal : List Row → List Row → Option Row
unfolding last
by_terminal ordered [] = first (λ r. is_pending r.status) ordered
by_terminal ordered (t ∷ ts) = some (last t ts)

unfoldable pub choose : List Row → Option Row → Option Row
unfolding by_terminal
choose ordered (some blocking) = some blocking
choose ordered none = by_terminal ordered (keep (λ r. is_terminal r.status) ordered)

unfoldable pub ends_blocking : Row → Bool
unfolding is_blocking_row
ends_blocking r = is_terminal r.status && is_blocking_row r

unfoldable pub advance_ready_representative : List Row → Option Row
unfolding sort_rows ends_blocking choose
advance_ready_representative rows =
    let ordered = sort_rows rows in
    if any (λ r. is_in_flight r.status) rows
    then none
    else choose ordered (first ends_blocking ordered)
