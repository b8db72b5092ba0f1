-- ===== src/Dishes/Routes.antt =====
-- The transactions of api/api/dishes.py that write a service execution. A request's number is unique
-- to the request; a raised HTTPException rolls the transaction back. The id is the primary key, so
-- the row that an UPDATE by id writes is the one that a SELECT by id returns.
use poundcake.Dishes.{expediter_runner_claimable, has_expediter_runner_receipt, ServicePlugin}
use poundcake.Prelude.Text.{strip, lower}
use poundcake.Status.{
  invalid_transition, show_status, invalid_status, validate_execution_transition, is_in_flight,
  is_terminal, ok, Checked, verdict_status, running, ◌>>=◌, sla_exceeded, ExecStatus,
}
use poundcake.Prelude.{
  [], ◌||◌, ltb, nat_eq, str_eq, ◌&&◌, ◌-◌, false, first, if◌then◌else◌, none, not, some, true, ◌∷◌,
  Bool, List, Option, String, ℕ,
}
use poundcake.Json.{Value}
use poundcake.Segments.{or_else, or_value}
use poundcake.Tables.{OnFailure, Row}

unfoldable pub find_row : ℕ → List Row → Option Row
find_row id rows = first (λ r. nat_eq r.id id) rows

-- the row with r's id becomes r
unfoldable pub put_row : Row → List Row → List Row
put_row r [] = []
put_row r (x ∷ xs) = (if nat_eq x.id r.id then r else x) ∷ put_row r xs

-- an HTTPException with its status code, or the row of the response and the rows that are committed
pub data Reply : Type 0 where
  http_error : ℕ → Reply
  updated : Row → List Row → Reply

-- `claimed_at is null or claimed_at < stale_cutoff`
unfoldable pub is_unclaimed : Option ℕ → ℕ → Bool
is_unclaimed none cutoff = true
is_unclaimed (some t) cutoff = ltb t cutoff

-- the values that both claims write
unfoldable pub take_claim : ℕ → String → Row → Row
take_claim now req r = record r {
  status = running;
  claimed_at = some now;
  claimed_by = some req;
  updated_at = now;
}

-- `claim_dish_ingredient_for_poll`; `lock` is the setting lock_timeout_seconds
unfoldable pub poll_claim_row : ℕ → ℕ → String → List Row → Row → Reply
unfolding is_unclaimed take_claim put_row
poll_claim_row lock now req rows r =
    if not r.deleted && is_in_flight r.status && is_unclaimed r.claimed_at (now - lock)
    then updated (take_claim now req r) (put_row (take_claim now req r) rows)
    else http_error 409

unfoldable pub by_row : (Row → Reply) → ℕ → Option Row → Reply
by_row f code none = http_error code
by_row f code (some r) = f r

unfoldable pub poll_claim : ℕ → ℕ → String → ℕ → List Row → Reply
unfolding find_row by_row poll_claim_row
poll_claim lock now req id rows = by_row (poll_claim_row lock now req rows) 409 (find_row id rows)

unfoldable pub find_plugin : String → List ServicePlugin → Option ServicePlugin
find_plugin service_type plugins =
    first (λ p. str_eq p.service_type (lower (strip service_type))) plugins

-- `claim_dish_ingredient_for_execution`
unfoldable pub execution_claim_row : List ServicePlugin → ℕ → ℕ → String → List Row → Row → Reply
unfolding is_unclaimed take_claim put_row find_plugin
execution_claim_row plugins lock now req rows r =
    if r.deleted
    then http_error 404
    else if not (is_in_flight r.status) || not (has_expediter_runner_receipt r)
    then http_error 409
    else if not (is_unclaimed r.claimed_at (now - lock))
    then http_error 409
    else if not (expediter_runner_claimable r (find_plugin r.service_type plugins) now)
    then http_error 409
    else updated (take_claim now req r) (put_row (take_claim now req r) rows)

unfoldable pub execution_claim : List ServicePlugin → ℕ → ℕ → String → ℕ → List Row → Reply
unfolding find_row by_row execution_claim_row
execution_claim plugins lock now req id rows =
    by_row (execution_claim_row plugins lock now req rows) 404 (find_row id rows)

unfoldable pub claimed_by_request : String → Option String → Bool
claimed_by_request req none = false
claimed_by_request req (some owner) = str_eq owner req

unfoldable pub is_running : ExecStatus → Bool
is_running running = true
is_running _ = false

unfoldable pub drop_claim : Row → Row
drop_claim r = record r { claimed_at = none; claimed_by = none }

-- `release_dish_ingredient_execution_claim` and `release_dish_ingredient_poll_claim`, which are the
-- same transaction
unfoldable pub release_row : String → List Row → Row → Reply
unfolding claimed_by_request is_running drop_claim put_row
release_row req rows r =
    if not r.deleted && claimed_by_request req r.claimed_by && is_running r.status
    then updated (drop_claim r) (put_row (drop_claim r) rows)
    else http_error 409

unfoldable pub release_claim : String → ℕ → List Row → Reply
unfolding find_row by_row release_row
release_claim req id rows = by_row (release_row req rows) 409 (find_row id rows)

-- DishIngredientUpsert: the keys that the update reads or that the columns of Row hold; `some` is a
-- key that the request sets. A null for a column that may not be null is refused by the database and
-- not modelled, nor is the 422 of a body that the schema refuses. The other keys are copied to columns
-- that Row leaves out.
pub record Upsert : Type 0 where
  pub status : Option String
  pub req_id : Option String
  pub recipe_ingredient_id : Option (Option ℕ)
  pub task_key : Option (Option String)
  pub service_type : Option String
  pub service_exec : Option String
  pub service_exec_id : Option (Option String)
  pub service_exec_parameters : Option (Option Value)
  pub on_failure : Option (Option OnFailure)
  pub expected_secs : Option (Option ℕ)
  pub timeout_secs : Option (Option ℕ)
  pub expected : Option (Option Value)
  pub actual : Option (Option Value)
  pub started : Option (Option ℕ)
  pub completed : Option (Option ℕ)
  pub run_secs : Option (Option ℕ)
  pub claim_time : Option (Option ℕ)
  pub claim_owner : Option (Option String)
  pub error : Option (Option String)

-- setattr for every key that is set
unfoldable pub copy_fields : Upsert → Row → Row
copy_fields p r = record r {
  req_id = or_value p.req_id r.req_id;
  recipe_ingredient_id = or_value p.recipe_ingredient_id r.recipe_ingredient_id;
  task_key = or_value p.task_key r.task_key;
  service_type = or_value p.service_type r.service_type;
  service_exec = or_value p.service_exec r.service_exec;
  service_exec_parameters = or_value p.service_exec_parameters r.service_exec_parameters;
  on_failure = or_value p.on_failure r.on_failure;
  service_exec_id = or_value p.service_exec_id r.service_exec_id;
  service_exec_expected_secs = or_value p.expected_secs r.service_exec_expected_secs;
  service_exec_timeout = or_value p.timeout_secs r.service_exec_timeout;
  expected_outcome = or_value p.expected r.expected_outcome;
  actual_outcome = or_value p.actual r.actual_outcome;
  start_time = or_value p.started r.start_time;
  completed_time = or_value p.completed r.completed_time;
  run_time = or_value p.run_secs r.run_time;
  claimed_at = or_value p.claim_time r.claimed_at;
  claimed_by = or_value p.claim_owner r.claimed_by;
  service_exec_error = or_value p.error r.service_exec_error;
}

-- runtime_seconds (api/core/time.py), never below 0
unfoldable pub runtime_seconds : Option ℕ → Option ℕ → Option ℕ
runtime_seconds none completed = none
runtime_seconds (some s) none = none
runtime_seconds (some s) (some c) = some (c - s)

unfoldable pub requested_status : Row → Option String → Checked ExecStatus
requested_status r none = ok r.status
requested_status r (some s) = validate_execution_transition (some (show_status r.status)) (some s)

unfoldable pub judge : Row → Row
judge r = record r { status = verdict_status r.status r.expected_outcome r.actual_outcome }

unfoldable pub time_run : Row → Row
unfolding runtime_seconds
time_run r = record r {
  run_time = or_else r.run_time (runtime_seconds r.start_time r.completed_time);
}

unfoldable pub check_sla : Row → Row
check_sla r = record r { sla_exceeded = sla_exceeded r.service_exec_expected_secs r.run_time }

unfoldable pub clear_if_terminal : Row → Row
unfolding drop_claim
clear_if_terminal r = if is_terminal r.status then drop_claim r else r

-- what `_apply_dish_ingredient_update` does once the requested status is allowed
unfoldable pub timed_row : Upsert → ExecStatus → Row → Row
unfolding copy_fields judge time_run check_sla
timed_row p status r = check_sla (time_run (judge (copy_fields p (record r { status = status }))))

unfoldable pub settle_row : ℕ → Upsert → ExecStatus → Row → Row
unfolding timed_row clear_if_terminal
settle_row now p status r = record (clear_if_terminal (timed_row p status r)) { updated_at = now }

-- `_apply_dish_ingredient_update`
unfoldable pub apply_update : ℕ → Upsert → Row → Checked Row
unfolding requested_status settle_row
apply_update now p r = do status ← requested_status r p.status; ok (settle_row now p status r)

unfoldable pub commit : List Row → Checked Row → Reply
commit rows (ok r) = updated r (put_row r rows)
commit rows (invalid_status s) = http_error 409
commit rows (invalid_transition a b) = http_error 409

-- the two reconciling services
pub data Reconciler : Type 0 where
  timer expediter_runner : Reconciler

unfoldable pub service_name : Reconciler → String
service_name timer = "timer"
service_name expediter_runner = "expediter-runner"

unfoldable pub wants_receipt : Reconciler → Bool
wants_receipt timer = false
wants_receipt expediter_runner = true

unfoldable pub same : Bool → Bool → Bool
same true b = b
same false b = not b

-- the body of both routes, with `_require_reconcile_owner` and the caller's service_type
unfoldable pub reconcile_row : Reconciler → String → ℕ → Upsert → List Row → Row → Reply
unfolding service_name wants_receipt same apply_update commit put_row
reconcile_row route caller now p rows r =
    if r.deleted
    then http_error 404
    else if not (str_eq (lower (strip caller)) (service_name route))
    then http_error 403
    else if not (same (wants_receipt route) (has_expediter_runner_receipt r))
    then http_error 409
    else commit rows (apply_update now p r)

-- `reconcile_dish_ingredient` and `reconcile_executed_dish_ingredient`
unfoldable pub reconcile : Reconciler → String → ℕ → Upsert → ℕ → List Row → Reply
unfolding find_row by_row reconcile_row
reconcile route caller now p id rows =
    by_row (reconcile_row route caller now p rows) 404 (find_row id rows)
