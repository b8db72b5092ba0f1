-- ===== src/Dispatch.antt =====
-- The planning of a dish (api/services/dish_planner.py): which steps of a recipe, and of the global
-- communication policy, become rows of the dish, and where. A recipe's step is read with its
-- ingredient, as the query loads it. Whether the contract accepts a step's payload, and the columns
-- that only a plugin reads (payload, destination, retries), are left to a parameter.
-- Orders has the dispatch of an order; the proofs are in Seeding, Placing, Again and
-- Dispatching, for which Branches lists what a dispatch can commit.
pub mod Orders
pub mod Transaction
pub mod Seeding
pub mod Placing
pub mod Safety
pub mod Branches
pub mod Dispatching
pub mod Again
use poundcake.Prelude.{
  ℕ, suc, String, Bool, true, false, not, ◌&&◌, ◌+◌, Option, none, some, str_eq, nat_eq, one_of,
  List, [], ◌∷◌, ◌++◌, if◌then◌else◌, any, map, max,
}
use Prim.Native.String.{◌++◌ as append}
use poundcake.Prelude.Text.{strip, lower, show_nat, replace_dots}
use poundcake.Json.{Value, Fields, fields_of, get_or_null, null, text}
use poundcake.Segments.{or_value, or_else}
use poundcake.Status.{Phase, ExecStatus, Outcome}
use poundcake.ScheduledTasks.{update_fields}
use poundcake.Tables.{Row, Order, OnFailure}

-- recipe_ingredients.run_phase
pub data StepPhase : Type 0 where
  firing_only resolving_only both : StepPhase

-- ingredients
pub record Ingredient : Type 0 where
  pub service_type : String
  pub service_exec : String
  pub task_key_template : String
  pub ingredient_purpose : String
  pub service_exec_parameters : Option Value
  pub default_expected_secs : Option ℕ
  pub default_timeout : Option ℕ
  pub expected_outcome_default : Option Value
  pub on_failure : Option OnFailure
  pub is_active : Bool

-- recipe_ingredients, with the ingredient where there is one
pub record Step : Type 0 where
  pub id : ℕ
  pub ingredient : Option Ingredient
  pub step_order : ℕ
  pub parallel_group : ℕ
  pub depth : ℕ
  pub service_exec_parameters_override : Option Value
  pub service_exec_expected_secs : Option ℕ
  pub service_exec_timeout : Option ℕ
  pub expected_outcome : Option Value
  pub run_phase : StepPhase
  pub run_condition : String

-- The check constraint leaves nothing for normalize_run_phase to do.
unfoldable pub is_phase_eligible : StepPhase → Phase → Bool
is_phase_eligible both phase = true
is_phase_eligible firing_only Phase.firing = true
is_phase_eligible resolving_only Phase.resolving = true
is_phase_eligible _ _ = false

unfoldable pub normalize_run_condition : String → String
normalize_run_condition s =
    let normal = lower (strip (if str_eq s "" then "always" else s)) in
    if str_eq normal "" then "always" else normal

is_outcome_succeeded : Outcome → Bool
is_outcome_succeeded Outcome.succeeded = true
is_outcome_succeeded _ = false

is_outcome_failed : Outcome → Bool
is_outcome_failed Outcome.failed = true
is_outcome_failed _ = false

unfoldable pub is_outcome_none : Outcome → Bool
is_outcome_none Outcome.none_needed = true
is_outcome_none _ = false

has_timed_out : Option ℕ → Bool
has_timed_out none = false
has_timed_out (some t) = true

-- the conditions other than "always" hold in the resolving phase only
unfoldable pub condition_holds : String → Phase → Order → Bool
unfolding is_outcome_succeeded is_outcome_failed is_outcome_none has_timed_out
condition_holds condition Phase.firing o = false
condition_holds condition Phase.resolving o =
    if str_eq condition "resolved_after_success"
    then is_outcome_succeeded o.remediation_outcome && not (has_timed_out o.clear_timed_out_at)
    else if str_eq condition "resolved_after_failure"
    then is_outcome_failed o.remediation_outcome
    else if str_eq condition "resolved_after_no_remediation"
    then is_outcome_none o.remediation_outcome
    else if str_eq condition "resolved_after_timeout"
    then has_timed_out o.clear_timed_out_at
    else false

unfoldable pub is_run_condition_eligible : Step → Phase → Order → Bool
unfolding normalize_run_condition condition_holds
is_run_condition_eligible ri phase o =
    let condition = normalize_run_condition ri.run_condition in
    if str_eq condition "always" then true else condition_holds condition phase o

-- `is_communication_ingredient`
unfoldable pub is_comms : Ingredient → Bool
is_comms i = str_eq (lower (strip i.ingredient_purpose)) "comms"

unfoldable pub is_communication_step : Step → Bool
unfolding is_comms
is_communication_step ri = elim ri.ingredient [ none ↦ false | some i ↦ is_comms i ]

-- `_merged_step_parameters`
unfoldable pub step_parameters : Step → Ingredient → Fields
step_parameters ri i =
    update_fields (fields_of (or_value i.service_exec_parameters null))
      (fields_of (or_value ri.service_exec_parameters_override null))

text_or_blank : Value → String
text_or_blank (text s) = s
text_or_blank _ = ""

-- `_operation_from_parameters`, for an operation that is a text
unfoldable pub operation_of : Fields → String
unfolding text_or_blank
operation_of parameters = lower (strip (text_or_blank (get_or_null "operation" parameters)))

-- `is_route_available_for_update`
unfoldable pub is_route_available_for_update : Step → Order → Bool
is_route_available_for_update ri o = true

unfoldable pub should_seed_route_step : Step → Ingredient → Order → Bool
unfolding step_parameters operation_of is_route_available_for_update
should_seed_route_step ri i o =
    if not (one_of (operation_of (step_parameters ri i)) ("notify" ∷ "close" ∷ []))
    then true
    else if not (
        one_of (lower (strip ri.run_condition)) (
          "resolved_after_failure" ∷ "resolved_after_timeout" ∷ "resolved_after_no_remediation"
          ∷ []))
    then true
    else is_route_available_for_update ri o

unfoldable pub resolved_expected_run_secs : Step → Ingredient → Option ℕ
resolved_expected_run_secs ri i = or_else ri.service_exec_expected_secs i.default_expected_secs

unfoldable pub resolved_timeout_duration_sec : Step → Ingredient → Option ℕ
resolved_timeout_duration_sec ri i = or_else ri.service_exec_timeout i.default_timeout

-- `expected_run_secs_from_recipe_snapshot`, over the recipe's own and the inherited steps
unfoldable pub expected_run_secs : Phase → List Step → ℕ
unfolding resolved_expected_run_secs is_phase_eligible
expected_run_secs phase [] = 0
expected_run_secs phase (ri ∷ rest) =
    let later = expected_run_secs phase rest in
    elim ri.ingredient [
      | none ↦ later
      | some i ↦
          if is_phase_eligible ri.run_phase phase
          then or_value (resolved_expected_run_secs ri i) 0 + later
          else later
    ]

-- the largest depth and step order: those of the rows that the dish has,
unfoldable pub rows_bucket : List Row → ℕ × ℕ
rows_bucket [] = (0, 0)
rows_bucket (r ∷ rs) =
    let (depth, order) = rows_bucket rs in (max r.depth depth, max r.step_order order)

-- `int(step_order or depth)`
unfoldable pub candidate_step_order : Step → ℕ
candidate_step_order ri = if nat_eq ri.step_order 0 then ri.depth else ri.step_order

-- and those of the recipe's steps of the phase
unfoldable pub steps_bucket : Phase → List Step → ℕ × ℕ
unfolding candidate_step_order is_phase_eligible
steps_bucket phase [] = (0, 0)
steps_bucket phase (ri ∷ rest) =
    let later = steps_bucket phase rest in
    elim ri.ingredient [
      | none ↦ later
      | some i ↦
          if is_phase_eligible ri.run_phase phase
          then (max ri.depth later.0, max (candidate_step_order ri) later.1)
          else later
    ]

unfoldable pub finalizer_base_bucket : Phase → List Step → List Row → ℕ × ℕ
unfolding rows_bucket steps_bucket
finalizer_base_bucket phase steps rows =
    let (row_depth, row_order) = rows_bucket rows in
    let (step_depth, step_order) = steps_bucket phase steps in
    (max row_depth step_depth, max row_order step_order)

-- What a pass of seed_dish_ingredients_for_phase works with.
pub record Seed : Type 0 where
  pub dish_id : ℕ
  pub phase : Phase
  pub order : Order
  pub now : ℕ
  pub existing : List ℕ
  pub has_communication_step : Bool
  pub finalizer_depth : ℕ
  pub finalizer_step_order : ℕ
  pub accepts : Step → Order → Bool

-- a step, and whether it is inherited from the policy
pub record Candidate : Type 0 where
  pub step : Step
  pub inherited : Bool

unfoldable pub is_wanted : Seed → Candidate → Ingredient → Bool
unfolding is_comms is_phase_eligible is_run_condition_eligible should_seed_route_step
is_wanted c x i =
    is_phase_eligible x.step.run_phase c.phase
    && is_run_condition_eligible x.step c.phase c.order
    && should_seed_route_step x.step i c.order
    && not (any (nat_eq x.step.id) c.existing)
    && not (x.inherited && is_comms i && c.has_communication_step)

unfoldable pub is_finalizer : Candidate → Ingredient → Bool
unfolding is_comms
is_finalizer x i = is_comms i && x.inherited

filled_value : Fields → Option Value
filled_value Fields.end = none
filled_value (Fields.field k v rest) = some (Value.obj (Fields.field k v rest))

-- the row of a step, when so many finalizers stand before it
unfoldable pub seed_row : Seed → ℕ → ℕ → Candidate → Ingredient → Row
unfolding is_finalizer resolved_expected_run_secs resolved_timeout_duration_sec step_parameters
    filled_value
seed_row c id count x i =
    let last = is_finalizer x i in
    let step_order = if last then c.finalizer_step_order + suc count else x.step.step_order in
    record {
      id = id;
      req_id = c.order.req_id;
      dish_id = c.dish_id;
      recipe_ingredient_id = some x.step.id;
      task_key = some (
          append "step_"
            (append (show_nat step_order) (append "_" (replace_dots i.task_key_template))));
      step_order = step_order;
      parallel_group = if last then 0 else x.step.parallel_group;
      depth = if last then c.finalizer_depth + suc count else x.step.depth;
      service_type = i.service_type;
      service_exec = i.service_exec;
      service_exec_id = none;
      service_exec_parameters = filled_value (step_parameters x.step i);
      service_exec_expected_secs = resolved_expected_run_secs x.step i;
      service_exec_timeout = resolved_timeout_duration_sec x.step i;
      on_failure = i.on_failure;
      expected_outcome = or_else x.step.expected_outcome i.expected_outcome_default;
      actual_outcome = none;
      service_exec_error = none;
      run_time = none;
      sla_exceeded = false;
      claimed_at = none;
      claimed_by = none;
      status = ExecStatus.pending;
      start_time = none;
      completed_time = none;
      updated_at = c.now;
      deleted = false;
    }

unfoldable pub after_finalizer : Bool → ℕ → ℕ
after_finalizer true count = suc count
after_finalizer false count = count

unfoldable pub wanted : Seed → Candidate → Option Ingredient
unfolding is_wanted
wanted c x = elim x.step.ingredient [
  | none ↦ none
  | some i ↦ if is_wanted c x i then some i else none
]

unfoldable pub cons_row : Row → Option (List Row) → Option (List Row)
cons_row r none = none
cons_row r (some rows) = some (r ∷ rows)

-- the loop over the candidates; none where the contract refuses a payload
unfoldable pub seed_each : Seed → ℕ → ℕ → List Candidate → Option (List Row)
unfolding wanted seed_row after_finalizer cons_row is_finalizer
seed_each c id count [] = some []
seed_each c id count (x ∷ xs) = elim (wanted c x) [
  | none ↦ seed_each c id count xs
  | some i ↦
      let rest = seed_each c (suc id) (after_finalizer (is_finalizer x i) count) xs in
      if c.accepts x.step c.order then cons_row (seed_row c id count x i) rest else none
]

unfoldable pub candidates : List Step → List Step → List Candidate
candidates own inherited =
    map (λ s. record { step = s; inherited = false }) own
    ++ map (λ s. record { step = s; inherited = true }) inherited
