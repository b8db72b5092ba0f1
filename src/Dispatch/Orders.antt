-- ===== src/Dispatch/Orders.antt =====
-- What the dispatch of an order is made of (api/api/orders.py): its phase, its recipe or the catch-all's, the order's
-- own columns, its dish and the rows of the dish. The dishes are listed newest first. The transaction
-- of Transaction is rolled back on an exception, and then nothing is written. The communication policy's queries, the
-- creation of the catch-all recipe and the expected run time of the dish are left to parameters or out.
use poundcake.Prelude.{
  ℕ, suc, String, Bool, true, false, not, ◌&&◌, ◌||◌, Option, none, some, str_eq, nat_eq, List, [],
  ◌∷◌, if◌then◌else◌, first,
}
use poundcake.Prelude.Text.{strip, lower}
use poundcake.Json.{Value, fields_of, get_or_null, null, text, is_true}
use poundcake.Segments.{or_value}
use poundcake.Status.{Phase, OrderStatus, Outcome}
use poundcake.Tables.{Row, Order, Dish, DishStatus}
use poundcake.Dispatch.{Step, Ingredient, is_phase_eligible, is_outcome_none}

-- recipes
pub record Recipe : Type 0 where
  pub id : ℕ
  pub name : String
  pub enabled : Bool
  pub clear_timeout_sec : Option ℕ
  pub steps : List Step

-- What the dispatch reads and writes; the two numbers are those of the next rows.
pub record Kitchen : Type 0 where
  pub orders : List Order
  pub dishes : List Dish
  pub rows : List Row
  pub recipes : List Recipe
  pub next_dish : ℕ
  pub next_row : ℕ

-- The setting of the catch-all's name, the recipes after ensure_fallback_recipe, whether a recipe has
-- enabled routes of its own, the steps of the global policy, and the contract.
pub record Setup : Type 0 where
  pub catch_all_recipe_name : String
  pub ensure_fallback_recipe : List Recipe → List Recipe
  pub has_enabled_routes : Recipe → Bool
  pub policy_steps : List Step
  pub accepts : Step → Order → Bool
  pub now : ℕ

-- the reply's status and the dish, an HTTPException with its code, or the contract's exception
pub data Dispatched : Type 0 where
  dispatched : ℕ → Kitchen → Dispatched
  skipped : Kitchen → Dispatched
  http_error : ℕ → Dispatched
  contract_error : Dispatched

unfoldable pub has_order_id : ℕ → Order → Bool
has_order_id id o = nat_eq o.id id

unfoldable pub run_phase_of : OrderStatus → Option Phase
run_phase_of OrderStatus.new = some Phase.firing
run_phase_of OrderStatus.resolving = some Phase.resolving
run_phase_of _ = none

-- {"new", "processing", "finalizing"}
unfoldable pub is_active_dish : DishStatus → Bool
is_active_dish DishStatus.new = true
is_active_dish DishStatus.processing = true
is_active_dish DishStatus.finalizing = true
is_active_dish _ = false

unfoldable pub same_phase : Phase → Phase → Bool
same_phase Phase.firing Phase.firing = true
same_phase Phase.resolving Phase.resolving = true
same_phase _ _ = false

unfoldable pub is_order : ℕ → Option ℕ → Bool
is_order id none = false
is_order id (some n) = nat_eq n id

-- `_active_phase_dish_query`, and `_active_firing_dish_query` for the firing phase
unfoldable pub is_active_phase_dish : ℕ → Phase → Dish → Bool
unfolding is_order same_phase is_active_dish
is_active_phase_dish order phase d =
    is_order order d.order_id && same_phase d.run_phase phase && is_active_dish d.processing_status

-- `_active_recipe_query`
unfoldable pub is_recipe_named : String → Recipe → Bool
is_recipe_named name r = str_eq r.name name && r.enabled

unfoldable pub is_outcome_pending : Outcome → Bool
is_outcome_pending Outcome.pending = true
is_outcome_pending _ = false

unfoldable pub is_firing_phase : Phase → Bool
is_firing_phase Phase.firing = true
is_firing_phase Phase.resolving = false

unfoldable pub is_remediation : Ingredient → Bool
is_remediation i = str_eq (lower (strip i.ingredient_purpose)) "remediation"

-- `_recipe_has_phase_remediation` for the firing phase
unfoldable pub has_firing_remediation : List Step → Bool
unfolding is_remediation is_phase_eligible
has_firing_remediation [] = false
has_firing_remediation (ri ∷ rest) =
    let later = has_firing_remediation rest in
    elim ri.ingredient [
      | none ↦ later
      | some i ↦ is_phase_eligible ri.run_phase Phase.firing && is_remediation i || later
    ]

-- `_inactive_ingredients` of the recipe is not empty
unfoldable pub has_inactive : List Step → Bool
has_inactive [] = false
has_inactive (ri ∷ rest) =
    let later = has_inactive rest in
    elim ri.ingredient [ none ↦ later | some i ↦ not i.is_active || later ]

is_scheduled : Value → Bool
is_scheduled (text s) = str_eq (lower (strip s)) "scheduled_task"
is_scheduled _ = false

-- `_order_skips_inherited_policy`, for an operator_action that is a truth value
unfoldable pub skips_inherited_policy : Order → Bool
unfolding is_scheduled
skips_inherited_policy o =
    let raw = fields_of (or_value o.raw_data null) in
    is_true (get_or_null "operator_action" raw) || is_scheduled (get_or_null "order_type" raw)

-- `build_dish_plan`: the inherited steps
unfoldable pub inherited_steps : Setup → Recipe → Order → List Step
unfolding skips_inherited_policy
inherited_steps c r o =
    if skips_inherited_policy o then [] else if c.has_enabled_routes r then [] else c.policy_steps

-- the recipe of the alert group, or else the catch-all's
unfoldable pub fallback_allowed : Setup → Phase → Order → Bool
unfolding is_firing_phase
fallback_allowed c phase o =
    not (str_eq (strip c.catch_all_recipe_name) "")
    && (is_firing_phase phase || is_outcome_none o.remediation_outcome)

unfoldable pub or_fallback :
    Setup → Phase → Order → List Recipe → Option Recipe → Option Recipe × List Recipe
unfolding fallback_allowed is_recipe_named
or_fallback c phase o recipes (some r) = (some r, recipes)
or_fallback c phase o recipes none =
    if fallback_allowed c phase o
    then (
      first (is_recipe_named (strip c.catch_all_recipe_name)) (c.ensure_fallback_recipe recipes),
      c.ensure_fallback_recipe recipes,
    )
    else (none, recipes)

-- the order without a recipe
unfoldable pub park_order : ℕ → Order → Order
park_order now o = record o {
  processing_status = OrderStatus.resolving;
  remediation_outcome = Outcome.none_needed;
  clear_timeout_sec = none;
  clear_deadline_at = none;
  clear_timed_out_at = none;
  auto_close_eligible = false;
  is_active = true;
  updated_at = now;
}

-- the order that a firing dish takes up
unfoldable pub fire_order : ℕ → Recipe → Order → Order
unfolding has_firing_remediation
fire_order now r o =
    let remedies = has_firing_remediation r.steps in
    record o {
      processing_status = OrderStatus.processing;
      remediation_outcome = if remedies then Outcome.pending else Outcome.none_needed;
      clear_timeout_sec = if remedies then r.clear_timeout_sec else none;
      clear_deadline_at = none;
      clear_timed_out_at = none;
      auto_close_eligible = false;
      updated_at = now;
    }

unfoldable pub take_up : Phase → ℕ → Recipe → Order → Order
unfolding fire_order
take_up Phase.firing now r o = fire_order now r o
take_up Phase.resolving now r o = o

unfoldable pub touch_order : ℕ → Order → Order
touch_order now o = record o { updated_at = now }

unfoldable pub new_dish : ℕ → ℕ → Phase → Recipe → Order → Dish
new_dish id now phase r o = record {
  id = id;
  order_id = some o.id;
  recipe_id = r.id;
  run_phase = phase;
  processing_status = DishStatus.new;
  dish_exec_status = none;
  started_at = none;
  completed_at = none;
  run_time_secs = none;
  error_message = none;
  updated_at = now;
}

-- the active dish of the phase, or a new one: its number, and the dishes with it
unfoldable pub find_or_create_dish : ℕ → Phase → Recipe → Order → Kitchen → ℕ × Kitchen
unfolding is_active_phase_dish new_dish
find_or_create_dish now phase r o k = elim (first (is_active_phase_dish o.id phase) k.dishes) [
  | some d ↦ (d.id, k)
  | none ↦ (
    k.next_dish,
    record k {
      dishes = new_dish k.next_dish now phase r o ∷ k.dishes;
      next_dish = suc k.next_dish;
    },
  )
]
