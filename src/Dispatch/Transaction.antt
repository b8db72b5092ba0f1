-- ===== src/Dispatch/Transaction.antt =====
-- The transaction that dispatches an order (api/api/orders.py, `_dispatch_order_once`).
use poundcake.Prelude.{
  ℕ, Bool, not, ◌&&◌, ◌+◌, Option, none, some, nat_eq, List, [], ◌∷◌, ◌++◌, if◌then◌else◌, keep,
  any, first, length, update_first,
}
use poundcake.Status.{Phase}
use poundcake.Tables.{Row, Order, Dish}
use poundcake.Dispatch.{is_communication_step, Seed, finalizer_base_bucket, seed_each, candidates}
use poundcake.Dispatch.Orders.{
  Recipe, Kitchen, Setup, Dispatched, dispatched, skipped, http_error, contract_error, has_order_id,
  run_phase_of, is_active_phase_dish, is_recipe_named, has_inactive, inherited_steps, or_fallback,
  park_order, take_up, touch_order, find_or_create_dish, is_outcome_pending, is_firing_phase,
}

-- recipe_ingredient_id where it is not null
unfoldable pub step_id : Row → List ℕ
step_id r = elim r.recipe_ingredient_id [ none ↦ [] | some n ↦ n ∷ [] ]

unfoldable pub step_ids : List Row → List ℕ
unfolding step_id
step_ids [] = []
step_ids (r ∷ rs) = step_id r ++ step_ids rs

-- existing_by_recipe_ingredient_id: of the rows of a step, the last
unfoldable pub last_per_step : List Row → List Row
unfolding step_id step_ids
last_per_step [] = []
last_per_step (r ∷ rs) =
    let later = last_per_step rs in
    elim r.recipe_ingredient_id [
      | none ↦ later
      | some n ↦ if any (nat_eq n) (step_ids rs) then later else r ∷ later
    ]

-- `_dish_ingredients_for_seed_query`
unfoldable pub is_seed_row : ℕ → Row → Bool
is_seed_row dish r = nat_eq r.dish_id dish && not r.deleted

unfoldable pub seed_for : Setup → Phase → Recipe → Order → ℕ → List Row → Seed
unfolding last_per_step step_ids
seed_for c phase r o dish rows =
    let existing = last_per_step rows in
    let base = finalizer_base_bucket phase r.steps existing in
    record {
      dish_id = dish;
      phase = phase;
      order = o;
      now = c.now;
      existing = step_ids existing;
      has_communication_step = any is_communication_step r.steps;
      finalizer_depth = base.0;
      finalizer_step_order = base.1;
      accepts = c.accepts;
    }

unfoldable pub add_rows : ℕ → Kitchen → Option (List Row) → Dispatched
add_rows dish k none = contract_error
add_rows dish k (some seeded) =
    dispatched dish (record k { rows = k.rows ++ seeded; next_row = k.next_row + length seeded })

-- the branch of a recipe
unfoldable pub dispatch_recipe : Setup → Phase → Order → Recipe → Kitchen → Dispatched
unfolding has_inactive has_order_id take_up find_or_create_dish is_seed_row seed_for add_rows
    inherited_steps
dispatch_recipe c phase o r k =
    if has_inactive r.steps
    then http_error 409
    else let o' = take_up phase c.now r o in
      let taken = record k {
        orders = update_first (has_order_id o.id) (take_up phase c.now r) k.orders;
      } in
      let (dish, k') = find_or_create_dish c.now phase r o' taken in
      add_rows dish k' (
        seed_each (seed_for c phase r o' dish (keep (is_seed_row dish) k'.rows)) k'.next_row 0
          (candidates r.steps (inherited_steps c r o')))

unfoldable pub dispatch_found :
    Setup → Phase → Order → Kitchen → Option Recipe × List Recipe → Dispatched
unfolding park_order has_order_id dispatch_recipe
dispatch_found c phase o k (some r, recipes) =
    dispatch_recipe c phase o r (record k { recipes = recipes })
dispatch_found c phase o k (none, recipes) = skipped (record k {
  orders = update_first (has_order_id o.id) (park_order c.now) k.orders;
  recipes = recipes;
})

unfoldable pub waits_for_firing : Phase → Order → List Dish → Bool
unfolding is_firing_phase is_outcome_pending is_active_phase_dish
waits_for_firing phase o dishes =
    not (is_firing_phase phase)
    && is_outcome_pending o.remediation_outcome
    && any (is_active_phase_dish o.id Phase.firing) dishes

unfoldable pub dispatch_phase : Setup → Phase → Order → Kitchen → Dispatched
unfolding waits_for_firing touch_order has_order_id is_recipe_named or_fallback dispatch_found
dispatch_phase c phase o k =
    if waits_for_firing phase o k.dishes
    then skipped
        (record k { orders = update_first (has_order_id o.id) (touch_order c.now) k.orders })
    else dispatch_found c phase o k
        (or_fallback c phase o k.recipes (first (is_recipe_named o.alert_group_name) k.recipes))

unfoldable pub dispatch_found_order : Setup → Kitchen → Option Order → Dispatched
unfolding run_phase_of dispatch_phase
dispatch_found_order c k none = http_error 404
dispatch_found_order c k (some o) = elim (run_phase_of o.processing_status) [
  | none ↦ http_error 409
  | some phase ↦ dispatch_phase c phase o k
]

-- `_dispatch_order_once`
unfoldable pub dispatch_order_once : Setup → ℕ → Kitchen → Dispatched
unfolding dispatch_found_order has_order_id
dispatch_order_once c id k = dispatch_found_order c k (first (has_order_id id) k.orders)
