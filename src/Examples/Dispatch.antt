-- ===== src/Examples/Dispatch.antt =====
-- The theorems on the dispatch of an order at a recipe of one step and an inherited message.
use poundcake.Dispatch.{
  is_communication_step, Ingredient, Step, StepPhase, Seed, candidates, seed_each,
  finalizer_base_bucket,
}
use poundcake.ScheduledTasks.{update_fields}
use poundcake.Json.{get}
use poundcake.Prelude.Text.{strip, lower}
use poundcake.Prelude.{
  ℕ, String, Option, none, some, true, false, List, [], ◌∷◌, ◌++◌, ◌≡◌, ◌≤◌, refl, All, arith,
  count_if,
}
use poundcake.Tables.{Row}
use poundcake.Status.{Phase, OrderStatus, should_keep_active}
use poundcake.Examples.{order}
use poundcake.Examples.PreHeat.{alert}
use poundcake.PreHeat.Process.{process_alert}
use poundcake.Dispatch.Orders.{Recipe, Kitchen, Setup}
use poundcake.Dispatch.Transaction.{step_ids, seed_for}
use poundcake.Dispatch.Placing.{Placed, seed-finalizers_last}
use poundcake.Dispatch.Again.{seed-again}
use poundcake.Dispatch.Safety.{IsSound}
use poundcake.OrderLife.{Reach, Reach-IsSound}
use poundcake.OrderLife.Stages.{Follows}
use poundcake.OrderLife.Following.{Step-Follows}

abbrev ingredient : String → Ingredient
ingredient purpose = record {
  service_type = "stackstorm";
  service_exec = "run";
  task_key_template = "core.ping";
  ingredient_purpose = purpose;
  service_exec_parameters = none;
  default_expected_secs = some 30;
  default_timeout = some 300;
  expected_outcome_default = none;
  on_failure = none;
  is_active = true;
}

abbrev step : ℕ → String → Step
step id purpose = record {
  id = id;
  ingredient = some (ingredient purpose);
  step_order = 1;
  parallel_group = 0;
  depth = 1;
  service_exec_parameters_override = none;
  service_exec_expected_secs = none;
  service_exec_timeout = none;
  expected_outcome = none;
  run_phase = StepPhase.both;
  run_condition = "always";
}

abbrev recipe : Recipe
recipe = record {
  id = 4;
  name = "host-down";
  enabled = true;
  clear_timeout_sec = none;
  steps = step 11 "remediation" ∷ [];
}

abbrev setup : Setup
setup = record {
  catch_all_recipe_name = "";
  ensure_fallback_recipe = λ recipes. recipes;
  has_enabled_routes = λ r. false;
  policy_steps = step 12 "comms" ∷ [];
  accepts = λ s o. true;
  now = 60;
}

abbrev seed : Seed
seed = seed_for setup Phase.firing recipe (order OrderStatus.new "firing") 7 []

abbrev seeded : Option (List Row)
seeded = seed_each seed 20 0 (candidates recipe.steps setup.policy_steps)

abbrev or_none : Option (List Row) → List Row
or_none none = []
or_none (some rows) = rows

abbrev rows : List Row
rows = or_none seeded

seed-finalizers_last_example :
    All
      (Placed
        (finalizer_base_bucket Phase.firing recipe.steps []).0
        (candidates recipe.steps setup.policy_steps))
      rows
    × All (λ (r : Row). r.depth ≤ (finalizer_base_bucket Phase.firing recipe.steps []).0) []
unfolding finalizer_base_bucket seed_for seed_each candidates lower strip get update_fields
    is_communication_step
seed-finalizers_last_example =
    seed-finalizers_last seed recipe.steps setup.policy_steps [] 20 rows refl refl

seed-again_example :
    seed_each
      (record seed { existing = seed.existing ++ step_ids rows })
      22
      0
      (candidates recipe.steps setup.policy_steps)
    ≡ some []
unfolding seed_each candidates lower strip get update_fields seed_for is_communication_step
seed-again_example =
    seed-again seed 20 0 22 0 (candidates recipe.steps setup.policy_steps) rows refl

abbrev kitchen : Kitchen
kitchen = record {
  orders = order OrderStatus.new "firing" ∷ [];
  dishes = [];
  rows = [];
  recipes = recipe ∷ [];
  next_dish = 7;
  next_row = 20;
}

kitchen-IsSound : IsSound kitchen
unfolding count_if should_keep_active
kitchen-IsSound = ((refl, tt), (λ fp. ground arith), λ id phase. omega arith)

-- an alert
abbrev alerted : Kitchen
alerted = record kitchen { orders = (process_alert 9 50 "SYSTEM-2" alert kitchen.orders).1 }

Reach-IsSound_example : IsSound alerted
Reach-IsSound_example =
    Reach-IsSound kitchen-IsSound
      (Reach.next Reach.here (poundcake.OrderLife.Step.alert 9 50 "SYSTEM-2" alert kitchen))

Step-Follows_example : Follows kitchen.orders alerted.orders
Step-Follows_example = Step-Follows (poundcake.OrderLife.Step.alert 9 50 "SYSTEM-2" alert kitchen)
