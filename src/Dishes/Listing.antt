-- ===== src/Dishes/Listing.antt =====
-- `list_dish_ingredient_status` (api/api/dishes.py): the rows of a dish, of each step the one that
-- ranks highest. The response leaves the rows' outcomes out. The rank and the order of the list read
-- columns that Row does not have, so both are parameters, as is the recipe's step for a task key.
use poundcake.Prelude.{
  ℕ, String, Bool, false, not, Option, none, some, List, [], ◌∷◌, nat_eq, str_eq, keep, sort_by,
  ◌&&◌, if◌then◌else◌,
}
use poundcake.Prelude.Text.{strip, text_or_empty}
use poundcake.Tables.{Row}

-- What the request meets: whether it is answered, the recipe's steps by task key, the rank of rows
-- and the order of the list.
pub record View : Type 0 where
  pub answered : Bool
  pub recipe_step_lookup : String → Option ℕ
  pub outranks : Row → Row → Bool
  pub before : Row → Row → Bool

-- the key of a logical step: ("recipe", id), ("task", task_key) or ("row", id)
pub data StepKey : Type 0 where
  recipe_step : ℕ → StepKey
  task : String → StepKey
  single_row : ℕ → StepKey

unfoldable pub same_key : StepKey → StepKey → Bool
same_key (recipe_step a) (recipe_step b) = nat_eq a b
same_key (task a) (task b) = str_eq a b
same_key (single_row a) (single_row b) = nat_eq a b
same_key _ _ = false

unfoldable pub looked_up : View → String → Option ℕ
looked_up v key = if str_eq key "" then none else v.recipe_step_lookup key

-- `_resolve_recipe_ingredient`, as the id of what it finds
unfoldable pub resolve_recipe_ingredient : View → Row → Option ℕ
unfolding looked_up
resolve_recipe_ingredient v r = elim r.recipe_ingredient_id [
  | some id ↦ some id
  | none ↦ looked_up v (strip (text_or_empty r.task_key))
]

-- `_dish_ingredient_identity`
unfoldable pub dish_ingredient_identity : View → Row → StepKey
unfolding resolve_recipe_ingredient
dish_ingredient_identity v r = elim (resolve_recipe_ingredient v r) [
  | some id ↦ recipe_step id
  | none ↦
      let key = strip (text_or_empty r.task_key) in
      if str_eq key "" then single_row r.id else task key
]

-- one turn of the loop of `_collapse_dish_ingredient_records`, on the rows selected so far
unfoldable pub select_row : View → Row → List Row → List Row
unfolding dish_ingredient_identity same_key
select_row v r [] = r ∷ []
select_row v r (x ∷ xs) =
    let later = select_row v r xs in
    if same_key (dish_ingredient_identity v x) (dish_ingredient_identity v r)
    then (if v.outranks r x then r else x) ∷ xs
    else x ∷ later

unfoldable pub select_rows : View → List Row → List Row → List Row
unfolding select_row
select_rows v chosen [] = chosen
select_rows v chosen (r ∷ rs) = select_rows v (select_row v r chosen) rs

-- `_collapse_dish_ingredient_records`
unfoldable pub collapse_records : View → List Row → List Row
unfolding select_rows
collapse_records v rows = sort_by v.before (select_rows v [] rows)

unfoldable pub is_row_of : ℕ → Row → Bool
is_row_of dish_id r = nat_eq r.dish_id dish_id && not r.deleted

-- the row without what the response leaves out
unfoldable pub redacted : Row → Row
redacted r = record r { actual_outcome = none }

-- `list_dish_ingredient_status`, on the rows in the order of its query
unfoldable pub list_dish_ingredient_status : View → ℕ → List Row → List Row
unfolding collapse_records is_row_of
list_dish_ingredient_status v dish_id rows = collapse_records v (keep (is_row_of dish_id) rows)
