-- ===== src/Timer/Context.antt =====
-- The context updates that an outcome carries over (`_actual_outcome_with_context_updates` of
-- kitchen/timer.py).
use poundcake.Json.{
  dict_of, first_truthy, set_field, Value, Fields, end, field, obj, fields_of, get_or_null,
}
use poundcake.Prelude.{Option, none, some}

-- {**a, **b}
unfoldable pub merge : Fields → Fields → Fields
unfolding set_field
merge a end = a
merge a (field k v rest) = merge (set_field k v a) rest

-- the updates that the row's outcome has
unfoldable pub kept_updates : Option Value → Fields
unfolding first_truthy
kept_updates none = end
kept_updates (some existing) = fields_of (
    first_truthy (get_or_null "_context_updates" (fields_of existing))
      (get_or_null "context_updates" (fields_of existing)))

unfoldable pub own_updates : Fields → Option Fields → Fields
unfolding merge
own_updates updates none = updates
own_updates updates (some own) = merge updates own

unfoldable pub carry : Fields → Option Fields → Option Value
unfolding own_updates set_field dict_of
carry end none = none
carry end (some outcome) = some (obj outcome)
carry updates none = some (obj (field "_context_updates" (obj updates) end))
carry updates (some outcome) =
    let now = own_updates updates (dict_of (get_or_null "_context_updates" outcome)) in
    some (obj (set_field "_context_updates" (obj now) outcome))

-- `_actual_outcome_with_context_updates`
unfoldable pub actual_outcome_with_context_updates : Option Value → Option Fields → Option Value
unfolding kept_updates carry
actual_outcome_with_context_updates existing outcome = carry (kept_updates existing) outcome
