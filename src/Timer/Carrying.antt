-- ===== src/Timer/Carrying.antt =====
-- An outcome keeps the context updates of the outcome before it.
use poundcake.Json.Keys.{get-set_other, get-set_same}
use poundcake.Prelude.{String, Option, none, some, ◌≡◌, inl, inr, refl, Bool-cases, str_eq, ◌∙◌}
use poundcake.Json.{Value, Fields, end, field, obj, get, get_or_null, fields_of, set_field, dict_of}
use poundcake.Timer.Context.{
  merge, kept_updates, own_updates, carry, actual_outcome_with_context_updates,
}

get-merge_kept : (k : String) (a b : Fields) → get k b ≡ none → get k (merge a b) ≡ get k a
unfolding get merge
get-merge_kept k a end h = refl
get-merge_kept k a (field j v rest) h = elim (Bool-cases (str_eq j k)) [
  | inl e ↦ absurd (let q = rw e at h in cc)
  | inr e ↦ get-merge_kept k (set_field j v a) rest (rw e at h) ∙ get-set_other j k v a e
]

-- the context updates that an outcome comes with
unfoldable pub given_updates : Option Fields → Fields
given_updates none = end
given_updates (some outcome) = fields_of (get_or_null "_context_updates" outcome)

get-own_updates :
    (k : String) (updates : Fields) (own : Value)
    → get k (fields_of own) ≡ none
    → get k (own_updates updates (dict_of own)) ≡ get k updates
unfolding own_updates dict_of
get-own_updates k updates (obj fs) h = get-merge_kept k updates fs h
get-own_updates k updates _ h = refl

abbrev pub Carries : String → Value → Option Value → Type 0
Carries k v result =
    (fs : Fields) × (own : Fields) × (result ≡ some (obj fs))
    × (get "_context_updates" fs ≡ some (obj own))
    × (get k own ≡ some v)

carry-Carries :
    (updates : Fields) (outcome : Option Fields) (k : String) (v : Value)
    → get k updates ≡ some v
    → get k (given_updates outcome) ≡ none
    → Carries k v (carry updates outcome)
unfolding carry given_updates get
carry-Carries end outcome k v h g = absurd (let n : Option.none ≡ some v = h in cc)
carry-Carries (field j w rest) none k v h g = (_, field j w rest, refl, refl, h)
carry-Carries (field j w rest) (some outcome) k v h g = (
  _,
  own_updates (field j w rest) (dict_of (get_or_null "_context_updates" outcome)),
  refl,
  get-set_same "_context_updates" _ outcome,
  get-own_updates k (field j w rest) (get_or_null "_context_updates" outcome) g ∙ h,
)

-- A context update of the row's outcome is, under its key and with its value, among the context
-- updates of the outcome that Timer sends, unless the outcome that it is given has an update of that key.
pub actual_outcome-Carries :
    (existing : Option Value) (outcome : Option Fields) (k : String) (v : Value)
    → get k (kept_updates existing) ≡ some v
    → get k (given_updates outcome) ≡ none
    → Carries k v (actual_outcome_with_context_updates existing outcome)
unfolding actual_outcome_with_context_updates
actual_outcome-Carries existing outcome k v h g =
    carry-Carries (kept_updates existing) outcome k v h g
