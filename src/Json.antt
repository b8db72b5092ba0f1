-- ===== src/Json.antt =====
-- Decoded JSON values (shared/types.py) and the comparison of an execution's outcome with the
-- expected one (api/plugins/contract.py). Numbers are the integers; floats are not modelled.
pub mod Keys
use poundcake.Prelude.{
  ℕ, String, Bool, true, false, not, ◌&&◌, Option, none, some, str_eq, nat_eq, one_of, List, [],
  ◌∷◌, if◌then◌else◌,
}
use poundcake.Prelude.Text.{lower, strip}

mutual
  pub data Value : Type 0 where
    obj : Fields → Value
    arr : Items → Value
    text : String → Value
    int : ℕ → Value
    neg : ℕ → Value  -- -(n + 1)
    bool : Bool → Value
    null : Value

  pub data Fields : Type 0 where
    end : Fields
    field : String → Value → Fields → Fields

  pub data Items : Type 0 where
    no_items : Items
    item : Value → Items → Items

-- d.get(k); a key stands once, and the first wins
unfoldable pub get : String → Fields → Option Value
get k end = none
get k (field j v rest) = let later = get k rest in if str_eq j k then some v else later

-- bool(value) of a decoded value
unfoldable pub truthy : Value → Bool
truthy (obj end) = false
truthy (arr no_items) = false
truthy (text s) = not (str_eq s "")
truthy (int n) = not (nat_eq n 0)
truthy (bool b) = b
truthy null = false
truthy _ = true

-- `a or b`
unfoldable pub first_truthy : Value → Value → Value
unfolding truthy
first_truthy a b = if truthy a then a else b

-- `value if isinstance(value, dict) else None`
unfoldable pub dict_of : Value → Option Fields
dict_of (obj fs) = some fs
dict_of _ = none

-- d[k] = v
unfoldable pub set_field : String → Value → Fields → Fields
set_field k v end = field k v end
set_field k v (field j w rest) =
    let later = set_field k v rest in if str_eq j k then field k v rest else field j w later

-- the fields of a value that is a dict, and none for any other value
abbrev pub fields_of : Value → Fields
fields_of (obj fs) = fs
fields_of _ = end

abbrev pub get_or_null : String → Fields → Value
get_or_null k fs = elim (get k fs) [ none ↦ null | some v ↦ v ]

abbrev pub is_false : Value → Bool
is_false (bool false) = true
is_false _ = false

abbrev pub is_true : Value → Bool
is_true (bool true) = true
is_true _ = false

abbrev pub is_text : Value → String → Bool
is_text (text s) t = str_eq s t
is_text _ t = false

bool_eq : Bool → Bool → Bool
bool_eq true b = b
bool_eq false b = not b

-- True == 1 and False == 0
bool_int : Bool → ℕ → Bool
bool_int true n = nat_eq n 1
bool_int false n = nat_eq n 0

size : Fields → ℕ
size end = 0
size (field k v rest) = ℕ.suc (size rest)

-- Python's `==` on decoded JSON: lists in order, dicts by key
mutual
  value_eq : Value → Value → Bool
  value_eq null null = true
  value_eq (bool a) (bool b) = bool_eq a b
  value_eq (bool a) (int n) = bool_int a n
  value_eq (int n) (bool b) = bool_int b n
  value_eq (int m) (int n) = nat_eq m n
  value_eq (neg m) (neg n) = nat_eq m n
  value_eq (text s) (text t) = str_eq s t
  value_eq (arr xs) (arr ys) = items_eq xs ys
  value_eq (obj fs) (obj gs) = nat_eq (size fs) (size gs) && fields_in fs gs
  value_eq _ _ = false

  items_eq : Items → Items → Bool
  items_eq no_items no_items = true
  items_eq (item x xs) (item y ys) = value_eq x y && items_eq xs ys
  items_eq _ _ = false

  fields_in : Fields → Fields → Bool
  fields_in end gs = true
  fields_in (field k v rest) gs = elim (get k gs) [
    | none ↦ false
    | some w ↦ value_eq v w && fields_in rest gs
  ]

is_blank : String → Bool
unfolding strip
is_blank s = str_eq (strip s) ""

normal : String → String
unfolding lower strip
normal s = lower (strip s)

text_status : Value → Option String → Option String
text_status (text s) other = if is_blank s then other else some (normal s)
text_status _ other = other

first_text : List String → Fields → Option String
first_text [] fs = none
first_text (k ∷ ks) fs = text_status (get_or_null k fs) (first_text ks fs)

-- `if status:` holds for a text that is not empty
extract_from : Value → Option String
extract_from (obj fs) = first_text ("status" ∷ "state" ∷ "outcome" ∷ "result" ∷ []) fs
extract_from (text s) = if is_blank s then none else some (normal s)
extract_from _ = none

extract_status : Value → Option String → Option String
extract_status actual none = extract_from actual
extract_status actual (some s) = if str_eq s "" then extract_from actual else some (normal s)

bool_at : Value → Option Bool → Option Bool
bool_at (bool b) other = some b
bool_at _ other = other

success_flag : Value → Bool
success_flag (bool b) = b
success_flag (obj fs) =
    elim (bool_at (get_or_null "success" fs)
      (bool_at (get_or_null "ok" fs) (bool_at (get_or_null "passed" fs) none))) [
        | none ↦ false
        | some b ↦ b
      ]
success_flag _ = false

actual_success : Value → Option String → Bool
actual_success actual status = elim (extract_status actual status) [
  | some s ↦ one_of s ("succeeded" ∷ "success" ∷ "completed" ∷ "true" ∷ "ok" ∷ "passed" ∷ [])
  | none ↦ success_flag actual
]

-- `actual[key]`, or the status where the key "status" is missing
value_at : String → Fields → Option String → Option Value
value_at k fs none = get k fs
value_at k fs (some s) = elim (get k fs) [
  | some v ↦ some v
  | none ↦ if str_eq k "status" then some (text s) else none
]

is_obj : Value → Bool
is_obj (obj fs) = true
is_obj _ = false

mutual
  contains_value : Value → Value → Bool
  contains_value (obj expected) actual =
      is_obj actual && contains_fields expected (fields_of actual) none
  contains_value expected actual = value_eq actual expected

  contains_fields : Fields → Fields → Option String → Bool
  contains_fields end actual status = true
  contains_fields (field k v rest) actual status = elim (value_at k actual status) [
    | none ↦ false
    | some w ↦ contains_value v w && contains_fields rest actual status
  ]

same_status : Option String → String → Bool
same_status none t = false
same_status (some s) t = str_eq s t

-- `normalize_status(status) == "succeeded"`
status_text : Option String → String
status_text none = ""
status_text (some s) = s

unfoldable pub expected_outcome_matches : Value → Value → Option String → Bool
unfolding get bool_eq bool_int size value_eq items_eq fields_in is_blank normal text_status
    first_text extract_from extract_status bool_at success_flag actual_success value_at is_obj
    contains_value contains_fields same_status status_text
expected_outcome_matches null actual status = str_eq (normal (status_text status)) "succeeded"
expected_outcome_matches (bool b) actual status = bool_eq (actual_success actual status) b
expected_outcome_matches (text s) actual status =
    same_status (extract_status actual status) (normal s)
expected_outcome_matches (obj fs) actual status =
    is_obj actual && contains_fields fs (fields_of actual) status
expected_outcome_matches expected actual status = value_eq expected actual
