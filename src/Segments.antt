-- ===== src/Segments.antt =====
-- kitchen/execution_segments.py: which rows of a dish run next. An item is a decoded JSON object;
-- the model keeps the keys that the code reads. Negative numbers do not occur in these columns.
pub mod Sorting
pub mod Collect
pub mod Safety
pub mod Progress
use poundcake.Prelude.{
  ℕ, String, Bool, true, false, ◌&&◌, Option, none, some, str_eq, ltb, nat_eq, if◌then◌else◌, List,
  [], ◌∷◌, any,
}
use poundcake.Prelude.Text.{lower, strip, strip_prefix, before_char, parse_digits}
use poundcake.Status.{ExecStatus, pending, succeeded, is_in_flight, is_pending}
use Prim.Native.Nat.{compare, Ordering}
use Prim.Native.String.{compare as compare_text}
use poundcake.Tables.{OnFailure, continue}
use mathlib.Core.Option

-- a value under a key that should hold a number: absent or no number or digits, a number, a text
pub data Cell : Type 0 where
  missing : Cell
  num : ℕ → Cell
  digits : String → Cell

unfoldable pub coerce_int : Cell → Option ℕ
unfolding parse_digits
coerce_int missing = none
coerce_int (num n) = some n
coerce_int (digits s) = parse_digits s

pub record Item : Type 0 where
  pub id : Cell
  pub recipe_ingredient_id : Cell
  pub task_key : Option String
  pub step_order : Cell
  pub depth : Cell
  pub parallel_group : Cell
  pub service_type : Option String
  pub on_failure : Option OnFailure
  pub status : Option ExecStatus

-- an entry of dish["recipe"]["recipe_ingredients"]
pub record RecipeStep : Type 0 where
  pub id : Cell
  pub step_order : Cell

abbrev pub or_else {ℓ} : {A : Type ℓ} → Option A → Option A → Option A
or_else none b = b
or_else (some a) b = some a

abbrev pub or_value {ℓ} : {A : Type ℓ} → Option A → A → A
or_value none d = d
or_value (some a) d = a

parse_step_order_from_task_key : Option String → Option ℕ
unfolding strip_prefix before_char parse_digits
parse_step_order_from_task_key none = none
parse_step_order_from_task_key (some key) = elim (strip_prefix "step_" key) [
  | none ↦ none
  | some remainder ↦ parse_digits (before_char b'_' remainder)
]

-- `step_orders.get(ri_id)`: a later entry of the recipe overwrites an earlier one
step_order_of : Option ℕ → Option ℕ → ℕ → Option ℕ → Option ℕ
step_order_of (some i) (some s) k later = or_else later (if nat_eq i k then some s else none)
step_order_of _ _ k later = later

recipe_step_order : List RecipeStep → ℕ → Option ℕ
unfolding step_order_of
recipe_step_order [] k = none
recipe_step_order (r ∷ rs) k =
    step_order_of (coerce_int r.id) (coerce_int r.step_order) k (recipe_step_order rs k)

abbrev pub unordered : ℕ
unordered = 1_000_000

recipe_order_at : List RecipeStep → Option ℕ → Option ℕ
recipe_order_at recipe none = none
recipe_order_at recipe (some k) = recipe_step_order recipe k

item_step_order : List RecipeStep → Item → ℕ
unfolding parse_step_order_from_task_key recipe_step_order recipe_order_at
item_step_order recipe item =
    or_value
      (or_else (coerce_int item.step_order) (
        or_else (recipe_order_at recipe (coerce_int item.recipe_ingredient_id))
          (parse_step_order_from_task_key item.task_key)))
      unordered

-- the tuple (depth, parallel_group, step_order, task_key, item_id)
pub record SortKey : Type 0 where
  pub depth : ℕ
  pub parallel_group : ℕ
  pub step_order : ℕ
  pub task_key : String
  pub id : ℕ

unfoldable pub sort_key : List RecipeStep → Item → SortKey
unfolding item_step_order coerce_int
sort_key recipe item = record {
  depth = or_value (coerce_int item.depth) (item_step_order recipe item);
  parallel_group = or_value (coerce_int item.parallel_group) 0;
  step_order = item_step_order recipe item;
  task_key = or_value item.task_key "";
  id = or_value (coerce_int item.id) 0;
}

-- `a < b` of a component, and what decides where the components are equal
abbrev lex : Ordering → Bool → Bool
lex Ordering.lt rest = true
lex Ordering.eq rest = rest
lex Ordering.gt rest = false

pub key_lt : SortKey → SortKey → Bool
key_lt a b = lex (compare a.depth b.depth) (
    lex (compare a.parallel_group b.parallel_group) (
      lex (compare a.step_order b.step_order)
        (lex (compare_text a.task_key b.task_key) (ltb a.id b.id))))

-- `sorted` is stable: an item goes before those that follow it in the input with an equal key
insert : List RecipeStep → Item → List Item → List Item
insert recipe x [] = x ∷ []
insert recipe x (y ∷ ys) =
    let rest = insert recipe x ys in
    if key_lt (sort_key recipe y) (sort_key recipe x) then y ∷ rest else x ∷ y ∷ ys

unfoldable pub sort_ingredients_for_execution : List RecipeStep → List Item → List Item
unfolding insert key_lt sort_key
sort_ingredients_for_execution recipe [] = []
sort_ingredients_for_execution recipe (x ∷ xs) =
    insert recipe x (sort_ingredients_for_execution recipe xs)

pub record Bucket : Type 0 where
  pub depth : ℕ
  pub group : ℕ

unfoldable pub execution_bucket : Item → Bucket
unfolding coerce_int
execution_bucket item = record {
  depth = or_value (or_else (coerce_int item.depth) (coerce_int item.step_order)) unordered;
  group = or_value (coerce_int item.parallel_group) 0;
}

abbrev pub bucket_eq : Bucket → Bucket → Bool
bucket_eq a b = nat_eq a.depth b.depth && nat_eq a.group b.group

abbrev pub bucket_lt : Bucket → Bucket → Bool
bucket_lt a b = lex (compare a.depth b.depth) (ltb a.group b.group)

-- on_failure "continue" lets the dish go on after a failure; the other values and null stop it
abbrev pub continues : Option OnFailure → Bool
continues (some continue) = true
continues _ = false

-- what the scan does at an item of a status: pass it, end with nothing, or take its bucket
pub data Scan : Type 0 where
  pass halt take_bucket : Scan

unfoldable pub scan_item : Option ExecStatus → Option OnFailure → Scan
scan_item none f = take_bucket
scan_item (some pending) f = take_bucket
scan_item (some succeeded) f = pass
scan_item (some s) f = if is_in_flight s then halt else if continues f then pass else halt

unfoldable pub ready_bucket : List Item → Option Bucket
unfolding scan_item is_in_flight
ready_bucket [] = none
ready_bucket (x ∷ xs) = elim (scan_item x.status x.on_failure) [
  | pass ↦ ready_bucket xs
  | halt ↦ none
  | take_bucket ↦ some (execution_bucket x)
]

-- PENDING_EXECUTION_STATUSES
unfoldable pub is_ready_status : Option ExecStatus → Bool
unfolding is_pending
is_ready_status none = true
is_ready_status (some s) = is_pending s

pub in_segment : Bucket → Item → Bool
unfolding execution_bucket is_ready_status
in_segment b x = bucket_eq (execution_bucket x) b && is_ready_status x.status

unfoldable pub service_type_of : Item → String
unfolding lower strip
service_type_of x = lower (strip (or_value x.service_type ""))

pub record Segment : Type 0 where
  pub bucket : Bucket
  pub rows : List Item

-- the second loop: a row of the bucket with a blank service type spoils the segment
unfoldable pub collect : Bucket → List Item → Option (List Item)
unfolding in_segment service_type_of
collect b [] = some []
collect b (x ∷ xs) =
    let rest = collect b xs in
    if in_segment b x
    then (if str_eq (service_type_of x) "" then none else Option.map (λ r. x ∷ r) rest)
    else rest

segment_at : Bucket → Option (List Item) → Option Segment
segment_at b none = none
segment_at b (some []) = none
segment_at b (some (x ∷ xs)) = some (record { bucket = b; rows = x ∷ xs })

pub segment_from : Option Bucket → List Item → Option Segment
unfolding segment_at collect
segment_from none ordered = none
segment_from (some b) ordered = segment_at b (collect b ordered)

unfoldable pub next_pending_execution_segment : List RecipeStep → List Item → Option Segment
unfolding segment_from ready_bucket sort_ingredients_for_execution
next_pending_execution_segment recipe items =
    let ordered = sort_ingredients_for_execution recipe items in
    segment_from (ready_bucket ordered) ordered

unfoldable pub item_in_flight : Item → Bool
item_in_flight x = elim x.status [ none ↦ false | some s ↦ is_in_flight s ]

unfoldable pub has_in_flight_execution : List Item → Bool
unfolding item_in_flight is_in_flight
has_in_flight_execution items = any item_in_flight items
