-- ===== src/OrderTypes/Laws.antt =====
-- Which type an order's raw_data is given, and that it is otherwise as it was.
use poundcake.Prelude.{
  arith, eq_iff, true, Option, none, ◌≢◌, ◌⊎◌, refl, Option-cases, inr, ◌∙◌, ap, inl, Bool-cases,
  false, some, str_eq, ◌≡◌, String,
}
use poundcake.OrderTypes.{
  subject_type, order_is_subject_to_alert_suppressions, manual, scheduled_task, webhook_alert,
  is_unset, show_order_type, order_type_named, OrderType, normalize_order_type, stored_type,
  ensure_raw_data_order_type, require_order_type, with_type,
}
use poundcake.Json.{bool, neg, int, arr, obj, null, text, fields_of, Value, get}
use poundcake.Json.Keys.{get-set_other, get-set_same}
use poundcake.Prelude.Text.{strip, lower}

typed-require : (t : OrderType) (raw : Value) → require_order_type (some (with_type t raw)) ≡ some t
unfolding require_order_type with_type stored_type normalize_order_type order_type_named
    show_order_type lower strip
typed-require t raw =
    ap normalize_order_type (get-set_same "order_type" (text (show_order_type t)) (fields_of raw))
    ∙ named t
  where
    named : (t : OrderType) → order_type_named (lower (strip (show_order_type t))) ≡ some t
    named webhook_alert = refl
    named scheduled_task = refl
    named manual = refl

-- An order is subject to alert suppressions only if its type is webhook_alert or it has none.
pub subject-alert :
    (raw : Option Value)
    → order_is_subject_to_alert_suppressions raw ≡ true
    → (require_order_type raw ≡ none) ⊎ (require_order_type raw ≡ some webhook_alert)
unfolding order_is_subject_to_alert_suppressions require_order_type subject_type
subject-alert raw h = by_type (normalize_order_type (stored_type raw)) (ground arith)
  where
    by_type : (t : Option OrderType) → subject_type t ≡ true → (t ≡ none) ⊎ (t ≡ some webhook_alert)
    by_type none h = inl refl
    by_type (some webhook_alert) h = inr refl
    by_type (some scheduled_task) h = cc
    by_type (some manual) h = cc

unset-cases :
    (v : Option Value) → is_unset v ≡ true → (v ≡ none) ⊎ ((v ≡ some null) ⊎ (v ≡ some (text "")))
unfolding is_unset
unset-cases none h = inl refl
unset-cases (some null) h = inr (inl refl)
unset-cases (some (text s)) h = inr (inr (ap (λ x. some (text x)) ((eq_iff s "").0 h)))
unset-cases (some (obj fs)) h = absurd (cc)
unset-cases (some (arr xs)) h = absurd (cc)
unset-cases (some (int n)) h = absurd (cc)
unset-cases (some (neg n)) h = absurd (cc)
unset-cases (some (bool b)) h = absurd (cc)

set-apart :
    (v : Option Value) → is_unset v ≡ false → (v ≢ none) × ((v ≢ some null) × (v ≢ some (text "")))
unfolding is_unset
set-apart v h = (
  λ e. absurd (let q = rw e at h in cc),
  (λ e. absurd (let q = rw e at h in cc), λ e. absurd (let q = rw e at h in cc)),
)

-- The value has no order_type, or null, or the empty text.
abbrev pub LacksType : Value → Type 0
LacksType raw =
    (get "order_type" (fields_of raw) ≡ none)
    ⊎ ((get "order_type" (fields_of raw) ≡ some null)
        ⊎ (get "order_type" (fields_of raw) ≡ some (text "")))

-- It has an order_type that is neither null nor the empty text.
abbrev pub StatesType : Value → Type 0
StatesType raw =
    (get "order_type" (fields_of raw) ≢ none)
    × ((get "order_type" (fields_of raw) ≢ some null)
        × (get "order_type" (fields_of raw) ≢ some (text "")))

-- The second value has the type, and under the key what the first has.
abbrev pub HasType : Value → String → OrderType → Value → Type 0
HasType raw k t p =
    (require_order_type (some p) ≡ some t) × (get k (fields_of p) ≡ get k (fields_of raw))

-- When a value is given a type, there are three cases. Where it has no order_type, or null or "", there
-- is a result with the default type. Where it has another that is a type, there is a result with that
-- type. Where it has another that is no type, there is no result. In a result, every key other than
-- order_type has the value that it had.
pub ensure_raw_data_order_type-typed :
    (raw : Value) (d : OrderType) (k : String)
    → str_eq "order_type" k ≡ false
    → (LacksType raw
        × (p : Value) × (ensure_raw_data_order_type raw d ≡ some p)
        × HasType raw k d p)
      ⊎ (StatesType raw
          × (((t : OrderType) × (p : Value) × (require_order_type (some raw) ≡ some t)
                × (ensure_raw_data_order_type raw d ≡ some p)
                × HasType raw k t p)
              ⊎ ((require_order_type (some raw) ≡ none)
                  × (ensure_raw_data_order_type raw d ≡ none))))
unfolding ensure_raw_data_order_type require_order_type stored_type with_type
ensure_raw_data_order_type-typed raw d k other =
    elim (Bool-cases (is_unset (get "order_type" (fields_of raw)))) [
      | inl e ↦ inl (
        unset-cases (get "order_type" (fields_of raw)) e,
        with_type d raw,
        rw e refl,
        (typed-require d raw, kept d),
      )
      | inr e ↦ inr (
        set-apart (get "order_type" (fields_of raw)) e,
        elim (Option-cases (normalize_order_type (get "order_type" (fields_of raw)))) [
          | inl n ↦ inr (n, rw (e, n) refl)
          | inr (t, n) ↦ inl (t, with_type t raw, n, rw (e, n) refl, (typed-require t raw, kept t))
        ],
      )
    ]
  where
    kept : (t : OrderType) → get k (fields_of (with_type t raw)) ≡ get k (fields_of raw)
    kept t = get-set_other "order_type" k (text (show_order_type t)) (fields_of raw) other
