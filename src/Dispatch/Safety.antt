-- ===== src/Dispatch/Safety.antt =====
-- What a dispatch keeps: the orders' flags, one active order for a fingerprint, and one active dish for
-- an order and a phase.
use poundcake.Prelude.{
  length, ◌+◌, ◌++◌, ℕ, String, Bool, true, false, Option, none, some, List, [], ◌∷◌, ◌≡◌, ◌≤◌, All,
  inl, inr, Bool-cases, refl, subst, sym, arith, In, count_if, first, update_first, if◌then◌else◌,
}
use poundcake.Tables.{Row, Order}
use poundcake.Status.{Phase, should_keep_active}
use poundcake.PreHeat.{is_active_for}
use poundcake.Cook.Settling.{IsConsistent}
use poundcake.Dispatch.Orders.{
  Recipe, Kitchen, Dispatched, dispatched, skipped, http_error, contract_error, has_order_id,
  is_active_phase_dish, park_order, take_up, touch_order, fire_order,
}
use poundcake.Dispatch.Transaction.{add_rows}

module _ {A : Type 0} (p : A → Bool) (f : A → A) where
  pub first-In : (os : List A) (o : A) → first p os ≡ some o → In o os × (p o ≡ true)
  first-In [] o e = absurd (let n : Option.none ≡ some o = e in cc)
  first-In (x ∷ xs) o e = elim (Bool-cases (p x)) [
    | inl t ↦
        let same : x ≡ o = (let q = rw t at e in cc) in
        (inl (sym same), subst (λ z. p z ≡ true) same t)
    | inr t ↦ let (m, q) = first-In xs o (rw t at e) in (inr m, q)
  ]

  All-update_found :
      (P : A → Type 0) (os : List A) (o : A)
      → first p os ≡ some o
      → P (f o)
      → All P os
      → All P (update_first p f os)
  unfolding update_first
  All-update_found P [] o e h a = tt
  All-update_found P (x ∷ xs) o e h a = elim (Bool-cases (p x)) [
    | inl t ↦
        let same : x ≡ o = (let q = rw t at e in cc) in
        rw t (subst (λ z. P (f z)) (sym same) h, a.1)
    | inr t ↦ rw t (a.0, All-update_found P xs o (rw t at e) h a.1)
  ]

  count-update_found :
      (q : A → Bool) (os : List A) (o : A)
      → first p os ≡ some o
      → (q (f o) ≡ true → q o ≡ true)
      → count_if q (update_first p f os) ≤ count_if q os
  unfolding update_first count_if
  count-update_found q [] o e h = omega arith
  count-update_found q (x ∷ xs) o e h = elim (Bool-cases (p x)) [
    | inl t ↦
        let same : x ≡ o = (let r = rw t at e in cc) in
        let g = subst (λ z. q (f z) ≡ true → q z ≡ true) (sym same) h in rw t (ground arith)
    | inr t ↦ let rest = count-update_found q xs o (rw t at e) h in rw t (ground arith)
  ]

-- The flags agree with the statuses, a fingerprint has at most one active order, and an order has at
-- most one active dish of a phase.
abbrev pub IsSound : Kitchen → Type 0
IsSound k =
    All IsConsistent k.orders
    × ((fp : String) → count_if (is_active_for fp) k.orders ≤ 1)
    × ((id : ℕ) (phase : Phase) → count_if (is_active_phase_dish id phase) k.dishes ≤ 1)

-- the state that a dispatch commits
unfoldable pub committed : Dispatched → Option Kitchen
committed (dispatched dish k) = some k
committed (skipped k) = some k
committed (http_error code) = none
committed contract_error = none

-- What holds of a state that a dispatch commits.
module _ (R : Kitchen → Type 0) where
  abbrev pub Keeps : Dispatched → Type 0
  Keeps d = (after : Kitchen) → committed d ≡ some after → R after

  pub Keeps-if : (b : Bool) (x y : Dispatched) → Keeps x → Keeps y → Keeps (if b then x else y)
  Keeps-if true x y h k = h
  Keeps-if false x y h k = k

  pub Keeps-skipped : (k : Kitchen) → R k → Keeps (skipped k)
  unfolding committed
  Keeps-skipped k h after e = subst R (let q : k ≡ after = cc in q) h

  pub Keeps-error : (code : ℕ) → Keeps (http_error code)
  unfolding committed
  Keeps-error code after e = absurd (let n : Option.none ≡ some after = e in cc)

  pub add_rows-Keeps :
      (dish : ℕ) (k : Kitchen) (o : Option (List Row))
      → ((rows : List Row) (n : ℕ) → R (record k { rows = rows; next_row = n }))
      → Keeps (add_rows dish k o)
  unfolding add_rows committed
  add_rows-Keeps dish k none h after e = absurd (let n : Option.none ≡ some after = e in cc)
  add_rows-Keeps dish k (some rows) h after e =
      subst R
        (let q : record k { rows = k.rows ++ rows; next_row = k.next_row + length rows } ≡ after =
            cc in
          q)
        (h (k.rows ++ rows) (k.next_row + length rows))

-- What an order may become without losing its flags.
abbrev pub Goes : (Order → Order) → Order → Type 0
Goes f o =
    IsConsistent (f o) × ((fp : String) → is_active_for fp (f o) ≡ true → is_active_for fp o ≡ true)

module _ (k : Kitchen) (o : Order) (f : Order → Order) where
  pub orders-IsSound :
      first (has_order_id o.id) k.orders ≡ some o
      → Goes f o
      → IsSound k
      → IsSound (record k { orders = update_first (has_order_id o.id) f k.orders })
  orders-IsSound e (c, a) (consistent, one, dishes) = (
    All-update_found (has_order_id o.id) f IsConsistent k.orders o e c consistent,
    λ fp.
        let fewer =
          count-update_found (has_order_id o.id) f (is_active_for fp) k.orders o e (a fp) in
        let before = one fp in omega arith,
    dishes,
  )

pub touch-Goes : (now : ℕ) (o : Order) → IsConsistent o → Goes (touch_order now) o
unfolding touch_order is_active_for
touch-Goes now o h = (h, λ fp a. a)

pub park-Goes :
    (now : ℕ) (o : Order)
    → IsConsistent o
    → should_keep_active o.processing_status ≡ true
    → Goes (park_order now) o
unfolding park_order is_active_for should_keep_active
park-Goes now o h k = (refl, λ fp a. ground arith)

pub take_up-Goes :
    (phase : Phase) (now : ℕ) (r : Recipe) (o : Order)
    → IsConsistent o
    → should_keep_active o.processing_status ≡ true
    → Goes (take_up phase now r) o
unfolding take_up fire_order is_active_for should_keep_active
take_up-Goes Phase.firing now r o h k = (ground arith, λ fp a. a)
take_up-Goes Phase.resolving now r o h k = (h, λ fp a. a)
