-- ===== src/Dispatch/Dispatching.antt =====
-- A dispatch keeps the kitchen sound, branch by branch.
use poundcake.Prelude.{
  ℕ, true, false, none, some, ◌∷◌, ◌≡◌, ◌≤◌, All-In, inl, inr, Bool-cases, Option-cases, refl,
  subst, arith, count_if, first, first-none-count,
}
use poundcake.Tables.{Order}
use poundcake.Status.{Phase, OrderStatus, should_keep_active}
use poundcake.Cook.Settling.{IsConsistent}
use poundcake.Dispatch.Orders.{
  Recipe, Kitchen, Setup, has_order_id, run_phase_of, is_active_phase_dish, park_order, take_up,
  touch_order, find_or_create_dish, new_dish, same_phase, is_order,
}
use poundcake.Dispatch.Transaction.{dispatch_order_once}
use poundcake.Dispatch.Branches.{Branches, dispatch-holds}
use poundcake.Dispatch.Safety.{
  IsSound, committed, orders-IsSound, touch-Goes, park-Goes, take_up-Goes, first-In,
}

same_phase-eq : (a b : Phase) → same_phase a b ≡ true → a ≡ b
unfolding same_phase
same_phase-eq Phase.firing Phase.firing h = refl
same_phase-eq Phase.resolving Phase.resolving h = refl
same_phase-eq Phase.firing Phase.resolving h = absurd cc
same_phase-eq Phase.resolving Phase.firing h = absurd cc

new_dish-own :
    (dish now : ℕ) (phase : Phase) (r : Recipe) (o : Order) (id : ℕ) (ph : Phase)
    → is_active_phase_dish id ph (new_dish dish now phase r o) ≡ true
    → (o.id ≡ id) × (phase ≡ ph)
unfolding new_dish is_active_phase_dish is_order
new_dish-own dish now phase r o id ph h = (ground arith, same_phase-eq phase ph (ground arith))

new_dish-le_one :
    (now : ℕ) (phase : Phase) (r : Recipe) (o : Order) (k : Kitchen) (id : ℕ) (ph : Phase)
    → first (is_active_phase_dish o.id phase) k.dishes ≡ none
    → count_if (is_active_phase_dish id ph) k.dishes ≤ 1
    → count_if (is_active_phase_dish id ph) (new_dish k.next_dish now phase r o ∷ k.dishes) ≤ 1
unfolding count_if
new_dish-le_one now phase r o k id ph e h =
    elim (Bool-cases (is_active_phase_dish id ph (new_dish k.next_dish now phase r o))) [
      | inr q ↦ rw q h
      | inl q ↦
          let (i, p) = new_dish-own k.next_dish now phase r o id ph q in
          let none_left = first-none-count (is_active_phase_dish id ph) k.dishes (
            subst (λ n. first (is_active_phase_dish n ph) k.dishes ≡ none) i
              (subst (λ x. first (is_active_phase_dish o.id x) k.dishes ≡ none) p e)) in
          rw q (omega arith)
    ]

dish-IsSound :
    (now : ℕ) (phase : Phase) (r : Recipe) (o : Order) (k : Kitchen)
    → IsSound k
    → IsSound (find_or_create_dish now phase r o k).1
unfolding find_or_create_dish
dish-IsSound now phase r o k (a, b, dishes) =
    elim (Option-cases (first (is_active_phase_dish o.id phase) k.dishes)) [
      | inr (d, e) ↦ rw (find_or_create_dish, e) (a, b, dishes)
      | inl e ↦
          rw (find_or_create_dish, e)
            (a, b, λ id ph. new_dish-le_one now phase r o k id ph e (dishes id ph))
    ]

not_some : (phase : Phase) → none ≡ some phase → false ≡ true
not_some phase h = absurd cc

run_phase-active :
    (s : OrderStatus) (phase : Phase) → run_phase_of s ≡ some phase → should_keep_active s ≡ true
unfolding run_phase_of should_keep_active
run_phase-active OrderStatus.new phase h = refl
run_phase-active OrderStatus.processing phase h = refl
run_phase-active OrderStatus.resolving phase h = refl
run_phase-active OrderStatus.complete phase h = not_some phase h
run_phase-active OrderStatus.failed phase h = not_some phase h
run_phase-active OrderStatus.errored phase h = not_some phase h
run_phase-active OrderStatus.timeout phase h = not_some phase h
run_phase-active OrderStatus.canceled phase h = not_some phase h

-- A dispatch keeps the kitchen sound where each of its branches does.
Branches-IsSound :
    (c : Setup) (k : Kitchen) (o : Order) (phase : Phase)
    → IsSound k
    → first (has_order_id o.id) k.orders ≡ some o
    → run_phase_of o.processing_status ≡ some phase
    → Branches IsSound c k o phase
Branches-IsSound c k o phase h e n =
    let (m, q) = first-In (has_order_id o.id) (touch_order c.now) k.orders o e in
    let i = All-In IsConsistent k.orders o h.0 m in
    let a = run_phase-active o.processing_status phase n in
    (
      orders-IsSound k o (touch_order c.now) e (touch-Goes c.now o i) h,
      λ recipes. orders-IsSound k o (park_order c.now) e (park-Goes c.now o i a) h,
      λ r recipes rows n.
          dish-IsSound c.now phase r (take_up phase c.now r o) _
            (orders-IsSound k o (take_up phase c.now r) e (take_up-Goes phase c.now r o i a) h),
    )

-- A dispatch that is not refused keeps, in its whole transaction, the flags of the orders in agreement
-- with their statuses, at most one active order for each fingerprint, and at most one active dish for
-- each order and phase.
pub dispatch_order_once-IsSound :
    (c : Setup) (id : ℕ) (k after : Kitchen)
    → IsSound k
    → committed (dispatch_order_once c id k) ≡ some after
    → IsSound after
dispatch_order_once-IsSound c id k after h =
    dispatch-holds IsSound c k id (λ o phase e n. Branches-IsSound c k o phase h e n) after
