-- ===== src/OrderLife.antt =====
-- The life of the orders as a step relation over the whole kitchen: the intake of an alert
-- (api/services/pre_heat.py), the dispatch of an order (api/api/orders.py), the end of one of its
-- dishes and its suppression (api/api/cook.py), the pass over the expired suppressions
-- (api/services/suppression_service.py), the reconciliation of an order with its alert and its tickets
-- (api/plugins/bakery/incident_reconciliation.py), and the other work on dishes and rows.
-- Stages has the machine that the orders follow, Refining that each write of an order does, and
-- Following that each step does.
pub mod Stages
pub mod Refining
pub mod Following
use poundcake.Prelude.{
  Option, sym, count-update_first-All, subst, ℕ, String, Bool, List, ◌≡◌, ◌≤◌, some, true, false,
  All, All-update_first, arith, update_first, count_if,
}
use poundcake.Tables.{Order, Dish, DishStatus, Row}
use poundcake.Status.{Phase, should_keep_active}
use poundcake.PreHeat.{Alert, is_active_for}
use poundcake.PreHeat.Process.{process_alert}
use poundcake.PreHeat.Active.{process_alert-IsConsistent}
use poundcake.PreHeat.Single.{process_alert-active_le_one}
use poundcake.Cook.Settling.{IsConsistent, finalize-IsConsistent}
use poundcake.Cook.Finalize.{finalize_order_for_dish, suppress_order}
use poundcake.Suppressions.{Suppression}
use poundcake.Suppressions.Lifecycle.{Setting, Store, finalize_expired_suppressions}
use poundcake.Suppressions.Closing.{finalize_expired-safe}
use poundcake.Json.{Fields}
use poundcake.Incidents.{Comm}
use poundcake.Incidents.Tickets.{Call, Env}
use poundcake.Incidents.Pass.{reconcile_single_order}
use poundcake.Incidents.Flags.{Keeps, reconcile-Keeps}
use poundcake.Dispatch.Orders.{Kitchen, Setup, has_order_id, is_active_phase_dish}
use poundcake.Dispatch.Transaction.{dispatch_order_once}
use poundcake.Dispatch.Safety.{IsSound, committed}
use poundcake.Dispatch.Dispatching.{dispatch_order_once-IsSound}

-- the order that the reconciliation of it with its steps leaves
unfoldable pub reconciled_order : Env → Option (List Fields) → List Comm → List Call → Order → Order
reconciled_order e alerts steps calls o =
    (reconcile_single_order e alerts (record { order = o; steps = steps }) calls).incident.order

pub data Step : Kitchen → Kitchen → Type 0 where
  alert :
      (id now : ℕ) (req : String) (a : Alert) (k : Kitchen)
      → Step k (record k { orders = (process_alert id now req a k.orders).1 })
  dispatch :
      (c : Setup) (id : ℕ) (k after : Kitchen)
      → committed (dispatch_order_once c id k) ≡ some after
      → Step k after
  finish :
      (other_active : Bool) (now id : ℕ) (phase : Phase) (t : DishStatus) (k : Kitchen)
      → Step k (record k {
        orders =
            update_first
              (has_order_id id)
              (λ o. (finalize_order_for_dish other_active now phase t o).0)
              k.orders;
      })
  suppress :
      (now id : ℕ) (k : Kitchen)
      → Step k (record k { orders = update_first (has_order_id id) (suppress_order now) k.orders })
  expire :
      (c : Setting) (suppressions : List Suppression) (st : Store) (k : Kitchen)
      → st.orders ≡ k.orders
      → Step k (record k { orders = (finalize_expired_suppressions c suppressions st).1.orders })
  reconcile :
      (e : Env) (alerts : Option (List Fields)) (steps : List Comm) (calls : List Call) (id : ℕ)
      (k : Kitchen)
      → Step k (record k {
        orders = update_first (has_order_id id) (reconciled_order e alerts steps calls) k.orders;
      })
  work :  -- dishes and rows change, and no active dish is added
      (dishes : List Dish) (rows : List Row) (k : Kitchen)
      → ((id : ℕ) (phase : Phase)
          → count_if (is_active_phase_dish id phase) dishes
            ≤ count_if (is_active_phase_dish id phase) k.dishes)
      → Step k (record k { dishes = dishes; rows = rows })

pub data Reach (start : Kitchen) : Kitchen → Type 0 where
  here : Reach start start
  next : {k after : Kitchen} → Reach start k → Step k after → Reach start after

finalize-active :
    (other_active : Bool) (now : ℕ) (phase : Phase) (t : DishStatus) (o : Order) (fp : String)
    → IsConsistent o
    → is_active_for fp (finalize_order_for_dish other_active now phase t o).0 ≡ true
    → is_active_for fp o ≡ true
unfolding finalize_order_for_dish is_active_for should_keep_active
finalize-active other_active now Phase.firing t o fp c h = ground arith
finalize-active other_active now Phase.resolving t o fp c h = ground arith

suppress-active :
    (now : ℕ) (o : Order) (fp : String)
    → is_active_for fp (suppress_order now o) ≡ true
    → is_active_for fp o ≡ true
unfolding suppress_order is_active_for
suppress-active now o fp h = absurd cc

-- Writing one order keeps the kitchen sound when it keeps each order's flag in agreement and makes no
-- order active.
write-IsSound :
    (id : ℕ) (f : Order → Order) (k : Kitchen)
    → ((o : Order) → IsConsistent o → IsConsistent (f o))
    → ((o : Order) (fp : String)
        → IsConsistent o
        → is_active_for fp (f o) ≡ true
        → is_active_for fp o ≡ true)
    → IsSound k
    → IsSound (record k { orders = update_first (has_order_id id) f k.orders })
write-IsSound id f k g h (consistent, one, dishes) = (
  All-update_first (has_order_id id) f IsConsistent k.orders (λ o t c. g o c) consistent,
  λ fp.
      let fewer =
        count-update_first-All (has_order_id id) f IsConsistent (is_active_for fp) k.orders
          (λ o t c a. h o fp c a) consistent in
      let before = one fp in omega arith,
  dishes,
)

reconciled-Keeps :
    (e : Env) (alerts : Option (List Fields)) (steps : List Comm) (calls : List Call) (o : Order)
    → IsConsistent o
    → Keeps o (reconciled_order e alerts steps calls o)
unfolding reconciled_order
reconciled-Keeps e alerts steps calls o c =
    reconcile-Keeps e alerts (record { order = o; steps = steps }) calls c

-- Every step keeps is_active in agreement with the status of each order, at most one active order for
-- each fingerprint, and at most one active dish for each order and phase.
Step-IsSound : {k after : Kitchen} → Step k after → IsSound k → IsSound after
Step-IsSound (Step.alert id now req a k) (consistent, one, dishes) = (
  process_alert-IsConsistent id now req a k.orders consistent,
  λ fp. process_alert-active_le_one id now req a k.orders fp (one fp),
  dishes,
)
Step-IsSound (Step.dispatch c id k after e) h = dispatch_order_once-IsSound c id k after h e
Step-IsSound (Step.finish other_active now id phase t k) h =
    write-IsSound id (λ o. (finalize_order_for_dish other_active now phase t o).0) k
      (λ o c. (finalize-IsConsistent other_active now phase t o c).0)
      (λ o fp c a. finalize-active other_active now phase t o fp c a) h
Step-IsSound (Step.suppress now id k) h =
    write-IsSound id (suppress_order now) k
      (λ o c. (finalize-IsConsistent false now Phase.firing DishStatus.complete o c).1)
      (λ o fp c a. suppress-active now o fp a) h
Step-IsSound (Step.expire c suppressions st k e) (consistent, one, dishes) =
    let (bound, (kept, flags)) =
      finalize_expired-safe c suppressions st
        (λ fp. subst (λ os. count_if (is_active_for fp) os ≤ 1) (sym e) (one fp))
        (subst (All IsConsistent) (sym e) consistent) in
    (flags, kept, dishes)
Step-IsSound (Step.reconcile e alerts steps calls id k) h =
    write-IsSound id (reconciled_order e alerts steps calls) k
      (λ o c. (reconciled-Keeps e alerts steps calls o c).0)
      (λ o fp c a. (reconciled-Keeps e alerts steps calls o c).1 fp a) h
Step-IsSound (Step.work dishes rows k fewer) (consistent, one, before) =
    (consistent, one, λ id phase. let f = fewer id phase in let b = before id phase in omega arith)

-- From a kitchen in which is_active agrees with the status of each order, each fingerprint has at most
-- one active order and each order at most one active dish of a phase, every kitchen that alerts,
-- dispatches, ends of dishes, suppressions, reconciliations and the other work on dishes lead to, in whatever order, is
-- such a kitchen.
pub Reach-IsSound : {start k : Kitchen} → IsSound start → Reach start k → IsSound k
Reach-IsSound h Reach.here = h
Reach-IsSound h (Reach.next r s) = Step-IsSound s (Reach-IsSound h r)
