-- ===== src/OrderLife/Following.antt =====
-- Every step of the kitchen, seen from outside.
use poundcake.Prelude.{
  take, ℕ, String, List, [], ◌∷◌, ◌≡◌, refl, sym, subst, some, inl, inr, first, Option-cases,
}
use poundcake.Tables.{Order}
use poundcake.Status.{Phase}
use poundcake.PreHeat.{Alert}
use poundcake.PreHeat.Process.{
  process_alert, process_warning_alert, process_firing, process_resolved, new_order, warning_order,
  increment_and_reopen, resolve_order, close_warning, count_warning,
}
use poundcake.PreHeat.Active.{
  active, warned, unresolved, process_alert-holds, process_warning-holds, process_firing-holds,
  process_resolved-holds,
}
use poundcake.Cook.Finalize.{finalize_order_for_dish, suppress_order}
use poundcake.Suppressions.{Suppression}
use poundcake.Suppressions.Lifecycle.{
  Setting, Store, finalize_one, finalize_each, expired_batch, finalize_expired_suppressions,
  settle_summary, record_failure, record_requeue_failure, replay_order,
}
use poundcake.Suppressions.Events.{compute_suppression_stats}
use poundcake.Suppressions.Replaying.{requeue-holds}
use poundcake.Suppressions.Closing.{finalize_one-holds, pass-holds}
use poundcake.Dispatch.Orders.{
  Kitchen, Setup, Recipe, has_order_id, is_active_phase_dish, run_phase_of, find_or_create_dish,
  take_up, park_order, touch_order,
}
use poundcake.Dispatch.Transaction.{dispatch_order_once}
use poundcake.Dispatch.Safety.{committed}
use poundcake.Dispatch.Branches.{Branches, dispatch-holds}
use poundcake.OrderLife.{Step, reconciled_order}
use poundcake.OrderLife.Refining.{
  reconcile-Moves, close_warning-Moves, count_warning-Moves, reopen-Moves, resolve-Moves,
  suppress-Moves, finalize-Moves, touch-Moves, park-Moves, take_up-Moves,
}
use poundcake.OrderLife.Stages.{
  Follows, Follows-refl, Follows-made, update-Follows, found-Follows, stage, may_start,
}

module _ (id now : ℕ) (req : String) (a : Alert) (os : List Order) where
  warning-Follows : Follows os (process_warning_alert id now req a os).1
  unfolding warning_order stage may_start
  warning-Follows =
      process_warning-holds id now req a os (Follows os) (Follows-refl os)
        (Follows-made os os (warning_order id now req a) refl (Follows-refl os))
        (update-Follows (warned id now req a os) (close_warning now a) os
          (λ o t. close_warning-Moves now a o))
        (update-Follows (warned id now req a os) (count_warning now) os
          (λ o t. count_warning-Moves now a o))

  firing-Follows : Follows os (process_firing id now req a os).1
  unfolding new_order stage may_start
  firing-Follows =
      process_firing-holds id now req a os (Follows os)
        (λ e. Follows-made os os (new_order id now req a) refl (Follows-refl os))
        (λ o e.
          update-Follows (active id now req a os) (increment_and_reopen now) os
            (λ p t. reopen-Moves now a p))

  resolved-Follows : Follows os (process_resolved now a os).1
  resolved-Follows =
      process_resolved-holds id now req a os (Follows os) (Follows-refl os)
        (update-Follows (active id now req a os) (resolve_order now a) os
          (λ o t. resolve-Moves now a o))
        (λ e.
          update-Follows (unresolved id now req a os) (resolve_order now a) os
            (λ o t. resolve-Moves now a o))

  alert-Follows : Follows os (process_alert id now req a os).1
  alert-Follows =
      process_alert-holds id now req a os (Follows os) (Follows-refl os) warning-Follows
        firing-Follows resolved-Follows

module _ (c : Setting) (os : List Order) where
  one-Follows :
      (s : Suppression) (r : ℕ × Store)
      → Follows os r.1.orders
      → Follows os (finalize_one c s r).1.orders
  unfolding settle_summary record_failure record_requeue_failure replay_order stage may_start
  one-Follows s r h =
      finalize_one-holds c (λ x. Follows os x.1.orders) s r h (λ e o. h)
        (λ turns e o.
          requeue-holds c.now s.id c.req_id (Follows os)
            (λ id fp e ps f n. Follows-made os ps _ refl f)
            (take turns
              (compute_suppression_stats c.isoformat s.id r.1.events).latest_by_fingerprint)
            (r.1.next_order, r.1.orders) h)
        (λ o.
          requeue-holds c.now s.id c.req_id (Follows os)
            (λ id fp e ps f n. Follows-made os ps _ refl f)
            (compute_suppression_stats c.isoformat s.id r.1.events).latest_by_fingerprint
            (r.1.next_order, r.1.orders) h)

  each-Follows :
      (ss : List Suppression) (r : ℕ × Store)
      → Follows os r.1.orders
      → Follows os (finalize_each c ss r).1.orders
  unfolding finalize_each
  each-Follows [] r h = h
  each-Follows (s ∷ ss) r h = each-Follows ss (finalize_one c s r) (one-Follows s r h)

  pass-Follows :
      (ss : List Suppression) (st : Store)
      → Follows os st.orders
      → Follows os (finalize_expired_suppressions c ss st).1.orders
  pass-Follows ss st h =
      pass-holds c (λ r. Follows os r.1.orders) ss st h
        (each-Follows (expired_batch c ss) (0, st) h)

find_or_create-orders :
    (now : ℕ) (phase : Phase) (r : Recipe) (o : Order) (k : Kitchen)
    → (find_or_create_dish now phase r o k).1.orders ≡ k.orders
unfolding find_or_create_dish
find_or_create-orders now phase r o k =
    elim (Option-cases (first (is_active_phase_dish o.id phase) k.dishes)) [
      | inr (d, e) ↦ rw (find_or_create_dish, e) refl
      | inl e ↦ rw (find_or_create_dish, e) refl
    ]

module _ (c : Setup) (k : Kitchen) where
  abbrev FollowsIn : Kitchen → Type 0
  FollowsIn after = Follows k.orders after.orders

  Branches-Follows :
      (o : Order) (phase : Phase)
      → first (has_order_id o.id) k.orders ≡ some o
      → run_phase_of o.processing_status ≡ some phase
      → Branches FollowsIn c k o phase
  Branches-Follows o phase e n =
      let named = has_order_id o.id in
      (
        found-Follows named (touch_order c.now) k.orders o e (touch-Moves c.now o),
        λ recipes. found-Follows named (park_order c.now) k.orders o e (park-Moves c.now o),
        λ r recipes rows m.
            subst (Follows k.orders) (sym (find_or_create-orders c.now phase r _ _)) (
              found-Follows named (take_up phase c.now r) k.orders o e
                (take_up-Moves phase c.now r o n)),
      )

  dispatch-Follows :
      (id : ℕ) (after : Kitchen)
      → committed (dispatch_order_once c id k) ≡ some after
      → Follows k.orders after.orders
  dispatch-Follows id after =
      dispatch-holds FollowsIn c k id (λ o phase e n. Branches-Follows o phase e n) after

-- After a step of the kitchen (an alert, a dispatch that commits, the end of a dish, a suppression, a
-- pass over the expired suppressions, a reconciliation, other work) the orders are new ones, which wait or are closed,
-- followed by the orders before the step, each with its id and in its place, and each moved along an
-- edge of the machine: an order is worked on only if it was waiting or worked on before, and waits only
-- if it was waiting or clearing before, and a closed one stays closed or comes to be cleared.
pub Step-Follows : {k after : Kitchen} → Step k after → Follows k.orders after.orders
Step-Follows (Step.alert id now req a k) = alert-Follows id now req a k.orders
Step-Follows (Step.dispatch c id k after e) = dispatch-Follows c k id after e
Step-Follows (Step.finish other_active now id phase t k) =
    update-Follows (has_order_id id) (λ o. (finalize_order_for_dish other_active now phase t o).0)
      k.orders (λ o q. finalize-Moves other_active now phase t o)
Step-Follows (Step.suppress now id k) =
    update-Follows (has_order_id id) (suppress_order now) k.orders (λ o q. suppress-Moves now o)
Step-Follows (Step.expire c suppressions st k e) =
    pass-Follows c k.orders suppressions st
      (subst (Follows k.orders) (sym e) (Follows-refl k.orders))
Step-Follows (Step.reconcile e alerts steps calls id k) =
    update-Follows (has_order_id id) (reconciled_order e alerts steps calls) k.orders
      (λ o q. reconcile-Moves e alerts steps calls o)
Step-Follows (Step.work dishes rows k fewer) = Follows-refl k.orders
