-- ===== src/Incidents/Counted.antt =====
-- What a pass of the reconciliation counts.
use poundcake.Prelude.{
  ℕ, Option, none, some, List, [], ◌∷◌, ◌≡◌, ◌≢◌, ◌≤◌, ◌+◌, length, length-take, take-In, keep,
  keep-In, sort_by, sort_by-In, In, inl, inr, refl, true, false, arith, ap,
}
use poundcake.Json.{Fields}
use poundcake.Status.{OrderStatus, is_order_terminal, resolving_transitionable}
use poundcake.Tables.{Order}
use poundcake.Incidents.Tickets.{Call, Env}
use poundcake.Incidents.Pass.{
  Incident, Reconciled, Result, Counts, count_results, add_result, reconcile_single_order,
  reconcile_observed, end_incident, left_alone, reconcile_each, selected, is_selected,
  effective_limit, reconcile_active_orders, incident_before,
}

-- An order that is not terminal is not passed over.
single-not_skipped :
    (e : Env) (alerts : Option (List Fields)) (i : Incident) (calls : List Call)
    → is_order_terminal i.order.processing_status ≡ false
    → (reconcile_single_order e alerts i calls).result ≢ Result.skipped
unfolding reconcile_single_order left_alone reconcile_observed end_incident
single-not_skipped e none i calls h = λ q. ground arith
single-not_skipped e (some alerts) i calls h = λ q. ground arith

module _ (e : Env) (alerts : Order → Option (List Fields)) where
  each-length :
      (is : List Incident) (calls : List Call)
      → length (reconcile_each e alerts is calls).0 ≡ length is
  unfolding reconcile_each
  each-length [] calls = refl
  each-length (i ∷ is) calls =
      ap ℕ.suc (each-length is (reconcile_single_order e (alerts i.order) i calls).calls)

  each-none_skipped :
      (is : List Incident) (calls : List Call)
      → ((i : Incident) → In i is → is_order_terminal i.order.processing_status ≡ false)
      → (count_results (reconcile_each e alerts is calls).0).skipped ≡ 0
  unfolding reconcile_each count_results add_result
  each-none_skipped [] calls h = refl
  each-none_skipped (i ∷ is) calls h =
      let r = reconcile_single_order e (alerts i.order) i calls in
      let later = each-none_skipped is r.calls (λ j m. h j (inr m)) in
      let here = single-not_skipped e (alerts i.order) i calls (h i (inl refl)) in
      kept_skipped r.result (count_results (reconcile_each e alerts is r.calls).0) here later
    where
      kept_skipped :
          (x : Result) (c : Counts)
          → x ≢ Result.skipped
          → c.skipped ≡ 0
          → (add_result x c).skipped ≡ 0
      kept_skipped Result.skipped c n h = absurd (n refl)
      kept_skipped Result.reconciled c n h = h
      kept_skipped Result.deferred c n h = h
      kept_skipped Result.error c n h = h

counts-length :
    (rs : List Reconciled)
    → (count_results rs).reconciled + (count_results rs).deferred + (count_results rs).skipped
      ≡ length rs
unfolding count_results add_result
counts-length [] = refl
counts-length (r ∷ rs) = let later = counts-length rs in ground arith

open_status : (s : OrderStatus) → resolving_transitionable s ≡ true → is_order_terminal s ≡ false
unfolding resolving_transitionable is_order_terminal
open_status OrderStatus.new h = refl
open_status OrderStatus.processing h = refl
open_status OrderStatus.resolving h = refl
open_status _ h = absurd cc

selected-open :
    (limit setting : ℕ) (incidents : List Incident) (i : Incident)
    → In i (selected limit setting incidents)
    → is_order_terminal i.order.processing_status ≡ false
unfolding selected is_selected
selected-open limit setting incidents i m =
    let (n, k) =
      keep-In is_selected incidents i (sort_by-In incident_before _ i (take-In _ _ i m)) in
    open_status i.order.processing_status (ground arith)

-- A pass reconciles or defers every order that it takes and passes over none, and takes at most 25
-- orders where the setting is 0, at most the setting where not, and never more than it was asked for.
reconcile_active_orders-counts :
    (e : Env) (alerts : Order → Option (List Fields)) (limit setting : ℕ)
    (incidents : List Incident)
    → let (c, results) = reconcile_active_orders e alerts limit setting incidents in
      (c.reconciled + c.deferred ≡ length results)
      × (c.skipped ≡ 0)
      × (length results ≤ effective_limit limit setting)
unfolding reconcile_active_orders selected
reconcile_active_orders-counts e alerts limit setting incidents =
    let chosen = selected limit setting incidents in
    let results = (reconcile_each e alerts chosen []).0 in
    let counted = counts-length results in
    let none_left = each-none_skipped e alerts chosen [] (selected-open limit setting incidents) in
    let as_many = each-length e alerts chosen [] in
    let few =
      length-take (effective_limit limit setting)
        (sort_by incident_before (keep is_selected incidents)) in
    (omega arith, none_left, omega arith)
