-- ===== src/Incidents/Flags.antt =====
-- What a reconciliation makes of the order.
use poundcake.Prelude.{
  String, Bool, true, false, Option, none, some, List, ◌≡◌, inl, inr, Bool-cases, arith,
}
use poundcake.Json.{Fields}
use poundcake.Status.{is_order_terminal, should_keep_active, can_transition_to_resolving}
use poundcake.Tables.{Order}
use poundcake.PreHeat.{is_active_for}
use poundcake.Cook.Settling.{IsConsistent}
use poundcake.Incidents.Alerts.{
  alert_is_firing, observe, observed_actions, refired_status, cleared_status,
}
use poundcake.Incidents.Tickets.{Call, Env}
use poundcake.Incidents.Reconciling.{Settled}
use poundcake.Incidents.Pass.{
  settled_tickets, Incident, reconcile_single_order, reconcile_observed, end_incident, may_complete,
  complete_order, seen_order,
}

-- What holds of an order left alone, and of a running one written in each of the ways, holds after.
module _ (P : Order → Type 0) (e : Env) where
  end-holds :
      (fires : Bool) (o : Order) (actions : List String) (s : Settled)
      → P o
      → P (seen_order e.now o)
      → P (complete_order e.now o)
      → P (end_incident e fires o actions s).incident.order
  unfolding end_incident
  end-holds fires o actions s h k l = elim (Bool-cases s.raised) [
    | inl q ↦ rw (end_incident, q) h
    | inr q ↦ elim (Bool-cases (may_complete e fires o s.steps)) [
      | inl r ↦ rw (end_incident, q, r) l
      | inr r ↦ rw (end_incident, q, r) k
    ]
  ]

  pub reconcile-holds :
      (alerts : Option (List Fields)) (i : Incident) (calls : List Call)
      → P i.order
      → (is_order_terminal i.order.processing_status ≡ false
          → (fires : Bool)
          → let o = observe e.now fires i.order in
            P o × P (seen_order e.now o) × P (complete_order e.now o))
      → P (reconcile_single_order e alerts i calls).incident.order
  unfolding reconcile_single_order reconcile_observed
  reconcile-holds none i calls h k =
      elim (Bool-cases (is_order_terminal i.order.processing_status)) [
        | inl q ↦ rw (reconcile_single_order, q) h
        | inr q ↦ rw (reconcile_single_order, q) h
      ]
  reconcile-holds (some alerts) i calls h k =
      elim (Bool-cases (is_order_terminal i.order.processing_status)) [
        | inl q ↦ rw (reconcile_single_order, q) h
        | inr q ↦
            let (a, b, c) = k q (alert_is_firing e.py i.order alerts) in
            rw (reconcile_single_order, q)
              (end-holds (alert_is_firing e.py i.order alerts) _
                (observed_actions (alert_is_firing e.py i.order alerts) i.order)
                (settled_tickets e (alert_is_firing e.py i.order alerts) i calls) a b c)
      ]

-- An order keeps its flag in agreement, and does not become active.
abbrev pub Keeps : Order → Order → Type 0
Keeps o p = IsConsistent p × ((fp : String) → is_active_for fp p ≡ true → is_active_for fp o ≡ true)

observed-Keeps :
    (e : Env) (fires : Bool) (o : Order)
    → IsConsistent o
    → is_order_terminal o.processing_status ≡ false
    → let p = observe e.now fires o in
      Keeps o p × Keeps o (seen_order e.now p) × Keeps o (complete_order e.now p)
unfolding observe seen_order complete_order should_keep_active is_active_for refired_status
    cleared_status can_transition_to_resolving
observed-Keeps e true o h q = (
  (ground arith, λ fp a. ground arith),
  (ground arith, λ fp a. ground arith),
  (ground arith, λ fp a. ground arith),
)
observed-Keeps e false o h q = (
  (ground arith, λ fp a. ground arith),
  (ground arith, λ fp a. ground arith),
  (ground arith, λ fp a. ground arith),
)

-- A reconciliation keeps is_active in agreement with the order's status, and makes no order active
-- that was not.
pub reconcile-Keeps :
    (e : Env) (alerts : Option (List Fields)) (i : Incident) (calls : List Call)
    → IsConsistent i.order
    → Keeps i.order (reconcile_single_order e alerts i calls).incident.order
reconcile-Keeps e alerts i calls h =
    reconcile-holds (Keeps i.order) e alerts i calls (h, λ fp a. a)
      (λ q fires. observed-Keeps e fires i.order h q)
