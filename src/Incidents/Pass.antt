-- ===== src/Incidents/Pass.antt =====
-- `_reconcile_single_order` and `reconcile_active_orders`.
use poundcake.Prelude.{
  ℕ, suc, String, Bool, false, not, Option, none, some, List, [], ◌∷◌, ◌++◌, ltb, nat_eq, keep,
  sort_by, take, min, ◌&&◌, if◌then◌else◌,
}
use poundcake.Json.{Fields}
use poundcake.Status.{OrderStatus, is_order_terminal, resolving_transitionable}
use poundcake.Tables.{Order}
use poundcake.Incidents.{Comm}
use poundcake.Incidents.Alerts.{alert_is_firing, observe, observed_actions, refired, is_resolving}
use poundcake.Incidents.Tickets.{Call, Env}
use poundcake.Incidents.Reconciling.{Settled, sync_tickets, settle_tickets, has_open_ticket_routes}

-- result["status"], and what the caller writes for an exception
pub data Result : Type 0 where
  skipped deferred reconciled error : Result

pub record Incident : Type 0 where
  pub order : Order
  pub steps : List Comm

pub record Reconciled : Type 0 where
  pub incident : Incident
  pub calls : List Call
  pub actions : List String
  pub result : Result

unfoldable pub seen_order : ℕ → Order → Order
seen_order now o = record o { updated_at = now }

-- an incident that no ticket keeps open
unfoldable pub complete_order : ℕ → Order → Order
complete_order now o = record o {
  processing_status = OrderStatus.complete;
  is_active = false;
  updated_at = now;
}

unfoldable pub may_complete : Env → Bool → Order → List Comm → Bool
unfolding is_resolving has_open_ticket_routes
may_complete e fires o steps =
    not fires && is_resolving o.processing_status && not (has_open_ticket_routes e.py steps)

-- after the tickets
unfoldable pub end_incident : Env → Bool → Order → List String → Settled → Reconciled
unfolding may_complete complete_order seen_order
end_incident e fires o actions s =
    if s.raised
    then record {
      incident = record { order = o; steps = s.steps };
      calls = s.calls;
      actions = actions ++ s.actions;
      result = Result.error;
    }
    else if may_complete e fires o s.steps
    then record {
      incident = record { order = complete_order e.now o; steps = s.steps };
      calls = s.calls;
      actions = actions ++ s.actions ++ "complete_incident" ∷ [];
      result = Result.reconciled;
    }
    else record {
      incident = record { order = seen_order e.now o; steps = s.steps };
      calls = s.calls;
      actions = actions ++ s.actions;
      result = Result.reconciled;
    }

unfoldable pub left_alone : Result → Incident → List Call → Reconciled
left_alone result i calls = record { incident = i; calls = calls; actions = []; result = result }

-- both loops over the tickets
unfoldable pub settled_tickets : Env → Bool → Incident → List Call → Settled
unfolding refired sync_tickets settle_tickets
settled_tickets e fires i calls =
    let (synced, polled) = sync_tickets e i.steps calls in
    settle_tickets e fires (refired fires i.order) synced synced polled

-- with the alerts at hand
unfoldable pub reconcile_observed : Env → Bool → Incident → List Call → Reconciled
unfolding observe observed_actions settled_tickets end_incident
reconcile_observed e fires i calls =
    end_incident e fires (observe e.now fires i.order) (observed_actions fires i.order)
      (settled_tickets e fires i calls)

-- `_reconcile_single_order`; the alerts are missing when Prometheus does not answer
unfoldable pub reconcile_single_order :
    Env → Option (List Fields) → Incident → List Call → Reconciled
unfolding left_alone alert_is_firing reconcile_observed
reconcile_single_order e none i calls =
    if is_order_terminal i.order.processing_status
    then left_alone Result.skipped i calls
    else left_alone Result.deferred i calls
reconcile_single_order e (some alerts) i calls =
    if is_order_terminal i.order.processing_status
    then left_alone Result.skipped i calls
    else reconcile_observed e (alert_is_firing e.py i.order alerts) i calls

-- the query: RECONCILE_ACTIVE_STATUSES and is_active, by created_at
unfoldable pub is_selected : Incident → Bool
is_selected i = resolving_transitionable i.order.processing_status && i.order.is_active

unfoldable pub incident_before : Incident → Incident → Bool
incident_before a b = ltb a.order.created_at b.order.created_at

-- `min(limit, setting or 25)`
unfoldable pub effective_limit : ℕ → ℕ → ℕ
effective_limit limit setting = min limit (if nat_eq setting 0 then 25 else setting)

unfoldable pub selected : ℕ → ℕ → List Incident → List Incident
unfolding is_selected incident_before effective_limit
selected limit setting incidents =
    take (effective_limit limit setting) (sort_by incident_before (keep is_selected incidents))

-- The loop; what Prometheus answers for an order is a function of it.
unfoldable pub reconcile_each :
    Env → (Order → Option (List Fields)) → List Incident → List Call → List Reconciled × List Call
unfolding reconcile_single_order
reconcile_each e alerts [] calls = ([], calls)
reconcile_each e alerts (i ∷ is) calls =
    let r = reconcile_single_order e (alerts i.order) i calls in
    let (rest, after) = reconcile_each e alerts is r.calls in (r ∷ rest, after)

pub record Counts : Type 0 where
  pub reconciled : ℕ
  pub deferred : ℕ
  pub skipped : ℕ

unfoldable pub add_result : Result → Counts → Counts
add_result Result.reconciled c = record c { reconciled = suc c.reconciled }
add_result Result.skipped c = record c { skipped = suc c.skipped }
add_result _ c = record c { deferred = suc c.deferred }

unfoldable pub count_results : List Reconciled → Counts
unfolding add_result
count_results [] = record { reconciled = 0; deferred = 0; skipped = 0 }
count_results (r ∷ rs) = add_result r.result (count_results rs)

-- `reconcile_active_orders`, when the setting enables it
unfoldable pub reconcile_active_orders :
    Env → (Order → Option (List Fields)) → ℕ → ℕ → List Incident → Counts × List Reconciled
unfolding selected reconcile_each count_results
reconcile_active_orders e alerts limit setting incidents =
    let (results, calls) = reconcile_each e alerts (selected limit setting incidents) [] in
    (count_results results, results)
