-- ===== src/Incidents/Closing.antt =====
-- When the reconciliation ends an incident.
use poundcake.Prelude.{Bool, not, ◌≡◌, ◌&&◌}
use poundcake.Status.{is_order_terminal}
use poundcake.Incidents.Tickets.{Env}
use poundcake.Incidents.Reconciling.{has_open_ticket_routes}
use poundcake.Incidents.Pass.{Reconciled}

-- What one pass leaves, where it is not stopped by an exception.
abbrev Closes : Env → Bool → Reconciled → Type 0
Closes e fires r =
    is_order_terminal r.incident.order.processing_status
    ≡ (not fires && not (has_open_ticket_routes e.py r.incident.steps))
