-- ===== src/Examples/Incidents.antt =====
-- The reconciliation at an order with communication steps.
use poundcake.Incidents.Notes.{show_note}
use poundcake.Incidents.Telling.{is_note, notes}
use poundcake.Status.{ExecStatus, Phase, OrderStatus}
use poundcake.Prelude.Text.{text_or_empty, show_nat}
use poundcake.Incidents.{is_ticket_terminal, Comm, Python}
use poundcake.Json.{get, end, field, obj, text}
use poundcake.Prelude.{
  count_if, ℕ, String, Bool, true, false, none, some, refl, List, [], ◌∷◌, ◌≡◌, ◌≤◌, ◌+◌, length,
}
use poundcake.Tables.{DishStatus}
use poundcake.Incidents.Tickets.{Bakery, Env}
use poundcake.Incidents.Once.{Round, run_rounds, run_rounds-notes_le_one}
use poundcake.Incidents.Pass.{Incident, settled_tickets}
use poundcake.Examples.{order}

abbrev python : Python
python = record { str = λ v. ""; isoformat = show_nat; fromisoformat = λ s. none }

-- a Bakery in which every ticket has one state and every operation succeeds
abbrev bakery : String → Bakery
bakery state = record {
  communication = λ calls. some (some state);
  accepted = λ calls. some (record { operation_id = "op-1"; ticket_id = "T-2" });
  operation = λ calls. some (record { status = some "succeeded"; last_error = none });
  exception = λ calls. "";
}

abbrev no_order : String → String → Bool
no_order a b = false

abbrev env : String → Env
env state = record { now = 500; py = python; before = no_order; bakery = bakery state }

abbrev comm : Comm
comm = record {
  run_phase = Phase.firing;
  dish_status = DishStatus.complete;
  service_type = "bakery";
  service_exec = "communication";
  destination_target = none;
  service_payload = none;
  parameters = none;
  status = ExecStatus.succeeded;
  outcome =
      some (obj (field "_context_updates" (obj (field "bakery_ticket_id" (text "T-1") end)) end));
  completed_time = some 300;
  updated_at = 300;
  deleted = false;
}

abbrev incident : Incident
incident = record { order = order OrderStatus.resolving "resolved"; steps = comm ∷ [] }

abbrev round : Round
round = record { now = 500; bakery = bakery "open"; again = false; steps = comm ∷ [] }

run_rounds-notes_le_one_example :
    notes (run_rounds python no_order "T-1" (round ∷ round ∷ []) comm []).1 ≤ 0 + 1
unfolding poundcake.Prelude.count_if
run_rounds-notes_le_one_example =
    run_rounds-notes_le_one python no_order "T-1" (round ∷ round ∷ []) comm []

-- The two rounds do tell the ticket, once.
told_once : notes (run_rounds python no_order "T-1" (round ∷ round ∷ []) comm []).1 ≡ 1
unfolding run_rounds count_if get is_ticket_terminal text_or_empty show_note is_note
told_once = refl

-- A ticket that two steps of an order carry is told twice.
told_twice :
    notes
      (settled_tickets (env "open") false (record incident { steps = comm ∷ comm ∷ [] }) []).calls
    ≡ 2
unfolding settled_tickets count_if get is_ticket_terminal text_or_empty is_note
told_twice = refl
