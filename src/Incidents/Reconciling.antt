-- ===== src/Incidents/Reconciling.antt =====
-- `_reconcile_single_order`: the observation of the alert, the read of every ticket, and what each
-- ticket then needs; and the pass over the active orders.
use poundcake.Prelude.{
  ℕ, String, Bool, true, false, not, Option, none, some, List, [], ◌∷◌, ◌++◌, str_eq, leb, any,
  ◌&&◌, if◌then◌else◌,
}
use poundcake.Prelude.Text.{strip, lower}
use poundcake.Json.{Value, Fields, end, field, text, bool, null, get_or_null, set_field}
use poundcake.Status.{Phase, ExecStatus}
use poundcake.Segments.{or_value}
use poundcake.Tables.{DishStatus}
use poundcake.Incidents.{
  Comm, Python, is_bakery_communication, is_bakery_type, ticket_id, metadata, set_metadata,
  target_of, column, is_ticket_terminal, str_or_empty,
}
use poundcake.Incidents.Notes.{
  NoteState, firing, resolved, note_state, note_state_at, remember_note_state,
}
use poundcake.Incidents.Tickets.{
  Call, Env, Left, TicketState, poll_ticket_state, notify_ticket, route_of, has_note,
}
use poundcake.Incidents.Reopening.{left_as, reopen_or_recreate_ticket}

-- `dict.pop(key, None)`; a key stands once
unfoldable pub pop_field : String → Fields → Fields
pop_field k end = end
pop_field k (field j v rest) =
    let later = pop_field k rest in if str_eq j k then rest else field j v later

is_resolving_phase : Phase → Bool
is_resolving_phase Phase.firing = false
is_resolving_phase Phase.resolving = true

-- neither ended nor ending
unfoldable pub is_open_dish : DishStatus → Bool
is_open_dish DishStatus.new = true
is_open_dish DishStatus.processing = true
is_open_dish _ = false

unfoldable pub on_route : Comm → Comm → Bool
unfolding is_resolving_phase is_bakery_type target_of
on_route c step =
    is_resolving_phase step.run_phase
    && not step.deleted
    && is_bakery_type step
    && str_eq (lower (strip step.service_type)) (lower (strip c.service_type))
    && str_eq (target_of step) (target_of c)

-- `_has_active_resolving_route_step`
unfoldable pub has_active_resolving_step : Comm → List Comm → Bool
unfolding on_route is_open_dish
has_active_resolving_step c steps = any (λ s. is_open_dish s.dish_status && on_route c s) steps

has_succeeded : ExecStatus → Bool
has_succeeded ExecStatus.succeeded = true
has_succeeded _ = false

not_before : Option ℕ → Comm → Bool
not_before none s = true
not_before (some t) s = leb t (or_value s.completed_time s.updated_at)

-- `_has_completed_resolving_notify_step`; updated_at is never null
unfoldable pub has_completed_notify : Python → Option ℕ → Comm → List Comm → Bool
unfolding on_route has_succeeded not_before str_or_empty column
has_completed_notify py since c steps =
    any
      (λ s.
        on_route c s
        && str_eq (lower (strip (str_or_empty py (get_or_null "operation" (column s.parameters)))))
            "notify"
        && has_succeeded s.status
        && not_before since s)
      steps

-- the remote state that a step's metadata holds
unfoldable pub remote_state : Python → Option Value → String
unfolding metadata str_or_empty
remote_state py outcome =
    lower (strip (str_or_empty py (get_or_null "remote_state" (metadata outcome))))

-- one turn of the loop of `_has_open_ticket_routes`
unfoldable pub is_open_route : Python → Comm → Bool
unfolding remote_state
is_open_route py c = elim (ticket_id c) [
  | none ↦ false
  | some t ↦ is_bakery_communication c && not (is_ticket_terminal (remote_state py c.outcome))
]

unfoldable pub has_open_ticket_routes : Python → List Comm → Bool
unfolding is_open_route
has_open_ticket_routes py steps = any (is_open_route py) steps

state_value : Option String → Value
state_value none = null
state_value (some s) = text s

-- the metadata after a read of the ticket
unfoldable pub synced_metadata : TicketState → Fields → Fields
unfolding set_field state_value
synced_metadata t m =
    set_field "reopenable" (bool t.reopenable)
      (set_field "writable" (bool t.writable) (set_field "remote_state" (state_value t.state) m))

unfoldable pub sync_step : Env → String → Comm → List Call → Comm × List Call
unfolding poll_ticket_state synced_metadata metadata set_metadata
sync_step e ticket c calls =
    let (t, polled) = poll_ticket_state e.bakery ticket calls in
    (record c { outcome = set_metadata (synced_metadata t (metadata c.outcome)) c.outcome }, polled)

-- The first loop over the tickets. `_poll_ticket_state` raises nothing, so sync_errors stays 0.
unfoldable pub sync_tickets : Env → List Comm → List Call → List Comm × List Call
unfolding sync_step ticket_id is_bakery_communication
sync_tickets e [] calls = ([], calls)
sync_tickets e (c ∷ cs) calls = elim (ticket_id c) [
  | none ↦ (let (rest, after) = sync_tickets e cs calls in (c ∷ rest, after))
  | some ticket ↦
      let (here, polled) =
        if is_bakery_communication c then sync_step e ticket c calls else (c, calls) in
      let (rest, after) = sync_tickets e cs polled in (here ∷ rest, after)
]

unfoldable pub unchanged : Comm → List Call → Left
unchanged c calls = record { outcome = c.outcome; calls = calls; actions = []; raised = false }

-- a ticket while the alert fires
unfoldable pub settle_firing : Env → Bool → String → Comm → List Call → Left
unfolding remote_state reopen_or_recreate_ticket notify_ticket left_as pop_field metadata
    set_metadata route_of unchanged
settle_firing e again ticket c calls =
    if is_ticket_terminal (remote_state e.py c.outcome)
    then reopen_or_recreate_ticket e (route_of c) ticket c.outcome calls
    else let m = pop_field "last_reopen_ticket_id" (metadata c.outcome) in
      if again
      then notify_ticket e firing (route_of c) ticket (set_metadata m c.outcome) calls
      else left_as m c.outcome calls []

-- since when a notify step of the resolving phase counts, if one may count at all
unfoldable pub notified_since : Option NoteState → Option ℕ → Option (Option ℕ)
notified_since (some firing) none = none
notified_since (some firing) (some t) = some (some t)
notified_since _ at = some none

unfoldable pub already_notified : Python → Option (Option ℕ) → Comm → List Comm → Bool
unfolding has_completed_notify
already_notified py none c steps = false
already_notified py (some since) c steps = has_completed_notify py since c steps

-- a ticket while the alert does not fire
unfoldable pub settle_cleared : Env → List Comm → String → Comm → List Call → Left
unfolding remote_state notify_ticket left_as metadata route_of note_state note_state_at
    notified_since already_notified has_active_resolving_step has_note remember_note_state unchanged
settle_cleared e steps ticket c calls =
    let m = metadata c.outcome in
    let last = note_state e.py ticket m in
    let since = notified_since last (note_state_at e.py ticket m) in
    if has_active_resolving_step c steps
    then unchanged c calls
    else if already_notified e.py since c steps
    then if has_note last resolved
      then unchanged c calls
      else left_as (remember_note_state e.before e.py e.now ticket resolved m) c.outcome calls []
    else if is_ticket_terminal (remote_state e.py c.outcome)
    then unchanged c calls
    else notify_ticket e resolved (route_of c) ticket c.outcome calls

unfoldable pub settle_ticket : Env → Bool → Bool → List Comm → String → Comm → List Call → Left
unfolding settle_firing settle_cleared
settle_ticket e true again steps ticket c calls = settle_firing e again ticket c calls
settle_ticket e false again steps ticket c calls = settle_cleared e steps ticket c calls

-- What the second loop leaves: the steps, the calls, the actions, and whether it raised.
pub record Settled : Type 0 where
  pub steps : List Comm
  pub calls : List Call
  pub actions : List String
  pub raised : Bool

unfoldable pub is_ticket_step : Comm → Option String
unfolding is_bakery_communication ticket_id
is_ticket_step c = if is_bakery_communication c then ticket_id c else none

after_step : Comm → Left → Settled → Settled
after_step c l rest = record {
  steps = record c { outcome = l.outcome } ∷ rest.steps;
  calls = rest.calls;
  actions = l.actions ++ rest.actions;
  raised = rest.raised;
}

stop_at : Comm → Left → List Comm → Settled
stop_at c l cs = record {
  steps = record c { outcome = l.outcome } ∷ cs;
  calls = l.calls;
  actions = l.actions;
  raised = true;
}

-- The second loop; the steps that it asks about are those before it, since it writes outcomes only.
unfoldable pub settle_tickets : Env → Bool → Bool → List Comm → List Comm → List Call → Settled
unfolding settle_ticket is_ticket_step after_step stop_at
settle_tickets e fires again all [] calls = record {
  steps = [];
  calls = calls;
  actions = [];
  raised = false;
}
settle_tickets e fires again all (c ∷ cs) calls = elim (is_ticket_step c) [
  | none ↦
      let rest = settle_tickets e fires again all cs calls in record rest { steps = c ∷ rest.steps }
  | some ticket ↦
      let l = settle_ticket e fires again all ticket c calls in
      let rest = settle_tickets e fires again all cs l.calls in
      if l.raised then stop_at c l cs else after_step c l rest
]
