-- ===== src/Incidents/Tickets.antt =====
-- What the reconciliation does to one ticket: the read of its state, the note that it fires again or
-- has cleared, and its reopening or the creation of its successor.
use poundcake.Prelude.{
  ℕ, String, Bool, true, false, not, Option, none, some, List, [], ◌∷◌, str_eq, one_of,
  if◌then◌else◌,
}
use poundcake.Prelude.Text.{strip, lower, text_or_empty}
use poundcake.Json.{Value, Fields, text, set_field}
use Prim.Native.String.{◌++◌ as append}
use poundcake.Incidents.{
  Python, Comm, metadata, set_metadata, is_ticket_terminal, is_reopenable, target_of,
}
use poundcake.Incidents.Notes.{
  NoteState, firing, resolved, note_state, same_note, remember_note_state,
}

-- The calls of the Bakery client, with the ticket or the operation that they name.
pub data Call : Type 0 where
  sync_communication get_communication : String → Call
  add_comment : String → NoteState → Call  -- the ticket, and what the note tells
  reopen_comment : String → Call
  reopen_ticket : String → Call
  create_ticket : Call
  poll_operation : String → Call

pub record Accepted : Type 0 where
  pub operation_id : String
  pub ticket_id : String

pub record Operation : Type 0 where
  pub status : Option String
  pub last_error : Option String

-- The answers to the last call, with all the calls made so far; an answer that is missing is an
-- exception, with its text.
pub record Bakery : Type 0 where
  pub communication : List Call → Option (Option String)  -- the state of the ticket
  pub accepted : List Call → Option Accepted
  pub operation : List Call → Option Operation
  pub exception : List Call → String

-- The clock, Python's functions, the order of texts and Bakery.
pub record Env : Type 0 where
  pub now : ℕ
  pub py : Python
  pub before : String → String → Bool
  pub bakery : Bakery

-- `:{dest_type}:{dest_target}`, the end of an action's text
unfoldable pub route_of : Comm → String
route_of c = append ":" (append (lower (strip c.service_type)) (append ":" (target_of c)))

-- What an action leaves: the step's outcome, the calls, the actions, and whether it raised.
pub record Left : Type 0 where
  pub outcome : Option Value
  pub calls : List Call
  pub actions : List String
  pub raised : Bool

-- `str(x.state or "").strip().lower()`
unfoldable pub state_text : Option String → String
state_text s = lower (strip (text_or_empty s))

pub record TicketState : Type 0 where
  pub state : Option String
  pub writable : Bool
  pub reopenable : Bool

unfoldable pub ticket_state : Option String → TicketState
unfolding state_text
ticket_state s = record {
  state = some (state_text s);
  writable = not (is_ticket_terminal (state_text s));
  reopenable = is_reopenable (state_text s);
}

-- `_poll_ticket_state`
unfoldable pub poll_ticket_state : Bakery → String → List Call → TicketState × List Call
unfolding ticket_state
poll_ticket_state b ticket calls =
    let synced = sync_communication ticket ∷ calls in
    elim (b.communication synced) [
      | some s ↦ (ticket_state s, synced)
      | none ↦ elim (b.communication (get_communication ticket ∷ synced)) [
        | some s ↦ (ticket_state s, get_communication ticket ∷ synced)
        | none ↦ (
          record { state = none; writable = false; reopenable = false },
          get_communication ticket ∷ synced,
        )
      ]
    ]

-- `_await_bakery_operation`, on what the operation's status is
unfoldable pub operation_succeeded : Operation → Bool
unfolding state_text
operation_succeeded op = one_of (state_text op.status) ("succeeded" ∷ "success" ∷ "completed" ∷ [])

unfoldable pub operation_error : Operation → Value
unfolding state_text
operation_error op =
    let s = state_text op.status in
    text (
      if str_eq (text_or_empty op.last_error) ""
      then append "Bakery operation ended in status=" (if str_eq s "" then "unknown" else s)
      else text_or_empty op.last_error)

-- the state that a last sync shows; its failure is passed over
unfoldable pub refresh : Bakery → String → List Call → Fields → Fields
unfolding state_text set_field
refresh b ticket calls m = elim (b.communication (sync_communication ticket ∷ calls)) [
  | none ↦ m
  | some s ↦ set_field "remote_state" (text (state_text s)) m
]

unfoldable pub note_action : NoteState → String
note_action firing = "notified_firing"
note_action resolved = "notified_clear"

unfoldable pub notify_ended :
    Env → NoteState → String → String → Fields → Option Value → List Call → Option Operation → Left
unfolding operation_succeeded operation_error refresh set_metadata set_field note_action
notify_ended e s route ticket m outcome calls none = record {
  outcome = outcome;
  calls = calls;
  actions = [];
  raised = true;
}
notify_ended e s route ticket m outcome calls (some op) =
    if operation_succeeded op
    then record {
      outcome = set_metadata (refresh e.bakery ticket calls m) outcome;
      calls = sync_communication ticket ∷ calls;
      actions = append (note_action s) route ∷ [];
      raised = false;
    }
    else record {
      outcome = set_metadata (set_field "last_error" (operation_error op) m) outcome;
      calls = calls;
      actions = [];
      raised = false;
    }

unfoldable pub notify_sent :
    Env → NoteState → String → String → Fields → Option Value → List Call → Option Accepted → Left
unfolding notify_ended set_metadata set_field
notify_sent e s route ticket m outcome calls none = record {
  outcome = set_metadata (set_field "last_error" (text (e.bakery.exception calls)) m) outcome;
  calls = calls;
  actions = [];
  raised = false;
}
notify_sent e s route ticket m outcome calls (some a) =
    let polled = poll_operation a.operation_id ∷ calls in
    notify_ended e s route ticket m outcome polled (e.bakery.operation polled)

unfoldable pub has_note : Option NoteState → NoteState → Bool
unfolding same_note
has_note none s = false
has_note (some t) s = same_note t s

-- `_notify_refire_ticket` (firing) and `_notify_clear_ticket` (resolved), which differ in the note
unfoldable pub notify_ticket : Env → NoteState → String → String → Option Value → List Call → Left
unfolding note_state has_note remember_note_state notify_sent metadata set_metadata
notify_ticket e s route ticket outcome calls =
    if has_note (note_state e.py ticket (metadata outcome)) s
    then record {
      outcome = set_metadata (metadata outcome) outcome;
      calls = calls;
      actions = [];
      raised = false;
    }
    else let m = remember_note_state e.before e.py e.now ticket s (metadata outcome) in
      let sent = add_comment ticket s ∷ calls in
      notify_sent e s route ticket m (set_metadata m outcome) sent (e.bakery.accepted sent)
