-- ===== src/Incidents/Reopening.antt =====
-- `_reopen_or_recreate_ticket`: a closed ticket of an alert that fires is opened again, or gets a
-- successor.
use poundcake.Prelude.{
  String, true, false, Option, none, some, List, [], ◌∷◌, str_eq, if◌then◌else◌,
}
use Prim.Native.String.{◌++◌ as append}
use poundcake.Prelude.Text.{strip}
use poundcake.Json.{Value, Fields, text, bool, get_or_null, set_field, is_text}
use poundcake.Incidents.{metadata, set_metadata}
use poundcake.Incidents.Notes.{firing, remember_note_state}
use poundcake.Incidents.Tickets.{
  Call, reopen_comment, reopen_ticket, create_ticket, poll_operation, sync_communication, Accepted,
  Operation, Env, Left, poll_ticket_state, operation_succeeded, operation_error, refresh,
}

unfoldable pub left_as : Fields → Option Value → List Call → List String → Left
unfolding set_metadata
left_as m outcome calls actions = record {
  outcome = set_metadata m outcome;
  calls = calls;
  actions = actions;
  raised = false;
}

unfoldable pub raises : Option Value → List Call → Left
raises outcome calls = record { outcome = outcome; calls = calls; actions = []; raised = true }

-- what follows an operation of which the status is read; a failed one is noted in the metadata m
unfoldable pub after_operation :
    Fields → Option Value → List Call → (List Call → Left) → Option Operation → Left
unfolding left_as raises operation_succeeded operation_error set_field
after_operation m outcome calls next none = raises outcome calls
after_operation m outcome calls next (some op) =
    if operation_succeeded op
    then next calls
    else left_as (set_field "last_error" (operation_error op) m) outcome calls []

-- what follows a call that Bakery accepts as an operation
unfoldable pub after_accepted :
    Env → Fields → Option Value → List Call → (Accepted → List Call → Left) → Option Accepted → Left
unfolding after_operation raises
after_accepted e m outcome calls next none = raises outcome calls
after_accepted e m outcome calls next (some a) =
    let polled = poll_operation a.operation_id ∷ calls in
    after_operation m outcome polled (next a) (e.bakery.operation polled)

unfoldable pub open_metadata : Fields → Fields
unfolding set_field
open_metadata m =
    set_field "reopenable" (bool false)
      (set_field "writable" (bool true) (set_field "remote_state" (text "open") m))

-- after the note on the ticket that was opened again
unfoldable pub reopened_ticket : Env → String → String → Fields → Option Value → List Call → Left
unfolding left_as refresh remember_note_state set_field
reopened_ticket e route ticket m outcome calls =
    let noted = set_field "last_reopen_ticket_id" (text ticket) (refresh e.bakery ticket calls m) in
    left_as (remember_note_state e.before e.py e.now ticket firing noted) outcome
      (sync_communication ticket ∷ calls) (append "reopened" route ∷ [])

unfoldable pub reopen : Env → String → String → Option Value → List Call → Left
unfolding after_accepted open_metadata reopened_ticket metadata
reopen e route ticket outcome calls =
    let m = metadata outcome in
    let asked = reopen_ticket ticket ∷ calls in
    after_accepted e m outcome asked
      (λ a opened.
        let noted = reopen_comment ticket ∷ opened in
        after_accepted e (open_metadata m) outcome noted
          (λ b told. reopened_ticket e route ticket (open_metadata m) outcome told)
          (e.bakery.accepted noted))
      (e.bakery.accepted asked)

unfoldable pub succeeded_ticket :
    Env → String → String → String → Fields → Option Value → List Call → Left
unfolding left_as open_metadata set_field remember_note_state
succeeded_ticket e route ticket successor m outcome calls =
    let noted = set_field "last_successor_from_ticket_id" (text ticket) (open_metadata m) in
    let known =
      if str_eq successor ""
      then noted
      else remember_note_state e.before e.py e.now successor firing
          (set_field "current_ticket_id" (text successor) noted) in
    left_as known outcome calls (append "recreated" (append route (append ":" successor)) ∷ [])

unfoldable pub recreate : Env → String → String → Option Value → List Call → Left
unfolding after_accepted succeeded_ticket metadata strip
recreate e route ticket outcome calls =
    let m = metadata outcome in
    let asked = create_ticket ∷ calls in
    after_accepted e m outcome asked
      (λ a created. succeeded_ticket e route ticket (strip a.ticket_id) m outcome created)
      (e.bakery.accepted asked)

-- `_reopen_or_recreate_ticket`
unfoldable pub reopen_or_recreate_ticket : Env → String → String → Option Value → List Call → Left
unfolding poll_ticket_state left_as reopen recreate metadata
reopen_or_recreate_ticket e route ticket outcome calls =
    let m = metadata outcome in
    let (state, polled) = poll_ticket_state e.bakery ticket calls in
    if state.reopenable
    then if is_text (get_or_null "last_reopen_ticket_id" m) ticket
      then left_as m outcome polled []
      else reopen e route ticket outcome polled
    else if is_text (get_or_null "last_successor_from_ticket_id" m) ticket
    then left_as m outcome polled []
    else recreate e route ticket outcome polled
