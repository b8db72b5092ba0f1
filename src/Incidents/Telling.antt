-- ===== src/Incidents/Telling.antt =====
-- What one turn at a ticket asks Bakery to tell, and what it remembers.
use poundcake.Prelude.{
  ℕ, suc, String, Bool, true, false, Option, none, some, List, ◌∷◌, ◌≡◌, ◌⊎◌, inl, inr, refl, sym,
  subst, ap, ◌∙◌, Bool-cases, Option-cases, count_if,
}
use poundcake.Json.{Value, Fields}
use poundcake.Incidents.{Python, Comm, metadata, set_metadata, is_ticket_terminal}
use poundcake.Incidents.Notes.{
  NoteState, firing, resolved, note_state, note_state_at, remember_note_state,
}
use poundcake.Incidents.Remembering.{
  metadata-set_metadata, Noted, Noted-note_state, Noted-set_field, Noted-remember_note_state,
}
use poundcake.Incidents.Tickets.{
  Call, add_comment, sync_communication, poll_operation, Accepted, Operation, Env, Left, has_note,
  notify_ticket, notify_sent, notify_ended, refresh, operation_succeeded, operation_error, route_of,
}
use poundcake.Incidents.Reopening.{left_as}
use poundcake.Incidents.Reconciling.{
  settle_cleared, unchanged, already_notified, notified_since, has_active_resolving_step,
  remote_state,
}

-- a note that Bakery is asked to add
unfoldable pub is_note : Call → Bool
is_note (add_comment ticket s) = true
is_note _ = false

abbrev pub notes : List Call → ℕ
notes = count_if is_note

abbrev pub Remembers : NoteState → String → Option Value → Type 0
Remembers s ticket outcome = Noted s ticket (metadata outcome)

pub Remembers-set :
    (s : NoteState) (ticket : String) (m : Fields) (outcome : Option Value)
    → Noted s ticket m
    → Remembers s ticket (set_metadata m outcome)
Remembers-set s ticket m outcome h =
    subst (Noted s ticket) (sym (metadata-set_metadata m outcome)) h

has_note_self : (s : NoteState) → has_note (some s) s ≡ true
unfolding has_note
has_note_self firing = refl
has_note_self resolved = refl

pub Remembers-has_note :
    (py : Python) (s : NoteState) (ticket : String) (outcome : Option Value)
    → Remembers s ticket outcome
    → has_note (note_state py ticket (metadata outcome)) s ≡ true
Remembers-has_note py s ticket outcome h =
    ap (λ n. has_note n s) (Noted-note_state py s ticket (metadata outcome) h) ∙ has_note_self s

module _ (e : Env) (s : NoteState) (ticket : String) where
  refresh-Noted :
      (calls : List Call) (m : Fields)
      → Noted s ticket m
      → Noted s ticket (refresh e.bakery ticket calls m)
  unfolding refresh
  refresh-Noted calls m h =
      elim (Option-cases (e.bakery.communication (sync_communication ticket ∷ calls))) [
        | inl n ↦ rw (refresh, n) h
        | inr (x, n) ↦ rw (refresh, n) (Noted-set_field s ticket "remote_state" _ m refl h)
      ]

  -- What a note leaves once it was sent.
  abbrev Sent : List Call → Left → Type 0
  Sent calls l = Remembers s ticket l.outcome × (notes l.calls ≡ notes calls)

  module _ (route : String) (m : Fields) (outcome : Option Value) (h : Noted s ticket m)
      (k : Remembers s ticket outcome) where
    notify_ended-Sent :
        (calls : List Call) (op : Option Operation)
        → Sent calls (notify_ended e s route ticket m outcome calls op)
    unfolding notify_ended count_if is_note
    notify_ended-Sent calls none = (k, refl)
    notify_ended-Sent calls (some op) = elim (Bool-cases (operation_succeeded op)) [
      | inl q ↦ rw q (Remembers-set s ticket _ outcome (refresh-Noted calls m h), refl)
      | inr q ↦ rw q (
        Remembers-set s ticket _ outcome
            (Noted-set_field s ticket "last_error" (operation_error op) m refl h),
        refl,
      )
    ]

    notify_sent-Sent :
        (calls : List Call) (a : Option Accepted)
        → Sent calls (notify_sent e s route ticket m outcome calls a)
    unfolding notify_sent count_if is_note
    notify_sent-Sent calls none =
        (Remembers-set s ticket _ outcome (Noted-set_field s ticket "last_error" _ m refl h), refl)
    notify_sent-Sent calls (some a) =
        notify_ended-Sent (poll_operation a.operation_id ∷ calls)
          (e.bakery.operation (poll_operation a.operation_id ∷ calls))

-- Nothing told and what was remembered kept, or one note told and remembered where none was.
abbrev pub Tells : Python → NoteState → String → Option Value → List Call → Left → Type 0
Tells py s ticket outcome calls l =
    ((notes l.calls ≡ notes calls) × (Remembers s ticket outcome → Remembers s ticket l.outcome))
    ⊎ ((notes l.calls ≡ suc (notes calls))
        × Remembers s ticket l.outcome
        × (has_note (note_state py ticket (metadata outcome)) s ≡ false))

notify-Tells :
    (e : Env) (s : NoteState) (route ticket : String) (outcome : Option Value) (calls : List Call)
    → Tells e.py s ticket outcome calls (notify_ticket e s route ticket outcome calls)
unfolding notify_ticket count_if is_note
notify-Tells e s route ticket outcome calls =
    elim (Bool-cases (has_note (note_state e.py ticket (metadata outcome)) s)) [
      | inl q ↦ rw (notify_ticket, q) (inl (refl, λ h. Remembers-set s ticket _ outcome h))
      | inr q ↦
          let m = remember_note_state e.before e.py e.now ticket s (metadata outcome) in
          let h = Noted-remember_note_state e.before e.py e.now ticket s (metadata outcome) in
          let (r, n) =
            notify_sent-Sent e s ticket route m (set_metadata m outcome) h
              (Remembers-set s ticket m outcome h) (add_comment ticket s ∷ calls)
              (e.bakery.accepted (add_comment ticket s ∷ calls)) in
          rw (notify_ticket, q) (inr (n, r, refl))
    ]

module _ (e : Env) (steps : List Comm) (ticket : String) (c : Comm) (calls : List Call) where
  since : Option (Option ℕ)
  since =
      let m = metadata c.outcome in
      notified_since (note_state e.py ticket m) (note_state_at e.py ticket m)

  pub cleared-Tells :
      Tells e.py resolved ticket c.outcome calls (settle_cleared e steps ticket c calls)
  unfolding settle_cleared unchanged left_as since
  cleared-Tells =
      let m = metadata c.outcome in
      elim (Bool-cases (has_active_resolving_step c steps)) [
        | inl a ↦ rw (settle_cleared, a) (inl (refl, λ h. h))
        | inr a ↦ elim (Bool-cases (already_notified e.py since c steps)) [
          | inl b ↦ elim (Bool-cases (has_note (note_state e.py ticket m) resolved)) [
            | inl d ↦ rw (settle_cleared, a, b, d) (inl (refl, λ h. h))
            | inr d ↦
                rw (settle_cleared, a, b, d)
                  (inl (
                    refl,
                    λ h.
                        Remembers-set resolved ticket _ c.outcome
                          (Noted-remember_note_state e.before e.py e.now ticket resolved m),
                  ))
          ]
          | inr b ↦ elim (Bool-cases (is_ticket_terminal (remote_state e.py c.outcome))) [
            | inl d ↦ rw (settle_cleared, a, b, d) (inl (refl, λ h. h))
            | inr d ↦
                rw (settle_cleared, a, b, d)
                  (notify-Tells e resolved (route_of c) ticket c.outcome calls)
          ]
        ]
      ]
