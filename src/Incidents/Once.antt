-- ===== src/Incidents/Once.antt =====
-- A ticket is told once that its alert has cleared, over any number of passes.
use poundcake.Prelude.{
  ℕ, suc, String, Bool, true, false, List, [], ◌∷◌, ◌≡◌, ◌≤◌, ◌⊎◌, inl, inr, refl, sym, ap, ◌∙◌,
  Option-cases, count_if, arith, ◌+◌,
}
use poundcake.Json.{Fields}
use poundcake.Incidents.{Python, Comm, metadata}
use poundcake.Incidents.Notes.{NoteState, resolved}
use poundcake.Incidents.Remembering.{Noted, Noted-set_field}
use poundcake.Incidents.Tickets.{
  Call, sync_communication, get_communication, Bakery, Env, poll_ticket_state, TicketState,
}
use poundcake.Incidents.Reconciling.{sync_step, synced_metadata, settle_ticket}
use poundcake.Incidents.Telling.{
  is_note, notes, Remembers, Remembers-set, Remembers-has_note, cleared-Tells,
}

poll-notes :
    (b : Bakery) (ticket : String) (calls : List Call)
    → notes (poll_ticket_state b ticket calls).1 ≡ notes calls
unfolding poll_ticket_state count_if is_note
poll-notes b ticket calls =
    elim (Option-cases (b.communication (sync_communication ticket ∷ calls))) [
      | inr (s, h) ↦ rw (poll_ticket_state, h) refl
      | inl h ↦
          elim (Option-cases
            (b.communication (get_communication ticket ∷ sync_communication ticket ∷ calls))) [
              | inr (s, k) ↦ rw (poll_ticket_state, h, k) refl
              | inl k ↦ rw (poll_ticket_state, h, k) refl
            ]
    ]

synced-Noted :
    (s : NoteState) (ticket : String) (t : TicketState) (m : Fields)
    → Noted s ticket m
    → Noted s ticket (synced_metadata t m)
unfolding synced_metadata
synced-Noted s ticket t m h = Noted-set_field s ticket "reopenable" _ _ refl (
    Noted-set_field s ticket "writable" _ _ refl
      (Noted-set_field s ticket "remote_state" _ m refl h))

-- One pass over a step whose ticket is told nothing but that the alert has cleared.
pub record Round : Type 0 where
  pub now : ℕ
  pub bakery : Bakery
  pub again : Bool
  pub steps : List Comm

module _ (py : Python) (before : String → String → Bool) (ticket : String) where
  abbrev pub env_of : Round → Env
  env_of r = record { now = r.now; py = py; before = before; bakery = r.bakery }

  unfoldable pub run_round : Round → Comm → List Call → Comm × List Call
  unfolding sync_step settle_ticket
  run_round r c calls =
      let (synced, polled) = sync_step (env_of r) ticket c calls in
      let l = settle_ticket (env_of r) false r.again r.steps ticket synced polled in
      (record synced { outcome = l.outcome }, l.calls)

  unfoldable pub run_rounds : List Round → Comm → List Call → Comm × List Call
  unfolding run_round
  run_rounds [] c calls = (c, calls)
  run_rounds (r ∷ rs) c calls = let (after, made) = run_round r c calls in run_rounds rs after made

  -- What a round does to the count of notes.
  abbrev RoundTells : Comm → List Call → Comm × List Call → Type 0
  RoundTells c calls (after, made) =
      ((notes made ≡ notes calls)
        × (Remembers resolved ticket c.outcome → Remembers resolved ticket after.outcome))
      ⊎ ((notes made ≡ suc (notes calls))
          × Remembers resolved ticket after.outcome
          × (Remembers resolved ticket c.outcome → ⊥))

  synced-Remembers :
      (e : Env) (c : Comm) (calls : List Call)
      → Remembers resolved ticket c.outcome
      → Remembers resolved ticket (sync_step e ticket c calls).0.outcome
  unfolding sync_step
  synced-Remembers e c calls h = Remembers-set resolved ticket _ c.outcome (
      synced-Noted resolved ticket (poll_ticket_state e.bakery ticket calls).0 (metadata c.outcome)
        h)

  synced-notes :
      (e : Env) (c : Comm) (calls : List Call) → notes (sync_step e ticket c calls).1 ≡ notes calls
  unfolding sync_step
  synced-notes e c calls = poll-notes e.bakery ticket calls

  round-Tells :
      (r : Round) (c : Comm) (calls : List Call) → RoundTells c calls (run_round r c calls)
  unfolding run_round settle_ticket
  round-Tells r c calls =
      let (synced, polled) = sync_step (env_of r) ticket c calls in
      let kept = synced-Remembers (env_of r) c calls in
      let same = synced-notes (env_of r) c calls in
      elim (cleared-Tells (env_of r) r.steps ticket synced polled) [
        | inl (n, k) ↦ inl (n ∙ same, λ h. k (kept h))
        | inr (n, k, q) ↦ inr (
          n ∙ ap suc same,
          k,
          λ h.
              let told = Remembers-has_note py resolved ticket synced.outcome (kept h) in
              absurd (let f : true ≡ false = sym told ∙ q in cc),
        )
      ]

  told-rounds :
      (rs : List Round) (c : Comm) (calls : List Call)
      → Remembers resolved ticket c.outcome
      → notes (run_rounds rs c calls).1 ≡ notes calls
  unfolding run_rounds
  told-rounds [] c calls h = refl
  told-rounds (r ∷ rs) c calls h =
      let (after, made) = run_round r c calls in
      elim (round-Tells r c calls) [
        | inl (n, k) ↦ told-rounds rs after made (k h) ∙ n
        | inr (n, k, q) ↦ absurd (q h)
      ]

  -- While the alert stays cleared, the passes over a step, however many, ask Bakery for at most one
  -- note on its ticket, whatever Bakery answers, also where a call of it raises.
  pub run_rounds-notes_le_one :
      (rs : List Round) (c : Comm) (calls : List Call)
      → notes (run_rounds rs c calls).1 ≤ notes calls + 1
  unfolding run_rounds
  run_rounds-notes_le_one [] c calls = omega arith
  run_rounds-notes_le_one (r ∷ rs) c calls =
      let (after, made) = run_round r c calls in
      elim (round-Tells r c calls) [
        | inl (n, k) ↦ let later = run_rounds-notes_le_one rs after made in omega arith
        | inr (n, k, q) ↦ let later = told-rounds rs after made k in omega arith
      ]
