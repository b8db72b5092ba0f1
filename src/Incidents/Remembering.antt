-- ===== src/Incidents/Remembering.antt =====
-- What the metadata remembers of a ticket's notes.
use poundcake.Prelude.{ℕ, String, Bool, Option, some, ◌≡◌, refl, ◌∙◌, ap, false, str_eq}
use poundcake.Json.{Value, Fields, obj, text, get, get_or_null, set_field, fields_of, dict_of}
use poundcake.Json.Keys.{get-set_same, get-set_other, get_or_null-some}
use poundcake.Incidents.{Python, metadata, set_metadata, column, str_or_empty}
use poundcake.Incidents.Notes.{
  NoteState, firing, resolved, show_note, note_state, remember_note_state, remember_clear_note,
  add_to, normalize_note_state, by_ticket, clear_note_ids, or_note, legacy_note, remember_cleared,
  dict_or_empty,
}

-- The metadata that is set is read back.
pub metadata-set_metadata :
    (m : Fields) (outcome : Option Value) → metadata (set_metadata m outcome) ≡ m
unfolding metadata set_metadata column
metadata-set_metadata m outcome = ap fields_of (
    get_or_null-some "reconcile_metadata" (obj m) _
      (get-set_same "reconcile_metadata" (obj m) (column outcome)))

-- the key that decides first
abbrev pub states_key : String
states_key = "ticket_alert_note_state_by_ticket"

-- The metadata notes the state of the ticket.
abbrev pub Noted : NoteState → String → Fields → Type 0
Noted s ticket m =
    (states : Fields) × (get states_key m ≡ some (obj states))
    × (get ticket states ≡ some (text (show_note s)))

normalize-show_note :
    (py : Python) (s : NoteState) → normalize_note_state py (text (show_note s)) ≡ some s
unfolding normalize_note_state show_note str_or_empty
normalize-show_note py firing = refl
normalize-show_note py resolved = refl

pub Noted-note_state :
    (py : Python) (s : NoteState) (ticket : String) (m : Fields)
    → Noted s ticket m
    → note_state py ticket m ≡ some s
unfolding note_state or_note by_ticket dict_of
Noted-note_state py s ticket m (states, e, f) =
    let found = get_or_null-some states_key (obj states) m e in
    let here = get_or_null-some ticket (text (show_note s)) states f in
    ap (λ v. or_note (by_ticket py ticket (dict_of v)) (legacy_note py ticket m)) found
    ∙ ap (λ v. or_note (normalize_note_state py v) (legacy_note py ticket m)) here
    ∙ ap (λ n. or_note n (legacy_note py ticket m)) (normalize-show_note py s)

-- Setting another key keeps it.
pub Noted-set_field :
    (s : NoteState) (ticket k : String) (v : Value) (m : Fields)
    → str_eq k states_key ≡ false
    → Noted s ticket m
    → Noted s ticket (set_field k v m)
Noted-set_field s ticket k v m h (states, e, f) = (states, get-set_other k states_key v m h ∙ e, f)

abbrev times_key : String
times_key = "ticket_alert_note_state_at_by_ticket"

times_of : Python → ℕ → String → Fields → Value
times_of py now ticket m =
    obj (
      set_field ticket (text (py.isoformat now))
        (dict_or_empty (dict_of (get_or_null times_key m))))

Noted-add_to :
    (s : NoteState) (ticket : String) (m : Fields)
    → Noted s ticket (add_to states_key ticket (text (show_note s)) m)
unfolding add_to
Noted-add_to s ticket m = (_, get-set_same states_key _ m, get-set_same ticket _ _)

Noted-remember_cleared :
    (before : String → String → Bool) (py : Python) (ticket : String) (s t : NoteState) (m : Fields)
    → Noted s ticket m
    → Noted s ticket (remember_cleared before py ticket t m)
unfolding remember_cleared remember_clear_note
Noted-remember_cleared before py ticket s firing m h = h
Noted-remember_cleared before py ticket s resolved m h =
    Noted-set_field s ticket "last_clear_note_ticket_id" (text ticket) _ refl (
      Noted-set_field s ticket "clear_note_ticket_ids" (clear_note_ids before py ticket m) m refl h)

pub Noted-remember_note_state :
    (before : String → String → Bool) (py : Python) (now : ℕ) (ticket : String) (s : NoteState)
    (m : Fields)
    → Noted s ticket (remember_note_state before py now ticket s m)
unfolding remember_note_state add_to times_of
Noted-remember_note_state before py now ticket s m =
    let noted = Noted-add_to s ticket m in
    let timed = Noted-set_field s ticket times_key (times_of py now ticket _) _ refl noted in
    let named =
      Noted-set_field s ticket "last_ticket_alert_note_ticket_id" (text ticket) _ refl timed in
    let stated =
      Noted-set_field s ticket "last_ticket_alert_note_state" (text (show_note s)) _ refl named in
    let dated =
      Noted-set_field s ticket "last_ticket_alert_note_state_at" (text (py.isoformat now)) _ refl
        stated in
    Noted-remember_cleared before py ticket s s _ dated
