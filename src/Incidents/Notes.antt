-- ===== src/Incidents/Notes.antt =====
-- Which note a ticket got last: the metadata that the reconciliation keeps in a step's outcome.
use poundcake.Prelude.{
  ℕ, String, Bool, true, false, Option, none, some, List, [], ◌∷◌, str_eq, any, sort_by,
  if◌then◌else◌,
}
use poundcake.Prelude.Text.{strip, lower}
use poundcake.Json.{
  Value, Fields, Items, no_items, item, end, obj, arr, text, get_or_null, dict_of, set_field,
}
use poundcake.Incidents.{Python, str_or_empty}

-- ALERT_NOTE_STATES
pub data NoteState : Type 0 where
  firing resolved : NoteState

unfoldable pub show_note : NoteState → String
show_note firing = "firing"
show_note resolved = "resolved"

unfoldable pub same_note : NoteState → NoteState → Bool
same_note firing firing = true
same_note resolved resolved = true
same_note _ _ = false

unfoldable pub read_note : String → Option NoteState
read_note s =
    if str_eq s "firing" then some firing else if str_eq s "resolved" then some resolved else none

-- `_normalize_alert_note_state`
unfoldable pub normalize_note_state : Python → Value → Option NoteState
unfolding read_note str_or_empty strip lower
normalize_note_state py v = read_note (lower (strip (str_or_empty py v)))

-- `_clear_note_ticket_ids`: a set, as the list of its elements
texts_of : Python → Items → List String
unfolding str_or_empty strip
texts_of py no_items = []
texts_of py (item v rest) =
    let later = texts_of py rest in
    if str_eq (strip (str_or_empty py v)) "" then later else strip (str_or_empty py v) ∷ later

listed : Python → Value → List String
unfolding texts_of
listed py (arr items) = texts_of py items
listed py _ = []

unfoldable pub clear_note_ticket_ids : Python → Fields → List String
unfolding listed str_or_empty strip
clear_note_ticket_ids py m =
    let ids = listed py (get_or_null "clear_note_ticket_ids" m) in
    let legacy = strip (str_or_empty py (get_or_null "last_clear_note_ticket_id" m)) in
    if str_eq legacy "" then ids else legacy ∷ ids

-- `_has_clear_note_for_ticket`
unfoldable pub has_clear_note : Python → String → Fields → Bool
unfolding clear_note_ticket_ids
has_clear_note py ticket m = any (str_eq ticket) (clear_note_ticket_ids py m)

unfoldable pub add_once : String → List String → List String
add_once s xs = if any (str_eq s) xs then xs else s ∷ xs

distinct : List String → List String
unfolding add_once
distinct [] = []
distinct (x ∷ xs) = add_once x (distinct xs)

items_of : List String → Items
items_of [] = no_items
items_of (x ∷ xs) = item (text x) (items_of xs)

-- the sorted tickets with one more; `before` is Python's order of texts
unfoldable pub clear_note_ids : (String → String → Bool) → Python → String → Fields → Value
unfolding distinct items_of clear_note_ticket_ids add_once
clear_note_ids before py ticket m =
    arr (items_of (sort_by before (distinct (add_once ticket (clear_note_ticket_ids py m)))))

-- `_remember_clear_note_for_ticket`
unfoldable pub remember_clear_note : (String → String → Bool) → Python → String → Fields → Fields
unfolding clear_note_ids set_field
remember_clear_note before py ticket m =
    set_field "last_clear_note_ticket_id" (text ticket)
      (set_field "clear_note_ticket_ids" (clear_note_ids before py ticket m) m)

unfoldable pub by_ticket : Python → String → Option Fields → Option NoteState
unfolding normalize_note_state
by_ticket py ticket none = none
by_ticket py ticket (some states) = normalize_note_state py (get_or_null ticket states)

last_note : Python → String → Fields → Option NoteState
unfolding normalize_note_state str_or_empty strip
last_note py ticket m =
    if str_eq (strip (str_or_empty py (get_or_null "last_ticket_alert_note_ticket_id" m))) ticket
    then normalize_note_state py (get_or_null "last_ticket_alert_note_state" m)
    else none

unfoldable pub or_note : Option NoteState → Option NoteState → Option NoteState
or_note none b = b
or_note (some a) b = some a

-- where no state is kept under the ticket
unfoldable pub legacy_note : Python → String → Fields → Option NoteState
unfolding last_note or_note has_clear_note
legacy_note py ticket m =
    or_note (last_note py ticket m) (if has_clear_note py ticket m then some resolved else none)

-- `_ticket_alert_note_state`
unfoldable pub note_state : Python → String → Fields → Option NoteState
unfolding by_ticket or_note legacy_note dict_of
note_state py ticket m =
    or_note (by_ticket py ticket (dict_of (get_or_null "ticket_alert_note_state_by_ticket" m)))
      (legacy_note py ticket m)

-- `_coerce_metadata_datetime` of a text
instant_of : Python → Value → Option ℕ
unfolding strip
instant_of py (text s) = if str_eq (strip s) "" then none else py.fromisoformat (strip s)
instant_of py _ = none

at_ticket : Python → String → Option Fields → Option ℕ
unfolding instant_of
at_ticket py ticket none = none
at_ticket py ticket (some times) = instant_of py (get_or_null ticket times)

last_at : Python → String → Fields → Option ℕ
unfolding instant_of str_or_empty strip
last_at py ticket m =
    if str_eq (strip (str_or_empty py (get_or_null "last_ticket_alert_note_ticket_id" m))) ticket
    then instant_of py (get_or_null "last_ticket_alert_note_state_at" m)
    else none

-- `_ticket_alert_note_state_at`
unfoldable pub note_state_at : Python → String → Fields → Option ℕ
unfolding at_ticket last_at dict_of
note_state_at py ticket m =
    elim (at_ticket py ticket (dict_of (get_or_null "ticket_alert_note_state_at_by_ticket" m))) [
      | some t ↦ some t
      | none ↦ last_at py ticket m
    ]

-- `dict(d) if isinstance(d, dict) else {}`
unfoldable pub dict_or_empty : Option Fields → Fields
dict_or_empty none = end
dict_or_empty (some fs) = fs

unfoldable pub remember_cleared :
    (String → String → Bool) → Python → String → NoteState → Fields → Fields
unfolding remember_clear_note
remember_cleared before py ticket firing m = m
remember_cleared before py ticket resolved m = remember_clear_note before py ticket m

unfoldable pub add_to : String → String → Value → Fields → Fields
unfolding set_field dict_of dict_or_empty
add_to key ticket v m =
    set_field key (obj (set_field ticket v (dict_or_empty (dict_of (get_or_null key m))))) m

-- `_remember_ticket_alert_note_state`
unfoldable pub remember_note_state :
    (String → String → Bool) → Python → ℕ → String → NoteState → Fields → Fields
unfolding add_to set_field remember_cleared
remember_note_state before py now ticket s m =
    let at = text (py.isoformat now) in
    remember_cleared before py ticket s (
      set_field "last_ticket_alert_note_state_at" at (
        set_field "last_ticket_alert_note_state" (text (show_note s)) (
          set_field "last_ticket_alert_note_ticket_id" (text ticket) (
            add_to "ticket_alert_note_state_at_by_ticket" ticket at
              (add_to "ticket_alert_note_state_by_ticket" ticket (text (show_note s)) m)))))
