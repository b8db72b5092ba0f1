-- ===== src/Suppressions/Counting.antt =====
-- One event for one payload, and what the statistics count.
use poundcake.Suppressions.Events.{
  note_as, Stats, one_more, SuppressedEvent, is_same_event, new_event, save_suppressed_event, Dict,
  put, count_by, received_before, note_latest, latest_from, tally, latest_of,
  compute_suppression_stats,
}
use poundcake.Prelude.{
  first-none-count, ◌≡◌, ◌≤◌, inl, inr, true, some, none, List, [], ◌∷◌, ◌++◌, arith, keep, first,
  sort_by, ℕ, Bool, Option, refl, subst, Option-cases, Bool-cases, count_if, length, ◌+◌, nat_eq,
  nat_eq_refl, eq_refl, eq_iff, suc, length-sort_by, String,
}
use poundcake.Status.{or_text}
use poundcake.Json.{Fields}

module _ {A : Type 0} (p : A → Bool) where
  pub first-append :
      (xs : List A) (y : A) → first p xs ≡ none → p y ≡ true → first p (xs ++ (y ∷ [])) ≡ some y
  first-append [] y h k = rw k refl
  first-append (x ∷ xs) y h k = elim (Bool-cases (p x)) [
    | inl e ↦ absurd (let q = rw e at h in cc)
    | inr e ↦ rw e (first-append xs y (rw e at h) k)
  ]

  count_if-append :
      (xs : List A) (y : A) → count_if p (xs ++ (y ∷ [])) ≡ count_if p xs + count_if p (y ∷ [])
  unfolding count_if
  count_if-append [] y = omega arith
  count_if-append (x ∷ xs) y = let rest = count_if-append xs y in ground arith

module _ (payload_hash : Fields → String → String) (suppression : ℕ) (alert_data : Fields)
    (req_id : String) where
  new_event-is_same :
      (id received : ℕ)
      → is_same_event suppression
          (payload_hash alert_data req_id)
          (new_event id suppression alert_data req_id received (payload_hash alert_data req_id))
        ≡ true
  unfolding is_same_event new_event
  new_event-is_same id received =
      rw (nat_eq_refl suppression, eq_refl (payload_hash alert_data req_id)) refl

  abbrev same : SuppressedEvent → Bool
  same = is_same_event suppression (payload_hash alert_data req_id)

  module _ (id received : ℕ) (events : List SuppressedEvent) where
    abbrev event : SuppressedEvent
    event = new_event id suppression alert_data req_id received (payload_hash alert_data req_id)

    save-old :
        (o : SuppressedEvent)
        → first same events ≡ some o
        → save_suppressed_event payload_hash suppression id alert_data req_id received events
          ≡ (o, events)
    unfolding save_suppressed_event
    save-old o e = rw (save_suppressed_event, e) refl

    save-new :
        first same events ≡ none
        → save_suppressed_event payload_hash suppression id alert_data req_id received events
          ≡ (event, events ++ (event ∷ []))
    unfolding save_suppressed_event
    save-new e = rw (save_suppressed_event, e) refl

  same_digest :
      (id received other : ℕ) (digest : String) (events : List SuppressedEvent)
      → is_same_event other digest (event id received events) ≡ true
      → first same events ≡ none
      → count_if (is_same_event other digest) events ≡ 0
  unfolding is_same_event new_event
  same_digest id received other digest events h e =
      let n : suppression ≡ other = ground arith in
      let d = (eq_iff (payload_hash alert_data req_id) digest).0 (ground arith) in
      first-none-count (is_same_event other digest) events (
        subst (λ x. first (is_same_event x digest) events ≡ none) n
          (subst (λ x. first (is_same_event suppression x) events ≡ none) d e))

  added :
      (id received : ℕ) (events : List SuppressedEvent) (other : ℕ) (digest : String)
      → count_if (is_same_event other digest) events ≤ 1
      → first same events ≡ none
      → count_if (is_same_event other digest) events
          + count_if (is_same_event other digest) (event id received events ∷ [])
        ≤ 1
  unfolding count_if
  added id received events other digest h e =
      elim (Bool-cases (is_same_event other digest (event id received events))) [
        | inl q ↦ rw q (let z = same_digest id received other digest events q e in omega arith)
        | inr q ↦ rw q (omega arith)
      ]

  -- Saving an alert again, at whatever instant, returns the event that was saved and adds nothing.
  save_suppressed_event-again :
      (id received id' received' : ℕ) (events : List SuppressedEvent)
      → let (e, saved) =
          save_suppressed_event payload_hash suppression id alert_data req_id received events in
        save_suppressed_event payload_hash suppression id' alert_data req_id received' saved
        ≡ (e, saved)
  save_suppressed_event-again id received id' received' events =
      elim (Option-cases (first same events)) [
        | inl e ↦ rw (save-new id received events e) (
            save-old id' received' _ _
              (first-append same events _ e (new_event-is_same id received)))
        | inr (o, e) ↦ rw (save-old id received events o e) (save-old id' received' events o e)
      ]

  -- When a suppression has at most one event with a digest, it does so after an event was saved.
  save_suppressed_event-le_one :
      (id received : ℕ) (events : List SuppressedEvent) (other : ℕ) (digest : String)
      → count_if (is_same_event other digest) events ≤ 1
      → count_if
          (is_same_event other digest)
          (save_suppressed_event payload_hash suppression id alert_data req_id received events).1
        ≤ 1
  save_suppressed_event-le_one id received events other digest h =
      elim (Option-cases (first same events)) [
        | inr (o, e) ↦ rw (save-old id received events o e) h
        | inl e ↦ rw (save-new id received events e) (
            rw (count_if-append (is_same_event other digest) events (event id received events))
              (added id received events other digest h e))
      ]

-- the sum of a counter's numbers
pub total : Dict ℕ → ℕ
total [] = 0
total ((k, n) ∷ rest) = n + total rest

put-total :
    (k : String) (counts : Dict ℕ) (f : Option ℕ → ℕ)
    → f none ≡ 1
    → ((n : ℕ) → f (some n) ≡ suc n)
    → total (put k f counts) ≡ suc (total counts)
unfolding put total
put-total k [] f h g = rw h refl
put-total k ((j, n) ∷ rest) f h g =
    let later = put-total k rest f h g in let here = g n in ground arith

count_by-total :
    (column : SuppressedEvent → String) (es : List SuppressedEvent) (counts : Dict ℕ)
    → total (count_by column counts es) ≡ total counts + length es
unfolding count_by
count_by-total column [] counts = omega arith
count_by-total column (e ∷ es) counts =
    let later = count_by-total column es (put (column e) one_more counts) in
    let here = put-total (column e) counts one_more refl (λ n. refl) in omega arith

tally-counts :
    (isoformat : ℕ → String) (latest : Dict SuppressedEvent)
    → let (cleared, firing, alerts) = tally isoformat latest in
      (cleared + firing ≡ length latest) × (length alerts ≡ firing)
unfolding tally
tally-counts isoformat [] = (refl, refl)
tally-counts isoformat ((fp, e) ∷ rest) =
    let later = tally-counts isoformat rest in (ground arith, ground arith)

length-put :
    {A : Type 0} (k : String) (f : Option A → A) (d : Dict A) → length (put k f d) ≤ suc (length d)
unfolding put
length-put k f [] = omega arith
length-put k f ((j, v) ∷ rest) = let later = length-put k f rest in ground arith

length-note_as :
    (f : Option String) (e : SuppressedEvent) (d : Dict SuppressedEvent)
    → length (note_as f e d) ≤ suc (length d)
unfolding note_as
length-note_as none e d = omega arith
length-note_as (some f) e d = let here = length-put f (λ old. e) d in ground arith

length-note_latest :
    (e : SuppressedEvent) (d : Dict SuppressedEvent) → length (note_latest e d) ≤ suc (length d)
unfolding note_latest
length-note_latest e d = length-note_as e.fingerprint e d

length-latest_from :
    (d : Dict SuppressedEvent) (es : List SuppressedEvent)
    → length (latest_from d es) ≤ length d + length es
unfolding latest_from
length-latest_from d [] = omega arith
length-latest_from d (e ∷ es) =
    let here = length-note_latest e d in
    let later = length-latest_from (note_latest e d) es in omega arith

module _ (isoformat : ℕ → String) (suppression : ℕ) (all : List SuppressedEvent) where
  abbrev pub stats : Stats
  stats = compute_suppression_stats isoformat suppression all

  -- The counts of the alert names, and those of the severities, add up to the number of events; the
  -- cleared and the still firing fingerprints add up to the fingerprints and are no more than the
  -- events, and each that still fires stands among the alerts of the summary.
  compute_suppression_stats-totals :
      (total stats.by_alertname ≡ stats.total_suppressed)
      × (total stats.by_severity ≡ stats.total_suppressed)
      × (stats.total_cleared + stats.total_still_firing ≡ length stats.latest_by_fingerprint)
      × (stats.total_cleared + stats.total_still_firing ≤ stats.total_suppressed)
      × (length stats.still_firing_alerts ≡ stats.total_still_firing)
  unfolding compute_suppression_stats latest_of total
  compute_suppression_stats-totals =
      let events = keep (λ e. nat_eq e.suppression_id suppression) all in
      let named = count_by-total (λ e. or_text e.alertname "Unknown") events [] in
      let graded = count_by-total (λ e. or_text e.severity "unknown") events [] in
      let (both, alerts) = tally-counts isoformat (latest_of events) in
      let few = length-latest_from [] (sort_by received_before events) in
      let sorted = length-sort_by received_before events in
      (omega arith, omega arith, both, omega arith, alerts)
