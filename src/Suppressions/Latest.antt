-- ===== src/Suppressions/Latest.antt =====
-- The statistics keep, for each fingerprint, the event that was received last.
use poundcake.Suppressions.Events.{
  names, note_as, SuppressedEvent, Dict, put, received_before, has_fingerprint, note_latest,
  latest_from, latest_of, compute_suppression_stats,
}
use poundcake.Prelude.{
  ◌≡◌, ◌≤◌, inl, inr, true, false, some, none, List, [], ◌∷◌, In, arith, keep, if◌then◌else◌,
  sort_by, ℕ, Bool, Option, refl, subst, sym, ap, Bool-cases, nat_eq, str_eq, eq_refl, eq_iff,
  Ascends, sort_by-Ascends, keep-In, In-keep, ◌∙◌, In-sort_by, sort_by-In, String,
}

-- `d.get(key)`
unfoldable pub lookup : {A : Type 0} → String → Dict A → Option A
lookup k [] = none
lookup k ((j, v) ∷ rest) = let later = lookup k rest in if str_eq j k then some v else later

abbrev then_new : Bool → SuppressedEvent → Option SuppressedEvent → Option SuppressedEvent
then_new b e old = if b then some e else old

put-lookup-same :
    (fp : String) (e : SuppressedEvent) (d : Dict SuppressedEvent)
    → lookup fp (put fp (λ old. e) d) ≡ some e
unfolding put lookup
put-lookup-same fp e [] = rw (eq_refl fp) refl
put-lookup-same fp e ((j, v) ∷ rest) = elim (Bool-cases (str_eq j fp)) [
  | inl q ↦ rw q (rw q refl)
  | inr q ↦ rw q (rw q (put-lookup-same fp e rest))
]

put-lookup-other :
    (f fp : String) (e : SuppressedEvent) (d : Dict SuppressedEvent)
    → str_eq f fp ≡ false
    → lookup fp (put f (λ old. e) d) ≡ lookup fp d
unfolding put lookup
put-lookup-other f fp e [] h = rw h refl
put-lookup-other f fp e ((j, v) ∷ rest) h = elim (Bool-cases (str_eq j f)) [
  | inl q ↦
      let same = (eq_iff j f).0 q in
      let o : str_eq j fp ≡ false = subst (λ x. str_eq x fp ≡ false) (sym same) h in
      rw q (rw o refl)
  | inr q ↦ rw q (ap (λ x. if str_eq j fp then some v else x) (put-lookup-other f fp e rest h))
]

module _ (fp : String) where
  note_as-lookup :
      (f : Option String) (e : SuppressedEvent) (d : Dict SuppressedEvent)
      → lookup fp (note_as f e d) ≡ then_new (names fp f) e (lookup fp d)
  unfolding note_as
  note_as-lookup none e d = refl
  note_as-lookup (some f) e d = elim (Bool-cases (str_eq f "")) [
    | inl blank ↦ rw blank refl
    | inr named ↦ rw named (elim (Bool-cases (str_eq f fp)) [
      | inl q ↦ rw q (
          subst (λ x. lookup fp (put x (λ old. e) d) ≡ some e) (sym ((eq_iff f fp).0 q))
            (put-lookup-same fp e d))
      | inr q ↦ rw q (put-lookup-other f fp e d q)
    ])
  ]

  note_latest-lookup :
      (e : SuppressedEvent) (d : Dict SuppressedEvent)
      → lookup fp (note_latest e d) ≡ then_new (has_fingerprint fp e) e (lookup fp d)
  unfolding note_latest
  note_latest-lookup e d = note_as-lookup e.fingerprint e d

  -- the last event of the fingerprint, or the one before them
  last_for : Option SuppressedEvent → List SuppressedEvent → Option SuppressedEvent
  last_for old [] = old
  last_for old (e ∷ es) = last_for (then_new (has_fingerprint fp e) e old) es

  latest_from-lookup :
      (es : List SuppressedEvent) (d : Dict SuppressedEvent)
      → lookup fp (latest_from d es) ≡ last_for (lookup fp d) es
  unfolding latest_from last_for
  latest_from-lookup [] d = refl
  latest_from-lookup (e ∷ es) d =
      latest_from-lookup es (note_latest e d) ∙ ap (λ o. last_for o es) (note_latest-lookup e d)

  before-asym : (a b : SuppressedEvent) → received_before a b ≡ true → received_before b a ≡ false
  before-asym a b h = ground arith

  before-not_later :
      (a b c : SuppressedEvent)
      → received_before b a ≡ false
      → received_before c b ≡ false
      → received_before c a ≡ false
  before-not_later a b c h k = ground arith

  abbrev Sorted : List SuppressedEvent → Type 0
  Sorted = Ascends received_before before-asym before-not_later

  -- an event of the fingerprint, from the list, not received before x
  abbrev Late : SuppressedEvent → Option SuppressedEvent → List SuppressedEvent → Type 0
  Late x o es =
      (e : SuppressedEvent) × (o ≡ some e)
      × In e es
      × (has_fingerprint fp e ≡ true)
      × (x.received_at ≤ e.received_at)

  last_for-Late :
      (x : SuppressedEvent) (es : List SuppressedEvent)
      → Sorted (x ∷ es)
      → has_fingerprint fp x ≡ true
      → Late x (last_for (some x) es) (x ∷ es)
  unfolding last_for
  last_for-Late x [] s h = (x, refl, inl refl, h, omega arith)
  last_for-Late x (e ∷ es) (a, s) h = elim (Bool-cases (has_fingerprint fp e)) [
    | inl q ↦
        let (y, eq, m, k, le) = last_for-Late e es s q in
        (y, rw q eq, inr m, k, let here = a.0 in ground arith)
    | inr q ↦
        let (y, eq, m, k, le) = last_for-Late x es (a.1, s.1) h in
        (y, rw q eq, elim m [ inl i ↦ inl i | inr i ↦ inr (inr i) ], k, le)
  ]

  last_for-In :
      (o : Option SuppressedEvent) (x : SuppressedEvent) (es : List SuppressedEvent)
      → Sorted es
      → In x es
      → has_fingerprint fp x ≡ true
      → Late x (last_for o es) es
  unfolding last_for
  last_for-In o x [] s m h = absurd m
  last_for-In o x (e ∷ es) s (inl i) h =
      let k = subst (λ z. has_fingerprint fp z ≡ true) i h in
      rw k (subst (λ z. Late z (last_for (some e) es) (e ∷ es)) (sym i) (last_for-Late e es s k))
  last_for-In o x (e ∷ es) s (inr m) h =
      let (y, eq, n, k, le) = last_for-In (then_new (has_fingerprint fp e) e o) x es s.1 m h in
      (y, eq, inr n, k, le)

  -- For each event of a suppression that has the fingerprint, the statistics keep
  -- an event of that suppression and fingerprint that was not received before it.
  pub compute_suppression_stats-latest :
      (isoformat : ℕ → String) (suppression : ℕ) (all : List SuppressedEvent) (x : SuppressedEvent)
      → In x all
      → x.suppression_id ≡ suppression
      → has_fingerprint fp x ≡ true
      → (e : SuppressedEvent) × (lookup fp
            (compute_suppression_stats isoformat suppression all).latest_by_fingerprint
          ≡ some e)
        × In e all
        × (e.suppression_id ≡ suppression)
        × (has_fingerprint fp e ≡ true)
        × (x.received_at ≤ e.received_at)
  unfolding compute_suppression_stats latest_of lookup
  compute_suppression_stats-latest isoformat suppression all x m s h =
      let mine = λ (e : SuppressedEvent). nat_eq e.suppression_id suppression in
      let events = keep mine all in
      let sorted = sort_by-Ascends received_before before-asym before-not_later events in
      let found = In-keep mine all x m (ground arith) in
      let placed = In-sort_by received_before events x found in
      let (e, eq, k, f, le) = last_for-In none x (sort_by received_before events) sorted placed h in
      let (o, q) = keep-In mine all e (sort_by-In received_before events e k) in
      (e, latest_from-lookup (sort_by received_before events) [] ∙ eq, o, ground arith, f, le)
