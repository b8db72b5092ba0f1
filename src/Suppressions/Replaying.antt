-- ===== src/Suppressions/Replaying.antt =====
-- What the replay of the alerts that still fire does to the orders.
use poundcake.Prelude.{
  ◌||◌, if◌then◌else◌, ◌≡◌, ◌≤◌, inl, inr, true, false, List, [], ◌∷◌, All, arith, ℕ, Bool, refl,
  subst, In, Bool-cases, count_if, any, str_eq, eq_refl, eq_iff, ◌+◌, String, length,
}
use poundcake.Tables.{Order}
use poundcake.PreHeat.{is_active_for}
use poundcake.Cook.Settling.{IsConsistent}
use poundcake.Status.{should_keep_active}
use poundcake.Suppressions.Events.{SuppressedEvent, Dict, is_cleared, tally}
use poundcake.Suppressions.Lifecycle.{replay_order, requeue_one, requeue_still_firing_events}

any-false-count : {A : Type 0} (p : A → Bool) (xs : List A) → any p xs ≡ false → count_if p xs ≡ 0
unfolding count_if
any-false-count p [] h = refl
any-false-count p (x ∷ xs) h = let rest = any-false-count p xs in ground arith

module _ (now suppression : ℕ) (req_id : String) where
  abbrev replay : ℕ → String → SuppressedEvent → Order
  replay id fp e = replay_order id now suppression req_id fp e

  requeue_one-holds :
      (R : List Order → Type 0) (fp : String) (e : SuppressedEvent) (s : ℕ × List Order)
      → R s.1
      → (any (is_active_for fp) s.1 ≡ false → R (replay s.0 fp e ∷ s.1))
      → R (requeue_one now suppression req_id fp e s).1
  unfolding requeue_one
  requeue_one-holds R fp e (next, orders) h k = elim (Bool-cases (is_cleared e)) [
    | inl q ↦ rw q h
    | inr q ↦
        rw q (elim (Bool-cases (any (is_active_for fp) orders)) [
          | inl t ↦ rw t h
          | inr t ↦ rw t (k t)
        ])
  ]

  pub requeue-holds :
      (R : List Order → Type 0)
      → ((id : ℕ) (fp : String) (e : SuppressedEvent) (orders : List Order)
          → R orders
          → any (is_active_for fp) orders ≡ false
          → R (replay id fp e ∷ orders))
      → (latest : Dict SuppressedEvent) (s : ℕ × List Order) → R s.1
      → R (requeue_still_firing_events now suppression req_id latest s).1
  unfolding requeue_still_firing_events
  requeue-holds R add [] s h = h
  requeue-holds R add ((fp, e) ∷ rest) s h =
      requeue-holds R add rest (requeue_one now suppression req_id fp e s)
        (requeue_one-holds R fp e s h (add s.0 fp e s.1 h))

  replay-le_one :
      (id : ℕ) (other fp : String) (e : SuppressedEvent) (orders : List Order)
      → count_if (is_active_for other) orders ≤ 1
      → any (is_active_for fp) orders ≡ false
      → count_if (is_active_for other) (replay id fp e ∷ orders) ≤ 1
  unfolding replay_order is_active_for count_if
  replay-le_one id other fp e orders h k = elim (Bool-cases (str_eq fp other)) [
    | inl q ↦
        let z =
          any-false-count (is_active_for other) orders
            (subst (λ x. any (is_active_for x) orders ≡ false) ((eq_iff fp other).0 q) k) in
        rw q (ground arith)
    | inr q ↦ rw q h
  ]

  -- The replay keeps at most one active order for each fingerprint, and is_active in agreement with
  -- the status of every order.
  pub requeue-safe :
      (latest : Dict SuppressedEvent) (next : ℕ) (orders : List Order)
      → ((fp : String) → count_if (is_active_for fp) orders ≤ 1)
      → All IsConsistent orders
      → let after = (requeue_still_firing_events now suppression req_id latest (next, orders)).1 in
        ((fp : String) → count_if (is_active_for fp) after ≤ 1) × All IsConsistent after
  unfolding replay_order should_keep_active
  requeue-safe latest next orders h c = (
    λ fp.
        requeue-holds (λ os. count_if (is_active_for fp) os ≤ 1)
          (λ id f e os a b. replay-le_one id fp f e os a b) latest (next, orders) (h fp),
    requeue-holds (All IsConsistent) (λ id fp e os a b. (refl, a)) latest (next, orders) c,
  )

  or_true : (a b : Bool) → b ≡ true → (a || b) ≡ true
  or_true a b h = ground arith

  requeue_one-active :
      (fp : String) (e : SuppressedEvent) (s : ℕ × List Order)
      → is_cleared e ≡ false
      → any (is_active_for fp) (requeue_one now suppression req_id fp e s).1 ≡ true
  unfolding requeue_one replay_order is_active_for
  requeue_one-active fp e (next, orders) h =
      rw h (elim (Bool-cases (any (is_active_for fp) orders)) [
        | inl t ↦ rw t t
        | inr t ↦ rw t (rw (eq_refl fp) refl)
      ])

  -- After a replay each fingerprint whose last suppressed alert has not resolved has an active order,
  -- be it one of the replay or one that was there.
  pub requeue-active :
      (latest : Dict SuppressedEvent) (s : ℕ × List Order) (fp : String) (e : SuppressedEvent)
      → In (fp, e) latest
      → is_cleared e ≡ false
      → any (is_active_for fp) (requeue_still_firing_events now suppression req_id latest s).1
        ≡ true
  unfolding requeue_still_firing_events
  requeue-active [] s fp e m h = absurd m
  requeue-active ((f, x) ∷ rest) s fp e (inr m) h =
      requeue-active rest (requeue_one now suppression req_id f x s) fp e m h
  requeue-active ((f, x) ∷ rest) s fp e (inl q) h =
      requeue-holds (λ os. any (is_active_for fp) os ≡ true)
        (λ id g y os a b. or_true (is_active_for fp (replay id g y)) _ a) rest _
        (subst (λ z. any (is_active_for fp) (requeue_one now suppression req_id z.0 z.1 s).1 ≡ true)
          q (requeue_one-active fp e s h))

  requeue_one-created :
      (fp : String) (e : SuppressedEvent) (s : ℕ × List Order)
      → let after = requeue_one now suppression req_id fp e s in
        (after.0 + length s.1 ≡ s.0 + length after.1)
        × (after.0 ≤ s.0 + (if is_cleared e then 0 else 1))
  unfolding requeue_one
  requeue_one-created fp e (next, orders) = (ground arith, ground arith)

  -- The replay creates as many orders as it counts, and no more than the fingerprints that the
  -- statistics report as still firing.
  pub requeue-created :
      (isoformat : ℕ → String) (latest : Dict SuppressedEvent) (s : ℕ × List Order)
      → let after = requeue_still_firing_events now suppression req_id latest s in
        (after.0 + length s.1 ≡ s.0 + length after.1) × (after.0 ≤ s.0 + (tally isoformat latest).1)
  unfolding requeue_still_firing_events tally
  requeue-created isoformat [] s = (refl, omega arith)
  requeue-created isoformat ((fp, e) ∷ rest) s =
      let (here, le) = requeue_one-created fp e s in
      let (later, more) =
        requeue-created isoformat rest (requeue_one now suppression req_id fp e s) in
      (omega arith, ground arith)
