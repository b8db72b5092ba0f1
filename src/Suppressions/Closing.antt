-- ===== src/Suppressions/Closing.antt =====
-- What a pass over the expired suppressions leaves of the summaries and of the orders.
use poundcake.Prelude.{
  length-take, take, keep, sort_by, suc, ◌≡◌, ◌≤◌, inl, inr, false, List, [], ◌∷◌, All, arith, ℕ,
  Bool-cases, Option-cases, count_if, ◌+◌, String, length,
}
use poundcake.Suppressions.Lifecycle.{
  is_expired, ends_before, Store, Setting, is_closed, get_or_create_summary, settle_summary,
  record_failure, record_requeue_failure, finalize_one, finalize_each, expired_batch,
  finalize_expired_suppressions,
}
use poundcake.PreHeat.{is_active_for}
use poundcake.Cook.Settling.{IsConsistent}
use poundcake.Suppressions.{Suppression}
use poundcake.Suppressions.Events.{compute_suppression_stats}
use poundcake.Suppressions.Replaying.{requeue-safe}

abbrev pub OrdersSafe : Store → Type 0
OrdersSafe st =
    ((fp : String) → count_if (is_active_for fp) st.orders ≤ 1) × All IsConsistent st.orders

module _ (c : Setting) where
  -- What one turn keeps: the creation of a summary, a settled one and the two recorded failures.
  pub finalize_one-holds :
      (R : ℕ × Store → Type 0) (s : Suppression) (r : ℕ × Store)
      → let made = record r.1 { summaries = (get_or_create_summary s.id r.1.summaries).1 } in
        R (r.0, made)
        → ((error : String)
            → is_closed (get_or_create_summary s.id r.1.summaries).0 ≡ false
            → R (r.0, record_failure error s.id made))
        → ((turns : ℕ) (error : String)
            → is_closed (get_or_create_summary s.id r.1.summaries).0 ≡ false
            → R (r.0, record_requeue_failure c turns error s.id made))
        → (is_closed (get_or_create_summary s.id r.1.summaries).0 ≡ false
            → R (suc r.0, settle_summary c s.id made))
        → R (finalize_one c s r)
  unfolding finalize_one
  finalize_one-holds R s (done, st) h k m l =
      elim (Bool-cases (is_closed (get_or_create_summary s.id st.summaries).0)) [
        | inl q ↦ rw q h
        | inr q ↦ rw q (elim (Option-cases (c.stats_error s.id)) [
          | inl e ↦ rw e (elim (Option-cases (c.requeue_error s.id)) [
            | inl n ↦ rw n (l q)
            | inr ((turns, error), n) ↦ rw n (m turns error q)
          ])
          | inr (error, e) ↦ rw e (k error q)
        ])
      ]

  finalize_one-safe :
      (s : Suppression) (r : ℕ × Store) → OrdersSafe r.1 → OrdersSafe (finalize_one c s r).1
  unfolding settle_summary record_failure record_requeue_failure
  finalize_one-safe s r (one, consistent) =
      finalize_one-holds (λ x. OrdersSafe x.1) s r (one, consistent) (λ error o. (one, consistent))
        (λ turns error o.
          requeue-safe c.now s.id c.req_id
            (take turns
              (compute_suppression_stats c.isoformat s.id r.1.events).latest_by_fingerprint)
            r.1.next_order r.1.orders one consistent)
        (λ o.
          requeue-safe c.now s.id c.req_id
            (compute_suppression_stats c.isoformat s.id r.1.events).latest_by_fingerprint
            r.1.next_order r.1.orders one consistent)

  finalize_each-safe :
      (ss : List Suppression) (r : ℕ × Store) → OrdersSafe r.1 → OrdersSafe (finalize_each c ss r).1
  unfolding finalize_each
  finalize_each-safe [] r h = h
  finalize_each-safe (s ∷ ss) r h =
      finalize_each-safe ss (finalize_one c s r) (finalize_one-safe s r h)

  finalize_one-count : (s : Suppression) (r : ℕ × Store) → (finalize_one c s r).0 ≤ r.0 + 1
  finalize_one-count s r =
      finalize_one-holds (λ x. x.0 ≤ r.0 + 1) s r (omega arith) (λ e o. omega arith)
        (λ n e o. omega arith) (λ o. omega arith)

  finalize_each-count :
      (ss : List Suppression) (r : ℕ × Store) → (finalize_each c ss r).0 ≤ r.0 + length ss
  unfolding finalize_each
  finalize_each-count [] r = omega arith
  finalize_each-count (s ∷ ss) r =
      let here = finalize_one-count s r in
      let later = finalize_each-count ss (finalize_one c s r) in omega arith

  -- A pass does nothing, or takes the batch.
  pub pass-holds :
      (R : ℕ × Store → Type 0) (suppressions : List Suppression) (st : Store)
      → R (0, st)
      → R (finalize_each c (expired_batch c suppressions) (0, st))
      → R (finalize_expired_suppressions c suppressions st)
  unfolding finalize_expired_suppressions
  pass-holds R suppressions st h k = elim (Bool-cases c.suppressions_enabled) [
    | inr q ↦ rw (finalize_expired_suppressions, q) h
    | inl q ↦
        rw (finalize_expired_suppressions, q)
          (elim (Bool-cases c.lifecycle_enabled) [ inr l ↦ rw l h | inl l ↦ rw l k ])
  ]

  -- A pass finalizes at most as many suppressions as the batch limit, and it keeps at most one active
  -- order for each fingerprint and is_active in agreement with the status of every order.
  pub finalize_expired-safe :
      (suppressions : List Suppression) (st : Store)
      → ((fp : String) → count_if (is_active_for fp) st.orders ≤ 1)
      → All IsConsistent st.orders
      → let (finalized, after) = finalize_expired_suppressions c suppressions st in
        (finalized ≤ c.batch_limit)
        × (((fp : String) → count_if (is_active_for fp) after.orders ≤ 1)
            × All IsConsistent after.orders)
  unfolding expired_batch
  finalize_expired-safe suppressions st h k =
      let batch = expired_batch c suppressions in
      let few =
        length-take c.batch_limit (sort_by ends_before (keep (is_expired c.now) suppressions)) in
      let counted = finalize_each-count batch (0, st) in
      pass-holds (λ r. (r.0 ≤ c.batch_limit) × OrdersSafe r.1) suppressions st (omega arith, (h, k))
        (omega arith, finalize_each-safe batch (0, st) (h, k))
