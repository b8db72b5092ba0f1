-- ===== src/Timer/Cancelling.antt =====
-- What Timer cancels behind a failure.
use poundcake.Prelude.{
  ℕ, Bool, true, false, some, List, [], ◌∷◌, In, inl, inr, ◌≡◌, ◌⊎◌, refl, sym, ap, ◌∙◌, subst,
  nat_eq, nat_eq_iff, str_eq, ◌||◌, ◌&&◌, Bool-cases, ltb, leb, not, arith, keep, keep-In, In-keep,
}
use poundcake.Prelude.Text.{lower, strip}
use poundcake.Status.{
  ExecStatus, ok, show_status, is_pending, is_canceled, is_terminal, verdict_status,
  validate_execution_transition,
}
use poundcake.Status.Laws.{validate_iff, normalize-show}
use poundcake.Tables.{Row}
use poundcake.Dishes.{has_expediter_runner_receipt}
use poundcake.Dishes.Routes.{
  find_row, put_row, updated, http_error, by_row, reconcile, reconcile_row, service_name,
  wants_receipt, same, apply_update, requested_status, settle_row, commit, Reconciler, Reply,
  timed_row, copy_fields, judge, time_run, check_sla, clear_if_terminal, drop_claim,
}
use poundcake.Dishes.Claiming.{find-put_same, found-id}
use poundcake.Dishes.Reconciling.{settle_row-id}
use poundcake.Dishes.Keyed.{IsKeyed, find-put_other, reconcile-put}
use poundcake.Dishes.Listing.{is_row_of, list_dish_ingredient_status}
use poundcake.Dishes.Shown.{IsSingle, shown-In, In-shown}
use poundcake.Timer.{reconcile_payload}
use poundcake.Timer.Groups.{
  Sweep, cancel_row, cancel_rows, cancel_payload, rows_after, is_blocked_by, is_later,
  cancel_blocked_future_rows,
}

may_cancel : ExecStatus → Bool
may_cancel s = is_pending s || is_canceled s

cancel-accepted :
    (t : ExecStatus)
    → may_cancel t ≡ true
    → validate_execution_transition (some (show_status t)) (some "canceled")
      ≡ ok ExecStatus.canceled
unfolding may_cancel is_pending is_canceled show_status
cancel-accepted t h =
    let iff =
      validate_iff (some (show_status t)) (some (show_status ExecStatus.canceled))
        ExecStatus.canceled in
    iff.1 (t, normalize-show t, normalize-show ExecStatus.canceled, ground arith)

-- What a row must be for Timer to cancel it, and what it then is.
Open : ℕ → List Row → Type 0
Open id rows =
    (r : Row) × (find_row id rows ≡ some r)
    × (r.deleted ≡ false)
    × (has_expediter_runner_receipt r ≡ false)
    × (may_cancel r.status ≡ true)

abbrev pub Gone : ℕ → List Row → Type 0
Gone id rows =
    (r : Row) × (find_row id rows ≡ some r)
    × (r.deleted ≡ false)
    × (has_expediter_runner_receipt r ≡ false)
    × (r.status ≡ ExecStatus.canceled)

Gone-Open : (id : ℕ) (rows : List Row) → Gone id rows → Open id rows
unfolding Open may_cancel is_pending is_canceled
Gone-Open id rows (r, e, d, n, c) = (r, e, d, n, ground arith)

module _ (s : Sweep) (f : Row) where
  -- A row of another number stays as it is.
  cancel_row-other :
      (x : Row) (id : ℕ) (rows : List Row)
      → nat_eq x.id id ≡ false
      → find_row id (cancel_row s f x rows) ≡ find_row id rows
  unfolding cancel_row rows_after cancel_payload reconcile_payload
  cancel_row-other x id rows h = written (reconcile _ _ _ _ x.id rows) refl
    where
      written :
          (a : Reply)
          → reconcile Reconciler.timer s.caller
              (s.reconciled_now x.id)
              (cancel_payload s f x)
              x.id
              rows
            ≡ a
          → find_row id (rows_after rows a) ≡ find_row id rows
      written (http_error code) e = refl
      written (updated r after) e =
          let (y, found, number, q) = reconcile-put _ _ _ _ x.id rows after r (refl, refl) e in
          let same_id : r.id ≡ x.id = number.0 ∙ found-id x.id rows y found in
          rw q (find-put_other id rows r (subst (λ n. nat_eq n id ≡ false) (sym same_id) h))

  module _ (caller : str_eq (lower (strip s.caller)) "timer" ≡ true) where
    settled : Sweep → Row → Row → Row → Row
    settled s f x r =
        settle_row (s.reconciled_now x.id) (cancel_payload s f x) ExecStatus.canceled r

    settled-canceled :
        (x r : Row)
        → ((settled s f x r).deleted ≡ r.deleted)
          × (has_expediter_runner_receipt (settled s f x r) ≡ has_expediter_runner_receipt r)
          × ((settled s f x r).status ≡ ExecStatus.canceled)
    unfolding settled settle_row timed_row copy_fields judge time_run check_sla clear_if_terminal
        drop_claim verdict_status is_terminal is_canceled cancel_payload reconcile_payload
        has_expediter_runner_receipt
    settled-canceled x r = (refl, refl, refl)

    cancels :
        (x r : Row) (rows : List Row)
        → find_row x.id rows ≡ some r
        → r.deleted ≡ false
        → has_expediter_runner_receipt r ≡ false
        → may_cancel r.status ≡ true
        → cancel_row s f x rows ≡ put_row (settled s f x r) rows
    unfolding settled cancel_row rows_after reconcile by_row reconcile_row service_name
        wants_receipt same apply_update commit requested_status cancel_payload reconcile_payload
        has_expediter_runner_receipt
    cancels x r rows e d n c = rw (e, d, caller, n, cancel-accepted r.status c) refl

    cancel_row-Gone :
        (x : Row) (rows : List Row) → Open x.id rows → Gone x.id (cancel_row s f x rows)
    unfolding Open settled
    cancel_row-Gone x rows (r, e, d, n, c) =
        let (d', n', c') = settled-canceled x r in
        rw (cancels x r rows e d n c) (
          settled s f x r,
          find-put_same x.id rows r (settled s f x r) e
              (settle_row-id (s.reconciled_now x.id) (cancel_payload s f x) ExecStatus.canceled r),
          d' ∙ d,
          n' ∙ n,
          c',
        )

    -- What is open stays open, or is canceled.
    cancel_row-Open :
        (x : Row) (id : ℕ) (rows : List Row) → Open id rows → Open id (cancel_row s f x rows)
    unfolding Open
    cancel_row-Open x id rows o = elim (Bool-cases (nat_eq x.id id)) [
      | inl q ↦
          let same_id = (nat_eq_iff x.id id).0 q in
          subst (λ n. Open n (cancel_row s f x rows)) same_id
            (Gone-Open x.id (cancel_row s f x rows)
              (cancel_row-Gone x rows (subst (λ n. Open n rows) (sym same_id) o)))
      | inr q ↦ let (r, e, d, n, c) = o in (r, cancel_row-other x id rows q ∙ e, d, n, c)
    ]

    cancel_row-Gone_kept :
        (x : Row) (id : ℕ) (rows : List Row) → Gone id rows → Gone id (cancel_row s f x rows)
    cancel_row-Gone_kept x id rows g = elim (Bool-cases (nat_eq x.id id)) [
      | inl q ↦
          let same_id = (nat_eq_iff x.id id).0 q in
          subst (λ n. Gone n (cancel_row s f x rows)) same_id
            (cancel_row-Gone x rows
              (Gone-Open x.id rows (subst (λ n. Gone n rows) (sym same_id) g)))
      | inr q ↦ let (r, e, d, n, c) = g in (r, cancel_row-other x id rows q ∙ e, d, n, c)
    ]

    cancel_rows-Gone_kept :
        (xs : List Row) (id : ℕ) (rows : List Row)
        → Gone id rows
        → Gone id (cancel_rows s f xs rows)
    unfolding cancel_rows
    cancel_rows-Gone_kept [] id rows g = g
    cancel_rows-Gone_kept (x ∷ xs) id rows g =
        cancel_rows-Gone_kept xs id (cancel_row s f x rows) (cancel_row-Gone_kept x id rows g)

    cancel_rows-Gone :
        (xs : List Row) (x : Row) (rows : List Row)
        → In x xs
        → Open x.id rows
        → Gone x.id (cancel_rows s f xs rows)
    unfolding cancel_rows
    cancel_rows-Gone [] x rows m o = absurd m
    cancel_rows-Gone (y ∷ ys) x rows (inl e) o =
        cancel_rows-Gone_kept ys x.id (cancel_row s f y rows)
          (rw e (cancel_row-Gone y rows (rw e at o)))
    cancel_rows-Gone (y ∷ ys) x rows (inr m) o =
        cancel_rows-Gone ys x (cancel_row s f y rows) m (cancel_row-Open y x.id rows o)

  cancel_rows-other :
      (xs : List Row) (id : ℕ) (rows : List Row)
      → ((x : Row) → In x xs → nat_eq x.id id ≡ false)
      → find_row id (cancel_rows s f xs rows) ≡ find_row id rows
  unfolding cancel_rows
  cancel_rows-other [] id rows h = refl
  cancel_rows-other (x ∷ xs) id rows h =
      cancel_rows-other xs id (cancel_row s f x rows) (λ y m. h y (inr m))
      ∙ cancel_row-other x id rows (h x (inl refl))

-- Whether f's failure is to cancel r.
abbrev pub is_doomed : Row → Row → Bool
is_doomed f r =
    nat_eq r.dish_id f.dish_id
    && not r.deleted
    && str_eq (show_status r.status) "pending"
    && (ltb f.depth r.depth || leb f.depth r.depth && ltb f.parallel_group r.parallel_group)

shows_pending : (t : ExecStatus) → is_pending t ≡ str_eq (show_status t) "pending"
unfolding is_pending show_status
shows_pending ExecStatus.pending = refl
shows_pending _ = refl

doomed-blocked : (f r : Row) → is_doomed f r ≡ (is_row_of f.dish_id r && is_blocked_by f r)
unfolding is_row_of is_blocked_by is_later
doomed-blocked f r = ground (arith, shows_pending r.status)

module _ (s : Sweep) (f : Row) (rows : List Row) (keyed : IsKeyed rows) where
  candidate-doomed :
      (x : Row)
      → In x (keep (is_blocked_by f) (list_dish_ingredient_status s.view f.dish_id rows))
      → In x rows × (is_doomed f x ≡ true)
  candidate-doomed x m =
      let (n, b) = keep-In (is_blocked_by f) _ x m in
      let (k, d) = shown-In s.view f.dish_id rows x n in (k, doomed-blocked f x ∙ ground arith)

  spared-other :
      (r x : Row)
      → In r rows
      → is_doomed f r ≡ false
      → In x (keep (is_blocked_by f) (list_dish_ingredient_status s.view f.dish_id rows))
      → nat_eq x.id r.id ≡ false
  unfolding IsKeyed
  spared-other r x m h n = elim (Bool-cases (nat_eq x.id r.id)) [
    | inr q ↦ q
    | inl q ↦
        let (k, d) = candidate-doomed x n in
        let same_id = (nat_eq_iff x.id r.id).0 q in
        let found : find_row r.id rows ≡ some x =
          subst (λ n. find_row n rows ≡ some x) same_id (keyed x k) in
        let both : some x ≡ some r = sym found ∙ keyed r m in
        let same_row : x ≡ r = cc in
        let bad : true ≡ false = sym d ∙ ap (is_doomed f) same_row ∙ h in absurd cc
  ]

  -- When ids are keys, no two rows of the dish are one step, Timer is who asks and the list of the
  -- dish is answered, then after a failure of f a row without a receipt of the expediter runner is
  -- canceled if it is a row of f's dish that is not deleted and is pending in a later bucket than f,
  -- and is as it was if not.
  pub cancel_blocked-exact :
      IsSingle s.view f.dish_id rows
      → str_eq (lower (strip s.caller)) "timer" ≡ true
      → s.view.answered ≡ true
      → (r : Row) → In r rows
      → has_expediter_runner_receipt r ≡ false
      → ((is_doomed f r ≡ true) × Gone r.id (cancel_blocked_future_rows s f rows))
        ⊎ ((is_doomed f r ≡ false) × (find_row r.id (cancel_blocked_future_rows s f rows) ≡ some r))
  unfolding cancel_blocked_future_rows IsKeyed Open is_blocked_by is_row_of may_cancel
  cancel_blocked-exact single caller answered r m n = elim (Bool-cases (is_doomed f r)) [
    | inl h ↦
        let both : (is_row_of f.dish_id r && is_blocked_by f r) ≡ true =
          sym (doomed-blocked f r) ∙ h in
        let here = In-shown s.view f.dish_id rows single r m (ground arith) in
        let chosen = In-keep (is_blocked_by f) _ r here (ground arith) in
        inl (
          h,
          rw answered (
              cancel_rows-Gone s f caller _ r rows chosen
                (r, keyed r m, ground arith, n, ground arith)),
        )
    | inr h ↦ inr (
      h,
      rw answered (cancel_rows-other s f _ r.id rows (λ x k. spared-other r x m h k) ∙ keyed r m),
    )
  ]
