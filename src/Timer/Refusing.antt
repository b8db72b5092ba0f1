-- ===== src/Timer/Refusing.antt =====
-- A poll of a row that belongs to the expediter runner, after its time.
use poundcake.Prelude.{
  Bool, true, false, none, some, List, ◌≡◌, inl, inr, refl, sym, subst, Bool-cases, str_eq, ◌||◌,
}
use poundcake.Prelude.Text.{lower, strip}
use poundcake.Json.{get_or_null}
use poundcake.Tables.{Row}
use poundcake.Dishes.{has_expediter_runner_receipt}
use poundcake.Dishes.Routes.{
  http_error, updated, find_row, by_row, reconcile, reconcile_row, service_name, wants_receipt,
  same, Upsert, poll_claim, take_claim, Reconciler,
}
use poundcake.Dishes.Claiming.{found-id, claim-found_after, polls, claim}
use poundcake.Timer.{
  Poll, Polled, StatusReply, poll_row, poll_claimed, poll_status, poll_body, post_reconcile,
  is_terminal_text, runtime_exceeded_timeout, status_of, identity,
}

-- the poll changed nothing after the claim
abbrev Stuck : List Row → Polled × List Row → Type 0
Stuck rows (p, after) = (p.reconciled ≡ none) × (after ≡ rows)

module _ (c : Poll) (r : Row) (rows : List Row) (found : find_row r.id rows ≡ some r) where
  module _ (kept : r.deleted ≡ false) (caller : str_eq (lower (strip c.caller)) "timer" ≡ true)
      (receipt : has_expediter_runner_receipt r ≡ true)
      (late : runtime_exceeded_timeout c.now r ≡ true) where
    reconcile-refused :
        (p : Upsert)
        → reconcile Reconciler.timer c.caller c.reconciled_now p r.id rows ≡ http_error 409
    unfolding reconcile by_row reconcile_row service_name wants_receipt same
        has_expediter_runner_receipt
    reconcile-refused p = rw (found, kept, caller, receipt) refl

    post-Stuck : (cancel : Bool) (p : Upsert) → Stuck rows (post_reconcile c cancel p r rows)
    unfolding post_reconcile
    post-Stuck cancel p = rw (post_reconcile, reconcile-refused p) (refl, refl)

    status-Stuck : (reply : StatusReply) → Stuck rows (poll_status c reply r rows)
    unfolding poll_status poll_body
    status-Stuck (StatusReply.transport_failure error) = rw (poll_status, late) (post-Stuck true _)
    status-Stuck (StatusReply.refused code detail) = post-Stuck false _
    status-Stuck (StatusReply.answered body) =
        elim (Bool-cases (is_terminal_text (status_of (get_or_null "status" body)))) [
          | inl q ↦ rw (poll_status, poll_body, q) (post-Stuck false _)
          | inr q ↦ rw (poll_status, poll_body, q, late) (post-Stuck true _)
        ]

    claimed-Stuck : Stuck rows (poll_claimed c r rows)
    unfolding poll_claimed
    claimed-Stuck = elim (Bool-cases (str_eq (identity r).0 "" || str_eq (identity r).1 "")) [
      | inl q ↦ rw (poll_claimed, q, late) (post-Stuck false _)
      | inr q ↦ rw (poll_claimed, q) (status-Stuck c.meets)
    ]

-- When Timer's claim of a row succeeds, Timer is who reconciles, the row holds a receipt of the
-- expediter runner and its time is over, then whatever the provider answers the poll reconciles
-- nothing and leaves the rows as the claim left them, with the claim on the row.
pub poll_row-Stuck :
    (c : Poll) (r claimed : Row) (rows after : List Row)
    → poll_claim c.lock c.claimed_now c.req r.id rows ≡ updated claimed after
    → str_eq (lower (strip c.caller)) "timer" ≡ true
    → has_expediter_runner_receipt claimed ≡ true
    → runtime_exceeded_timeout c.now claimed ≡ true
    → let (p, left) = poll_row c r rows in
      (p.reconciled ≡ none)
      × (left ≡ after)
      × (find_row r.id left ≡ some claimed)
      × (claimed.claimed_by ≡ some c.req)
unfolding poll_row claim take_claim
poll_row-Stuck c r claimed rows after e caller receipt late =
    let (x, t, kept, f) =
      claim-found_after polls c.lock c.claimed_now c.req r.id rows claimed after e in
    let own =
      subst (λ n. find_row n after ≡ some claimed) (sym (found-id r.id after claimed f)) f in
    let open_row = subst (λ z. z.deleted ≡ false) (sym t) kept in
    let (unreconciled, same_rows) =
      claimed-Stuck c claimed after own open_row caller receipt late in
    rw (poll_row, e)
      (
        unreconciled,
        same_rows,
        subst (λ rs. find_row r.id rs ≡ some claimed) (sym same_rows) f,
        subst (λ z. z.claimed_by ≡ some c.req) (sym t) refl,
      )
