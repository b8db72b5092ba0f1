-- ===== src/Timer/Steady.antt =====
-- Polls keep ids keys and steps single.
use poundcake.Prelude.{
  ℕ, Bool, true, false, not, List, [], ◌∷◌, ◌≡◌, inl, inr, refl, Bool-cases, str_eq, ◌||◌,
  if◌then◌else◌,
}
use poundcake.Json.{get_or_null}
use poundcake.Tables.{Row}
use poundcake.Dishes.Listing.{View}
use poundcake.Dishes.Routes.{
  Reply, http_error, updated, Upsert, Reconciler, reconcile, release_claim, poll_claim,
}
use poundcake.Dishes.Steady.{IsSteady, poll_claim-IsSteady, release-IsSteady, reconcile-IsSteady}
use poundcake.Dishes.Reconciling.{KeepsStep}
use poundcake.Timer.{
  reconcile_payload, Poll, StatusReply, poll_row, poll_claimed, poll_status, poll_body,
  post_reconcile, release_polled, runtime_exceeded_timeout, is_terminal_text, status_of, identity,
}
use poundcake.Timer.Groups.{poll_group}

module _ (v : View) (dish_id : ℕ) (c : Poll) (r : Row) (rows : List Row)
    (h : IsSteady v dish_id rows) where
  post_reconcile-IsSteady :
      (cancel : Bool) (p : Upsert)
      → KeepsStep p
      → IsSteady v dish_id (post_reconcile c cancel p r rows).1
  unfolding post_reconcile
  post_reconcile-IsSteady cancel p k =
      by_reply (reconcile Reconciler.timer c.caller c.reconciled_now p r.id rows) refl
    where
      by_reply :
          (a : Reply)
          → reconcile Reconciler.timer c.caller c.reconciled_now p r.id rows ≡ a
          → IsSteady v dish_id (post_reconcile c cancel p r rows).1
      by_reply (http_error code) e = rw (post_reconcile, e) h
      by_reply (updated x after) e =
          rw (post_reconcile, e) (reconcile-IsSteady v dish_id _ _ _ p r.id rows after x k e h)

  release_polled-IsSteady : IsSteady v dish_id (release_polled c r rows).1
  unfolding release_polled
  release_polled-IsSteady = by_reply (release_claim c.req r.id rows) refl
    where
      by_reply :
          (a : Reply)
          → release_claim c.req r.id rows ≡ a
          → IsSteady v dish_id (release_polled c r rows).1
      by_reply (http_error code) e = rw (release_polled, e) h
      by_reply (updated x after) e =
          rw (release_polled, e) (release-IsSteady v dish_id c.req r.id rows after x e h)

  late-IsSteady :
      (late cancel : Bool) (p : Upsert)
      → KeepsStep p
      → IsSteady v dish_id
          (if late then post_reconcile c cancel p r rows else release_polled c r rows).1
  late-IsSteady true cancel p k = post_reconcile-IsSteady cancel p k
  late-IsSteady false cancel p k = release_polled-IsSteady

  early-IsSteady :
      (late cancel : Bool) (p : Upsert)
      → KeepsStep p
      → IsSteady v dish_id
          (if not late then release_polled c r rows else post_reconcile c cancel p r rows).1
  early-IsSteady true cancel p k = post_reconcile-IsSteady cancel p k
  early-IsSteady false cancel p k = release_polled-IsSteady

  poll_status-IsSteady : (reply : StatusReply) → IsSteady v dish_id (poll_status c reply r rows).1
  unfolding poll_status poll_body reconcile_payload
  poll_status-IsSteady (StatusReply.transport_failure error) =
      late-IsSteady (runtime_exceeded_timeout c.now r) true _ (refl, refl)
  poll_status-IsSteady (StatusReply.refused code detail) =
      post_reconcile-IsSteady false _ (refl, refl)
  poll_status-IsSteady (StatusReply.answered body) =
      elim (Bool-cases (is_terminal_text (status_of (get_or_null "status" body)))) [
        | inl q ↦ rw (poll_status, poll_body, q) (post_reconcile-IsSteady false _ (refl, refl))
        | inr q ↦
            rw (poll_status, poll_body, q)
              (late-IsSteady (runtime_exceeded_timeout c.now r) true _ (refl, refl))
      ]

  poll_claimed-IsSteady : IsSteady v dish_id (poll_claimed c r rows).1
  unfolding poll_claimed reconcile_payload
  poll_claimed-IsSteady = elim (Bool-cases (str_eq (identity r).0 "" || str_eq (identity r).1 "")) [
    | inl q ↦
        rw (poll_claimed, q)
          (early-IsSteady (runtime_exceeded_timeout c.now r) false _ (refl, refl))
    | inr q ↦ rw (poll_claimed, q) (poll_status-IsSteady c.meets)
  ]

pub poll_row-IsSteady :
    (v : View) (dish_id : ℕ) (c : Poll) (r : Row) (rows : List Row)
    → IsSteady v dish_id rows
    → IsSteady v dish_id (poll_row c r rows).1
unfolding poll_row
poll_row-IsSteady v dish_id c r rows h =
    by_reply (poll_claim c.lock c.claimed_now c.req r.id rows) refl
  where
    by_reply :
        (a : Reply)
        → poll_claim c.lock c.claimed_now c.req r.id rows ≡ a
        → IsSteady v dish_id (poll_row c r rows).1
    by_reply (http_error code) e = rw (poll_row, e) h
    by_reply (updated x after) e =
        rw (poll_row, e)
          (poll_claimed-IsSteady v dish_id c x after
            (poll_claim-IsSteady v dish_id c.lock c.claimed_now c.req r.id rows after x e h))

pub poll_group-IsSteady :
    (v : View) (dish_id : ℕ) (polls : Row → Poll) (rs rows : List Row)
    → IsSteady v dish_id rows
    → IsSteady v dish_id (poll_group polls rs rows).1
unfolding poll_group
poll_group-IsSteady v dish_id polls [] rows h = h
poll_group-IsSteady v dish_id polls (r ∷ rs) rows h =
    poll_group-IsSteady v dish_id polls rs (poll_row (polls r) r rows).1
      (poll_row-IsSteady v dish_id (polls r) r rows h)
