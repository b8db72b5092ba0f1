-- ===== src/Timer/Polling.antt =====
-- How a poll of Timer ends its claim.
use poundcake.Prelude.{
  ℕ, String, Bool, true, false, not, Option, none, some, List, ◌≡◌, ◌⊎◌, inl, inr, refl, sym, subst,
  ap, Bool-cases, str_eq, arith, ◌∙◌, eq_iff, if◌then◌else◌, ◌||◌,
}
use poundcake.Prelude.Text.{lower, strip}
use poundcake.Json.{Fields, get_or_null}
use poundcake.Status.{
  ExecStatus, is_terminal, running, ok, show_status, validate_execution_transition,
}
use poundcake.Status.Laws.{validate_iff, normalize-show}
use poundcake.Tables.{Row}
use poundcake.Dishes.{has_expediter_runner_receipt}
use poundcake.Dishes.Routes.{
  updated, find_row, by_row, reconcile, reconcile_row, service_name, wants_receipt, same,
  apply_update, requested_status, settle_row, commit, Upsert, poll_claim, drop_claim, take_claim,
  Reconciler, put_row,
}
use poundcake.Dishes.Claiming.{
  found-id, find-put_same, claim-found_after, release-found, released, polls, claim,
}
use poundcake.Dishes.Reconciling.{settle_row-unclaimed, settle_row-status, settle_row-id}
use poundcake.Timer.{
  Poll, Polled, StatusReply, poll_row, poll_claimed, poll_status, poll_body, release_polled,
  post_reconcile, reconcile_payload, is_terminal_text, runtime_exceeded_timeout, status_of,
  identity, late_outcome, transport_outcome, missing_identity,
}
use Prim.Native.String.{◌++◌ as append}

abbrev pub Names : String → Type 0
Names s = (t : ExecStatus) × (s ≡ show_status t) × (is_terminal t ≡ true)

-- a text of one of the five terminal statuses names it
pub terminal_text : (s : String) → is_terminal_text s ≡ true → Names s
unfolding is_terminal_text show_status is_terminal
terminal_text s h = elim (Bool-cases (str_eq s "succeeded")) [
  | inl q ↦ (ExecStatus.succeeded, (eq_iff s "succeeded").0 q, refl)
  | inr a ↦ elim (Bool-cases (str_eq s "failed")) [
    | inl q ↦ (ExecStatus.failed, (eq_iff s "failed").0 q, refl)
    | inr b ↦ elim (Bool-cases (str_eq s "errored")) [
      | inl q ↦ (ExecStatus.errored, (eq_iff s "errored").0 q, refl)
      | inr d ↦ elim (Bool-cases (str_eq s "timeout")) [
        | inl q ↦ (ExecStatus.timeout, (eq_iff s "timeout").0 q, refl)
        | inr e ↦ elim (Bool-cases (str_eq s "canceled")) [
          | inl q ↦ (ExecStatus.canceled, (eq_iff s "canceled").0 q, refl)
          | inr f ↦ absurd (ground arith)
        ]
      ]
    ]
  ]
]

pub terminal-accepted :
    (t : ExecStatus)
    → is_terminal t ≡ true
    → validate_execution_transition (some (show_status running)) (some (show_status t)) ≡ ok t
unfolding is_terminal
terminal-accepted t h =
    (validate_iff (some (show_status running)) (some (show_status t)) t).1
      (running, normalize-show running, normalize-show t, inr (ground arith))

-- The row has no claim afterwards: it was released while it runs and is not late, or was reconciled
-- to a terminal status.
abbrev pub Ends : Bool → ℕ → Polled × List Row → Type 0
Ends late id (p, after) =
    (s : Row) × (find_row id after ≡ some s)
    × (s.claimed_at ≡ none)
    × (s.claimed_by ≡ none)
    × (((late ≡ false) × (p.reconciled ≡ none) × (s.status ≡ running))
        ⊎ ((p.reconciled ≡ some s) × (is_terminal s.status ≡ true)))

module _ (c : Poll) (x : Row) (rows : List Row) (kept : x.deleted ≡ false) where
  abbrev pub held : Row
  held = take_claim c.claimed_now c.req x

  module _ (found : find_row x.id rows ≡ some held) where
    release-Ends : (late : Bool) → late ≡ false → Ends late x.id (release_polled c held rows)
    unfolding release_polled take_claim drop_claim
    release-Ends late h =
        let freed =
          release-found c.req x.id rows held found ∙ released c.claimed_now c.req rows x kept in
        rw (release_polled, freed)
          (
            drop_claim held,
            find-put_same x.id rows held (drop_claim held) found refl,
            refl,
            refl,
            inl (h, refl, refl),
          )

    module _ (caller : str_eq (lower (strip c.caller)) "timer" ≡ true)
        (own : has_expediter_runner_receipt held ≡ false) where
      reconciles :
          (p : Upsert) (t : ExecStatus)
          → p.status ≡ some (show_status t)
          → is_terminal t ≡ true
          → reconcile Reconciler.timer c.caller c.reconciled_now p x.id rows
            ≡ updated
                (settle_row c.reconciled_now p t held)
                (put_row (settle_row c.reconciled_now p t held) rows)
      unfolding reconcile by_row reconcile_row service_name wants_receipt same apply_update commit
          requested_status take_claim has_expediter_runner_receipt
      reconciles p t e h = rw (found, kept, caller, own, e, terminal-accepted t h) refl

      post-Ends :
          (late cancel : Bool) (p : Upsert) (t : ExecStatus)
          → p.status ≡ some (show_status t)
          → is_terminal t ≡ true
          → Ends late x.id (post_reconcile c cancel p held rows)
      unfolding post_reconcile take_claim
      post-Ends late cancel p t e h =
          let s = settle_row c.reconciled_now p t held in
          let ended = settle_row-status c.reconciled_now p t held ∙ h in
          let (at, by) = settle_row-unclaimed c.reconciled_now p t held ended in
          rw (post_reconcile, reconciles p t e h)
            (
              s,
              find-put_same x.id rows held s found (settle_row-id c.reconciled_now p t held),
              at,
              by,
              inr (refl, ended),
            )

      timeout-Ends :
          (late cancel : Bool) (o : Option Fields) (e : Option String)
          → Ends late x.id
              (post_reconcile c cancel (reconcile_payload c.now held "timeout" o e) held rows)
      unfolding reconcile_payload show_status is_terminal
      timeout-Ends late cancel o e = post-Ends late cancel _ ExecStatus.timeout refl refl

      -- late and reconciled, or released
      late-Ends :
          (late cancel : Bool) (o : Option Fields) (e : Option String)
          → Ends late x.id (
              if late
              then post_reconcile c cancel (reconcile_payload c.now held "timeout" o e) held rows
              else release_polled c held rows)
      late-Ends true cancel o e = timeout-Ends true cancel o e
      late-Ends false cancel o e = release-Ends false refl

      early-Ends :
          (late cancel : Bool) (o : Option Fields) (e : Option String)
          → Ends late x.id (
              if not late
              then release_polled c held rows
              else post_reconcile c cancel (reconcile_payload c.now held "timeout" o e) held rows)
      early-Ends true cancel o e = timeout-Ends true cancel o e
      early-Ends false cancel o e = release-Ends false refl

      body-Ends :
          (body : Fields)
          → Ends (runtime_exceeded_timeout c.now held) x.id (poll_body c body held rows)
      unfolding poll_body reconcile_payload
      body-Ends body =
          elim (Bool-cases (is_terminal_text (status_of (get_or_null "status" body)))) [
            | inl q ↦
                let (t, e, h) = terminal_text (status_of (get_or_null "status" body)) q in
                rw (poll_body, q)
                  (post-Ends (runtime_exceeded_timeout c.now held) false _ t (ap some e) h)
            | inr q ↦
                rw (poll_body, q)
                  (late-Ends (runtime_exceeded_timeout c.now held) true
                    (some (late_outcome (identity held).1)) (some "Service execution timed out"))
          ]

      status-Ends :
          (reply : StatusReply)
          → Ends (runtime_exceeded_timeout c.now held) x.id (poll_status c reply held rows)
      unfolding poll_status reconcile_payload show_status is_terminal
      status-Ends (StatusReply.transport_failure error) =
          late-Ends (runtime_exceeded_timeout c.now held) true
            (some (transport_outcome (identity held).1))
            (some (append "Service execution timed out while polling plugin status: " error))
      status-Ends (StatusReply.refused code detail) =
          post-Ends (runtime_exceeded_timeout c.now held) false _ ExecStatus.errored refl refl
      status-Ends (StatusReply.answered body) = body-Ends body

      claimed-Ends : Ends (runtime_exceeded_timeout c.now held) x.id (poll_claimed c held rows)
      unfolding poll_claimed
      claimed-Ends =
          elim (Bool-cases (str_eq (identity held).0 "" || str_eq (identity held).1 "")) [
            | inl q ↦
                rw (poll_claimed, q)
                  (early-Ends (runtime_exceeded_timeout c.now held) false (some missing_identity)
                    (some "Missing service_type or service_exec_id"))
            | inr q ↦ rw (poll_claimed, q) (status-Ends c.meets)
          ]

-- When Timer's claim of a row succeeds, Timer is who reconciles and the row holds no receipt of the
-- expediter runner, then whatever the provider answers, and also when the request for its status
-- fails, the row has no claim after the poll: it was reconciled to a terminal status, or it was
-- released and still runs, and the latter only if its time was not over.
pub poll_row-Ends :
    (c : Poll) (r claimed : Row) (rows after : List Row)
    → poll_claim c.lock c.claimed_now c.req r.id rows ≡ updated claimed after
    → str_eq (lower (strip c.caller)) "timer" ≡ true
    → has_expediter_runner_receipt claimed ≡ false
    → Ends (runtime_exceeded_timeout c.now claimed) r.id (poll_row c r rows)
unfolding poll_row claim take_claim
poll_row-Ends c r claimed rows after e caller own =
    let (x, t, kept, f) =
      claim-found_after polls c.lock c.claimed_now c.req r.id rows claimed after e in
    let same_id : x.id ≡ r.id = sym (ap (λ z. z.id) t) ∙ found-id r.id after claimed f in
    let found =
      subst (λ n. find_row n after ≡ some (held c x after kept)) (sym same_id) (f ∙ ap some t) in
    let receipt = subst (λ z. has_expediter_runner_receipt z ≡ false) t own in
    let ends = claimed-Ends c x after kept found caller receipt in
    rw (poll_row, e)
      (subst (λ z. Ends (runtime_exceeded_timeout c.now z) r.id (poll_claimed c z after)) (sym t)
        (subst
          (λ n.
            Ends (runtime_exceeded_timeout c.now (held c x after kept)) n
              (poll_claimed c (held c x after kept) after))
          same_id ends))
