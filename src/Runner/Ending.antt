-- ===== src/Runner/Ending.antt =====
-- How a run of the expediter runner ends its claim.
use poundcake.Prelude.{
  ℕ, String, Bool, true, false, none, some, List, [], ◌∷◌, ◌≡◌, ◌≢◌, ◌⊎◌, inl, inr, refl, sym,
  subst, ap, ◌∙◌, Bool-cases, Option-cases, str_eq, eq_refl, eq_iff, one_of, arith, ◌||◌,
}
use poundcake.Prelude.Text.{lower, strip}
use poundcake.Json.{Fields, get_or_null}
use poundcake.Status.{
  ExecStatus, is_terminal, running, ok, show_status, validate_execution_transition, verdict_status,
}
use poundcake.Status.Laws.{validate_iff, normalize-show}
use poundcake.Tables.{Row}
use poundcake.Dishes.{ServicePlugin, has_expediter_runner_receipt}
use poundcake.Dishes.Routes.{
  updated, find_row, by_row, reconcile, reconcile_row, service_name, wants_receipt, same,
  apply_update, requested_status, settle_row, timed_row, copy_fields, judge, time_run, check_sla,
  clear_if_terminal, commit, Upsert, execution_claim, execution_claim_row, drop_claim, take_claim,
  Reconciler, put_row, release_row, claimed_by_request, is_running,
}
use poundcake.Dishes.Claiming.{find-put_same, found-id, claim-Taken, release-found, executes, claim}
use poundcake.Dishes.Reconciling.{settle_row-unclaimed, settle_row-status, settle_row-id}
use poundcake.Timer.{is_terminal_text, status_of}
use poundcake.Timer.Polling.{terminal_text, terminal-accepted}
use poundcake.Runner.{
  ExecuteReply, Run, Executed, observed_status, settle_execution, hand_over, execute_claimed,
  execute_row, error_payload, terminal_payload, nonterminal_payload,
}

-- whether an answer names a status that a running row may take
unfoldable pub names_observed : ExecuteReply → Bool
names_observed (ExecuteReply.answered body) =
    let s = status_of (get_or_null "status" body) in
    is_terminal_text s || one_of s ("" ∷ "dispatched" ∷ "running" ∷ [])
names_observed _ = true

-- The claim is gone: Cook was asked to advance the dish of a row that has ended, or the row runs on
-- and is left to Timer.
abbrev pub EndsRun : ℕ → Executed × List Row → Type 0
EndsRun id (p, rows) =
    (r : Row) × (find_row id rows ≡ some r)
    × (r.claimed_at ≡ none)
    × (r.claimed_by ≡ none)
    × (p.reconciled ≢ none)
    × (((p.advance_asked ≡ true) × (is_terminal r.status ≡ true))
        ⊎ ((p.advance_asked ≡ false) × (r.status ≡ running)))

module _ (c : Run) (x : Row) (rows : List Row) (kept : x.deleted ≡ false)
    (own : has_expediter_runner_receipt x ≡ true)
    (caller : str_eq (lower (strip c.caller)) "expediter-runner" ≡ true) where
  held : Row
  held = take_claim c.claimed_now c.req x

  module _ (found : find_row x.id rows ≡ some held) where
    reconcile-commit :
        (p : Upsert)
        → reconcile Reconciler.expediter_runner c.caller c.reconciled_now p x.id rows
          ≡ commit rows (apply_update c.reconciled_now p held)
    unfolding held reconcile by_row reconcile_row service_name wants_receipt same take_claim
        has_expediter_runner_receipt
    reconcile-commit p = rw (found, kept, caller, own) refl

    applied :
        (p : Upsert) (t : ExecStatus)
        → p.status ≡ some (show_status t)
        → validate_execution_transition (some (show_status running)) (some (show_status t)) ≡ ok t
        → apply_update c.reconciled_now p held ≡ ok (settle_row c.reconciled_now p t held)
    unfolding held apply_update requested_status take_claim
    applied p t e h = rw (e, h) refl

    reconciles :
        (p : Upsert) (t : ExecStatus)
        → p.status ≡ some (show_status t)
        → validate_execution_transition (some (show_status running)) (some (show_status t)) ≡ ok t
        → reconcile Reconciler.expediter_runner c.caller c.reconciled_now p x.id rows
          ≡ updated
              (settle_row c.reconciled_now p t held)
              (put_row (settle_row c.reconciled_now p t held) rows)
    unfolding commit
    reconciles p t e h = reconcile-commit p ∙ ap (commit rows) (applied p t e h)

    settle-EndsRun :
        (p : Upsert) (t : ExecStatus)
        → p.status ≡ some (show_status t)
        → is_terminal t ≡ true
        → EndsRun x.id (settle_execution c p held rows)
    unfolding held settle_execution take_claim
    settle-EndsRun p t e h =
        let s = settle_row c.reconciled_now p t held in
        let ended = settle_row-status c.reconciled_now p t held ∙ h in
        let (at, by) = settle_row-unclaimed c.reconciled_now p t held ended in
        rw (settle_execution, reconciles p t e (terminal-accepted t h))
          (
            s,
            find-put_same x.id rows held s found (settle_row-id c.reconciled_now p t held),
            at,
            by,
            λ q. cc,
            inl (refl, ended),
          )

    running-accepted :
        validate_execution_transition (some (show_status running)) (some (show_status running))
        ≡ ok running
    running-accepted =
        let iff = validate_iff (some (show_status running)) (some (show_status running)) running in
        iff.1 (running, normalize-show running, normalize-show running, inl refl)

    module _ (body : Fields) (status : String) where
      payload : Upsert
      payload = nonterminal_payload held body status

      observed : Row
      observed = settle_row c.reconciled_now payload running held

      observed-running :
          (observed.status ≡ running)
          × (observed.claimed_by ≡ some c.req)
          × (observed.deleted ≡ x.deleted)
      unfolding observed payload nonterminal_payload held take_claim settle_row timed_row
          copy_fields judge time_run check_sla clear_if_terminal drop_claim verdict_status
          is_terminal
      observed-running = (refl, refl, refl)

      release-observed :
          (rs : List Row)
          → release_row c.req rs observed
            ≡ updated (drop_claim observed) (put_row (drop_claim observed) rs)
      unfolding release_row claimed_by_request is_running
      release-observed rs =
          let (r, b, d) = observed-running in rw (r, b, d ∙ kept, eq_refl c.req) refl

      hand_over-EndsRun :
          str_eq (observed_status status) "running" ≡ true
          → EndsRun x.id (hand_over c payload held rows)
      unfolding hand_over observed payload nonterminal_payload held take_claim drop_claim
          show_status
      hand_over-EndsRun h =
          let (r, b, d) = observed-running in
          let named = ap some ((eq_iff (observed_status status) "running").0 h) in
          let after = put_row observed rows in
          let put =
            find-put_same x.id rows held observed found
              (settle_row-id c.reconciled_now payload running held) in
          let freed = release-found c.req x.id after observed put ∙ release-observed after in
          rw (hand_over, reconciles payload running named running-accepted, freed)
            (
              drop_claim observed,
              find-put_same x.id after observed (drop_claim observed) put refl,
              refl,
              refl,
              λ q. cc,
              inr (refl, r),
            )

    observes :
        (s : String)
        → is_terminal_text s ≡ false
        → (is_terminal_text s || one_of s ("" ∷ "dispatched" ∷ "running" ∷ [])) ≡ true
        → str_eq (observed_status s) "running" ≡ true
    unfolding observed_status
    observes s q h = elim (Bool-cases (str_eq s "")) [
      | inl a ↦ rw (observed_status, a) refl
      | inr a ↦ elim (Bool-cases (str_eq s "dispatched")) [
        | inl b ↦ rw (observed_status, a, b) refl
        | inr b ↦ elim (Bool-cases (str_eq s "running")) [
          | inl n ↦ rw (observed_status, a, b) n
          | inr n ↦ absurd (let bad : false ≡ true = rw (q, a, b, n) at h in cc)
        ]
      ]
    ]

    claimed-EndsRun :
        (reply : ExecuteReply)
        → names_observed reply ≡ true
        → EndsRun x.id (execute_claimed c reply held rows)
    unfolding execute_claimed names_observed error_payload terminal_payload show_status is_terminal
        payload
    claimed-EndsRun (ExecuteReply.transport_failure error) h =
        settle-EndsRun _ ExecStatus.errored refl refl
    claimed-EndsRun (ExecuteReply.refused code detail) h =
        settle-EndsRun _ ExecStatus.errored refl refl
    claimed-EndsRun ExecuteReply.not_object h = settle-EndsRun _ ExecStatus.errored refl refl
    claimed-EndsRun (ExecuteReply.answered body) h =
        let status = status_of (get_or_null "status" body) in
        elim (Bool-cases (is_terminal_text status)) [
          | inl q ↦
              let (t, e, k) = terminal_text status q in
              rw (execute_claimed, q) (settle-EndsRun _ t (ap some e) k)
          | inr q ↦ rw (execute_claimed, q) (hand_over-EndsRun body status (observes status q h))
        ]

claim-receipt :
    (plugins : List ServicePlugin) (lock now : ℕ) (req : String) (rows rows' : List Row) (x r : Row)
    → execution_claim_row plugins lock now req rows x ≡ updated r rows'
    → has_expediter_runner_receipt x ≡ true
unfolding execution_claim_row
claim-receipt plugins lock now req rows rows' x r h = ground arith

-- When the expediter runner's claim of a row succeeds, the runner is who reconciles, and the answer
-- to the execution, if it is an object, names a status that a running row may take, then also where
-- the request fails the row is reconciled and has no claim afterwards: it has ended and Cook was
-- asked to advance its dish, or it runs and Cook was not asked.
pub execute_row-EndsRun :
    (c : Run) (r claimed : Row) (rows after : List Row)
    → execution_claim c.plugins c.lock c.claimed_now c.req r.id rows ≡ updated claimed after
    → str_eq (lower (strip c.caller)) "expediter-runner" ≡ true
    → names_observed c.meets ≡ true
    → EndsRun r.id (execute_row c r rows)
unfolding execute_row execution_claim by_row claim take_claim held
execute_row-EndsRun c r claimed rows after e caller named =
    elim (Option-cases (find_row r.id rows)) [
      | inl q ↦ absurd (let bad = rw q at e in cc)
      | inr (x, f) ↦
          let own =
            claim-receipt c.plugins c.lock c.claimed_now c.req rows after x claimed (rw f at e) in
          let (y, g, (t, p, d)) =
            claim-Taken (executes c.plugins) c.lock c.claimed_now c.req r.id rows claimed after e in
          let same_row : y ≡ x = let q : some y ≡ some x = sym g ∙ f in cc in
          let number = found-id r.id rows y g in
          let held_row = take_claim c.claimed_now c.req y in
          let put = find-put_same r.id rows y held_row g refl in
          let found =
            subst (λ n. find_row n after ≡ some held_row) (sym number)
              (subst (λ rs. find_row r.id rs ≡ some held_row) (sym p) put) in
          let receipt = subst (λ z. has_expediter_runner_receipt z ≡ true) (sym same_row) own in
          let ends = claimed-EndsRun c y after d receipt caller found c.meets named in
          rw (execute_row, e)
            (subst (λ z. EndsRun r.id (execute_claimed c c.meets z after)) (sym t)
              (subst (λ n. EndsRun n (execute_claimed c c.meets held_row after)) number ends))
    ]
