-- ===== src/Dishes/Reconciling.antt =====
-- Reconciliation of a service execution: who may reconcile it, and what its status may become.
use poundcake.Status.{
  verdict_status, show_status, invalid_transition, invalid_status, ok, ◌>>=◌, ExecStatus, Checked,
  is_terminal,
}
use poundcake.Dishes.Routes.{
  timed_row, find_row, http_error, expediter_runner, updated, timer, check_sla, Upsert, same,
  time_run, by_row, drop_claim, judge, wants_receipt, apply_update, clear_if_terminal, copy_fields,
  reconcile, reconcile_row, requested_status, settle_row,
}
use poundcake.Prelude.{
  Option-cases, ◌<◌, inr, refl, some, subst, sym, ◌∙◌, ap, arith, inl, none, ◌⊎◌, Bool-cases, List,
  true, Option, String, ◌≡◌, ℕ,
}
use poundcake.Status.Laws.{normalize-show, validate_iff, verdict-terminal, rank}
use poundcake.Tables.{Row}

clear_if_terminal-status : (r : Row) → (clear_if_terminal r).status ≡ r.status
unfolding clear_if_terminal drop_claim
clear_if_terminal-status r = elim (Bool-cases (is_terminal r.status)) [
  | inl e ↦ rw e refl
  | inr e ↦ rw e refl
]

clear_if_terminal-unclaimed :
    (r : Row)
    → is_terminal r.status ≡ true
    → ((clear_if_terminal r).claimed_at ≡ none) × ((clear_if_terminal r).claimed_by ≡ none)
unfolding clear_if_terminal drop_claim
clear_if_terminal-unclaimed r h = rw h (refl, refl)

pub settle_row-status :
    (now : ℕ) (p : Upsert) (s : ExecStatus) (r : Row)
    → is_terminal (settle_row now p s r).status ≡ is_terminal s
unfolding settle_row timed_row copy_fields judge time_run check_sla verdict_status is_terminal
settle_row-status now p s r =
    ap is_terminal (clear_if_terminal-status (timed_row p s r)) ∙ (verdict-terminal s _ _).0

-- Two states of one row: its number, its dish, its step and whether it is deleted never change.
abbrev pub SameStep : Row → Row → Type 0
SameStep a b =
    (a.id ≡ b.id)
    × (a.dish_id ≡ b.dish_id)
    × (a.recipe_ingredient_id ≡ b.recipe_ingredient_id)
    × (a.task_key ≡ b.task_key)
    × (a.deleted ≡ b.deleted)

-- The request does not set what a row's step is known by.
abbrev pub KeepsStep : Upsert → Type 0
KeepsStep p = (p.recipe_ingredient_id ≡ none) × (p.task_key ≡ none)

settle_row-SameStep :
    (now : ℕ) (p : Upsert) (s : ExecStatus) (r : Row)
    → KeepsStep p
    → SameStep (settle_row now p s r) r
unfolding settle_row timed_row copy_fields judge time_run check_sla clear_if_terminal drop_claim
settle_row-SameStep now p s r (k, l) = elim (Bool-cases (is_terminal (timed_row p s r).status)) [
  | inl e ↦ rw (e, k, l) (refl, refl, refl, refl, refl)
  | inr e ↦ rw (e, k, l) (refl, refl, refl, refl, refl)
]

pub settle_row-id :
    (now : ℕ) (p : Upsert) (s : ExecStatus) (r : Row) → (settle_row now p s r).id ≡ r.id
unfolding settle_row timed_row copy_fields judge time_run check_sla clear_if_terminal drop_claim
settle_row-id now p s r = elim (Bool-cases (is_terminal (timed_row p s r).status)) [
  | inl e ↦ rw e refl
  | inr e ↦ rw e refl
]

requested-ok :
    (a : Checked ExecStatus) (f : ExecStatus → Row) (r' : Row)
    → (a >>= λ s. ok (f s)) ≡ ok r'
    → (s : ExecStatus) × (a ≡ ok s) × (r' ≡ f s)
requested-ok (ok s) f r' h = (s, refl, cc)
requested-ok (invalid_status t) f r' h = absurd (ground arith)
requested-ok (invalid_transition a b) f r' h = absurd (ground arith)

terminal-stays :
    (a s : ExecStatus) → is_terminal a ≡ true → (a ≡ s) ⊎ (rank a < rank s) → is_terminal s ≡ true
unfolding is_terminal
terminal-stays a s h p = ground arith

requested_status-terminal :
    (r : Row) (q : Option String) (s : ExecStatus)
    → is_terminal r.status ≡ true
    → requested_status r q ≡ ok s
    → is_terminal s ≡ true
unfolding requested_status
requested_status-terminal r none s h e = ground arith
requested_status-terminal r (some t) s h e =
    let (c, n, m, p) = (validate_iff (some (show_status r.status)) (some t) s).0 e in
    let same_status : r.status ≡ c = ground (arith, normalize-show r.status) in
    terminal-stays c s (subst (λ x. is_terminal x ≡ true) same_status h) p

-- When an execution has ended, an update that is accepted leaves it ended.
pub apply_update-terminal :
    (now : ℕ) (p : Upsert) (r r' : Row)
    → is_terminal r.status ≡ true
    → apply_update now p r ≡ ok r'
    → is_terminal r'.status ≡ true
unfolding apply_update
apply_update-terminal now p r r' h e =
    let (s, q, f) = requested-ok (requested_status r p.status) (λ s. settle_row now p s r) r' e in
    ap (λ x. is_terminal x.status) f
    ∙ settle_row-status now p s r
    ∙ requested_status-terminal r p.status s h q

pub settle_row-unclaimed :
    (now : ℕ) (p : Upsert) (s : ExecStatus) (r : Row)
    → is_terminal (settle_row now p s r).status ≡ true
    → ((settle_row now p s r).claimed_at ≡ none) × ((settle_row now p s r).claimed_by ≡ none)
unfolding settle_row timed_row copy_fields judge time_run check_sla is_terminal
settle_row-unclaimed now p s r h =
    clear_if_terminal-unclaimed (timed_row p s r)
      (ap is_terminal (sym (clear_if_terminal-status (timed_row p s r))) ∙ h)

-- When an update is accepted and the execution has ended after it, the row has no claim.
apply_update-unclaimed :
    (now : ℕ) (p : Upsert) (r r' : Row)
    → apply_update now p r ≡ ok r'
    → is_terminal r'.status ≡ true
    → (r'.claimed_at ≡ none) × (r'.claimed_by ≡ none)
unfolding apply_update
apply_update-unclaimed now p r r' e h =
    let (s, q, f) = requested-ok (requested_status r p.status) (λ s. settle_row now p s r) r' e in
    rw f (settle_row-unclaimed now p s r (subst (λ x. is_terminal x.status ≡ true) f h))

reconcile_row-exclusive :
    (c c' : String) (now now' : ℕ) (p p' : Upsert) (rows rows' : List Row) (x r : Row)
    → reconcile_row timer c now p rows x ≡ updated r rows'
    → (reconcile_row expediter_runner c' now' p' rows x ≡ http_error 403)
      ⊎ (reconcile_row expediter_runner c' now' p' rows x ≡ http_error 409)
unfolding reconcile_row wants_receipt same
reconcile_row-exclusive c c' now now' p p' rows rows' x r h = ground arith

-- When Timer reconciles a row, the expediter runner's reconciliation of the row as it was is
-- refused, with 403 or 409.
reconcile-exclusive :
    (c c' : String) (now now' : ℕ) (p p' : Upsert) (id : ℕ) (rows rows' : List Row) (r : Row)
    → reconcile timer c now p id rows ≡ updated r rows'
    → (reconcile expediter_runner c' now' p' id rows ≡ http_error 403)
      ⊎ (reconcile expediter_runner c' now' p' id rows ≡ http_error 409)
unfolding reconcile by_row
reconcile-exclusive c c' now now' p p' id rows rows' r h = elim (Option-cases (find_row id rows)) [
  | inl e ↦ absurd (let q = rw e at h in cc)
  | inr (x, e) ↦ rw e (reconcile_row-exclusive c c' now now' p p' rows rows' x r (rw e at h))
]

-- What an accepted update that does not set the step leaves is the row that it was given.
pub apply_update-SameStep :
    (now : ℕ) (p : Upsert) (r r' : Row) → KeepsStep p → apply_update now p r ≡ ok r' → SameStep r' r
unfolding apply_update
apply_update-SameStep now p r r' k e =
    let (s, q, f) = requested-ok (requested_status r p.status) (λ s. settle_row now p s r) r' e in
    subst (λ x. SameStep x r) (sym f) (settle_row-SameStep now p s r k)
