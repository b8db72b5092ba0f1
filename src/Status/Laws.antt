-- ===== src/Status/Laws.antt =====
-- The execution state machine of api/plugins/state.py against an order on the statuses.
use poundcake.Prelude.{
  String, inr, Option, inl, ℕ, ◌<◌, ◌≡◌, refl, ◌↔◌, ◌⊎◌, true, some, arith, Bool-cases, ap, subst,
}
use poundcake.Status.{
  Value, ◌>>=◌, check_transition, validate_execution_transition, verdict_status, is_terminal,
  Checked, invalid_status, invalid_transition, ExecStatus, pending, dispatched, running, succeeded,
  failed, errored, timeout, canceled, allowed, show_status, normalize_execution_status, ok,
}

-- How far an execution has come.
abbrev pub rank : ExecStatus → ℕ
rank pending = 0
rank dispatched = 1
rank running = 2
rank _ = 3

-- Reading back the stored text of a status gives the status.
pub normalize-show : (s : ExecStatus) → normalize_execution_status (some (show_status s)) ≡ ok s
unfolding normalize_execution_status show_status
normalize-show pending = refl
normalize-show dispatched = refl
normalize-show running = refl
normalize-show succeeded = refl
normalize-show failed = refl
normalize-show errored = refl
normalize-show timeout = refl
normalize-show canceled = refl

abbrev StaysOrAdvances : ExecStatus → ExecStatus → Type 0
StaysOrAdvances c r = (c ≡ r) ⊎ (rank c < rank r)

allowed-rank : (c r : ExecStatus) → (allowed c r ≡ true) ↔ StaysOrAdvances c r
unfolding allowed
allowed-rank pending r = ground arith
allowed-rank _ r = ground arith

check_transition-ok :
    (c r s : ExecStatus) → check_transition c r ≡ ok s → (r ≡ s) × StaysOrAdvances c s
unfolding check_transition
check_transition-ok c r s h = elim (Bool-cases (allowed c r)) [
  | inl yes_ ↦
      let e : r ≡ s = ground arith in (e, subst (StaysOrAdvances c) e ((allowed-rank c r).0 yes_))
  | inr no_ ↦ absurd (ground arith)
]

check_transition-advances : (c r : ExecStatus) → StaysOrAdvances c r → check_transition c r ≡ ok r
unfolding check_transition
check_transition-advances c r h = rw ((allowed-rank c r).1 h)

validated_parts :
    (a b : Checked ExecStatus) (s : ExecStatus)
    → (a >>= λ c. b >>= λ r. check_transition c r) ≡ ok s
    → (c : ExecStatus) × (a ≡ ok c) × (b ≡ ok s) × StaysOrAdvances c s
validated_parts (ok c) (ok r) s h =
    let (e, p) = check_transition-ok c r s h in (c, refl, ap ok e, p)
validated_parts (ok c) (invalid_status t) s h = absurd (ground arith)
validated_parts (ok c) (invalid_transition x y) s h = absurd (ground arith)
validated_parts (invalid_status t) b s h = absurd (ground arith)
validated_parts (invalid_transition x y) b s h = absurd (ground arith)

-- A transition is accepted, with the status `s`, exactly if both texts name statuses, the requested
-- one being `s`, and `s` is the current status or comes later in the order pending, dispatched,
-- running, terminal.
pub validate_iff :
    (current requested : Option String) (s : ExecStatus)
    → (validate_execution_transition current requested ≡ ok s) ↔ (
        (c : ExecStatus) × (normalize_execution_status current ≡ ok c)
        × (normalize_execution_status requested ≡ ok s)
        × StaysOrAdvances c s)
unfolding validate_execution_transition
validate_iff current requested s = (
  validated_parts (normalize_execution_status current) (normalize_execution_status requested) s,
  λ (c, p, q, h). rw (p, q) (check_transition-advances c s h),
)

-- The verdict on an outcome keeps a terminal status terminal, leaves a status that is not terminal
-- as it is, and leaves `canceled` as it is.
pub verdict-terminal :
    (s : ExecStatus) (expected actual : Option Value)
    → (is_terminal (verdict_status s expected actual) ≡ is_terminal s)
      × ((is_terminal s ≡ true) ⊎ (verdict_status s expected actual ≡ s))
      × (verdict_status canceled expected actual ≡ canceled)
unfolding verdict_status
verdict-terminal s expected actual = (ground arith, ground arith, refl)
