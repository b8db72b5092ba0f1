-- ===== src/PreHeat/Retrying.antt =====
-- The attempts come to an end, and the first that meets no lock error decides.
use poundcake.PreHeat.Retry.{
  operational_error, raised, integrity_error, commits, lock_error, Handled, max_attempts,
  loop_exited, Attempt, Call, attempt_once, attempts, process_with_retries,
}
use poundcake.Prelude.{
  zero, ◌∙◌, ap, inr, sym, true, subst, if◌then◌else◌, nat_eq_iff, refl, false, inl, Bool,
  Bool-cases, nat_eq, suc, arith, ◌+◌, ◌≡◌, ◌<◌, List, ◌≤◌, ℕ, ◌≢◌,
}
use poundcake.Tables.{Order}

attempt_once-later :
    (c : Call) (met : Attempt) (orders : List Order) (x y : Handled)
    → met ≢ lock_error
    → attempt_once c met orders x ≡ attempt_once c met orders y
unfolding attempt_once
attempt_once-later c commits orders x y h = refl
attempt_once-later c integrity_error orders x y h = refl
attempt_once-later c lock_error orders x y h = absurd (h refl)
attempt_once-later c operational_error orders x y h = refl

attempts-decided :
    (c : Call) (n left k : ℕ)
    → n ≤ k
    → k < n + left
    → ((m : ℕ) → n ≤ m → m < k → c.meets m ≡ lock_error)
    → c.meets k ≢ lock_error
    → attempts c n left ≡ attempt_once c (c.meets k) (c.sees k) loop_exited
unfolding attempts attempt_once
attempts-decided c n zero k le lt before h = absurd (omega arith)
attempts-decided c n (suc left) k le lt before h = elim (Bool-cases (nat_eq n k)) [
  | inl e ↦
      let same_attempt = (nat_eq_iff n k).0 e in
      subst (λ m. attempts c n (suc left) ≡ attempt_once c (c.meets m) (c.sees m) loop_exited)
        same_attempt
        (attempt_once-later c (c.meets n) (c.sees n) _ _
          (subst (λ m. c.meets m ≢ lock_error) (sym same_attempt) h))
  | inr e ↦
      let locked = before n (omega arith) (ground arith) in
      let more : nat_eq left 0 ≡ false = ground arith in
      ap
        (λ x.
          attempt_once c x (c.sees n)
            (if nat_eq left 0 then raised lock_error else attempts c (suc n) left))
        locked
      ∙ rw more (
          attempts-decided c (suc n) left k (ground arith) (omega arith)
            (λ m lo hi. before m (omega arith) hi) h)
]

-- When the attempt k of three meets no lock error and every attempt before it does, the call ends as
-- that attempt does, on the orders that it sees.
pub process_with_retries-decided :
    (c : Call) (k : ℕ)
    → 1 ≤ k
    → k ≤ max_attempts
    → ((m : ℕ) → 1 ≤ m → m < k → c.meets m ≡ lock_error)
    → c.meets k ≢ lock_error
    → process_with_retries c ≡ attempt_once c (c.meets k) (c.sees k) loop_exited
unfolding process_with_retries
process_with_retries-decided c k le lt before h =
    attempts-decided c 1 max_attempts k le (omega arith) before h

attempt_once-ends :
    (c : Call) (met : Attempt) (orders : List Order) (later : Handled)
    → later ≢ loop_exited
    → attempt_once c met orders later ≢ loop_exited
unfolding attempt_once
attempt_once-ends c commits orders later h = λ e. cc
attempt_once-ends c integrity_error orders later h = λ e. cc
attempt_once-ends c lock_error orders later h = h
attempt_once-ends c operational_error orders later h = λ e. cc

last_or_later-ends :
    (last : Bool) (later : Handled)
    → (last ≡ false → later ≢ loop_exited)
    → (if last then raised lock_error else later) ≢ loop_exited
last_or_later-ends true later h = λ e. cc
last_or_later-ends false later h = h refl

attempts-ends : (c : Call) (n left : ℕ) → attempts c n (suc left) ≢ loop_exited
unfolding attempts
attempts-ends c n zero = attempt_once-ends c (c.meets n) (c.sees n) _ (λ e. cc)
attempts-ends c n (suc left) = attempt_once-ends c (c.meets n) (c.sees n) _ (
    last_or_later-ends (nat_eq (suc left) 0) (attempts c (suc n) (suc left))
      (λ e. attempts-ends c (suc n) left))

-- The loop never runs past its last attempt: a call has a reply or raises.
pub process_with_retries-ends : (c : Call) → process_with_retries c ≢ loop_exited
unfolding process_with_retries
process_with_retries-ends c = attempts-ends c 1 2

-- When all three attempts meet a lock error, the call raises it.
process_with_retries-exhausted :
    (c : Call)
    → c.meets 1 ≡ lock_error
    → c.meets 2 ≡ lock_error
    → c.meets 3 ≡ lock_error
    → process_with_retries c ≡ raised lock_error
unfolding process_with_retries attempts attempt_once
process_with_retries-exhausted c h k l = rw (h, k, l) refl
