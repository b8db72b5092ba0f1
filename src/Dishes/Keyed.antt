-- ===== src/Dishes/Keyed.antt =====
-- The rows under their numbers, through the transactions.
use poundcake.Prelude.{
  some, In, inl, inr, ◌∷◌, [], ◌≡◌, ◌⊎◌, List, ℕ, nat_eq, nat_eq_iff, Bool-cases, sym, ap, subst,
  ◌∙◌, refl, false, arith, String, Option-cases,
}
use poundcake.Tables.{Row}
use poundcake.Status.{ok, Checked, invalid_status, invalid_transition}
use poundcake.Dishes.Reconciling.{SameStep, KeepsStep, apply_update-SameStep}
use poundcake.Dishes.Routes.{
  find_row, put_row, updated, Reconciler, Upsert, reconcile, by_row, commit, reconcile_row,
  apply_update,
}
use poundcake.Dishes.Claiming.{find-put}

-- id is the primary key
unfoldable pub IsKeyed : List Row → Type 0
IsKeyed rows = (r : Row) → In r rows → find_row r.id rows ≡ some r

pub find-put_other :
    (id : ℕ) (rows : List Row) (r : Row)
    → nat_eq r.id id ≡ false
    → find_row id (put_row r rows) ≡ find_row id rows
unfolding find_row put_row
find-put_other id [] r h = refl
find-put_other id (y ∷ ys) r h = elim (Bool-cases (nat_eq y.id r.id)) [
  | inl e ↦
      let q = subst (λ n. nat_eq n id ≡ false) (sym ((nat_eq_iff y.id r.id).0 e)) h in
      rw e (rw h (rw q (find-put_other id ys r h)))
  | inr e ↦ rw e (rw (find-put_other id ys r h) refl)
]

pub put_row-In :
    (rows : List Row) (r y : Row)
    → In y (put_row r rows)
    → (y ≡ r) ⊎ (In y rows × (nat_eq r.id y.id ≡ false))
unfolding put_row
put_row-In [] r y m = absurd m
put_row-In (x ∷ xs) r y (inl e) = elim (Bool-cases (nat_eq x.id r.id)) [
  | inl q ↦ inl (rw q at e)
  | inr q ↦ let same : y ≡ x = rw q at e in rw same (inr (inl refl, ground arith))
]
put_row-In (x ∷ xs) r y (inr m) = elim (put_row-In xs r y m) [
  | inl e ↦ inl e
  | inr (n, h) ↦ inr (inr n, h)
]

pub put_row-IsKeyed :
    (rows : List Row) (x r : Row)
    → IsKeyed rows
    → find_row r.id rows ≡ some x
    → IsKeyed (put_row r rows)
unfolding IsKeyed
put_row-IsKeyed rows x r k f y m = elim (put_row-In rows r y m) [
  | inl e ↦ rw e (find-put rows x r f)
  | inr (n, h) ↦ find-put_other y.id rows r h ∙ k y n
]

commit-put :
    (rows after : List Row) (a : Checked Row) (r : Row)
    → commit rows a ≡ updated r after
    → (a ≡ ok r) × (after ≡ put_row r rows)
unfolding commit
commit-put rows after (ok x) r h = let q : x ≡ r = ground arith in (ap ok q, ground arith)
commit-put rows after (invalid_status t) r h = absurd (ground arith)
commit-put rows after (invalid_transition a b) r h = absurd (ground arith)

reconcile_row-commits :
    (route : Reconciler) (caller : String) (now : ℕ) (p : Upsert) (rows after : List Row)
    (x r : Row)
    → reconcile_row route caller now p rows x ≡ updated r after
    → commit rows (apply_update now p x) ≡ updated r after
unfolding reconcile_row
reconcile_row-commits route caller now p rows after x r h = ground arith

-- A reconciliation that is accepted, of a request that does not set the step, writes one row, under
-- the number that it is asked for.
pub reconcile-put :
    (route : Reconciler) (caller : String) (now : ℕ) (p : Upsert) (id : ℕ) (rows after : List Row)
    (r : Row)
    → KeepsStep p
    → reconcile route caller now p id rows ≡ updated r after
    → (x : Row) × (find_row id rows ≡ some x) × SameStep r x × (after ≡ put_row r rows)
unfolding reconcile by_row
reconcile-put route caller now p id rows after r k h = elim (Option-cases (find_row id rows)) [
  | inl e ↦ absurd (let q = rw e at h in cc)
  | inr (x, e) ↦
      let (a, b) =
        commit-put rows after (apply_update now p x) r
          (reconcile_row-commits route caller now p rows after x r (rw e at h)) in
      (x, e, apply_update-SameStep now p x r k a, b)
]
