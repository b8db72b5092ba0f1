-- ===== src/Cook/Claiming.antt =====
-- The claim of pending rows in `_advance_dish`. Concurrent calls interleave their claims, each one a
-- single UPDATE, so the laws hold for every sequence of claims.
use poundcake.Prelude.{
  ◌∙◌, inr, nat_eq_iff, sym, subst, inl, Bool-cases, true, Bool, refl, ◌≤◌, [], arith, suc, false,
  nat_eq, if◌then◌else◌, ◌∷◌, ◌≡◌, List, ℕ,
}
use poundcake.Tables.{Row}
use poundcake.Cook.Claim.{is_claimable, mark_running, claim_row, was_claimed, claim_rows, Kitchen}

unfoldable pub count : ℕ → List ℕ → ℕ
count n [] = 0
count n (m ∷ ms) = let rest = count n ms in if nat_eq m n then suc rest else rest

-- A claim writes only rows that it may claim, and makes them unclaimable.
claimed-not-claimable :
    (now i j : ℕ) (r : Row)
    → is_claimable i r ≡ false
    → is_claimable i (if is_claimable j r then mark_running now r else r) ≡ false
unfolding is_claimable mark_running
claimed-not-claimable now i j r h = ground arith

claimed_self :
    (now i : ℕ) (r : Row)
    → is_claimable i (if is_claimable i r then mark_running now r else r) ≡ false
unfolding is_claimable mark_running
claimed_self now i r = ground arith

claim_row-keeps_unclaimable :
    (now i j : ℕ) (rows : List Row)
    → was_claimed i rows ≡ false
    → was_claimed i (claim_row now j rows) ≡ false
unfolding was_claimed claim_row
claim_row-keeps_unclaimable now i j [] h = refl
claim_row-keeps_unclaimable now i j (r ∷ rs) h =
    let head = claimed-not-claimable now i j r (ground arith) in
    rw head (claim_row-keeps_unclaimable now i j rs (ground arith))

claim_row_once : (now i : ℕ) (rows : List Row) → was_claimed i (claim_row now i rows) ≡ false
unfolding was_claimed claim_row
claim_row_once now i [] = refl
claim_row_once now i (r ∷ rs) = rw (claimed_self now i r) (claim_row_once now i rs)

count-cons-other :
    (c : Bool) (i j : ℕ) (d : List ℕ)
    → nat_eq j i ≡ false
    → count i (if c then j ∷ d else d) ≡ count i d
unfolding count
count-cons-other true i j d h = ground arith
count-cons-other false i j d h = refl

-- A claim of the row i that found none leaves none to claim, whatever comes after.
unclaimable-count :
    (ready : List (ℕ × ℕ)) (k : Kitchen) (i : ℕ)
    → was_claimed i k.rows ≡ false
    → count i (claim_rows ready k).1 ≡ 0
unfolding claim_rows count
unclaimable-count [] k i h = refl
unclaimable-count ((j, now) ∷ ready) k i h = elim (Bool-cases (nat_eq j i)) [
  | inl e ↦
      rw (subst (λ n. was_claimed n k.rows ≡ false) (sym ((nat_eq_iff j i).0 e)) h)
        (unclaimable-count ready _ i (claim_row-keeps_unclaimable now i j k.rows h))
  | inr e ↦
      count-cons-other (was_claimed j k.rows) i j _ e
      ∙ unclaimable-count ready _ i (claim_row-keeps_unclaimable now i j k.rows h)
]

count-cons-le_one :
    (c : Bool) (i j : ℕ) (d : List ℕ) → count i d ≡ 0 → count i (if c then j ∷ d else d) ≤ 1
unfolding count
count-cons-le_one true i j d h = ground arith
count-cons-le_one false i j d h = omega arith

count-nil : (i : ℕ) → count i [] ≤ 1
unfolding count
count-nil i = omega arith

-- Whatever rows are claimed, and in whatever order, each row is dispatched at most once.
pub count-dispatched-le-one :
    (ready : List (ℕ × ℕ)) (k : Kitchen) (i : ℕ) → count i (claim_rows ready k).1 ≤ 1
unfolding claim_rows
count-dispatched-le-one [] k i = count-nil i
count-dispatched-le-one ((j, now) ∷ ready) k i = elim (Bool-cases (nat_eq j i)) [
  | inl e ↦
      let none_left =
        subst (λ n. was_claimed n (claim_row now j k.rows) ≡ false) ((nat_eq_iff j i).0 e)
          (claim_row_once now j k.rows) in
      count-cons-le_one (was_claimed j k.rows) i j _ (unclaimable-count ready _ i none_left)
  | inr e ↦ rw (count-cons-other (was_claimed j k.rows) i j _ e) (count-dispatched-le-one ready _ i)
]
