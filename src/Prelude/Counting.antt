-- ===== src/Prelude/Counting.antt =====
-- Counting, and writing the first element of a test, over any list of rows.
use mathlib.Core.List.{List, [], ◌∷◌}
use mathlib.Core.Logic.{inl, inr}
use mathlib.Core.Path.{refl, ◌≡◌}
use mathlib.Core.Bool.{Bool, true}
use mathlib.Core.Option.{none, some}
use native.Mathlib.Omega.{arith}
use poundcake.Prelude.Tests.{Bool-cases, if◌then◌else◌}
use poundcake.Prelude.Lists.{first, any, All}
use Prim.Native.Nat.{ℕ, suc, ◌≤◌}

-- the first element that passes p, written by f
unfoldable pub update_first {ℓ} : {A : Type ℓ} → (A → Bool) → (A → A) → List A → List A
update_first p f [] = []
update_first p f (o ∷ os) = let rest = update_first p f os in if p o then f o ∷ os else o ∷ rest

-- how many elements pass the test
unfoldable pub count_if {ℓ} : {A : Type ℓ} → (A → Bool) → List A → ℕ
count_if q [] = 0
count_if q (o ∷ os) = let rest = count_if q os in if q o then suc rest else rest

module _ {A : Type 0} (p : A → Bool) (f : A → A) where
  pub All-update_first :
      (P : A → Type 0) (os : List A)
      → ((o : A) → p o ≡ true → P o → P (f o))
      → All P os
      → All P (update_first p f os)
  unfolding update_first
  All-update_first P [] h a = tt
  All-update_first P (o ∷ os) h a = elim (Bool-cases (p o)) [
    | inl e ↦ rw e (h o e a.0, a.1)
    | inr e ↦ rw e (a.0, All-update_first P os h a.1)
  ]

  -- Writing one order adds at most one to the count,
  pub count-update_first-suc :
      (q : A → Bool) (os : List A) → count_if q (update_first p f os) ≤ suc (count_if q os)
  unfolding update_first count_if
  count-update_first-suc q [] = omega arith
  count-update_first-suc q (o ∷ os) = let rest = count-update_first-suc q os in ground arith

  -- and nothing where it makes no order pass the test that did not pass it.
  pub count-update_first :
      (q : A → Bool) (os : List A)
      → ((o : A) → p o ≡ true → q (f o) ≡ true → q o ≡ true)
      → count_if q (update_first p f os) ≤ count_if q os
  unfolding update_first count_if
  count-update_first q [] h = omega arith
  count-update_first q (o ∷ os) h =
      let rest = count-update_first q os h in let here = h o in ground arith

  -- The same for the elements of a property P only.
  pub count-update_first-All :
      (P : A → Type 0) (q : A → Bool) (os : List A)
      → ((o : A) → p o ≡ true → P o → q (f o) ≡ true → q o ≡ true)
      → All P os
      → count_if q (update_first p f os) ≤ count_if q os
  unfolding update_first count_if
  count-update_first-All P q [] h a = omega arith
  count-update_first-All P q (o ∷ os) h (b, a) =
      let rest = count-update_first-All P q os h a in
      let here : p o ≡ true → q (f o) ≡ true → q o ≡ true = (λ t. h o t b) in ground arith

  pub any-update_first :
      (os : List A) (o : A)
      → first p os ≡ some o
      → ((x : A) → p x ≡ true → p (f x) ≡ true)
      → any p (update_first p f os) ≡ true
  unfolding update_first
  any-update_first [] o e h = cc
  any-update_first (x ∷ xs) o e h = elim (Bool-cases (p x)) [
    | inl t ↦ rw t (rw (h x t) refl)
    | inr t ↦ rw t (rw t (any-update_first xs o (rw t at e) h))
  ]

pub first-none-count :
    {A : Type 0} (p : A → Bool) (os : List A) → first p os ≡ none → count_if p os ≡ 0
unfolding count_if
first-none-count p [] h = refl
first-none-count p (o ∷ os) h = elim (Bool-cases (p o)) [
  | inl e ↦ absurd (let q = rw e at h in cc)
  | inr e ↦ rw e (first-none-count p os (rw e at h))
]
