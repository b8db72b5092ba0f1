-- ===== src/Prelude/Sorting.antt =====
-- `ORDER BY` and `sorted`: a stable insertion sort by a Boolean order, and the first element of a test
-- in a sorted list.
use mathlib.Core.List.{List, [], ◌∷◌}
use mathlib.Core.Logic.{inl, inr, ◌⊎◌}
use mathlib.Core.Path.{refl, sym, ap, subst, ◌≡◌}
use mathlib.Core.Bool.{Bool, true, false}
use native.Mathlib.Omega.{arith}
use poundcake.Prelude.Tests.{Bool-cases, if◌then◌else◌}
use poundcake.Prelude.Lists.{All, All-In, In, length, take}
use Prim.Native.Nat.{ℕ, zero, suc}

module _ {A : Type 0} (lt : A → A → Bool) where
  unfoldable pub insert_by : A → List A → List A
  insert_by x [] = x ∷ []
  insert_by x (y ∷ ys) = let rest = insert_by x ys in if lt y x then y ∷ rest else x ∷ y ∷ ys

  unfoldable pub sort_by : List A → List A
  unfolding insert_by
  sort_by [] = []
  sort_by (x ∷ xs) = insert_by x (sort_by xs)

  insert_by-In : (x : A) (ys : List A) (z : A) → In z (insert_by x ys) → (z ≡ x) ⊎ In z ys
  unfolding insert_by
  insert_by-In x [] z h = h
  insert_by-In x (y ∷ ys) z h = ground (arith, insert_by-In x ys z)

  In-insert_by : (x : A) (ys : List A) (z : A) → (z ≡ x) ⊎ In z ys → In z (insert_by x ys)
  unfolding insert_by
  In-insert_by x [] z h = h
  In-insert_by x (y ∷ ys) z h = ground (arith, In-insert_by x ys z)

  -- Sorting neither adds nor drops an element.
  pub sort_by-In : (xs : List A) (z : A) → In z (sort_by xs) → In z xs
  unfolding sort_by
  sort_by-In [] z h = h
  sort_by-In (x ∷ xs) z h = elim (insert_by-In x _ z h) [
    | inl e ↦ inl e
    | inr m ↦ inr (sort_by-In xs z m)
  ]

  pub In-sort_by : (xs : List A) (z : A) → In z xs → In z (sort_by xs)
  unfolding sort_by
  In-sort_by [] z h = h
  In-sort_by (x ∷ xs) z (inl e) = In-insert_by x _ z (inl e)
  In-sort_by (x ∷ xs) z (inr m) = In-insert_by x _ z (inr (In-sort_by xs z m))

  length-insert_by : (x : A) (ys : List A) → length (insert_by x ys) ≡ suc (length ys)
  unfolding insert_by
  length-insert_by x [] = refl
  length-insert_by x (y ∷ ys) = elim (Bool-cases (lt y x)) [
    | inl e ↦ rw e (ap suc (length-insert_by x ys))
    | inr e ↦ rw e refl
  ]

  pub length-sort_by : (xs : List A) → length (sort_by xs) ≡ length xs
  unfolding sort_by
  length-sort_by [] = refl
  length-sort_by (x ∷ xs) = rw (length-insert_by x (sort_by xs)) (ap suc (length-sort_by xs))

  -- For an order that is asymmetric and whose negation is transitive.
  module _ (asym : (a b : A) → lt a b ≡ true → lt b a ≡ false)
      (not_later : (a b c : A) → lt b a ≡ false → lt c b ≡ false → lt c a ≡ false) where
    abbrev pub Ascends : List A → Type 0
    Ascends [] = Unit
    Ascends (x ∷ xs) = All (λ y. lt y x ≡ false) xs × Ascends xs

    insert_by-All :
        (w x : A) (ys : List A)
        → lt x w ≡ false
        → All (λ y. lt y w ≡ false) ys
        → All (λ y. lt y w ≡ false) (insert_by x ys)
    unfolding insert_by
    insert_by-All w x [] h hs = (h, tt)
    insert_by-All w x (y ∷ ys) h (hy, hs) = elim (Bool-cases (lt y x)) [
      | inl e ↦ rw e (hy, insert_by-All w x ys h hs)
      | inr e ↦ rw e (h, (hy, hs))
    ]

    All-not_later :
        (x y : A) (ys : List A)
        → lt y x ≡ false
        → All (λ z. lt z y ≡ false) ys
        → All (λ z. lt z x ≡ false) ys
    All-not_later x y [] h hs = tt
    All-not_later x y (z ∷ zs) h (hz, hs) = (not_later x y z h hz, All-not_later x y zs h hs)

    insert_by-Ascends : (x : A) (ys : List A) → Ascends ys → Ascends (insert_by x ys)
    unfolding insert_by
    insert_by-Ascends x [] h = (tt, tt)
    insert_by-Ascends x (y ∷ ys) (hy, hs) = elim (Bool-cases (lt y x)) [
      | inl e ↦ rw e (insert_by-All y x ys (asym y x e) hy, insert_by-Ascends x ys hs)
      | inr e ↦ rw e ((e, All-not_later x y ys e hy), (hy, hs))
    ]

    -- A sorted list ascends.
    pub sort_by-Ascends : (xs : List A) → Ascends (sort_by xs)
    unfolding sort_by
    sort_by-Ascends [] = tt
    sort_by-Ascends (x ∷ xs) = insert_by-Ascends x _ (sort_by-Ascends xs)

    -- Of a sorted list, an element that is not among the first n is not before one that is.
    pub take-Ascends :
        (n : ℕ) (xs : List A) (z w : A)
        → Ascends xs
        → In z (take n xs)
        → In w xs
        → In w (take n xs) ⊎ (lt w z ≡ false)
    take-Ascends zero xs z w a i j = absurd i
    take-Ascends (suc n) [] z w a i j = absurd j
    take-Ascends (suc n) (x ∷ xs) z w a i (inl e) = inl (inl e)
    take-Ascends (suc n) (x ∷ xs) z w a (inl e) (inr j) =
        inr (subst (λ y. lt w y ≡ false) (sym e) (All-In (λ y. lt y x ≡ false) xs w a.0 j))
    take-Ascends (suc n) (x ∷ xs) z w a (inr i) (inr j) = elim (take-Ascends n xs z w a.1 i j) [
      | inl m ↦ inl (inr m)
      | inr q ↦ inr q
    ]
