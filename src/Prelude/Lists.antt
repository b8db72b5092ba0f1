-- ===== src/Prelude/Lists.antt =====
-- Python's list operations that the components share, over Boolean tests.
use mathlib.Core.List.{map, List, [], ◌∷◌}
use mathlib.Core.Logic.{inl, inr, ◌⊎◌}
use mathlib.Core.Path.{refl, ap, sym, subst, ◌≡◌}
use native.Mathlib.Omega.{arith}
use poundcake.Prelude.Tests.{Bool-cases, if◌then◌else◌}
use Prim.Native.Nat.{ℕ, zero, suc, ◌≤◌}
use mathlib.Core.Bool.{Bool, true, false, ◌&&◌, ◌||◌}
use mathlib.Core.Option.{Option, none, some}

module _ {ℓ} {A : Type ℓ} where
  abbrev pub length : List A → ℕ
  length [] = 0
  length (x ∷ xs) = suc (length xs)

  -- any(p(x) for x in xs), all(…), [x for x in xs if p(x)], next((x for x in xs if p(x)), None)
  abbrev pub any : (A → Bool) → List A → Bool
  any p [] = false
  any p (x ∷ xs) = p x || any p xs

  abbrev pub all : (A → Bool) → List A → Bool
  all p [] = true
  all p (x ∷ xs) = p x && all p xs

  abbrev pub keep : (A → Bool) → List A → List A
  keep p [] = []
  keep p (x ∷ xs) = let rest = keep p xs in if p x then x ∷ rest else rest

  abbrev pub first : (A → Bool) → List A → Option A
  first p [] = none
  first p (x ∷ xs) = let rest = first p xs in if p x then some x else rest

  abbrev pub head : List A → Option A
  head [] = none
  head (x ∷ xs) = some x

  abbrev pub take : ℕ → List A → List A
  take zero xs = []
  take (suc n) [] = []
  take (suc n) (x ∷ xs) = x ∷ take n xs

  abbrev pub drop : ℕ → List A → List A
  drop zero xs = xs
  drop (suc n) [] = []
  drop (suc n) (x ∷ xs) = drop n xs

-- Membership and universal statements as families that compute.
module _ {A : Type 0} where
  abbrev pub In : A → List A → Type 0
  In a [] = ⊥
  In a (x ∷ xs) = (a ≡ x) ⊎ In a xs

module _ {ℓ κ} {A : Type ℓ} where
  abbrev pub All : (A → Type κ) → List A → Type κ
  All P [] = Unit
  All P (x ∷ xs) = P x × All P xs

pub All-In : {A : Type 0} (P : A → Type 0) (xs : List A) (z : A) → All P xs → In z xs → P z
All-In P (x ∷ xs) z h (inl e) = subst P (sym e) h.0
All-In P (x ∷ xs) z h (inr m) = All-In P xs z h.1 m
All-In P [] z h m = absurd m

pub take-In : {A : Type 0} (n : ℕ) (xs : List A) (z : A) → In z (take n xs) → In z xs
take-In zero xs z m = absurd m
take-In (suc n) [] z m = absurd m
take-In (suc n) (x ∷ xs) z (inl e) = inl e
take-In (suc n) (x ∷ xs) z (inr m) = inr (take-In n xs z m)

pub length-take : {A : Type 0} (n : ℕ) (xs : List A) → length (take n xs) ≤ n
length-take zero xs = omega arith
length-take (suc n) [] = omega arith
length-take (suc n) (x ∷ xs) = let later = length-take n xs in omega arith

pub length-map : {A B : Type 0} (f : A → B) (xs : List A) → length (map f xs) ≡ length xs
length-map f [] = refl
length-map f (x ∷ xs) = ap suc (length-map f xs)

module _ {A B : Type 0} (f : A → B) where
  pub map-In : (xs : List A) (x : A) → In x xs → In (f x) (map f xs)
  map-In [] x m = absurd m
  map-In (y ∷ ys) x (inl e) = inl (ap f e)
  map-In (y ∷ ys) x (inr m) = inr (map-In ys x m)

  pub In-map : (xs : List A) (y : B) → In y (map f xs) → (x : A) × In x xs × (y ≡ f x)
  In-map [] y m = absurd m
  In-map (x ∷ xs) y (inl e) = (x, inl refl, e)
  In-map (x ∷ xs) y (inr m) = let (z, n, e) = In-map xs y m in (z, inr n, e)

-- A test that no element passes, and one that some element passes.
module _ {A : Type 0} (p : A → Bool) where
  pub any-false : (xs : List A) (x : A) → any p xs ≡ false → In x xs → p x ≡ false
  any-false [] x h m = absurd m
  any-false (y ∷ ys) x h (inl e) = rw e (ground arith)
  any-false (y ∷ ys) x h (inr m) = any-false ys x (ground arith) m

  pub none-any : (xs : List A) → ((x : A) → In x xs → p x ≡ false) → any p xs ≡ false
  none-any [] h = refl
  none-any (y ∷ ys) h = rw (h y (inl refl)) (none-any ys (λ x m. h x (inr m)))

  pub any-true : (xs : List A) (x : A) → In x xs → p x ≡ true → any p xs ≡ true
  any-true [] x m h = absurd m
  any-true (y ∷ ys) x (inl e) h = rw (← e) (rw h refl)
  any-true (y ∷ ys) x (inr m) h = let rest = any-true ys x m h in ground arith

  pub In-keep : (xs : List A) (x : A) → In x xs → p x ≡ true → In x (keep p xs)
  In-keep [] x m h = absurd m
  In-keep (y ∷ ys) x (inl e) h = ground arith
  In-keep (y ∷ ys) x (inr m) h = let rest = In-keep ys x m h in ground arith

  pub keep-In : (xs : List A) (x : A) → In x (keep p xs) → In x xs × (p x ≡ true)
  keep-In [] x m = absurd m
  keep-In (y ∷ ys) x m = elim (Bool-cases (p y)) [
    | inl h ↦ kept h (rw h at m) (λ n. keep-In ys x n)
    | inr h ↦ let (n, q) = keep-In ys x (rw h at m) in (inr n, q)
  ]
    where
      kept :
          p y ≡ true
          → (x ≡ y) ⊎ In x (keep p ys)
          → (In x (keep p ys) → In x ys × (p x ≡ true))
          → In x (y ∷ ys) × (p x ≡ true)
      kept h (inl e) ih = (inl e, rw e h)
      kept h (inr n) ih = let (k, q) = ih n in (inr k, q)
