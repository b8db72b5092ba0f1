-- ===== src/Segments/Sorting.antt =====
-- The order of `sort_ingredients_for_execution`: it keeps the items, and the pairs of depth and
-- parallel group never fall.
use poundcake.Prelude.{
  ◌<◌, ◌≤◌, ◌≡◌, ◌↔◌, ◌⊎◌, inl, inr, true, false, List, [], ◌∷◌, arith, In, All, Bool-cases,
}
use poundcake.Segments.{
  Item, RecipeStep, SortKey, sort_key, key_lt, insert, sort_ingredients_for_execution,
}

abbrev pub KeyLe : SortKey → SortKey → Type 0
KeyLe a b = (a.depth < b.depth) ⊎ ((a.depth ≡ b.depth) × (a.parallel_group ≤ b.parallel_group))

key_lt-KeyLe : (a b : SortKey) → key_lt a b ≡ true → KeyLe a b
unfolding key_lt
key_lt-KeyLe a b h = ground arith

key_lt-false-KeyLe : (a b : SortKey) → key_lt a b ≡ false → KeyLe b a
unfolding key_lt
key_lt-false-KeyLe a b h = ground arith

KeyLe-trans : (a b c : SortKey) → KeyLe a b → KeyLe b c → KeyLe a c
KeyLe-trans a b c p q = ground arith

module _ (recipe : List RecipeStep) where
  abbrev pub Before : Item → Item → Type 0
  Before x y = KeyLe (sort_key recipe x) (sort_key recipe y)

  abbrev pub Ascending : List Item → Type 0
  Ascending [] = Unit
  Ascending (x ∷ xs) = All (Before x) xs × Ascending xs

  In-insert : (x : Item) (ys : List Item) (z : Item) → In z (insert recipe x ys) → (z ≡ x) ⊎ In z ys
  unfolding insert
  In-insert x [] z h = h
  In-insert x (y ∷ ys) z h = ground (arith, In-insert x ys z)

  insert-In : (x : Item) (ys : List Item) (z : Item) → (z ≡ x) ⊎ In z ys → In z (insert recipe x ys)
  unfolding insert
  insert-In x [] z h = h
  insert-In x (y ∷ ys) z h = ground (arith, insert-In x ys z)

  In-of_sort :
      (xs : List Item) (z : Item) → In z (sort_ingredients_for_execution recipe xs) → In z xs
  unfolding sort_ingredients_for_execution
  In-of_sort [] z h = h
  In-of_sort (x ∷ xs) z h = elim (In-insert x _ z h) [
    | inl e ↦ inl e
    | inr m ↦ inr (In-of_sort xs z m)
  ]

  sort_of_In :
      (xs : List Item) (z : Item) → In z xs → In z (sort_ingredients_for_execution recipe xs)
  unfolding sort_ingredients_for_execution
  sort_of_In [] z h = h
  sort_of_In (x ∷ xs) z (inl e) = insert-In x _ z (inl e)
  sort_of_In (x ∷ xs) z (inr m) = insert-In x _ z (inr (sort_of_In xs z m))

  -- Sorting neither drops nor adds an item.
  pub sort-In :
      (xs : List Item) (z : Item) → In z (sort_ingredients_for_execution recipe xs) ↔ In z xs
  sort-In xs z = (In-of_sort xs z, sort_of_In xs z)

  insert-All :
      (w x : Item) (ys : List Item)
      → Before w x
      → All (Before w) ys
      → All (Before w) (insert recipe x ys)
  unfolding insert
  insert-All w x [] h hs = (h, tt)
  insert-All w x (y ∷ ys) h (hy, hs) =
      elim (Bool-cases (key_lt (sort_key recipe y) (sort_key recipe x))) [
        | inl later ↦ rw later (hy, insert-All w x ys h hs)
        | inr here ↦ rw here (h, (hy, hs))
      ]

  All-Before-trans :
      (x y : Item) (ys : List Item) → Before x y → All (Before y) ys → All (Before x) ys
  All-Before-trans x y [] h hs = tt
  All-Before-trans x y (z ∷ zs) h (hz, hs) = (
    KeyLe-trans (sort_key recipe x) (sort_key recipe y) (sort_key recipe z) h hz,
    All-Before-trans x y zs h hs,
  )

  insert-Ascending : (x : Item) (ys : List Item) → Ascending ys → Ascending (insert recipe x ys)
  unfolding insert
  insert-Ascending x [] h = (tt, tt)
  insert-Ascending x (y ∷ ys) (hy, hs) =
      elim (Bool-cases (key_lt (sort_key recipe y) (sort_key recipe x))) [
        | inl later ↦
            rw later (insert-All y x ys (key_lt-KeyLe _ _ later) hy, insert-Ascending x ys hs)
        | inr here ↦
            let p = key_lt-false-KeyLe (sort_key recipe y) (sort_key recipe x) here in
            rw here ((p, All-Before-trans x y ys p hy), (hy, hs))
      ]

  pub sort-Ascending : (xs : List Item) → Ascending (sort_ingredients_for_execution recipe xs)
  unfolding sort_ingredients_for_execution
  sort-Ascending [] = tt
  sort-Ascending (x ∷ xs) = insert-Ascending x _ (sort-Ascending xs)
