-- ===== src/Dishes/Shown.antt =====
-- Which rows the list of a dish shows.
use poundcake.Prelude.{
  ℕ, true, List, [], ◌∷◌, In, inl, inr, ◌⊎◌, ◌≡◌, refl, keep, keep-In, In-keep, sort_by-In,
  In-sort_by, Bool-cases, arith,
}
use poundcake.Tables.{Row}
use poundcake.Dishes.Listing.{
  View, select_row, select_rows, collapse_records, is_row_of, list_dish_ingredient_status,
  dish_ingredient_identity, same_key,
}

-- no two rows of a dish are the same logical step
unfoldable pub IsSingle : View → ℕ → List Row → Type 0
IsSingle v dish_id rows =
    (a b : Row)
    → In a rows
    → In b rows
    → is_row_of dish_id a ≡ true
    → is_row_of dish_id b ≡ true
    → same_key (dish_ingredient_identity v a) (dish_ingredient_identity v b) ≡ true
    → a ≡ b

module _ (v : View) where
  select_row-In : (r : Row) (xs : List Row) (z : Row) → In z (select_row v r xs) → (z ≡ r) ⊎ In z xs
  unfolding select_row
  select_row-In r [] z (inl e) = inl e
  select_row-In r [] z (inr m) = absurd m
  select_row-In r (x ∷ xs) z m =
      elim (Bool-cases (same_key (dish_ingredient_identity v x) (dish_ingredient_identity v r))) [
        | inl q ↦ elim (Bool-cases (v.outranks r x)) [
          | inl o ↦ let n = rw (q, o) at m in ground arith
          | inr o ↦ let n = rw (q, o) at m in ground arith
        ]
        | inr q ↦ elim (rw q at m) [
          | inl e ↦ inr (inl e)
          | inr n ↦ elim (select_row-In r xs z n) [ inl e ↦ inl e | inr k ↦ inr (inr k) ]
        ]
      ]

  select_rows-In :
      (chosen rows : List Row) (z : Row)
      → In z (select_rows v chosen rows)
      → In z chosen ⊎ In z rows
  unfolding select_rows
  select_rows-In chosen [] z m = inl m
  select_rows-In chosen (r ∷ rs) z m = elim (select_rows-In (select_row v r chosen) rs z m) [
    | inr n ↦ inr (inr n)
    | inl n ↦ elim (select_row-In r chosen z n) [ inl e ↦ inr (inl e) | inr k ↦ inl k ]
  ]

  -- A row that is shown is a row of the dish.
  pub shown-In :
      (dish_id : ℕ) (rows : List Row) (z : Row)
      → In z (list_dish_ingredient_status v dish_id rows)
      → In z rows × (is_row_of dish_id z ≡ true)
  unfolding list_dish_ingredient_status collapse_records
  shown-In dish_id rows z m =
      elim (select_rows-In [] (keep (is_row_of dish_id) rows) z (sort_by-In v.before _ z m)) [
        | inl n ↦ absurd n
        | inr n ↦ keep-In (is_row_of dish_id) rows z n
      ]

  -- Among rows of one key that are one row, all are kept.
  abbrev Agree : Row → List Row → Type 0
  Agree r xs =
      (x : Row)
      → In x xs
      → same_key (dish_ingredient_identity v x) (dish_ingredient_identity v r) ≡ true
      → x ≡ r

  In-select_row :
      (r : Row) (xs : List Row) (z : Row)
      → Agree r xs
      → (z ≡ r) ⊎ In z xs
      → In z (select_row v r xs)
  unfolding select_row
  In-select_row r [] z h m = m
  In-select_row r (x ∷ xs) z h m =
      elim (Bool-cases (same_key (dish_ingredient_identity v x) (dish_ingredient_identity v r))) [
        | inl q ↦
            let e = h x (inl refl) q in
            elim (Bool-cases (v.outranks r x)) [
              | inl o ↦ rw (q, o) (ground arith)
              | inr o ↦ rw (q, o) (ground arith)
            ]
        | inr q ↦ let later = In-select_row r xs z (λ y n. h y (inr n)) in rw q (ground arith)
      ]

  In-select_rows :
      (dish_id : ℕ) (all chosen rows : List Row) (z : Row)
      → IsSingle v dish_id all
      → ((x : Row) → In x chosen ⊎ In x rows → In x all × (is_row_of dish_id x ≡ true))
      → In z chosen ⊎ In z rows
      → In z (select_rows v chosen rows)
  unfolding select_rows IsSingle
  In-select_rows dish_id all chosen [] z h k (inl m) = m
  In-select_rows dish_id all chosen [] z h k (inr m) = absurd m
  In-select_rows dish_id all chosen (r ∷ rs) z h k m =
      let (n, d) = k r (inr (inl refl)) in
      let agree : Agree r chosen = λ x i q. let (j, c) = k x (inl i) in h x r j n c d q in
      In-select_rows dish_id all (select_row v r chosen) rs z h
        (λ x i. elim i [
          | inr j ↦ k x (inr (inr j))
          | inl j ↦ elim (select_row-In r chosen x j) [
            | inl e ↦ k x (inr (inl e))
            | inr i' ↦ k x (inl i')
          ]
        ])
        (elim m [
          | inl i ↦ inl (In-select_row r chosen z agree (inr i))
          | inr (inl e) ↦ inl (In-select_row r chosen z agree (inl e))
          | inr (inr i) ↦ inr i
        ])

  -- When no two rows of a dish are one step, every row of it is shown.
  pub In-shown :
      (dish_id : ℕ) (rows : List Row)
      → IsSingle v dish_id rows
      → (z : Row) → In z rows
      → is_row_of dish_id z ≡ true
      → In z (list_dish_ingredient_status v dish_id rows)
  unfolding list_dish_ingredient_status collapse_records
  In-shown dish_id rows h z m d = In-sort_by v.before _ z (
      In-select_rows dish_id rows [] (keep (is_row_of dish_id) rows) z h
        (λ x i. elim i [ inl n ↦ absurd n | inr n ↦ keep-In (is_row_of dish_id) rows x n ])
        (inr (In-keep (is_row_of dish_id) rows z m d)))
