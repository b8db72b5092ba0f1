-- ===== src/Dispatch/Seeding.antt =====
-- Which rows a pass of seed_dish_ingredients_for_phase makes, and where.
use poundcake.Prelude.{
  ℕ, suc, true, false, Option, none, some, List, [], ◌∷◌, ◌≡◌, ◌<◌, ◌⊎◌, All, inl, inr, Bool-cases,
  Option-cases, refl, subst, arith, In, if◌then◌else◌,
}
use poundcake.Status.{ExecStatus}
use poundcake.Tables.{Row}
use poundcake.Dispatch.{
  Ingredient, Candidate, Seed, is_wanted, is_finalizer, seed_row, wanted, cons_row, seed_each,
  after_finalizer,
}

-- how a row comes from a candidate of the list
abbrev pub From : Seed → List Candidate → Row → Type 0
From c xs r =
    (x : Candidate) × (i : Ingredient) × In x xs
    × (x.step.ingredient ≡ some i)
    × (is_wanted c x i ≡ true)
    × (r.recipe_ingredient_id ≡ some x.step.id)
    × (r.status ≡ ExecStatus.pending)
    × (r.dish_id ≡ c.dish_id)
    × (is_finalizer x i ≡ true → c.finalizer_depth < r.depth)
    × (is_finalizer x i ≡ false → r.depth ≡ x.step.depth)

cons_row-some :
    (r : Row) (o : Option (List Row)) (rows : List Row)
    → cons_row r o ≡ some rows
    → (rest : List Row) × (o ≡ some rest) × (r ∷ rest ≡ rows)
unfolding cons_row
cons_row-some r none rows h = absurd (let n : Option.none ≡ some rows = h in cc)
cons_row-some r (some rest) rows h = (rest, refl, cc)

module _ (c : Seed) where
  wanted_cases :
      (x : Candidate)
      → (wanted c x ≡ none)
        ⊎ ((i : Ingredient) × (wanted c x ≡ some i)
            × (x.step.ingredient ≡ some i)
            × (is_wanted c x i ≡ true))
  unfolding wanted
  wanted_cases x = elim (Option-cases x.step.ingredient) [
    | inl e ↦ inl (rw (wanted, e) refl)
    | inr (i, e) ↦ elim (Bool-cases (is_wanted c x i)) [
      | inl q ↦ inr (i, rw (wanted, e) (rw q refl), e, q)
      | inr q ↦ inl (rw (wanted, e) (rw q refl))
    ]
  ]

  pub seed_cases :
      (id count : ℕ) (x : Candidate) (xs : List Candidate) (rows : List Row)
      → seed_each c id count (x ∷ xs) ≡ some rows
      → ((wanted c x ≡ none) × (seed_each c id count xs ≡ some rows))
        ⊎ ((i : Ingredient) × (rest : List Row) × (x.step.ingredient ≡ some i)
            × (is_wanted c x i ≡ true)
            × (seed_each c (suc id) (after_finalizer (is_finalizer x i) count) xs ≡ some rest)
            × (seed_row c id count x i ∷ rest ≡ rows))
  unfolding seed_each
  seed_cases id count x xs rows h = elim (wanted_cases x) [
    | inl n ↦ inl (n, rw (seed_each, n) at h)
    | inr (i, w, e, q) ↦ inr (accepted i e q (rw (seed_each, w) at h))
  ]
    where
      accepted :
          (i : Ingredient)
          → x.step.ingredient ≡ some i
          → is_wanted c x i ≡ true
          → (if c.accepts x.step c.order
              then cons_row
                  (seed_row c id count x i)
                  (seed_each c (suc id) (after_finalizer (is_finalizer x i) count) xs)
              else none)
            ≡ some rows
          → (i : Ingredient) × (rest : List Row) × (x.step.ingredient ≡ some i)
            × (is_wanted c x i ≡ true)
            × (seed_each c (suc id) (after_finalizer (is_finalizer x i) count) xs ≡ some rest)
            × (seed_row c id count x i ∷ rest ≡ rows)
      accepted i e q k = elim (Bool-cases (c.accepts x.step c.order)) [
        | inl t ↦
            let (rest, f, g) =
              cons_row-some _ (seed_each c (suc id) (after_finalizer (is_finalizer x i) count) xs)
                rows (rw t at k) in
            (i, rest, e, q, f, g)
        | inr t ↦ absurd (let n : Option.none ≡ some rows = rw t at k in cc)
      ]

  seed_row-From :
      (id count : ℕ) (x : Candidate) (xs : List Candidate) (i : Ingredient)
      → x.step.ingredient ≡ some i
      → is_wanted c x i ≡ true
      → From c (x ∷ xs) (seed_row c id count x i)
  unfolding seed_row
  seed_row-From id count x xs i e q =
      (x, i, inl refl, e, q, refl, refl, refl, λ f. rw f (omega arith), λ f. rw f refl)

  From-later : (x : Candidate) (xs : List Candidate) (r : Row) → From c xs r → From c (x ∷ xs) r
  From-later x xs r (y, i, m, e, q, n, p, d, f, g) = (y, i, inr m, e, q, n, p, d, f, g)

  All-later :
      (x : Candidate) (xs : List Candidate) (rows : List Row)
      → All (From c xs) rows
      → All (From c (x ∷ xs)) rows
  All-later x xs [] h = tt
  All-later x xs (r ∷ rs) h = (From-later x xs r h.0, All-later x xs rs h.1)

  -- Each row that a pass makes comes from a candidate that is wanted: its step is eligible for the
  -- phase and the run condition and had no row, the row is pending and of the dish, and it stands at
  -- the step's depth, or after the finalizers' base if it is a finalizer.
  pub seed-From :
      (id count : ℕ) (xs : List Candidate) (rows : List Row)
      → seed_each c id count xs ≡ some rows
      → All (From c xs) rows
  unfolding seed_each
  seed-From id count [] rows h = subst (All (From c [])) (let e : [] ≡ rows = cc in e) tt
  seed-From id count (x ∷ xs) rows h = elim (seed_cases id count x xs rows h) [
    | inl (n, k) ↦ All-later x xs rows (seed-From id count xs rows k)
    | inr (i, rest, e, q, k, g) ↦ subst (All (From c (x ∷ xs))) g (
      seed_row-From id count x xs i e q,
      All-later x xs rest (seed-From (suc id) (after_finalizer (is_finalizer x i) count) xs rest k),
    )
  ]
