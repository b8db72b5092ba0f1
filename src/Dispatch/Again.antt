-- ===== src/Dispatch/Again.antt =====
-- A second pass over the same steps makes no row.
use poundcake.Dispatch.{
  should_seed_route_step, is_run_condition_eligible, is_phase_eligible, is_comms, Ingredient,
  Candidate, Seed, is_wanted, is_finalizer, seed_row, wanted, seed_each, after_finalizer,
}
use poundcake.Prelude.{
  ◌&&◌, ℕ, suc, Bool, true, false, not, none, some, nat_eq, List, [], ◌∷◌, ◌++◌, ◌≡◌, ◌⊎◌, inl, inr,
  Bool-cases, Option-cases, refl, subst, sym, ap, any, arith, In, ◌||◌, nat_eq_refl,
}
use poundcake.Tables.{Row}
use poundcake.Dispatch.Seeding.{seed_cases}
use poundcake.Dispatch.Transaction.{step_id, step_ids}

any-append :
    {A : Type 0} (p : A → Bool) (xs ys : List A) → any p (xs ++ ys) ≡ (any p xs || any p ys)
any-append p [] ys = refl
any-append p (x ∷ xs) ys = let rest = any-append p xs ys in ground arith

own_step_id :
    (r : Row) (n : ℕ) → r.recipe_ingredient_id ≡ some n → any (nat_eq n) (step_id r) ≡ true
unfolding step_id
own_step_id r n h = rw (step_id, h) (rw (nat_eq_refl n) refl)

seeded_id :
    (c : Seed) (y x : Candidate) (a : Ingredient) (id count : ℕ)
    → x ≡ y
    → (seed_row c id count y a).recipe_ingredient_id ≡ some x.step.id
unfolding seed_row
seeded_id c y x a id count s = ap (λ (z : Candidate). some z.step.id) (sym s)

-- three tests that a pass makes of a candidate, and the others
conj_false :
    (a b d e f g : Bool)
    → (f ≡ true) ⊎ ((a && b && d && not e && g) ≡ false)
    → (a && b && d && not (e || f) && g) ≡ false
conj_false a b d e f g h = ground arith

has_step_id :
    (rows : List Row) (r : Row) (n : ℕ)
    → In r rows
    → r.recipe_ingredient_id ≡ some n
    → any (nat_eq n) (step_ids rows) ≡ true
unfolding step_ids
has_step_id [] r n m h = absurd m
has_step_id (x ∷ xs) r n (inl e) h =
    rw (any-append (nat_eq n) (step_id x) (step_ids xs)) (
      let here = own_step_id x n (subst (λ y. y.recipe_ingredient_id ≡ some n) e h) in ground arith)
has_step_id (x ∷ xs) r n (inr m) h =
    rw (any-append (nat_eq n) (step_id x) (step_ids xs))
      (let later = has_step_id xs r n m h in ground arith)

module _ (c : Seed) where
  wanted-some :
      (x : Candidate) (i : Ingredient)
      → x.step.ingredient ≡ some i
      → is_wanted c x i ≡ true
      → wanted c x ≡ some i
  unfolding wanted
  wanted-some x i e q = rw (wanted, e) (rw q refl)

  wanted-none :
      (x : Candidate)
      → ((i : Ingredient) → x.step.ingredient ≡ some i → is_wanted c x i ≡ false)
      → wanted c x ≡ none
  unfolding wanted
  wanted-none x h = elim (Option-cases x.step.ingredient) [
    | inl e ↦ rw (wanted, e) refl
    | inr (i, e) ↦ rw (wanted, e) (rw (h i e) refl)
  ]

  seed-none :
      (id count : ℕ) (xs : List Candidate)
      → ((x : Candidate) → In x xs → wanted c x ≡ none)
      → seed_each c id count xs ≡ some []
  unfolding seed_each
  seed-none id count [] h = refl
  seed-none id count (x ∷ xs) h =
      rw (seed_each, h x (inl refl)) (seed-none id count xs (λ y m. h y (inr m)))

  -- A wanted candidate has a row.
  seed-has :
      (id count : ℕ) (xs : List Candidate) (rows : List Row) (x : Candidate) (i : Ingredient)
      → seed_each c id count xs ≡ some rows
      → In x xs
      → x.step.ingredient ≡ some i
      → is_wanted c x i ≡ true
      → (r : Row) × In r rows × (r.recipe_ingredient_id ≡ some x.step.id)
  seed-has id count [] rows x i h m e q = absurd m
  seed-has id count (y ∷ ys) rows x i h m e q = elim (seed_cases c id count y ys rows h) [
    | inl (n, k) ↦ elim m [
      | inl s ↦
          absurd
            (let w = wanted-some x i e q in let v = subst (λ z. wanted c z ≡ none) (sym s) n in cc)
      | inr j ↦ seed-has id count ys rows x i k j e q
    ]
    | inr (a, rest, f, g, k, l) ↦ elim m [
      | inl s ↦ (
        seed_row c id count y a,
        subst (In (seed_row c id count y a)) l (inl refl),
        seeded_id c y x a id count s,
      )
      | inr j ↦
          let (r, o, t) =
            seed-has (suc id) (after_finalizer (is_finalizer y a) count) ys rest x i k j e q in
          (r, subst (In r) l (inr o), t)
    ]
  ]

module _ (c : Seed) where
  abbrev again : List Row → Seed
  again rows = record c { existing = c.existing ++ step_ids rows }

  is_wanted-again :
      (rows : List Row) (x : Candidate) (i : Ingredient)
      → (any (nat_eq x.step.id) (step_ids rows) ≡ true) ⊎ (is_wanted c x i ≡ false)
      → is_wanted (again rows) x i ≡ false
  unfolding is_wanted
  is_wanted-again rows x i h = rw (any-append (nat_eq x.step.id) c.existing (step_ids rows)) (
      conj_false (is_phase_eligible x.step.run_phase c.phase)
        (is_run_condition_eligible x.step c.phase c.order) (should_seed_route_step x.step i c.order)
        (any (nat_eq x.step.id) c.existing) (any (nat_eq x.step.id) (step_ids rows))
        (not (x.inherited && is_comms i && c.has_communication_step)) h)

  -- After the rows of a pass were added, another pass over the same steps makes no row, whatever
  -- numbers it starts from.
  pub seed-again :
      (id count id' count' : ℕ) (xs : List Candidate) (rows : List Row)
      → seed_each c id count xs ≡ some rows
      → seed_each (record c { existing = c.existing ++ step_ids rows }) id' count' xs ≡ some []
  seed-again id count id' count' xs rows h = seed-none (again rows) id' count' xs (λ x m.
      wanted-none (again rows) x (λ i e.
        is_wanted-again rows x i (elim (Bool-cases (is_wanted c x i)) [
          | inr q ↦ inr q
          | inl q ↦
              let (r, n, k) = seed-has c id count xs rows x i h m e q in
              inl (has_step_id rows r x.step.id n k)
        ])))
