-- ===== src/Dispatch/Placing.antt =====
-- The finalizers that a dish inherits stand after every other row.
use poundcake.Prelude.{
  ℕ, true, false, some, List, [], ◌∷◌, ◌≡◌, ◌≤◌, ◌<◌, All, inl, inr, Bool-cases, Option-cases, refl,
  subst, sym, ap, arith, In, max, ◌++◌, In-map, ◌⊎◌,
}
use poundcake.Tables.{Row}
use poundcake.Status.{Phase}
use poundcake.Dispatch.{
  Step, Ingredient, Candidate, Seed, is_wanted, is_finalizer, seed_each, candidates, rows_bucket,
  steps_bucket, finalizer_base_bucket, is_phase_eligible,
}
use poundcake.Dispatch.Seeding.{From, seed-From}

rows_bucket-max : (rows : List Row) (r : Row) → In r rows → r.depth ≤ (rows_bucket rows).0
unfolding rows_bucket
rows_bucket-max [] r m = absurd m
rows_bucket-max (x ∷ xs) r (inl e) =
    subst (λ (y : Row). y.depth ≤ max x.depth (rows_bucket xs).0) (sym e) (omega arith)
rows_bucket-max (x ∷ xs) r (inr m) = let later = rows_bucket-max xs r m in omega arith

steps_bucket-first :
    (phase : Phase) (s : Step) (i : Ingredient) (xs : List Step)
    → s.ingredient ≡ some i
    → is_phase_eligible s.run_phase phase ≡ true
    → s.depth ≤ (steps_bucket phase (s ∷ xs)).0
unfolding steps_bucket
steps_bucket-first phase s i xs e h = rw (steps_bucket, e) (rw h (omega arith))

steps_bucket-max :
    (phase : Phase) (steps : List Step) (s : Step) (i : Ingredient)
    → In s steps
    → s.ingredient ≡ some i
    → is_phase_eligible s.run_phase phase ≡ true
    → s.depth ≤ (steps_bucket phase steps).0
unfolding steps_bucket
steps_bucket-max phase [] s i m e h = absurd m
steps_bucket-max phase (x ∷ xs) s i (inl q) e h =
    subst (λ (y : Step). s.depth ≤ (steps_bucket phase (y ∷ xs)).0) q
      (steps_bucket-first phase s i xs e h)
steps_bucket-max phase (x ∷ xs) s i (inr m) e h =
    let later = steps_bucket-max phase xs s i m e h in
    elim (Option-cases x.ingredient) [
      | inl n ↦ rw (steps_bucket, n) later
      | inr (j, n) ↦ rw (steps_bucket, n) (ground arith)
    ]

In-append : {A : Type 0} (xs ys : List A) (z : A) → In z (xs ++ ys) → In z xs ⊎ In z ys
In-append [] ys z m = inr m
In-append (x ∷ xs) ys z (inl e) = inl (inl e)
In-append (x ∷ xs) ys z (inr m) = elim (In-append xs ys z m) [ inl k ↦ inl (inr k) | inr k ↦ inr k ]

own-In :
    (own inherited : List Step) (x : Candidate)
    → In x (candidates own inherited)
    → x.inherited ≡ false
    → In x.step own
unfolding candidates
own-In own inherited x m h = elim (In-append _ _ x m) [
  | inl n ↦
      let (s, k, e) = In-map (λ (t : Step). record { step = t; inherited = false }) own x n in
      subst (λ (y : Candidate). In y.step own) (sym e) k
  | inr n ↦
      let (s, k, e) = In-map (λ (t : Step). record { step = t; inherited = true }) inherited x n in
      absurd (let q = ap (λ (y : Candidate). y.inherited) e in cc)
]

-- where a row stands with respect to the base
abbrev pub Placed : ℕ → List Candidate → Row → Type 0
Placed base xs r =
    (x : Candidate) × (i : Ingredient) × In x xs
    × (x.step.ingredient ≡ some i)
    × (r.recipe_ingredient_id ≡ some x.step.id)
    × (is_finalizer x i ≡ true → base < r.depth)
    × (x.inherited ≡ false → r.depth ≤ base)

module _ (c : Seed) (own inherited : List Step) (existing : List Row) where
  abbrev base : ℕ
  base = (finalizer_base_bucket c.phase own existing).0

  eligible :
      (x : Candidate) (i : Ingredient)
      → is_wanted c x i ≡ true
      → is_phase_eligible x.step.run_phase c.phase ≡ true
  unfolding is_wanted
  eligible x i h = elim (Bool-cases (is_phase_eligible x.step.run_phase c.phase)) [
    | inl q ↦ q
    | inr q ↦ absurd (let k = rw q at h in cc)
  ]

  own_depth :
      (x : Candidate) (i : Ingredient)
      → In x.step own
      → x.step.ingredient ≡ some i
      → is_wanted c x i ≡ true
      → x.step.depth ≤ base
  unfolding finalizer_base_bucket
  own_depth x i m e q =
      let under = steps_bucket-max c.phase own x.step i m e (eligible x i q) in omega arith

  row-Placed :
      (r : Row)
      → c.finalizer_depth ≡ base
      → From c (candidates own inherited) r
      → Placed base (candidates own inherited) r
  unfolding is_finalizer
  row-Placed r h (x, i, m, e, q, n, p, d, f, g) = (
    x,
    i,
    m,
    e,
    n,
    λ k. rw⁻¹ h (f k),
    λ k.
        let under = own_depth x i (own-In own inherited x m k) e q in
        let same = g (rw k (ground arith)) in omega arith,
  )

  rows-Placed :
      (rows : List Row)
      → c.finalizer_depth ≡ base
      → All (From c (candidates own inherited)) rows
      → All (Placed base (candidates own inherited)) rows
  rows-Placed [] h a = tt
  rows-Placed (r ∷ rs) h a = (row-Placed r h a.0, rows-Placed rs h a.1)

  existing_depth :
      (rows : List Row) → ((r : Row) → In r rows → r.depth ≤ base) → All (λ r. r.depth ≤ base) rows
  existing_depth [] h = tt
  existing_depth (r ∷ rs) h = (h r (inl refl), existing_depth rs (λ x m. h x (inr m)))

  -- When a pass starts from the base of the recipe's own steps and the rows that the dish has, the
  -- rows that it makes for inherited communication steps stand deeper than this base, and the rows of
  -- the recipe's own steps and those that the dish has do not.
  pub seed-finalizers_last :
      (id : ℕ) (rows : List Row)
      → c.finalizer_depth ≡ (finalizer_base_bucket c.phase own existing).0
      → seed_each c id 0 (candidates own inherited) ≡ some rows
      → All (Placed (finalizer_base_bucket c.phase own existing).0 (candidates own inherited)) rows
        × All (λ r. r.depth ≤ (finalizer_base_bucket c.phase own existing).0) existing
  unfolding finalizer_base_bucket
  seed-finalizers_last id rows h k = (
    rows-Placed rows h (seed-From c id 0 (candidates own inherited) rows k),
    existing_depth existing (λ r m. let under = rows_bucket-max existing r m in omega arith),
  )
