-- ===== src/Dishes/Steady.antt =====
-- What the transactions keep of all rows: ids are keys, and no two rows of a dish are one step.
use poundcake.Prelude.{
  ℕ, String, true, false, List, In, inl, inr, ◌≡◌, refl, sym, ap, subst, ◌∙◌, some, nat_eq,
  nat_eq_iff, Bool-cases, Option-cases, [], ◌∷◌,
}
use poundcake.Tables.{Row}
use poundcake.Dishes.Routes.{
  find_row, put_row, updated, Reconciler, Upsert, reconcile, drop_claim, take_claim, poll_claim,
  release_claim, by_row,
}
use poundcake.Dishes.Claiming.{polls, claim, claim-Taken, release-owner, found-id}
use poundcake.Dishes.Reconciling.{SameStep, KeepsStep}
use poundcake.Dishes.Listing.{
  View, is_row_of, dish_ingredient_identity, resolve_recipe_ingredient, same_key,
}
use poundcake.Dishes.Keyed.{IsKeyed, put_row-IsKeyed, put_row-In, reconcile-put}
use poundcake.Dishes.Shown.{IsSingle}

found-In : (id : ℕ) (rows : List Row) (x : Row) → find_row id rows ≡ some x → In x rows
unfolding find_row
found-In id [] x h = cc
found-In id (r ∷ rs) x h = elim (Bool-cases (nat_eq r.id id)) [
  | inl e ↦ inl (let q : some r ≡ some x = rw e at h in cc)
  | inr e ↦ inr (found-In id rs x (rw e at h))
]

module _ (v : View) (dish_id : ℕ) where
  abbrev pub IsSteady : List Row → Type 0
  IsSteady rows = IsKeyed rows × IsSingle v dish_id rows

  same-identity :
      (r x : Row)
      → SameStep r x
      → (dish_ingredient_identity v r ≡ dish_ingredient_identity v x)
        × (is_row_of dish_id r ≡ is_row_of dish_id x)
  unfolding dish_ingredient_identity resolve_recipe_ingredient is_row_of
  same-identity r x (a, b, c, d, e) = (rw (a, c, d) refl, rw (b, e) refl)

  module _ (rows : List Row) (x r : Row) (m : In x rows) (same : SameStep r x)
      (single : IsSingle v dish_id rows) where
    -- Another row is not the step of the row that is written.
    clash :
        (b : Row)
        → In b rows
        → nat_eq r.id b.id ≡ false
        → is_row_of dish_id r ≡ true
        → is_row_of dish_id b ≡ true
        → (same_key (dish_ingredient_identity v r) (dish_ingredient_identity v b) ≡ false)
          × (same_key (dish_ingredient_identity v b) (dish_ingredient_identity v r) ≡ false)
    unfolding IsSingle
    clash b n h dr db =
        let (i, d) = same-identity r x same in
        let apart : x ≡ b → ⊥ = λ e.
          let q : nat_eq r.id b.id ≡ true = (nat_eq_iff r.id b.id).1 (same.0 ∙ ap (λ z. z.id) e) in
          absurd (let bad : true ≡ false = sym q ∙ h in cc) in
        rw i (
          elim (Bool-cases
              (same_key (dish_ingredient_identity v x) (dish_ingredient_identity v b))) [
                | inl k ↦ absurd (apart (single x b m n (sym d ∙ dr) db k))
                | inr k ↦ k
              ],
          elim (Bool-cases
              (same_key (dish_ingredient_identity v b) (dish_ingredient_identity v x))) [
                | inl k ↦ absurd (apart (sym (single b x n m db (sym d ∙ dr) k)))
                | inr k ↦ k
              ],
        )

    put_row-IsSingle : IsSingle v dish_id (put_row r rows)
    unfolding IsSingle
    put_row-IsSingle a b j k da db same_step = elim (put_row-In rows r a j) [
      | inl ea ↦ elim (put_row-In rows r b k) [
        | inl eb ↦ ea ∙ sym eb
        | inr (n, h) ↦
            let no = (clash b n h (rw ea at da) db).0 in
            absurd (let bad : true ≡ false = sym (rw ea at same_step) ∙ no in cc)
      ]
      | inr (n, h) ↦ elim (put_row-In rows r b k) [
        | inl eb ↦
            let no = (clash a n h (rw eb at db) da).1 in
            absurd (let bad : true ≡ false = sym (rw eb at same_step) ∙ no in cc)
        | inr (n', h') ↦ single a b n n' da db same_step
      ]
    ]

  put_row-IsSteady :
      (id : ℕ) (rows : List Row) (x r : Row)
      → find_row id rows ≡ some x
      → SameStep r x
      → IsSteady rows
      → IsSteady (put_row r rows)
  put_row-IsSteady id rows x r f same (keyed, single) =
      let number = same.0 ∙ found-id id rows x f in
      (
        put_row-IsKeyed rows x r keyed (subst (λ n. find_row n rows ≡ some x) (sym number) f),
        put_row-IsSingle rows x r (found-In id rows x f) same single,
      )

  pub poll_claim-IsSteady :
      (lock now : ℕ) (req : String) (id : ℕ) (rows after : List Row) (r : Row)
      → poll_claim lock now req id rows ≡ updated r after
      → IsSteady rows
      → IsSteady after
  unfolding claim take_claim
  poll_claim-IsSteady lock now req id rows after r e h =
      let (x, f, (t, p, d)) = claim-Taken polls lock now req id rows r after e in
      subst IsSteady (sym p)
        (put_row-IsSteady id rows x (take_claim now req x) f (refl, refl, refl, refl, refl) h)

  pub release-IsSteady :
      (req : String) (id : ℕ) (rows after : List Row) (r : Row)
      → release_claim req id rows ≡ updated r after
      → IsSteady rows
      → IsSteady after
  unfolding release_claim by_row drop_claim
  release-IsSteady req id rows after r e h = elim (Option-cases (find_row id rows)) [
    | inl q ↦ absurd (let bad = rw q at e in cc)
    | inr (x, f) ↦
        let (a, b, c, p) = release-owner req id rows x r after f e in
        subst IsSteady (sym p)
          (put_row-IsSteady id rows x r f (rw c (refl, refl, refl, refl, refl)) h)
  ]

  pub reconcile-IsSteady :
      (route : Reconciler) (caller : String) (now : ℕ) (p : Upsert) (id : ℕ) (rows after : List Row)
      (r : Row)
      → KeepsStep p
      → reconcile route caller now p id rows ≡ updated r after
      → IsSteady rows
      → IsSteady after
  reconcile-IsSteady route caller now p id rows after r k e h =
      let (x, f, same, q) = reconcile-put route caller now p id rows after r k e in
      subst IsSteady (sym q) (put_row-IsSteady id rows x r f same h)
