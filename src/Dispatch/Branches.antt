-- ===== src/Dispatch/Branches.antt =====
-- What a dispatch commits, branch by branch: the order touched, parked, or taken up with its dish.
use poundcake.Prelude.{
  ℕ, Option, none, some, List, ◌≡◌, inl, inr, Option-cases, subst, sym, first, nat_eq_iff,
  update_first,
}
use poundcake.Tables.{Order, Row}
use poundcake.Status.{Phase}
use poundcake.Dispatch.Orders.{
  Recipe, Kitchen, Setup, has_order_id, run_phase_of, is_recipe_named, has_inactive, or_fallback,
  park_order, take_up, touch_order, find_or_create_dish,
}
use poundcake.Dispatch.Transaction.{
  dispatch_order_once, dispatch_found_order, dispatch_phase, dispatch_found, dispatch_recipe,
  waits_for_firing,
}
use poundcake.Dispatch.Safety.{
  Keeps, Keeps-if, Keeps-skipped, Keeps-error, add_rows-Keeps, first-In,
}

module _ (R : Kitchen → Type 0) (c : Setup) (k : Kitchen) where
  -- an order written by f, and the recipes after the fallback's
  abbrev pub written : Order → (Order → Order) → List Recipe → Kitchen
  written o f recipes = record k {
    orders = update_first (has_order_id o.id) f k.orders;
    recipes = recipes;
  }

  abbrev pub Branches : Order → Phase → Type 0
  Branches o phase =
      R (record k { orders = update_first (has_order_id o.id) (touch_order c.now) k.orders })
      × ((recipes : List Recipe) → R (written o (park_order c.now) recipes))
      × ((r : Recipe) (recipes : List Recipe) (rows : List Row) (n : ℕ)
          → R
              (record (find_or_create_dish c.now phase r (take_up phase c.now r o)
                (written o (take_up phase c.now r) recipes)).1 { rows = rows; next_row = n }))

  found-Keeps :
      (phase : Phase) (o : Order) (r : Option Recipe) (recipes : List Recipe)
      → Branches o phase
      → Keeps R (dispatch_found c phase o k (r, recipes))
  unfolding dispatch_found dispatch_recipe
  found-Keeps phase o none recipes b = Keeps-skipped R _ (b.1 recipes)
  found-Keeps phase o (some r) recipes b =
      Keeps-if R (has_inactive r.steps) _ _ (Keeps-error R 409)
        (add_rows-Keeps R _ _ _ (λ rows n. b.2 r recipes rows n))

  phase-Keeps :
      (phase : Phase) (o : Order) → Branches o phase → Keeps R (dispatch_phase c phase o k)
  unfolding dispatch_phase
  phase-Keeps phase o b =
      let chosen =
        or_fallback c phase o k.recipes (first (is_recipe_named o.alert_group_name) k.recipes) in
      Keeps-if R (waits_for_firing phase o k.dishes) _ _ (Keeps-skipped R _ b.0)
        (found-Keeps phase o chosen.0 chosen.1 b)

  order-Keeps :
      (o : Order)
      → ((phase : Phase) → run_phase_of o.processing_status ≡ some phase → Branches o phase)
      → Keeps R (dispatch_found_order c k (some o))
  unfolding dispatch_found_order
  order-Keeps o b = elim (Option-cases (run_phase_of o.processing_status)) [
    | inl n ↦ rw (dispatch_found_order, n) (Keeps-error R 409)
    | inr (phase, n) ↦ rw (dispatch_found_order, n) (phase-Keeps phase o (b phase n))
  ]

  -- What holds of every branch of a dispatch holds of the state that it commits.
  pub dispatch-holds :
      (id : ℕ)
      → ((o : Order) (phase : Phase)
          → first (has_order_id o.id) k.orders ≡ some o
          → run_phase_of o.processing_status ≡ some phase
          → Branches o phase)
      → Keeps R (dispatch_order_once c id k)
  unfolding dispatch_order_once has_order_id
  dispatch-holds id h = elim (Option-cases (first (has_order_id id) k.orders)) [
    | inl e ↦ rw (dispatch_order_once, e) (Keeps-error R 404)
    | inr (o, e) ↦
        let same =
          (nat_eq_iff o.id id).0 (first-In (has_order_id id) (touch_order c.now) k.orders o e).1 in
        let found = subst (λ x. first (has_order_id x) k.orders ≡ some o) (sym same) e in
        rw (dispatch_order_once, e) (order-Keeps o (λ phase n. h o phase found n))
  ]
