-- ===== src/Cook/Settling.antt =====
-- What becomes of an order when one of its dishes ends.
use poundcake.Prelude.{none, not, str_eq, ◌&&◌, ◌≢◌, false, ◌⊎◌, true, arith, ℕ, Bool, ◌≡◌}
use poundcake.Prelude.Text.{lower}
use poundcake.Status.{resolving, Outcome, is_order_terminal, Phase, should_keep_active, firing}
use poundcake.Cook.Finalize.{
  After, dispatch_resolving, nothing, finalize_order_for_dish, suppress_order,
}
use poundcake.Tables.{Order, DishStatus}

-- The flag is_active says that the order's status is not terminal.
abbrev pub IsConsistent : Order → Type 0
IsConsistent o = o.is_active ≡ should_keep_active o.processing_status

-- When is_active agrees with an order's status, it does so after one of its dishes has ended, and
-- after its dish was suppressed.
pub finalize-IsConsistent :
    (other_active : Bool) (now : ℕ) (phase : Phase) (t : DishStatus) (o : Order)
    → IsConsistent o
    → IsConsistent (finalize_order_for_dish other_active now phase t o).0
      × IsConsistent (suppress_order now o)
unfolding finalize_order_for_dish suppress_order should_keep_active
finalize-IsConsistent other_active now phase t o h = (ground arith, ground arith)

unfoldable pub is_dispatch : After → Bool
is_dispatch dispatch_resolving = true
is_dispatch _ = false

unfoldable pub is_firing : Phase → Bool
is_firing firing = true
is_firing resolving = false

-- An order that is terminal, or that has another active dish, is left as it is.
finalize-unchanged :
    (other_active : Bool) (now : ℕ) (phase : Phase) (t : DishStatus) (o : Order)
    → (is_order_terminal o.processing_status ≡ true) ⊎ (other_active ≡ true)
    → finalize_order_for_dish other_active now phase t o ≡ (o, nothing)
unfolding finalize_order_for_dish
finalize-unchanged other_active now phase t o h = ground arith

-- When an order is not terminal and has no other active dish, the end of a dish sends it on to the
-- resolving phase exactly if the dish was firing and the alert has resolved. The order's status is
-- terminal in the other case only, it is active in the first case only, and clear_deadline_at is
-- null in both.
pub finalize_outcome :
    (now : ℕ) (phase : Phase) (t : DishStatus) (o : Order)
    → is_order_terminal o.processing_status ≡ false
    → let (o', after) = finalize_order_for_dish false now phase t o in
      (is_dispatch after ≡ (is_firing phase && str_eq (lower o.alert_status) "resolved"))
      × (is_order_terminal o'.processing_status ≡ not (is_dispatch after))
      × (o'.is_active ≡ is_dispatch after)
      × (o'.clear_deadline_at ≡ none)
unfolding finalize_order_for_dish is_dispatch is_firing
finalize_outcome now firing t o h = (ground arith, ground arith, ground arith, ground arith)
finalize_outcome now resolving t o h = (ground arith, ground arith, ground arith, ground arith)

-- The end of a firing dish settles the remediation outcome of an order that is not terminal and has
-- no other active dish: it is no longer pending.
finalize-firing-settled :
    (now : ℕ) (t : DishStatus) (o : Order)
    → is_order_terminal o.processing_status ≡ false
    → (finalize_order_for_dish false now firing t o).0.remediation_outcome ≢ Outcome.pending
unfolding finalize_order_for_dish
finalize-firing-settled now t o h = λ e. ground arith
