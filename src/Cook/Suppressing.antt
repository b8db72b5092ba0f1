-- ===== src/Cook/Suppressing.antt =====
-- When a suppression ends a dish, and what it leaves behind.
use poundcake.OrderTypes.{order_is_subject_to_alert_suppressions, require_order_type, webhook_alert}
use poundcake.Prelude.{
  str_eq, String, Option, arith, if◌then◌else◌, inl, inr, Bool-cases, refl, [], true, ◌∷◌, false,
  some, ◌≡◌, List, Bool, ℕ, In, length, ◌⊎◌, ◌≢◌, nat_eq_iff, eq_iff, none, ap, suc,
}
use poundcake.Prelude.Text.{lower}
use poundcake.Cook.Suppress.{
  drop_row, complete_dish, is_suppressed, Suppressed, complete_suppressed_dish_if_matched,
  drop_rows, is_droppable, is_firing_phase, unstarted,
}
use poundcake.Cook.Finalize.{suppress_order}
use poundcake.Status.{is_order_terminal, is_pending, ExecStatus, Phase}
use poundcake.Tables.{DishStatus, Order, Row, Dish}
use poundcake.OrderTypes.Laws.{subject-alert}

length-drop_rows : (now dish : ℕ) (rows : List Row) → length (drop_rows now dish rows) ≡ length rows
unfolding drop_rows
length-drop_rows now dish [] = refl
length-drop_rows now dish (r ∷ rs) = ap suc (length-drop_rows now dish rs)

In-drop_rows :
    (now dish : ℕ) (r : Row) (rows : List Row)
    → In r rows
    → In (if is_droppable dish r then drop_row now r else r) (drop_rows now dish rows)
unfolding drop_rows
In-drop_rows now dish r [] m = absurd m
In-drop_rows now dish r (x ∷ rs) (inl e) =
    inl (ap (λ x. if is_droppable dish x then drop_row now x else x) e)
In-drop_rows now dish r (x ∷ rs) (inr m) = inr (In-drop_rows now dish r rs m)

-- The row is one of the dish that is not deleted, pending, and not started.
abbrev pub Waits : ℕ → Row → Type 0
Waits dish r =
    (r.dish_id ≡ dish)
    × ((r.deleted ≡ false) × ((r.status ≡ ExecStatus.pending) × (r.start_time ≡ none)))

-- The row is of another dish, deleted, not pending, or started.
abbrev pub Stays : ℕ → Row → Type 0
Stays dish r =
    (r.dish_id ≢ dish)
    ⊎ ((r.deleted ≡ true) ⊎ ((r.status ≢ ExecStatus.pending) ⊎ (r.start_time ≢ none)))

pending-status : (s : ExecStatus) → is_pending s ≡ true → s ≡ ExecStatus.pending
unfolding is_pending
pending-status ExecStatus.pending h = refl
pending-status ExecStatus.dispatched h = cc
pending-status ExecStatus.running h = cc
pending-status ExecStatus.succeeded h = cc
pending-status ExecStatus.failed h = cc
pending-status ExecStatus.errored h = cc
pending-status ExecStatus.timeout h = cc
pending-status ExecStatus.canceled h = cc

status-apart : (s : ExecStatus) → is_pending s ≡ false → s ≢ ExecStatus.pending
unfolding is_pending
status-apart s h e = absurd (let q = rw e at h in cc)

unstarted-none : (t : Option ℕ) → unstarted t ≡ true → t ≡ none
unfolding unstarted
unstarted-none none h = refl
unstarted-none (some t) h = cc

unstarted-apart : (t : Option ℕ) → unstarted t ≡ false → t ≢ none
unfolding unstarted
unstarted-apart t h e = absurd (let q = rw e at h in cc)

firing-phase : (p : Phase) → is_firing_phase p ≡ true → p ≡ Phase.firing
unfolding is_firing_phase
firing-phase Phase.firing h = refl
firing-phase Phase.resolving h = cc

droppable-Waits : (dish : ℕ) (r : Row) → is_droppable dish r ≡ true → Waits dish r
unfolding is_droppable
droppable-Waits dish r h =
    ground (arith, nat_eq_iff r.dish_id dish, pending-status r.status, unstarted-none r.start_time)

kept-Stays : (dish : ℕ) (r : Row) → is_droppable dish r ≡ false → Stays dish r
unfolding is_droppable
kept-Stays dish r h =
    ground (arith, nat_eq_iff r.dish_id dish, status-apart r.status, unstarted-apart r.start_time)

-- What becomes of a row of the dish's order.
abbrev pub Settled : ℕ → Row → List Row → Type 0
Settled dish r rows =
    (Waits dish r × (x : Row) × In x rows × (x.id ≡ r.id) × (x.deleted ≡ true))
    ⊎ (Stays dish r × In r rows)

drop_rows-Settled :
    (now dish : ℕ) (rows : List Row) (r : Row)
    → In r rows
    → Settled dish r (drop_rows now dish rows)
unfolding drop_row
drop_rows-Settled now dish rows r m =
    let there = In-drop_rows now dish r rows m in
    elim (Bool-cases (is_droppable dish r)) [
      | inl e ↦ inl (droppable-Waits dish r e, drop_row now r, rw e at there, refl, refl)
      | inr e ↦ inr (kept-Stays dish r e, rw e at there)
    ]

-- What the dish and its order were.
abbrev pub WasFiring : Dish → Order → Type 0
WasFiring d o =
    (d.run_phase ≡ Phase.firing)
    × ((lower o.alert_status ≡ "firing")
        × ((require_order_type o.raw_data ≡ none)
            ⊎ (require_order_type o.raw_data ≡ some webhook_alert)))

suppressed-WasFiring :
    (enabled matches : Bool) (d : Dish) (o : Order)
    → is_suppressed enabled matches d o ≡ true
    → (enabled ≡ true) × ((matches ≡ true) × WasFiring d o)
unfolding is_suppressed
suppressed-WasFiring enabled matches d o h = ground (
  arith,
  firing-phase d.run_phase,
  eq_iff (lower o.alert_status) "firing",
  subject-alert o.raw_data,
)

resolving-phase : (p : Phase) → is_firing_phase p ≡ false → p ≡ Phase.resolving
unfolding is_firing_phase
resolving-phase Phase.firing h = cc
resolving-phase Phase.resolving h = refl

-- What keeps a suppression from completing the dish.
abbrev pub Refuses : Bool → Bool → Dish → Order → Type 0
Refuses enabled matches d o =
    (enabled ≡ false)
    ⊎ ((matches ≡ false)
        ⊎ ((d.run_phase ≡ Phase.resolving)
            ⊎ ((lower o.alert_status ≢ "firing")
                ⊎ (order_is_subject_to_alert_suppressions o.raw_data ≡ false))))

alert-apart : (s t : String) → str_eq s t ≡ false → s ≢ t
alert-apart s t h e = absurd (let q = (eq_iff s t).1 e in cc)

unsuppressed-Refuses :
    (enabled matches : Bool) (d : Dish) (o : Order)
    → is_suppressed enabled matches d o ≡ false
    → Refuses enabled matches d o
unfolding is_suppressed
unsuppressed-Refuses enabled matches d o h =
    ground (arith, resolving-phase d.run_phase, alert-apart (lower o.alert_status) "firing")

-- Either a suppression completes the dish, or it does not. It does only when suppressions are enabled,
-- one matches, the dish is in its firing phase, the alert of the order is firing, and the order's
-- type is webhook_alert or it names no type; then the dish is complete and the order terminal and
-- inactive, no row is added or lost, a row is left deleted if it is an undeleted one of this dish
-- that is pending and has not started, and every other row is left as it was. It does not only when
-- suppressions are off, none matches, the dish is in its resolving phase, the alert does not fire, or
-- the order is not subject to suppressions.
pub complete_suppressed-settled :
    (enabled matches : Bool) (now : ℕ) (d : Dish) (o : Order) (rows : List Row)
    → ((s : Suppressed) × (complete_suppressed_dish_if_matched enabled matches now d o rows
          ≡ some s)
        × ((enabled ≡ true) × ((matches ≡ true) × WasFiring d o))
        × ((s.dish.processing_status ≡ DishStatus.complete)
            × ((is_order_terminal s.order.processing_status ≡ true) × (s.order.is_active ≡ false)))
        × (length s.rows ≡ length rows)
        × ((r : Row) → In r rows → Settled d.id r s.rows))
      ⊎ ((complete_suppressed_dish_if_matched enabled matches now d o rows ≡ none)
          × Refuses enabled matches d o)
unfolding complete_suppressed_dish_if_matched complete_dish suppress_order is_order_terminal
complete_suppressed-settled enabled matches now d o rows =
    elim (Bool-cases (is_suppressed enabled matches d o)) [
      | inr e ↦ inr (rw e refl, unsuppressed-Refuses enabled matches d o e)
      | inl e ↦ inl (
        record {
          dish = complete_dish now d;
          order = suppress_order now o;
          rows = drop_rows now d.id rows;
        },
        rw e refl,
        suppressed-WasFiring enabled matches d o e,
        (refl, (refl, refl)),
        length-drop_rows now d.id rows,
        drop_rows-Settled now d.id rows,
      )
    ]
