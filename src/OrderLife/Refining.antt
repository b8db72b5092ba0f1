-- ===== src/OrderLife/Refining.antt =====
-- Every step of the kitchen is a step of the stages' machine.
use poundcake.Json.{Fields}
use poundcake.Prelude.{
  Option, List, false, if◌then◌else◌, arith, ℕ, Bool, true, ◌≡◌, refl, some, none,
}
use poundcake.Status.{
  is_order_terminal, OrderStatus, Phase, alert_resolved, can_transition_to_resolving,
}
use poundcake.Incidents.{Comm}
use poundcake.Incidents.Tickets.{Call, Env}
use poundcake.Incidents.Alerts.{observe, refired_status, cleared_status}
use poundcake.Incidents.Pass.{seen_order, complete_order}
use poundcake.Incidents.Flags.{reconcile-holds}
use poundcake.OrderLife.{reconciled_order}
use poundcake.Dispatch.Orders.{Recipe, park_order, run_phase_of, take_up, touch_order, fire_order}
use poundcake.Tables.{Order, DishStatus}
use poundcake.PreHeat.{Alert}
use poundcake.PreHeat.Process.{
  close_warning, count_warning, should_reopen_terminal, increment_and_reopen, resolve_order,
  resolved_status, reopened,
}
use poundcake.Cook.Finalize.{finalize_order_for_dish, suppress_order}
use poundcake.OrderLife.Stages.{Stage, waiting, working, clearing, closed, stage, may_move, Moves}

may_close : (s : Stage) → may_move s closed ≡ true
unfolding may_move
may_close waiting = refl
may_close working = refl
may_close clearing = refl
may_close closed = refl

may_clear : (s : Stage) → may_move s clearing ≡ true
unfolding may_move
may_clear waiting = refl
may_clear working = refl
may_clear clearing = refl
may_clear closed = refl

may_stay : (s : Stage) → may_move s s ≡ true
unfolding may_move
may_stay waiting = refl
may_stay working = refl
may_stay clearing = refl
may_stay closed = refl

may_reopen : (s : OrderStatus) → may_move (stage s) (stage (reopened s)) ≡ true
unfolding reopened stage may_move
may_reopen OrderStatus.new = refl
may_reopen OrderStatus.processing = refl
may_reopen OrderStatus.resolving = refl
may_reopen OrderStatus.complete = refl
may_reopen OrderStatus.failed = refl
may_reopen OrderStatus.errored = refl
may_reopen OrderStatus.timeout = refl
may_reopen OrderStatus.canceled = refl

status_if :
    (s : Stage) (b : Bool) (x y : OrderStatus)
    → may_move s (stage x) ≡ true
    → may_move s (stage y) ≡ true
    → may_move s (stage (if b then x else y)) ≡ true
status_if s true x y h k = h
status_if s false x y h k = k

module _ (now : ℕ) (a : Alert) (o : Order) where
  pub close_warning-Moves : Moves o (close_warning now a o)
  unfolding close_warning stage
  close_warning-Moves = (refl, may_close _)

  pub count_warning-Moves : Moves o (count_warning now o)
  unfolding count_warning stage
  count_warning-Moves = (refl, may_close _)

  pub reopen-Moves : Moves o (increment_and_reopen now o)
  unfolding increment_and_reopen
  reopen-Moves = (refl, may_reopen o.processing_status)

  pub resolve-Moves : Moves o (resolve_order now a o)
  unfolding resolve_order resolved_status stage
  resolve-Moves =
      let late =
        if should_reopen_terminal o.processing_status o.alert_status
        then OrderStatus.resolving
        else o.processing_status in
      (
        refl,
        status_if (stage o.processing_status)
            (can_transition_to_resolving o.processing_status alert_resolved) OrderStatus.resolving
            late (may_clear _)
            (status_if (stage o.processing_status)
              (should_reopen_terminal o.processing_status o.alert_status) OrderStatus.resolving
              o.processing_status (may_clear _) (may_stay _)),
      )

pub suppress-Moves : (now : ℕ) (o : Order) → Moves o (suppress_order now o)
unfolding suppress_order stage
suppress-Moves now o = (refl, may_close _)

pub finalize-Moves :
    (other_active : Bool) (now : ℕ) (phase : Phase) (t : DishStatus) (o : Order)
    → Moves o (finalize_order_for_dish other_active now phase t o).0
unfolding finalize_order_for_dish stage
finalize-Moves other_active now Phase.firing t o =
    let ends = may_close (stage o.processing_status) in
    let clears = may_clear (stage o.processing_status) in
    let same = may_stay (stage o.processing_status) in (ground arith, ground arith)
finalize-Moves other_active now Phase.resolving t o =
    let ends = may_close (stage o.processing_status) in
    let same = may_stay (stage o.processing_status) in (ground arith, ground arith)

pub touch-Moves : (now : ℕ) (o : Order) → Moves o (touch_order now o)
unfolding touch_order
touch-Moves now o = (refl, may_stay _)

pub park-Moves : (now : ℕ) (o : Order) → Moves o (park_order now o)
unfolding park_order stage
park-Moves now o = (refl, may_clear _)

no_phase : {P : Type 0} → none ≡ some Phase.firing → P
no_phase h = absurd cc

may_work :
    (s : OrderStatus) → run_phase_of s ≡ some Phase.firing → may_move (stage s) working ≡ true
unfolding run_phase_of stage may_move
may_work OrderStatus.new h = refl
may_work OrderStatus.processing h = refl
may_work OrderStatus.resolving h =
    absurd (let n : some Phase.resolving ≡ some Phase.firing = h in cc)
may_work OrderStatus.complete h = no_phase h
may_work OrderStatus.failed h = no_phase h
may_work OrderStatus.errored h = no_phase h
may_work OrderStatus.timeout h = no_phase h
may_work OrderStatus.canceled h = no_phase h

pub take_up-Moves :
    (phase : Phase) (now : ℕ) (r : Recipe) (o : Order)
    → run_phase_of o.processing_status ≡ some phase
    → Moves o (take_up phase now r o)
unfolding take_up fire_order stage
take_up-Moves Phase.firing now r o h = (refl, may_work o.processing_status h)
take_up-Moves Phase.resolving now r o h = (refl, may_stay _)

may_observe :
    (fires : Bool) (s : OrderStatus)
    → is_order_terminal s ≡ false
    → may_move (stage s) (stage (if fires then refired_status s else cleared_status s)) ≡ true
unfolding refired_status cleared_status can_transition_to_resolving stage may_move is_order_terminal
may_observe true OrderStatus.new h = refl
may_observe true OrderStatus.processing h = refl
may_observe true OrderStatus.resolving h = refl
may_observe false OrderStatus.new h = refl
may_observe false OrderStatus.processing h = refl
may_observe false OrderStatus.resolving h = refl
may_observe _ _ h = absurd cc

observed-Moves :
    (e : Env) (fires : Bool) (o : Order)
    → is_order_terminal o.processing_status ≡ false
    → let p = observe e.now fires o in
      Moves o p × Moves o (seen_order e.now p) × Moves o (complete_order e.now p)
unfolding observe seen_order complete_order stage
observed-Moves e true o h =
    let moves = may_observe true o.processing_status h in
    ((refl, moves), (refl, moves), (refl, may_close _))
observed-Moves e false o h =
    let moves = may_observe false o.processing_status h in
    ((refl, moves), (refl, moves), (refl, may_close _))

pub reconcile-Moves :
    (e : Env) (alerts : Option (List Fields)) (steps : List Comm) (calls : List Call) (o : Order)
    → Moves o (reconciled_order e alerts steps calls o)
unfolding reconciled_order
reconcile-Moves e alerts steps calls o =
    reconcile-holds (Moves o) e alerts (record { order = o; steps = steps }) calls
      (refl, may_stay _) (λ q fires. observed-Moves e fires o q)
