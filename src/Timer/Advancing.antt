-- ===== src/Timer/Advancing.antt =====
-- When Timer asks Cook to advance a dish after a group of its rows was polled.
use poundcake.Prelude.{
  Bool, true, false, not, some, List, ◌∷◌, In, ◌≡◌, refl, sym, subst, ◌∙◌, inl, inr, str_eq, any,
  any-false, none-any, keep, ◌&&◌, ◌||◌, Bool-cases, nat_eq, arith,
}
use poundcake.Prelude.Text.{lower, strip}
use poundcake.Status.{is_in_flight}
use poundcake.Tables.{Row}
use poundcake.Dishes.{has_expediter_runner_receipt}
use poundcake.Dishes.Keyed.{IsKeyed}
use poundcake.Dishes.Listing.{is_row_of, list_dish_ingredient_status}
use poundcake.Dishes.Shown.{IsSingle, shown-In, In-shown}
use poundcake.Timer.{Poll, Polled}
use poundcake.Timer.Groups.{
  Sweep, same_bucket, group_has_in_flight, poll_group, was_reconciled, none_of, blocking_result,
  cancel_behind, settle_group, monitor_group,
}
use poundcake.Timer.Steady.{poll_group-IsSteady}
use poundcake.Timer.Cancelling.{is_doomed, Gone, cancel_blocked-exact}

-- a row of the member's dish and bucket that is in flight
unfoldable pub in_flight_beside : Row → Row → Bool
in_flight_beside member r =
    nat_eq r.dish_id member.dish_id
    && not r.deleted
    && (nat_eq r.depth member.depth
        && nat_eq r.parallel_group member.parallel_group
        && is_in_flight r.status)

module _ (s : Sweep) (member : Row) (rows : List Row)
    (single : IsSingle s.view member.dish_id rows) where
  unseen :
      (r : Row)
      → In r rows
      → group_has_in_flight member (list_dish_ingredient_status s.view member.dish_id rows) ≡ false
      → in_flight_beside member r ≡ false
  unfolding group_has_in_flight in_flight_beside is_row_of same_bucket
  unseen r m g = elim (Bool-cases (is_row_of member.dish_id r)) [
    | inr d ↦ rw d refl
    | inl d ↦
        let here = In-shown s.view member.dish_id rows single r m d in
        let out =
          any-false (λ x. same_bucket x member && is_in_flight x.status)
            (list_dish_ingredient_status s.view member.dish_id rows) r g here in
        ground arith
  ]

  -- The list shows whether a row of the group is in flight.
  group_has_in_flight-rows :
      group_has_in_flight member (list_dish_ingredient_status s.view member.dish_id rows)
      ≡ any (in_flight_beside member) rows
  unfolding group_has_in_flight in_flight_beside is_row_of same_bucket
  group_has_in_flight-rows =
      let shown = list_dish_ingredient_status s.view member.dish_id rows in
      elim (Bool-cases (any (in_flight_beside member) rows)) [
        | inr q ↦
            none-any _ shown (λ r m.
              let (n, d) = shown-In s.view member.dish_id rows r m in
              let out = any-false (in_flight_beside member) rows r q n in ground arith)
            ∙ sym q
        | inl q ↦ elim (Bool-cases (group_has_in_flight member shown)) [
          | inl g ↦ g ∙ sym q
          | inr g ↦
              let empty : any (in_flight_beside member) rows ≡ false =
                none-any _ rows (λ r m. unseen r m g) in
              let bad : true ≡ false = sym q ∙ empty in absurd cc
        ]
      ]

module _ (s : Sweep) (member : Row) (done : List Polled) (polled : List Row)
    (keyed : IsKeyed polled) (single : IsSingle s.view member.dish_id polled)
    (answered : s.view.answered ≡ true) where
  settle_group-advanced :
      (settle_group s member done polled).advanced
      ≡ (not (none_of done) && not (any (in_flight_beside member) polled))
  unfolding settle_group
  settle_group-advanced =
      let shown = group_has_in_flight-rows s member polled single in
      rw (settle_group, answered, shown)
        (elim (Bool-cases (none_of done)) [
          | inl q ↦ rw q refl
          | inr q ↦ elim (Bool-cases (any (in_flight_beside member) polled)) [
            | inl k ↦ rw (q, k) refl
            | inr k ↦ rw (q, k) refl
          ]
        ])

  settle_group-Gone :
      str_eq (lower (strip s.caller)) "timer" ≡ true
      → (settle_group s member done polled).advanced ≡ true
      → (p : Polled) → blocking_result done ≡ some p
      → p.row.dish_id ≡ member.dish_id
      → (r : Row) → In r polled
      → is_doomed p.row r ≡ true
      → has_expediter_runner_receipt r ≡ false
      → Gone r.id (settle_group s member done polled).rows
  unfolding settle_group cancel_behind
  settle_group-Gone caller advanced p e same_dish r m h n =
      let shown = list_dish_ingredient_status s.view member.dish_id polled in
      let waits = none_of done || not s.view.answered || group_has_in_flight member shown in
      elim (Bool-cases waits) [
        | inl q ↦ absurd (let bad : false ≡ true = rw (settle_group, q) at advanced in cc)
        | inr q ↦
            rw (settle_group, q, e)
              (elim (cancel_blocked-exact s p.row polled keyed
                (subst (λ d. IsSingle s.view d polled) (sym same_dish) single) caller answered r m
                n) [
                  | inl (k, gone) ↦ gone
                  | inr (k, spared) ↦ absurd (let bad : true ≡ false = sym h ∙ k in cc)
                ])
      ]

module _ (s : Sweep) (polls : Row → Poll) (member : Row) (others rows : List Row)
    (keyed : IsKeyed rows) (single : IsSingle s.view member.dish_id rows)
    (answered : s.view.answered ≡ true) where
  -- When ids are keys, no two rows of the dish are one step and the list of the dish is answered, then
  -- after a group was polled Cook is asked to advance the dish exactly if a row of the group was
  -- reconciled and no row of the dish in the group's bucket is in flight any more.
  pub monitor_group-advanced :
      let (results, polled) = poll_group polls (member ∷ others) rows in
      (monitor_group s polls member others rows).advanced
      ≡ (not (none_of (keep was_reconciled results)) && not (any (in_flight_beside member) polled))
  unfolding monitor_group
  monitor_group-advanced =
      let (results, polled) = poll_group polls (member ∷ others) rows in
      let (k, o) =
        poll_group-IsSteady s.view member.dish_id polls (member ∷ others) rows (keyed, single) in
      settle_group-advanced s member (keep was_reconciled results) polled k o answered

  -- When ids are keys, no two rows of the dish are one step, the list of the dish is answered, Timer
  -- is who asks, Cook is asked to advance the dish after the group, and the first reconciled row p
  -- that blocks is one of the dish, then no row of the dish in the group's bucket is in flight after
  -- the polls, and every row of the dish without a receipt of the expediter runner that was pending
  -- then in a later bucket than p is canceled.
  pub monitor_group-Gone :
      str_eq (lower (strip s.caller)) "timer" ≡ true
      → (monitor_group s polls member others rows).advanced ≡ true
      → (p : Polled)
      → blocking_result (keep was_reconciled (poll_group polls (member ∷ others) rows).0) ≡ some p
      → p.row.dish_id ≡ member.dish_id
      → (r : Row) → In r (poll_group polls (member ∷ others) rows).1
      → is_doomed p.row r ≡ true
      → has_expediter_runner_receipt r ≡ false
      → (any (in_flight_beside member) (poll_group polls (member ∷ others) rows).1 ≡ false)
        × Gone r.id (monitor_group s polls member others rows).rows
  unfolding monitor_group
  monitor_group-Gone caller advanced p e same_dish r m h n =
      let (results, polled) = poll_group polls (member ∷ others) rows in
      let (k, o) =
        poll_group-IsSteady s.view member.dish_id polls (member ∷ others) rows (keyed, single) in
      let done = keep was_reconciled results in
      let exactly = settle_group-advanced s member done polled k o answered in
      (
        ground arith,
        settle_group-Gone s member done polled k o answered caller advanced p e same_dish r m h n,
      )
