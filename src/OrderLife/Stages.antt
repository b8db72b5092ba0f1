-- ===== src/OrderLife/Stages.antt =====
-- The orders' life seen from outside: each order is in one of four stages, which the steps move along
-- the edges of a small machine.
use poundcake.Prelude.{
  Bool, true, false, List, [], ◌∷◌, ◌++◌, ◌≡◌, All, refl, subst, sym, ap, inl, inr, Bool-cases,
  update_first, first, some,
}
use poundcake.Status.{OrderStatus}
use poundcake.Tables.{Order}

pub data Stage : Type 0 where
  waiting working clearing closed : Stage

-- orders.processing_status seen from outside
unfoldable pub stage : OrderStatus → Stage
stage OrderStatus.new = waiting
stage OrderStatus.processing = working
stage OrderStatus.resolving = clearing
stage _ = closed

-- the edges of the machine: work begins only with an order that waits, and an order comes to wait
-- again only from clearing
unfoldable pub may_move : Stage → Stage → Bool
may_move waiting _ = true
may_move working waiting = false
may_move working _ = true
may_move clearing working = false
may_move clearing _ = true
may_move closed clearing = true
may_move closed closed = true
may_move closed _ = false

-- the stages of an order that has just been made
unfoldable pub may_start : Stage → Bool
may_start waiting = true
may_start closed = true
may_start _ = false

abbrev pub Moves : Order → Order → Type 0
Moves o p =
    (p.id ≡ o.id) × (may_move (stage o.processing_status) (stage p.processing_status) ≡ true)

abbrev pub Starts : Order → Type 0
Starts o = may_start (stage o.processing_status) ≡ true

-- each order moved along an edge, in place
abbrev pub Pairs : List Order → List Order → Type 0
Pairs [] [] = Unit
Pairs (o ∷ os) (p ∷ ps) = Moves o p × Pairs os ps
Pairs _ _ = ⊥

-- the orders after a step: new ones before the old ones, which have moved
abbrev pub Follows : List Order → List Order → Type 0
Follows before after =
    (made : List Order) × (rest : List Order) × (after ≡ made ++ rest)
    × All Starts made
    × Pairs before rest

stays : (s : Stage) → may_move s s ≡ true
unfolding may_move
stays waiting = refl
stays working = refl
stays clearing = refl
stays closed = refl

pub Moves-stays :
    (o p : Order) → p.id ≡ o.id → p.processing_status ≡ o.processing_status → Moves o p
Moves-stays o p i h = (i, rw h (stays (stage o.processing_status)))

Pairs-refl : (os : List Order) → Pairs os os
Pairs-refl [] = tt
Pairs-refl (o ∷ os) = (Moves-stays o o refl refl, Pairs-refl os)

pub Follows-refl : (os : List Order) → Follows os os
Follows-refl os = ([], os, refl, tt, Pairs-refl os)

pub Follows-made :
    (before after : List Order) (o : Order)
    → Starts o
    → Follows before after
    → Follows before (o ∷ after)
Follows-made before after o s (made, rest, e, a, p) =
    (o ∷ made, rest, ap (λ os. o ∷ os) e, (s, a), p)

module _ (p : Order → Bool) (f : Order → Order) where
  update-Pairs :
      (os : List Order)
      → ((o : Order) → p o ≡ true → Moves o (f o))
      → Pairs os (update_first p f os)
  unfolding update_first
  update-Pairs [] h = tt
  update-Pairs (o ∷ os) h = elim (Bool-cases (p o)) [
    | inl q ↦ rw q (h o q, Pairs-refl os)
    | inr q ↦ rw q (Moves-stays o o refl refl, update-Pairs os h)
  ]

  found-Pairs :
      (os : List Order) (o : Order)
      → first p os ≡ some o
      → Moves o (f o)
      → Pairs os (update_first p f os)
  unfolding update_first
  found-Pairs [] o e h = tt
  found-Pairs (x ∷ xs) o e h = elim (Bool-cases (p x)) [
    | inl q ↦
        let same : x ≡ o = (let r = rw q at e in cc) in
        rw q (subst (λ z. Moves z (f z)) (sym same) h, Pairs-refl xs)
    | inr q ↦ rw q (Moves-stays x x refl refl, found-Pairs xs o (rw q at e) h)
  ]

  pub update-Follows :
      (os : List Order)
      → ((o : Order) → p o ≡ true → Moves o (f o))
      → Follows os (update_first p f os)
  update-Follows os h = ([], update_first p f os, refl, tt, update-Pairs os h)

  pub found-Follows :
      (os : List Order) (o : Order)
      → first p os ≡ some o
      → Moves o (f o)
      → Follows os (update_first p f os)
  found-Follows os o e h = ([], update_first p f os, refl, tt, found-Pairs os o e h)
