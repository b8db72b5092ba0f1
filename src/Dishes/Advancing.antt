-- ===== src/Dishes/Advancing.antt =====
-- The row that makes Timer advance a dish: when there is one, and which.
use poundcake.Prelude.{
  none, keep-In, In-keep, keep, Option, any-false, refl, sym, arith, subst, Bool-cases, false, inr,
  [], inl, true, ◌⊎◌, any, some, ◌↔◌, ◌∷◌, In, first, ◌≡◌, Bool, List,
}
use poundcake.Status.{is_failure, is_pending, is_terminal, is_in_flight}
use poundcake.Dishes.{
  by_terminal, choose, ends_blocking, row_lt, is_blocking_row, advance_ready_representative,
  insert_row, last, sort_rows,
}
use poundcake.Tables.{Row}

insert_row-In : (r : Row) (xs : List Row) (z : Row) → In z (insert_row r xs) ↔ ((z ≡ r) ⊎ In z xs)
unfolding insert_row
insert_row-In r [] z = (λ m. m, λ m. m)
insert_row-In r (x ∷ xs) z = elim (Bool-cases (row_lt x r)) [
  | inl e ↦ let rest = insert_row-In r xs z in rw e (ground (arith, rest))
  | inr e ↦ rw e (λ m. m, λ m. m)
]

sort_rows-In : (xs : List Row) (z : Row) → In z (sort_rows xs) ↔ In z xs
unfolding sort_rows
sort_rows-In [] z = (λ m. m, λ m. m)
sort_rows-In (x ∷ xs) z =
    let rest = sort_rows-In xs z in
    let here = insert_row-In x (sort_rows xs) z in ground (arith, rest, here)

module _ (p : Row → Bool) where
  first-In : (xs : List Row) (z : Row) → first p xs ≡ some z → In z xs × (p z ≡ true)
  first-In [] z h = cc
  first-In (x ∷ xs) z h = elim (Bool-cases (p x)) [
    | inl e ↦
        let same_row : x ≡ z = ground arith in
        (inl (sym same_row), subst (λ y. p y ≡ true) same_row e)
    | inr e ↦ let (m, q) = first-In xs z (rw e at h) in (inr m, q)
  ]

  first_found : (xs : List Row) (x : Row) → In x xs → p x ≡ true → (z : Row) × (first p xs ≡ some z)
  first_found [] x m h = absurd m
  first_found (y ∷ ys) x (inl e) h = (y, rw (subst (λ z. p z ≡ true) e h) refl)
  first_found (y ∷ ys) x (inr m) h = elim (Bool-cases (p y)) [
    | inl e ↦ (y, rw e refl)
    | inr e ↦ let (z, q) = first_found ys x m h in (z, rw e q)
  ]

last-In : (t : Row) (ts : List Row) → In (last t ts) (t ∷ ts)
unfolding last
last-In t [] = inl refl
last-In t (x ∷ xs) = inr (last-In x xs)

-- A row that has ended or is pending.
abbrev EndedOrPending : Row → Type 0
EndedOrPending r = (is_terminal r.status ≡ true) ⊎ (is_pending r.status ≡ true)

by_terminal-In :
    (ordered ts : List Row) (r : Row)
    → ((t : Row) → In t ts → In t ordered × (is_terminal t.status ≡ true))
    → by_terminal ordered ts ≡ some r
    → In r ordered × EndedOrPending r
unfolding by_terminal
by_terminal-In ordered [] r f h =
    let (m, q) = first-In (λ r. is_pending r.status) ordered r h in (m, inr q)
by_terminal-In ordered (t ∷ ts) r f h =
    let same_row : last t ts ≡ r = ground arith in
    let (m, q) = f r (subst (λ y. In y (t ∷ ts)) same_row (last-In t ts)) in (m, inl q)

choose-In :
    (ordered : List Row) (o : Option Row) (r : Row)
    → ((z : Row) → o ≡ some z → In z ordered × (ends_blocking z ≡ true))
    → choose ordered o ≡ some r
    → In r ordered × EndedOrPending r
unfolding choose ends_blocking
choose-In ordered none r f h =
    by_terminal-In ordered (keep (λ r. is_terminal r.status) ordered) r
      (λ t m. keep-In (λ r. is_terminal r.status) ordered t m) h
choose-In ordered (some z) r f h = let (m, q) = f r h in (m, inl (ground arith))

-- A row that makes a dish advance is one of the dish's rows, none of which is in flight, and it has
-- ended or is pending.
representative-In :
    (rows : List Row) (r : Row)
    → advance_ready_representative rows ≡ some r
    → In r rows
      × (any (λ x. is_in_flight x.status) rows ≡ false)
      × ((is_terminal r.status ≡ true) ⊎ (is_pending r.status ≡ true))
unfolding advance_ready_representative
representative-In rows r h = elim (Bool-cases (any (λ x. is_in_flight x.status) rows)) [
  | inl e ↦ absurd (let q = rw e at h in cc)
  | inr e ↦
      let (m, q) =
        choose-In (sort_rows rows) (first ends_blocking (sort_rows rows)) r
          (first-In ends_blocking (sort_rows rows)) (rw e at h) in
      ((sort_rows-In rows r).0 m, e, q)
]

by_terminal-some :
    (ordered ts : List Row) (x : Row)
    → In x ordered
    → (is_pending x.status ≡ true) ⊎ In x ts
    → (r : Row) × (by_terminal ordered ts ≡ some r)
unfolding by_terminal
by_terminal-some ordered [] x m (inl q) = first_found (λ r. is_pending r.status) ordered x m q
by_terminal-some ordered [] x m (inr n) = absurd n
by_terminal-some ordered (t ∷ ts) x m n = (last t ts, refl)

ended_or_pending : (r : Row) → is_in_flight r.status ≡ false → EndedOrPending r
unfolding is_in_flight is_terminal is_pending
ended_or_pending r h = ground arith

choose-some :
    (ordered : List Row) (o : Option Row) (x : Row)
    → In x ordered
    → EndedOrPending x
    → (r : Row) × (choose ordered o ≡ some r)
unfolding choose
choose-some ordered (some z) x m q = (z, refl)
choose-some ordered none x m (inl q) =
    by_terminal-some ordered _ x m (inr (In-keep (λ r. is_terminal r.status) ordered x m q))
choose-some ordered none x m (inr q) = by_terminal-some ordered _ x m (inl q)

-- When a dish has a row and none in flight, it has a row that makes it advance.
pub representative-some :
    (rows : List Row) (x : Row)
    → In x rows
    → any (λ r. is_in_flight r.status) rows ≡ false
    → (r : Row) × (advance_ready_representative rows ≡ some r)
unfolding advance_ready_representative
representative-some rows x m h = rw h (
    choose-some (sort_rows rows) (first ends_blocking (sort_rows rows)) x
      ((sort_rows-In rows x).1 m)
      (ended_or_pending x (any-false (λ r. is_in_flight r.status) rows x h m)))

blocking-ends : (r : Row) → is_blocking_row r ≡ true → ends_blocking r ≡ true
unfolding ends_blocking is_blocking_row is_failure is_terminal
blocking-ends r h = ground arith

-- When a row of the dish is a blocking failure and none is in flight, the row that makes the dish
-- advance is a blocking failure.
representative-blocking :
    (rows : List Row) (x : Row)
    → In x rows
    → is_blocking_row x ≡ true
    → any (λ r. is_in_flight r.status) rows ≡ false
    → (r : Row) × (advance_ready_representative rows ≡ some r) × (is_blocking_row r ≡ true)
unfolding advance_ready_representative ends_blocking choose
representative-blocking rows x m b h =
    let (z, q) =
      first_found ends_blocking (sort_rows rows) x ((sort_rows-In rows x).1 m)
        (blocking-ends x b) in
    let (n, t) = first-In ends_blocking (sort_rows rows) z q in (z, rw h (rw q refl), ground arith)
