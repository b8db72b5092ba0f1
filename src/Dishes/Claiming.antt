-- ===== src/Dishes/Claiming.antt =====
-- Claims of service executions exclude each other until they are stale, and end with their owner.
use poundcake.Prelude.{
  true, Option, eq_iff, eq_refl, subst, [], ap, nat_eq_iff, nat_eq_refl, sym, ◌∙◌, inr, nat_eq,
  Bool-cases, inl, ◌≤◌, Option-cases, arith, refl, ◌-◌, ◌∷◌, ◌≢◌, false, none, some, ◌≡◌, String,
  List, ℕ,
}
use poundcake.Status.{ExecStatus, is_in_flight, running}
use poundcake.Dishes.Routes.{
  is_running, claimed_by_request, drop_claim, release_claim, release_row, http_error, updated,
  Reply, by_row, is_unclaimed, execution_claim, execution_claim_row, put_row, find_row, poll_claim,
  poll_claim_row, take_claim,
}
use poundcake.Dishes.{ServicePlugin}
use poundcake.Tables.{Row}

pub found-id : (id : ℕ) (rows : List Row) (x : Row) → find_row id rows ≡ some x → x.id ≡ id
unfolding find_row
found-id id [] x h = cc
found-id id (r ∷ rs) x h = elim (Bool-cases (nat_eq r.id id)) [
  | inl e ↦ ground (arith, nat_eq_iff r.id id)
  | inr e ↦ found-id id rs x (rw e at h)
]

-- What is put under the number of a row that is there is found under it.
pub find-put :
    (rows : List Row) (x r : Row)
    → find_row r.id rows ≡ some x
    → find_row r.id (put_row r rows) ≡ some r
unfolding find_row put_row
find-put [] x r h = cc
find-put (y ∷ ys) x r h = elim (Bool-cases (nat_eq y.id r.id)) [
  | inl e ↦ rw e (rw (nat_eq_refl r.id) refl)
  | inr e ↦ rw e (rw e (find-put ys x r (rw e at h)))
]

pub find-put_same :
    (id : ℕ) (rows : List Row) (x r : Row)
    → find_row id rows ≡ some x
    → r.id ≡ x.id
    → find_row id (put_row r rows) ≡ some r
find-put_same id rows x r f e =
    let number = e ∙ found-id id rows x f in
    subst (λ n. find_row n (put_row r rows) ≡ some r) number
      (find-put rows x r (subst (λ n. find_row n rows ≡ some x) (sym number) f))

-- The two routes that claim; the expediter runner's reads the plugins.
pub data Claim : Type 0 where
  polls : Claim
  executes : List ServicePlugin → Claim

unfoldable pub claim : Claim → ℕ → ℕ → String → ℕ → List Row → Reply
claim polls = poll_claim
claim (executes plugins) = execution_claim plugins

claim_of : Claim → ℕ → ℕ → String → List Row → Row → Reply
claim_of polls = poll_claim_row
claim_of (executes plugins) = execution_claim_row plugins

claim-found :
    (k : Claim) (lock now : ℕ) (req : String) (id : ℕ) (rows : List Row) (x : Row)
    → find_row id rows ≡ some x
    → claim k lock now req id rows ≡ claim_of k lock now req rows x
unfolding claim claim_of poll_claim execution_claim by_row
claim-found polls lock now req id rows x h = rw h refl
claim-found (executes plugins) lock now req id rows x h = rw h refl

claim-missing :
    (k : Claim) (lock now : ℕ) (req : String) (id : ℕ) (rows : List Row) (r : Row)
    (rows' : List Row)
    → find_row id rows ≡ none
    → claim k lock now req id rows ≢ updated r rows'
unfolding claim poll_claim execution_claim by_row
claim-missing polls lock now req id rows r rows' h = λ e. let q = rw h at e in cc
claim-missing (executes plugins) lock now req id rows r rows' h = λ e. let q = rw h at e in cc

-- What a claim that succeeds has done to the row x.
abbrev pub Taken : ℕ → String → List Row → Row → Row → List Row → Type 0
Taken now req rows x r rows' =
    (r ≡ take_claim now req x) × (rows' ≡ put_row (take_claim now req x) rows) × (x.deleted ≡ false)

claim_of-Taken :
    (k : Claim) (lock now : ℕ) (req : String) (rows : List Row) (x r : Row) (rows' : List Row)
    → claim_of k lock now req rows x ≡ updated r rows'
    → Taken now req rows x r rows'
unfolding claim_of poll_claim_row execution_claim_row
claim_of-Taken polls lock now req rows x r rows' h = ground arith
claim_of-Taken (executes plugins) lock now req rows x r rows' h = ground arith

pub claim-Taken :
    (k : Claim) (lock now : ℕ) (req : String) (id : ℕ) (rows : List Row) (r : Row)
    (rows' : List Row)
    → claim k lock now req id rows ≡ updated r rows'
    → (x : Row) × (find_row id rows ≡ some x) × Taken now req rows x r rows'
claim-Taken k lock now req id rows r rows' h = elim (Option-cases (find_row id rows)) [
  | inl e ↦ absurd (claim-missing k lock now req id rows r rows' e h)
  | inr (x, e) ↦ (
    x,
    e,
    claim_of-Taken k lock now req rows x r rows' (sym (claim-found k lock now req id rows x e) ∙ h),
  )
]

pub claim-found_after :
    (k : Claim) (lock now : ℕ) (req : String) (id : ℕ) (rows : List Row) (r : Row)
    (rows' : List Row)
    → claim k lock now req id rows ≡ updated r rows'
    → (x : Row) × (r ≡ take_claim now req x) × (x.deleted ≡ false) × (find_row id rows' ≡ some r)
unfolding take_claim
claim-found_after k lock now req id rows r rows' h =
    let (x, f, (e, p, d)) = claim-Taken k lock now req id rows r rows' h in
    let put = find-put_same id rows x (take_claim now req x) f refl in (x, e, d, rw p (rw e put))

blocked :
    (k : Claim) (lock now then_at : ℕ) (req req' : String) (rows : List Row) (x : Row)
    → x.deleted ≡ false
    → now - lock ≤ then_at
    → claim_of k lock now req' rows (take_claim then_at req x) ≡ http_error 409
unfolding claim_of poll_claim_row execution_claim_row take_claim is_unclaimed
blocked polls lock now then_at req req' rows x h le = ground arith
blocked (executes plugins) lock now then_at req req' rows x h le = ground arith

-- When a claim of a row has succeeded, each later claim of it by either route is refused with 409,
-- while no more than lock_timeout_seconds have passed.
pub claim-claim :
    (k k' : Claim) (lock now later : ℕ) (req req' : String) (id : ℕ) (rows rows' : List Row)
    (r : Row)
    → claim k lock now req id rows ≡ updated r rows'
    → later - lock ≤ now
    → claim k' lock later req' id rows' ≡ http_error 409
claim-claim k k' lock now later req req' id rows rows' r h le =
    let (x, e, d, f) = claim-found_after k lock now req id rows r rows' h in
    claim-found k' lock later req' id rows' r f
    ∙ ap (claim_of k' lock later req' rows') e
    ∙ blocked k' lock later now req req' rows' x d le

pub release-found :
    (req : String) (id : ℕ) (rows : List Row) (x : Row)
    → find_row id rows ≡ some x
    → release_claim req id rows ≡ release_row req rows x
unfolding release_claim by_row
release-found req id rows x h = rw h refl

claimed_by_request-eq :
    (req : String) (owner : Option String) → claimed_by_request req owner ≡ true → owner ≡ some req
unfolding claimed_by_request
claimed_by_request-eq req none h = cc
claimed_by_request-eq req (some owner) h = ap some ((eq_iff owner req).0 h)

is_running-eq : (s : ExecStatus) → is_running s ≡ true → s ≡ running
unfolding is_running
is_running-eq running h = refl
is_running-eq _ h = cc

owned :
    (req : String) (rows : List Row) (x : Row) (r : Row) (rows' : List Row)
    → release_row req rows x ≡ updated r rows'
    → (x.claimed_by ≡ some req)
      × (x.status ≡ running)
      × (r ≡ drop_claim x)
      × (rows' ≡ put_row r rows)
unfolding release_row claimed_by_request is_running
owned req rows x r rows' h =
    ground (arith, claimed_by_request-eq req x.claimed_by, is_running-eq x.status)

-- A release that succeeds has found the row running and claimed by the same request.
pub release-owner :
    (req : String) (id : ℕ) (rows : List Row) (x r : Row) (rows' : List Row)
    → find_row id rows ≡ some x
    → release_claim req id rows ≡ updated r rows'
    → (x.claimed_by ≡ some req)
      × (x.status ≡ running)
      × (r ≡ drop_claim x)
      × (rows' ≡ put_row r rows)
release-owner req id rows x r rows' f h =
    owned req rows x r rows' (sym (release-found req id rows x f) ∙ h)

pub released :
    (now : ℕ) (req : String) (rows : List Row) (x : Row)
    → x.deleted ≡ false
    → release_row req rows (take_claim now req x)
      ≡ updated
          (drop_claim (take_claim now req x))
          (put_row (drop_claim (take_claim now req x)) rows)
unfolding release_row take_claim drop_claim claimed_by_request is_running
released now req rows x h = rw (eq_refl req) (rw h refl)

retaken :
    (lock now then_at : ℕ) (req req' : String) (rows : List Row) (x : Row)
    → x.deleted ≡ false
    → poll_claim_row lock now req' rows (drop_claim (take_claim then_at req x))
      ≡ updated (take_claim now req' x) (put_row (take_claim now req' x) rows)
unfolding poll_claim_row take_claim drop_claim is_unclaimed is_in_flight
retaken lock now then_at req req' rows x h = rw h refl

-- When a claim of a row has succeeded, the release by the same request succeeds, and then Timer's
-- claim of the row by any request and at any time.
pub claim-release-claim :
    (k : Claim) (lock now later : ℕ) (req req' : String) (id : ℕ) (rows rows' : List Row) (r : Row)
    → claim k lock now req id rows ≡ updated r rows'
    → (s : Row) × (freed : List Row) × (t : Row) × (taken : List Row) × (release_claim req id rows'
        ≡ updated s freed)
      × (poll_claim lock later req' id freed ≡ updated t taken)
      × (t.claimed_by ≡ some req')
unfolding take_claim drop_claim claim claim_of
claim-release-claim k lock now later req req' id rows rows' r h =
    let (x, e, d, f) = claim-found_after k lock now req id rows r rows' h in
    let found = f ∙ ap some e in
    let free = drop_claim (take_claim now req x) in
    let again = find-put_same id rows' (take_claim now req x) free found refl in
    (
      free,
      put_row free rows',
      take_claim later req' x,
      put_row (take_claim later req' x) (put_row free rows'),
      release-found req id rows' (take_claim now req x) found ∙ released now req rows' x d,
      claim-found polls lock later req' id (put_row free rows') free again
          ∙ retaken lock later now req req' (put_row free rows') x d,
      refl,
    )
