-- ===== src/Suppressions/Stopping.antt =====
-- A summary that is closed stays so, a pass closes those of its batch, and a batch of closed ones
-- stops every later pass.
use poundcake.Suppressions.Lifecycle.{
  record_requeue_failure, with_stats, close_summary, fail_summary, Summary, Store, Setting,
  is_summary_of, is_closed, new_summary, get_or_create_summary, settle_summary, record_failure,
  finalize_one, finalize_each, expired_batch, finalize_expired_suppressions,
}
use poundcake.Suppressions.Events.{compute_suppression_stats}
use poundcake.Prelude.{
  if◌then◌else◌, ◌≡◌, inl, inr, true, false, some, none, List, [], ◌∷◌, ◌++◌, All, arith, ℕ, Bool,
  Option, refl, subst, sym, ap, Bool-cases, Option-cases, first, update_first, nat_eq, nat_eq_iff,
  nat_eq_refl, ◌∙◌,
}
use poundcake.Suppressions.Closing.{pass-holds, finalize_one-holds}
use poundcake.Suppressions.{Suppression}
use poundcake.Suppressions.Counting.{first-append}

module _ {A : Type 0} (p : A → Bool) where
  first-append-some :
      (xs : List A) (x y : A) → first p xs ≡ some x → first p (xs ++ (y ∷ [])) ≡ some x
  first-append-some [] x y h = absurd (let n : Option.none ≡ some x = h in cc)
  first-append-some (z ∷ zs) x y h = elim (Bool-cases (p z)) [
    | inl e ↦ rw e (rw e at h)
    | inr e ↦ rw e (first-append-some zs x y (rw e at h))
  ]

  first-update_first :
      (f : A → A) (xs : List A) (x : A)
      → ((y : A) → p y ≡ true → p (f y) ≡ true)
      → first p xs ≡ some x
      → first p (update_first p f xs) ≡ some (f x)
  unfolding update_first
  first-update_first f [] x g h = absurd (let n : Option.none ≡ some x = h in cc)
  first-update_first f (z ∷ zs) x g h = elim (Bool-cases (p z)) [
    | inl e ↦
        rw e
          (rw (g z e) (let same : z ≡ x = (let q = rw e at h in cc) in ap (λ y. some (f y)) same))
    | inr e ↦ rw e (rw e (first-update_first f zs x g (rw e at h)))
  ]

  first-update_first-other :
      (q : A → Bool) (f : A → A) (xs : List A)
      → ((y : A) → q y ≡ true → (p y ≡ false) × (p (f y) ≡ false))
      → first p (update_first q f xs) ≡ first p xs
  unfolding update_first
  first-update_first-other q f [] g = refl
  first-update_first-other q f (z ∷ zs) g = elim (Bool-cases (q z)) [
    | inl e ↦ let (a, b) = g z e in rw (e, a, b) refl
    | inr e ↦ rw e (ap (λ x. if p z then some z else x) (first-update_first-other q f zs g))
  ]

module _ (suppression : ℕ) (summaries : List Summary) where
  get_or_create-found :
      (x : Summary)
      → first (is_summary_of suppression) summaries ≡ some x
      → get_or_create_summary suppression summaries ≡ (x, summaries)
  unfolding get_or_create_summary
  get_or_create-found x e = rw (get_or_create_summary, e) refl

  get_or_create-added :
      first (is_summary_of suppression) summaries ≡ none
      → get_or_create_summary suppression summaries
        ≡ (new_summary suppression, summaries ++ (new_summary suppression ∷ []))
  unfolding get_or_create_summary
  get_or_create-added e = rw (get_or_create_summary, e) refl

  new_summary-is : is_summary_of suppression (new_summary suppression) ≡ true
  unfolding is_summary_of new_summary
  new_summary-is = nat_eq_refl suppression

  get_or_create-holds :
      let (summary, made) = get_or_create_summary suppression summaries in
      first (is_summary_of suppression) made ≡ some summary
  get_or_create-holds = elim (Option-cases (first (is_summary_of suppression) summaries)) [
    | inl e ↦ rw (get_or_create-added e) (
        first-append (is_summary_of suppression) summaries (new_summary suppression) e
          new_summary-is)
    | inr (x, e) ↦ rw (get_or_create-found x e) e
  ]

-- the summary of a suppression is closed
abbrev pub Closed : List Summary → Suppression → Type 0
Closed summaries s =
    (x : Summary) × (first (is_summary_of s.id) summaries ≡ some x) × (is_closed x ≡ true)

get_or_create-Closed :
    (s t : Suppression) (summaries : List Summary)
    → Closed summaries t
    → Closed (get_or_create_summary s.id summaries).1 t
get_or_create-Closed s t summaries (x, e, h) =
    elim (Option-cases (first (is_summary_of s.id) summaries)) [
      | inl n ↦
          rw (get_or_create-added s.id summaries n)
            (x, first-append-some (is_summary_of t.id) summaries x _ e, h)
      | inr (y, n) ↦ rw (get_or_create-found s.id summaries y n) (x, e, h)
    ]

-- Writing the summary of another suppression leaves a closed one closed.
update-Closed :
    (s t : Suppression) (summaries : List Summary) (f : Summary → Summary)
    → ((y : Summary) → (f y).suppression_id ≡ y.suppression_id)
    → is_closed (get_or_create_summary s.id summaries).0 ≡ false
    → Closed summaries t
    → Closed (update_first (is_summary_of s.id) f (get_or_create_summary s.id summaries).1) t
unfolding is_summary_of
update-Closed s t summaries f g o (x, e, h) = elim (Bool-cases (nat_eq s.id t.id)) [
  | inl q ↦
      let found =
        subst (λ n. first (is_summary_of n) summaries ≡ some x) (sym ((nat_eq_iff s.id t.id).0 q))
          e in
      absurd (let bad = rw (get_or_create-found s.id summaries x found) at o in cc)
  | inr q ↦
      let (y, k, l) = get_or_create-Closed s t summaries (x, e, h) in
      let apart =
        first-update_first-other (is_summary_of t.id) (is_summary_of s.id) f
          (get_or_create_summary s.id summaries).1
          (λ z m. let same = g z in (ground arith, ground arith)) in
      (y, apart ∙ k, l)
]

module _ (c : Setting) where
  finalize_one-Closed :
      (s t : Suppression) (r : ℕ × Store)
      → Closed r.1.summaries t
      → Closed (finalize_one c s r).1.summaries t
  unfolding settle_summary record_failure record_requeue_failure fail_summary close_summary
      with_stats
  finalize_one-Closed s t r h =
      finalize_one-holds c (λ x. Closed x.1.summaries t) s r
        (get_or_create-Closed s t r.1.summaries h)
        (λ error o. update-Closed s t r.1.summaries (fail_summary error) (λ y. refl) o h)
        (λ turns error o. update-Closed s t r.1.summaries _ (λ y. refl) o h)
        (λ o. update-Closed s t r.1.summaries _ (λ y. refl) o h)

  finalize_each-Closed :
      (ss : List Suppression) (t : Suppression) (r : ℕ × Store)
      → Closed r.1.summaries t
      → Closed (finalize_each c ss r).1.summaries t
  unfolding finalize_each
  finalize_each-Closed [] t r h = h
  finalize_each-Closed (s ∷ ss) t r h =
      finalize_each-Closed ss t (finalize_one c s r) (finalize_one-Closed s t r h)

  finalize_one-closes :
      (s : Suppression) (r : ℕ × Store)
      → c.stats_error s.id ≡ none
      → c.requeue_error s.id ≡ none
      → Closed (finalize_one c s r).1.summaries s
  unfolding finalize_one settle_summary close_summary with_stats is_closed
  finalize_one-closes s r e n =
      let found = get_or_create-holds s.id r.1.summaries in
      elim (Bool-cases (is_closed (get_or_create_summary s.id r.1.summaries).0)) [
        | inl q ↦ rw q ((get_or_create_summary s.id r.1.summaries).0, found, q)
        | inr q ↦
            rw (q, e, n)
              (
                _,
                first-update_first (is_summary_of s.id) _
                    (get_or_create_summary s.id r.1.summaries).1 _ (λ y m. settled-same y m) found,
                refl,
              )
      ]
    where
      settled-same :
          (y : Summary)
          → is_summary_of s.id y ≡ true
          → is_summary_of s.id (
              close_summary c.now
                (with_stats c.now (compute_suppression_stats c.isoformat s.id r.1.events) y))
            ≡ true
      settled-same y m = m

  finalize_each-closes :
      (ss : List Suppression) (r : ℕ × Store)
      → ((n : ℕ) → c.stats_error n ≡ none)
      → ((n : ℕ) → c.requeue_error n ≡ none)
      → All (Closed (finalize_each c ss r).1.summaries) ss
  unfolding finalize_each
  finalize_each-closes [] r h k = tt
  finalize_each-closes (s ∷ ss) r h k = (
    finalize_each-Closed ss s (finalize_one c s r) (finalize_one-closes s r (h s.id) (k s.id)),
    finalize_each-closes ss (finalize_one c s r) h k,
  )

  -- When suppressions and their lifecycle are enabled, and neither a read of statistics nor a replay
  -- raises, a pass leaves the summary of every suppression of its batch closed.
  pub finalize_expired-closes :
      (suppressions : List Suppression) (st : Store)
      → c.suppressions_enabled ≡ true
      → c.lifecycle_enabled ≡ true
      → ((n : ℕ) → c.stats_error n ≡ none)
      → ((n : ℕ) → c.requeue_error n ≡ none)
      → All
          (Closed (finalize_expired_suppressions c suppressions st).1.summaries)
          (expired_batch c suppressions)
  unfolding finalize_expired_suppressions
  finalize_expired-closes suppressions st h k e n =
      rw (finalize_expired_suppressions, h, k) (finalize_each-closes _ (0, st) e n)

  finalize_one-stops :
      (s : Suppression) (r : ℕ × Store) → Closed r.1.summaries s → finalize_one c s r ≡ r
  unfolding finalize_one
  finalize_one-stops s r (x, e, h) =
      rw (finalize_one, get_or_create-found s.id r.1.summaries x e) (rw h refl)

  finalize_each-stops :
      (ss : List Suppression) (r : ℕ × Store)
      → All (Closed r.1.summaries) ss
      → finalize_each c ss r ≡ r
  unfolding finalize_each
  finalize_each-stops [] r h = refl
  finalize_each-stops (s ∷ ss) r h = rw (finalize_one-stops s r h.0) (finalize_each-stops ss r h.1)

  -- When the summaries of a whole batch are closed, the pass does nothing at all, whichever other
  -- suppressions have expired: the batch is chosen before the closed ones are passed over.
  pub finalize_expired-stuck :
      (suppressions : List Suppression) (st : Store)
      → All (Closed st.summaries) (expired_batch c suppressions)
      → finalize_expired_suppressions c suppressions st ≡ (0, st)
  finalize_expired-stuck suppressions st h =
      pass-holds c (λ r. r ≡ (0, st)) suppressions st refl (finalize_each-stops _ (0, st) h)
