-- ===== src/Suppressions/Choosing.antt =====
-- The suppression that an alert falls under is active, matches, and is the first of those.
use poundcake.Prelude.{
  String, ◌≤◌, ◌≡◌, ◌↔◌, ◌⊎◌, inl, inr, true, false, some, none, List, [], ◌∷◌, In, All-In, arith,
  keep, sort_by, ℕ, Bool, Option, sort_by-In, In-sort_by, sort_by-Ascends, Ascends, keep-In,
  In-keep, refl, subst, sym,
}
use poundcake.Json.{Fields}
use poundcake.Suppressions.{
  Texts, Suppression, WindowStatus, suppression_status, suppression_matches, is_candidate,
  created_before, first_match, find_first_matching_suppression, status_filter,
}

-- the statuses' texts
abbrev pub status_text : WindowStatus → String
status_text WindowStatus.canceled = "canceled"
status_text WindowStatus.scheduled = "scheduled"
status_text WindowStatus.expired = "expired"
status_text WindowStatus.active = "active"

-- For a suppression that starts no later than it ends, the filter that list_suppressions puts on its
-- query for a status keeps exactly the suppressions of which suppression_status gives that status.
status_filter-suppression_status :
    (now : ℕ) (s : Suppression) (status : WindowStatus)
    → s.starts_at ≤ s.ends_at
    → (status_filter (some (status_text status)) now s ≡ true) ↔ (suppression_status s now ≡ status)
unfolding status_filter suppression_status
status_filter-suppression_status now s WindowStatus.canceled h = ground arith
status_filter-suppression_status now s WindowStatus.scheduled h = ground arith
status_filter-suppression_status now s WindowStatus.expired h = ground arith
status_filter-suppression_status now s WindowStatus.active h = ground arith

-- A candidate is an enabled suppression that suppression_status calls active.
candidate_iff :
    (now : ℕ) (s : Suppression)
    → (is_candidate now s ≡ true)
      ↔ ((s.enabled ≡ true) × (suppression_status s now ≡ WindowStatus.active))
unfolding is_candidate suppression_status
candidate_iff now s = ground arith

created_before-asym : (a b : Suppression) → created_before a b ≡ true → created_before b a ≡ false
unfolding created_before
created_before-asym a b h = ground arith

created_before_irrefl : (a : Suppression) → created_before a a ≡ false
unfolding created_before
created_before_irrefl a = ground arith

created_before-not_later :
    (a b c : Suppression)
    → created_before b a ≡ false
    → created_before c b ≡ false
    → created_before c a ≡ false
unfolding created_before
created_before-not_later a b c h k = ground arith

outcome_cases : (o : Option Bool) → (o ≡ none) ⊎ (o ≡ some true) ⊎ (o ≡ some false)
outcome_cases none = inl refl
outcome_cases (some true) = inr (inl refl)
outcome_cases (some false) = inr (inr refl)

module _ (t : Texts) (labels : Fields) where
  -- What the loop returns is one of the candidates, matches, and no candidate before it matches.
  first_match-some :
      (xs : List Suppression) (s : Suppression)
      → Ascends created_before created_before-asym created_before-not_later xs
      → first_match t labels xs ≡ some (some s)
      → In s xs
        × (suppression_matches t s labels ≡ some true)
        × ((x : Suppression)
            → In x xs
            → suppression_matches t x labels ≡ some true
            → created_before x s ≡ false)
  unfolding first_match
  first_match-some [] s a h = absurd (let n : Option.none ≡ some s = ground arith in cc)
  first_match-some (x ∷ xs) s a h = elim (outcome_cases (suppression_matches t x labels)) [
    | inl none_found ↦ absurd (let q = rw none_found at h in cc)
    | inr (inl hit) ↦
        let same : x ≡ s = (let q = rw hit at h in cc) in
        subst Chosen same (inl refl, hit, first_chosen)
    | inr (inr miss) ↦
        let (m, matched, before) = first_match-some xs s a.1 (rw miss at h) in
        (inr m, matched, later_chosen miss before)
  ]
    where
      Chosen : Suppression → Type 0
      Chosen s =
          In s (x ∷ xs)
          × (suppression_matches t s labels ≡ some true)
          × ((y : Suppression)
              → In y (x ∷ xs)
              → suppression_matches t y labels ≡ some true
              → created_before y s ≡ false)

      first_chosen :
          (y : Suppression)
          → In y (x ∷ xs)
          → suppression_matches t y labels ≡ some true
          → created_before y x ≡ false
      first_chosen y (inl e) q =
          subst (λ z. created_before z x ≡ false) (sym e) (created_before_irrefl x)
      first_chosen y (inr m) q = All-In (λ z. created_before z x ≡ false) xs y a.0 m

      later_chosen :
          suppression_matches t x labels ≡ some false
          → ((y : Suppression)
              → In y xs
              → suppression_matches t y labels ≡ some true
              → created_before y s ≡ false)
          → (y : Suppression) → In y (x ∷ xs)
          → suppression_matches t y labels ≡ some true
          → created_before y s ≡ false
      later_chosen miss before y (inl e) q = absurd (let r = rw (e, miss) at q in cc)
      later_chosen miss before y (inr m) q = before y m q

  first_match-none :
      (xs : List Suppression) (x : Suppression)
      → first_match t labels xs ≡ some none
      → In x xs
      → suppression_matches t x labels ≡ some false
  unfolding first_match
  first_match-none [] x h m = absurd m
  first_match-none (y ∷ ys) x h m = elim (outcome_cases (suppression_matches t y labels)) [
    | inl raised ↦ absurd (let q = rw raised at h in cc)
    | inr (inl hit) ↦ absurd (let q = rw hit at h in cc)
    | inr (inr miss) ↦ elim m [ inl e ↦ rw e miss | inr n ↦ first_match-none ys x (rw miss at h) n ]
  ]

  module _ (now : ℕ) (all : List Suppression) where
    abbrev pub Applies : Suppression → Type 0
    Applies s = In s all × (s.enabled ≡ true) × (suppression_status s now ≡ WindowStatus.active)

    candidates-Applies :
        (s : Suppression) → In s (sort_by created_before (keep (is_candidate now) all)) → Applies s
    candidates-Applies s m =
        let (n, q) = keep-In (is_candidate now) all s (sort_by-In created_before _ s m) in
        let (e, a) = (candidate_iff now s).0 q in (n, e, a)

    Applies-candidates :
        (s : Suppression) → Applies s → In s (sort_by created_before (keep (is_candidate now) all))
    Applies-candidates s (m, e, a) =
        In-sort_by created_before _ s
          (In-keep (is_candidate now) all s m ((candidate_iff now s).1 (e, a)))

    -- The suppression that an alert falls under is enabled, active by suppression_status and matches
    -- the labels, and no enabled, active and matching suppression was created before it (by created_at,
    -- then id).
    pub find_first_matching_suppression-chosen :
        (s : Suppression)
        → find_first_matching_suppression t labels now all ≡ some (some s)
        → Applies s
          × (suppression_matches t s labels ≡ some true)
          × ((x : Suppression)
              → Applies x
              → suppression_matches t x labels ≡ some true
              → created_before x s ≡ false)
    unfolding find_first_matching_suppression
    find_first_matching_suppression-chosen s h =
        let sorted =
          sort_by-Ascends created_before created_before-asym created_before-not_later
            (keep (is_candidate now) all) in
        let (m, matched, before) = first_match-some _ s sorted h in
        (candidates-Applies s m, matched, λ x a q. before x (Applies-candidates x a) q)

    -- An alert falls under no suppression only if no enabled, active suppression matches its labels.
    pub find_first_matching_suppression-none :
        find_first_matching_suppression t labels now all ≡ some none
        → (x : Suppression) → Applies x
        → suppression_matches t x labels ≡ some false
    unfolding find_first_matching_suppression
    find_first_matching_suppression-none h x a = first_match-none _ x h (Applies-candidates x a)
