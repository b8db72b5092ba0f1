-- ===== src/Segments/Collect.antt =====
-- The second loop of `next_pending_execution_segment`: the rows that it collects.
use mathlib.Core.Option.{some-injective, none, Option}
use poundcake.Prelude.{
  refl, [], inr, Bool-cases, arith, inl, true, ◌≢◌, ◌⊎◌, false, some, ◌↔◌, In, ◌≡◌,
}
use poundcake.Segments.{
  if◌then◌else◌, Bool, ◌∷◌, List, Item, Bucket, Segment, in_segment, collect, segment_at,
  segment_from,
}
use mathlib.Core.Option

-- How the loop goes on at an item: it leaves it out, or puts it in front of the rest.
abbrev Collected : Bucket → Item → List Item → List Item → Type 0
Collected b x xs rows =
    ((in_segment b x ≡ false) × (collect b xs ≡ some rows))
    ⊎ ((r : List Item) × (in_segment b x ≡ true) × (collect b xs ≡ some r) × (rows ≡ x ∷ r))

prefixed :
    (x : Item) (o : Option (List Item)) (t : Bool) (rows : List Item)
    → (if t then none else Option.map (λ r. x ∷ r) o) ≡ some rows
    → (r : List Item) × (o ≡ some r) × (rows ≡ x ∷ r)
prefixed x none true rows h = cc
prefixed x none false rows h = cc
prefixed x (some r) true rows h = cc
prefixed x (some r) false rows h = (r, refl, cc)

collect-step :
    (b : Bucket) (x : Item) (xs rows : List Item)
    → collect b (x ∷ xs) ≡ some rows
    → Collected b x xs rows
unfolding collect
collect-step b x xs rows h = elim (Bool-cases (in_segment b x)) [
  | inl inside ↦
      let (r, p, q) = prefixed x (collect b xs) _ rows (rw inside at h) in inr (r, inside, p, q)
  | inr outside ↦ inl (outside, rw outside at h)
]

abbrev Holds : Bucket → List Item → List Item → Item → Type 0
Holds b xs rows z = In z rows ↔ (In z xs × (in_segment b z ≡ true))

Collected-Holds :
    (b : Bucket) (x : Item) (xs rows : List Item) (z : Item)
    → Collected b x xs rows
    → ((r : List Item) → collect b xs ≡ some r → Holds b xs r z)
    → Holds b (x ∷ xs) rows z
Collected-Holds b x xs rows z (inl (outside, p)) ih =
    (λ m. let (i, t) = (ih rows p).0 m in (inr i, t), λ (i, t). back i t)
  where
    back : (z ≡ x) ⊎ In z xs → in_segment b z ≡ true → In z rows
    back (inl e) t = absurd (cc)
    back (inr n) t = (ih rows p).1 (n, t)
Collected-Holds b x xs rows z (inr (r, inside, p, q)) ih = rw q (there, λ (i, t). back i t)
  where
    there : (z ≡ x) ⊎ In z r → ((z ≡ x) ⊎ In z xs) × (in_segment b z ≡ true)
    there (inl e) = (inl e, rw e inside)
    there (inr n) = let (i, t) = (ih r p).0 n in (inr i, t)

    back : (z ≡ x) ⊎ In z xs → in_segment b z ≡ true → (z ≡ x) ⊎ In z r
    back (inl e) t = inl e
    back (inr n) t = inr ((ih r p).1 (n, t))

-- What is collected for a bucket is the pending items of the bucket.
pub collect-In :
    (b : Bucket) (xs rows : List Item) (z : Item) → collect b xs ≡ some rows → Holds b xs rows z
collect-In b [] rows z h = (unfold collect in ground arith, λ (i, t). absurd i)
collect-In b (x ∷ xs) rows z h =
    Collected-Holds b x xs rows z (collect-step b x xs rows h) (λ r p. collect-In b xs r z p)

pub segment_parts :
    (o : Option Bucket) (ordered : List Item) (seg : Segment)
    → segment_from o ordered ≡ some seg
    → (o ≡ some seg.bucket) × (collect seg.bucket ordered ≡ some seg.rows) × (seg.rows ≢ [])
unfolding segment_from segment_at
segment_parts none ordered seg h = cc
segment_parts (some b) ordered seg h = parts (collect b ordered) refl h
  where
    parts :
        (c : Option (List Item))
        → collect b ordered ≡ c
        → segment_at b c ≡ some seg
        → (some b ≡ some seg.bucket)
          × (collect seg.bucket ordered ≡ some seg.rows)
          × (seg.rows ≢ [])
    parts none e q = cc
    parts (some []) e q = cc
    parts (some (y ∷ ys)) e q = (ground arith, ground arith, λ n. ground arith)
