-- ===== src/Json/Keys.antt =====
-- Reading a dict after a key of it was set.
use poundcake.Prelude.{
  if◌then◌else◌, eq_iff, refl, sym, inr, subst, ap, inl, Bool-cases, eq_refl, false, some, str_eq,
  ◌≡◌, String,
}
use poundcake.Json.{end, field, Fields, Value, get, get_or_null, set_field}

pub get-set_same : (k : String) (v : Value) (fs : Fields) → get k (set_field k v fs) ≡ some v
unfolding get set_field
get-set_same k v end = rw (eq_refl k) refl
get-set_same k v (field j w rest) = elim (Bool-cases (str_eq j k)) [
  | inl e ↦ rw e (rw (eq_refl k) refl)
  | inr e ↦ rw e (rw e (get-set_same k v rest))
]

pub get-set_other :
    (k j : String) (v : Value) (fs : Fields)
    → str_eq k j ≡ false
    → get j (set_field k v fs) ≡ get j fs
unfolding get set_field
get-set_other k j v end h = rw h refl
get-set_other k j v (field i w rest) h = elim (Bool-cases (str_eq i k)) [
  | inl e ↦
      let other = subst (λ x. str_eq x j ≡ false) (sym ((eq_iff i k).0 e)) h in
      rw e (rw h (rw other refl))
  | inr e ↦ rw e (ap (λ x. if str_eq i j then some w else x) (get-set_other k j v rest h))
]

pub get_or_null-some :
    (k : String) (v : Value) (fs : Fields) → get k fs ≡ some v → get_or_null k fs ≡ v
get_or_null-some k v fs e = rw (get_or_null, e) refl
