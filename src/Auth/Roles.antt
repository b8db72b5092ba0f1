-- ===== src/Auth/Roles.antt =====
-- The choice of the highest role among the roles that a principal's groups have.
use poundcake.Prelude.{
  refl, arith, inr, ap, ◌∙◌, none, sym, subst, ◌≤◌, [], inl, In, some, ◌∷◌, ◌≡◌, List, Option,
  String,
}
use poundcake.Auth.{better, precedence, role_named, AuthRole, consider, highest_from, highest_role}
use poundcake.Prelude.Text.{strip, lower}

-- The role that a binding's text names.
abbrev pub named_role : String → Option AuthRole
named_role t = role_named (lower (strip t))

-- b is some role, and no lower than r.
abbrev pub AtLeast : Option AuthRole → AuthRole → Type 0
AtLeast b r = (best : AuthRole) × (b ≡ some best) × (precedence r ≤ precedence best)

consider-AtLeast : (b c : Option AuthRole) (r : AuthRole) → AtLeast b r → AtLeast (consider b c) r
unfolding consider better
consider-AtLeast b none r h = h
consider-AtLeast none (some c) r h = cc
consider-AtLeast (some b) (some c) r h = (better (some b) c, refl, ground arith)

consider_new : (b : Option AuthRole) (r : AuthRole) → AtLeast (consider b (some r)) r
unfolding consider better
consider_new none r = (r, refl, omega arith)
consider_new (some b) r = (better (some b) r, refl, ground arith)

highest_from-keeps :
    (roles : List String) (b : Option AuthRole) (r : AuthRole)
    → AtLeast b r
    → AtLeast (highest_from b roles) r
unfolding highest_from
highest_from-keeps [] b r h = h
highest_from-keeps (t ∷ ts) b r h =
    highest_from-keeps ts (consider b (named_role t)) r (consider-AtLeast b (named_role t) r h)

highest_from-AtLeast :
    (roles : List String) (b : Option AuthRole) (t : String) (r : AuthRole)
    → In t roles
    → named_role t ≡ some r
    → AtLeast (highest_from b roles) r
unfolding highest_from
highest_from-AtLeast [] b t r m h = absurd m
highest_from-AtLeast (u ∷ us) b t r (inl e) h =
    highest_from-keeps us _ r
      (subst (λ c. AtLeast (consider b c) r) (sym h ∙ ap named_role e) (consider_new b r))
highest_from-AtLeast (u ∷ us) b t r (inr m) h = highest_from-AtLeast us _ t r m h

-- When a text among the roles names a role, `highest_role` gives a role that is no lower.
highest_role-AtLeast :
    (roles : List String) (t : String) (r : AuthRole)
    → In t roles
    → role_named (lower (strip t)) ≡ some r
    → (best : AuthRole) × (highest_role roles ≡ some best) × (precedence r ≤ precedence best)
unfolding highest_role
highest_role-AtLeast roles t r m h = highest_from-AtLeast roles none t r m h
