-- ===== src/Auth.antt =====
-- Who may call what (api/services/auth_service.py): roles and their order, the role of an identity,
-- and the check of a role. Routes holds the route predicates and Access the decision on a request;
-- the proofs are in Roles, Deciding and Reaching.
use poundcake.Prelude.{
  map, ◌++◌, keep, not, one_of, ◌||◌, [], ltb, true, ◌&&◌, false, if◌then◌else◌, nat_eq, none, some,
  str_eq, ◌∷◌, Bool, List, Option, String, ℕ,
}
use poundcake.Prelude.Text.{strip, lower}
use mathlib.Core.Option
pub mod Routes
pub mod Access
pub mod Roles
pub mod Deciding
pub mod Areas
pub mod Reaching

-- AuthRole
pub data AuthRole : Type 0 where
  reader operator admin service : AuthRole

-- ROLE_PRECEDENCE
unfoldable pub precedence : AuthRole → ℕ
precedence reader = 0
precedence operator = 1
precedence admin = 2
precedence service = 3

unfoldable pub show_role : AuthRole → String
show_role reader = "reader"
show_role operator = "operator"
show_role admin = "admin"
show_role service = "service"

unfoldable pub role_eq : AuthRole → AuthRole → Bool
unfolding precedence
role_eq a b = nat_eq (precedence a) (precedence b)

-- the keys of ROLE_PRECEDENCE
unfoldable pub role_named : String → Option AuthRole
role_named s =
    if str_eq s "reader"
    then some reader
    else if str_eq s "operator"
    then some operator
    else if str_eq s "admin"
    then some admin
    else if str_eq s "service"
    then some service
    else none

-- `highest_role`: the loop, with the best role so far
unfoldable pub better : Option AuthRole → AuthRole → AuthRole
unfolding precedence
better none candidate = candidate
better (some best) candidate =
    if ltb (precedence best) (precedence candidate) then candidate else best

unfoldable pub consider : Option AuthRole → Option AuthRole → Option AuthRole
unfolding better
consider best none = best
consider best (some candidate) = some (better best candidate)

unfoldable pub highest_from : Option AuthRole → List String → Option AuthRole
unfolding consider
highest_from best [] = best
highest_from best (role ∷ roles) =
    highest_from (consider best (role_named (lower (strip role)))) roles

unfoldable pub highest_role : List String → Option AuthRole
unfolding highest_from
highest_role roles = highest_from none roles

-- ROLE_PERMISSIONS
unfoldable pub role_permissions : AuthRole → List String
role_permissions reader = "read" ∷ []
role_permissions operator =
    "read" ∷ "manage_alert_rules" ∷ "manage_ingredients" ∷ "manage_recipes" ∷ "manage_suppressions"
    ∷ []
role_permissions admin =
    "read" ∷ "manage_access" ∷ "manage_alert_rules" ∷ "manage_auth" ∷ "manage_global_communications"
    ∷ "manage_ingredients" ∷ "manage_recipes" ∷ "manage_suppressions" ∷ []
role_permissions service = "read" ∷ "service" ∷ []

unfoldable pub permissions_for_role : AuthRole → Bool → List String
unfolding role_permissions
permissions_for_role role is_superuser =
    let permissions = role_permissions role in
    if is_superuser && not (one_of "superuser" permissions)
    then permissions ++ ("superuser" ∷ [])
    else permissions

-- AuthContext
pub record AuthContext : Type 0 where
  pub provider : String
  pub subject_id : String
  pub username : String
  pub display_name : Option String
  pub groups : List String
  pub role : AuthRole
  pub principal_type : String
  pub is_superuser : Bool
  pub permissions : List String
  pub principal_id : Option ℕ
  pub session_id : Option String
  pub expires_at : Option String
  pub service_plugin_id : Option ℕ
  pub service_type : Option String
  pub plugin_type : Option String
  pub credential_scope : Option String

-- `context.role in HUMAN_ROLES`
unfoldable pub is_human_role : AuthRole → Bool
is_human_role service = false
is_human_role _ = true

unfoldable pub is_authorized_for_role : AuthContext → AuthRole → Bool
unfolding role_eq is_human_role
is_authorized_for_role context required =
    if role_eq required service
    then role_eq context.role service
    else if role_eq context.role service
    then role_eq required reader
    else if context.is_superuser
    then true
    else if role_eq required reader
    then is_human_role context.role
    else if role_eq required operator
    then role_eq context.role operator || role_eq context.role admin
    else if role_eq required admin
    then role_eq context.role admin
    else false

-- AuthRoleBinding: the columns that the resolution of a role reads
pub record RoleBinding : Type 0 where
  pub provider : String
  pub binding_type : String
  pub role : String
  pub principal_id : Option ℕ
  pub external_group : Option String

-- AuthIdentity, its groups already normalised
pub record Identity : Type 0 where
  pub provider : String
  pub groups : List String
  pub is_superuser : Bool

-- What the resolution of a role returns or raises: MultipleResultsFound of `scalar_one_or_none`.
pub data Resolved : Type 0 where
  role_is : Option String → Resolved
  multiple_results : Resolved

some_is {ℓ} : {A : Type ℓ} → (A → Bool) → Option A → Bool
some_is test none = false
some_is test (some a) = test a

unfoldable pub binds_user : Identity → ℕ → RoleBinding → Bool
unfolding some_is
binds_user identity principal b =
    str_eq b.provider identity.provider
    && str_eq b.binding_type "user"
    && some_is (nat_eq principal) b.principal_id

unfoldable pub binds_group : Identity → RoleBinding → Bool
unfolding some_is
binds_group identity b =
    str_eq b.provider identity.provider
    && str_eq b.binding_type "group"
    && some_is (λ g. one_of g identity.groups) b.external_group

group_role : Identity → List RoleBinding → Option String
unfolding show_role
group_role identity bindings = elim identity.groups [
  | [] ↦ none
  | ◌∷◌ g gs ↦
      Option.map show_role (highest_role (map (λ b. b.role) (keep (binds_group identity) bindings)))
]

resolve_from : Identity → List RoleBinding → List RoleBinding → Resolved
unfolding group_role
resolve_from identity bindings [] = role_is (group_role identity bindings)
resolve_from identity bindings (b ∷ []) = role_is (some b.role)
resolve_from identity bindings (b ∷ c ∷ more) = multiple_results

-- `resolve_role_for_identity`, the principal's number at hand
unfoldable pub resolve_role_for_identity : Identity → ℕ → List RoleBinding → Resolved
unfolding resolve_from
resolve_role_for_identity identity principal bindings =
    if str_eq identity.provider "local" && identity.is_superuser
    then role_is (some "admin")
    else resolve_from identity bindings (keep (binds_user identity principal) bindings)
