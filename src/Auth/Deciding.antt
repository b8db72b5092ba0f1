-- ===== src/Auth/Deciding.antt =====
-- What the decision on a request promises: human roles are ordered, a service's routes are its own,
-- and what a reader may call only reads.
use poundcake.Auth.Access.{
  runtime_requirement, write_requirement, service_access, human_access, is_empty, has_scope,
  require, is_internal_plugin, is_granted, ensure_request_authorized, request_role_requirement,
}
use poundcake.Prelude.{
  inr, str_eq, eq_iff, inl, refl, sym, ◌∙◌, Option, [], ap, arith, ◌∷◌, one_of, none, ◌⊎◌, false,
  ◌↔◌, ◌≤◌, some, true, ◌≡◌, String,
}
use poundcake.Auth.Routes.{service_allowed_path, reader_reporting_status_path}
use poundcake.Auth.{
  admin, operator, is_authorized_for_role, role_eq, precedence, reader, service, AuthRole,
  is_human_role, AuthContext,
}
use poundcake.Prelude.Text.{text_or_empty, upper}

is_authorized_for_role-monotone :
    (context : AuthContext) (r required : AuthRole)
    → is_human_role context.role ≡ true
    → is_human_role r ≡ true
    → precedence context.role ≤ precedence r
    → is_authorized_for_role context required ≡ true
    → is_authorized_for_role (record context { role = r }) required ≡ true
unfolding is_authorized_for_role is_human_role role_eq precedence
is_authorized_for_role-monotone context r reader h h' le g = ground arith
is_authorized_for_role-monotone context r operator h h' le g = ground arith
is_authorized_for_role-monotone context r admin h h' le g = ground arith
is_authorized_for_role-monotone context r service h h' le g = ground arith

human-not_service : (r : AuthRole) → is_human_role r ≡ true → role_eq r service ≡ false
unfolding is_human_role role_eq precedence
human-not_service reader h = refl
human-not_service operator h = refl
human-not_service admin h = refl
human-not_service service h = cc

-- For a human principal, the decision is the check of the required role.
require_human :
    (context : AuthContext) (path method : String) (required : AuthRole)
    → is_human_role context.role ≡ true
    → is_granted (require context path method (some required))
      ≡ is_authorized_for_role context required
unfolding require human_access is_granted
require_human context path method required h =
    let e = human-not_service context.role h in ground arith

-- When a human principal may make a request, so may the same principal with a human role that is no
-- lower.
ensure_request_authorized-monotone :
    (context : AuthContext) (r : AuthRole) (path method : String)
    → is_human_role context.role ≡ true
    → is_human_role r ≡ true
    → precedence context.role ≤ precedence r
    → is_granted (ensure_request_authorized context path method) ≡ true
    → is_granted (ensure_request_authorized (record context { role = r }) path method) ≡ true
unfolding ensure_request_authorized require
ensure_request_authorized-monotone context r path method h h' le g =
    by_requirement (request_role_requirement path method) g
  where
    by_requirement :
        (q : Option AuthRole)
        → is_granted (require context path method q) ≡ true
        → is_granted (require (record context { role = r }) path method q) ≡ true
    by_requirement none g = g
    by_requirement (some required) g =
        require_human (record context { role = r }) path method required h'
        ∙ is_authorized_for_role-monotone context r required h h' le
            (sym (require_human context path method required h) ∙ g)

-- When a route requires the service role, no human principal may call it, a superuser no more than
-- another.
pub human-no_service_route :
    (context : AuthContext) (path method : String)
    → is_human_role context.role ≡ true
    → request_role_requirement path method ≡ some service
    → is_granted (ensure_request_authorized context path method) ≡ false
unfolding ensure_request_authorized is_authorized_for_role is_granted require
human-no_service_route context path method h q =
    ap (λ x. is_granted (require context path method x)) q
    ∙ require_human context path method service h
    ∙ human-not_service context.role h

service-role_eq : (r : AuthRole) → r ≡ service → role_eq r service ≡ true
unfolding role_eq precedence
service-role_eq r h = ap (λ r. role_eq r service) h

service_access_iff :
    (context : AuthContext) (path method : String)
    → (is_granted (service_access context path method) ≡ true) ↔ (
        (is_internal_plugin context ≡ true)
        × (has_scope context "poundcake_control_plane" ≡ true)
        × (is_empty (text_or_empty context.service_type) ≡ false)
        × (service_allowed_path context.service_type path method ≡ true))
unfolding service_access is_granted
service_access_iff context path method = ground arith

-- A service principal may make a request exactly if the route is public, or if it is an internal
-- plugin of some service type, with the scope poundcake_control_plane, whose list of routes has the
-- request.
pub service-granted_iff :
    (context : AuthContext) (path method : String)
    → context.role ≡ service
    → (is_granted (ensure_request_authorized context path method) ≡ true) ↔ (
        (request_role_requirement path method ≡ none)
        ⊎ ((is_internal_plugin context ≡ true)
            × (has_scope context "poundcake_control_plane" ≡ true)
            × (is_empty (text_or_empty context.service_type) ≡ false)
            × (service_allowed_path context.service_type path (upper method) ≡ true)))
unfolding ensure_request_authorized require is_granted
service-granted_iff context path method h = by_requirement (request_role_requirement path method)
  where
    by_requirement :
        (q : Option AuthRole)
        → (is_granted (require context path method q) ≡ true) ↔ (
            (q ≡ none)
            ⊎ ((is_internal_plugin context ≡ true)
                × (has_scope context "poundcake_control_plane" ≡ true)
                × (is_empty (text_or_empty context.service_type) ≡ false)
                × (service_allowed_path context.service_type path (upper method) ≡ true)))
    by_requirement none = (λ g. inl refl, λ x. refl)
    by_requirement (some required) =
        rw (service-role_eq context.role h)
          (ground (arith, service_access_iff context path (upper method)))

reader_reporting_status_path-get :
    (path method : String)
    → reader_reporting_status_path path method ≡ true
    → str_eq method "GET" ≡ true
unfolding reader_reporting_status_path
reader_reporting_status_path-get path method h = ground arith

write-reader_reads :
    (path m : String) → write_requirement path m ≡ some reader → str_eq m "GET" ≡ true
unfolding write_requirement
write-reader_reads path m h = ground arith

runtime-reader_reads :
    (path m : String) → runtime_requirement path m ≡ some reader → str_eq m "GET" ≡ true
unfolding runtime_requirement
runtime-reader_reads path m h =
    ground (arith, write-reader_reads path m, reader_reporting_status_path-get path m)

reader-route_reads :
    (path method : String)
    → request_role_requirement path method ≡ some reader
    → (str_eq (upper method) "GET" ≡ true)
      ⊎ (one_of path ("/api/v1/auth/me" ∷ "/api/v1/auth/logout" ∷ []) ≡ true)
unfolding request_role_requirement
reader-route_reads path method h = ground (arith, runtime-reader_reads path (upper method))

-- When a route requires the reader role, the method is GET, or the route is one of the two on the
-- caller's own session.
reader-reads :
    (path method : String)
    → request_role_requirement path method ≡ some reader
    → (upper method ≡ "GET") ⊎ (one_of path ("/api/v1/auth/me" ∷ "/api/v1/auth/logout" ∷ []) ≡ true)
unfolding request_role_requirement
reader-reads path method h =
    let (reads, back) = eq_iff (upper method) "GET" in
    elim (reader-route_reads path method h) [ inl e ↦ inl (reads e) | inr e ↦ inr e ]
