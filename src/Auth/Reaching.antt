-- ===== src/Auth/Reaching.antt =====
-- How far a service's credential reaches: the part of the API that each internal service may call.
use poundcake.Prelude.{
  ◌≡◌, ◌||◌, ◌&&◌, ◌∷◌, [], Bool-cases, Option, String, arith, eq_iff, inl, inr, one_of, some,
  starts_with, str_eq, sym, subst, true, ap, ◌∙◌,
}
use poundcake.Prelude.Text.{lower, strip, text_or_empty, upper}
use poundcake.Auth.{AuthContext, AuthRole, service}
use poundcake.Auth.Routes.{
  dishwasher_path, service_allowed_path, timer_runtime_path, expediter_runner_runtime_path,
}
use poundcake.Auth.Access.{
  ensure_request_authorized, is_granted, has_scope, is_internal_plugin, request_role_requirement,
}
use poundcake.Auth.Deciding.{service-granted_iff}
use poundcake.Auth.Areas.{
  PrepChefArea, TimerArea, RunnerArea, CredentialArea, ServiceArea, timer-methods, timer-paths,
  runner-routes, dishwasher-methods, dishwasher-paths,
}

module _ (kind : Option String) (path m : String) where
  is_named :
      (name : String)
      → str_eq (lower (strip (text_or_empty kind))) name ≡ true
      → lower (strip (text_or_empty kind)) ≡ name
  is_named name = (eq_iff (lower (strip (text_or_empty kind))) name).0

  prep_chef-Area :
      str_eq (lower (strip (text_or_empty kind))) "prep-chef" ≡ true
      → (str_eq path "/api/v1/orders" && str_eq m "GET"
          || starts_with path "/api/v1/cook/orders/" && str_eq m "POST"
          || str_eq path "/api/v1/plugins/prep-chef" && str_eq m "GET")
        ≡ true
      → PrepChefArea kind path m
  prep_chef-Area e h = (is_named "prep-chef" e, (ground arith, ground arith))

  timer-Area :
      str_eq (lower (strip (text_or_empty kind))) "timer" ≡ true
      → (timer_runtime_path path m || str_eq path "/api/v1/plugins/timer" && str_eq m "GET") ≡ true
      → TimerArea kind path m
  timer-Area e h = (
    is_named "timer" e,
    (ground (arith, timer-methods path m), ground (arith, timer-paths path m)),
  )

  runner-Area :
      str_eq (lower (strip (text_or_empty kind))) "expediter-runner" ≡ true
      → (expediter_runner_runtime_path path m
          || str_eq path "/api/v1/plugins/expediter-runner" && str_eq m "GET")
        ≡ true
      → RunnerArea kind path m
  runner-Area e h = (
    is_named "expediter-runner" e,
    (ground (arith, runner-routes path m), ground (arith, runner-routes path m)),
  )

  credential-Area :
      (str_eq (lower (strip (text_or_empty kind))) "credential-manager"
          && one_of path ("/api/v1/plugins" ∷ "/api/v1/plugins/credential-manager" ∷ [])
          && str_eq m "GET")
        ≡ true
      → CredentialArea kind path m
  credential-Area h = (is_named "credential-manager" (ground arith), (ground arith, ground arith))

service_allowed_path-ServiceArea :
    (kind : Option String) (path method : String)
    → service_allowed_path kind path method ≡ true
    → ServiceArea kind path (upper method)
unfolding service_allowed_path
service_allowed_path-ServiceArea kind path method h =
    let name = lower (strip (text_or_empty kind)) in
    elim (Bool-cases (str_eq name "prep-chef")) [
      | inl e ↦ inl (prep_chef-Area kind path (upper method) e (rw e at h))
      | inr a ↦ elim (Bool-cases (str_eq name "timer")) [
        | inl e ↦ inr (inl (timer-Area kind path (upper method) e (rw (a, e) at h)))
        | inr b ↦ elim (Bool-cases (str_eq name "expediter-runner")) [
          | inl e ↦ inr (inr (inl (runner-Area kind path (upper method) e (rw (a, b, e) at h))))
          | inr c ↦ elim (Bool-cases (str_eq name "dishwasher")) [
            | inl e ↦
                let k : dishwasher_path path (upper method) ≡ true = rw (a, b, c, e) at h in
                inr (
                  inr (
                    inr (
                      inl (
                        is_named kind path method "dishwasher" e,
                        (
                          dishwasher-methods path (upper method) k,
                          dishwasher-paths path (upper method) k,
                        ),
                      ))))
            | inr d ↦
                inr (
                  inr (inr (inr (credential-Area kind path (upper method) (rw (a, b, c, d) at h)))))
          ]
        ]
      ]
    ]

-- When a service principal may call a route that requires a role, with a method in upper case as
-- those of HTTP are, its plugin is an internal one, the scope of its credential is
-- poundcake_control_plane but for blanks around it, and it is one of the five services of
-- Auth/Areas and the request lies in its area there: one of some methods, with one of some paths or
-- with a path below one of some others.
pub service-granted_within :
    (context : AuthContext) (path method : String) (required : AuthRole)
    → context.role ≡ service
    → upper method ≡ method
    → request_role_requirement path method ≡ some required
    → is_granted (ensure_request_authorized context path method) ≡ true
    → (text_or_empty context.plugin_type ≡ "internal_plugin")
      × ((strip (text_or_empty context.credential_scope) ≡ "poundcake_control_plane")
          × ServiceArea context.service_type path method)
unfolding is_internal_plugin has_scope
service-granted_within context path method required h up q g =
    elim ((service-granted_iff context path method h).0 g) [
      | inl n ↦ absurd (let no : Option.none ≡ some required = sym n ∙ q in cc)
      | inr (plugin, scope, kind, allowed) ↦ (
        (eq_iff (text_or_empty context.plugin_type) "internal_plugin").0 plugin,
        (
          (eq_iff (strip (text_or_empty context.credential_scope)) "poundcake_control_plane").0
              scope,
          subst (ServiceArea context.service_type path) (ap upper up ∙ up)
              (service_allowed_path-ServiceArea context.service_type path (upper method) allowed),
        ),
      )
    ]
