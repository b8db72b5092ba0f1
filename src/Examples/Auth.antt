-- ===== src/Examples/Auth.antt =====
-- The theorems on roles and requests at concrete principals.

use poundcake.Prelude.Text.{lower, strip, text_or_empty, upper}
use poundcake.Auth.{role_eq, is_human_role, admin, service}
use poundcake.Auth.Routes.{
  timer_runtime_path, admin_execution_history_path, admin_plugin_configuration_path,
  operator_plugin_runtime_path, service_only_path, is_request_public, service_allowed_path,
}
use poundcake.Auth.Deciding.{human-no_service_route}
use poundcake.Auth.Reaching.{service-granted_within}
use poundcake.Auth.Areas.{ServiceArea}
use poundcake.Auth.Access.{
  has_scope, is_internal_plugin, request_role_requirement, ensure_request_authorized, is_granted,
  runtime_requirement,
}
use poundcake.Prelude.{refl, false, ◌≡◌}
use poundcake.Examples.{principal}

human-no_service_route_example :
    is_granted (ensure_request_authorized (principal admin) "/api/v1/orders" "POST") ≡ false
unfolding is_human_role request_role_requirement is_request_public upper service_only_path
human-no_service_route_example =
    human-no_service_route (principal admin) "/api/v1/orders" "POST" refl refl

service-granted_within_example :
    (text_or_empty (principal service).plugin_type ≡ "internal_plugin")
    × ((strip (text_or_empty (principal service).credential_scope) ≡ "poundcake_control_plane")
        × ServiceArea (principal service).service_type "/api/v1/suppressions/run-lifecycle" "POST")
unfolding request_role_requirement runtime_requirement is_request_public upper service_only_path
    operator_plugin_runtime_path admin_plugin_configuration_path admin_execution_history_path
    timer_runtime_path is_granted ensure_request_authorized role_eq is_internal_plugin text_or_empty
    has_scope strip service_allowed_path lower
service-granted_within_example =
    service-granted_within (principal service) "/api/v1/suppressions/run-lifecycle" "POST" service
      refl refl refl refl
