-- ===== src/Auth/Access.antt =====
-- The decision on a request (api/services/auth_service.py): the role that a route requires, and
-- whether a principal may make the request.
use poundcake.Prelude.Text.{ends_with, strip, upper, text_or_empty}
use poundcake.Prelude.{
  starts_with, [], ◌∷◌, one_of, ◌||◌, none, false, not, some, ◌&&◌, Option, if◌then◌else◌, str_eq,
  true, Bool, String,
}
use poundcake.Auth.Routes.{
  admin_detail_read_path, operator_desired_state_read_path, expediter_runner_runtime_path,
  timer_runtime_path, admin_execution_history_path, reader_reporting_status_path,
  admin_plugin_configuration_path, operator_plugin_runtime_path, path_is, service_only_path,
  is_request_public, service_allowed_path,
}
use poundcake.Auth.{
  operator, reader, admin, service, role_eq, show_role, is_authorized_for_role, AuthRole,
  AuthContext,
}
use Prim.Native.String.{◌++◌ as append}

-- the end of `request_role_requirement`: writes, then what is left
unfoldable pub write_requirement : String → String → Option AuthRole
write_requirement path m =
    if starts_with path "/api/v1/scheduled-tasks/" && ends_with path "/run-now" && str_eq m "POST"
    then some operator
    else if starts_with path "/api/v1/scheduled-tasks/" && str_eq m "PATCH"
    then some operator
    else if path_is path "/api/v1/plugins" && not (str_eq m "GET")
    then some admin
    else if path_is path "/api/v1/service-registry" && not (str_eq m "GET")
    then some admin
    else if path_is path "/api/v1/recipes" && not (str_eq m "GET")
    then some operator
    else if path_is path "/api/v1/suppressions" && not (str_eq m "GET")
    then some operator
    else if starts_with path "/api/v1/repo-sync/workflows" && str_eq m "POST"
    then some operator
    else if str_eq path "/api/v1/repo-sync/workflows" && str_eq m "DELETE"
    then some admin
    else if str_eq m "GET"
    then some reader
    else some admin

-- its middle: plugins, reports and the routes of the running services
unfoldable pub runtime_requirement : String → String → Option AuthRole
runtime_requirement path m =
    if operator_plugin_runtime_path path m
    then some operator
    else if admin_plugin_configuration_path path m
    then some admin
    else if reader_reporting_status_path path m
    then some reader
    else if admin_execution_history_path path m
    then some admin
    else if timer_runtime_path path m
    then some service
    else if expediter_runner_runtime_path path m
    then some service
    else if operator_desired_state_read_path path m
    then some operator
    else if admin_detail_read_path path m
    then (if str_eq path "/api/v1/scheduled-tasks/due" then some service else some admin)
    else write_requirement path m

-- `request_role_requirement`: none for a route that needs no role
unfoldable pub request_role_requirement : String → String → Option AuthRole
request_role_requirement path method =
    let m = upper method in
    if is_request_public path m
    then none
    else if service_only_path path m
    then some service
    else if path_is path "/api/v1/auth/bindings" || path_is path "/api/v1/auth/principals"
    then some admin
    else if one_of path ("/api/v1/auth/me" ∷ "/api/v1/auth/logout" ∷ [])
    then some reader
    else if str_eq path "/api/v1/settings" && str_eq m "GET"
    then some reader
    else if str_eq path "/api/v1/ui/operator-actions" && str_eq m "POST"
    then some operator
    else if str_eq path "/api/v1/ui/operator-actions" && str_eq m "GET"
    then some reader
    else if str_eq path "/api/v1/communications/policy" && str_eq m "PUT"
    then some admin
    else runtime_requirement path m

-- What the check of a request does: it returns, or raises AccessDeniedError with a text.
pub data Access : Type 0 where
  granted : Access
  access_denied : String → Access

-- the scope that `_require_service_credential_scope` wants of an internal plugin
unfoldable pub has_scope : AuthContext → String → Bool
has_scope context expected = str_eq (strip (text_or_empty context.credential_scope)) expected

unfoldable pub is_internal_plugin : AuthContext → Bool
is_internal_plugin context = str_eq (text_or_empty context.plugin_type) "internal_plugin"

unfoldable pub is_empty : String → Bool
is_empty s = str_eq s ""

-- `context.service_type or context.username or "service"`
scope_label : AuthContext → String
unfolding is_empty
scope_label context =
    let kind = text_or_empty context.service_type in
    if not (is_empty kind)
    then kind
    else if not (is_empty context.username)
    then context.username
    else "service"

service_note : AuthContext → String
unfolding is_empty
service_note context =
    let kind = text_or_empty context.service_type in
    if is_empty kind then "" else append " (" (append kind ")")

unfoldable pub service_access : AuthContext → String → String → Access
unfolding is_empty scope_label service_note
service_access context path method =
    if is_internal_plugin context && not (has_scope context "poundcake_control_plane")
    then access_denied (
        append "service credential scope for "
          (append (scope_label context) " must be 'poundcake_control_plane'"))
    else if is_internal_plugin context
        && not (is_empty (text_or_empty context.service_type))
        && service_allowed_path context.service_type path method
    then granted
    else access_denied (
        append "service role" (
          append (service_note context)
            (append " cannot access " (append method (append " " path)))))

unfoldable pub human_access : AuthContext → AuthRole → String → String → Access
human_access context required path method =
    if is_authorized_for_role context required
    then granted
    else access_denied (
        append (show_role context.role)
          (append " role cannot access " (append (upper method) (append " " path))))

unfoldable pub require : AuthContext → String → String → Option AuthRole → Access
unfolding service_access human_access
require context path method none = granted
require context path method (some required) =
    if role_eq context.role service
    then service_access context path (upper method)
    else human_access context required path method

-- `ensure_request_authorized`
unfoldable pub ensure_request_authorized : AuthContext → String → String → Access
unfolding require
ensure_request_authorized context path method =
    require context path method (request_role_requirement path method)

unfoldable pub is_granted : Access → Bool
is_granted granted = true
is_granted (access_denied _) = false
