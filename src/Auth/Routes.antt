-- ===== src/Auth/Routes.antt =====
-- The route predicates of api/services/auth_service.py: tests on a path and an upper-case method.
use poundcake.Prelude.{
  [], false, ◌∷◌, not, one_of, true, ◌&&◌, if◌then◌else◌, starts_with, str_eq, ◌||◌, Bool, Option,
  String,
}
use poundcake.Prelude.Text.{ends_with, text_or_empty, strip, lower, upper}
use Prim.Native.String.{◌++◌ as append}

unfoldable pub is_public_path : String → String → Bool
is_public_path path method =
    if str_eq method "OPTIONS"
    then true
    else one_of path (
        "/" ∷ "/metrics" ∷ "/docs" ∷ "/redoc" ∷ "/openapi.json" ∷ "/livez" ∷ "/readyz"
        ∷ "/api/v1/auth/login" ∷ "/api/v1/auth/providers" ∷ "/api/v1/auth/oidc/login"
        ∷ "/api/v1/auth/oidc/callback" ∷ "/api/v1/auth/device/start" ∷ "/api/v1/auth/device/poll"
        ∷ "/api/v1/webhook" ∷ [])
      || starts_with path "/static/"

unfoldable pub is_request_public : String → String → Bool
unfolding is_public_path
is_request_public path method = is_public_path path (upper method)

unfoldable pub path_is : String → String → Bool
path_is path prefix = str_eq path prefix || starts_with path (append prefix "/")

unfoldable pub reader_reporting_status_path : String → String → Bool
reader_reporting_status_path path method =
    if not (str_eq method "GET")
    then false
    else one_of path (
        "/api/v1/health/status" ∷ "/api/v1/orders/status" ∷ "/api/v1/recipes/status"
        ∷ "/api/v1/dishes/status" ∷ "/api/v1/service-registry/ingredients/status"
        ∷ "/api/v1/scheduled-tasks/status" ∷ "/api/v1/suppressions/status"
        ∷ "/api/v1/observability/overview" ∷ "/api/v1/observability/activity/status"
        ∷ "/api/v1/communications/activity/status" ∷ [])
      || starts_with path "/api/v1/orders/"
        && (ends_with path "/status" || ends_with path "/timeline")
      || starts_with path "/api/v1/recipes/"
        && (ends_with path "/status" || ends_with path "/ingredient-status")
      || starts_with path "/api/v1/dishes/" && ends_with path "/ingredient-status"

unfoldable pub service_only_path : String → String → Bool
unfolding path_is reader_reporting_status_path
service_only_path path method =
    path_is path "/api/v1/internal"
    || path_is path "/api/v1/orders" && not (str_eq method "GET")
    || path_is path "/api/v1/dishes" && not (str_eq method "GET")
    || one_of path ("/api/v1/orders" ∷ "/api/v1/dishes" ∷ []) && str_eq method "GET"
    || starts_with path "/api/v1/orders/"
      && str_eq method "GET"
      && not (reader_reporting_status_path path method)
      && not (ends_with path "/execution-history")
    || starts_with path "/api/v1/cook/" && not (str_eq method "GET")

unfoldable pub advance_path : String → String → Bool
advance_path path method =
    starts_with path "/api/v1/cook/dishes/" && ends_with path "/advance" && str_eq method "POST"

unfoldable pub timer_runtime_path : String → String → Bool
unfolding advance_path
timer_runtime_path path method =
    if one_of path (
        "/api/v1/dish-ingredients/in-flight" ∷ "/api/v1/dish-ingredients/cancel-requested"
        ∷ "/api/v1/dish-ingredients/advance-ready" ∷ [])
      && str_eq method "GET"
    then true
    else if starts_with path "/api/v1/dish-ingredients/" && str_eq method "POST"
    then ends_with path "/poll-claim"
      || ends_with path "/poll-release"
      || ends_with path "/reconcile"
    else starts_with path "/api/v1/dishes/"
        && ends_with path "/ingredient-status"
        && str_eq method "GET"
      || advance_path path method
      || starts_with path "/api/v1/expediter/status/" && str_eq method "GET"
      || starts_with path "/api/v1/expediter/cancel/" && str_eq method "POST"
      || str_eq path "/api/v1/suppressions/run-lifecycle" && str_eq method "POST"

unfoldable pub expediter_runner_runtime_path : String → String → Bool
unfolding advance_path
expediter_runner_runtime_path path method =
    if str_eq path "/api/v1/dish-ingredients/execution-pending" && str_eq method "GET"
    then true
    else if starts_with path "/api/v1/dish-ingredients/" && str_eq method "POST"
    then ends_with path "/execution-claim"
      || ends_with path "/execution-release"
      || ends_with path "/execution-reconcile"
    else starts_with path "/api/v1/expediter/execute/" && str_eq method "POST"
      || advance_path path method

unfoldable pub dishwasher_path : String → String → Bool
unfolding path_is
dishwasher_path path method =
    if one_of path ("/api/v1/plugins" ∷ "/api/v1/plugins/dishwasher" ∷ []) && str_eq method "GET"
    then true
    else if str_eq path "/api/v1/internal/service-registry/ingredients/bulk" && str_eq method "POST"
    then true
    else if path_is path "/api/v1/service-registry" && str_eq method "GET"
    then true
    else if path_is path "/api/v1/recipes" && one_of method ("GET" ∷ "POST" ∷ "PUT" ∷ "PATCH" ∷ [])
    then true
    else if str_eq path "/api/v1/communications/policy" && one_of method ("GET" ∷ "PUT" ∷ [])
    then true
    else if starts_with path "/api/v1/scheduled-tasks/" && ends_with path "/run-now"
    then false
    else if path_is path "/api/v1/scheduled-tasks" && one_of method ("GET" ∷ "POST" ∷ "PATCH" ∷ [])
    then true
    else str_eq path "/api/v1/orders" && str_eq method "POST"

unfoldable pub service_allowed_path : Option String → String → String → Bool
unfolding timer_runtime_path expediter_runner_runtime_path dishwasher_path
service_allowed_path service_type path method =
    let normalized = lower (strip (text_or_empty service_type)) in
    let method = upper method in
    if str_eq normalized "prep-chef"
    then str_eq path "/api/v1/orders" && str_eq method "GET"
      || starts_with path "/api/v1/cook/orders/" && str_eq method "POST"
      || str_eq path "/api/v1/plugins/prep-chef" && str_eq method "GET"
    else if str_eq normalized "timer"
    then timer_runtime_path path method
      || str_eq path "/api/v1/plugins/timer" && str_eq method "GET"
    else if str_eq normalized "expediter-runner"
    then expediter_runner_runtime_path path method
      || str_eq path "/api/v1/plugins/expediter-runner" && str_eq method "GET"
    else if str_eq normalized "dishwasher"
    then dishwasher_path path method
    else str_eq normalized "credential-manager"
      && one_of path ("/api/v1/plugins" ∷ "/api/v1/plugins/credential-manager" ∷ [])
      && str_eq method "GET"

unfoldable pub operator_plugin_runtime_path : String → String → Bool
operator_plugin_runtime_path path method =
    if not (starts_with path "/api/v1/plugins/")
    then false
    else str_eq method "PATCH"
      || starts_with path "/api/v1/plugins/k8s/prometheus-rules/"
        && one_of method ("POST" ∷ "PUT" ∷ "DELETE" ∷ [])
      || str_eq path "/api/v1/plugins/prometheus/reload" && str_eq method "POST"
      || str_eq path "/api/v1/plugins/genestack_monitoring/export-alert-updates"
        && str_eq method "POST"
      || str_eq path "/api/v1/plugins/genestack_monitoring/sync-content" && str_eq method "POST"
      || ends_with path "/configuration" && one_of method ("GET" ∷ "PUT" ∷ [])
      || ends_with path "/test-connection" && str_eq method "POST"

unfoldable pub admin_plugin_configuration_path : String → String → Bool
admin_plugin_configuration_path path method =
    starts_with path "/api/v1/plugins/" && str_eq method "PUT" && ends_with path "/credentials"

unfoldable pub admin_execution_history_path : String → String → Bool
admin_execution_history_path path method =
    if not (str_eq method "GET")
    then false
    else starts_with path "/api/v1/dishes/"
        && (ends_with path "/ingredients" || ends_with path "/ingredient-history")
      || starts_with path "/api/v1/orders/" && ends_with path "/execution-history"

unfoldable pub operator_desired_state_read_path : String → String → Bool
unfolding path_is reader_reporting_status_path
operator_desired_state_read_path path method =
    if not (str_eq method "GET") || reader_reporting_status_path path method
    then false
    else path_is path "/api/v1/recipes" || path_is path "/api/v1/service-registry"

unfoldable pub admin_detail_read_path : String → String → Bool
unfolding reader_reporting_status_path
admin_detail_read_path path method =
    if not (str_eq method "GET") || reader_reporting_status_path path method
    then false
    else one_of path ("/api/v1/scheduled-tasks" ∷ "/api/v1/scheduled-tasks/due" ∷ [])
      || starts_with path "/api/v1/scheduled-tasks/"
