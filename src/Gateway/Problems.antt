-- ===== src/Gateway/Problems.antt =====
-- The errors of backend/src/common/errors and backend/src/plugins/deps/plugin-dependency.error.ts, and
-- their answers by backend/src/gateway/filters/http-exception.filter.ts.
pub mod Answers
use crm_multi_tenant_saas_ar.Prelude.{
  ℕ, Bool, true, false, String, Option, none, some, List, [], ◌∷◌, ◌<>◌, leb, eqb, map,
  if◌then◌else◌,
}
use Prim.Native.Char.{Char, code}
use crm_multi_tenant_saas_ar.Prelude.Chars.{chars, text}

pub data PluginAction : Type 0 where
  enable disable : PluginAction

-- The subclasses of `AppError` with what their constructors take, and the two errors of the automation
-- that are made of their base classes, with their message.
pub data AppError : Type 0 where
  tenant_not_found : String → AppError
  tenant_inactive : String → AppError
  plugin_disabled : String → AppError
  permission_denied : String → String → AppError
  resource_not_found : String → String → AppError
  conflict : String → AppError
  plugin_timeout : String → ℕ → AppError
  plugin_query_limit : String → ℕ → AppError
  plugin_not_found : String → AppError
  plugin_execution : String → String → AppError
  validation : String → AppError
  invalid_action_params : String → AppError
  unknown_action_type : String → AppError
  plugin_dependency : String → PluginAction → List String → List String → AppError

unfoldable pub status_code : AppError → ℕ
status_code (tenant_not_found _) = 404
status_code (tenant_inactive _) = 403
status_code (plugin_disabled _) = 403
status_code (permission_denied _ _) = 403
status_code (resource_not_found _ _) = 404
status_code (conflict _) = 409
status_code (plugin_timeout _ _) = 504
status_code (plugin_query_limit _ _) = 429
status_code (plugin_not_found _) = 404
status_code (plugin_execution _ _) = 502
status_code (validation _) = 400
status_code (invalid_action_params _) = 400
status_code (unknown_action_type _) = 400
status_code (plugin_dependency _ _ _ _) = 422

unfoldable pub error_code : AppError → String
error_code (tenant_not_found _) = "TENANT_NOT_FOUND"
error_code (tenant_inactive _) = "TENANT_INACTIVE"
error_code (plugin_disabled _) = "PLUGIN_DISABLED"
error_code (permission_denied _ _) = "PERMISSION_DENIED"
error_code (resource_not_found _ _) = "RESOURCE_NOT_FOUND"
error_code (conflict _) = "CONFLICT"
error_code (plugin_timeout _ _) = "PLUGIN_TIMEOUT"
error_code (plugin_query_limit _ _) = "PLUGIN_QUERY_LIMIT"
error_code (plugin_not_found _) = "PLUGIN_NOT_FOUND"
error_code (plugin_execution _ _) = "PLUGIN_EXECUTION_ERROR"
error_code (validation _) = "VALIDATION_ERROR"
error_code (invalid_action_params _) = "INVALID_ACTION_PARAMS"
error_code (unknown_action_type _) = "UNKNOWN_ACTION_TYPE"
error_code (plugin_dependency _ _ _ _) = "PLUGIN_DEPENDENCY_VIOLATION"

-- `parts.join(separator)`
abbrev pub after_separator : String → List String → String → String
after_separator separator [] rest = ""
after_separator separator (_ ∷ _) rest = separator <> rest

unfoldable pub join : String → List String → String
join separator [] = ""
join separator (s ∷ parts) =
    let rest = join separator parts in s <> after_separator separator parts rest

-- The message of a response that NestJS made: one value as its text, or an array.
pub data Response : Type 0 where
  plain : String → Response
  message : String → Response
  messages : List String → Response
  no_message : Response

-- What the filter may be given. An HttpException has its status, its response and its own message.
pub data Exception : Type 0 where
  app_error : AppError → Exception
  http_exception : ℕ → Response → String → Exception
  other_error : String → Exception
  not_an_error : Exception

pub record ProblemDetails : Type 0 where
  pub type : String
  pub title : String
  pub status : ℕ
  pub detail : String
  pub instance_url : String
  pub trace_id : String
  pub code : Option String
  pub missing_deps : Option (List String)
  pub blocking_dependents : Option (List String)

-- The answer, and whether Sentry is told.
pub record Handled : Type 0 where
  pub status : ℕ
  pub details : ProblemDetails
  pub reported : Bool

-- `title.replace(/_/g, ' ')`
abbrev pub spaced : Char → Char
spaced c = if eqb (code c) b'_' then " " else c

-- A list that is left out where it is empty.
abbrev pub unless_empty : List String → Option (List String)
unless_empty [] = none
unless_empty (s ∷ rest) = some (s ∷ rest)

abbrev pub app_code : Exception → Option String
app_code (app_error e) = some (error_code e)
app_code _ = none

abbrev pub missing_of : Exception → Option (List String)
missing_of (app_error (plugin_dependency _ _ missing _)) = unless_empty missing
missing_of _ = none

abbrev pub blocking_of : Exception → Option (List String)
blocking_of (app_error (plugin_dependency _ _ _ blocking)) = unless_empty blocking
blocking_of _ = none

unfoldable pub status_of : Exception → ℕ
unfolding status_code
status_of (app_error e) = status_code e
status_of (http_exception status _ _) = status
status_of (other_error _) = 500
status_of not_an_error = 500

-- `digits` is `String(n)`, and `status_name` is NestJS's `HttpStatus[n]`.
module _ (digits : ℕ → String) (status_name : ℕ → Option String) where
  unfoldable pub message_of : AppError → String
  unfolding join
  message_of (tenant_not_found identifier) = "Tenant not found: " <> identifier
  message_of (tenant_inactive subdomain) = "Tenant is inactive: " <> subdomain
  message_of (plugin_disabled name) = "Plugin '" <> name <> "' is not enabled for this tenant"
  message_of (permission_denied resource action) =
      "Permission denied: " <> action <> " on " <> resource
  message_of (resource_not_found resource id) = resource <> " not found: " <> id
  message_of (conflict text) = text
  message_of (plugin_timeout name ms) =
      "Plugin '" <> name <> "' timed out after " <> digits ms <> "ms"
  message_of (plugin_query_limit name limit) =
      "Plugin '" <> name <> "' exceeded query limit of " <> digits limit
  message_of (plugin_not_found name) = "Plugin not found: '" <> name <> "'"
  message_of (plugin_execution name cause) = "Plugin '" <> name <> "' execution failed: " <> cause
  message_of (validation text) = text
  message_of (invalid_action_params text) = text
  message_of (unknown_action_type text) = text
  message_of (plugin_dependency name enable missing blocking) =
      "Cannot enable '" <> name <> "': missing enabled dependencies: " <> join ", " missing
  message_of (plugin_dependency name disable missing blocking) =
      "Cannot disable '" <> name <> "': required by enabled plugins: " <> join ", " blocking

  unfoldable pub detail_of : Exception → String
  unfolding message_of join
  detail_of (app_error e) = message_of e
  detail_of (http_exception _ (plain s) _) = s
  detail_of (http_exception _ (message s) _) = s
  detail_of (http_exception _ (messages parts) _) = join "; " parts
  detail_of (http_exception _ no_message own) = own
  detail_of (other_error own) = own
  detail_of not_an_error = "An unexpected error occurred"

  abbrev pub title_of : Option String → String
  title_of none = "Error"
  title_of (some name) = text (map spaced (chars name))

  abbrev pub trace_of : Option String → String
  trace_of none = "unknown"
  trace_of (some id) = id

  -- `catch`, with the request's URL and correlation id.
  unfoldable pub catch_exception : Exception → String → Option String → Handled
  unfolding status_of detail_of error_code
  catch_exception exception url correlation_id =
      let status = status_of exception in
      record {
        status = status;
        details = record {
          type = "https://httpstatuses.io/" <> digits status;
          title = title_of (status_name status);
          status = status;
          detail = detail_of exception;
          instance_url = url;
          trace_id = trace_of correlation_id;
          code = app_code exception;
          missing_deps = missing_of exception;
          blocking_dependents = blocking_of exception;
        };
        reported = leb 500 status;
      }
