-- ===== src/Gateway/Problems/Answers.antt =====
-- What the answers to errors tell a client.
use crm_multi_tenant_saas_ar.Prelude.{
  ℕ, ◌≡◌, refl, Bool, true, false, String, Option, none, some, leb, ◌==◌, if◌then◌else◌,
}
use crm_multi_tenant_saas_ar.Gateway.Problems.{
  AppError, tenant_not_found, tenant_inactive, plugin_disabled, permission_denied,
  resource_not_found, conflict, plugin_timeout, plugin_query_limit, plugin_not_found,
  plugin_execution, validation, invalid_action_params, unknown_action_type, plugin_dependency,
  status_code, error_code, Exception, app_error, http_exception, other_error, not_an_error,
  status_of, catch_exception,
}

-- The faults of the server: a plugin that ran too long or threw, a status from 500 on, and whatever
-- the application does not know.
abbrev pub is_server_fault : Exception → Bool
is_server_fault (app_error (plugin_timeout _ _)) = true
is_server_fault (app_error (plugin_execution _ _)) = true
is_server_fault (app_error _) = false
is_server_fault (http_exception status _ _) = leb 500 status
is_server_fault _ = true

-- The status that a client can tell from the code of an answer.
abbrev pub status_by_code : String → ℕ
status_by_code code =
    if code == "TENANT_NOT_FOUND"
    then 404
    else if code == "RESOURCE_NOT_FOUND"
    then 404
    else if code == "PLUGIN_NOT_FOUND"
    then 404
    else if code == "CONFLICT"
    then 409
    else if code == "VALIDATION_ERROR"
    then 400
    else if code == "INVALID_ACTION_PARAMS"
    then 400
    else if code == "UNKNOWN_ACTION_TYPE"
    then 400
    else if code == "PLUGIN_QUERY_LIMIT"
    then 429
    else if code == "PLUGIN_DEPENDENCY_VIOLATION"
    then 422
    else if code == "PLUGIN_TIMEOUT"
    then 504
    else if code == "PLUGIN_EXECUTION_ERROR"
    then 502
    else 403

abbrev pub FitsCode : ℕ → Option String → Type 0
FitsCode status none = Unit
FitsCode status (some code) = status ≡ status_by_code code

app_reported : (e : AppError) → leb 500 (status_code e) ≡ is_server_fault (app_error e)
unfolding status_code
app_reported (tenant_not_found _) = refl
app_reported (tenant_inactive _) = refl
app_reported (plugin_disabled _) = refl
app_reported (permission_denied _ _) = refl
app_reported (resource_not_found _ _) = refl
app_reported (conflict _) = refl
app_reported (plugin_timeout _ _) = refl
app_reported (plugin_query_limit _ _) = refl
app_reported (plugin_not_found _) = refl
app_reported (plugin_execution _ _) = refl
app_reported (validation _) = refl
app_reported (invalid_action_params _) = refl
app_reported (unknown_action_type _) = refl
app_reported (plugin_dependency _ _ _ _) = refl

app_status : (e : AppError) → status_code e ≡ status_by_code (error_code e)
unfolding status_code error_code
app_status (tenant_not_found _) = refl
app_status (tenant_inactive _) = refl
app_status (plugin_disabled _) = refl
app_status (permission_denied _ _) = refl
app_status (resource_not_found _ _) = refl
app_status (conflict _) = refl
app_status (plugin_timeout _ _) = refl
app_status (plugin_query_limit _ _) = refl
app_status (plugin_not_found _) = refl
app_status (plugin_execution _ _) = refl
app_status (validation _) = refl
app_status (invalid_action_params _) = refl
app_status (unknown_action_type _) = refl
app_status (plugin_dependency _ _ _ _) = refl

-- For every exception, Sentry is told exactly of the server's faults: a plugin's timeout or failure, an
-- HttpException from 500 on, and an error that the application does not know; the body repeats the
-- status of the answer; and where the body has a code, the code determines the status.
pub catch_exception-reported :
    (digits : ℕ → String) (status_name : ℕ → Option String) (e : Exception) (url : String)
    (correlation_id : Option String)
    → let r = catch_exception digits status_name e url correlation_id in
      (r.reported ≡ is_server_fault e)
      × (r.details.status ≡ r.status)
      × FitsCode r.status r.details.code
unfolding catch_exception status_of
catch_exception-reported digits status_name (app_error e) url correlation_id =
    (app_reported e, refl, app_status e)
catch_exception-reported digits status_name (http_exception status response own) url
      correlation_id =
    (refl, refl, tt)
catch_exception-reported digits status_name (other_error own) url correlation_id = (refl, refl, tt)
catch_exception-reported digits status_name not_an_error url correlation_id = (refl, refl, tt)
