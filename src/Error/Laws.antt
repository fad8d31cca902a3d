-- ===== src/Error/Laws.antt =====
-- What the response to an error says and counts.
use captchapi.Prelude.{suc, ◌≤◌, ◌<◌, ◌≡◌, ◌≢◌, arith}
use captchapi.Error.{
  AppError, database, session_not_found, api_key_not_found, invalid_session_params,
  invalid_api_key_params, unauthorized, forbidden, config_not_reloadable, config_not_persistable,
  config_pinned, restart_not_enabled, address_unavailable, invalid_config, internal, ErrorMetrics,
  into_response,
}

-- Every error, whichever it is, answers with a status from 400 to 599 and adds exactly one to the
-- count of HTTP errors; the count of database errors grows, by one, for a database error and stays
-- for every other.
pub into_response_counts :
    (e : AppError) (m : ErrorMetrics)
    → (400 ≤ (into_response e m).0.status)
      × ((into_response e m).0.status < 600)
      × ((into_response e m).1.http_errors_total ≡ suc m.http_errors_total)
      × (e ≡ database → (into_response e m).1.database_errors ≡ suc m.database_errors)
      × (e ≢ database → (into_response e m).1.database_errors ≡ m.database_errors)
unfolding into_response
into_response_counts database m = ground arith
into_response_counts session_not_found m = ground arith
into_response_counts api_key_not_found m = ground arith
into_response_counts (invalid_session_params msg) m = ground arith
into_response_counts (invalid_api_key_params msg) m = ground arith
into_response_counts (unauthorized msg) m = ground arith
into_response_counts (forbidden msg) m = ground arith
into_response_counts (config_not_reloadable msg) m = ground arith
into_response_counts (config_not_persistable msg) m = ground arith
into_response_counts (config_pinned msg) m = ground arith
into_response_counts (restart_not_enabled msg) m = ground arith
into_response_counts (address_unavailable msg) m = ground arith
into_response_counts (invalid_config msg) m = ground arith
into_response_counts (internal e) m = ground arith
