-- ===== src/Error.antt =====
-- src/error.rs: the error type of the application and the HTTP response to each error.
-- A message that the source formats from constants alone is a constructor of its own; one that it
-- formats from a value carries the value. The inner error of `Database` and of `Internal` is opaque
-- here: the response does not read it.
pub mod Laws
use captchapi.Prelude.{
  ◌≡◌, refl, ◌⊎◌, inl, inr, ℕ, suc, String, Bool, ◌||◌, ◌&&◌, leb, ltb, if◌then◌else◌,
}

-- The messages of validation.rs.
pub data ParamError : Type 0 where
  ttl_exceeds : ℕ → ParamError
  difficulty_range length_range width_range height_range compression_range : ParamError
  solution_too_long : ParamError

pub data DescriptionError : Type 0 where
  blank too_long control_character : DescriptionError

-- The texts that authentication answers with.
pub data AuthError : Type 0 where
  missing_header invalid_format invalid_key inactive_key invalid_master_key : AuthError

pub data InternalError : Type 0 where
  encrypt_failed stored_too_short unsupported_version decrypt_failed : InternalError
  generation_failed snapshot_codec : InternalError
  address_unparseable : String → InternalError

pub data AppError : Type 0 where
  database : AppError
  session_not_found api_key_not_found : AppError
  invalid_session_params : ParamError → AppError
  invalid_api_key_params : DescriptionError → AppError
  unauthorized : AuthError → AppError
  forbidden config_not_reloadable config_not_persistable config_pinned : String → AppError
  restart_not_enabled address_unavailable invalid_config : String → AppError
  internal : InternalError → AppError

pub data Result {ℓ} (A : Type ℓ) : Type ℓ where
  ok : A → Result A
  err : AppError → Result A

pub Result-cases :
    {A : Type 0} (r : Result A) → ((a : A) × (r ≡ ok a)) ⊎ ((e : AppError) × (r ≡ err e))
Result-cases (ok a) = inl (a, refl)
Result-cases (err e) = inr (e, refl)

-- What the body says: a fixed text that hides the error, or the error's own message.
pub data Message : Type 0 where
  generic : String → Message
  session_params : ParamError → Message
  api_key_params : DescriptionError → Message
  auth : AuthError → Message
  text : String → Message

pub record Response : Type 0 where
  pub status : ℕ
  pub error_code : String
  pub message : Message

-- `ERROR_METRICS`, the counters that `into_response` adds to.
pub record ErrorMetrics : Type 0 where
  pub http_errors_total : ℕ
  pub database_errors : ℕ

respond : ℕ → String → Message → Response
respond s c m = record { status = s; error_code = c; message = m }

-- The `match` of `into_response`.
pub describe : AppError → Response
unfolding respond
describe database = respond 500 "database_error" (generic "An internal database error occurred")
describe session_not_found =
    respond 404 "session_not_found" (generic "Session does not exist or has expired")
describe api_key_not_found = respond 404 "api_key_not_found" (generic "API key does not exist")
describe (invalid_session_params msg) = respond 400 "invalid_parameters" (session_params msg)
describe (invalid_api_key_params msg) =
    respond 400 "invalid_api_key_parameters" (api_key_params msg)
describe (unauthorized msg) = respond 401 "unauthorized" (auth msg)
describe (forbidden msg) = respond 403 "forbidden" (text msg)
describe (config_not_reloadable msg) = respond 400 "config_not_reloadable" (text msg)
describe (config_not_persistable msg) = respond 400 "config_not_persistable" (text msg)
describe (config_pinned msg) = respond 409 "config_pinned" (text msg)
describe (restart_not_enabled msg) = respond 403 "restart_not_enabled" (text msg)
describe (address_unavailable msg) = respond 409 "address_unavailable" (text msg)
describe (invalid_config msg) = respond 400 "invalid_config" (text msg)
describe (internal e) = respond 500 "internal_error" (generic "An internal error occurred")

count_database : AppError → ErrorMetrics → ErrorMetrics
count_database database m = record m { database_errors = suc m.database_errors }
count_database _ m = m

-- `status.is_client_error() || status.is_server_error()`.
is_http_error : ℕ → Bool
is_http_error s = (leb 400 s && ltb s 500) || (leb 500 s && ltb s 600)

count_http : ℕ → ErrorMetrics → ErrorMetrics
unfolding is_http_error
count_http s m =
    if is_http_error s then record m { http_errors_total = suc m.http_errors_total } else m

pub into_response : AppError → ErrorMetrics → Response × ErrorMetrics
unfolding describe count_database count_http
into_response e m = let r = describe e in (r, count_http r.status (count_database e m))
