-- ===== src/Config/Params/Rows.antt =====
-- `PARAMS` of src/config/params.rs; its rows stand in the modules below.
mod Server
mod Captcha
mod Service
pub use Server.*
pub use Captcha.*
pub use Service.*
use captchapi.Prelude.{List, [], ◌∷◌}
use captchapi.Config.Params.Kinds.{Param}

-- `PARAMS`, in the order of the source.
abbrev pub params : List Param
params =
    server_host ∷ server_port ∷ pid_file ∷ database_url ∷ database_max_connections ∷ api_key_salt
    ∷ master_api_key ∷ solution_hash_secret ∷ image_encryption_secret ∷ default_session_ttl_seconds
    ∷ max_session_ttl_seconds ∷ max_validation_attempts ∷ captcha_compression
    ∷ cleanup_interval_seconds ∷ rate_limit_requests_per_second ∷ rate_limit_burst_size
    ∷ rate_limit_reverse_proxy ∷ admin_config_write ∷ admin_restart_enabled ∷ log_level
    ∷ otel_enabled ∷ otel_endpoint ∷ otel_service_name ∷ []
