-- ===== src/Config/Values/Carry.antt =====
-- `boot_layer` of src/config/mod.rs: the boot-only values that a reload carries over.
use captchapi.Prelude.{◌≤◌, pos, String, Bool, true, false, some, ◌≡◌, refl, arith, len}
use captchapi.Validation.{valid}
use captchapi.Config.Text.{show_bool, parse_ℕ, parse_int}
use captchapi.Config.Text.Laws.{parse_ℕ-show_ℕ, parse_bool-show_bool}
use captchapi.Config.Layers.{get_in, insert}
use captchapi.Config.Values.{
  Config, EnvProvider, required_secret, derived_secret, parse_bool_lenient, from_env_provider,
  boot_layer, ◌>>=◌,
}
use captchapi.Config.Values.Laws.{IsValid}

-- The defaults of the fields that a running process can take up.
abbrev pub with_live_defaults : Config → Config
with_live_defaults c = record c {
  default_session_ttl_seconds = 300;
  max_session_ttl_seconds = 3600;
  max_validation_attempts = pos 3;
  captcha_compression = 40;
  cleanup_interval_seconds = 60;
  log_level = "captchapi=debug,tower_http=debug";
}

parse_bool_lenient-show_bool : (b : Bool) → parse_bool_lenient (show_bool b) ≡ some b
unfolding parse_bool_lenient show_bool
parse_bool_lenient-show_bool true = refl
parse_bool_lenient-show_bool false = refl

required_secret-some :
    (env : EnvProvider) (key secret : String)
    → env key ≡ some secret
    → 16 ≤ len secret
    → required_secret env key ≡ valid secret
unfolding ◌>>=◌
required_secret-some env key secret h long = rw h (ground arith)

derived_secret-some :
    (env : EnvProvider) (key fallback secret : String)
    → env key ≡ some secret
    → 16 ≤ len secret
    → derived_secret env key fallback ≡ valid secret
unfolding derived_secret
derived_secret-some env key fallback secret h long = rw (h, derived_secret) (ground arith)

-- If nothing but the boot-only values of a configuration is to be found, as when a secret's file was
-- taken away after the start, then resolving succeeds: it gives back each boot-only field of that
-- configuration, and the defaults of the others.
pub from_env_provider-boot_layer :
    (c : Config) (env : EnvProvider)
    → IsValid c
    → ((key : String) → env key ≡ get_in key (boot_layer c))
    → from_env_provider env ≡ valid (with_live_defaults c)
unfolding boot_layer get_in insert from_env_provider ◌>>=◌ parse_ℕ parse_int
from_env_provider-boot_layer c env v h =
    rw
      (
        required_secret-some env "API_KEY_SALT" c.api_key_salt (h "API_KEY_SALT") v.api_key_salt,
        required_secret-some env "MASTER_API_KEY" c.master_api_key (h "MASTER_API_KEY")
            v.master_api_key,
        derived_secret-some env "SOLUTION_HASH_SECRET" c.api_key_salt c.solution_hash_secret
            (h "SOLUTION_HASH_SECRET") v.solution_hash_secret,
        derived_secret-some env "IMAGE_ENCRYPTION_SECRET" c.api_key_salt c.image_encryption_secret
            (h "IMAGE_ENCRYPTION_SECRET") v.image_encryption_secret,
        h "SERVER_HOST",
        h "SERVER_PORT",
        h "PID_FILE",
        h "DATABASE_URL",
        h "DATABASE_MAX_CONNECTIONS",
        h "DEFAULT_SESSION_TTL_SECONDS",
        h "MAX_SESSION_TTL_SECONDS",
        h "MAX_VALIDATION_ATTEMPTS",
        h "CLEANUP_INTERVAL_SECONDS",
        h "RATE_LIMIT_REQUESTS_PER_SECOND",
        h "RATE_LIMIT_BURST_SIZE",
        h "RATE_LIMIT_REVERSE_PROXY",
        h "CAPTCHA_COMPRESSION",
        h "ADMIN_CONFIG_WRITE",
        h "ADMIN_RESTART_ENABLED",
        h "RUST_LOG",
        h "OTEL_ENABLED",
        h "OTEL_EXPORTER_OTLP_ENDPOINT",
        h "OTEL_SERVICE_NAME",
        parse_ℕ-show_ℕ 65535 c.server_port (omega arith) (omega (arith, v.server_port)),
        parse_ℕ-show_ℕ 4294967295 c.database_max_connections (omega arith)
            (omega (arith, v.database_max_connections)),
        parse_ℕ-show_ℕ 18446744073709551615 c.rate_limit_requests_per_second (omega arith)
            (omega (arith, v.rate_limit_requests_per_second)),
        parse_ℕ-show_ℕ 4294967295 c.rate_limit_burst_size (omega arith)
            (omega (arith, v.rate_limit_burst_size)),
        parse_bool-show_bool c.rate_limit_reverse_proxy,
        parse_bool_lenient-show_bool c.admin_config_write,
        parse_bool_lenient-show_bool c.admin_restart_enabled,
        parse_bool_lenient-show_bool c.otel_enabled,
      )
      refl
