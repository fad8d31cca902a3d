-- ===== src/Config/Values.antt =====
-- src/config/mod.rs: `Config`, how it is resolved from an environment, and which of its fields a
-- running process can take up. Errors are the texts of the source. `to_lowercase` is modelled on
-- ASCII: no other character lowers to a letter of the words that are looked for.
pub mod Laws
pub mod Carry
pub mod Merge
use captchapi.Prelude.{
  ℕ, ◌+◌, ℤ, pos, String, Bool, true, false, ◌&&◌, ◌||◌, not, Option, none, some, List, [], ◌∷◌,
  map, codes, len, ltb, leb, ◌==◌, str_eq, if◌then◌else◌, ◌+++◌,
}
use captchapi.Models.{SessionConfig}
use captchapi.Validation.{Checked, valid, invalid, unwrap_or}
use captchapi.Config.Text.{show_ℕ, show_ℤ, show_bool, parse_ℕ, parse_i64, parse_bool, trim}
use captchapi.Config.Params.{Param, params, Reload, boot, live}
use captchapi.Config.Layers.{Layer, insert}

pub record Config : Type 0 where
  pub server_host : String
  pub server_port : ℕ
  pub pid_file : String
  pub database_url : String
  pub database_max_connections : ℕ
  pub api_key_salt : String
  pub master_api_key : String
  pub solution_hash_secret : String
  pub image_encryption_secret : String
  pub default_session_ttl_seconds : ℕ
  pub max_session_ttl_seconds : ℕ
  pub max_validation_attempts : ℤ
  pub cleanup_interval_seconds : ℕ
  pub rate_limit_requests_per_second : ℕ
  pub rate_limit_burst_size : ℕ
  pub rate_limit_reverse_proxy : Bool
  pub captcha_compression : ℕ
  pub admin_config_write : Bool
  pub admin_restart_enabled : Bool
  pub log_level : String
  pub otel_enabled : Bool
  pub otel_endpoint : String
  pub otel_service_name : String

-- `EnvProvider`: what `get` answers to a key.
abbrev pub EnvProvider : Type 0
EnvProvider = String → Option String

infixl 10 ◌>>=◌ ◌>>◌
unfoldable pub ◌>>=◌ : {A B : Type 0} → Checked String A → (A → Checked String B) → Checked String B
(valid a) >>= f = f a
(invalid e) >>= f = invalid e

abbrev pub ◌>>◌ : {A B : Type 0} → Checked String A → Checked String B → Checked String B
m >> n = m >>= λ _. n

-- `.ok_or(e)?` and `.map_err(|_| e)?`
abbrev pub required : {A : Type 0} → Option A → String → Checked String A
required none e = invalid e
required (some a) e = valid a

-- The code points of a text after `to_lowercase`.
abbrev pub lower : ℕ → ℕ
lower c = if leb 65 c && leb c 90 then c + 32 else c

abbrev pub same_codes : List ℕ → List ℕ → Bool
same_codes [] [] = true
same_codes (x ∷ xs) (y ∷ ys) = x == y && same_codes xs ys
same_codes _ _ = false

abbrev pub is_word : List ℕ → String → Bool
is_word value word = same_codes value (codes word)

unfoldable pub parse_bool_lenient : String → Option Bool
unfolding trim
parse_bool_lenient value =
    let word = map lower (codes (trim value)) in
    if is_word word "true" || is_word word "1" || is_word word "yes" || is_word word "on"
    then some true
    else if is_word word "false" || is_word word "0" || is_word word "no" || is_word word "off"
    then some false
    else none

-- A secret of at least 16 bytes.
abbrev pub long_enough : String → String → Checked String String
long_enough key secret =
    if ltb (len secret) 16
    then invalid (key +++ " must be at least 16 bytes for security")
    else valid secret

-- `API_KEY_SALT` and `MASTER_API_KEY`.
abbrev pub required_secret : EnvProvider → String → Checked String String
required_secret env key = required (env key) (key +++ " must be set") >>= long_enough key

unfoldable pub derived_secret : EnvProvider → String → String → Checked String String
derived_secret env key fallback = elim (env key) [
  | none ↦ valid fallback
  | some secret ↦ long_enough key secret
]

-- `env.get(key).unwrap_or_else(default)`, parsed.
abbrev pub or_default : EnvProvider → String → String → String
or_default env key default = unwrap_or (env key) default

-- `clamp(1, 100)`
abbrev pub clamp_quality : ℕ → ℕ
clamp_quality n = if ltb n 1 then 1 else if ltb 100 n then 100 else n

abbrev pub lenient_or_false : Option String → Bool
lenient_or_false none = false
lenient_or_false (some v) = unwrap_or (parse_bool_lenient v) false

-- `Config::from_env_provider`; the first failure answers, in the order of the source.
unfoldable pub from_env_provider : EnvProvider → Checked String Config
unfolding derived_secret
from_env_provider env = do
  api_key_salt ← required_secret env "API_KEY_SALT"
  solution_hash_secret ← derived_secret env "SOLUTION_HASH_SECRET" api_key_salt
  image_encryption_secret ← derived_secret env "IMAGE_ENCRYPTION_SECRET" api_key_salt
  server_port ←
      required (parse_ℕ 65535 (or_default env "SERVER_PORT" "3000"))
        "Invalid SERVER_PORT: must be a valid port number (0-65535)"
  database_max_connections ←
      required (parse_ℕ 4294967295 (or_default env "DATABASE_MAX_CONNECTIONS" "5"))
        "Invalid DATABASE_MAX_CONNECTIONS: must be a positive integer"
  master_api_key ← required_secret env "MASTER_API_KEY"
  default_session_ttl_seconds ←
      required (parse_ℕ 18446744073709551615 (or_default env "DEFAULT_SESSION_TTL_SECONDS" "300"))
        "Invalid DEFAULT_SESSION_TTL_SECONDS: must be a positive number"
  max_session_ttl_seconds ←
      required (parse_ℕ 18446744073709551615 (or_default env "MAX_SESSION_TTL_SECONDS" "3600"))
        "Invalid MAX_SESSION_TTL_SECONDS: must be a positive number"
  max_validation_attempts ←
      required (parse_i64 (or_default env "MAX_VALIDATION_ATTEMPTS" "3"))
        "Invalid MAX_VALIDATION_ATTEMPTS: must be a positive integer"
  cleanup_interval_seconds ←
      required (parse_ℕ 18446744073709551615 (or_default env "CLEANUP_INTERVAL_SECONDS" "60"))
        "Invalid CLEANUP_INTERVAL_SECONDS: must be a positive number"
  rate_limit_requests_per_second ←
      required (parse_ℕ 18446744073709551615 (or_default env "RATE_LIMIT_REQUESTS_PER_SECOND" "2"))
        "Invalid RATE_LIMIT_REQUESTS_PER_SECOND: must be a positive integer"
  rate_limit_burst_size ←
      required (parse_ℕ 4294967295 (or_default env "RATE_LIMIT_BURST_SIZE" "10"))
        "Invalid RATE_LIMIT_BURST_SIZE: must be a positive integer"
  rate_limit_reverse_proxy ←
      required (parse_bool (or_default env "RATE_LIMIT_REVERSE_PROXY" "false"))
        "Invalid RATE_LIMIT_REVERSE_PROXY: must be 'true' or 'false'"
  compression ←
      required (parse_ℕ 255 (or_default env "CAPTCHA_COMPRESSION" "40"))
        "Invalid CAPTCHA_COMPRESSION: must be a number between 1 and 100"
  admin_config_write ←
      required (parse_bool_lenient (or_default env "ADMIN_CONFIG_WRITE" "true"))
        "Invalid ADMIN_CONFIG_WRITE: must be 'true' or 'false'"
  otel_enabled ←
      required (parse_bool_lenient (or_default env "OTEL_ENABLED" "false"))
        "Invalid OTEL_ENABLED: must be 'true' or 'false'"
  valid (record {
    server_host = or_default env "SERVER_HOST" "0.0.0.0";
    server_port = server_port;
    pid_file = or_default env "PID_FILE" "./data/captchapi.pid";
    database_url = or_default env "DATABASE_URL" "sqlite:./data/captchapi.db";
    database_max_connections = database_max_connections;
    api_key_salt = api_key_salt;
    master_api_key = master_api_key;
    solution_hash_secret = solution_hash_secret;
    image_encryption_secret = image_encryption_secret;
    default_session_ttl_seconds = default_session_ttl_seconds;
    max_session_ttl_seconds = max_session_ttl_seconds;
    max_validation_attempts = max_validation_attempts;
    cleanup_interval_seconds = cleanup_interval_seconds;
    rate_limit_requests_per_second = rate_limit_requests_per_second;
    rate_limit_burst_size = rate_limit_burst_size;
    rate_limit_reverse_proxy = rate_limit_reverse_proxy;
    captcha_compression = clamp_quality compression;
    admin_config_write = admin_config_write;
    admin_restart_enabled = lenient_or_false (env "ADMIN_RESTART_ENABLED");
    log_level = or_default env "RUST_LOG" "captchapi=debug,tower_http=debug";
    otel_enabled = otel_enabled;
    otel_endpoint = or_default env "OTEL_EXPORTER_OTLP_ENDPOINT" "http://localhost:4318";
    otel_service_name = or_default env "OTEL_SERVICE_NAME" "captchapi";
  })

unfoldable pub server_address : Config → String
server_address c = c.server_host +++ ":" +++ show_ℕ c.server_port

unfoldable pub session_config : Config → SessionConfig
session_config c = record {
  default_session_ttl_seconds = c.default_session_ttl_seconds;
  max_session_ttl_seconds = c.max_session_ttl_seconds;
  max_validation_attempts = c.max_validation_attempts;
  captcha_compression = pos c.captcha_compression;
}

unfoldable pub field_value : Config → String → Option String
field_value c field =
    if str_eq field "server_host"
    then some c.server_host
    else if str_eq field "server_port"
    then some (show_ℕ c.server_port)
    else if str_eq field "pid_file"
    then some c.pid_file
    else if str_eq field "database_url"
    then some c.database_url
    else if str_eq field "database_max_connections"
    then some (show_ℕ c.database_max_connections)
    else if str_eq field "api_key_salt"
    then some c.api_key_salt
    else if str_eq field "master_api_key"
    then some c.master_api_key
    else if str_eq field "solution_hash_secret"
    then some c.solution_hash_secret
    else if str_eq field "image_encryption_secret"
    then some c.image_encryption_secret
    else if str_eq field "default_session_ttl_seconds"
    then some (show_ℕ c.default_session_ttl_seconds)
    else if str_eq field "max_session_ttl_seconds"
    then some (show_ℕ c.max_session_ttl_seconds)
    else if str_eq field "max_validation_attempts"
    then some (show_ℤ c.max_validation_attempts)
    else if str_eq field "cleanup_interval_seconds"
    then some (show_ℕ c.cleanup_interval_seconds)
    else if str_eq field "rate_limit_requests_per_second"
    then some (show_ℕ c.rate_limit_requests_per_second)
    else if str_eq field "rate_limit_burst_size"
    then some (show_ℕ c.rate_limit_burst_size)
    else if str_eq field "rate_limit_reverse_proxy"
    then some (show_bool c.rate_limit_reverse_proxy)
    else if str_eq field "captcha_compression"
    then some (show_ℕ c.captcha_compression)
    else if str_eq field "admin_config_write"
    then some (show_bool c.admin_config_write)
    else if str_eq field "admin_restart_enabled"
    then some (show_bool c.admin_restart_enabled)
    else if str_eq field "log_level"
    then some c.log_level
    else if str_eq field "otel_enabled"
    then some (show_bool c.otel_enabled)
    else if str_eq field "otel_endpoint"
    then some c.otel_endpoint
    else if str_eq field "otel_service_name"
    then some c.otel_service_name
    else none

abbrev pub is_boot : Reload → Bool
is_boot boot = true
is_boot live = false

-- The boot-only parameters of a list with the values of the configuration.
abbrev pub carried_value : Config → Param → Layer → Layer
carried_value c p rest = elim (field_value c p.field) [ none ↦ rest | some v ↦ insert p.env v rest ]

pub boot_layer_of : Config → List Param → Layer
boot_layer_of c [] = []
boot_layer_of c (p ∷ ps) =
    let rest = boot_layer_of c ps in if is_boot p.reload then carried_value c p rest else rest

unfoldable pub boot_layer : Config → Layer
unfolding boot_layer_of field_value
boot_layer c = boot_layer_of c params

abbrev pub same_text : Option String → Option String → Bool
same_text none none = true
same_text (some a) (some b) = str_eq a b
same_text _ _ = false

pub boot_drift_of : Config → Config → List Param → List String
boot_drift_of c resolved [] = []
boot_drift_of c resolved (p ∷ ps) =
    let rest = boot_drift_of c resolved ps in
    if is_boot p.reload && not (same_text (field_value c p.field) (field_value resolved p.field))
    then p.field ∷ rest
    else rest

unfoldable pub boot_drift : Config → Config → List String
unfolding boot_drift_of field_value
boot_drift c resolved = boot_drift_of c resolved params

unfoldable pub with_boot_fields_from : Config → Config → Config
with_boot_fields_from c resolved = record c {
  default_session_ttl_seconds = resolved.default_session_ttl_seconds;
  max_session_ttl_seconds = resolved.max_session_ttl_seconds;
  max_validation_attempts = resolved.max_validation_attempts;
  captcha_compression = resolved.captcha_compression;
  cleanup_interval_seconds = resolved.cleanup_interval_seconds;
  log_level = resolved.log_level;
}
