-- ===== src/Config/Params/Rows/Captcha.antt =====
-- The rows of `PARAMS` in src/config/params.rs, one definition for each: the sessions and the cleanup.
use captchapi.Prelude.{false, none, some}
use captchapi.Config.Params.Kinds.{Param, Kind, allowed, live}

abbrev pub default_session_ttl_seconds : Param
default_session_ttl_seconds = record {
  env = "DEFAULT_SESSION_TTL_SECONDS";
  field = "default_session_ttl_seconds";
  flag = "--default-session-ttl";
  short = none;
  toml = some "captcha.default_ttl_seconds";
  kind = Kind.num;
  reload = live;
  persist = allowed;
  secret = false;
  default = some "300";
}

abbrev pub max_session_ttl_seconds : Param
max_session_ttl_seconds = record {
  env = "MAX_SESSION_TTL_SECONDS";
  field = "max_session_ttl_seconds";
  flag = "--max-session-ttl";
  short = none;
  toml = some "captcha.max_ttl_seconds";
  kind = Kind.num;
  reload = live;
  persist = allowed;
  secret = false;
  default = some "3600";
}

abbrev pub max_validation_attempts : Param
max_validation_attempts = record {
  env = "MAX_VALIDATION_ATTEMPTS";
  field = "max_validation_attempts";
  flag = "--max-validation-attempts";
  short = none;
  toml = some "captcha.max_validation_attempts";
  kind = Kind.num;
  reload = live;
  persist = allowed;
  secret = false;
  default = some "3";
}

abbrev pub captcha_compression : Param
captcha_compression = record {
  env = "CAPTCHA_COMPRESSION";
  field = "captcha_compression";
  flag = "--captcha-compression";
  short = none;
  toml = some "captcha.compression";
  kind = Kind.num;
  reload = live;
  persist = allowed;
  secret = false;
  default = some "40";
}

abbrev pub cleanup_interval_seconds : Param
cleanup_interval_seconds = record {
  env = "CLEANUP_INTERVAL_SECONDS";
  field = "cleanup_interval_seconds";
  flag = "--cleanup-interval";
  short = none;
  toml = some "tasks.cleanup_interval_seconds";
  kind = Kind.num;
  reload = live;
  persist = allowed;
  secret = false;
  default = some "60";
}
