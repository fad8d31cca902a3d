-- ===== src/Config/Params/Rows/Service.antt =====
-- The rows of `PARAMS` in src/config/params.rs, one definition for each: rate limits, administration and telemetry.
use captchapi.Prelude.{false, none, some}
use captchapi.Config.Params.Kinds.{Param, Kind, allowed, never, boot, live}

abbrev pub rate_limit_requests_per_second : Param
rate_limit_requests_per_second = record {
  env = "RATE_LIMIT_REQUESTS_PER_SECOND";
  field = "rate_limit_requests_per_second";
  flag = "--rate-limit-rps";
  short = none;
  toml = some "rate_limit.requests_per_second";
  kind = Kind.num;
  reload = boot;
  persist = allowed;
  secret = false;
  default = some "2";
}

abbrev pub rate_limit_burst_size : Param
rate_limit_burst_size = record {
  env = "RATE_LIMIT_BURST_SIZE";
  field = "rate_limit_burst_size";
  flag = "--rate-limit-burst";
  short = none;
  toml = some "rate_limit.burst_size";
  kind = Kind.num;
  reload = boot;
  persist = allowed;
  secret = false;
  default = some "10";
}

abbrev pub rate_limit_reverse_proxy : Param
rate_limit_reverse_proxy = record {
  env = "RATE_LIMIT_REVERSE_PROXY";
  field = "rate_limit_reverse_proxy";
  flag = "--rate-limit-reverse-proxy";
  short = none;
  toml = some "rate_limit.reverse_proxy";
  kind = Kind.bool;
  reload = boot;
  persist = allowed;
  secret = false;
  default = some "false";
}

abbrev pub admin_config_write : Param
admin_config_write = record {
  env = "ADMIN_CONFIG_WRITE";
  field = "admin_config_write";
  flag = "--admin-config-write";
  short = none;
  toml = some "admin.config_write";
  kind = Kind.bool;
  reload = boot;
  persist = allowed;
  secret = false;
  default = some "true";
}

abbrev pub admin_restart_enabled : Param
admin_restart_enabled = record {
  env = "ADMIN_RESTART_ENABLED";
  field = "admin_restart_enabled";
  flag = "--admin-restart-enabled";
  short = none;
  toml = some "admin.restart_enabled";
  kind = Kind.bool;
  reload = boot;
  persist = allowed;
  secret = false;
  default = some "false";
}

abbrev pub log_level : Param
log_level = record {
  env = "RUST_LOG";
  field = "log_level";
  flag = "--log-level";
  short = none;
  toml = some "logging.level";
  kind = Kind.str;
  reload = live;
  persist = allowed;
  secret = false;
  default = some "captchapi=debug,tower_http=debug";
}

abbrev pub otel_enabled : Param
otel_enabled = record {
  env = "OTEL_ENABLED";
  field = "otel_enabled";
  flag = "--otel";
  short = none;
  toml = some "telemetry.enabled";
  kind = Kind.bool;
  reload = boot;
  persist = never;
  secret = false;
  default = some "false";
}

abbrev pub otel_endpoint : Param
otel_endpoint = record {
  env = "OTEL_EXPORTER_OTLP_ENDPOINT";
  field = "otel_endpoint";
  flag = "--otel-endpoint";
  short = none;
  toml = some "telemetry.endpoint";
  kind = Kind.str;
  reload = boot;
  persist = never;
  secret = false;
  default = some "http://localhost:4318";
}

abbrev pub otel_service_name : Param
otel_service_name = record {
  env = "OTEL_SERVICE_NAME";
  field = "otel_service_name";
  flag = "--otel-service-name";
  short = none;
  toml = some "telemetry.service_name";
  kind = Kind.str;
  reload = boot;
  persist = never;
  secret = false;
  default = some "captchapi";
}
