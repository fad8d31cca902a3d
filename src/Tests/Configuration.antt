-- ===== src/Tests/Configuration.antt =====
-- The configuration of a process, its handle and the administration at concrete inputs.
use captchapi.Config.Text.{show_bool, show_ℕ, parse_bool, parse_int, parse_ℕ}
use captchapi.Prelude.{
  len, ◌≡◌, refl, pos, String, true, false, some, none, [], ◌∷◌, str_eq, if◌then◌else◌,
}
use captchapi.Error.{ok}
use captchapi.Validation.{valid, invalid}
use captchapi.Cli.{Cli, load_layers, no_layers, stack}
use captchapi.Config.Params.{by_field, server_port, log_level}
use captchapi.Config.Layers.{Layer, get_in, get, capture}
use captchapi.Config.Values.{
  parse_bool_lenient, ◌>>=◌, Config, EnvProvider, from_env_provider, field_value,
}
use captchapi.Config.Values.Laws.{IsValid, from_env_provider-IsValid}
use captchapi.Config.Values.Carry.{with_live_defaults}
use captchapi.Config.Files.{System}
use captchapi.Config.Handle.{Handle, process, new, reload, patch, dry_run, adopt_stored}
use captchapi.Config.Handle.History.{History, start, patched, history_boot}
use captchapi.Config.Handle.Laws.{history-IsValid, dry_run-adopt_stored, IsAdopted, reload_survives}
use captchapi.Config.Handle.Patch.{IsPatched, patch-IsPatched}
use captchapi.Config.Boot.{second_phase}
use captchapi.Config.Boot.Laws.{IsTried, second_phase-IsTried}
use captchapi.Tests.Settings.{codec, changed}

abbrev secrets : EnvProvider
secrets key =
    if str_eq key "API_KEY_SALT"
    then some "0123456789abcdef"
    else if str_eq key "MASTER_API_KEY"
    then some "fedcba9876543210"
    else none

abbrev pub config : Config
config = record {
  server_host = "0.0.0.0";
  server_port = 3000;
  pid_file = "./data/captchapi.pid";
  database_url = "sqlite:./data/captchapi.db";
  database_max_connections = 5;
  api_key_salt = "0123456789abcdef";
  master_api_key = "fedcba9876543210";
  solution_hash_secret = "0123456789abcdef";
  image_encryption_secret = "0123456789abcdef";
  default_session_ttl_seconds = 300;
  max_session_ttl_seconds = 3600;
  max_validation_attempts = pos 3;
  cleanup_interval_seconds = 60;
  rate_limit_requests_per_second = 2;
  rate_limit_burst_size = 10;
  rate_limit_reverse_proxy = false;
  captcha_compression = 40;
  admin_config_write = true;
  admin_restart_enabled = false;
  log_level = "captchapi=debug,tower_http=debug";
  otel_enabled = false;
  otel_endpoint = "http://localhost:4318";
  otel_service_name = "captchapi";
}

-- A system without files.
abbrev pub system : System
system = record {
  environment = secrets;
  exists = λ path. false;
  read_to_string = λ path. invalid "no such file";
  env_items = λ path. invalid "no such file";
  toml = λ raw. invalid "not understood";
  filter_error = λ directives. none;
  socket_addr = λ text. valid text;
  bind_error = λ addr. none;
}

abbrev pub cli : Cli
cli = record {
  values = [];
  config_file = none;
  env_file = none;
  no_env_file = true;
  ignore_stored = false;
}

abbrev pub handle : Handle
handle = new config cli [] []

resolved : from_env_provider secrets ≡ valid config
unfolding from_env_provider ◌>>=◌ len parse_ℕ parse_int parse_bool parse_bool_lenient
resolved = refl

from_env_provider-IsValid_example : IsValid config
from_env_provider-IsValid_example = from_env_provider-IsValid secrets config resolved

config-IsValid : IsValid config
config-IsValid = from_env_provider-IsValid_example

level_found : by_field "log_level" ≡ some log_level
unfolding by_field
level_found = refl

quiet : Config
quiet = record config { log_level = "warn" }

-- One patch of the attempts that a session allows.
abbrev attempts : Layer
attempts = ("MAX_VALIDATION_ATTEMPTS", "5") ∷ []

abbrev pub patched_handle : Handle
patched_handle = (patch system attempts handle).1

pub past : History handle patched_handle
past = patched system attempts handle start

port_found : by_field "server_port" ≡ some server_port
unfolding by_field
port_found = refl

history_boot_example :
    field_value patched_handle.current "server_port" ≡ field_value handle.current "server_port"
history_boot_example =
    history_boot handle patched_handle "server_port" server_port past port_found refl

history-IsValid_example : IsValid patched_handle.current
unfolding new
history-IsValid_example = history-IsValid handle patched_handle past config-IsValid

accepted :
    (patch system attempts handle).0 ≡ valid (record config { max_validation_attempts = pos 5 })
unfolding patch ◌>>=◌ new get_in len parse_ℕ show_ℕ parse_int parse_bool show_bool
    parse_bool_lenient
accepted = refl

patch-IsPatched_example :
    IsPatched system attempts handle
      (record config { max_validation_attempts = pos 5 })
      patched_handle
unfolding get_in
patch-IsPatched_example =
    patch-IsPatched system attempts handle (record config { max_validation_attempts = pos 5 })
      (refl, tt) accepted

dry_run-adopt_stored_example :
    ((c : Config)
      → dry_run system attempts handle ≡ valid c
      → IsAdopted attempts handle c (adopt_stored system attempts handle))
    × ((e : String)
        → dry_run system attempts handle ≡ invalid e
        → adopt_stored system attempts handle ≡ (invalid e, handle))
dry_run-adopt_stored_example = dry_run-adopt_stored system attempts handle

-- Nothing is to be found any more.
abbrev silent : System
silent = record system { environment = λ key. none }

loaded : load_layers silent cli ≡ valid no_layers
unfolding load_layers ◌>>=◌
loaded = refl

reload_survives_example :
    let (r, h') = reload silent [] handle in
    (r ≡ valid (record { config = with_live_defaults config; drift = [] }))
    × (h'.current ≡ with_live_defaults config)
unfolding get get_in stack new
reload_survives_example = reload_survives silent handle no_layers config-IsValid loaded λ key. refl

abbrev stored : Layer
stored = ("MAX_VALIDATION_ATTEMPTS", "8") ∷ []

abbrev booted : Handle
booted = record {
  current = record config { max_validation_attempts = pos 8 };
  cli = cli;
  env = process;
  overlay = [];
  sources = capture (stack (record no_layers { stored = stored }) secrets);
  pending_restart = [];
  stored = stored;
}

started : (second_phase codec system cli config [] changed).0 ≡ ok (booted, some 2)
unfolding second_phase by_field ◌>>=◌ get_in len parse_ℕ parse_int parse_bool
started = refl

second_phase-IsTried_example : IsTried codec system cli config [] changed booted 2
second_phase-IsTried_example =
    second_phase-IsTried codec system cli config [] changed booted 2 started
