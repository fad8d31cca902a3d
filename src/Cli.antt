-- ===== src/Cli.antt =====
-- src/cli.rs: what the command line asks for, and the configuration that it resolves to.
-- What is printed is left out; taking the arguments apart is pico-args'.
pub mod Parse
use captchapi.Prelude.{
  ℤ, String, Bool, true, false, Option, none, some, [], ◌∷◌, ◌+++◌, if◌then◌else◌,
}
use captchapi.Validation.{Checked, valid, invalid}
use captchapi.Config.Text.{parse_i32, trim}
use captchapi.Config.Params.{Param, by_env}
use captchapi.Config.Layers.{Layer, LayeredEnv, Sources, get, get_in, capture, ◌or_else◌}
use captchapi.Config.Values.{
  Config, EnvProvider, from_env_provider, parse_bool_lenient, lenient_or_false, required, ◌>>=◌,
  ◌>>◌,
}
use captchapi.Config.Files.{System, load_env_file, load_toml_file, redact, map_err}

pub record Cli : Type 0 where
  pub values : Layer
  pub config_file : Option String
  pub env_file : Option String
  pub no_env_file : Bool
  pub ignore_stored : Bool

pub record ReloadTarget : Type 0 where
  pub pid : Option ℤ
  pub pid_file : Option String
  pub config_file : Option String
  pub env_file : Option String
  pub no_env_file : Bool

pub data Action : Type 0 where
  help version : Action
  run config_show config_check config_clear : Cli → Action
  config_unset : Cli → String → Action
  reload : ReloadTarget → Action

pub record Layers : Type 0 where
  pub overlay : Layer
  pub cli : Layer
  pub stored : Layer
  pub env_file : Layer
  pub file : Layer
  pub carried : Layer

-- `Layers::default()`
abbrev pub no_layers : Layers
no_layers = record { overlay = []; cli = []; stored = []; env_file = []; file = []; carried = [] }

abbrev shown_value : String → Option Param → String → String
shown_value key none value = value
shown_value key (some p) value = redact p value

-- `redact_layer`, and the loop of `Debug` for `Cli`.
unfoldable pub redact_layer : Layer → Layer
unfolding by_env redact
redact_layer [] = []
redact_layer ((key, value) ∷ t) = (key, shown_value key (by_env key) value) ∷ redact_layer t

-- `Layers::stack`
unfoldable pub stack : Layers → EnvProvider → LayeredEnv
stack l env = record {
  overlay = l.overlay;
  cli = l.cli;
  env = env;
  stored = l.stored;
  env_file = l.env_file;
  file = l.file;
  carried = l.carried;
}

abbrev default_env_file : System → Checked String Layer
default_env_file sys = if sys.exists ".env" then load_env_file sys ".env" else valid []

abbrev named_env_file : System → Option String → Checked String Layer
named_env_file sys none = default_env_file sys
named_env_file sys (some path) = load_env_file sys path

abbrev named_config_file : System → Option String → Checked String Layer
named_config_file sys none = valid []
named_config_file sys (some path) = load_toml_file sys path

unfoldable pub load_layers : System → Cli → Checked String Layers
unfolding load_env_file load_toml_file
load_layers sys c = do
  env_file ← if c.no_env_file then valid [] else named_env_file sys c.env_file
  file ← named_config_file sys c.config_file
  valid (record no_layers { cli = c.values; env_file = env_file; file = file })

-- `Config::from_env_provider(&stack)?` and `Sources::capture(&stack)`
unfoldable pub resolve_stack : LayeredEnv → Checked String (Config × Sources)
unfolding get capture from_env_provider
resolve_stack l = do config ← from_env_provider (get l); valid (config, capture l)

unfoldable pub resolve : System → Cli → Checked String (Config × Layers)
unfolding load_layers stack get from_env_provider
resolve sys c = do
  layers ← load_layers sys c
  config ← from_env_provider (get (stack layers sys.environment))
  valid (config, layers)

unfoldable pub resolve_with_stored : System → Cli → Layer → Checked String (Config × Sources)
unfolding load_layers stack resolve_stack
resolve_with_stored sys c stored = do
  layers ← load_layers sys c
  resolve_stack (stack (record layers { stored = stored }) sys.environment)

unfoldable pub ignore_stored_config : Cli → EnvProvider → Bool
unfolding parse_bool_lenient
ignore_stored_config c env =
    if c.ignore_stored then true else lenient_or_false (env "IGNORE_STORED_CONFIG")

unfoldable pub read_pid_file : System → String → Checked String ℤ
unfolding trim
read_pid_file sys path = do
  raw ←
      map_err
        (λ e.
          "cannot read pid file " +++ path +++ ": " +++ e
          +++ " (is the server running? pass --pid to override)")
        (sys.read_to_string path)
  required (parse_i32 (trim raw)) ("pid file " +++ path +++ " does not contain a process id")

-- `.unwrap_or_default()`
abbrev or_no_layers : Checked String Layers → Layers
or_no_layers (valid l) = l
or_no_layers (invalid e) = no_layers

abbrev default_of : Option Param → Option String
default_of none = none
default_of (some p) = p.default

abbrev or_path : Option String → String → String
or_path none path = path
or_path (some p) path = p

unfoldable pub reload_pid_file : System → ReloadTarget → EnvProvider → String
unfolding load_layers by_env
reload_pid_file sys target env =
    let layers = or_no_layers (
      load_layers sys (record {
        values = [];
        config_file = target.config_file;
        env_file = target.env_file;
        no_env_file = target.no_env_file;
        ignore_stored = false;
      })) in
    or_path
      (target.pid_file
        or_else env "PID_FILE"
        or_else get_in "PID_FILE" layers.env_file
        or_else get_in "PID_FILE" layers.file
        or_else default_of (by_env "PID_FILE"))
      "./data/captchapi.pid"

pub data StoreEdit : Type 0 where
  unset : String → StoreEdit
  clear : StoreEdit

-- `Handled`; a signal that is to be sent is an answer too, since sending it is the system's.
pub data Handled : Type 0 where
  done : Handled
  serve : Cli → Config → Sources → Handled
  edit_store : Config → StoreEdit → Handled
  signal : ℤ → Handled

abbrev pid_of : System → ReloadTarget → Option ℤ → Checked String ℤ
pid_of sys target (some pid) = valid pid
pid_of sys target none = read_pid_file sys (reload_pid_file sys target sys.environment)

-- `handle`
unfoldable pub handle : System → Action → Checked String Handled
unfolding resolve capture stack
handle sys help = valid done
handle sys version = valid done
handle sys (run c) = do
  (config, layers) ← resolve sys c
  valid (serve c config (capture (stack layers sys.environment)))
handle sys (config_check c) = do resolve sys c; valid done
handle sys (config_show c) = do resolve sys c; valid done
handle sys (config_unset c field) = do
  (config, layers) ← resolve sys c
  valid (edit_store config (unset field))
handle sys (config_clear c) = do (config, layers) ← resolve sys c; valid (edit_store config clear)
handle sys (reload target) = do pid ← pid_of sys target target.pid; valid (signal pid)
