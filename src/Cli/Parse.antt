-- ===== src/Cli/Parse.antt =====
-- `parse` of src/cli.rs. Taking arguments off the command line is pico-args', a record of operations on
-- what is left of it.
use captchapi.Prelude.{
  ℤ, String, Bool, true, false, ◌&&◌, Option, none, some, List, [], ◌∷◌, ◌+++◌, if◌then◌else◌,
  str_eq,
}
use captchapi.Table.{is_some}
use captchapi.Validation.{Checked, valid, invalid}
use captchapi.Config.Text.{show_bool}
use captchapi.Config.Params.{Param, params, Kind, by_field}
use captchapi.Config.Layers.{Layer, insert}
use captchapi.Config.Values.{parse_bool_lenient, required, ◌>>=◌, ◌>>◌}
use captchapi.Config.Files.{System, read_secret_file, map_err, join}
use captchapi.Cli.{
  Cli, Action, help, version, run, config_show, config_check, config_clear, config_unset, reload,
}

-- `pico_args::Error`, with the texts that its parts are shown as.
pub data PicoError : Type 0 where
  missing_option option_without_a_value utf8_argument argument other_error : String → PicoError

-- `pico_args::Arguments`; a flag is looked for under all of its names.
pub record Arguments (A : Type 0) : Type 0 where
  pub contains : List String → A → Bool × A
  pub subcommand : A → Checked PicoError (Option String × A)
  pub free : A → Checked PicoError (Option String × A)
  pub value : List String → A → Checked PicoError (Option String × A)
  pub value_i32 : List String → A → Checked PicoError (Option ℤ × A)
  -- what is left over, as text
  pub finish : A → List String

-- `describe`
unfoldable pub describe : PicoError → String
describe (missing_option key) = "missing required option " +++ key
describe (option_without_a_value key) = key +++ " needs a value"
describe (utf8_argument value) = "`" +++ value +++ "` is not valid UTF-8"
describe (argument cause) = cause
describe (other_error text) = text

abbrev leftover : List String → Checked String (Unit {0})
leftover [] = valid tt
leftover (a ∷ t) = invalid ("unexpected argument `" +++ join "` `" (a ∷ t) +++ "`")

abbrev names : Param → Option String → List String
names p none = p.flag ∷ []
names p (some short) = short ∷ p.flag ∷ []

module _ {A : Type 0} (pico : Arguments A) (sys : System) where
  unfoldable pub finish : A → Checked String (Unit {0})
  unfolding join
  finish args = leftover (pico.finish args)

  abbrev option : List String → A → Checked String (Option String × A)
  option flags args = map_err describe (pico.value flags args)

  unfoldable pub opt_value : Param → A → Checked String (Option String × A)
  opt_value p args = option (names p p.short) args

  abbrev with_bool : Param → Layer → Option String × A → Checked String (Layer × A)
  with_bool p values (none, args) = valid (values, args)
  with_bool p values (some raw, args) =
      required (parse_bool_lenient raw) (p.flag +++ " expects true or false, not `" +++ raw +++ "`")
      >>= λ b. valid (insert p.env (show_bool b) values, args)

  abbrev bool_flag : Param → Layer → Bool × A → Checked String (Layer × A)
  bool_flag p values (true, args) = valid (insert p.env "true" values, args)
  bool_flag p values (false, args) = option (p.flag ∷ []) args >>= with_bool p values

  abbrev with_secret : Param → Layer → Option String × A → Checked String (Layer × A)
  with_secret p values (none, args) = valid (values, args)
  with_secret p values (some path, args) =
      read_secret_file sys path >>= λ value. valid (insert p.env value values, args)

  abbrev with_value : Param → Layer → Option String × A → Checked String (Layer × A)
  with_value p values (none, args) = valid (values, args)
  with_value p values (some value, args) = valid (insert p.env value values, args)

  -- One round of the loop of `parse_shared`.
  abbrev take_param : Kind → Param → Layer → A → Checked String (Layer × A)
  take_param Kind.bool p values args = bool_flag p values (pico.contains (p.flag ∷ []) args)
  take_param Kind.secret_file p values args = opt_value p args >>= with_secret p values
  take_param Kind.str p values args = opt_value p args >>= with_value p values
  take_param Kind.num p values args = opt_value p args >>= with_value p values

  unfoldable pub take_params : List Param → Layer → A → Checked String (Layer × A)
  unfolding parse_bool_lenient show_bool insert read_secret_file opt_value
  take_params [] values args = valid (values, args)
  take_params (p ∷ ps) values args = do
    (values, args) ← take_param p.kind p values args
    take_params ps values args

  unfoldable pub parse_shared : A → Checked String Cli
  unfolding take_params finish
  parse_shared args = do
    (config_file, args) ← option ("-c" ∷ "--config" ∷ []) args
    (env_file, args) ← option ("--env-file" ∷ []) args
    let (no_env_file, args) = pico.contains ("--no-env-file" ∷ []) args in
        let (ignore_stored, args) = pico.contains ("--ignore-stored-config" ∷ []) args in
        (do
          (values, args) ← take_params params [] args
          finish args
          valid (record {
            values = values;
            config_file = config_file;
            env_file = env_file;
            no_env_file = no_env_file;
            ignore_stored = ignore_stored;
          }))

  abbrev parse_reload : A → Checked String Action
  parse_reload args = do
    (pid, args) ← map_err describe (pico.value_i32 ("--pid" ∷ []) args)
    (pid_file, args) ← option ("--pid-file" ∷ []) args
    (config_file, args) ← option ("-c" ∷ "--config" ∷ []) args
    (env_file, args) ← option ("--env-file" ∷ []) args
    let (no_env_file, args) = pico.contains ("--no-env-file" ∷ []) args in
        (do
          finish args
          if is_some pid && is_some pid_file
              then invalid "--pid and --pid-file are mutually exclusive; pass only one"
              else valid (
                  reload (record {
                    pid = pid;
                    pid_file = pid_file;
                    config_file = config_file;
                    env_file = env_file;
                    no_env_file = no_env_file;
                  })))

  abbrev known_field : String → Option Param → Checked String (Unit {0})
  known_field field none = invalid ("`" +++ field +++ "` is not a configuration field")
  known_field field (some p) = valid tt

  abbrev parse_unset : A → Checked String Action
  parse_unset args = do
    (given, args) ← map_err describe (pico.free args)
    field ← required given "`config unset` needs a field name, e.g. `config unset server_port`"
    known_field field (by_field field)
    c ← parse_shared args
    valid (config_unset c field)

  abbrev parse_config : Option String × A → Checked String Action
  parse_config (none, args) =
      invalid "`config` needs a subcommand: `show`, `check`, `unset` or `clear`"
  parse_config (some sub, args) =
      if str_eq sub "show"
      then (do c ← parse_shared args; valid (config_show c))
      else if str_eq sub "check"
      then (do c ← parse_shared args; valid (config_check c))
      else if str_eq sub "unset"
      then parse_unset args
      else if str_eq sub "clear"
      then (do c ← parse_shared args; valid (config_clear c))
      else invalid (
          "unknown subcommand `config " +++ sub
          +++ "` (expected `show`, `check`, `unset` or `clear`)")

  abbrev parse_verb : Option String × A → Checked String Action
  parse_verb (none, args) = parse_shared args >>= λ c. valid (run c)
  parse_verb (some verb, args) =
      if str_eq verb "run"
      then (do c ← parse_shared args; valid (run c))
      else if str_eq verb "config"
      then map_err describe (pico.subcommand args) >>= parse_config
      else if str_eq verb "reload"
      then parse_reload args
      else invalid ("unknown command `" +++ verb +++ "` (expected `run`, `reload`, or `config`)")

  abbrev parse_after_help : A → Checked String Action
  parse_after_help args =
      let (asked, args) = pico.contains ("-V" ∷ "--version" ∷ []) args in
      if asked then valid version else map_err describe (pico.subcommand args) >>= parse_verb

  unfoldable pub parse : A → Checked String Action
  unfolding parse_shared by_field
  parse args =
      let (asked, args) = pico.contains ("-h" ∷ "--help" ∷ []) args in
      if asked then valid help else parse_after_help args
