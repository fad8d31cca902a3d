-- ===== src/Config/Handle.antt =====
-- src/config/handle.rs: the configuration of a running process, and what may change it.
-- One operation is one step, since each runs under the lock of the handle.
pub mod History
pub mod Laws
pub mod Patch
use captchapi.Prelude.{
  String, Bool, true, false, Option, none, some, List, [], ◌∷◌, map, str_eq, ◌+++◌, if◌then◌else◌,
}
use captchapi.Validation.{Checked, valid, invalid}
use captchapi.Models.{SessionConfig}
use captchapi.Config.Params.{Param, by_env, Reload, boot, live}
use captchapi.Config.Layers.{Layer, insert, Source, is_pinned, Sources, source_get, cli}
use captchapi.Config.Values.{
  Config, EnvProvider, session_config, boot_layer, boot_drift, with_boot_fields_from, ◌>>=◌, ◌>>◌,
}
use captchapi.Config.Files.{System}
use captchapi.Cli.{Cli, Layers, load_layers, stack, resolve_stack}

-- Where a reload reads environment variables from.
pub data EnvSource : Type 0 where
  process empty : EnvSource

abbrev pub environment_of : System → EnvSource → EnvProvider
environment_of sys process = sys.environment
environment_of sys empty = λ key. none

-- `ReloadState`, and the configuration that the channel holds.
pub record Handle : Type 0 where
  pub current : Config
  pub cli : Cli
  pub env : EnvSource
  pub overlay : Layer
  pub sources : Sources
  pub pending_restart : List String
  pub stored : Layer

pub record Outcome : Type 0 where
  pub config : Config
  pub drift : List String

-- `ConfigHandle::new`
unfoldable pub new : Config → Cli → Sources → Layer → Handle
new config c sources stored = record {
  current = config;
  cli = c;
  env = process;
  overlay = [];
  sources = sources;
  pending_restart = [];
  stored = stored;
}

unfoldable pub resolve_with_carry :
    System → Cli → Config → Layer → Layer → EnvSource → Checked String (Config × Sources)
unfolding load_layers stack resolve_stack boot_layer
resolve_with_carry sys c current overlay stored env = do
  layers ← load_layers sys c
  resolve_stack (
      stack (record layers { overlay = overlay; stored = stored; carried = boot_layer current })
        (environment_of sys env))

-- An operation on the handle; a failure leaves it as it is.
abbrev pub Op : Type 0 → Type 0
Op A = Handle → Checked String A × Handle

abbrev pub commit :
    {A B : Type 0} → Handle → (A → B × Handle) → Checked String A → Checked String B × Handle
commit h f (invalid e) = (invalid e, h)
commit h f (valid a) = let (b, h') = f a in (valid b, h')

-- What `reload` and `adopt_stored` publish.
unfoldable pub publish : Layer → Layer → Handle → Config × Sources → Outcome × Handle
unfolding boot_drift with_boot_fields_from
publish overlay stored h (resolved, sources) =
    let drift = boot_drift h.current resolved in
    let merged = with_boot_fields_from h.current resolved in
    (
      record { config = merged; drift = drift },
      record h {
        overlay = overlay;
        sources = sources;
        stored = stored;
        pending_restart = drift;
        current = merged;
      },
    )

unfoldable pub reload : System → Layer → Op Outcome
unfolding resolve_with_carry publish
reload sys stored h =
    commit h (publish [] stored h) (resolve_with_carry sys h.cli h.current [] stored h.env)

unfoldable pub adopt_stored : System → Layer → Op Outcome
unfolding resolve_with_carry publish
adopt_stored sys stored h =
    commit h (publish h.overlay stored h)
      (resolve_with_carry sys h.cli h.current h.overlay stored h.env)

unfoldable pub dry_run : System → Layer → Handle → Checked String Config
unfolding resolve_with_carry
dry_run sys stored h = do
  (resolved, sources) ← resolve_with_carry sys h.cli h.current h.overlay stored h.env
  valid resolved

-- The loops of `patch`: every key is live, none is pinned, and a log filter is understood.
abbrev pub live_only : Param → Reload → Checked String (Unit {0})
live_only p live = valid tt
live_only p boot =
    invalid ("`" +++ p.field +++ "` is applied at startup and cannot be changed at runtime")

abbrev pub known_live : String → Option Param → Checked String (Unit {0})
known_live key none = invalid ("`" +++ key +++ "` is not a configuration key")
known_live key (some p) = live_only p p.reload

unfoldable pub check_live : Layer → Checked String (Unit {0})
unfolding by_env
check_live [] = valid tt
check_live ((key, value) ∷ t) = known_live key (by_env key) >> check_live t

abbrev pub place_of : Source → String
place_of cli = "command line"
place_of _ = "environment"

abbrev free_source : Param → Source → Checked String (Unit {0})
free_source p source =
    if is_pinned source
    then invalid (
        "`"
        +++ p.field
        +++ "` is set on the "
        +++ place_of source
        +++ " and cannot be changed at runtime; the override would be discarded by the next reload")
    else valid tt

abbrev pub free_param : Sources → Option Param → Checked String (Unit {0})
free_param sources none = valid tt
free_param sources (some p) = free_source p (source_get sources p.field)

unfoldable pub check_free : Sources → Layer → Checked String (Unit {0})
unfolding by_env is_pinned source_get
check_free sources [] = valid tt
check_free sources ((key, value) ∷ t) = free_param sources (by_env key) >> check_free sources t

abbrev filter_answer : Option String → Checked String (Unit {0})
filter_answer none = valid tt
filter_answer (some e) = invalid ("Invalid RUST_LOG: unparseable log filter: " +++ e)

unfoldable pub check_filter : System → Layer → Checked String (Unit {0})
check_filter sys [] = valid tt
check_filter sys ((key, value) ∷ t) =
    (if str_eq key "RUST_LOG" then filter_answer (sys.filter_error value) else valid tt)
    >> check_filter sys t

unfoldable pub insert_all : Layer → Layer → Layer
unfolding insert
insert_all [] overlay = overlay
insert_all ((key, value) ∷ t) overlay = insert_all t (insert key value overlay)

unfoldable pub override : Layer → Handle → Config × Sources → Config × Handle
unfolding with_boot_fields_from
override overlay h (resolved, sources) =
    let merged = with_boot_fields_from h.current resolved in
    (merged, record h { overlay = overlay; sources = sources; current = merged })

unfoldable pub patch : System → Layer → Op Config
unfolding check_live check_free check_filter insert_all resolve_with_carry override
patch sys updates h =
    let overlay = insert_all updates h.overlay in
    commit h (override overlay h) (do
      check_live updates
      check_free h.sources updates
      check_filter sys updates
      resolve_with_carry sys h.cli h.current overlay h.stored h.env)

-- `overlay_keys`
unfoldable pub overlay_keys : Handle → List String
overlay_keys h = map (λ e. e.0) h.overlay
