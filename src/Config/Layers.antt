-- ===== src/Config/Layers.antt =====
-- src/config/sources.rs: the stack of configuration layers, and which of them answers.
-- A layer maps canonical keys to texts; the process environment is a function.
pub mod Laws
use captchapi.Prelude.{
  ℕ, String, Bool, true, false, Option, none, some, List, [], ◌∷◌, str_eq, if◌then◌else◌,
}
use captchapi.Table.{is_some}
use captchapi.Config.Params.{Param, params}

abbrev pub Layer : Type 0
Layer = List (String × String)

-- `BTreeMap::get`
unfoldable pub get_in : String → Layer → Option String
get_in key [] = none
get_in key ((k, v) ∷ l) = if str_eq k key then some v else get_in key l

-- `BTreeMap::insert`
unfoldable pub insert : String → String → Layer → Layer
insert key value [] = (key, value) ∷ []
insert key value ((k, v) ∷ l) =
    if str_eq k key then (key, value) ∷ l else (k, v) ∷ insert key value l

pub record LayeredEnv : Type 0 where
  pub overlay : Layer
  pub cli : Layer
  pub env : String → Option String
  pub stored : Layer
  pub env_file : Layer
  pub file : Layer
  pub carried : Layer

-- `LayeredEnv::new`
unfoldable pub new : Layer → (String → Option String) → Layer → Layer → Layer → LayeredEnv
new cli env env_file file carried = record {
  overlay = [];
  cli = cli;
  env = env;
  stored = [];
  env_file = env_file;
  file = file;
  carried = carried;
}

abbrev pub with_overlay : LayeredEnv → Layer → LayeredEnv
with_overlay l overlay = record l { overlay = overlay }

abbrev pub with_stored : LayeredEnv → Layer → LayeredEnv
with_stored l stored = record l { stored = stored }

pub data Source : Type 0 where
  admin cli env stored env_file file carried default : Source

-- `Source::is_pinned`
unfoldable pub is_pinned : Source → Bool
is_pinned cli = true
is_pinned env = true
is_pinned _ = false

-- `BTreeMap::contains_key`
abbrev contains_key : String → Layer → Bool
contains_key key l = is_some (get_in key l)

unfoldable pub source_of : LayeredEnv → String → Source
source_of l key =
    if contains_key key l.overlay
    then admin
    else if contains_key key l.cli
    then cli
    else if is_some (l.env key)
    then env
    else if contains_key key l.stored
    then stored
    else if contains_key key l.env_file
    then env_file
    else if contains_key key l.file
    then file
    else if contains_key key l.carried
    then carried
    else default

-- `Option::or_else`
infixr 20 ◌or_else◌
abbrev pub ◌or_else◌ : Option String → Option String → Option String
none or_else b = b
(some a) or_else b = some a

-- `EnvProvider::get`
unfoldable pub get : LayeredEnv → String → Option String
get l key =
    get_in key l.overlay
    or_else get_in key l.cli
    or_else l.env key
    or_else get_in key l.stored
    or_else get_in key l.env_file
    or_else get_in key l.file
    or_else get_in key l.carried

-- `Sources`, keyed by field name.
abbrev pub Sources : Type 0
Sources = List (String × Source)

capture_each : LayeredEnv → List Param → Sources
capture_each l [] = []
capture_each l (p ∷ ps) = (p.field, source_of l p.env) ∷ capture_each l ps

-- `Sources::capture`
unfoldable pub capture : LayeredEnv → Sources
unfolding capture_each
capture l = capture_each l params

-- `Sources::get`; what is not recorded is `Default`.
unfoldable pub source_get : Sources → String → Source
source_get [] field = default
source_get ((f, s) ∷ t) field = if str_eq f field then s else source_get t field
