-- ===== src/Config/Files.antt =====
-- src/config/sources.rs: what is read from secret files, env files and TOML files.
-- The file system, dotenvy and toml are the fields of `System`; a path is its text.
use captchapi.Prelude.{
  ℕ, ℤ, String, Bool, Option, none, some, List, [], ◌∷◌, len, str_eq, ◌+++◌, if◌then◌else◌,
}
use captchapi.Validation.{Checked, valid, invalid}
use captchapi.Config.Text.{show_ℕ, show_ℤ, show_bool, trim}
use captchapi.Config.Params.{Param, params, Kind, by_toml, by_field}
use captchapi.Config.Layers.{Layer, insert}
use captchapi.Config.Values.{EnvProvider, required, ◌>>=◌}
use Prim.Native.String.{compare}
use Prim.Native.Nat.{Ordering}

-- `dotenvy::Error`; a line that is not understood comes with its content and its index.
pub data EnvError : Type 0 where
  line_parse : String → ℕ → EnvError
  io env_var : String → EnvError
  other_error : EnvError

-- A value inside a section of a TOML file. Floats, dates, arrays and tables are `other`.
pub data Item : Type 0 where
  integer : ℤ → Item
  boolean : Bool → Item
  text : String → Item
  other : Item

-- A value at the top of a TOML file.
pub data Section : Type 0 where
  table : List (String × Item) → Section
  scalar : Section

-- What the process finds outside of itself while it resolves a configuration.
pub record System : Type 0 where
  -- the process environment
  pub environment : EnvProvider
  pub exists : String → Bool
  -- `std::fs::read_to_string`, with the text of its error
  pub read_to_string : String → Checked String String
  -- `dotenvy::from_path_iter`: the text of its error, or its items
  pub env_items : String → Checked String (List (Checked EnvError (String × String)))
  -- `toml::from_str`: the message of its error, or the sections in the order of the table
  pub toml : String → Checked String (List (String × Section))
  -- `parse::<Targets>`: the text of its error, or none
  pub filter_error : String → Option String
  -- `parse::<SocketAddr>`, the address as text, or the text of its error
  pub socket_addr : String → Checked String String
  -- `TcpListener::bind`: the text of its error, or none
  pub bind_error : String → Option String

-- `.map_err(f)`
abbrev pub map_err : {E A : Type 0} → (E → String) → Checked E A → Checked String A
map_err f (valid a) = valid a
map_err f (invalid e) = invalid (f e)

abbrev not_empty : String → String → Checked String String
not_empty path String.[] = invalid ("secret file " +++ path +++ " is empty")
not_empty path (String.◌∷◌ c s) = valid (String.◌∷◌ c s)

unfoldable pub read_secret_file : System → String → Checked String String
unfolding trim
read_secret_file sys path =
    map_err (λ e. "cannot read secret file " +++ path +++ ": " +++ e) (sys.read_to_string path)
    >>= λ raw. not_empty path (trim raw)

unfoldable pub describe_env_file_error : String → EnvError → String
describe_env_file_error path (line_parse content index) =
    "invalid line in env file "
    +++ path
    +++ " at index "
    +++ show_ℕ index
    +++ " (line content withheld: it may contain a secret)"
describe_env_file_error path (io e) = "cannot read env file " +++ path +++ ": " +++ e
describe_env_file_error path (env_var e) = "invalid value in env file " +++ path +++ ": " +++ e
describe_env_file_error path other_error = "invalid env file " +++ path

-- The loop of `load_env_file`.
unfoldable pub insert_each :
    String → List (Checked EnvError (String × String)) → Layer → Checked String Layer
unfolding describe_env_file_error
insert_each path [] layer = valid layer
insert_each path (valid (key, value) ∷ t) layer = insert_each path t (insert key value layer)
insert_each path (invalid e ∷ t) layer = invalid (describe_env_file_error path e)

unfoldable pub load_env_file : System → String → Checked String Layer
unfolding insert_each insert
load_env_file sys path =
    map_err (λ e. "cannot read env file " +++ path +++ ": " +++ e) (sys.env_items path) >>= λ items.
    insert_each path items []

-- `as_integer`, `as_bool` and `as_str`, written as text.
abbrev of_kind : Kind → Item → Option String
of_kind Kind.num (integer n) = some (show_ℤ n)
of_kind Kind.bool (boolean b) = some (show_bool b)
of_kind Kind.str (text s) = some s
of_kind _ _ = none

abbrev expected : Kind → Param → String → String
expected Kind.num p path = "`" +++ path +++ "` must be an integer"
expected Kind.bool p path = "`" +++ path +++ "` must be true or false"
expected Kind.str p path = "`" +++ path +++ "` must be a string"
expected Kind.secret_file p path =
    "`" +++ path +++ "` cannot be set in a config file; use " +++ p.flag +++ " or the " +++ p.env
    +++ " environment variable"

unfoldable pub coerce : Param → String → Item → Checked String String
coerce p path item = required (of_kind p.kind item) (expected p.kind p path)

-- `split('.').next()`
unfoldable pub section_of : String → String
section_of String.[] = String.[]
section_of (String.◌∷◌ c s) =
    let rest = section_of s in
    if str_eq (String.◌∷◌ c String.[]) "." then String.[] else String.◌∷◌ c rest

-- `sort_unstable` on texts.
abbrev put_first : Ordering → String → String → List String → List String → List String
put_first Ordering.gt s t ts rest = t ∷ rest
put_first _ s t ts rest = s ∷ t ∷ ts

unfoldable pub place : String → List String → List String
place s [] = s ∷ []
place s (t ∷ ts) = put_first (compare s t) s t ts (place s ts)

unfoldable pub sorted : List String → List String
unfolding place
sorted [] = []
sorted (s ∷ ts) = place s (sorted ts)

unfoldable pub join : String → List String → String
join separator [] = ""
join separator (s ∷ []) = s
join separator (s ∷ t ∷ ts) = s +++ separator +++ join separator (t ∷ ts)

abbrev in_section : String → Option String → List String → List String
in_section section none known = known
in_section section (some t) known = if str_eq (section_of t) section then t ∷ known else known

-- The paths of `PARAMS` in a section; a path of the table has one dot.
unfoldable pub known_paths : String → List Param → List String
unfolding section_of
known_paths section [] = []
known_paths section (p ∷ ps) = in_section section p.toml (known_paths section ps)

abbrev unknown_path : String → List String → String
unknown_path path [] = "unknown config key `" +++ path +++ "`"
unknown_path path (s ∷ known) =
    "unknown config key `" +++ path +++ "` (known keys: " +++ join ", " (s ∷ known) +++ ")"

unfoldable pub unknown_path_message : String → String
unfolding known_paths sorted join section_of
unknown_path_message path = unknown_path path (sorted (known_paths (section_of path) params))

-- The inner loop of `parse_toml`, over the keys of a section, and the outer one.
unfoldable pub take_items : String → List (String × Item) → Layer → Checked String Layer
unfolding by_toml coerce unknown_path_message insert
take_items section [] layer = valid layer
take_items section ((key, item) ∷ t) layer =
    let path = section +++ "." +++ key in
    required (by_toml path) (unknown_path_message path) >>= λ p.
    coerce p path item >>= λ value. take_items section t (insert p.env value layer)

unfoldable pub take_sections : List (String × Section) → Layer → Checked String Layer
unfolding take_items
take_sections [] layer = valid layer
take_sections ((section, table items) ∷ t) layer =
    take_items section items layer >>= λ layer'. take_sections t layer'
take_sections ((section, scalar) ∷ t) layer = invalid (
    "`" +++ section +++ "` must be a section, for example `[" +++ section
    +++ "]` with keys under it")

unfoldable pub parse_toml : System → String → Checked String Layer
unfolding take_sections
parse_toml sys raw = sys.toml raw >>= λ sections. take_sections sections []

unfoldable pub load_toml_file : System → String → Checked String Layer
unfolding parse_toml
load_toml_file sys path =
    map_err (λ e. "cannot read config file " +++ path +++ ": " +++ e) (sys.read_to_string path)
    >>= λ raw. map_err (λ e. path +++ ": " +++ e) (parse_toml sys raw)

unfoldable pub redact : Param → String → String
redact p value = if p.secret then "<redacted, " +++ show_ℕ (len value) +++ " bytes>" else value

abbrev pub env_of : Option Param → Option String
env_of none = none
env_of (some p) = some p.env

unfoldable pub canonical_key : String → Option String
unfolding by_field
canonical_key field = env_of (by_field field)
