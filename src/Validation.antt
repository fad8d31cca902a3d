-- ===== src/Validation.antt =====
-- src/validation.rs: the limits on what a client may ask for, and the checks of them.
-- `i64` parameters are integers, `u64` ones numbers; a text has the length of its UTF-8 bytes.
pub mod Laws
use captchapi.Prelude.{
  ℕ, ℤ, pos, String, Bool, true, false, not, ◌&&◌, ◌||◌, Option, none, some, List, [], ◌∷◌, leb_ℤ,
  ltb, leb, ◌==◌, any, all, codes, len, if◌then◌else◌,
}
use captchapi.Error.{
  ParamError, ttl_exceeds, difficulty_range, length_range, width_range, height_range,
  compression_range, solution_too_long, DescriptionError, blank, too_long, control_character,
}

abbrev pub difficulty_min : ℤ
difficulty_min = pos 1

abbrev pub difficulty_max : ℤ
difficulty_max = pos 10

abbrev pub length_min : ℤ
length_min = pos 1

abbrev pub length_max : ℤ
length_max = pos 20

abbrev pub width_min : ℤ
width_min = pos 50

abbrev pub width_max : ℤ
width_max = pos 1000

abbrev pub height_min : ℤ
height_min = pos 30

abbrev pub height_max : ℤ
height_max = pos 500

abbrev pub compression_min : ℤ
compression_min = pos 1

abbrev pub compression_max : ℤ
compression_max = pos 100

abbrev pub solution_max_len : ℕ
solution_max_len = 100

abbrev pub default_difficulty : ℤ
default_difficulty = pos 5

abbrev pub default_length : ℤ
default_length = pos 6

abbrev pub default_width : ℤ
default_width = pos 220

abbrev pub default_height : ℤ
default_height = pos 120

abbrev pub default_dark_mode : Bool
default_dark_mode = false

abbrev pub default_compression : ℤ
default_compression = pos 40

abbrev pub max_description_length : ℕ
max_description_length = 255

pub record ValidatedSessionParams : Type 0 where
  pub length : ℤ
  pub difficulty : ℤ
  pub width : ℤ
  pub height : ℤ
  pub dark_mode : Bool
  pub compression : ℤ
  pub expires_in : ℕ

-- `Result<T, String>`, with the message as a value.
pub data Checked {ℓ} (E : Type ℓ) (A : Type ℓ) : Type ℓ where
  valid : A → Checked E A
  invalid : E → Checked E A

-- `Option::unwrap_or`
abbrev pub unwrap_or {ℓ} : {A : Type ℓ} → Option A → A → A
unwrap_or none d = d
unwrap_or (some a) d = a

-- `(lo..=hi).contains(&x)`
abbrev pub in_range : ℤ → ℤ → ℤ → Bool
in_range lo hi x = leb_ℤ lo x && leb_ℤ x hi

-- What a client may give; a missing field is `none`.
pub record SessionRequest : Type 0 where
  pub length : Option ℤ
  pub expires_in_seconds : Option ℕ
  pub difficulty : Option ℤ
  pub width : Option ℤ
  pub height : Option ℤ
  pub dark_mode : Option Bool
  pub compression : Option ℤ

-- `validate_session_params`: the first failure, in the order of the tests, or the values with the
-- defaults filled in.
unfoldable pub validate_session_params :
    SessionRequest → ℕ → ℕ → Checked ParamError ValidatedSessionParams
validate_session_params r default_ttl max_ttl =
    let expires_in = unwrap_or r.expires_in_seconds default_ttl in
    let difficulty = unwrap_or r.difficulty default_difficulty in
    let length = unwrap_or r.length default_length in
    let width = unwrap_or r.width default_width in
    let height = unwrap_or r.height default_height in
    let dark_mode = unwrap_or r.dark_mode default_dark_mode in
    let compression = unwrap_or r.compression default_compression in
    if ltb max_ttl expires_in
    then invalid (ttl_exceeds max_ttl)
    else if not (in_range difficulty_min difficulty_max difficulty)
    then invalid difficulty_range
    else if not (in_range length_min length_max length)
    then invalid length_range
    else if not (in_range width_min width_max width)
    then invalid width_range
    else if not (in_range height_min height_max height)
    then invalid height_range
    else if not (in_range compression_min compression_max compression)
    then invalid compression_range
    else valid (record {
      length = length;
      difficulty = difficulty;
      width = width;
      height = height;
      dark_mode = dark_mode;
      compression = compression;
      expires_in = expires_in;
    })

unfoldable pub validate_solution : String → Checked ParamError (Unit {0})
validate_solution solution =
    if ltb solution_max_len (len solution) then invalid solution_too_long else valid tt

-- `char::is_whitespace`, the code points that `trim` takes away.
unfoldable pub is_whitespace : ℕ → Bool
is_whitespace c =
    (leb 0x9 c && leb c 0xd)
    || c == 0x20
    || c == 0x85
    || c == 0xa0
    || c == 0x1680
    || (leb 0x2000 c && leb c 0x200a)
    || c == 0x2028
    || c == 0x2029
    || c == 0x202f
    || c == 0x205f
    || c == 0x3000

-- `char::is_control`
unfoldable pub is_control : ℕ → Bool
is_control c = leb c 0x1f || (leb 0x7f c && leb c 0x9f)

-- `desc.trim().is_empty()`: nothing but whitespace.
unfoldable pub trim_is_empty : String → Bool
unfolding is_whitespace
trim_is_empty s = all is_whitespace (codes s)

-- The closure of the search for control characters; newline, tab and carriage return may stand.
unfoldable pub is_bad_control : ℕ → Bool
unfolding is_control
is_bad_control c = is_control c && not (c == 10) && not (c == 9) && not (c == 13)

unfoldable pub validate_api_key_description : Option String → Checked DescriptionError (Unit {0})
unfolding trim_is_empty is_bad_control
validate_api_key_description none = valid tt
validate_api_key_description (some desc) =
    if trim_is_empty desc
    then invalid blank
    else if ltb max_description_length (len desc)
    then invalid too_long
    else if any is_bad_control (codes desc)
    then invalid control_character
    else valid tt
