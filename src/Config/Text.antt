-- ===== src/Config/Text.antt =====
-- How the standard library reads and writes numbers and truth values as text, as `Config` uses it:
-- `parse` and `to_string` of the integer types and of `bool`, `trim` and `to_lowercase`.
pub mod Laws
pub mod Bounds
use captchapi.Prelude.{
  ℕ, zero, suc, ◌+◌, ◌-◌, ◌*◌, ◌/◌, ◌%◌, ◌^◌, ℤ, pos, negsuc, String, Bool, true, false, ◌&&◌, ◌||◌,
  not, Option, none, some, List, [], ◌∷◌, ltb, leb, ◌==◌, str_eq, if◌then◌else◌,
}
use captchapi.Validation.{is_whitespace}
use Prim.Native.Char.{Char, code}

pub digit_char : ℕ → Char
digit_char zero = "0"
digit_char (suc zero) = "1"
digit_char (suc (suc zero)) = "2"
digit_char (suc (suc (suc zero))) = "3"
digit_char (suc (suc (suc (suc zero)))) = "4"
digit_char (suc (suc (suc (suc (suc zero))))) = "5"
digit_char (suc (suc (suc (suc (suc (suc zero)))))) = "6"
digit_char (suc (suc (suc (suc (suc (suc (suc zero))))))) = "7"
digit_char (suc (suc (suc (suc (suc (suc (suc (suc zero)))))))) = "8"
digit_char (suc (suc (suc (suc (suc (suc (suc (suc (suc _))))))))) = "9"

-- The digits of a number before a text, the last first, in at most so many rounds.
pub digits : ℕ → ℕ → String → String
digits zero n out = out
digits (suc rounds) n out =
    let rest = digits rounds (n / 10) (String.◌∷◌ (digit_char (n % 10)) out) in
    if ltb n 10 then String.◌∷◌ (digit_char n) out else rest

-- `to_string` of an unsigned integer. 64 bits have at most 20 digits.
unfoldable pub show_ℕ : ℕ → String
unfolding digits digit_char
show_ℕ n = digits 20 n ""

-- `to_string` of an `i64`.
unfoldable pub show_ℤ : ℤ → String
show_ℤ (pos n) = show_ℕ n
show_ℤ (negsuc n) = String.◌∷◌ "-" (show_ℕ (suc n))

unfoldable pub show_bool : Bool → String
show_bool true = "true"
show_bool false = "false"

-- The digits of a number behind `n`, which may not pass `max`.
pub scan : ℕ → String → ℕ → Option ℕ
scan max String.[] n = some n
scan max (String.◌∷◌ c s) n =
    let m = n * 10 + (code c - 48) in
    if leb 48 (code c) && leb (code c) 57 && leb m max then scan max s m else none

-- A sequence of digits that is not empty.
abbrev pub magnitude : ℕ → String → Option ℕ
magnitude max String.[] = none
magnitude max (String.◌∷◌ c s) = scan max (String.◌∷◌ c s) 0

-- `parse` of an unsigned integer type whose greatest value is `max`; a plus sign may come first.
unfoldable pub parse_ℕ : ℕ → String → Option ℕ
unfolding scan
parse_ℕ max String.[] = none
parse_ℕ max (String.◌∷◌ c s) =
    if code c == 43 then magnitude max s else magnitude max (String.◌∷◌ c s)

abbrev pub negate : Option ℕ → Option ℤ
negate none = none
negate (some zero) = some (pos zero)
negate (some (suc n)) = some (negsuc n)

abbrev pub positive : Option ℕ → Option ℤ
positive none = none
positive (some n) = some (pos n)

-- `parse` of a signed integer type that starts at minus `half`.
unfoldable pub parse_int : ℕ → String → Option ℤ
unfolding scan
parse_int half String.[] = none
parse_int half (String.◌∷◌ c s) =
    if code c == 45
    then negate (magnitude half s)
    else if code c == 43
    then positive (magnitude (half - 1) s)
    else positive (magnitude (half - 1) (String.◌∷◌ c s))

abbrev pub parse_i64 : String → Option ℤ
parse_i64 = parse_int (2 ^ 63)

abbrev pub parse_i32 : String → Option ℤ
parse_i32 = parse_int (2 ^ 31)

-- `parse::<bool>`
unfoldable pub parse_bool : String → Option Bool
parse_bool s = if str_eq s "true" then some true else if str_eq s "false" then some false else none

-- `trim`: from the start, and from the end.
pub trim_start : String → String
trim_start String.[] = String.[]
trim_start (String.◌∷◌ c s) = if is_whitespace (code c) then trim_start s else String.◌∷◌ c s

abbrev pub push_trimmed : Char → String → String
push_trimmed c String.[] = if is_whitespace (code c) then String.[] else String.◌∷◌ c String.[]
push_trimmed c (String.◌∷◌ d s) = String.◌∷◌ c (String.◌∷◌ d s)

pub trim_end : String → String
trim_end String.[] = String.[]
trim_end (String.◌∷◌ c s) = push_trimmed c (trim_end s)

unfoldable pub trim : String → String
unfolding trim_start trim_end is_whitespace
trim s = trim_end (trim_start s)
