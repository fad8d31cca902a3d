-- ===== src/Config/Text/Laws.antt =====
-- What is written is read back.
use captchapi.Prelude.{
  ap, ◌∙◌, pos_part, neg_part, ℕ, zero, suc, ◌+◌, ◌-◌, ◌*◌, ◌/◌, ◌%◌, ◌^◌, ◌≤◌, ◌<◌, ℤ, pos, negsuc,
  String, Bool, true, false, some, ◌≡◌, refl, arith, pos_part, neg_part,
}
use captchapi.Config.Text.{
  digit_char, digits, show_ℕ, show_ℤ, show_bool, scan, magnitude, parse_ℕ, parse_i64, parse_int,
  parse_bool, positive, negate,
}
use Prim.Native.Char.{code}

-- The least number that has more digits than this.
abbrev pub limit : ℕ → ℕ
limit zero = 1
limit (suc k) = 10 * limit k

code-digit_char : (d : ℕ) → d < 10 → code (digit_char d) ≡ 48 + d
unfolding digit_char
code-digit_char zero h = refl
code-digit_char (suc zero) h = refl
code-digit_char (suc (suc zero)) h = refl
code-digit_char (suc (suc (suc zero))) h = refl
code-digit_char (suc (suc (suc (suc zero)))) h = refl
code-digit_char (suc (suc (suc (suc (suc zero))))) h = refl
code-digit_char (suc (suc (suc (suc (suc (suc zero)))))) h = refl
code-digit_char (suc (suc (suc (suc (suc (suc (suc zero))))))) h = refl
code-digit_char (suc (suc (suc (suc (suc (suc (suc (suc zero)))))))) h = refl
code-digit_char (suc (suc (suc (suc (suc (suc (suc (suc (suc k))))))))) h = omega arith

scan-digit :
    (max n d : ℕ) (out : String)
    → d < 10
    → n * 10 + d ≤ max
    → scan max (String.◌∷◌ (digit_char d) out) n ≡ scan max out (n * 10 + d)
unfolding scan
scan-digit max n d out h fits = ground (arith, code-digit_char d h)

scan-digits :
    (max rounds n : ℕ) (out : String)
    → n ≤ max
    → n < limit rounds
    → scan max (digits rounds n out) 0 ≡ scan max out n
unfolding digits
scan-digits max zero n out fits h = let zero_left : n ≡ 0 = omega arith in rw zero_left
scan-digits max (suc rounds) n out fits h = ground (
  arith,
  scan-digits max rounds (n / 10) (String.◌∷◌ (digit_char (n % 10)) out),
  scan-digit max 0 n out,
  scan-digit max (n / 10) (n % 10) out,
)

-- A text that starts with a digit.
abbrev pub StartsWithDigit : String → Type 0
StartsWithDigit String.[] = ⊥
StartsWithDigit (String.◌∷◌ c s) = (48 ≤ code c) × (code c ≤ 57)

digits-StartsWithDigit :
    (rounds n : ℕ) (out : String)
    → n < limit (suc rounds)
    → StartsWithDigit (digits (suc rounds) n out)
unfolding digits
digits-StartsWithDigit zero n out h = ground (arith, code-digit_char n)
digits-StartsWithDigit (suc rounds) n out h = ground (
  arith,
  code-digit_char n,
  digits-StartsWithDigit rounds (n / 10) (String.◌∷◌ (digit_char (n % 10)) out),
)

parse_ℕ-digit : (max : ℕ) (s : String) → StartsWithDigit s → parse_ℕ max s ≡ scan max s 0
unfolding parse_ℕ
parse_ℕ-digit max String.[] h = absurd h
parse_ℕ-digit max (String.◌∷◌ c s) h = ground arith

parse_i64-digit : (s : String) → StartsWithDigit s → parse_i64 s ≡ positive (scan (2 ^ 63 - 1) s 0)
unfolding parse_int
parse_i64-digit String.[] h = absurd h
parse_i64-digit (String.◌∷◌ c s) h = ground arith

magnitude-digit : (max : ℕ) (s : String) → StartsWithDigit s → magnitude max s ≡ scan max s 0
magnitude-digit max String.[] h = absurd h
magnitude-digit max (String.◌∷◌ c s) h = refl

show_ℕ-StartsWithDigit : (n : ℕ) → n < limit 20 → StartsWithDigit (show_ℕ n)
unfolding show_ℕ
show_ℕ-StartsWithDigit n h = digits-StartsWithDigit 19 n "" h

scan-show_ℕ : (max n : ℕ) → n ≤ max → n < limit 20 → scan max (show_ℕ n) 0 ≡ some n
unfolding show_ℕ scan
scan-show_ℕ max n fits h = scan-digits max 20 n "" fits h

-- An unsigned number of at most 64 bits is read back, by a type that it fits.
pub parse_ℕ-show_ℕ : (max n : ℕ) → max < 2 ^ 64 → n ≤ max → parse_ℕ max (show_ℕ n) ≡ some n
parse_ℕ-show_ℕ max n small fits =
    rw (parse_ℕ-digit max (show_ℕ n) (show_ℕ-StartsWithDigit n (omega arith)))
      (scan-show_ℕ max n fits (omega arith))

negative :
    (s : String) (n : ℕ)
    → magnitude (2 ^ 63) s ≡ some n
    → parse_i64 (String.◌∷◌ "-" s) ≡ negate (some n)
unfolding parse_int
negative s n h = ap negate h

-- So is every `i64`.
pub parse_i64-show_ℤ :
    (z : ℤ) → pos_part z < 2 ^ 63 → neg_part z ≤ 2 ^ 63 → parse_i64 (show_ℤ z) ≡ some z
unfolding show_ℤ
parse_i64-show_ℤ (pos n) low high =
    rw
      (
        parse_i64-digit (show_ℕ n) (show_ℕ-StartsWithDigit n (omega arith)),
        scan-show_ℕ (2 ^ 63 - 1) n (omega arith) (omega arith),
      )
      refl
parse_i64-show_ℤ (negsuc n) low high = negative (show_ℕ (suc n)) (suc n) (
    magnitude-digit (2 ^ 63) (show_ℕ (suc n)) (show_ℕ-StartsWithDigit (suc n) (omega arith))
    ∙ scan-show_ℕ (2 ^ 63) (suc n) (omega arith) (omega arith))

pub parse_bool-show_bool : (b : Bool) → parse_bool (show_bool b) ≡ some b
unfolding parse_bool show_bool
parse_bool-show_bool true = refl
parse_bool-show_bool false = refl
