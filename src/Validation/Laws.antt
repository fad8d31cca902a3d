-- ===== src/Validation/Laws.antt =====
-- What the checks of validation.rs accept.
use captchapi.Prelude.{
  ◌↔◌, ℕ, pos, ◌≡◌, ◌≤◌, ◌≤ℤ◌, arith, List, All, String, all, any, ◌∷◌, false, some, codes, ◌⊎◌,
  len, [],
}
use captchapi.Validation.{
  SessionRequest, ValidatedSessionParams, valid, unwrap_or, validate_session_params,
  default_difficulty, default_length, default_width, default_height, default_dark_mode,
  default_compression, is_bad_control, validate_api_key_description, is_control, is_whitespace,
}

-- Parameters that the renderer is built for, and a lifetime that the operator allows.
pub record IsAcceptable (max_ttl : ℕ) (p : ValidatedSessionParams) : Type 0 where
  pub difficulty : (pos 1 ≤ℤ p.difficulty) × (p.difficulty ≤ℤ pos 10)
  pub length : (pos 1 ≤ℤ p.length) × (p.length ≤ℤ pos 20)
  pub width : (pos 50 ≤ℤ p.width) × (p.width ≤ℤ pos 1000)
  pub height : (pos 30 ≤ℤ p.height) × (p.height ≤ℤ pos 500)
  pub compression : (pos 1 ≤ℤ p.compression) × (p.compression ≤ℤ pos 100)
  pub expires_in : p.expires_in ≤ max_ttl

-- The request with every missing field filled in.
abbrev pub resolved : SessionRequest → ℕ → ValidatedSessionParams
resolved r default_ttl = record {
  length = unwrap_or r.length default_length;
  difficulty = unwrap_or r.difficulty default_difficulty;
  width = unwrap_or r.width default_width;
  height = unwrap_or r.height default_height;
  dark_mode = unwrap_or r.dark_mode default_dark_mode;
  compression = unwrap_or r.compression default_compression;
  expires_in = unwrap_or r.expires_in_seconds default_ttl;
}

-- `validate_session_params` accepts exactly the requests whose values, with the defaults filled in,
-- lie in all the ranges and within the lifetime limit, and it returns those values.
pub validate_session_params_iff :
    (r : SessionRequest) (default_ttl max_ttl : ℕ) (p : ValidatedSessionParams)
    → (validate_session_params r default_ttl max_ttl ≡ valid p)
      ↔ ((p ≡ resolved r default_ttl) × IsAcceptable max_ttl p)
unfolding validate_session_params
validate_session_params_iff r default_ttl max_ttl p =
    (λ h. (ground arith, ground arith), λ h. ground arith)

-- Some code point is not whitespace.
abbrev pub HasInk : List ℕ → Type 0
HasInk [] = ⊥
HasInk (c ∷ cs) = (is_whitespace c ≡ false) ⊎ HasInk cs

-- No control character, newline, tab and carriage return aside.
abbrev pub IsPrintable : List ℕ → Type 0
IsPrintable = All (λ c. (is_control c ≡ false) ⊎ ((c ≡ 10) ⊎ ((c ≡ 9) ⊎ (c ≡ 13))))

all-HasInk : (cs : List ℕ) → (all is_whitespace cs ≡ false) ↔ HasInk cs
all-HasInk [] = ground arith
all-HasInk (c ∷ cs) = ground (arith, all-HasInk cs)

any-IsPrintable : (cs : List ℕ) → (any is_bad_control cs ≡ false) ↔ IsPrintable cs
unfolding is_bad_control
any-IsPrintable [] = ground arith
any-IsPrintable (c ∷ cs) = ground (arith, any-IsPrintable cs)

-- A description is accepted exactly if some character of it is not whitespace, it has at most 255
-- bytes in UTF-8, and no character is a control character other than newline, tab and carriage
-- return.
pub validate_api_key_description_iff :
    (desc : String)
    → (validate_api_key_description (some desc) ≡ valid tt)
      ↔ (HasInk (codes desc) × (len desc ≤ 255) × IsPrintable (codes desc))
unfolding validate_api_key_description
validate_api_key_description_iff desc =
    ground (arith, all-HasInk (codes desc), any-IsPrintable (codes desc))
