-- ===== src/Config/Params.antt =====
-- src/config/params.rs: the table of configuration parameters, which drives every layer, and the
-- lookups in it.
mod Kinds
mod Rows
pub mod Facts
pub use Kinds.*
pub use Rows.*
use captchapi.Prelude.{
  String, Bool, true, false, Option, none, some, List, [], ◌∷◌, str_eq, if◌then◌else◌,
}

-- `iter().find(…)`
unfoldable pub find {ℓ} : {A : Type ℓ} → (A → Bool) → List A → Option A
find p [] = none
find p (x ∷ xs) = if p x then some x else find p xs

unfoldable pub by_env : String → Option Param
unfolding find
by_env env = find (λ p. str_eq p.env env) params

unfoldable pub by_field : String → Option Param
unfolding find
by_field field = find (λ p. str_eq p.field field) params

abbrev pub is_at : String → Option String → Bool
is_at path none = false
is_at path (some t) = str_eq t path

unfoldable pub by_toml : String → Option Param
unfolding find
by_toml path = find (λ p. is_at path p.toml) params
