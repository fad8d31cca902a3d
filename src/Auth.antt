-- ===== src/Auth.antt =====
-- src/middleware/auth.rs: who may pass. A middleware answers with an error, or lets the request go
-- on; `ok` stands for the second. The header is the value of `authorization` where it is there and
-- is text. `strip_prefix` compares characters.
pub mod Laws
use captchapi.Prelude.{
  ℕ, suc, String, Bool, true, false, not, Option, none, some, str_eq, as_bytes, if◌then◌else◌,
}
use captchapi.Error.{
  Result, ok, err, AppError, unauthorized, AuthError, missing_header, invalid_format, invalid_key,
  inactive_key, invalid_master_key,
}
use captchapi.Models.{ApiKey}
use captchapi.Crypto.{Primitives, hash_api_key}
use captchapi.World.{World, Exec, pure, raise, lift, attempt, count_api_key, ◌>>=◌, ◌>>◌}
use captchapi.Storage.ApiKeys.{get_api_key, update_api_key_last_used}
use Prim.Native.Char.{Char, code}
use captchapi.Prelude.{◌==◌}

-- `str::strip_prefix`
unfoldable pub strip_prefix : String → String → Option String
strip_prefix String.[] s = some s
strip_prefix (String.◌∷◌ p ps) String.[] = none
strip_prefix (String.◌∷◌ p ps) (String.◌∷◌ c cs) =
    let rest = strip_prefix ps cs in if code p == code c then rest else none

-- The header's token, or why there is none.
abbrev pub token_of : Option String → AuthError → Result String
token_of none e = err (unauthorized e)
token_of (some t) e = ok t

unfoldable pub bearer_token : Option String → Result String
unfolding strip_prefix
bearer_token none = err (unauthorized missing_header)
bearer_token (some header) = token_of (strip_prefix "Bearer " header) invalid_format

module _ (c : Primitives) (salt master_key : String) where
  abbrev count_failure : Exec (Unit {0})
  count_failure = count_api_key (λ m. record m { auth_failures = suc m.auth_failures })

  -- What `authenticate` does with the key that it found in the database.
  abbrev pub admit : String → Option ApiKey → Exec (Unit {0})
  admit key_hash none = do count_failure; raise (unauthorized invalid_key)
  admit key_hash (some key) =
      if not key.is_active
      then (do count_failure; raise (unauthorized inactive_key))
      else attempt (update_api_key_last_used key_hash)

  -- `AuthMiddleware::authenticate`. The task that it spawns to store the time of use is taken to
  -- run before the request goes on.
  unfoldable pub authenticate : Option String → Exec (Unit {0})
  unfolding get_api_key update_api_key_last_used
  authenticate header = do
    count_api_key (λ m. record m { authentications = suc m.authentications })
    token ← lift (bearer_token header)
    if c.ct_eq (as_bytes token) (as_bytes master_key) then pure tt else do
      let key_hash = hash_api_key c salt token
      found ← get_api_key key_hash
      admit key_hash found

  -- `MasterKeyMiddleware::authenticate`
  unfoldable pub authenticate_master : Option String → Result (Unit {0})
  authenticate_master header = elim (bearer_token header) [
    | err e ↦ err e
    | ok token ↦
        if not (c.ct_eq (as_bytes token) (as_bytes master_key))
        then err (unauthorized invalid_master_key)
        else ok tt
  ]
