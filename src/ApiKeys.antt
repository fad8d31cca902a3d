-- ===== src/ApiKeys.antt =====
-- src/services/api_key_ops.rs and src/routes/api_keys.rs: creating, listing, updating and deleting
-- API keys. A timestamp stands for the date that a response renders from it.
pub mod Laws
pub mod Lifecycle
use captchapi.Prelude.{
  ℕ, suc, ℤ, String, Bool, true, false, Option, none, some, List, if◌then◌else◌, not,
}
use captchapi.Error.{Result, ok, err, invalid_api_key_params, api_key_not_found, DescriptionError}
use captchapi.Models.{ApiKey, api_key_new}
use captchapi.Validation.{Checked, valid, invalid, validate_api_key_description}
use captchapi.Crypto.{Primitives, hash_api_key}
use captchapi.World.{World, Exec, pure, raise, ok_or, draw, utc_now, count_api_key, ◌>>=◌, ◌>>◌}
use captchapi.Storage.ApiKeys.{
  create_api_key, list_api_keys, update_api_key, get_api_key_by_hash, delete_api_key,
}

-- `.map_err(AppError::InvalidApiKeyParams)?`
abbrev pub checked : Checked DescriptionError (Unit {0}) → Exec (Unit {0})
checked (valid a) w = (ok a, w)
checked (invalid e) w = (err (invalid_api_key_params e), w)

module _ (c : Primitives) (salt : String) where
  -- The raw key, which is not stored, and the record.
  unfoldable pub create_api_key_orchestrated : Option String → Exec (String × ApiKey)
  unfolding create_api_key
  create_api_key_orchestrated description = do
    checked (validate_api_key_description description)
    api_key ← draw (λ o. o.alphanumeric)
    now ← utc_now
    let key = api_key_new now (hash_api_key c salt api_key) description
    create_api_key key
    count_api_key (λ m. record m { created = suc m.created })
    pure (api_key, key)

unfoldable pub list_api_keys_route : Exec (List ApiKey)
unfolding list_api_keys
list_api_keys_route = do
  keys ← list_api_keys
  count_api_key (λ m. record m { listed = suc m.listed })
  pure keys

unfoldable pub update_api_key_route : String → Option Bool → Option String → Exec ApiKey
unfolding update_api_key get_api_key_by_hash
update_api_key_route key_hash is_active description = do
  checked (validate_api_key_description description)
  updated ← update_api_key key_hash is_active description
  if not updated then raise api_key_not_found else do
    found ← get_api_key_by_hash key_hash
    key ← ok_or found api_key_not_found
    count_api_key (λ m. record m { updated = suc m.updated })
    pure key

unfoldable pub delete_api_key_route : String → Exec (Unit {0})
unfolding delete_api_key
delete_api_key_route key_hash = do
  deleted ← delete_api_key key_hash
  if deleted
      then count_api_key (λ m. record m { deleted = suc m.deleted })
      else raise api_key_not_found
