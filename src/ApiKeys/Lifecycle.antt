-- ===== src/ApiKeys/Lifecycle.antt =====
-- An API key from its creation to its removal, as authentication sees it.
use mathlib.Core.Path.{subst}
use captchapi.Prelude.{
  ℕ, ◌⊎◌, ◌≢◌, String, ◌≡◌, refl, false, Option, none, some, List, arith, inl, inr, eq_iff,
  as_bytes,
}
use captchapi.Error.{ok}
use captchapi.Models.{ApiKey, ApiKeyRow, api_key_new, api_key_from_row}
use captchapi.Table.Laws.{select-update, select-delete, select-insert}
use captchapi.Crypto.{Primitives, hash_api_key}
use captchapi.World.{World}
use captchapi.Storage.ApiKeys.{key_hash_of, api_key_row_of, flag}
use captchapi.ApiKeys.{create_api_key_orchestrated, update_api_key_route, delete_api_key_route}
use captchapi.Auth.{bearer_token, authenticate}
use captchapi.Auth.Laws.{key_in, IsActive, authenticate_iff}

module _ (c : Primitives) (salt : String) where
  created-IsActive :
      (description : Option String) (w : World) (raw : String) (key : ApiKey)
      → (create_api_key_orchestrated c salt description w).0 ≡ ok (raw, key)
      → IsActive
          (key_in (create_api_key_orchestrated c salt description w).1 (hash_api_key c salt raw))
  unfolding create_api_key_orchestrated api_key_new
  created-IsActive description w raw key made = ground (
    arith,
    select-insert key_hash_of (api_key_row_of key) key.key_hash w.api_keys,
    eq_iff key.key_hash key.key_hash,
  )

  -- The raw key that the creation endpoint hands out passes authentication as a bearer token from
  -- then on, while the table is as the creation left it and the database does not refuse the lookup.
  pub created_key_passes :
      (master_key : String) (description : Option String) (w w' : World) (raw : String)
      (key : ApiKey) (header : Option String)
      → (create_api_key_orchestrated c salt description w).0 ≡ ok (raw, key)
      → (create_api_key_orchestrated c salt description w).1 ≡ w'
      → bearer_token header ≡ ok raw
      → w'.outside.fails w'.step ≡ false
      → (authenticate c salt master_key header w').0 ≡ ok tt
  created_key_passes master_key description w w' raw key header made left bearer up =
      let active = created-IsActive description w raw key made in
      (authenticate_iff c salt master_key header raw w' bearer up).1
        (inr (subst (λ x. IsActive (key_in x (hash_api_key c salt raw))) left active))

module _ (h : String) (w : World) where
  -- Switching a key off, with or without a new description, or deleting it: afterwards it is not
  -- active.
  switched_off :
      (description : Option String) (key : ApiKey)
      → (update_api_key_route h (some false) description w).0 ≡ ok key
      → ¬ (IsActive (key_in (update_api_key_route h (some false) description w).1 h))
  unfolding update_api_key_route api_key_from_row
  switched_off none key done = ground (
    arith,
    select-update key_hash_of h h (λ r. record r { is_active = flag false }) w.api_keys (λ r. refl),
    eq_iff h h,
  )
  switched_off (some d) key done = ground (
    arith,
    select-update key_hash_of h h (λ r. record r { is_active = flag false; description = some d })
        w.api_keys (λ r. refl),
    eq_iff h h,
  )

  removed :
      (delete_api_key_route h w).0 ≡ ok tt → ¬ (IsActive (key_in (delete_api_key_route h w).1 h))
  unfolding delete_api_key_route
  removed done = ground (arith, select-delete key_hash_of h h w.api_keys, eq_iff h h)

stopped :
    {token master : List ℕ} (row : Option ApiKeyRow)
    → token ≢ master
    → ¬ (IsActive row)
    → (token ≡ master) ⊎ IsActive row
    → ⊥
stopped row other idle (inl same) = other same
stopped row other idle (inr active) = idle active

-- A key that was switched off, or deleted, does not pass authentication any more: if either endpoint
-- answers with success for the hash of a token, and the token is not the master key, then a request
-- with that token is not let through, where the table is as the endpoint left it and the database
-- does not refuse the lookup.
pub revoked_key_stopped :
    (c : Primitives) (salt master_key : String) (token : String) (header : Option String)
    (w : World) (description : Option String)
    → bearer_token header ≡ ok token
    → as_bytes token ≢ as_bytes master_key
    → let h = hash_api_key c salt token in
      let off = (update_api_key_route h (some false) description w).1 in
      let out = (delete_api_key_route h w).1 in
      ((key : ApiKey)
        → (update_api_key_route h (some false) description w).0 ≡ ok key
        → off.outside.fails off.step ≡ false
        → (authenticate c salt master_key header off).0 ≢ ok tt)
      × ((delete_api_key_route h w).0 ≡ ok tt
          → out.outside.fails out.step ≡ false
          → (authenticate c salt master_key header out).0 ≢ ok tt)
revoked_key_stopped c salt master_key token header w description bearer other =
    let h = hash_api_key c salt token in
    (
      λ key done up passes.
          stopped _ other (switched_off h w description key done)
            ((authenticate_iff c salt master_key header token _ bearer up).0 passes),
      λ done up passes.
          stopped _ other (removed h w done)
            ((authenticate_iff c salt master_key header token _ bearer up).0 passes),
    )
