-- ===== src/Auth/Laws.antt =====
-- Who passes the middlewares.
use captchapi.Prelude.{
  suc, ◌⊎◌, ◌↔◌, pos, String, ◌≡◌, refl, false, Option, none, some, arith, inl, inr, eq_iff,
  as_bytes,
}
use mathlib.Core.Option
use captchapi.Error.{
  Result-cases, ok, err, AppError, unauthorized, missing_header, invalid_format, invalid_key,
  database,
}
use captchapi.Models.{ApiKeyRow, api_key_from_row}
use captchapi.Table.{select}
use captchapi.Table.Laws.{select-update}
use captchapi.Crypto.{Primitives, hash_api_key}
use captchapi.World.{World}
use captchapi.Storage.ApiKeys.{key_hash_of, set_last_used}
use captchapi.Auth.{bearer_token, authenticate, authenticate_master}

-- The row of an API key in the database.
abbrev pub key_in : World → String → Option ApiKeyRow
key_in w h = select key_hash_of h w.api_keys

-- A key that is stored and switched on.
abbrev pub IsActive : Option ApiKeyRow → Type 0
IsActive none = ⊥
IsActive (some row) = row.is_active ≡ pos 1

-- A row but for the time of its last use.
abbrev pub but_last_used : ApiKeyRow → ApiKeyRow
but_last_used row = record row { last_used_at = none }

module _ (c : Primitives) (salt master_key : String) where
  -- A request whose header holds the bearer token `token` passes exactly if the token is the master
  -- key, byte for byte, or its hash is stored as an active key. The database does not refuse the
  -- lookup.
  pub authenticate_iff :
      (header : Option String) (token : String) (w : World)
      → bearer_token header ≡ ok token
      → w.outside.fails w.step ≡ false
      → ((authenticate c salt master_key header w).0 ≡ ok tt)
        ↔ ((as_bytes token ≡ as_bytes master_key) ⊎ IsActive (key_in w (hash_api_key c salt token)))
  unfolding authenticate api_key_from_row
  authenticate_iff header token w bearer up =
      ground (arith, c.ct_eq_iff (as_bytes token) (as_bytes master_key))

  -- Whatever the header, a request that does not pass is answered `Unauthorized`, unless the
  -- database refused a statement; and never that the key is inactive, since the lookup finds active
  -- keys only.
  pub authenticate_errors :
      (header : Option String) (w : World) (e : AppError)
      → (authenticate c salt master_key header w).0 ≡ err e
      → (e ≡ database)
        ⊎ ((e ≡ unauthorized missing_header)
            ⊎ ((e ≡ unauthorized invalid_format) ⊎ (e ≡ unauthorized invalid_key)))
  unfolding authenticate api_key_from_row bearer_token
  authenticate_errors header w e h = ground arith

  -- Authentication changes no session, and of the API keys at most the time of the last use of the
  -- key that was presented.
  pub authenticate_frame :
      (header : Option String) (w : World) (h : String)
      → let w' = (authenticate c salt master_key header w).1 in
        (w'.sessions ≡ w.sessions)
        × (Option.map but_last_used (key_in w' h) ≡ Option.map but_last_used (key_in w h))
  unfolding authenticate api_key_from_row
  authenticate_frame header w h = elim (Result-cases (bearer_token header)) [
    | inr (e, none_given) ↦ (ground arith, ground arith)
    | inl (token, given) ↦
        let key = hash_api_key c salt token in
        (
          ground arith,
          ground (
            arith,
            select-update key_hash_of key h (set_last_used (w.outside.now (suc w.step))) w.api_keys
                (λ r. refl),
            eq_iff key h,
          ),
        )
  ]

  -- The master middleware lets a request pass exactly if its header holds the master key as a bearer
  -- token; so the secret of an ordinary API key does not open the administration.
  pub authenticate_master_iff :
      (header : Option String)
      → (authenticate_master c salt master_key header ≡ ok tt) ↔ (
          (token : String) × (bearer_token header ≡ ok token)
          × (as_bytes token ≡ as_bytes master_key))
  unfolding authenticate_master
  authenticate_master_iff header = (
    λ h. elim (Result-cases (bearer_token header)) [
      | inr (e, none_given) ↦ ground arith
      | inl (token, given) ↦
          (token, given, ground (arith, c.ct_eq_iff (as_bytes token) (as_bytes master_key)))
    ],
    λ h. ground (arith, c.ct_eq_iff (as_bytes h.0) (as_bytes master_key)),
  )
