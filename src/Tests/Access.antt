-- ===== src/Tests/Access.antt =====
-- Authentication, API keys, validation and errors at concrete inputs.
use captchapi.Prelude.{
  ◌≡◌, ◌≢◌, ◌↔◌, ◌⊎◌, refl, pos, String, false, some, none, [], ◌∷◌, arith, as_bytes, len,
}
use captchapi.Error.{ok, err, unauthorized, invalid_key, ErrorMetrics}
use captchapi.Table.{select}
use captchapi.World.{World}
use captchapi.Models.{ApiKey, ApiKeyRow, api_key_new}
use captchapi.Crypto.{hash_api_key}
use captchapi.Validation.{validate_api_key_description}
use captchapi.Auth.{authenticate, authenticate_master, bearer_token}
use captchapi.Auth.Laws.{authenticate_iff, authenticate_master_iff, key_in, IsActive}
use captchapi.ApiKeys.{create_api_key_orchestrated, update_api_key_route, delete_api_key_route}
use captchapi.ApiKeys.Lifecycle.{created_key_passes, revoked_key_stopped}
use captchapi.Tests.{toy, start}

abbrev salt : String
salt = "salt"

abbrev master : String
master = "root"

abbrev new_key : ApiKey
new_key = api_key_new (pos 1000) (hash_api_key toy "salt" "Zk4") (some "ci")

key_made : (create_api_key_orchestrated toy "salt" (some "ci") start).0 ≡ ok ("Zk4", new_key)
unfolding create_api_key_orchestrated validate_api_key_description len select
key_made = refl

abbrev key_world : World
key_world = (create_api_key_orchestrated toy "salt" (some "ci") start).1

key_up : key_world.outside.fails key_world.step ≡ false
unfolding create_api_key_orchestrated validate_api_key_description len select
key_up = refl

given : bearer_token (some "Bearer Zk4") ≡ ok "Zk4"
unfolding bearer_token
given = refl

created_key_passes_example :
    (authenticate toy "salt" "root" (some "Bearer Zk4") key_world).0 ≡ ok tt
created_key_passes_example =
    created_key_passes toy "salt" "root" (some "ci") start key_world "Zk4" new_key
      (some "Bearer Zk4") key_made refl given key_up

authenticate_iff_example :
    ((authenticate toy "salt" "root" (some "Bearer Zk4") start).0 ≡ ok tt)
    ↔ ((as_bytes "Zk4" ≡ as_bytes "root") ⊎ IsActive (key_in start (hash_api_key toy "salt" "Zk4")))
authenticate_iff_example =
    authenticate_iff toy "salt" "root" (some "Bearer Zk4") "Zk4" start given refl

authenticate_master_iff_example :
    (authenticate_master toy "salt" "root" (some "Bearer root") ≡ ok tt) ↔ (
      (token : String) × (bearer_token (some "Bearer root") ≡ ok token)
      × (as_bytes token ≡ as_bytes "root"))
authenticate_master_iff_example = authenticate_master_iff toy "salt" "root" (some "Bearer root")

refused :
    (authenticate toy "salt" "root" (some "Bearer x") start).0 ≡ err (unauthorized invalid_key)
unfolding authenticate bearer_token as_bytes select
refused = refl

abbrev key_row : ApiKeyRow
key_row = record {
  key_hash = hash_api_key toy "salt" "Zk4";
  description = none;
  created_at = pos 5;
  last_used_at = none;
  is_active = pos 1;
}

abbrev one_key : World
one_key = record start { api_keys = key_row ∷ [] }

not_master : as_bytes "Zk4" ≢ as_bytes "root"
unfolding as_bytes
not_master e = ground arith

revoked_key_stopped_example :
    let h = hash_api_key toy "salt" "Zk4" in
    let off = (update_api_key_route h (some false) none one_key).1 in
    let out = (delete_api_key_route h one_key).1 in
    ((key : ApiKey)
      → (update_api_key_route h (some false) none one_key).0 ≡ ok key
      → off.outside.fails off.step ≡ false
      → (authenticate toy "salt" "root" (some "Bearer Zk4") off).0 ≢ ok tt)
    × ((delete_api_key_route h one_key).0 ≡ ok tt
        → out.outside.fails out.step ≡ false
        → (authenticate toy "salt" "root" (some "Bearer Zk4") out).0 ≢ ok tt)
revoked_key_stopped_example =
    revoked_key_stopped toy "salt" "root" "Zk4" (some "Bearer Zk4") one_key none given not_master

abbrev older_key : ApiKeyRow
older_key = record key_row { created_at = pos 3 }

abbrev no_errors : ErrorMetrics
no_errors = record { http_errors_total = 0; database_errors = 0 }
