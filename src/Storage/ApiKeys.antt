-- ===== src/Storage/ApiKeys.antt =====
-- services/storage.rs: the API key operations.
use captchapi.Prelude.{
  ℤ, pos, String, Bool, false, Option, none, some, List, [], ◌∷◌, ◌++◌, ltb_ℤ, eqb_ℤ, ltb, map,
  if◌then◌else◌,
}
use captchapi.Error.{database, ok, err}
use captchapi.Models.{ApiKeyRow, ApiKey, api_key_from_row}
use captchapi.Table.{select, delete, update, affected, is_some}
use captchapi.World.{Exec, pure, statement, utc_now, ◌>>=◌}
use mathlib.Core.Option

abbrev pub key_hash_of : ApiKeyRow → String
key_hash_of r = r.key_hash

-- `if active { 1 } else { 0 }`
abbrev pub flag : Bool → ℤ
flag active = if active then pos 1 else pos 0

-- WHERE key_hash = ? AND is_active = 1
abbrev pub only_active : Option ApiKeyRow → Option ApiKeyRow
only_active none = none
only_active (some r) = if eqb_ℤ r.is_active (pos 1) then some r else none

unfoldable pub get_api_key : String → Exec (Option ApiKey)
get_api_key h =
    statement
      λ w. (ok (Option.map api_key_from_row (only_active (select key_hash_of h w.api_keys))), w)

unfoldable pub get_api_key_by_hash : String → Exec (Option ApiKey)
get_api_key_by_hash h =
    statement λ w. (ok (Option.map api_key_from_row (select key_hash_of h w.api_keys)), w)

abbrev pub set_last_used : ℤ → ApiKeyRow → ApiKeyRow
set_last_used now r = record r { last_used_at = some now }

unfoldable pub update_api_key_last_used : String → Exec (Unit {0})
update_api_key_last_used h = do
  now ← utc_now
  statement
      λ w. (ok tt, record w { api_keys = update key_hash_of h (set_last_used now) w.api_keys })

-- The INSERT leaves `last_used_at` out, so it is NULL.
unfoldable pub api_key_row_of : ApiKey → ApiKeyRow
api_key_row_of k = record {
  key_hash = k.key_hash;
  description = k.description;
  created_at = k.created_at;
  last_used_at = none;
  is_active = flag k.is_active;
}

unfoldable pub create_api_key : ApiKey → Exec (Unit {0})
unfolding api_key_row_of
create_api_key k = statement λ w.
    if is_some (select key_hash_of k.key_hash w.api_keys)
    then (err database, w)
    else (ok tt, record w { api_keys = w.api_keys ++ api_key_row_of k ∷ [] })

-- ORDER BY created_at DESC, as an insertion sort; rows of one time keep the order of the table.
unfoldable pub insert_newest : ApiKeyRow → List ApiKeyRow → List ApiKeyRow
insert_newest r [] = r ∷ []
insert_newest r (x ∷ t) =
    let later = insert_newest r t in
    if ltb_ℤ r.created_at x.created_at then x ∷ later else r ∷ x ∷ t

unfoldable pub order_newest : List ApiKeyRow → List ApiKeyRow
unfolding insert_newest
order_newest [] = []
order_newest (r ∷ t) = insert_newest r (order_newest t)

unfoldable pub list_api_keys : Exec (List ApiKey)
list_api_keys = statement λ w. (ok (map api_key_from_row (order_newest w.api_keys)), w)

-- One UPDATE, with the rows that it affects counted before.
abbrev pub update_row : String → (ApiKeyRow → ApiKeyRow) → Exec Bool
update_row h f = statement λ w. (
  ok (ltb 0 (affected key_hash_of h w.api_keys)),
  record w { api_keys = update key_hash_of h f w.api_keys },
)

unfoldable pub update_api_key : String → Option Bool → Option String → Exec Bool
update_api_key h (some active) (some desc) =
    update_row h (λ r. record r { is_active = flag active; description = some desc })
update_api_key h (some active) none = update_row h (λ r. record r { is_active = flag active })
update_api_key h none (some desc) = update_row h (λ r. record r { description = some desc })
update_api_key h none none = pure false

unfoldable pub delete_api_key : String → Exec Bool
delete_api_key h = statement λ w. (
  ok (ltb 0 (affected key_hash_of h w.api_keys)),
  record w { api_keys = delete key_hash_of h w.api_keys },
)
