-- ===== src/Table.antt =====
-- A database table with a text primary key, as the list of its rows, and the effect on it of the
-- four kinds of SQL statement that the repository's services send (services/storage.rs,
-- services/config_store.rs): INSERT, SELECT, UPDATE and DELETE by key, and DELETE by a condition.
pub mod Laws
use captchapi.Prelude.{
  ℕ, suc, String, ◌≡◌, Bool, true, false, Option, none, some, List, [], ◌∷◌, str_eq, if◌then◌else◌,
}

module _ {ℓ} {R : Type ℓ} (key : R → String) where
  -- SELECT … WHERE key = k
  unfoldable pub select : String → List R → Option R
  select k [] = none
  select k (r ∷ t) = if str_eq (key r) k then some r else select k t

  -- DELETE … WHERE key = k
  unfoldable pub delete : String → List R → List R
  delete k [] = []
  delete k (r ∷ t) = let rest = delete k t in if str_eq (key r) k then rest else r ∷ rest

  -- UPDATE … SET … WHERE key = k
  unfoldable pub update : String → (R → R) → List R → List R
  update k f [] = []
  update k f (r ∷ t) = (if str_eq (key r) k then f r else r) ∷ update k f t

  -- How many rows a statement with WHERE key = k affects.
  unfoldable pub affected : String → List R → ℕ
  affected k [] = 0
  affected k (r ∷ t) = let rest = affected k t in if str_eq (key r) k then suc rest else rest

  -- PRIMARY KEY: no two rows have one key.
  abbrev pub IsKeyed : List R → Type ℓ
  IsKeyed [] = Unit
  IsKeyed (r ∷ t) = (select (key r) t ≡ none) × IsKeyed t

module _ {ℓ} {R : Type ℓ} where
  -- DELETE … WHERE p
  unfoldable pub delete_where : (R → Bool) → List R → List R
  delete_where p [] = []
  delete_where p (r ∷ t) = let rest = delete_where p t in if p r then rest else r ∷ rest

  unfoldable pub affected_where : (R → Bool) → List R → ℕ
  affected_where p [] = 0
  affected_where p (r ∷ t) = let rest = affected_where p t in if p r then suc rest else rest

-- Whether a SELECT found a row.
abbrev pub is_some {ℓ} : {A : Type ℓ} → Option A → Bool
is_some none = false
is_some (some a) = true

-- What remains of a row under a DELETE with the condition `p`.
abbrev pub unless {ℓ} : {R : Type ℓ} → (R → Bool) → Option R → Option R
unless p none = none
unless p (some r) = if p r then none else some r
