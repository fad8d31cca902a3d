-- ===== src/Table/Laws.antt =====
-- What a SELECT returns after each statement, and that each keeps the primary key.
use captchapi.Prelude.{
  String, ◌≡◌, refl, Bool, none, some, List, [], ◌∷◌, ◌++◌, arith, str_eq, eq_iff, ltb, ◌+◌, length,
  if◌then◌else◌,
}
use mathlib.Core.Option
use captchapi.Table.{
  select, delete, update, affected, IsKeyed, delete_where, affected_where, is_some, unless,
}

module _ {ℓ} {R : Type ℓ} (key : R → String) where
  pub select-delete :
      (k j : String) (t : List R)
      → select key j (delete key k t) ≡ (if str_eq k j then none else select key j t)
  unfolding select delete
  select-delete k j [] = ground arith
  select-delete k j (r ∷ t) =
      ground (arith, eq_iff (key r) k, eq_iff (key r) j, eq_iff k j, select-delete k j t)

  pub select-insert :
      (r : R) (j : String) (t : List R)
      → select key (key r) t ≡ none
      → select key j (t ++ r ∷ []) ≡ (if str_eq (key r) j then some r else select key j t)
  unfolding select
  select-insert r j [] h = refl
  select-insert r j (x ∷ t) h =
      ground
        (arith, eq_iff (key x) (key r), eq_iff (key x) j, eq_iff (key r) j, select-insert r j t)

  pub select-update :
      (k j : String) (f : R → R) (t : List R)
      → ((r : R) → key (f r) ≡ key r)
      → select key j (update key k f t)
        ≡ (if str_eq k j then Option.map f (select key j t) else select key j t)
  unfolding select update
  select-update k j f [] same = ground arith
  select-update k j f (r ∷ t) same = ground (
    arith,
    same r,
    eq_iff (key r) k,
    eq_iff (key r) j,
    eq_iff k j,
    eq_iff (key (f r)) j,
    select-update k j f t same,
  )

  -- The selected row has the key.
  pub key-select : (k : String) (t : List R) {r : R} → select key k t ≡ some r → key r ≡ k
  unfolding select
  key-select k [] h = absurd (ground arith)
  key-select k (x ∷ t) {r} h = ground (arith, eq_iff (key x) k, key-select k t {r = r})

  -- A DELETE or UPDATE by key affects a row exactly if a SELECT finds one.
  pub affected-pos : (k : String) (t : List R) → ltb 0 (affected key k t) ≡ is_some (select key k t)
  unfolding select affected
  affected-pos k [] = refl
  affected-pos k (r ∷ t) = ground (arith, affected-pos k t)

  pub delete-IsKeyed : (k : String) (t : List R) → IsKeyed key t → IsKeyed key (delete key k t)
  unfolding delete
  delete-IsKeyed k [] h = tt
  delete-IsKeyed k (r ∷ t) h =
      ground (arith, select-delete k (key r) t, eq_iff k (key r), delete-IsKeyed k t h.1)

  pub insert-IsKeyed :
      (r : R) (t : List R) → IsKeyed key t → select key (key r) t ≡ none → IsKeyed key (t ++ r ∷ [])
  unfolding select
  insert-IsKeyed r [] h new = (refl, tt)
  insert-IsKeyed r (x ∷ t) h new = ground (
    arith,
    select-insert r (key x) t,
    eq_iff (key x) (key r),
    eq_iff (key r) (key x),
    insert-IsKeyed r t h.1,
  )

  pub update-IsKeyed :
      (k : String) (f : R → R) (t : List R)
      → ((r : R) → key (f r) ≡ key r)
      → IsKeyed key t
      → IsKeyed key (update key k f t)
  unfolding update
  update-IsKeyed k f [] same h = tt
  update-IsKeyed k f (r ∷ t) same h = ground (
    arith,
    same r,
    select-update k (key r) f t same,
    update-IsKeyed k f t same h.1,
    eq_iff (key r) k,
    eq_iff k (key r),
  )

  select-delete_where-none :
      (p : R → Bool) (j : String) (t : List R)
      → select key j t ≡ none
      → select key j (delete_where p t) ≡ none
  unfolding select delete_where
  select-delete_where-none p j [] h = refl
  select-delete_where-none p j (r ∷ t) h = ground (arith, select-delete_where-none p j t)

  -- With unique keys, a DELETE by a condition takes away exactly the rows that meet it.
  pub select-delete_where :
      (p : R → Bool) (j : String) (t : List R)
      → IsKeyed key t
      → select key j (delete_where p t) ≡ unless p (select key j t)
  unfolding select delete_where
  select-delete_where p j [] h = refl
  select-delete_where p j (r ∷ t) h = ground (
    arith,
    eq_iff (key r) j,
    select-delete_where p j t h.1,
    select-delete_where-none p (key r) t h.0,
  )

  pub delete_where-IsKeyed :
      (p : R → Bool) (t : List R) → IsKeyed key t → IsKeyed key (delete_where p t)
  unfolding delete_where
  delete_where-IsKeyed p [] h = tt
  delete_where-IsKeyed p (r ∷ t) h =
      ground (arith, delete_where-IsKeyed p t h.1, select-delete_where-none p (key r) t h.0)

module _ {ℓ} {R : Type ℓ} where
  -- The rows that stay and the rows affected make up the table.
  pub length-delete_where :
      (p : R → Bool) (t : List R) → length (delete_where p t) + affected_where p t ≡ length t
  unfolding delete_where affected_where
  length-delete_where p [] = omega arith
  length-delete_where p (r ∷ t) = ground (arith, length-delete_where p t)
