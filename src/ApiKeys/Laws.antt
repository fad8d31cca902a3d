-- ===== src/ApiKeys/Laws.antt =====
-- What the API key endpoints promise.
use captchapi.Prelude.{ltb_ℤ, ◌≤ℤ◌, ℤ, List, [], ◌∷◌, arith, Bool-cases, inl, inr, All}
use mathlib.Core.List.{Perm}
use mathlib.Core.List.Perm
use captchapi.Models.{ApiKeyRow}
use captchapi.Storage.ApiKeys.{order_newest, insert_newest}

-- Newest first.
abbrev pub IsNewestFirst : List ApiKeyRow → Type 0
IsNewestFirst [] = Unit
IsNewestFirst (r ∷ t) = All (λ x. x.created_at ≤ℤ r.created_at) t × IsNewestFirst t

insert_newest-All :
    (b : ℤ) (r : ApiKeyRow) (t : List ApiKeyRow)
    → r.created_at ≤ℤ b
    → All (λ x. x.created_at ≤ℤ b) t
    → All (λ x. x.created_at ≤ℤ b) (insert_newest r t)
unfolding insert_newest
insert_newest-All b r [] h k = (h, tt)
insert_newest-All b r (x ∷ t) h k = ground (arith, insert_newest-All b r t h k.1)

All-le :
    (a b : ℤ) (t : List ApiKeyRow)
    → a ≤ℤ b
    → All (λ x. x.created_at ≤ℤ a) t
    → All (λ x. x.created_at ≤ℤ b) t
All-le a b [] h k = tt
All-le a b (x ∷ t) h k = (omega (arith, k.0), All-le a b t h k.1)

insert_newest-IsNewestFirst :
    (r : ApiKeyRow) (t : List ApiKeyRow) → IsNewestFirst t → IsNewestFirst (insert_newest r t)
unfolding insert_newest
insert_newest-IsNewestFirst r [] h = (tt, tt)
insert_newest-IsNewestFirst r (x ∷ t) h = ground (
  arith,
  insert_newest-All x.created_at r t,
  insert_newest-IsNewestFirst r t h.1,
  All-le x.created_at r.created_at t,
)

insert_newest-perm : (r : ApiKeyRow) (t : List ApiKeyRow) → Perm (insert_newest r t) (r ∷ t)
unfolding insert_newest
insert_newest-perm r [] = Perm.refl _
insert_newest-perm r (x ∷ t) = elim (Bool-cases (ltb_ℤ r.created_at x.created_at)) [
  | inl older ↦ rw older (Perm.trans (Perm.cons x (insert_newest-perm r t)) (Perm.swap r x t))
  | inr newer ↦ rw newer (Perm.refl _)
]

-- The list of keys is in descending order of creation, and holds exactly the rows of the table.
pub order_newest_sorts :
    (t : List ApiKeyRow) → IsNewestFirst (order_newest t) × Perm (order_newest t) t
unfolding order_newest
order_newest_sorts [] = (tt, Perm.refl _)
order_newest_sorts (r ∷ t) =
    let (sorted, perm) = order_newest_sorts t in
    (
      insert_newest-IsNewestFirst r (order_newest t) sorted,
      Perm.trans (insert_newest-perm r (order_newest t)) (Perm.cons r perm),
    )
