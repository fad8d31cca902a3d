-- ===== src/ConfigStore/Boot/Confirmed.antt =====
-- What `confirm` leaves of the generations, and the start after it.
use captchapi.Prelude.{◌≡◌, refl, ℕ, suc, true, some, ◌<◌, arith, List, [], ◌∷◌, All, inl}
use captchapi.Error.{ok}
use captchapi.Table.{delete_where}
use captchapi.World.{World, GenerationRow, pending, confirmed}
use captchapi.ConfigStore.{Codec, clean}
use captchapi.ConfigStore.Boot.{
  latest, prepare_boot, any_row, is_confirmed, confirm, confirm_pending, affected_pending,
  older_than,
}
use captchapi.ConfigStore.Boot.Laws.{IsUp, settled_boot}

-- The generations, the newest first, have descending numbers.
abbrev pub IsDescending : List GenerationRow → Type 0
IsDescending [] = Unit
IsDescending (g ∷ t) = All (λ h. h.id < g.id) t × IsDescending t

abbrev pub as_confirmed : GenerationRow → GenerationRow
as_confirmed g = record g { status = confirmed }

pub older_gone :
    (k : ℕ) (t : List GenerationRow)
    → All (λ x. x.id < k) t
    → (delete_where (older_than k) (confirm_pending k t) ≡ []) × (affected_pending k t ≡ 0)
unfolding delete_where confirm_pending affected_pending
older_gone k [] below = (refl, refl)
older_gone k (x ∷ t) below = ground (arith, older_gone k t below.1)

newest_stays :
    (g : GenerationRow) (t : List GenerationRow)
    → All (λ x. x.id < g.id) t
    → g.status ≡ pending
    → (delete_where (older_than g.id) (confirm_pending g.id (g ∷ t)) ≡ as_confirmed g ∷ [])
      × (affected_pending g.id (g ∷ t) ≡ 1)
unfolding delete_where confirm_pending affected_pending
newest_stays g t below waiting = ground (arith, older_gone g.id t below)

confirm_leaves :
    (w : World) (g : GenerationRow) (t : List GenerationRow)
    → IsUp w
    → w.generations ≡ g ∷ t
    → IsDescending (g ∷ t)
    → g.status ≡ pending
    → let (r, w') = confirm g.id w in
      (r ≡ ok true)
      × (w'.settings ≡ w.settings)
      × (w'.outside ≡ w.outside)
      × (w'.generations ≡ as_confirmed g ∷ [])
unfolding confirm
confirm_leaves w g t up rows down waiting =
    let (left, one) = newest_stays g t down.0 waiting in
    let first = up w.step in
    let second = up (suc w.step) in
    let third = up (suc (suc w.step)) in
    let fourth = up (suc (suc (suc w.step))) in
    (ground arith, ground arith, ground arith, ground arith)

-- With the database up, confirming the newest generation while it is pending returns true, keeps the
-- settings, and leaves that generation alone, confirmed: it is what a rollback would go back to, and
-- the next start finds nothing pending.
pub confirm_settles :
    (c : Codec) (w : World) (g : GenerationRow) (t : List GenerationRow)
    → IsUp w
    → w.generations ≡ g ∷ t
    → IsDescending (g ∷ t)
    → g.status ≡ pending
    → let (r, w') = confirm g.id w in
      (r ≡ ok true)
      × (w'.settings ≡ w.settings)
      × (w'.generations ≡ as_confirmed g ∷ [])
      × (latest is_confirmed w'.generations ≡ some (as_confirmed g))
      × ((prepare_boot c w').0 ≡ ok (clean (some g.id)))
unfolding latest
confirm_settles c w g t up rows down waiting =
    let (returned, kept, same, left) = confirm_leaves w g t up rows down waiting in
    let w' = (confirm g.id w).1 in
    let up' : IsUp w' = rw (same) up in
    let newest : latest any_row w'.generations ≡ some (as_confirmed g) = rw (left) refl in
    let target : latest is_confirmed w'.generations ≡ some (as_confirmed g) = rw (left) refl in
    let (settled, _, _) = settled_boot c w' up' (as_confirmed g) newest (inl refl) in
    (returned, kept, left, target, settled)
