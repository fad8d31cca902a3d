-- ===== src/ConfigStore/Numbering/Target.antt =====
-- src/services/config_store.rs: the generation that a rollback goes back to, after a change of others.
use captchapi.Prelude.{
  Option-cases, Bool-cases, inl, inr, some, ◌≡◌, refl, ℕ, ◌<◌, arith, List, [], ◌∷◌, All, Bool,
  ◌==◌, ◌&&◌, ltb, false, true, sym, ◌∙◌, ◌⊎◌,
}
use mathlib.Core.Path.{subst}
use captchapi.Table.{delete_where}
use captchapi.World.{pending, GenerationRow}
use captchapi.ConfigStore.Boot.{
  latest, newer, any_row, is_confirmed, affected_pending, has_status, update_generation,
  confirm_pending, older_than,
}
use captchapi.ConfigStore.Boot.Confirmed.{IsDescending, as_confirmed, older_gone}

-- Every generation has a smaller number than the one given.
abbrev pub IsBelow : ℕ → List GenerationRow → Type 0
IsBelow n t = All (λ g. g.id < n) t

-- Of generations whose numbers are below one, so is the newest of any kind.
latest-below :
    (p : GenerationRow → Bool) (n : ℕ) (t : List GenerationRow) (g : GenerationRow)
    → IsBelow n t
    → latest p t ≡ some g
    → g.id < n
unfolding latest
latest-below p n [] g h e = cc
latest-below p n (x ∷ t) g h e = elim (Option-cases (latest p t)) [
  | inl none_left ↦ ground (arith, h.0)
  | inr (y, found) ↦ ground (arith, h.0, latest-below p n t y h.1 found)
]

-- A generation above all the others is the newest.
newer-top :
    (p : GenerationRow → Bool) (x : GenerationRow) (t : List GenerationRow)
    → IsBelow x.id t
    → newer x (latest p t) ≡ some x
newer-top p x t h = elim (Option-cases (latest p t)) [
  | inl none_left ↦ rw none_left refl
  | inr (y, found) ↦ ground (arith, latest-below p x.id t y h found)
]

-- No generation with the number is confirmed.
abbrev pub IsUnconfirmed : ℕ → List GenerationRow → Type 0
IsUnconfirmed id t = All (λ g. g.id ≡ id → is_confirmed g ≡ false) t

below-IsUnconfirmed : (id : ℕ) (t : List GenerationRow) → IsBelow id t → IsUnconfirmed id t
below-IsUnconfirmed id [] h = tt
below-IsUnconfirmed id (g ∷ t) h =
    (λ e. absurd (omega (arith, e, h.0)), below-IsUnconfirmed id t h.1)

pub newest-IsUnconfirmed :
    (t : List GenerationRow) (g : GenerationRow)
    → IsDescending t
    → latest any_row t ≡ some g
    → has_status g.status pending ≡ true
    → IsUnconfirmed g.id t
unfolding latest
newest-IsUnconfirmed [] g down newest waiting = tt
newest-IsUnconfirmed (x ∷ t) g down newest waiting =
    let top : some x ≡ some g = sym (newer-top any_row x t down.0) ∙ newest in
    let same : x ≡ g = cc in
    let open_status : is_confirmed x ≡ false = ground (arith, same, waiting) in
    (λ _. open_status, below-IsUnconfirmed g.id t (rw (sym same) down.0))

-- A change of such a generation leaves the one to go back to.
pub latest-update_generation :
    (id : ℕ) (f : GenerationRow → GenerationRow) (t : List GenerationRow)
    → ((g : GenerationRow) → is_confirmed g ≡ false → is_confirmed (f g) ≡ false)
    → IsUnconfirmed id t
    → latest is_confirmed (update_generation id f t) ≡ latest is_confirmed t
unfolding latest update_generation
latest-update_generation id f [] keeps h = refl
latest-update_generation id f (g ∷ t) keeps h =
    let same = latest-update_generation id f t keeps h.1 in
    elim (Bool-cases (g.id == id)) [
      | inl hit ↦
          let before : is_confirmed g ≡ false = h.0 (ground arith) in
          rw (hit, keeps g before, before) same
      | inr miss ↦ rw (miss, same) refl
    ]

affected-below :
    (id n : ℕ) (t : List GenerationRow) → IsBelow n t → 0 < affected_pending id t → id < n
unfolding affected_pending
affected-below id n [] h hit = absurd (omega arith)
affected-below id n (g ∷ t) h hit = elim (Bool-cases (g.id == id && has_status g.status pending)) [
  | inl marked ↦ ground (arith, h.0)
  | inr passed ↦ affected-below id n t h.1 (ground (arith, hit, passed))
]

-- Confirming a pending generation makes it the one to go back to, or a newer one stays that.
pub latest-confirm :
    (id : ℕ) (t : List GenerationRow)
    → IsDescending t
    → 0 < affected_pending id t
    → let t' = delete_where (older_than id) (confirm_pending id t) in
      (latest is_confirmed t' ≡ latest is_confirmed t)
      ⊎ ((g : GenerationRow) × (g.id ≡ id) × (latest is_confirmed t' ≡ some g))
unfolding latest delete_where confirm_pending affected_pending
latest-confirm id [] down hit = absurd (omega arith)
latest-confirm id (x ∷ t) down hit = elim (Bool-cases (x.id == id && has_status x.status pending)) [
  | inl marked ↦
      let here : x.id ≡ id = ground arith in
      let kept : ltb x.id id ≡ false = ground (arith, here) in
      let gone = (older_gone id t (subst (λ n. IsBelow n t) here down.0)).0 in
      inr (as_confirmed x, here, rw (marked, kept, gone) refl)
  | inr passed ↦
      let rest : 0 < affected_pending id t = ground (arith, hit, passed) in
      let above = affected-below id x.id t down.0 rest in
      let kept : ltb x.id id ≡ false = ground (arith, above) in
      elim (latest-confirm id t down.1 rest) [
        | inl same ↦ inl (rw (passed, kept, same) refl)
        | inr (g, named, found) ↦ elim (Bool-cases (is_confirmed x)) [
          | inl newer_one ↦
              let less : ltb g.id x.id ≡ true = ground (arith, named, above) in
              inl (
                rw (passed, kept, newer_one, found, less) (sym (newer-top is_confirmed x t down.0)))
          | inr unconfirmed ↦ inr (g, named, rw (passed, kept, unconfirmed) found)
        ]
      ]
]
