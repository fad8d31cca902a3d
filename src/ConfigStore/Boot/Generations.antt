-- ===== src/ConfigStore/Boot/Generations.antt =====
-- The newest generation after an update, and the settings after a snapshot was restored.
use captchapi.Table.{select}
use captchapi.Error.{ok}
use captchapi.World.{World, GenerationRow, SettingRow}
use captchapi.Config.Layers.{Layer, get_in}
use captchapi.ConfigStore.{entries, field_of, Option, some, String, tick, str_eq}
use captchapi.Prelude.{◌++◌, false, ◌∷◌, refl, if◌then◌else◌, ◌==◌, ◌≡◌, [], ◌∷◌, arith, eq_iff, ap}
use captchapi.ConfigStore.Boot.{
  latest, update_generation, restore_each, GenerationRow, List, ℕ, ℤ, Bool, Layer, SettingRow,
  World, ◌∷◌, false, select, field_of, ok, none, newer,
}
use mathlib.Core.Option

-- The effect of `update_generation` on one row.
abbrev pub hit : ℕ → (GenerationRow → GenerationRow) → GenerationRow → GenerationRow
hit id f g = if g.id == id then f g else g

module _ (id : ℕ) (f : GenerationRow → GenerationRow)
    (keeps : (g : GenerationRow) → (f g).id ≡ g.id) where
  hit-id : (g : GenerationRow) → (hit id f g).id ≡ g.id
  hit-id g = ground (arith, keeps g)

  newer-hit :
      (g : GenerationRow) (o : Option GenerationRow)
      → newer (hit id f g) (Option.map (hit id f) o) ≡ Option.map (hit id f) (newer g o)
  newer-hit g none = refl
  newer-hit g (some h) = rw (hit-id g, hit-id h) (ground arith)

-- The newest row that meets a condition which the update keeps is that row, updated.
pub latest-update :
    (p : GenerationRow → Bool) (id : ℕ) (f : GenerationRow → GenerationRow) (t : List GenerationRow)
    → ((g : GenerationRow) → p (f g) ≡ p g)
    → ((g : GenerationRow) → (f g).id ≡ g.id)
    → latest p (update_generation id f t) ≡ Option.map (hit id f) (latest p t)
unfolding latest update_generation
latest-update p id f [] same keeps = refl
latest-update p id f (g ∷ t) same keeps =
    ground (arith, latest-update p id f t same keeps, same g, newer-hit id f keeps g (latest p t))

-- The snapshot has no field twice and none that is in the table.
abbrev pub IsApart : List SettingRow → Layer → Type 0
IsApart rows [] = Unit
IsApart rows ((field, value) ∷ t) =
    (select field_of field rows ≡ none) × (get_in field t ≡ none) × IsApart rows t

select-none-insert :
    (r : SettingRow) (j : String) (t : List SettingRow)
    → select field_of j (t ++ r ∷ []) ≡ (elim (select field_of j t) [
      | some x ↦ some x
      | none ↦ if str_eq r.field j then some r else none
    ])
unfolding select
select-none-insert r j [] = ground arith
select-none-insert r j (x ∷ t) = ground (arith, select-none-insert r j t)

IsApart-insert :
    (r : SettingRow) (rows : List SettingRow) (l : Layer)
    → IsApart rows l
    → get_in r.field l ≡ none
    → IsApart (rows ++ r ∷ []) l
unfolding get_in
IsApart-insert r rows [] h new = tt
IsApart-insert r rows ((field, value) ∷ t) h new = ground (
  arith,
  select-none-insert r field rows,
  eq_iff r.field field,
  eq_iff field r.field,
  IsApart-insert r rows t,
)

entries-insert :
    (r : SettingRow) (rows : List SettingRow) (l : Layer)
    → entries (rows ++ r ∷ []) ++ l ≡ entries rows ++ (r.field, r.value) ∷ l
unfolding entries
entries-insert r [] l = refl
entries-insert r (x ∷ rows) l = rw (entries-insert r rows l) refl

entries-nil : (l : Layer) → l ≡ l ++ []
entries-nil [] = refl
entries-nil (x ∷ l) = ap (λ t. x ∷ t) (entries-nil l)

-- With the database up, a restored snapshot is added to the table, and nothing else changes.
pub restore_each_lem :
    (now : ℤ) (l : Layer) (w : World)
    → ((n : ℕ) → w.outside.fails n ≡ false)
    → IsApart w.settings l
    → let (r, w') = restore_each now l w in
      (r ≡ ok tt)
      × (entries w'.settings ≡ entries w.settings ++ l)
      × (w'.generations ≡ w.generations)
      × (w'.outside ≡ w.outside)
unfolding restore_each
restore_each_lem now [] w up apart = (refl, entries-nil (entries w.settings), refl, refl)
restore_each_lem now ((field, value) ∷ t) w up apart =
    let r : SettingRow = record {
      field = field;
      value = value;
      updated_at = now;
      updated_by = "rollback";
    } in
    let w' : World = record (tick w) { settings = w.settings ++ r ∷ [] } in
    let apart' = IsApart-insert r w.settings t apart.2 apart.1 in
    let (returned, listed, kept, same) = restore_each_lem now t w' up apart' in
    (
      ground (arith, up w.step),
      ground (arith, up w.step, entries-insert r w.settings t),
      ground (arith, up w.step),
      ground (arith, up w.step),
    )
