-- ===== src/ConfigStore/Removed.antt =====
-- What `unset` leaves in the table.
use captchapi.Prelude.{
  ℕ, ◌≡◌, refl, ◌∙◌, ap, arith, ltb, String, ℤ, Bool, false, List, none, [], ◌∷◌,
}
use captchapi.Error.{ok}
use captchapi.Table.{select, delete, affected}
use captchapi.World.{World, SettingRow, tick}
use captchapi.ConfigStore.{Codec, field_of, unset, remove, record_change, open_generation, ◌∷◌}
use captchapi.ConfigStore.Written.{transaction_commits}

select-affected :
    (field : String) (t : List SettingRow)
    → affected field_of field t ≡ 0
    → select field_of field t ≡ none
unfolding select affected
select-affected field [] h = refl
select-affected field (r ∷ t) h = ground (arith, select-affected field t)

open_generation_keeps :
    (c : Codec) (now : ℤ) (w : World) → (open_generation c now w).1.settings ≡ w.settings
unfolding open_generation
open_generation_keeps c now w = ground arith

record_change_keeps :
    (c : Codec) (now : ℤ) (n : ℕ) (w : World) → (record_change c now n w).1.settings ≡ w.settings
record_change_keeps c now n w = ground (arith, open_generation_keeps c now w)

remove_lem :
    (c : Codec) (now : ℤ) (field : String) (w : World) (b : Bool)
    → (remove c now field w).0 ≡ ok b
    → ((remove c now field w).1.settings ≡ delete field_of field w.settings)
      × (b ≡ ltb 0 (affected field_of field w.settings))
remove_lem c now field w b h =
    let w' : World = record (tick w) { settings = delete field_of field w.settings } in
    let n = affected field_of field w.settings in
    (ground (arith, record_change_keeps c now n w'), ground arith)

-- An `unset` that succeeds removed the field's row, and answers whether there was one.
pub unset_lem :
    (c : Codec) (field : String) (w : World) (b : Bool)
    → (unset c field w).0 ≡ ok b
    → ((unset c field w).1.settings ≡ delete field_of field w.settings)
      × (b ≡ false → select field_of field w.settings ≡ none)
unfolding unset
unset_lem c field w b h =
    let now = w.outside.now w.step in
    let (ran, ended) = transaction_commits (remove c now field) (tick w) b (ground arith) in
    let (settings, found) = remove_lem c now field (tick (tick w)) b ran in
    (
      ap (λ v. v.settings) ended ∙ settings,
      λ absent. select-affected field w.settings (ground arith),
    )
