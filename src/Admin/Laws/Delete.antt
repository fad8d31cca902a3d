-- ===== src/Admin/Laws/Delete.antt =====
-- `delete_stored` keeps the handle's copy of the store right, however it ends.
use captchapi.Prelude.{
  suc, String, inl, inr, true, false, Option, none, some, List, [], ◌≡◌, refl, sym, ◌∙◌, ap, arith,
  str_eq, eq_iff, if◌then◌else◌,
}
use mathlib.Core.Path.{subst}
use captchapi.Error.{ok, Result-cases}
use captchapi.Validation.{valid}
use captchapi.Table.{select, delete}
use captchapi.Table.Laws.{select-delete}
use captchapi.World.{SettingRow}
use captchapi.Config.Params.{Param, by_field}
use captchapi.Config.Layers.{Layer, get_in}
use captchapi.Config.Handle.{dry_run}
use captchapi.Config.Handle.Laws.{dry_run-adopt_stored}
use captchapi.ConfigStore.{Codec, field_of, unset}
use captchapi.ConfigStore.Laws.{writes_are-IsAtomic}
use captchapi.ConfigStore.Written.{value_of}
use captchapi.ConfigStore.Removed.{unset_lem}
use captchapi.Admin.{prepare_found, prepare_delete, delete_stored, commit_delete, admin_api}
use captchapi.Admin.Context.{State}
use captchapi.Admin.Laws.Removal.{
  IsReady, prepare_found_refused, prepare_found_lem, commit_delete_failed, commit_delete_absent,
  commit_delete_removed,
}
use captchapi.Admin.Laws.Put.{bind_ok, bind_err}
use captchapi.Admin.Laws.Candidate.{get_in-remove, same_key}
use captchapi.Admin.Laws.Mirror.{IsMirrored}

-- What the table says of a field, without the row of another one.
in_table-delete :
    (field j : String) (t : List SettingRow)
    → value_of (select field_of j (delete field_of field t))
      ≡ (if str_eq field j then none else value_of (select field_of j t))
in_table-delete field j t = ground (arith, select-delete field_of field j t)

-- The keys of two parameters are the same only for the same field.
pub key_iff :
    (f g : String) (p q : Param)
    → by_field f ≡ some p
    → by_field g ≡ some q
    → str_eq p.env q.env ≡ str_eq f g
key_iff f g p q hp hq =
    let forth : f ≡ g → p.env ≡ q.env = λ same. ap (env_or q) (sym hp ∙ ap by_field same ∙ hq) in
    ground (arith, eq_iff p.env q.env, eq_iff f g, forth, same_key f g p q hp hq)
  where
    env_or : Param → Option Param → String
    env_or q none = q.env
    env_or q (some p) = p.env

removed-IsMirrored :
    (c : Codec) (field : String) (s s1 : State) (r : Param × Layer)
    → s.systems (suc s.readings) ≡ s.systems s.readings
    → IsMirrored s
    → IsReady field s r s1
    → (unset c field s1.world).0 ≡ ok true
    → IsMirrored (commit_delete c field r s1).1
removed-IsMirrored c field s s1 r still mirrored ready removed j q found at =
    let (world, handle, systems) = ready.same in
    let files : s1.systems s1.readings ≡ s.systems s.readings =
      ap (λ f. f s1.readings) systems ∙ ap s.systems ready.read_once ∙ still in
    let tried : dry_run (s1.systems s1.readings) r.1 s1.handle ≡ valid ready.config =
      ap (λ sys. dry_run sys r.1 s1.handle) files
      ∙ ap (dry_run (s.systems s.readings) r.1) handle
      ∙ ready.tried in
    let (accepted, running, adopted, overrides, pending) =
      (dry_run-adopt_stored (s1.systems s1.readings) r.1 s1.handle).0 ready.config tried in
    let (settings, kept) = commit_delete_removed c field r.0 r.1 s1 _ removed accepted adopted in
    let gone = (unset_lem c field s1.world true removed).0 in
    ap (get_in q.env) (kept ∙ ready.candidate)
    ∙ get_in-remove r.0.env q.env s.handle.stored
    ∙ ap (λ b. if b then none else get_in q.env s.handle.stored)
        (key_iff field j r.0 q ready.found found)
    ∙ ap (λ x. if str_eq field j then none else x)
        (mirrored j q found at ∙ ap (λ w. value_of (select field_of j w.settings)) (sym world))
    ∙ sym (in_table-delete field j s1.world.settings)
    ∙ ap (λ t. value_of (select field_of j t)) (sym (settings ∙ gone))

-- Neither the handle nor what the table says of any field has changed.
kept-IsMirrored :
    (s s' : State)
    → IsMirrored s
    → s'.handle ≡ s.handle
    → ((j : String)
        → value_of (select field_of j s'.world.settings)
          ≡ value_of (select field_of j s.world.settings))
    → IsMirrored s'
kept-IsMirrored s s' mirrored handle same j q found at =
    ap (λ h. get_in q.env h.stored) handle ∙ mirrored j q found at ∙ sym (same j)

absent_keeps :
    (field j : String) (t : List SettingRow)
    → select field_of field t ≡ none
    → value_of (select field_of j (delete field_of field t)) ≡ value_of (select field_of j t)
absent_keeps field j t h = ground (arith, select-delete field_of field j t, eq_iff field j)

-- If what the handle takes to be stored is what the database has, then so it is after a
-- `delete_stored` of any field, whether it removes a setting, finds none, is refused before it writes,
-- or fails in the database, as long as the files that it reads do not change between its check and
-- its adoption of the settings.
pub delete_stored-IsMirrored :
    (c : Codec) (field : String) (s : State)
    → s.systems (suc s.readings) ≡ s.systems s.readings
    → IsMirrored s
    → IsMirrored (delete_stored c field s).1
unfolding delete_stored prepare_delete
delete_stored-IsMirrored c field s still mirrored =
    let prepare = prepare_found field (by_field field) in
    let s1 = (prepare s).1 in
    elim (Result-cases (prepare s).0) [
      | inr (e, refused) ↦
          let (world, handle, systems) = prepare_found_refused field (by_field field) s e refused in
          subst IsMirrored (sym (bind_err prepare (commit_delete c field) s e refused)) (
            kept-IsMirrored s s1 mirrored handle
              λ j. ap (λ w. value_of (select field_of j w.settings)) world)
      | inl (r, fine) ↦
          let ready = prepare_found_lem field (by_field field) s r refl fine in
          let (world, handle, systems) = ready.same in
          let at : (j : String)
              → value_of (select field_of j s1.world.settings)
                ≡ value_of (select field_of j s.world.settings) =
            λ j. ap (λ w. value_of (select field_of j w.settings)) world in
          subst (λ x. IsMirrored x.1) (sym (bind_ok prepare (commit_delete c field) s r fine))
            (elim (Result-cases (unset c field s1.world).0) [
              | inl (true, removed) ↦ removed-IsMirrored c field s s1 r still mirrored ready removed
              | inl (false, absent) ↦
                  let (after, same) = commit_delete_absent c field r.0 r.1 s1 absent in
                  let (gone, missing) = unset_lem c field s1.world false absent in
                  kept-IsMirrored s (commit_delete c field r s1).1 mirrored (same ∙ handle) λ j.
                    ap (λ w. value_of (select field_of j w.settings)) after
                    ∙ ap (λ t. value_of (select field_of j t)) gone
                    ∙ absent_keeps field j s1.world.settings (missing refl)
                    ∙ at j
              | inr (e, failed) ↦
                  let (after, same) = commit_delete_failed c field r.0 r.1 s1 e failed in
                  let undone =
                    ((writes_are-IsAtomic c s1.world [] admin_api field 0).1 e failed).settings in
                  kept-IsMirrored s (commit_delete c field r s1).1 mirrored (same ∙ handle) λ j.
                    ap (λ w. value_of (select field_of j w.settings)) after
                    ∙ ap (λ t. value_of (select field_of j t)) undone
                    ∙ at j
            ])
    ]
