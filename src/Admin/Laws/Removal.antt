-- ===== src/Admin/Laws/Removal.antt =====
-- What `delete_stored` knows before it removes a setting, and what it does then.
use captchapi.Prelude.{
  ◌+++◌, any, suc, String, inl, inr, true, false, Option, none, some, ◌≡◌, refl, sym, ◌∙◌, ap,
  arith, str_eq, if◌then◌else◌,
}
use mathlib.Core.Path.{subst}
use captchapi.Error.{AppError, ok, err}
use captchapi.Validation.{valid}
use captchapi.Config.Params.{Param, by_field}
use captchapi.Config.Layers.{Layer}
use captchapi.Config.Values.{Config}
use captchapi.Config.Handle.{Outcome, dry_run, adopt_stored}
use captchapi.ConfigStore.{Codec, unset}
use captchapi.Admin.{describe_stored, prepare_found, remove, commit_delete}
use captchapi.Admin.Context.{State, ◌>>=◌}
use captchapi.Admin.Laws.Mirror.{IsSame, Checked-cases, describe_stored_keeps}

pub prepare_found_refused :
    (field : String) (found : Option Param) (s : State) (e : AppError)
    → (prepare_found field found s).0 ≡ err e
    → IsSame s (prepare_found field found s).1
unfolding prepare_found ◌>>=◌
prepare_found_refused field none s e h = (ground arith, ground arith, ground arith)
prepare_found_refused field (some p) s e h = (ground arith, ground arith, ground arith)

-- What `delete_stored` knows when it removes the row.
pub record IsReady (field : String) (s : State) (r : Param × Layer) (s' : State) : Type 0 where
  pub found : by_field field ≡ some r.0
  pub candidate : r.1 ≡ remove r.0.env s.handle.stored
  pub config : Config
  pub tried : dry_run (s.systems s.readings) r.1 s.handle ≡ valid config
  pub same : IsSame s s'
  pub read_once : s'.readings ≡ suc s.readings

pub prepare_found_lem :
    (field : String) (found : Option Param) (s : State) (r : Param × Layer)
    → by_field field ≡ found
    → (prepare_found field found s).0 ≡ ok r
    → IsReady field s r (prepare_found field found s).1
unfolding prepare_found ◌>>=◌
prepare_found_lem field none s r f h = absurd (ground arith)
prepare_found_lem field (some p) s r f h =
    elim (Checked-cases (dry_run (s.systems s.readings) (remove p.env s.handle.stored) s.handle)) [
      | inr (e, refused) ↦ absurd (ground arith)
      | inl (config, tried) ↦
          let same : (p, remove p.env s.handle.stored) ≡ r = ground arith in
          record {
            found = f ∙ ap (λ x. some x.0) same;
            candidate = sym (ap (λ x. x.1) same) ∙ ap (λ x. remove x.0.env s.handle.stored) same;
            config = config;
            tried =
                subst (λ x. dry_run (s.systems s.readings) x.1 s.handle ≡ valid config) same tried;
            same = (ground arith, ground arith, ground arith);
            read_once = ground arith;
          }
    ]

module _ (c : Codec) (field : String) (p : Param) (candidate : Layer) (s : State) where
  pub commit_delete_failed :
      (e : AppError)
      → (unset c field s.world).0 ≡ err e
      → let s' = (commit_delete c field (p, candidate) s).1 in
        (s'.world ≡ (unset c field s.world).1) × (s'.handle ≡ s.handle)
  unfolding commit_delete ◌>>=◌
  commit_delete_failed e failed = (ground arith, ground arith)

  pub commit_delete_absent :
      (unset c field s.world).0 ≡ ok false
      → let s' = (commit_delete c field (p, candidate) s).1 in
        (s'.world ≡ (unset c field s.world).1) × (s'.handle ≡ s.handle)
  unfolding commit_delete ◌>>=◌
  commit_delete_absent absent = rw absent (refl, refl)

  pub commit_delete_removed :
      (o : Outcome)
      → (unset c field s.world).0 ≡ ok true
      → (adopt_stored (s.systems s.readings) candidate s.handle).0 ≡ valid o
      → (adopt_stored (s.systems s.readings) candidate s.handle).1.stored ≡ candidate
      → let s' = (commit_delete c field (p, candidate) s).1 in
        (s'.world.settings ≡ (unset c field s.world).1.settings) × (s'.handle.stored ≡ candidate)
  unfolding commit_delete ◌>>=◌
  commit_delete_removed o removed accepted adopted =
      let s1 : State = record s { world = (unset c field s.world).1 } in
      let h2 = (adopt_stored (s.systems s.readings) candidate s.handle).1 in
      let s2 : State = record s1 { handle = h2; readings = suc s.readings } in
      let message =
        if any (str_eq p.field) o.drift
        then "Removed `" +++ field +++ "`; a restart is needed to take effect"
        else "Removed `" +++ field +++ "`" in
      let ended : commit_delete c field (p, candidate) s ≡ describe_stored message s2 =
        rw (removed, accepted) refl in
      let (settings, handle) = describe_stored_keeps message s2 in
      (
        ap (λ x. x.1.world.settings) ended ∙ settings,
        ap (λ x. x.1.handle.stored) ended ∙ ap (λ h. h.stored) handle ∙ adopted,
      )
