-- ===== src/Config/Handle/Patch.antt =====
-- What a patch that is accepted did.
mod Checks
use captchapi.Config.Handle.Patch.Checks.{
  by_env-by_field, check_live_lem, check_free_lem, get_in-insert_all,
}
use captchapi.Prelude.{
  String, Bool, Bool-cases, Option-cases, inl, inr, true, false, Option, none, some, List, [], ◌∷◌,
  All, ◌≡◌, refl, sym, ◌∙◌, ap, arith, str_eq, eq_iff, if◌then◌else◌, ◌≢◌,
}
use mathlib.Core.Path.{subst}
use captchapi.Validation.{Checked, valid, invalid}
use captchapi.Config.Params.{Param, params, by_field, by_env, Reload, boot, live, find}
use captchapi.Config.Layers.{
  Layer, LayeredEnv, Sources, Source, admin, get, get_in, insert, source_get, source_of, capture,
  is_pinned, ◌or_else◌,
}
use captchapi.Config.Layers.Laws.{get_in-insert, source_get-capture}
use captchapi.Config.Values.{Config, from_env_provider, with_boot_fields_from, boot_layer, ◌>>=◌}
use captchapi.Config.Values.Laws.{bind-valid, valid-injective}
use captchapi.Config.Values.Merge.{find-All}
use captchapi.Config.Files.{System}
use captchapi.Config.Handle.{
  Handle, patch, override, commit, resolve_with_carry, environment_of, check_live, check_free,
  check_filter, insert_all, known_live, free_param, live_only, EnvSource,
}
use captchapi.ConfigStore.Written.{IsMap}
use captchapi.Cli.{Cli, Layers, load_layers, stack, resolve_stack}

source_of-overlay :
    (l : LayeredEnv) (key value : String)
    → get_in key l.overlay ≡ some value
    → (get l key ≡ some value) × (source_of l key ≡ admin)
unfolding get source_of
source_of-overlay l key value h = ground arith

resolve_stack_lem :
    (l : LayeredEnv) (r : Config × Sources)
    → resolve_stack l ≡ valid r
    → (from_env_provider (get l) ≡ valid r.0) × (r.1 ≡ capture l)
unfolding resolve_stack
resolve_stack_lem l r h =
    let (c, resolved, last) = bind-valid (from_env_provider (get l)) _ r h in
    let same = valid-injective (c, capture l) r last in
    (resolved ∙ ap (λ x. valid x.0) same, sym (ap (λ x. x.1) same))

-- The stack of a patch on a handle: what the files and the command line give now, under the overlay
-- with the new values, over the stored settings and the boot-only fields that the handle has.
abbrev pub IsStacked : System → Layer → Handle → LayeredEnv → Type 0
IsStacked sys overlay h l =
    (layers : Layers) × (load_layers sys h.cli ≡ valid layers)
    × (l
        ≡ stack
            (record layers { overlay = overlay; stored = h.stored; carried = boot_layer h.current })
            (environment_of sys h.env))

-- The stack that a configuration was resolved from.
resolve_with_carry_lem :
    (sys : System) (overlay : Layer) (h : Handle) (r : Config × Sources)
    → resolve_with_carry sys h.cli h.current overlay h.stored h.env ≡ valid r
    → (l : LayeredEnv) × IsStacked sys overlay h l
      × (from_env_provider (get l) ≡ valid r.0)
      × (r.1 ≡ capture l)
unfolding resolve_with_carry
resolve_with_carry_lem sys overlay h r resolved =
    let (layers, loaded, rest) = bind-valid (load_layers sys h.cli) _ r resolved in
    let l =
      stack (record layers { overlay = overlay; stored = h.stored; carried = boot_layer h.current })
        (environment_of sys h.env) in
    let (resolves, captured) = resolve_stack_lem l r rest in
    (l, (layers, loaded, refl), resolves, captured)

commit_lem :
    {A B : Type 0} (h : Handle) (f : A → B × Handle) (m : Checked String A) (b : B)
    → (commit h f m).0 ≡ valid b
    → (a : A) × (m ≡ valid a) × (commit h f m ≡ (valid (f a).0, (f a).1))
commit_lem h f (invalid e) b bad = absurd (ground arith)
commit_lem h f (valid a) b same = (a, refl, refl)

-- What a patch that is accepted leaves.
pub record IsPatched (sys : System) (updates : Layer) (h : Handle) (c : Config) (h' : Handle)
    : Type 0 where
  -- The stack that is resolved is the one of the handle's own sources with the new values on top;
  -- every key of the patch has its value in it, and the reported sources are those of it.
  pub layers : LayeredEnv
  pub stacked : IsStacked sys (insert_all updates h.overlay) h layers
  pub resolved : Config
  pub resolves : from_env_provider (get layers) ≡ valid resolved
  pub captured : h'.sources ≡ capture layers
  pub answers : (key value : String) → get_in key updates ≡ some value → get layers key ≡ some value
  -- The process runs on its live fields, and answers with what it runs on.
  pub running : (c ≡ with_boot_fields_from h.current resolved) × (h'.current ≡ c)
  -- Every key was free to be changed, and its field is reported as changed by the administrator.
  pub updated :
      (key value : String)
      → get_in key updates ≡ some value
      → (p : Param) × (by_env key ≡ some p)
        × (p.reload ≡ live)
        × (is_pinned (source_get h.sources p.field) ≡ false)
        × (source_get h'.sources p.field ≡ admin)
  pub rest :
      (h'.cli ≡ h.cli)
      × (h'.env ≡ h.env)
      × (h'.stored ≡ h.stored)
      × (h'.pending_restart ≡ h.pending_restart)
      × (h'.overlay ≡ insert_all updates h.overlay)

overridden :
    (sys : System) (updates : Layer) (h : Handle) (c : Config) (r : Config × Sources)
    (l : LayeredEnv)
    → IsMap updates
    → check_live updates ≡ valid tt
    → check_free h.sources updates ≡ valid tt
    → IsStacked sys (insert_all updates h.overlay) h l
      × (from_env_provider (get l) ≡ valid r.0)
      × (r.1 ≡ capture l)
    → c ≡ with_boot_fields_from h.current r.0
    → IsPatched sys updates h c (override (insert_all updates h.overlay) h r).1
unfolding override stack
overridden sys updates h c r l one live_all free_all ((from, loaded, top), resolves, captured)
      same =
    let on_top : (key value : String)
        → get_in key updates ≡ some value
        → (get l key ≡ some value) × (source_of l key ≡ admin) =
      λ key value e. source_of-overlay l key value (
        ap (λ x. get_in key x.overlay) top
        ∙ get_in-insert_all updates h.overlay key one
        ∙ ap (λ o. o or_else get_in key h.overlay) e) in
    record {
      layers = l;
      stacked = (from, loaded, top);
      resolved = r.0;
      resolves = resolves;
      captured = captured;
      answers = λ key value e. (on_top key value e).0;
      running = (same, sym same);
      updated = λ key value e.
          let (p, found, at_once) = check_live_lem updates key value live_all e in
          let (named, by_name) = by_env-by_field key p found in
          (
            p,
            found,
            at_once,
            check_free_lem h.sources updates key value p free_all e found,
            ap (λ s. source_get s p.field) captured
                ∙ (source_get-capture l p.field).0 p by_name
                ∙ ap (source_of l) named
                ∙ (on_top key value e).1,
          );
      rest = (refl, refl, refl, refl, refl);
    }

-- A patch that is accepted, of keys that are not named twice, changed only live fields that neither
-- the command line nor the environment pins; the process runs on the live fields of what resolving
-- gives with the new values on top of the handle's other overrides and over what its command line,
-- environment, files and stored settings say and the boot-only fields it carries; each field of the
-- patch is reported as set by the administrator; and the boot-only fields, the stored settings and
-- the other overrides are as before.
pub patch-IsPatched :
    (sys : System) (updates : Layer) (h : Handle) (c : Config)
    → IsMap updates
    → (patch sys updates h).0 ≡ valid c
    → IsPatched sys updates h c (patch sys updates h).1
unfolding patch override
patch-IsPatched sys updates h c one ok =
    let overlay = insert_all updates h.overlay in
    let (r, chain, final) = commit_lem h (override overlay h) _ c ok in
    let (u1, live_all, chain1) = bind-valid (check_live updates) _ _ chain in
    let (u2, free_all, chain2) = bind-valid (check_free h.sources updates) _ _ chain1 in
    let (u3, filter, chain3) = bind-valid (check_filter sys updates) _ _ chain2 in
    let (l, stacked, resolves, captured) = resolve_with_carry_lem sys overlay h r chain3 in
    subst (λ x. x.0 ≡ valid c → IsPatched sys updates h c x.1) (sym final)
      (λ e.
        overridden sys updates h c r l one live_all free_all (stacked, resolves, captured)
          (sym (valid-injective _ c e)))
      ok
