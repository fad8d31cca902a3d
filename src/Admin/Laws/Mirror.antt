-- ===== src/Admin/Laws/Mirror.antt =====
-- Writing to the store through the administration keeps the handle's copy of it right.
use captchapi.Prelude.{ℕ, suc, String, inl, inr, some, ◌≡◌, refl, ◌∙◌, ap, arith, ◌⊎◌}
use captchapi.Config.Files.{System}
use captchapi.Admin.Describe.{put_message}
use captchapi.World.{Exec, World}
use captchapi.Error.{invalid_config, AppError, ok, err}
use captchapi.Validation.{Checked, valid, invalid}
use captchapi.Table.{select}
use captchapi.Config.Params.{Param, by_field, allowed}
use captchapi.Config.Layers.{Layer, get_in}
use captchapi.Config.Values.{Config}
use captchapi.Config.Handle.{Handle, dry_run, adopt_stored}
use captchapi.ConfigStore.{
  visible, honoured, all_settings, set, admin_api, Codec, field_of, honoured, all_settings,
}
use captchapi.ConfigStore.Written.{value_of}
use captchapi.Admin.{
  describe_stored, touched_by, Body, coerce, candidate_of, prepare_put, commit_put, describe_stored,
  set, admin_api, visible, Outcome,
}
use captchapi.Admin.Context.{in_world, on_handle, add_patch, State, Request, ◌>>=◌}

-- What the handle takes to be stored is what the table says, of every field that may be stored.
abbrev pub IsMirrored : State → Type 0
IsMirrored s =
    (field : String) (p : Param)
    → by_field field ≡ some p
    → p.persist ≡ allowed
    → get_in p.env s.handle.stored ≡ value_of (select field_of field s.world.settings)

-- A request that changed neither the database nor the handle.
abbrev pub IsSame : State → State → Type 0
IsSame s s' = (s'.world ≡ s.world) × (s'.handle ≡ s.handle) × (s'.systems ≡ s.systems)

-- A `put_stored` that is refused before it writes changes nothing.
pub prepare_put_refused :
    (body : Body) (s : State) (e : AppError)
    → (prepare_put body s).0 ≡ err e
    → IsSame s (prepare_put body s).1
unfolding prepare_put ◌>>=◌
prepare_put_refused body s e h = (ground arith, ground arith, ground arith)

-- What `put_stored` knows when it writes.
pub record IsPrepared (body : Body) (s : State) (r : Layer × Layer) (s' : State) : Type 0 where
  pub coerced : coerce body ≡ ok r.0
  pub candidate : r.1 ≡ candidate_of r.0 s.handle.stored
  pub config : Config
  pub tried : dry_run (s.systems s.readings) r.1 s.handle ≡ valid config
  pub same : IsSame s s'
  pub read_once : s'.readings ≡ suc s.readings

pub Checked-cases :
    {A : Type 0} (m : Checked String A)
    → ((a : A) × (m ≡ valid a)) ⊎ ((e : String) × (m ≡ invalid e))
Checked-cases (valid a) = inl (a, refl)
Checked-cases (invalid e) = inr (e, refl)

prepare_put_tried :
    (body : Body) (s : State) (r : Layer × Layer)
    → (prepare_put body s).0 ≡ ok r
    → (c : Config) × (dry_run (s.systems s.readings) r.1 s.handle ≡ valid c)
unfolding prepare_put ◌>>=◌
prepare_put_tried body s r h = elim (Checked-cases (dry_run (s.systems s.readings) r.1 s.handle)) [
  | inl tried ↦ tried
  | inr (e, refused) ↦ absurd (ground arith)
]

pub prepare_put_lem :
    (body : Body) (s : State) (r : Layer × Layer)
    → (prepare_put body s).0 ≡ ok r
    → IsPrepared body s r (prepare_put body s).1
unfolding prepare_put ◌>>=◌
prepare_put_lem body s r h =
    let (config, tried) = prepare_put_tried body s r h in
    record {
      coerced = ground arith;
      candidate = ground arith;
      config = config;
      tried = tried;
      same = (ground arith, ground arith, ground arith);
      read_once = ground arith;
    }

visible_keeps : (w : World) → (visible w).1.settings ≡ w.settings
unfolding visible honoured all_settings
visible_keeps w = ground arith

pub describe_stored_keeps :
    (message : String) (s : State)
    → let s' = (describe_stored message s).1 in
      (s'.world.settings ≡ s.world.settings) × (s'.handle ≡ s.handle)
unfolding describe_stored ◌>>=◌
describe_stored_keeps message s = (ground (arith, visible_keeps s.world), ground arith)

pub in_world_ok :
    {A B : Type 0} (m : Exec A) (f : A → Request B) (s : State) (a : A)
    → (m s.world).0 ≡ ok a
    → (in_world m >>= f) s ≡ f a (record s { world = (m s.world).1 })
unfolding ◌>>=◌
in_world_ok m f s a h = rw h refl

pub on_handle_ok :
    {A B : Type 0} (op : System → Handle → Checked String A × Handle) (g : String → AppError)
    (f : A → Request B) (s : State) (a : A)
    → (op (s.systems s.readings) s.handle).0 ≡ valid a
    → (on_handle op g >>= f) s
      ≡ f a
          (record s { handle = (op (s.systems s.readings) s.handle).1; readings = suc s.readings })
unfolding ◌>>=◌
on_handle_ok op g f s a h = rw h refl

-- What follows the write: the handle adopts the candidate, and the database is only read.
pub commit_put_written :
    (c : Codec) (updates candidate : Layer) (s : State) (n : ℕ) (o : Outcome)
    → (set c updates admin_api s.world).0 ≡ ok n
    → (adopt_stored (s.systems s.readings) candidate s.handle).0 ≡ valid o
    → (adopt_stored (s.systems s.readings) candidate s.handle).1.stored ≡ candidate
    → let s' = (commit_put c (updates, candidate) s).1 in
      (s'.world.settings ≡ (set c updates admin_api s.world).1.settings)
      × (s'.handle.stored ≡ candidate)
unfolding commit_put ◌>>=◌
commit_put_written c updates candidate s n o wrote accepted adopted =
    let s1 : State = record s { world = (set c updates admin_api s.world).1 } in
    let h2 = (adopt_stored (s.systems s.readings) candidate s.handle).1 in
    let s2 : State = record s1 {
      handle = h2;
      readings = suc s.readings;
      metrics = add_patch s.metrics;
    } in
    let message = put_message (touched_by updates) o.drift h2.sources in
    let ended : commit_put c (updates, candidate) s ≡ describe_stored message s2 =
      in_world_ok (set c updates admin_api) _ s n wrote
      ∙ on_handle_ok (λ sys. adopt_stored sys candidate) invalid_config _ s1 o accepted in
    let (settings, handle) = describe_stored_keeps message s2 in
    (
      ap (λ x. x.1.world.settings) ended ∙ settings,
      ap (λ x. x.1.handle.stored) ended ∙ ap (λ h. h.stored) handle ∙ adopted,
    )

pub commit_put_failed :
    (c : Codec) (updates candidate : Layer) (s : State) (e : AppError)
    → (set c updates admin_api s.world).0 ≡ err e
    → let s' = (commit_put c (updates, candidate) s).1 in
      (s'.world ≡ (set c updates admin_api s.world).1) × (s'.handle ≡ s.handle)
unfolding commit_put ◌>>=◌
commit_put_failed c updates candidate s e failed = (ground arith, ground arith)
