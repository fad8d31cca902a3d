-- ===== src/Admin/Laws/Put.antt =====
-- `put_stored` keeps the handle's copy of the store right, however it ends.
use captchapi.Prelude.{
  ℕ, suc, String, inl, inr, Option, none, some, List, [], ◌∷◌, ◌≡◌, refl, sym, ◌∙◌, ap, arith,
  str_eq, if◌then◌else◌,
}
use mathlib.Core.Path.{subst}
use captchapi.Error.{AppError, Result, ok, err, Result-cases}
use captchapi.World.{SettingRow}
use captchapi.Validation.{valid}
use captchapi.Table.{select}
use captchapi.Config.Layers.{Layer, get_in, ◌or_else◌}
use captchapi.Config.Handle.{dry_run}
use captchapi.Config.Handle.Laws.{dry_run-adopt_stored}
use captchapi.ConfigStore.{Codec, field_of, set, admin_api}
use captchapi.ConfigStore.Laws.{writes_are-IsAtomic}
use captchapi.ConfigStore.Written.{IsMap, value_of, set_stores}
use captchapi.Admin.{Body, Json, coerce, raw_of, prepare_put, put_stored, commit_put}
use captchapi.Admin.Context.{State, Request, ◌>>=◌}
use captchapi.Admin.Laws.Candidate.{get_in-candidate_of}
use captchapi.Admin.Laws.Mirror.{
  IsMirrored, IsPrepared, prepare_put_refused, prepare_put_lem, commit_put_written,
  commit_put_failed,
}

-- What a JSON object says of a field.
abbrev pub value_in : String → Body → Option Json
value_in field [] = none
value_in field ((f, v) ∷ t) = if str_eq f field then some v else value_in field t

-- An object has each of its keys once.
abbrev pub IsObject : Body → Type 0
IsObject [] = Unit {0}
IsObject ((field, value) ∷ t) = (value_in field t ≡ none) × IsObject t

ok-injective : {A : Type 0} (a b : A) → ◌≡◌ {A = Result A} (ok a) (ok b) → a ≡ b
ok-injective a b e = ap (λ m. elim m [ ok x ↦ x | err x ↦ a ]) e

coerce_step :
    (f : String) (v : Json) (t : Body) (updates : Layer)
    → coerce ((f, v) ∷ t) ≡ ok updates
    → (raw : String) × (rest : Layer) × (coerce t ≡ ok rest) × ((f, raw) ∷ rest ≡ updates)
unfolding coerce
coerce_step f v t updates h = elim (Result-cases (raw_of f v)) [
  | inr (e, bad) ↦ absurd (ground arith)
  | inl (raw, fine) ↦ elim (Result-cases (coerce t)) [
    | inr (e, bad) ↦ absurd (ground arith)
    | inl (rest, done) ↦
        (raw, rest, done, ok-injective ((f, raw) ∷ rest) updates (rw (fine, done) at h))
  ]
]

coerce_absent :
    (body : Body) (updates : Layer) (field : String)
    → coerce body ≡ ok updates
    → value_in field body ≡ none
    → get_in field updates ≡ none
unfolding get_in coerce
coerce_absent [] updates field h e =
    subst (λ u. get_in field u ≡ none) (ok-injective [] updates h) refl
coerce_absent ((f, v) ∷ t) updates field h e =
    let (raw, rest, done, same) = coerce_step f v t updates h in
    let past : get_in field ((f, raw) ∷ rest) ≡ none =
      ground (arith, coerce_absent t rest field done) in
    subst (λ u. get_in field u ≡ none) same past

coerce-IsMap :
    (body : Body) (updates : Layer) → coerce body ≡ ok updates → IsObject body → IsMap updates
unfolding coerce
coerce-IsMap [] updates h o = subst IsMap (ok-injective [] updates h) tt
coerce-IsMap ((f, v) ∷ t) updates h (fresh, o) =
    let (raw, rest, done, same) = coerce_step f v t updates h in
    subst IsMap same (coerce_absent t rest f done fresh, coerce-IsMap t rest done o)

module _ {A B : Type 0} (m : Request A) (f : A → Request B) (s : State) where
  pub bind_ok : (a : A) → (m s).0 ≡ ok a → (m >>= f) s ≡ f a (m s).1
  unfolding ◌>>=◌
  bind_ok a h = rw h refl

  pub bind_err : (e : AppError) → (m s).0 ≡ err e → ((m >>= f) s).1 ≡ (m s).1
  unfolding ◌>>=◌
  bind_err e h = rw h refl

-- What the table says of a field.
abbrev in_table : String → List SettingRow → Option String
in_table field settings = value_of (select field_of field settings)

-- A `put_stored` that wrote.
written-IsMirrored :
    (c : Codec) (body : Body) (s s1 : State) (updates candidate : Layer) (n : ℕ)
    → IsObject body
    → s.systems (suc s.readings) ≡ s.systems s.readings
    → IsMirrored s
    → IsPrepared body s (updates, candidate) s1
    → (set c updates admin_api s1.world).0 ≡ ok n
    → IsMirrored (commit_put c (updates, candidate) s1).1
written-IsMirrored c body s s1 updates candidate n object still mirrored p wrote field param found
      at =
    let (world, handle, systems) = p.same in
    let one = coerce-IsMap body updates p.coerced object in
    let stored = (set_stores c s1.world updates admin_api n one wrote).values field in
    let files : s1.systems s1.readings ≡ s.systems s.readings =
      ap (λ f. f s1.readings) systems ∙ ap s.systems p.read_once ∙ still in
    let tried : dry_run (s1.systems s1.readings) candidate s1.handle ≡ valid p.config =
      ap (λ sys. dry_run sys candidate s1.handle) files
      ∙ ap (dry_run (s.systems s.readings) candidate) handle
      ∙ p.tried in
    let (accepted, running, adopted, overrides, pending) =
      (dry_run-adopt_stored (s1.systems s1.readings) candidate s1.handle).0 p.config tried in
    let (settings, kept) = commit_put_written c updates candidate s1 n _ wrote accepted adopted in
    ap (get_in param.env) (kept ∙ p.candidate)
    ∙ get_in-candidate_of updates s.handle.stored field param one found
    ∙ ap (λ x. get_in field updates or_else x)
        (mirrored field param found at ∙ ap (λ w. in_table field w.settings) (sym world))
    ∙ sym stored
    ∙ ap (in_table field) (sym settings)

failed-IsMirrored :
    (c : Codec) (s s1 : State) (updates candidate : Layer) (e : AppError)
    → IsMirrored s
    → s1.world ≡ s.world
    → s1.handle ≡ s.handle
    → (set c updates admin_api s1.world).0 ≡ err e
    → IsMirrored (commit_put c (updates, candidate) s1).1
failed-IsMirrored c s s1 updates candidate e mirrored world handle failed field p found at =
    let (after, same) = commit_put_failed c updates candidate s1 e failed in
    let undone = ((writes_are-IsAtomic c s1.world updates admin_api "" 0).0 e failed).settings in
    ap (λ h. get_in p.env h.stored) (same ∙ handle)
    ∙ mirrored field p found at
    ∙ ap (in_table field) (sym (ap (λ w. w.settings) after ∙ undone ∙ ap (λ w. w.settings) world))

-- If what the handle takes to be stored is what the database has, then so it is after a `put_stored` of
-- any JSON object, whether it succeeds, is refused before it writes, or fails in the database, as long
-- as the files that it reads do not change between its check and its adoption of the settings.
pub put_stored-IsMirrored :
    (c : Codec) (body : Body) (s : State)
    → IsObject body
    → s.systems (suc s.readings) ≡ s.systems s.readings
    → IsMirrored s
    → IsMirrored (put_stored c body s).1
unfolding put_stored
put_stored-IsMirrored c body s object still mirrored =
    let s1 = (prepare_put body s).1 in
    elim (Result-cases (prepare_put body s).0) [
      | inr (e, refused) ↦
          let (world, handle, systems) = prepare_put_refused body s e refused in
          subst IsMirrored (sym (bind_err (prepare_put body) (commit_put c) s e refused))
            λ field p found at.
              ap (λ h. get_in p.env h.stored) handle
              ∙ mirrored field p found at
              ∙ ap (λ w. in_table field w.settings) (sym world)
      | inl (r, fine) ↦
          let prepared = prepare_put_lem body s r fine in
          subst (λ x. IsMirrored x.1) (sym (bind_ok (prepare_put body) (commit_put c) s r fine))
            (elim (Result-cases (set c r.0 admin_api s1.world).0) [
              | inl (n, wrote) ↦
                  written-IsMirrored c body s s1 r.0 r.1 n object still mirrored prepared wrote
              | inr (e, failed) ↦
                  failed-IsMirrored c s s1 r.0 r.1 e mirrored prepared.same.0 prepared.same.1 failed
            ])
    ]
