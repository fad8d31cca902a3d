-- ===== src/Config/Boot/Laws.antt =====
-- Which generation a start may confirm.
use captchapi.Prelude.{
  ◌∙◌, Bool-cases, ℕ, String, false, Option, none, some, [], ◌∷◌, ◌≡◌, refl, ◌⊎◌, inl, inr, ap,
  arith, ◌∙◌,
}
use mathlib.Core.Path.{subst}
use captchapi.Error.{Result, ok, err, Result-cases}
use captchapi.Validation.{Checked, valid, invalid}
use captchapi.World.{World, Exec, ◌>>=◌}
use captchapi.Config.Layers.{Layer, Sources}
use captchapi.Config.Values.{Config}
use captchapi.Config.Files.{System}
use captchapi.Config.Handle.{Handle, new}
use captchapi.Config.Boot.{second_phase, read_store, apply_stored, generation_of, fold_in, consult}
use captchapi.ConfigStore.{Codec, BootOutcome, load}
use captchapi.ConfigStore.Boot.{prepare_boot}
use captchapi.Cli.{Cli, resolve_with_stored, ignore_stored_config}

-- The process runs on these stored settings.
abbrev pub RunsOn : System → Cli → Config → Sources → Layer → Config → Sources → Type 0
RunsOn sys c config sources stored running from =
    ((stored ≡ []) × (running ≡ config) × (from ≡ sources))
    ⊎ (resolve_with_stored sys c stored ≡ valid (running, from))

folded :
    (config : Config) (sources : Sources) (generation : Option ℕ)
    (m : Checked String (Config × Sources)) (id : ℕ)
    → (fold_in config sources generation m).confirmable ≡ some id
    → (generation ≡ some id)
      × (m
          ≡ valid (
            (fold_in config sources generation m).config,
            (fold_in config sources generation m).sources,
          ))
folded config sources generation (valid (c, s)) id h = (h, refl)
folded config sources generation (invalid e) id h = absurd (ground arith)

apply_stored_lem :
    (sys : System) (c : Cli) (config : Config) (sources : Sources) (stored : Layer)
    (generation : Option ℕ) (id : ℕ)
    → let b = apply_stored sys c config sources stored generation in
      b.confirmable ≡ some id
      → (generation ≡ some id) × RunsOn sys c config sources stored b.config b.sources
unfolding apply_stored
apply_stored_lem sys c config sources [] generation id h = (h, inl (refl, refl, refl))
apply_stored_lem sys c config sources (x ∷ t) generation id h =
    let (given, resolved) =
      folded config sources generation (resolve_with_stored sys c (x ∷ t)) id h in
    (given, inr resolved)

-- A chain that answers went through its first step.
bind-ok :
    {A B : Type 0} (m : Exec A) (f : A → Exec B) (w : World) (b : B)
    → ((m >>= f) w).0 ≡ ok b
    → (a : A) × ((m w).0 ≡ ok a) × ((f a (m w).1).0 ≡ ok b)
bind-ok m f w b h = elim (Result-cases (m w).0) [
  | inl (a, fine) ↦ (a, fine, ground arith)
  | inr (e, bad) ↦ absurd (ground arith)
]

ok-injective : {A : Type 0} (a b : A) → ◌≡◌ {A = Result A} (ok a) (ok b) → a ≡ b
ok-injective a b e = ap (λ m. elim m [ ok x ↦ x | err x ↦ a ]) e

consult_lem :
    (codec : Codec) (w : World) (r : Layer × Option ℕ)
    → (consult codec w).0 ≡ ok r
    → (outcome : BootOutcome) × ((prepare_boot codec w).0 ≡ ok outcome)
      × (generation_of outcome ≡ r.1)
      × ((load (prepare_boot codec w).1).0 ≡ ok r.0)
unfolding consult
consult_lem codec w r h =
    let (outcome, prepared, rest) = bind-ok (prepare_boot codec) _ w r h in
    let (stored, loaded, last) = bind-ok load _ (prepare_boot codec w).1 r rest in
    let same = ok-injective (stored, generation_of outcome) r last in
    (outcome, prepared, ap (λ x. x.1) same, loaded ∙ ap (λ x. ok x.0) same)

read_store_lem :
    (codec : Codec) (sys : System) (c : Cli) (w : World) (r : Layer × Option ℕ) (id : ℕ)
    → (read_store codec sys c w).0 ≡ ok r
    → r.1 ≡ some id
    → (ignore_stored_config c sys.environment ≡ false) × ((consult codec w).0 ≡ ok r)
unfolding read_store
read_store_lem codec sys c w r id h g = elim (Bool-cases (ignore_stored_config c sys.environment)) [
  | inl ignored ↦
      let nothing : ◌≡◌ {A = Option ℕ} none r.1 =
        ap (λ x. x.1) (ok-injective ([], none) r (ground arith)) in
      absurd (ground arith)
  | inr consulted ↦ (consulted, ground arith)
]

-- What a start knows when it may confirm a generation.
pub record IsTried (codec : Codec) (sys : System) (c : Cli) (config : Config) (sources : Sources)
    (w : World) (h : Handle) (id : ℕ) : Type 0 where
  pub consulted : ignore_stored_config c sys.environment ≡ false
  pub outcome : BootOutcome
  pub prepared : (prepare_boot codec w).0 ≡ ok outcome
  pub generation : generation_of outcome ≡ some id
  pub loaded : (load (prepare_boot codec w).1).0 ≡ ok h.stored
  pub runs : RunsOn sys c config sources h.stored h.current h.sources

-- A start keeps a generation to confirm only if the store was consulted, it is the generation that
-- `prepare_boot` told to try or to keep, and the process runs on the settings that were stored then.
-- So settings that do not resolve are never recorded as good.
pub second_phase-IsTried :
    (codec : Codec) (sys : System) (c : Cli) (config : Config) (sources : Sources) (w : World)
    (h : Handle) (id : ℕ)
    → (second_phase codec sys c config sources w).0 ≡ ok (h, some id)
    → IsTried codec sys c config sources w h id
unfolding second_phase new
second_phase-IsTried codec sys c config sources w h id e =
    let (r, found, last) = bind-ok (read_store codec sys c) _ w (h, some id) e in
    let b = apply_stored sys c config sources r.0 r.1 in
    let same = ok-injective (new b.config c b.sources r.0, b.confirmable) (h, some id) last in
    let (given, runs) = apply_stored_lem sys c config sources r.0 r.1 id (ap (λ x. x.1) same) in
    let (consulted, read) = read_store_lem codec sys c w r id found given in
    let (outcome, prepared, generation, loaded) = consult_lem codec w r read in
    let kept : r.0 ≡ h.stored = ap (λ x. x.0.stored) same in
    record {
      consulted = consulted;
      outcome = outcome;
      prepared = prepared;
      generation = generation ∙ given;
      loaded = loaded ∙ ap ok kept;
      runs = subst (λ x. RunsOn sys c config sources x.0.stored x.0.current x.0.sources) same runs;
    }
