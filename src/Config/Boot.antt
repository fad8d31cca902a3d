-- ===== src/Config/Boot.antt =====
-- src/config/boot.rs: folding the stored settings into the configuration of the first pass, and the
-- second phase of the startup in src/main.rs that uses it.
pub mod Laws
use captchapi.Prelude.{
  ℕ, String, Bool, true, false, Option, none, some, List, [], ◌∷◌, if◌then◌else◌,
}
use captchapi.Error.{Result, ok, err}
use captchapi.Validation.{Checked, valid, invalid}
use captchapi.World.{World, Exec, pure, ◌>>=◌, ◌>>◌}
use captchapi.Config.Layers.{Layer, Sources}
use captchapi.Config.Values.{Config}
use captchapi.Config.Files.{System}
use captchapi.Config.Handle.{Handle}
use captchapi.Config.Handle
use captchapi.ConfigStore.{Codec, BootOutcome, clean, trying, rolled_back_to, load}
use captchapi.ConfigStore.Boot.{prepare_boot}
use captchapi.Cli.{Cli, resolve_with_stored, ignore_stored_config}

pub record Booted : Type 0 where
  pub config : Config
  pub sources : Sources
  pub confirmable : Option ℕ
  pub applied : Bool
  pub error : Option String

abbrev booted : Config → Sources → Option ℕ → Booted
booted config sources generation = record {
  config = config;
  sources = sources;
  confirmable = generation;
  applied = true;
  error = none;
}

abbrev fold_in : Config → Sources → Option ℕ → Checked String (Config × Sources) → Booted
fold_in config sources generation (valid (resolved, from)) = booted resolved from generation
fold_in config sources generation (invalid e) = record {
  config = config;
  sources = sources;
  confirmable = none;
  applied = false;
  error = some e;
}

unfoldable pub apply_stored : System → Cli → Config → Sources → Layer → Option ℕ → Booted
unfolding resolve_with_stored
apply_stored sys c config sources [] generation = booted config sources generation
apply_stored sys c config sources (x ∷ t) generation =
    fold_in config sources generation (resolve_with_stored sys c (x ∷ t))

abbrev pub generation_of : BootOutcome → Option ℕ
generation_of (clean generation) = generation
generation_of (trying generation) = some generation
generation_of (rolled_back_to generation restored) = none

-- The store's part: what is stored, and the generation this start is a try of.
unfoldable pub consult : Codec → Exec (Layer × Option ℕ)
unfolding prepare_boot load
consult codec = do outcome ← prepare_boot codec; stored ← load; pure (stored, generation_of outcome)

unfoldable pub read_store : Codec → System → Cli → Exec (Layer × Option ℕ)
unfolding ignore_stored_config consult
read_store codec sys c =
    if ignore_stored_config c sys.environment then pure ([], none) else consult codec

-- The second phase of `main`, up to the handle that the server runs on and the generation that is
-- confirmed later.
unfoldable pub second_phase : Codec → System → Cli → Config → Sources → Exec (Handle × Option ℕ)
unfolding read_store apply_stored Handle.new
second_phase codec sys c config sources = do
  (stored, generation) ← read_store codec sys c
  let result = apply_stored sys c config sources stored generation in
      pure (Handle.new result.config c result.sources stored, result.confirmable)
