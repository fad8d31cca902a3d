-- ===== src/Tests/Settings.antt =====
-- The configuration layers and the stored settings at concrete inputs.
use captchapi.Table.{select}
use captchapi.Prelude.{
  ◌≡◌, refl, pos, String, true, ◌&&◌, not, Option, some, none, [], ◌∷◌, arith, str_eq, eq_iff,
  if◌then◌else◌,
}
use captchapi.Error.{ok}
use captchapi.World.{World, SettingRow, GenerationRow, pending, confirmed}
use captchapi.Config.Params.{by_field, api_key_salt}
use captchapi.Config.Layers.{insert, LayeredEnv, Layer, new, get_in}
use captchapi.ConfigStore.{
  open_generation, write_each, transaction, check_writable, Codec, entries, admin_api, set, unset,
  clear, visible, trying, rolled_back_to, clean,
}
use captchapi.ConfigStore.Laws.{IsAtomic, writes_are-IsAtomic}
use captchapi.ConfigStore.Written.{set_stores, IsStored, visible_is_safe, IsShowable}
use captchapi.ConfigStore.Boot.{is_confirmed, latest, prepare_boot, confirm}
use captchapi.ConfigStore.Boot.Confirmed.{as_confirmed, confirm_settles}
use captchapi.ConfigStore.Numbering.{IsKept, IsConfirmed, writes-IsKept}
use captchapi.ConfigStore.Boot.Laws.{crash_recovery}
use captchapi.Tests.{start}

abbrev attempts : String → Layer
attempts value = ("max_validation_attempts", value) ∷ []

-- A codec for no settings and for one field.
abbrev encode : Layer → Option String
encode [] = some "{}"
encode ((field, value) ∷ []) =
    if str_eq field "max_validation_attempts" && not (str_eq value "{}") then some value else none
encode _ = none

abbrev decode : String → Option Layer
decode json = if str_eq json "{}" then some [] else some (attempts json)

pub decode-encode_lem : (l : Layer) (json : String) → encode l ≡ some json → decode json ≡ some l
decode-encode_lem [] json e = ground (arith, eq_iff json "{}")
decode-encode_lem ((field, value) ∷ []) json e =
    ground (arith, eq_iff json "{}", eq_iff value "{}", eq_iff field "max_validation_attempts")
decode-encode_lem ((f, v) ∷ x ∷ t) json e = absurd (ground arith)

abbrev pub codec : Codec
codec = record { encode = encode; decode = decode; decode-encode = decode-encode_lem }

abbrev layers : LayeredEnv
layers = record (new [] (λ key. none) [] (("LOG_LEVEL", "warn") ∷ []) []) {
  stored = ("LOG_LEVEL", "debug") ∷ [];
}

salt_found : by_field "api_key_salt" ≡ some api_key_salt
unfolding by_field
salt_found = refl

-- One setting is stored; the newest generation is confirmed.
abbrev generation : GenerationRow
generation = record { id = 1; created_at = pos 5; snapshot = "5"; status = confirmed; attempts = 1 }

abbrev setting : String → SettingRow
setting value = record {
  field = "max_validation_attempts";
  value = value;
  updated_at = pos 5;
  updated_by = "cli";
}

abbrev pub settled : World
settled = record start {
  settings = setting "5" ∷ [];
  generations = generation ∷ [];
  next_generation = 2;
}

written : (set codec (attempts "8") admin_api settled).0 ≡ ok 2
unfolding set check_writable by_field transaction write_each open_generation
written = refl

set_stores_example :
    IsStored codec (attempts "8") settled (set codec (attempts "8") admin_api settled).1 2
unfolding get_in
set_stores_example = set_stores codec settled (attempts "8") admin_api 2 (refl, tt) written

shown : (visible settled).0 ≡ ok (attempts "5")
unfolding visible by_field insert
shown = refl

visible_is_safe_example : IsShowable "max_validation_attempts"
unfolding get_in
visible_is_safe_example =
    visible_is_safe settled (attempts "5") "max_validation_attempts" "5" shown refl

writes_are-IsAtomic_example :
    IsAtomic (set codec (attempts "8") admin_api) settled
    × IsAtomic (unset codec "log_level") settled
    × IsAtomic (clear codec) settled
    × IsAtomic (prepare_boot codec) settled
    × IsAtomic (confirm 2) settled
writes_are-IsAtomic_example =
    writes_are-IsAtomic codec settled (attempts "8") admin_api "log_level" 2

-- A change to `8` waits for its first start.
abbrev untried : GenerationRow
untried = record generation { id = 2; snapshot = "8"; status = pending; attempts = 0 }

abbrev pub changed : World
changed = record settled {
  settings = setting "8" ∷ [];
  generations = untried ∷ generation ∷ [];
  next_generation = 3;
}

crash_recovery_example :
    let (r1, w1) = prepare_boot codec changed in
    let (r2, w2) = prepare_boot codec w1 in
    let (r3, w3) = prepare_boot codec w2 in
    (r1 ≡ ok (trying 2))
    × (w1.settings ≡ changed.settings)
    × (r2 ≡ ok (rolled_back_to 2 1))
    × (entries w2.settings ≡ attempts "5")
    × (r3 ≡ ok (clean (some 2)))
    × (w3.settings ≡ w2.settings)
unfolding latest select get_in
crash_recovery_example =
    crash_recovery codec changed untried (attempts "5") (λ n. refl) refl refl refl refl
      (refl, refl, tt)

abbrev tried : World
tried = record changed { generations = record untried { attempts = 1 } ∷ generation ∷ [] }

confirm_settles_example :
    let (r, w') = confirm 2 tried in
    (r ≡ ok true)
    × (w'.settings ≡ tried.settings)
    × (w'.generations ≡ as_confirmed (record untried { attempts = 1 }) ∷ [])
    × (latest is_confirmed w'.generations ≡ some (as_confirmed (record untried { attempts = 1 })))
    × ((prepare_boot codec w').0 ≡ ok (clean (some 2)))
confirm_settles_example =
    confirm_settles codec tried (record untried { attempts = 1 }) (generation ∷ []) (λ n. refl) refl
      ((omega arith, tt), (tt, tt)) refl

writes-IsKept_example :
    IsKept (some generation) (set codec (attempts "8") admin_api tried).1
    × IsKept (some generation) (unset codec "log_level" tried).1
    × IsKept (some generation) (clear codec tried).1
    × IsKept (some generation) (prepare_boot codec tried).1
    × IsConfirmed 2 (some generation) (confirm 2 tried).1
unfolding latest
writes-IsKept_example =
    writes-IsKept codec tried (attempts "8") admin_api "log_level" 2
      ((omega arith, (omega arith, tt)), ((omega arith, tt), (tt, tt)))
