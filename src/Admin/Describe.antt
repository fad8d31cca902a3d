-- ===== src/Admin/Describe.antt =====
-- routes/admin.rs: what the endpoints tell about the configuration. A map in a response is the list
-- of its entries; the descriptions of the parameters are left out.
pub mod Laws
use captchapi.Prelude.{
  ℕ, ◌+◌, String, Bool, true, false, not, ◌&&◌, Option, none, some, List, [], ◌∷◌, ◌++◌, map,
  length, any, str_eq, ◌+++◌, if◌then◌else◌,
}
use captchapi.Table.{is_some}
use captchapi.Config.Text.{show_ℕ}
use captchapi.Config.Params.{Param, params, by_env, Reload, live, boot, Persist, allowed, never}
use captchapi.Config.Layers.{
  Layer, get_in, Source, admin, cli, env, stored, env_file, file, carried, default, is_pinned,
  Sources, source_get,
}
use captchapi.Config.Values.{Config, field_value}
use captchapi.Config.Files.{redact, sorted, join}
use captchapi.Config.Handle.{Handle, overlay_keys}

-- `Source::label`
unfoldable pub label : Source → String
label admin = "admin"
label cli = "cli"
label env = "env"
label stored = "stored"
label env_file = "env-file"
label file = "file"
label carried = "carried"
label default = "default"

abbrev pub is_stored : Source → Bool
is_stored stored = true
is_stored _ = false

pub record ConfigEntry : Type 0 where
  pub value : String
  pub reloadable : Bool
  pub secret : Bool
  pub source : String
  pub editable : Bool
  pub storable : Bool
  pub shadowed_by : Option String

pub record ConfigResponse : Type 0 where
  pub config : List (String × ConfigEntry)
  pub overrides : List String
  pub pending_restart : List String

pub record StoredResponse : Type 0 where
  pub stored : Layer
  pub shadowed : List String
  pub pending_restart : List String
  pub message : String

pub record RestartResponse : Type 0 where
  pub applying : List String
  pub message : String

pub record ReloadResponse : Type 0 where
  pub config : ConfigResponse
  pub ignored : List String
  pub message : String

pub record CleanupResponse : Type 0 where
  pub sessions_deleted : ℕ
  pub message : String

abbrev pub is_live : Reload → Bool
is_live live = true
is_live boot = false

abbrev pub is_allowed : Persist → Bool
is_allowed allowed = true
is_allowed never = false

unfoldable pub entry : Param → String → Source → Layer → ConfigEntry
unfolding redact label is_pinned get_in
entry p value source in_store = record {
  value = redact p value;
  reloadable = is_live p.reload;
  secret = p.secret;
  source = label source;
  editable = is_live p.reload && not (is_pinned source);
  storable = is_allowed p.persist;
  shadowed_by =
      if is_some (get_in p.env in_store) && not (is_stored source)
      then some (label source)
      else none;
}

abbrev with_entry :
    Handle → Param → Option String → List (String × ConfigEntry) → List (String × ConfigEntry)
with_entry h p none rest = rest
with_entry h p (some value) rest =
    (p.field, entry p value (source_get h.sources p.field) h.stored) ∷ rest

unfoldable pub describe_each : Config → Handle → List Param → List (String × ConfigEntry)
unfolding field_value entry source_get
describe_each snapshot h [] = []
describe_each snapshot h (p ∷ ps) =
    with_entry h p (field_value snapshot p.field) (describe_each snapshot h ps)

abbrev with_field : Option Param → List String → List String
with_field none fields = fields
with_field (some p) fields = p.field ∷ fields

-- The fields of the keys that are known.
unfoldable pub fields_of : List String → List String
unfolding by_env
fields_of [] = []
fields_of (key ∷ t) = with_field (by_env key) (fields_of t)

unfoldable pub describe_config : Config → Handle → ConfigResponse
unfolding describe_each fields_of overlay_keys sorted
describe_config snapshot h = record {
  config = describe_each snapshot h params;
  overrides = sorted (fields_of (overlay_keys h));
  pending_restart = h.pending_restart;
}

unfoldable pub describe : Handle → ConfigResponse
unfolding describe_config
describe h = describe_config h.current h

abbrev masked_by : Sources → String → Bool
masked_by sources field = not (is_stored (source_get sources field))

unfoldable pub keep {ℓ} : {A : Type ℓ} → (A → Bool) → List A → List A
keep p [] = []
keep p (x ∷ xs) = let rest = keep p xs in if p x then x ∷ rest else rest

-- `shadowed`
unfoldable pub shadowed : Handle → Layer → List String
unfolding keep source_get sorted
shadowed h in_store = sorted (keep (masked_by h.sources) (map (λ e. e.0) in_store))

abbrev contains : List String → String → Bool
contains xs x = any (str_eq x) xs

abbrev counted : List String → String → List String → List String
counted [] text notes = notes
counted (x ∷ xs) text notes =
    (show_ℕ (length (x ∷ xs)) +++ text +++ " (" +++ join ", " (x ∷ xs) +++ ")") ∷ notes

abbrev stored_message : List String → List String → String
stored_message touched [] =
    "Stored " +++ show_ℕ (length touched) +++ " setting(s); all are in effect"
stored_message touched (note ∷ notes) =
    "Stored " +++ show_ℕ (length touched) +++ " setting(s); " +++ join "; " (note ∷ notes)

-- What `put_message` finds masked, and waiting for a restart.
abbrev pub masked : List String → Sources → List String
masked touched sources = keep (masked_by sources) touched

abbrev pub waiting : List String → List String → Sources → List String
waiting touched drift sources =
    keep (λ f. contains touched f && not (contains (masked touched sources) f)) drift

unfoldable pub put_message : List String → List String → Sources → String
unfolding keep source_get join show_ℕ
put_message touched drift sources = stored_message touched (
    counted (waiting touched drift sources) " need(s) a restart to take effect"
      (counted (masked touched sources) " not in effect, shadowed by a higher layer" []))
