-- ===== src/Config/Handle/Laws.antt =====
-- What the operations of a handle accept, and what they leave in it.
use captchapi.Prelude.{String, none, [], ◌≡◌, refl, arith}
use mathlib.Core.Path.{subst}
use captchapi.Validation.{Checked, valid, invalid}
use captchapi.Config.Layers.{Layer, LayeredEnv, Sources, get, get_in}
use captchapi.Config.Values.{Config, with_boot_fields_from, boot_layer, boot_drift, ◌>>=◌}
use captchapi.Config.Values.Laws.{
  IsValid, valid-injective, Holds, bind-Holds, from_env_provider-Holds,
}
use captchapi.Config.Values.Carry.{with_live_defaults, from_env_provider-boot_layer}
use captchapi.Config.Values.Merge.{boot_drift_none}
use captchapi.Config.Files.{System}
use captchapi.Config.Handle.{
  Handle, Outcome, reload, adopt_stored, dry_run, patch, publish, override, commit,
  resolve_with_carry, environment_of, EnvSource,
}
use captchapi.Config.Handle.History.{History, start, reloaded, adopted, patched}
use captchapi.Cli.{Layers, load_layers, stack, resolve_stack, Cli}

anything : {A : Type 0} (m : Checked String A) → Holds (λ a. Unit {0}) m
anything (valid a) = tt
anything (invalid e) = tt

abbrev IsResolved : Config × Sources → Type 0
IsResolved r = IsValid r.0

resolve_stack-Holds : (l : LayeredEnv) → Holds IsResolved (resolve_stack l)
unfolding resolve_stack
resolve_stack-Holds l = bind-Holds IsValid IsResolved _ _ (from_env_provider-Holds (get l)) λ c v. v

resolve_with_carry-Holds :
    (sys : System) (c : Cli) (current : Config) (o st : Layer) (e : EnvSource)
    → Holds IsResolved (resolve_with_carry sys c current o st e)
unfolding resolve_with_carry
resolve_with_carry-Holds sys c current o st e =
    bind-Holds (λ l. Unit {0}) IsResolved _ _ (anything _)
      λ l u. resolve_stack-Holds (
        stack (record l { overlay = o; stored = st; carried = boot_layer current })
          (environment_of sys e))

-- The merge of two valid configurations.
merged-IsValid : (c r : Config) → IsValid c → IsValid r → IsValid (with_boot_fields_from c r)
unfolding with_boot_fields_from
merged-IsValid c r v w = record {
  api_key_salt = v.api_key_salt;
  master_api_key = v.master_api_key;
  solution_hash_secret = v.solution_hash_secret;
  image_encryption_secret = v.image_encryption_secret;
  server_port = v.server_port;
  database_max_connections = v.database_max_connections;
  default_session_ttl_seconds = w.default_session_ttl_seconds;
  max_session_ttl_seconds = w.max_session_ttl_seconds;
  max_validation_attempts = w.max_validation_attempts;
  cleanup_interval_seconds = w.cleanup_interval_seconds;
  rate_limit_requests_per_second = v.rate_limit_requests_per_second;
  rate_limit_burst_size = v.rate_limit_burst_size;
  captcha_compression = w.captcha_compression;
}

committed-Holds :
    {A B : Type 0} (Q : A → Type 0) (P : Handle → Type 0) (h : Handle) (f : A → B × Handle)
    (m : Checked String A)
    → P h
    → Holds Q m
    → ((a : A) → Q a → P (f a).1)
    → P (commit h f m).1
committed-Holds Q P h f (invalid e) p q k = p
committed-Holds Q P h f (valid a) p q k = k a q

abbrev RunsValid : Handle → Type 0
RunsValid h = IsValid h.current

-- If the server starts on a configuration in range, then after any sequence of reloads, adoptions and
-- patches, successful or not, it still runs on one.
pub history-IsValid : (h h' : Handle) → History h h' → IsValid h.current → IsValid h'.current
unfolding reload adopt_stored patch publish override
history-IsValid h _ start v = v
history-IsValid h _ (reloaded sys stored h' past) v =
    let before = history-IsValid h h' past v in
    committed-Holds IsResolved RunsValid h' (publish [] stored h') _ before
      (resolve_with_carry-Holds sys h'.cli h'.current [] stored h'.env)
      λ r w. merged-IsValid h'.current r.0 before w
history-IsValid h _ (adopted sys stored h' past) v =
    let before = history-IsValid h h' past v in
    committed-Holds IsResolved RunsValid h' (publish h'.overlay stored h') _ before
      (resolve_with_carry-Holds sys h'.cli h'.current h'.overlay stored h'.env)
      λ r w. merged-IsValid h'.current r.0 before w
history-IsValid h _ (patched sys updates h' past) v =
    let before = history-IsValid h h' past v in
    committed-Holds IsResolved RunsValid h' (override _ h') _ before
      (bind-Holds (λ u. Unit {0}) IsResolved _ _ (anything _)
        λ u a.
          bind-Holds (λ u. Unit {0}) IsResolved _ _ (anything _)
            λ u a.
              bind-Holds (λ u. Unit {0}) IsResolved _ _ (anything _)
                λ u a. resolve_with_carry-Holds sys h'.cli h'.current _ h'.stored h'.env)
      λ r w. merged-IsValid h'.current r.0 before w

-- What an adoption leaves of a configuration that was accepted.
abbrev pub IsAdopted : Layer → Handle → Config → Checked String Outcome × Handle → Type 0
IsAdopted stored h c (r, h') =
    let merged = with_boot_fields_from h.current c in
    (r ≡ valid (record { config = merged; drift = boot_drift h.current c }))
    × (h'.current ≡ merged)
    × (h'.stored ≡ stored)
    × (h'.overlay ≡ h.overlay)
    × (h'.pending_restart ≡ boot_drift h.current c)

abbrev resolved_of : Config × Sources → Checked String Config
resolved_of (resolved, sources) = valid resolved

accepted :
    (stored : Layer) (h : Handle) (m : Checked String (Config × Sources))
    → let answer = commit h (publish h.overlay stored h) m in
      ((c : Config) → (m >>= resolved_of) ≡ valid c → IsAdopted stored h c answer)
      × ((e : String) → (m >>= resolved_of) ≡ invalid e → answer ≡ (invalid e, h))
unfolding publish ◌>>=◌
accepted stored h (invalid x) = (λ c bad. absurd (ground arith), λ e same. ground arith)
accepted stored h (valid (resolved, sources)) = (
  λ c same.
      subst
        (λ c.
          IsAdopted stored h c (commit h (publish h.overlay stored h) (valid (resolved, sources))))
        (valid-injective resolved c same) (refl, refl, refl, refl, refl),
  λ e bad. absurd (ground arith),
)

-- What `dry_run` accepts is what `adopt_stored` applies at the same files: the running configuration
-- with the live fields of what `dry_run` answers, the boot-only differences reported as pending, and
-- the overrides kept. What `dry_run` refuses, `adopt_stored` refuses with the same error, and it
-- changes nothing.
pub dry_run-adopt_stored :
    (sys : System) (stored : Layer) (h : Handle)
    → ((c : Config)
        → dry_run sys stored h ≡ valid c
        → IsAdopted stored h c (adopt_stored sys stored h))
      × ((e : String)
          → dry_run sys stored h ≡ invalid e
          → adopt_stored sys stored h ≡ (invalid e, h))
unfolding dry_run adopt_stored
dry_run-adopt_stored sys stored h =
    accepted stored h (resolve_with_carry sys h.cli h.current h.overlay stored h.env)

silent :
    (l : LayeredEnv) (key : String)
    → get (record l { carried = [] }) key ≡ none
    → get l key ≡ get_in key l.carried
unfolding get get_in
silent l key h = ground arith

-- A reload does not need what only the start needs. If every source of configuration falls silent, as
-- when the secret files are unmounted, a reload without stored settings still succeeds: the boot-only
-- fields stay, the others have their defaults, and nothing is reported as pending.
pub reload_survives :
    (sys : System) (h : Handle) (layers : Layers)
    → IsValid h.current
    → load_layers sys h.cli ≡ valid layers
    → ((key : String)
        → get
            (stack
              (record layers { overlay = []; stored = []; carried = [] })
              (environment_of sys h.env))
            key
          ≡ none)
    → let (r, h') = reload sys [] h in
      (r ≡ valid (record { config = with_live_defaults h.current; drift = [] }))
      × (h'.current ≡ with_live_defaults h.current)
unfolding reload resolve_with_carry resolve_stack publish stack with_boot_fields_from ◌>>=◌
reload_survives sys h layers v loaded quiet =
    let l : LayeredEnv =
      stack (record layers { overlay = []; stored = []; carried = boot_layer h.current })
        (environment_of sys h.env) in
    rw
      (
        loaded,
        from_env_provider-boot_layer h.current (get l) v (λ key. silent l key (quiet key)),
        boot_drift_none h.current (with_live_defaults h.current),
      )
      (refl, refl)
