-- ===== src/Admin.antt =====
-- src/routes/admin.rs: the endpoints of the administration, behind the master key. A request body is
-- the list of the entries of its JSON object, in the order of its keys. Log lines are left out, and
-- so are panics of blocking tasks.
pub mod Context
pub mod Describe
pub mod Laws
use captchapi.Prelude.{
  ℕ, suc, ◌+◌, String, Bool, true, false, not, Option, none, some, List, [], ◌∷◌, map, any, ltb,
  str_eq, ◌+++◌, if◌then◌else◌, length,
}
use captchapi.Error.{
  AppError, Result, ok, err, internal, address_unparseable, forbidden, invalid_config,
  config_not_persistable, config_not_reloadable, config_pinned, restart_not_enabled,
  address_unavailable,
}
use captchapi.Validation.{Checked, valid, invalid}
use captchapi.World.{World, Exec}
use captchapi.Sessions.Cleanup.{cleanup_expired_sessions}
use captchapi.ConfigStore.{Codec, admin_api, set, unset, visible, load}
use captchapi.Config.Text.{show_ℕ, show_bool}
use captchapi.Config.Params.{Param, by_field, Reload, live, boot, Persist, allowed, never}
use captchapi.Config.Layers.{Layer, insert, is_pinned, Source, Sources, source_get}
use captchapi.Config.Values.{Config, server_address}
use captchapi.Config.Handle.{Handle, Outcome, reload, adopt_stored, dry_run, patch, place_of}
use captchapi.Restart.{RestartHandle, request, preflight_bind}
use captchapi.Admin.Context.{
  State, Request, pure, raise, read, in_world, on_handle, check, inspect_err, count, refuse,
  add_patch, add_patch_failure, add_reload, add_reload_failure, add_restart, ◌>>=◌, ◌>>◌,
}
use captchapi.Admin.Describe.{
  ConfigResponse, StoredResponse, RestartResponse, ReloadResponse, CleanupResponse, describe,
  describe_config, shadowed, put_message,
}

-- `serde_json::Value`; a number has its text, and so has what is not a scalar.
pub data Json : Type 0 where
  text number : String → Json
  boolean : Bool → Json
  other : String → Json

abbrev pub Body : Type 0
Body = List (String × Json)

abbrev pub raw_of : String → Json → Result String
raw_of field (text s) = ok s
raw_of field (number n) = ok n
raw_of field (boolean b) = ok (show_bool b)
raw_of field (other v) = err (
    invalid_config ("`" +++ field +++ "` must be a string, number or boolean, not `" +++ v +++ "`"))

abbrev pub prepend : {A : Type 0} → Result A → Result (List A) → Result (List A)
prepend (err e) r = err e
prepend (ok a) (err e) = err e
prepend (ok a) (ok l) = ok (a ∷ l)

abbrev paired : String → Result String → Result (String × String)
paired key (ok raw) = ok (key, raw)
paired key (err e) = err e

unfoldable pub coerce : Body → Result Layer
coerce [] = ok []
coerce ((field, value) ∷ t) = prepend (paired field (raw_of field value)) (coerce t)

abbrev unknown_field : String → AppError
unknown_field field = invalid_config ("`" +++ field +++ "` is not a configuration field")

-- `admin_config_write`
abbrev pub guard_write : Request (Unit {0})
guard_write = do
  enabled ← read (λ s. s.handle.current.admin_config_write)
  if enabled
      then pure tt
      else refuse (forbidden "runtime configuration writes are disabled (ADMIN_CONFIG_WRITE=false)")

abbrev pub guard_body : Body → String → Request (Unit {0})
guard_body [] message = refuse (invalid_config message)
guard_body (x ∷ t) message = pure tt

abbrev pub lift : {A : Type 0} → Result A → Request A
lift (ok a) = pure a
lift (err e) = raise e

-- `trigger_cleanup`
unfoldable pub trigger_cleanup : Request CleanupResponse
unfolding cleanup_expired_sessions
trigger_cleanup = do
  sessions_deleted ← in_world cleanup_expired_sessions
  pure (record {
    sessions_deleted = sessions_deleted;
    message =
        if ltb 0 sessions_deleted
        then "Successfully cleaned up " +++ show_ℕ sessions_deleted +++ " expired session(s)"
        else "No expired sessions found to clean up";
  })

unfoldable pub describe_stored : String → Request StoredResponse
unfolding visible shadowed
describe_stored message = do
  stored ← in_world visible
  handle ← read (λ s. s.handle)
  pure (record {
    stored = stored;
    shadowed = shadowed handle stored;
    pending_restart = handle.pending_restart;
    message = message;
  })

unfoldable pub get_stored : Request StoredResponse
unfolding describe_stored
get_stored = describe_stored "Stored configuration"

-- The loop of `put_stored` that refuses what may not be stored.
abbrev storable : Param → Persist → Result (Unit {0})
storable p allowed = ok tt
storable p never = err (
    config_not_persistable (
      "`" +++ p.field
      +++ "` cannot be stored: it is either a secret, needed to open the database the store lives in, or consumed before the store is read"))

abbrev storable_field : String → Option Param → Result (Unit {0})
storable_field field none = err (unknown_field field)
storable_field field (some p) = storable p p.persist

abbrev then_result : {A : Type 0} → Result (Unit {0}) → Result A → Result A
then_result (ok u) r = r
then_result (err e) r = err e

unfoldable pub check_storable : Layer → Result (Unit {0})
unfolding by_field
check_storable [] = ok tt
check_storable ((field, value) ∷ t) =
    then_result (storable_field field (by_field field)) (check_storable t)

abbrev pub insert_field : Option Param → String → Layer → Layer
insert_field none value l = l
insert_field (some p) value l = insert p.env value l

-- The loop that makes the candidate.
unfoldable pub candidate_of : Layer → Layer → Layer
unfolding by_field insert
candidate_of [] l = l
candidate_of ((field, value) ∷ t) l = candidate_of t (insert_field (by_field field) value l)

abbrev with_touched : Option Param → List String → List String
with_touched none rest = rest
with_touched (some p) rest = p.field ∷ rest

unfoldable pub touched_by : Layer → List String
unfolding by_field
touched_by [] = []
touched_by ((field, value) ∷ t) = with_touched (by_field field) (touched_by t)

-- `dry_run` on the blocking pool; its refusal counts as a failed patch.
abbrev pub try_candidate : Layer → Request Config
try_candidate candidate =
    inspect_err add_patch_failure (on_handle (λ sys h. (dry_run sys candidate h, h)) invalid_config)

-- What `put_stored` does before it writes: the updates, and the layer to adopt.
unfoldable pub prepare_put : Body → Request (Layer × Layer)
unfolding coerce check_storable candidate_of dry_run
prepare_put body = do
  guard_write
  guard_body body "no fields given; supply at least one storable field"
  updates ← inspect_err add_patch_failure (lift (coerce body))
  inspect_err add_patch_failure (lift (check_storable updates))
  stored ← read (λ s. s.handle.stored)
  try_candidate (candidate_of updates stored)
  pure (updates, candidate_of updates stored)

abbrev pub unlisted : String → Option Param → Request Param
unlisted field none = refuse (unknown_field field)
unlisted field (some p) = pure p

-- `BTreeMap::remove`
unfoldable pub remove : String → Layer → Layer
remove key [] = []
remove key ((k, v) ∷ t) = let rest = remove key t in if str_eq k key then rest else (k, v) ∷ rest

unfoldable pub prepare_found : String → Option Param → Request (Param × Layer)
unfolding remove dry_run
prepare_found field found = do
  guard_write
  p ← unlisted field found
  stored ← read (λ s. s.handle.stored)
  try_candidate (remove p.env stored)
  pure (p, remove p.env stored)

-- What `delete_stored` does before it removes the row.
unfoldable pub prepare_delete : String → Request (Param × Layer)
unfolding prepare_found by_field
prepare_delete field = prepare_found field (by_field field)

module _ (c : Codec) where
  -- The write of `put_stored`, and what follows it.
  unfoldable pub commit_put : Layer × Layer → Request StoredResponse
  unfolding set adopt_stored put_message touched_by describe_stored
  commit_put (updates, candidate) = do
    in_world (set c updates admin_api)
    outcome ← on_handle (λ sys. adopt_stored sys candidate) invalid_config
    count add_patch
    sources ← read (λ s. s.handle.sources)
    describe_stored (put_message (touched_by updates) outcome.drift sources)

  unfoldable pub put_stored : Body → Request StoredResponse
  unfolding prepare_put commit_put
  put_stored body = do prepared ← prepare_put body; commit_put prepared

  abbrev pub guard_removed : String → Bool → Request (Unit {0})
  guard_removed field removed =
      if removed
      then pure tt
      else refuse
          (invalid_config ("`" +++ field +++ "` is not stored, so there is nothing to remove"))

  -- The removal of `delete_stored`, and what follows it.
  unfoldable pub commit_delete : String → Param × Layer → Request StoredResponse
  unfolding unset adopt_stored describe_stored
  commit_delete field (p, candidate) = do
    removed ← in_world (unset c field)
    guard_removed field removed
    outcome ← on_handle (λ sys. adopt_stored sys candidate) invalid_config
    describe_stored (
        if any (str_eq p.field) outcome.drift
        then "Removed `" +++ field +++ "`; a restart is needed to take effect"
        else "Removed `" +++ field +++ "`")

  unfoldable pub delete_stored : String → Request StoredResponse
  unfolding prepare_delete commit_delete
  delete_stored field = do prepared ← prepare_delete field; commit_delete field prepared

unfoldable pub get_config : Request ConfigResponse
unfolding describe
get_config = read (λ s. describe s.handle)

-- One round of the loop of `patch_config`.
abbrev pinned_or : String → Json → Param → Source → Result (String × String)
pinned_or field value p source =
    if is_pinned source
    then err (
        config_pinned (
          "`"
          +++ field
          +++ "` was set on the "
          +++ place_of source
          +++ " this server was started with; change it there and restart, or remove it to manage `"
          +++ field
          +++ "` from here"))
    else paired p.env (raw_of field value)

abbrev live_update : String → Json → Sources → Param → Reload → Result (String × String)
live_update field value sources p live = pinned_or field value p (source_get sources p.field)
live_update field value sources p boot = err (
    config_not_reloadable (
      "`" +++ field
      +++ "` is applied at startup and cannot be changed at runtime; restart with a new value"))

abbrev update_of : String → Json → Sources → Option Param → Result (String × String)
update_of field value sources none = err (unknown_field field)
update_of field value sources (some p) = live_update field value sources p p.reload

unfoldable pub updates_of : Sources → Body → Result Layer
unfolding by_field source_get is_pinned
updates_of sources [] = ok []
updates_of sources ((field, value) ∷ t) =
    prepend (update_of field value sources (by_field field)) (updates_of sources t)

unfoldable pub patch_config : Body → Request ConfigResponse
unfolding updates_of patch describe_config
patch_config body = do
  guard_write
  guard_body body "no fields given; supply at least one reloadable field"
  sources ← read (λ s. s.handle.sources)
  updates ← inspect_err add_patch_failure (lift (updates_of sources body))
  applied ← inspect_err add_patch_failure (on_handle (λ sys. patch sys updates) invalid_config)
  count add_patch
  read (λ s. describe_config applied s.handle)

abbrev reload_message : List String → String
reload_message [] = "Configuration reloaded"
reload_message (x ∷ t) =
    "Configuration reloaded; "
    +++ show_ℕ (length (x ∷ t))
    +++ " field(s) require a restart and were not applied"

unfoldable pub reload_config : Request ReloadResponse
unfolding reload describe_config
reload_config = do
  stored ← read (λ s. s.handle.stored)
  outcome ← inspect_err add_reload_failure (on_handle (λ sys. reload sys stored) invalid_config)
  count add_reload
  read λ s. record {
    config = describe_config outcome.config s.handle;
    ignored = outcome.drift;
    message = reload_message outcome.drift;
  }

abbrev restart_of : Option RestartHandle → Request RestartHandle
restart_of none =
    raise (restart_not_enabled "this server was not started in a way that can restart itself")
restart_of (some r) = pure r

abbrev request_restart : RestartHandle → Request Bool
request_restart r s = let (first, r') = request r in (ok first, record s { restart = some r' })

unfoldable pub restart_server : Request RestartResponse
unfolding dry_run server_address preflight_bind request
restart_server = do
  running ← read (λ s. s.handle.current)
  if running.admin_restart_enabled
      then pure tt
      else raise
          (restart_not_enabled "restarting from the API is disabled (ADMIN_RESTART_ENABLED=false)")
  available ← read (λ s. s.restart)
  handle ← restart_of available
  stored ← read (λ s. s.handle.stored)
  candidate ← on_handle (λ sys h. (dry_run sys stored h, h)) invalid_config
  next ←
      check (λ sys. sys.socket_addr (server_address candidate))
        λ e. invalid_config ("invalid address " +++ server_address candidate +++ ": " +++ e)
  current ←
      check (λ sys. sys.socket_addr (server_address running)) λ e. internal (address_unparseable e)
  check (λ sys. preflight_bind sys next current) address_unavailable
  applying ← read (λ s. s.handle.pending_restart)
  first ← request_restart handle
  count add_restart
  pure (record {
    applying = applying;
    message =
        if first
        then "Restarting; the server will be unavailable briefly"
        else "A restart is already in progress";
  })

-- One round of `reload_on_sighup` in src/main.rs, when the signal is received.
abbrev absorb : {A : Type 0} → Request A → State → State
absorb m s = (m s).1

unfoldable pub on_hangup : State → State
unfolding load reload
on_hangup = absorb (do
  stored ← inspect_err add_reload_failure (in_world load)
  inspect_err add_reload_failure (on_handle (λ sys. reload sys stored) invalid_config)
  count add_reload)
