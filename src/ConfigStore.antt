-- ===== src/ConfigStore.antt =====
-- src/services/config_store.rs: settings kept in the database, and the bookkeeping of generations by
-- which a configuration that does not survive is rolled back.
-- A transaction is refused as a whole if the database refuses any statement of it, its begin or its
-- commit. `serde_json` is a parameter: snapshots are written and read back.
pub mod Boot
pub mod Laws
pub mod Written
pub mod Removed
pub mod Numbering
use captchapi.Prelude.{
  ℕ, suc, ◌≡◌, ℤ, String, Bool, true, false, ◌&&◌, not, Option, none, some, List, [], ◌∷◌, ◌++◌,
  ltb, ◌==◌, str_eq, length, if◌then◌else◌,
}
use captchapi.Error.{
  Result, ok, err, database, internal, snapshot_codec, config_not_persistable, invalid_config,
}
use captchapi.Table.{select, delete, affected, delete_where, is_some}
use captchapi.Config.Params.{Param, by_field, Persist, allowed, never}
use captchapi.Config.Layers.{Layer, insert}
use captchapi.World.{
  World, SettingRow, GenerationRow, Status, pending, confirmed, rolled_back, Exec, pure, raise,
  lift, ok_or, utc_now, tick, statement, ◌>>=◌, ◌>>◌,
}

pub data WrittenBy : Type 0 where
  admin_api cli : WrittenBy

abbrev pub label : WrittenBy → String
label admin_api = "admin-api"
label cli = "cli"

pub data BootOutcome : Type 0 where
  clean : Option ℕ → BootOutcome
  trying : ℕ → BootOutcome
  rolled_back_to : ℕ → ℕ → BootOutcome

-- `serde_json::to_string` and `from_str` on maps of texts.
pub record Codec : Type 0 where
  pub encode : Layer → Option String
  pub decode : String → Option Layer
  -- What was written is read back.
  pub decode-encode : (l : Layer) (json : String) → encode l ≡ some json → decode json ≡ some l

abbrev pub field_of : SettingRow → String
field_of r = r.field

-- Rows as the map of field and value that they are collected into.
unfoldable pub entries : List SettingRow → Layer
entries [] = []
entries (r ∷ t) = (r.field, r.value) ∷ entries t

-- `pool.begin()`, the statements, and `tx.commit()`, or the rollback when one of them fails.
abbrev pub undo : World → World → World
undo w w' = record w' {
  settings = w.settings;
  generations = w.generations;
  next_generation = w.next_generation;
}

abbrev pub close : {A : Type 0} → World → Result A → World → Result A × World
close w (err e) w' = (err e, undo w w')
close w (ok a) w' =
    if w'.outside.fails w'.step then (err database, undo w (tick w')) else (ok a, tick w')

unfoldable pub transaction : {A : Type 0} → Exec A → Exec A
transaction m w =
    if w.outside.fails w.step
    then (err database, tick w)
    else (let (r, w') = m (tick w) in close w r w')

-- `all`
unfoldable pub all_settings : Exec Layer
unfolding entries
all_settings = statement λ w. (ok (entries w.settings), w)

-- The loop of `honoured`: unknown fields and fields that may not be stored are dropped.
abbrev pub keep_allowed : Persist → Param → String → List (Param × String) → List (Param × String)
keep_allowed allowed p value rest = (p, value) ∷ rest
keep_allowed never p value rest = rest

abbrev pub keep_known : Option Param → String → List (Param × String) → List (Param × String)
keep_known none value rest = rest
keep_known (some p) value rest = keep_allowed p.persist p value rest

unfoldable pub keep_honoured : Layer → List (Param × String)
keep_honoured [] = []
keep_honoured ((field, value) ∷ t) = keep_known (by_field field) value (keep_honoured t)

unfoldable pub honoured : Exec (List (Param × String))
unfolding all_settings keep_honoured
honoured = do rows ← all_settings; pure (keep_honoured rows)

-- The collection of `load` into a layer, keyed by canonical key, and that of `visible`, keyed by
-- field name: later entries replace earlier ones.
unfoldable pub by_key : List (Param × String) → Layer → Layer
by_key [] l = l
by_key ((p, value) ∷ t) l = by_key t (insert p.env value l)

unfoldable pub by_name : List (Param × String) → Layer → Layer
by_name [] l = l
by_name ((p, value) ∷ t) l = by_name t (insert p.field value l)

unfoldable pub load : Exec Layer
unfolding honoured by_key
load = do kept ← honoured; pure (by_key kept [])

unfoldable pub visible : Exec Layer
unfolding honoured by_name
visible = do kept ← honoured; pure (by_name kept [])

-- One round of `check_writable`.
abbrev pub writable : Param → Result (Unit {0})
writable p = elim p.persist [ allowed ↦ ok tt | never ↦ err (config_not_persistable p.field) ]

abbrev pub known : String → Option Param → Result (Unit {0})
known field none = err (invalid_config field)
known field (some p) = writable p

abbrev pub and_then : Result (Unit {0}) → Result (Unit {0}) → Result (Unit {0})
and_then (ok a) r = r
and_then (err e) r = err e

unfoldable pub check_writable : Layer → Result (Unit {0})
check_writable [] = ok tt
check_writable ((field, value) ∷ t) = and_then (known field (by_field field)) (check_writable t)

-- INSERT … ON CONFLICT(field) DO UPDATE
unfoldable pub upsert : SettingRow → List SettingRow → List SettingRow
upsert r [] = r ∷ []
upsert r (x ∷ t) = if str_eq x.field r.field then r ∷ t else x ∷ upsert r t

-- The loop of `set`.
unfoldable pub write_each : ℤ → String → Layer → Exec (Unit {0})
unfolding upsert
write_each now by [] = pure tt
write_each now by ((field, value) ∷ t) = do
  statement λ w. (
    ok tt,
    record w {
      settings =
          upsert (record { field = field; value = value; updated_at = now; updated_by = by })
            w.settings;
    },
  )
  write_each now by t

module _ (c : Codec) where
  -- `open_generation`
  unfoldable pub open_generation : ℤ → Exec ℕ
  unfolding all_settings
  open_generation now = do
    snapshot ← all_settings
    json ← ok_or (c.encode snapshot) (internal snapshot_codec)
    statement λ w. (
      ok w.next_generation,
      record w {
        generations =
            record {
              id = w.next_generation;
              created_at = now;
              snapshot = json;
              status = pending;
              attempts = 0;
            }
            ∷ w.generations;
        next_generation = suc w.next_generation;
      },
    )

  -- The body of the transaction of `set`.
  abbrev pub write_all : ℤ → WrittenBy → Layer → Exec ℕ
  write_all now by updates = do write_each now (label by) updates; open_generation now

  unfoldable pub set : Layer → WrittenBy → Exec ℕ
  set updates by = do
    lift (check_writable updates)
    now ← utc_now
    transaction (write_all now by updates)

  -- The end of `unset` and of `clear`: a generation only when something changed.
  abbrev pub record_change : ℤ → ℕ → Exec (Unit {0})
  record_change now deleted =
      if ltb 0 deleted then (do id ← open_generation now; pure tt) else pure tt

  -- The bodies of the transactions of `unset` and of `clear`.
  abbrev pub remove : ℤ → String → Exec Bool
  remove now field = do
    deleted ← statement λ w. (
      ok (affected field_of field w.settings),
      record w { settings = delete field_of field w.settings },
    )
    record_change now deleted
    pure (ltb 0 deleted)

  abbrev pub remove_all : ℤ → Exec ℕ
  remove_all now = do
    deleted ← statement λ w. (ok (length w.settings), record w { settings = [] })
    record_change now deleted
    pure deleted

  unfoldable pub unset : String → Exec Bool
  unset field = do now ← utc_now; transaction (remove now field)

  unfoldable pub clear : Exec ℕ
  clear = do now ← utc_now; transaction (remove_all now)
