-- ===== src/ConfigStore/Written.antt =====
-- What `set` stores, and what `visible` shows.
use captchapi.Prelude.{
  ◌≡◌, str_eq, eq_iff, if◌then◌else◌, arith, some, none, refl, ◌∷◌, [], Bool-cases, inl, sym, inr,
  Option-cases, All, ap, ◌∙◌,
}
use captchapi.Error.{ok}
use captchapi.Table.{select}
use captchapi.World.{World, SettingRow, GenerationRow, pending}
use captchapi.Config.Params.{Param, by_field, allowed, Persist, never}
use captchapi.Config.Layers.{Layer, get_in, insert, ◌or_else◌}
use captchapi.Config.Params.Facts.{by_field_guards}
use captchapi.Config.Layers.Laws.{get_in-insert}
use captchapi.ConfigStore.{
  upsert, field_of, write_each, check_writable, set, visible, Codec, entries, keep_honoured,
  by_name, Option, String, ℤ, List, tick, WrittenBy, known, ℕ, open_generation, transaction,
  write_all, Exec, label, false, keep_known, true, keep_allowed,
}

-- What the table says of a field.
abbrev pub value_of : Option SettingRow → Option String
value_of none = none
value_of (some r) = some r.value

select-upsert :
    (r : SettingRow) (j : String) (t : List SettingRow)
    → select field_of j (upsert r t) ≡ (if str_eq r.field j then some r else select field_of j t)
unfolding select upsert
select-upsert r j [] = ground (arith)
select-upsert r j (x ∷ t) =
    ground (arith, eq_iff x.field r.field, eq_iff x.field j, eq_iff r.field j, select-upsert r j t)

-- A map names no field twice.
abbrev pub IsMap : Layer → Type 0
IsMap [] = Unit
IsMap ((field, value) ∷ t) = (get_in field t ≡ none) × IsMap t

write_each_lem :
    (now : ℤ) (by : String) (updates : Layer) (j : String) (w : World)
    → IsMap updates
    → let (r, w') = write_each now by updates w in
      r ≡ ok tt
      → (value_of (select field_of j w'.settings)
          ≡ (get_in j updates or_else value_of (select field_of j w.settings)))
        × (w'.generations ≡ w.generations)
        × (w'.next_generation ≡ w.next_generation)
unfolding write_each get_in
write_each_lem now by [] j w h e = (refl, refl, refl)
write_each_lem now by ((field, value) ∷ t) j w h e =
    let r : SettingRow = record {
      field = field;
      value = value;
      updated_at = now;
      updated_by = by;
    } in
    let w' : World = record (tick w) { settings = upsert r w.settings } in
    ground (arith, write_each_lem now by t j w' h.1, select-upsert r j w.settings, eq_iff field j)

-- A field that may be stored in the database.
abbrev pub IsStorable : String → Type 0
IsStorable field = (p : Param) × (by_field field ≡ some p) × (p.persist ≡ allowed)

known-IsStorable :
    (field : String) (o : Option Param)
    → by_field field ≡ o
    → known field o ≡ ok tt
    → IsStorable field
known-IsStorable field none e h = absurd (ground arith)
known-IsStorable field (some p) e h = (p, e, ground arith)

check_writable_lem :
    (updates : Layer) (field value : String)
    → check_writable updates ≡ ok tt
    → get_in field updates ≡ some value
    → IsStorable field
unfolding check_writable get_in
check_writable_lem [] field value h e = absurd (ground arith)
check_writable_lem ((f, v) ∷ t) field value h e = elim (Bool-cases (str_eq f field)) [
  | inl same ↦
      rw (sym ((eq_iff f field).0 same)) (known-IsStorable f (by_field f) refl (ground arith))
  | inr other ↦ check_writable_lem t field value (ground arith) (ground arith)
]

-- A transaction that succeeds ran its body and committed.
pub transaction_commits :
    {A : Type 0} (m : Exec A) (w : World) (a : A)
    → (transaction m w).0 ≡ ok a
    → ((m (tick w)).0 ≡ ok a) × ((transaction m w).1 ≡ tick (m (tick w)).1)
unfolding transaction
transaction_commits m w a h = ground arith

abbrev waiting_generation : ℕ → ℤ → String → GenerationRow
waiting_generation id now json = record {
  id = id;
  created_at = now;
  snapshot = json;
  status = pending;
  attempts = 0;
}

pub open_generation_lem :
    (c : Codec) (now : ℤ) (w : World) (id : ℕ)
    → (open_generation c now w).0 ≡ ok id
    → let w' = (open_generation c now w).1 in
      (json : String) × (c.encode (entries w'.settings) ≡ some json)
      × (w'.generations ≡ waiting_generation w.next_generation now json ∷ w.generations)
      × (id ≡ w.next_generation)
      × (w'.settings ≡ w.settings)
unfolding open_generation
open_generation_lem c now w id h = elim (Option-cases (c.encode (entries w.settings))) [
  | inl unencoded ↦ absurd (ground arith)
  | inr (json, e) ↦ (json, ground arith, ground arith, ground arith, ground arith)
]

-- What a successful `set` with the new generation `id` leaves in the world `w'`.
pub record IsStored (c : Codec) (updates : Layer) (w w' : World) (id : ℕ) : Type 0 where
  -- Every field has its new value, or the one it had.
  pub values :
      (field : String)
      → value_of (select field_of field w'.settings)
        ≡ (get_in field updates or_else value_of (select field_of field w.settings))
  -- Only fields that may be stored were written.
  pub storable : (field value : String) → get_in field updates ≡ some value → IsStorable field
  -- The new generation waits, untried, and holds the settings.
  pub generation : GenerationRow
  pub added : w'.generations ≡ generation ∷ w.generations
  pub numbered : (generation.id ≡ id) × (id ≡ w.next_generation)
  pub waiting : (generation.status ≡ pending) × (generation.attempts ≡ 0)
  pub holds : c.decode generation.snapshot ≡ some (entries w'.settings)

-- A `set` that succeeds wrote exactly the fields it was given, all of which may be stored, keeps all
-- other settings, and adds one generation, which waits untried, has the next number, and whose
-- snapshot reads back as the settings that the table now has.
pub set_stores :
    (c : Codec) (w : World) (updates : Layer) (by : WrittenBy) (id : ℕ)
    → IsMap updates
    → (set c updates by w).0 ≡ ok id
    → IsStored c updates w (set c updates by w).1 id
unfolding set
set_stores c w updates by id one h =
    let now = w.outside.now w.step in
    let body = transaction_commits (write_all c now by updates) (tick w) id (ground arith) in
    let w2 = tick (tick w) in
    let w3 = (write_each now (label by) updates w2).1 in
    let (json, encoded, added, number, kept) = open_generation_lem c now w3 id (ground arith) in
    let settings : (set c updates by w).1.settings ≡ w3.settings = ground (arith) in
    let written =
      λ (field : String). write_each_lem now (label by) updates field w2 one (ground arith) in
    record {
      values = λ field. rw (settings) ((written field).0);
      storable = λ field value e. check_writable_lem updates field value (ground arith) e;
      generation = waiting_generation w.next_generation now json;
      added = ground (arith, written "");
      numbered = ground (arith, written "");
      waiting = (refl, refl);
      holds = c.decode-encode (entries (set c updates by w).1.settings) json (ground arith);
    }

-- A field that may be shown: it may be stored, and it is no secret.
abbrev pub IsShowable : String → Type 0
IsShowable field =
    (p : Param) × (by_field field ≡ some p) × (p.persist ≡ allowed) × (p.secret ≡ false)

abbrev IsHonoured : Param × String → Type 0
IsHonoured (p, value) = IsShowable p.field

keep_allowed-All :
    (x : Persist) (p : Param) (value : String) (rest : List (Param × String))
    → (x ≡ allowed → IsShowable p.field)
    → All IsHonoured rest
    → All IsHonoured (keep_allowed x p value rest)
keep_allowed-All allowed p value rest shown h = (shown refl, h)
keep_allowed-All never p value rest shown h = h

not_secret :
    (p : Param) → p.persist ≡ allowed → (p.secret ≡ true → p.persist ≡ never) → p.secret ≡ false
not_secret p h guarded = ground arith

keep_known-All :
    (field value : String) (o : Option Param) (rest : List (Param × String))
    → by_field field ≡ o
    → All IsHonoured rest
    → All IsHonoured (keep_known o value rest)
keep_known-All field value none rest e h = h
keep_known-All field value (some p) rest e h =
    let (named, guarded) = by_field_guards field p e in
    keep_allowed-All p.persist p value rest
      (λ storable.
        (p, ap by_field named ∙ e, storable, not_secret p storable (λ hidden. (guarded hidden).0)))
      h

keep_honoured-All : (rows : Layer) → All IsHonoured (keep_honoured rows)
unfolding keep_honoured
keep_honoured-All [] = tt
keep_honoured-All ((field, value) ∷ t) =
    keep_known-All field value (by_field field) (keep_honoured t) refl (keep_honoured-All t)

by_name-IsShowable :
    (kept : List (Param × String)) (l : Layer) (field value : String)
    → All IsHonoured kept
    → ((value : String) → get_in field l ≡ some value → IsShowable field)
    → get_in field (by_name kept l) ≡ some value
    → IsShowable field
unfolding by_name
by_name-IsShowable [] l field value h before e = before value e
by_name-IsShowable ((p, v) ∷ t) l field value h before e =
    by_name-IsShowable t (insert p.field v l) field value h.1
      (λ new got. elim (Bool-cases (str_eq p.field field)) [
        | inl same ↦ rw (sym ((eq_iff p.field field).0 same)) h.0
        | inr other ↦ before new (ground (arith, get_in-insert p.field v field l))
      ])
      e

-- `visible` lists a field only if the table of parameters has it, it may be stored, and it is no
-- secret, whatever rows the database holds.
pub visible_is_safe :
    (w : World) (l : Layer) (field value : String)
    → (visible w).0 ≡ ok l
    → get_in field l ≡ some value
    → IsShowable field
unfolding visible get_in
visible_is_safe w l field value h e =
    let rows = entries w.settings in
    by_name-IsShowable (keep_honoured rows) [] field value (keep_honoured-All rows)
      (λ new got. absurd (ground arith)) (ground arith)
