-- ===== src/ConfigStore/Numbering.antt =====
-- The generations stay in the order of their numbers, and the one to go back to stays, whatever the
-- store does.
mod Target
use captchapi.ConfigStore.Numbering.Target.{
  IsBelow, IsUnconfirmed, newest-IsUnconfirmed, latest-update_generation, latest-confirm,
}
use captchapi.Prelude.{
  ◌++◌, Option-cases, Bool-cases, inl, inr, some, ◌≡◌, refl, ℕ, suc, ◌<◌, arith, List, [], ◌∷◌, All,
  if◌then◌else◌, String, ℤ, Bool, ◌==◌, ◌&&◌, ltb, Option, false, true, sym, ◌∙◌, ◌⊎◌,
}
use mathlib.Core.Path.{subst}
use captchapi.Error.{Result-cases}
use captchapi.Table.{delete_where}
use captchapi.Config.Layers.{Layer}
use captchapi.World.{confirmed, pending, SettingRow, World, GenerationRow, Exec, tick}
use captchapi.ConfigStore.{
  upsert, entries, Codec, WrittenBy, transaction, write_each, open_generation, write_all, set,
  remove, unset, remove_all, clear, label, affected, length, record_change, field_of, delete,
}
use captchapi.ConfigStore.Boot.Laws.{mark_rolled_back, count_attempt}
use captchapi.ConfigStore.Boot.{
  latest, newer, any_row, is_confirmed, affected_pending, snapshot_to_restore, send_update,
  has_status, update_generation, confirm_pending, older_than, confirm_and_prune, confirm,
  decide_newest, prepare_boot, restore_each, roll_back,
}
use captchapi.ConfigStore.Boot.Confirmed.{IsDescending, as_confirmed, older_gone}

-- Every generation has a smaller number than the next one will get, and the newest come first.
abbrev pub IsNumbered : World → Type 0
IsNumbered w = IsBelow w.next_generation w.generations × IsDescending w.generations

-- Numbered, and with the generation that a rollback goes back to, if there is one.
abbrev pub IsKept : Option GenerationRow → World → Type 0
IsKept target w = IsNumbered w × (latest is_confirmed w.generations ≡ target)

abbrev Keeps : {A : Type 0} → Exec A → Type 0
Keeps m = (target : Option GenerationRow) (w : World) → IsKept target w → IsKept target (m w).1

same-IsKept :
    (target : Option GenerationRow) (w w' : World)
    → w'.generations ≡ w.generations
    → w'.next_generation ≡ w.next_generation
    → IsKept target w
    → IsKept target w'
same-IsKept target w w' same next h = rw (same, next) h

transaction-Keeps : {A : Type 0} (m : Exec A) → Keeps m → Keeps (transaction m)
unfolding transaction
transaction-Keeps m keeps target w h = ground (arith, keeps target (tick w) h)

IsBelow-weaken : (n : ℕ) (t : List GenerationRow) → IsBelow n t → IsBelow (suc n) t
IsBelow-weaken n [] h = tt
IsBelow-weaken n (g ∷ t) h = (omega (arith, h.0), IsBelow-weaken n t h.1)

-- The worlds that `open_generation` can leave.
opened :
    (c : Codec) (now : ℤ) (w : World) (json : String)
    → c.encode (entries w.settings) ≡ some json
    → (P : World → Type 0) → P (tick w)
    → P (tick (tick w))
    → P (record (tick (tick w)) {
      generations =
          record {
            id = w.next_generation;
            created_at = now;
            snapshot = json;
            status = pending;
            attempts = 0;
          }
          ∷ w.generations;
      next_generation = suc w.next_generation;
    })
    → P (open_generation c now w).1
unfolding open_generation
opened c now w json encoded P one two added = elim (Bool-cases (w.outside.fails w.step)) [
  | inl down ↦ rw (down) one
  | inr up ↦ elim (Bool-cases (w.outside.fails (suc w.step))) [
    | inl down ↦ rw (up, encoded, down) two
    | inr up' ↦ rw (up, encoded, up') added
  ]
]

open_generation-Keeps : (c : Codec) (now : ℤ) → Keeps (open_generation c now)
unfolding open_generation latest
open_generation-Keeps c now target w h = elim (Option-cases (c.encode (entries w.settings))) [
  | inl unencoded ↦ ground arith
  | inr (json, encoded) ↦
      let g : GenerationRow = record {
        id = w.next_generation;
        created_at = now;
        snapshot = json;
        status = pending;
        attempts = 0;
      } in
      let w' : World = record (tick (tick w)) {
        generations = g ∷ w.generations;
        next_generation = suc w.next_generation;
      } in
      let (numbered, found) = h in
      let added : IsKept target w' = (
        (
          (omega arith, IsBelow-weaken w.next_generation w.generations numbered.0),
          (numbered.0, numbered.1),
        ),
        found,
      ) in
      opened c now w json encoded (λ x. IsKept target x) h h added
]

write_each-frame :
    (now : ℤ) (by : String) (updates : Layer) (w : World)
    → ((write_each now by updates w).1.generations ≡ w.generations)
      × ((write_each now by updates w).1.next_generation ≡ w.next_generation)
unfolding write_each
write_each-frame now by [] w = (refl, refl)
write_each-frame now by ((field, value) ∷ t) w =
    let r : SettingRow = record {
      field = field;
      value = value;
      updated_at = now;
      updated_by = by;
    } in
    ground (arith, write_each-frame now by t (record (tick w) { settings = upsert r w.settings }))

update-IsBelow :
    (id n : ℕ) (f : GenerationRow → GenerationRow) (t : List GenerationRow)
    → ((g : GenerationRow) → (f g).id ≡ g.id)
    → IsBelow n t
    → IsBelow n (update_generation id f t)
unfolding update_generation
update-IsBelow id n f [] keeps h = tt
update-IsBelow id n f (g ∷ t) keeps h = ground (arith, keeps g, update-IsBelow id n f t keeps h.1)

update-IsDescending :
    (id : ℕ) (f : GenerationRow → GenerationRow) (t : List GenerationRow)
    → ((g : GenerationRow) → (f g).id ≡ g.id)
    → IsDescending t
    → IsDescending (update_generation id f t)
unfolding update_generation
update-IsDescending id f [] keeps h = tt
update-IsDescending id f (g ∷ t) keeps h =
    let same : (if g.id == id then f g else g).id ≡ g.id = ground (arith, keeps g) in
    (rw (same) (update-IsBelow id g.id f t keeps h.0), update-IsDescending id f t keeps h.1)

confirm-IsBelow :
    (id n : ℕ) (t : List GenerationRow) → IsBelow n t → IsBelow n (confirm_pending id t)
unfolding confirm_pending
confirm-IsBelow id n [] h = tt
confirm-IsBelow id n (g ∷ t) h = ground (arith, confirm-IsBelow id n t h.1)

confirm-IsDescending :
    (id : ℕ) (t : List GenerationRow) → IsDescending t → IsDescending (confirm_pending id t)
unfolding confirm_pending
confirm-IsDescending id [] h = tt
confirm-IsDescending id (g ∷ t) h =
    let same : (if g.id == id && has_status g.status pending
          then record g { status = confirmed }
          else g).id
        ≡ g.id =
      ground arith in
    (rw (same) (confirm-IsBelow id g.id t h.0), confirm-IsDescending id t h.1)

prune-IsBelow :
    (p : GenerationRow → Bool) (n : ℕ) (t : List GenerationRow)
    → IsBelow n t
    → IsBelow n (delete_where p t)
unfolding delete_where
prune-IsBelow p n [] h = tt
prune-IsBelow p n (g ∷ t) h = ground (arith, prune-IsBelow p n t h.1)

prune-IsDescending :
    (p : GenerationRow → Bool) (t : List GenerationRow)
    → IsDescending t
    → IsDescending (delete_where p t)
unfolding delete_where
prune-IsDescending p [] h = tt
prune-IsDescending p (g ∷ t) h =
    ground (arith, prune-IsBelow p g.id t h.0, prune-IsDescending p t h.1)

write_all-Keeps :
    (c : Codec) (now : ℤ) (by : WrittenBy) (updates : Layer) → Keeps (write_all c now by updates)
write_all-Keeps c now by updates target w h =
    let (same, next) = write_each-frame now (label by) updates w in
    let w' = (write_each now (label by) updates w).1 in
    let written : IsKept target w' = same-IsKept target w w' same next h in
    ground (arith, open_generation-Keeps c now target w' written)

record_change-Keeps : (c : Codec) (now : ℤ) (deleted : ℕ) → Keeps (record_change c now deleted)
record_change-Keeps c now deleted target w h =
    ground (arith, open_generation-Keeps c now target w h)

remove-Keeps : (c : Codec) (now : ℤ) (field : String) → Keeps (remove c now field)
remove-Keeps c now field target w h =
    let n = affected field_of field w.settings in
    let w' : World = record (tick w) { settings = delete field_of field w.settings } in
    ground (arith, record_change-Keeps c now n target w' h)

remove_all-Keeps : (c : Codec) (now : ℤ) → Keeps (remove_all c now)
remove_all-Keeps c now target w h =
    let w' : World = record (tick w) { settings = [] } in
    ground (arith, record_change-Keeps c now (length w.settings) target w' h)

-- What `confirm` may do to the generation to go back to.
abbrev pub IsConfirmed : ℕ → Option GenerationRow → World → Type 0
IsConfirmed id target w =
    IsNumbered w
    × ((latest is_confirmed w.generations ≡ target)
        ⊎ ((g : GenerationRow) × (g.id ≡ id) × (latest is_confirmed w.generations ≡ some g)))

confirm-none :
    (id : ℕ) (t : List GenerationRow) → affected_pending id t ≡ 0 → confirm_pending id t ≡ t
unfolding affected_pending confirm_pending
confirm-none id [] h = refl
confirm-none id (g ∷ t) h = elim (Bool-cases (g.id == id && has_status g.status pending)) [
  | inl marked ↦ absurd (ground arith)
  | inr passed ↦ rw (passed, confirm-none id t (ground (arith, h, passed))) refl
]

restore_each-frame :
    (now : ℤ) (l : Layer) (w : World)
    → ((restore_each now l w).1.generations ≡ w.generations)
      × ((restore_each now l w).1.next_generation ≡ w.next_generation)
unfolding restore_each
restore_each-frame now [] w = (refl, refl)
restore_each-frame now ((field, value) ∷ t) w =
    let r : SettingRow = record {
      field = field;
      value = value;
      updated_at = now;
      updated_by = "rollback";
    } in
    ground (arith, restore_each-frame now t (record (tick w) { settings = w.settings ++ r ∷ [] }))

send_update-IsKept :
    (target : Option GenerationRow) (id : ℕ) (f : GenerationRow → GenerationRow) (w : World)
    → ((g : GenerationRow) → (f g).id ≡ g.id)
    → ((g : GenerationRow) → is_confirmed g ≡ false → is_confirmed (f g) ≡ false)
    → IsUnconfirmed id w.generations
    → IsKept target w
    → IsKept target (send_update id f w).1
send_update-IsKept target id f w keeps status free h =
    let below = update-IsBelow id w.next_generation f w.generations keeps h.0.0 in
    let down = update-IsDescending id f w.generations keeps h.0.1 in
    let same = latest-update_generation id f w.generations status free in
    elim (Bool-cases (w.outside.fails w.step)) [
      | inl refused ↦ rw refused h
      | inr sent ↦ rw sent ((below, down), same ∙ h.1)
    ]

roll_back-IsKept :
    (c : Codec) (target : Option GenerationRow) (id : ℕ) (w : World)
    → IsUnconfirmed id w.generations
    → IsKept target w
    → IsKept target (roll_back c id w).1
unfolding roll_back
roll_back-IsKept c target id w free h =
    elim (Result-cases (snapshot_to_restore c (latest is_confirmed w.generations))) [
      | inr (e, unread) ↦ ground arith
      | inl (l, read) ↦
          let now = w.outside.now (suc (suc w.step)) in
          let w1 : World = record w { settings = []; step = suc (suc (suc w.step)) } in
          let w2 = (restore_each now l w1).1 in
          let (same, next) = restore_each-frame now l w1 in
          let restored : IsKept target w2 = same-IsKept target w1 w2 same next h in
          let still : IsUnconfirmed id w2.generations = rw same free in
          ground (
            arith,
            send_update-IsKept target id mark_rolled_back w2 (λ g. refl) (λ g e. refl) still
                restored,
          )
    ]

decide_newest-Keeps : (c : Codec) → Keeps (decide_newest c)
decide_newest-Keeps c target w h = elim (Option-cases (latest any_row w.generations)) [
  | inl empty ↦ ground arith
  | inr (g, newest) ↦ elim (Bool-cases (has_status g.status pending)) [
    | inr settled ↦ ground arith
    | inl waiting ↦
        let free = newest-IsUnconfirmed w.generations g h.0.1 newest waiting in
        ground (
          arith,
          send_update-IsKept target g.id count_attempt (tick w) (λ x. refl) (λ x e. e) free h,
          roll_back-IsKept c target g.id (tick w) free h,
        )
  ]
]

-- What `confirm` leaves: the generations as they were, or confirmed and pruned.
confirm-generations :
    (id : ℕ) (w : World)
    → ((confirm id w).1.next_generation ≡ w.next_generation)
      × (((confirm id w).1.generations ≡ w.generations)
          ⊎ ((0 < affected_pending id w.generations)
              × ((confirm id w).1.generations
                  ≡ delete_where (older_than id) (confirm_pending id w.generations))))
unfolding confirm
confirm-generations id w = ground (arith, confirm-none id w.generations)

confirm-IsConfirmed :
    (id : ℕ) (w : World)
    → IsNumbered w
    → IsConfirmed id (latest is_confirmed w.generations) (confirm id w).1
confirm-IsConfirmed id w h =
    let t = confirm_pending id w.generations in
    let (next, left) = confirm-generations id w in
    elim left [
      | inl same ↦ rw (next, same) (h, inl refl)
      | inr (hit, pruned) ↦
          rw (next, pruned)
            (
              (
                prune-IsBelow _ _ t (confirm-IsBelow id _ _ h.0),
                prune-IsDescending _ t (confirm-IsDescending id _ h.1),
              ),
              latest-confirm id w.generations h.1 hit,
            )
    ]

-- No write of the store loses the generation that a rollback goes back to, whatever the write
-- returns and whichever of its statements the database refuses: from generations in descending
-- order of numbers, all smaller than the next one, setting, removing and clearing settings, and
-- deciding at a start, keep that generation as it is; confirming keeps it or puts the generation
-- confirmed in its place. They also keep the order.
pub writes-IsKept :
    (c : Codec) (w : World) (updates : Layer) (by : WrittenBy) (field : String) (id : ℕ)
    → IsNumbered w
    → let target = latest is_confirmed w.generations in
      IsKept target (set c updates by w).1
      × IsKept target (unset c field w).1
      × IsKept target (clear c w).1
      × IsKept target (prepare_boot c w).1
      × IsConfirmed id target (confirm id w).1
unfolding set unset clear prepare_boot
writes-IsKept c w updates by field id h =
    let now = w.outside.now w.step in
    let target = latest is_confirmed w.generations in
    let written : IsKept target (transaction (write_all c now by updates) (tick w)).1 =
      transaction-Keeps (write_all c now by updates) (write_all-Keeps c now by updates) target
        (tick w) (h, refl) in
    (
      ground arith,
      transaction-Keeps (remove c now field) (remove-Keeps c now field) target (tick w) (h, refl),
      transaction-Keeps (remove_all c now) (remove_all-Keeps c now) target (tick w) (h, refl),
      transaction-Keeps (decide_newest c) (decide_newest-Keeps c) target w (h, refl),
      confirm-IsConfirmed id w h,
    )
