-- ===== src/ConfigStore/Laws.antt =====
-- Theorems on the settings kept in the database (services/config_store.rs): what a write leaves
-- when it fails, what a write stores, and what is shown of what is stored.
use captchapi.Error.{AppError, err}
use captchapi.Config.Layers.{Layer}
use captchapi.Prelude.{◌≡◌, arith}
use captchapi.World.{tick, World, Exec}
use captchapi.ConfigStore.{
  write_all, remove, remove_all, WrittenBy, transaction, unset, clear, set, Codec, String, ℕ,
}
use captchapi.ConfigStore.Boot.{decide_newest, confirm_and_prune, prepare_boot, confirm}

-- The tables that the store writes are as before.
pub record IsUndone (w w' : World) : Type 0 where
  pub settings : w'.settings ≡ w.settings
  pub generations : w'.generations ≡ w.generations
  pub next_generation : w'.next_generation ≡ w.next_generation

transaction_undoes :
    {A : Type 0} (m : Exec A) (w : World) (e : AppError)
    → (transaction m w).0 ≡ err e
    → IsUndone w (transaction m w).1
unfolding transaction
transaction_undoes m w e h = record {
  settings = ground arith;
  generations = ground arith;
  next_generation = ground arith;
}

ticked : (w w' : World) → IsUndone (tick w) w' → IsUndone w w'
ticked w w' h = record {
  settings = h.settings;
  generations = h.generations;
  next_generation = h.next_generation;
}

-- What each write of the store leaves when it fails.
abbrev pub IsAtomic : {A : Type 0} → Exec A → World → Type 0
IsAtomic m w = (e : AppError) → (m w).0 ≡ err e → IsUndone w (m w).1

-- A `set`, `unset`, `clear`, `prepare_boot` or `confirm` that fails, at whichever of its statements,
-- leaves the settings, the generations and their counter as they were.
pub writes_are-IsAtomic :
    (c : Codec) (w : World) (updates : Layer) (by : WrittenBy) (field : String) (id : ℕ)
    → IsAtomic (set c updates by) w
      × IsAtomic (unset c field) w
      × IsAtomic (clear c) w
      × IsAtomic (prepare_boot c) w
      × IsAtomic (confirm id) w
unfolding set unset clear prepare_boot confirm
writes_are-IsAtomic c w updates by field id =
    let now = w.outside.now w.step in
    (
      λ e h. ground (arith, transaction_undoes (write_all c now by updates) (tick w) e),
      λ e h. ticked w _ (transaction_undoes (remove c now field) (tick w) e h),
      λ e h. ticked w _ (transaction_undoes (remove_all c now) (tick w) e h),
      λ e h. transaction_undoes (decide_newest c) w e h,
      λ e h. transaction_undoes (confirm_and_prune id) w e h,
    )
