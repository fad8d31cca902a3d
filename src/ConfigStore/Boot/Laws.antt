-- ===== src/ConfigStore/Boot/Laws.antt =====
-- A configuration that does not survive its first boot is rolled back on the next one.
use captchapi.Prelude.{◌≡◌, refl, ℕ, suc, length, false, some, Option, arith, [], ◌⊎◌, inr}
use mathlib.Core.Option
use captchapi.Error.{ok}
use captchapi.Config.Layers.{Layer}
use captchapi.World.{World, GenerationRow, pending, rolled_back, confirmed, tick}
use captchapi.ConfigStore.{Codec, entries, trying, rolled_back_to, clean}
use captchapi.ConfigStore.Boot.{
  latest, prepare_boot, any_row, is_confirmed, snapshot_to_restore, update_generation, restore_each,
  roll_back,
}
use captchapi.ConfigStore.Boot.Generations.{IsApart, latest-update, restore_each_lem, hit}

abbrev pub count_attempt : GenerationRow → GenerationRow
count_attempt x = record x { attempts = suc x.attempts }

abbrev pub mark_rolled_back : GenerationRow → GenerationRow
mark_rolled_back x = record x { status = rolled_back }

-- The database refuses no statement.
abbrev pub IsUp : World → Type 0
IsUp w = (n : ℕ) → w.outside.fails n ≡ false

roll_back_lem :
    (c : Codec) (w : World) (up : IsUp w) (id : ℕ) (l : Layer)
    → snapshot_to_restore c (latest is_confirmed w.generations) ≡ ok l
    → IsApart [] l
    → let (r, w') = roll_back c id w in
      (r ≡ ok (rolled_back_to id (length l)))
      × (entries w'.settings ≡ l)
      × (w'.outside ≡ w.outside)
      × (w'.generations ≡ update_generation id mark_rolled_back w.generations)
unfolding roll_back entries
roll_back_lem c w up id l target apart =
    let w1 : World = record w { settings = []; step = suc (suc (suc w.step)) } in
    let now = w.outside.now (suc (suc w.step)) in
    let (returned, listed, kept, same) = restore_each_lem now l w1 up apart in
    let last = up (restore_each now l w1).1.step in
    let first = up w.step in
    let next = up (suc w.step) in (ground arith, ground arith, ground arith, ground arith)

module _ (c : Codec) (w : World) (up : IsUp w) (g : GenerationRow)
    (newest : latest any_row w.generations ≡ some g) where
  first_boot :
      g.status ≡ pending
      → g.attempts ≡ 0
      → let (r, w') = prepare_boot c w in
        (r ≡ ok (trying g.id))
        × (w'.settings ≡ w.settings)
        × (w'.outside ≡ w.outside)
        × (w'.generations ≡ update_generation g.id count_attempt w.generations)
  unfolding prepare_boot
  first_boot waiting untried =
      ground (arith, up w.step, up (suc w.step), up (suc (suc w.step)), up (suc (suc (suc w.step))))

  pub settled_boot :
      (g.status ≡ confirmed) ⊎ (g.status ≡ rolled_back)
      → let (r, w') = prepare_boot c w in
        (r ≡ ok (clean (some g.id))) × (w'.settings ≡ w.settings) × (w'.generations ≡ w.generations)
  unfolding prepare_boot
  settled_boot settled = ground (arith, up w.step, up (suc w.step), up (suc (suc w.step)))

  second_boot :
      (l : Layer)
      → g.status ≡ pending
      → g.attempts ≡ 1
      → snapshot_to_restore c (latest is_confirmed w.generations) ≡ ok l
      → IsApart [] l
      → let (r, w') = prepare_boot c w in
        (r ≡ ok (rolled_back_to g.id (length l)))
        × (entries w'.settings ≡ l)
        × (w'.outside ≡ w.outside)
        × (w'.generations ≡ update_generation g.id mark_rolled_back w.generations)
  unfolding prepare_boot
  second_boot l waiting tried target apart =
      let w1 = tick (tick w) in
      let (returned, listed, same, marked) = roll_back_lem c w1 up g.id l target apart in
      let last = up (roll_back c g.id w1).1.step in
      let first = up w.step in
      let next = up (suc w.step) in (ground arith, ground arith, ground arith, ground arith)

attempted : (g : GenerationRow) → hit g.id count_attempt g ≡ count_attempt g
attempted g = ground arith

marked :
    (g : GenerationRow)
    → hit g.id mark_rolled_back (count_attempt g) ≡ mark_rolled_back (count_attempt g)
marked g = ground arith

target-hit :
    (c : Codec) (id : ℕ) (o : Option GenerationRow)
    → snapshot_to_restore c (Option.map (hit id count_attempt) o) ≡ snapshot_to_restore c o
target-hit c id Option.none = refl
target-hit c id (some h) = ground arith

-- With the database up, a newest generation that waits untried is tried by the first start, which
-- keeps the settings; if the process then dies before it confirms, the second start rolls back: the
-- settings become the snapshot `l` of the newest confirmed generation, or nothing when there is none,
-- whenever that snapshot can be read and names no field twice; and the third start finds the
-- generation settled and keeps what was restored.
pub crash_recovery :
    (c : Codec) (w : World) (g : GenerationRow) (l : Layer)
    → IsUp w
    → latest any_row w.generations ≡ some g
    → g.status ≡ pending
    → g.attempts ≡ 0
    → snapshot_to_restore c (latest is_confirmed w.generations) ≡ ok l
    → IsApart [] l
    → let (r1, w1) = prepare_boot c w in
      let (r2, w2) = prepare_boot c w1 in
      let (r3, w3) = prepare_boot c w2 in
      (r1 ≡ ok (trying g.id))
      × (w1.settings ≡ w.settings)
      × (r2 ≡ ok (rolled_back_to g.id (length l)))
      × (entries w2.settings ≡ l)
      × (r3 ≡ ok (clean (some g.id)))
      × (w3.settings ≡ w2.settings)
crash_recovery c w g l up newest waiting untried target apart =
    let (r1, s1, o1, g1) = first_boot c w up g newest waiting untried in
    let w1 = (prepare_boot c w).1 in
    let up1 : IsUp w1 = rw (o1) up in
    let newest1 : latest any_row w1.generations ≡ some (count_attempt g) = ground (
      arith,
      attempted g,
      latest-update any_row g.id count_attempt w.generations (λ x. refl) (λ x. refl),
    ) in
    let target1 : snapshot_to_restore c (latest is_confirmed w1.generations) ≡ ok l = ground (
      arith,
      target-hit c g.id (latest is_confirmed w.generations),
      latest-update is_confirmed g.id count_attempt w.generations (λ x. refl) (λ x. refl),
    ) in
    let (r2, s2, o2, g2) =
      second_boot c w1 up1 (count_attempt g) newest1 l waiting (ground arith) target1 apart in
    let w2 = (prepare_boot c w1).1 in
    let up2 : IsUp w2 = rw (o2) up1 in
    let newest2 : latest any_row w2.generations ≡ some (mark_rolled_back (count_attempt g)) =
      ground (
        arith,
        marked g,
        latest-update any_row g.id mark_rolled_back w1.generations (λ x. refl) (λ x. refl),
      ) in
    let (r3, s3, g3) =
      settled_boot c w2 up2 (mark_rolled_back (count_attempt g)) newest2 (inr refl) in
    (r1, s1, r2, s2, r3, s3)
