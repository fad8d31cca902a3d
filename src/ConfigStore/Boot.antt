-- ===== src/ConfigStore/Boot.antt =====
-- services/config_store.rs: `prepare_boot`, which decides at startup about the newest generation, and
-- `confirm`.
pub mod Generations
pub mod Laws
pub mod Confirmed
use captchapi.Prelude.{
  ℕ, suc, ℤ, String, Bool, true, false, ◌&&◌, not, Option, none, some, List, [], ◌∷◌, ◌++◌, ltb,
  ◌==◌, length, if◌then◌else◌,
}
use captchapi.Error.{Result, ok, err, database, internal, snapshot_codec}
use captchapi.Table.{select, delete_where, is_some}
use captchapi.Config.Layers.{Layer}
use captchapi.World.{
  World, SettingRow, GenerationRow, Status, pending, confirmed, rolled_back, Exec, pure, raise,
  lift, ok_or, utc_now, statement, ◌>>=◌, ◌>>◌,
}
use captchapi.ConfigStore.{Codec, BootOutcome, clean, trying, rolled_back_to, field_of, transaction}

abbrev pub newer : GenerationRow → Option GenerationRow → Option GenerationRow
newer g none = some g
newer g (some h) = if ltb h.id g.id then some g else some h

-- SELECT … WHERE p ORDER BY id DESC LIMIT 1
unfoldable pub latest : (GenerationRow → Bool) → List GenerationRow → Option GenerationRow
latest p [] = none
latest p (g ∷ t) = let rest = latest p t in if p g then newer g rest else rest

abbrev pub any_row : GenerationRow → Bool
any_row g = true

abbrev pub has_status : Status → Status → Bool
has_status pending pending = true
has_status confirmed confirmed = true
has_status rolled_back rolled_back = true
has_status _ _ = false

abbrev pub is_confirmed : GenerationRow → Bool
is_confirmed g = has_status g.status confirmed

-- UPDATE config_generations SET … WHERE id = ?
unfoldable pub update_generation :
    ℕ → (GenerationRow → GenerationRow) → List GenerationRow → List GenerationRow
update_generation id f [] = []
update_generation id f (g ∷ t) = (if g.id == id then f g else g) ∷ update_generation id f t

abbrev pub send_update : ℕ → (GenerationRow → GenerationRow) → Exec (Unit {0})
send_update id f =
    statement λ w. (ok tt, record w { generations = update_generation id f w.generations })

-- The loop that restores the settings of a snapshot.
unfoldable pub restore_each : ℤ → Layer → Exec (Unit {0})
restore_each now [] = pure tt
restore_each now ((field, value) ∷ t) = do
  statement λ w. if is_some (select field_of field w.settings) then (err database, w) else (
    ok tt,
    record w {
      settings =
          w.settings
          ++ record { field = field; value = value; updated_at = now; updated_by = "rollback" }
            ∷ [];
    },
  )
  restore_each now t

module _ (c : Codec) where
  -- The settings to go back to: the newest confirmed snapshot, or none.
  abbrev pub snapshot_to_restore : Option GenerationRow → Result Layer
  snapshot_to_restore none = ok []
  snapshot_to_restore (some g) = elim (c.decode g.snapshot) [
    | none ↦ err (internal snapshot_codec)
    | some l ↦ ok l
  ]

  -- The newest generation was tried before and did not survive.
  unfoldable pub roll_back : ℕ → Exec BootOutcome
  unfolding latest update_generation restore_each
  roll_back id = do
    found ← statement λ w. (ok (latest is_confirmed w.generations), w)
    restore ← lift (snapshot_to_restore found)
    statement λ w. (ok tt, record w { settings = [] })
    now ← utc_now
    restore_each now restore
    send_update id (λ g. record g { status = rolled_back })
    pure (rolled_back_to id (length restore))

  -- A pending generation: tried for the first time, or rolled back.
  abbrev pub try_or_roll_back : GenerationRow → Exec BootOutcome
  try_or_roll_back g =
      if g.attempts == 0
      then (do send_update g.id (λ x. record x { attempts = suc x.attempts }); pure (trying g.id))
      else roll_back g.id

  abbrev pub decide : Option GenerationRow → Exec BootOutcome
  decide none = pure (clean none)
  decide (some g) =
      if has_status g.status pending then try_or_roll_back g else pure (clean (some g.id))

  abbrev pub decide_newest : Exec BootOutcome
  decide_newest = do newest ← statement λ w. (ok (latest any_row w.generations), w); decide newest

  unfoldable pub prepare_boot : Exec BootOutcome
  unfolding latest update_generation transaction
  prepare_boot = transaction decide_newest

-- The UPDATE of `confirm`, WHERE id = ? AND status = 'pending', and how many rows it affects.
unfoldable pub confirm_pending : ℕ → List GenerationRow → List GenerationRow
confirm_pending id [] = []
confirm_pending id (g ∷ t) =
    (if g.id == id && has_status g.status pending then record g { status = confirmed } else g)
    ∷ confirm_pending id t

unfoldable pub affected_pending : ℕ → List GenerationRow → ℕ
affected_pending id [] = 0
affected_pending id (g ∷ t) =
    let rest = affected_pending id t in
    if g.id == id && has_status g.status pending then suc rest else rest

-- DELETE FROM config_generations WHERE id < ?
abbrev pub older_than : ℕ → GenerationRow → Bool
older_than id g = ltb g.id id

-- The body of the transaction of `confirm`.
abbrev pub confirm_and_prune : ℕ → Exec Bool
confirm_and_prune id = do
  updated ← statement λ w. (
    ok (affected_pending id w.generations),
    record w { generations = confirm_pending id w.generations },
  )
  if ltb 0 updated
      then (statement
          λ w. (ok true, record w { generations = delete_where (older_than id) w.generations }))
      else pure false

unfoldable pub confirm : ℕ → Exec Bool
unfolding confirm_pending affected_pending transaction
confirm id = transaction (confirm_and_prune id)
