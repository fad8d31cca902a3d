-- ===== src/Sessions/Validate.antt =====
-- validate_session_orchestrated: what each outcome says of the session, and what it leaves.
use captchapi.Prelude.{
  suc, ◌+◌, ℤ, pos, ◌<ℤ◌, ◌≤ℤ◌, String, ◌≡◌, refl, Bool, true, false, Option, none, some, arith,
  Option-cases, inl, inr, eq_iff, max_ℤ, sub_i64, ◌⊎◌, Bool-cases, pos_part, sym, ◌≢◌, neg_part,
  if◌then◌else◌,
}
use captchapi.Error.{ok, err, session_not_found, Result, database}
use captchapi.Models.{SessionRow, session_from_row}
use mathlib.Core.Path.{subst}
use native.Mathlib.Decide.{dec_le}
use captchapi.Table.{select}
use captchapi.Table.Laws.{select-delete, select-update}
use captchapi.Crypto.{verify_solution}
use captchapi.World.{World}
use captchapi.Storage.Sessions.{session_id, increment}
use captchapi.Sessions.{
  Services, ValidationOutcome, correct, wrong, max_attempts_exceeded, validate_session_orchestrated,
}

-- The row of a session in the database.
abbrev pub row_in : World → String → Option SessionRow
row_in w id = select session_id id w.sessions

module _ (s : Services) (id guess : String) (max : ℤ) (w : World) where
  abbrev pub matches : SessionRow → Bool
  matches row = verify_solution s.primitives s.solution_key row.id guess row.solution_hash

  -- A session that is stored, and not expired at the clock reading of the request.
  pub record IsLive (row : SessionRow) : Type 0 where
    pub stored : row_in w id ≡ some row
    pub live : w.outside.now (suc w.step) ≤ℤ row.expires_at

  -- The statement that reads the session is refused, or the one that changes a live session with
  -- attempts left.
  abbrev pub IsRefused : Type 0
  IsRefused =
      (w.outside.fails w.step ≡ true)
      ⊎ ((row : SessionRow) × IsLive row
          × (row.attempt_count <ℤ max)
          × (w.outside.fails (suc (suc w.step)) ≡ true))

  -- What a result says of the database `w` before and of the database `w'` after.
  abbrev pub Explained : Result ValidationOutcome → World → Type 0
  Explained (ok correct) w' =
      (row : SessionRow) × IsLive row
      × (row.attempt_count <ℤ max)
      × (matches row ≡ true)
      × (row_in w' id ≡ none)
  Explained (ok (wrong remaining)) w' =
      (row : SessionRow) × IsLive row
      × (row.attempt_count <ℤ max)
      × (matches row ≡ false)
      × (row_in w' id ≡ some (increment row))
      × (remaining ≡ max_ℤ (sub_i64 (sub_i64 max row.attempt_count) (pos 1)) (pos 0))
  Explained (ok max_attempts_exceeded) w' =
      (row : SessionRow) × IsLive row
      × (max ≤ℤ row.attempt_count)
      × (row_in w' id ≡ (if w.outside.fails (suc (suc w.step)) then row_in w id else none))
  Explained (err e) w' =
      ((e ≡ database) × IsRefused × (row_in w' id ≡ row_in w id))
      ⊎ ((e ≡ session_not_found)
          × ((row_in w id ≡ none)
              ⊎ ((row : SessionRow) × (row_in w id ≡ some row)
                  × (row.expires_at <ℤ w.outside.now (suc w.step))))
          × (row_in w' id ≡ (if w.outside.fails (suc (suc w.step)) then row_in w id else none)))

  Explained-missing :
      row_in w id ≡ none
      → let (r, w') = validate_session_orchestrated s id guess max w in Explained r w'
  unfolding validate_session_orchestrated session_from_row
  Explained-missing missing = ground arith

  module _ (row : SessionRow) (found : row_in w id ≡ some row) where
    abbrev result : Result ValidationOutcome
    result = (validate_session_orchestrated s id guess max w).0

    abbrev after : World
    after = (validate_session_orchestrated s id guess max w).1

    Explained-as :
        (r : Result ValidationOutcome) → result ≡ r → Explained r after → Explained result after
    Explained-as r e = subst (λ x. Explained x after) (sym e)

    -- The statement that reads the session is refused.
    Explained-refused : w.outside.fails w.step ≡ true → Explained result after
    unfolding validate_session_orchestrated
    Explained-refused down =
        Explained-as (err database) (ground arith) (inl (refl, inl down, ground arith))

    module _ (up : w.outside.fails w.step ≡ false) where
      Explained-expired : row.expires_at <ℤ w.outside.now (suc w.step) → Explained result after
      unfolding validate_session_orchestrated session_from_row
      Explained-expired late = Explained-as (err session_not_found) (ground arith) (
          inr (
            refl,
            inr (row, found, late),
            ground (arith, select-delete session_id id id w.sessions, eq_iff id id),
          ))

      module _ (live : w.outside.now (suc w.step) ≤ℤ row.expires_at) where
        Explained-exceeded : max ≤ℤ row.attempt_count → Explained result after
        unfolding validate_session_orchestrated session_from_row
        Explained-exceeded full = Explained-as (ok max_attempts_exceeded) (ground arith) (
          row,
          record { stored = found; live = live },
          full,
          ground (arith, select-delete session_id id id w.sessions, eq_iff id id),
        )

        module _ (left : row.attempt_count <ℤ max) where
          Explained-matching : matches row ≡ true → Explained result after
          unfolding validate_session_orchestrated session_from_row
          Explained-matching same = elim (Bool-cases (w.outside.fails (suc (suc w.step)))) [
            | inl down ↦ Explained-as (err database) (ground arith) (
                inl (
                  refl,
                  inr (row, record { stored = found; live = live }, left, down),
                  ground arith,
                ))
            | inr fine ↦ Explained-as (ok correct) (ground arith) (
              row,
              record { stored = found; live = live },
              left,
              same,
              ground (arith, select-delete session_id id id w.sessions, eq_iff id id),
            )
          ]

          Explained-mismatch : matches row ≡ false → Explained result after
          unfolding validate_session_orchestrated session_from_row
          Explained-mismatch other = elim (Bool-cases (w.outside.fails (suc (suc w.step)))) [
            | inl down ↦ Explained-as (err database) (ground arith) (
                inl (
                  refl,
                  inr (row, record { stored = found; live = live }, left, down),
                  ground arith,
                ))
            | inr fine ↦
                Explained-as
                  (ok (wrong (max_ℤ (sub_i64 (sub_i64 max row.attempt_count) (pos 1)) (pos 0))))
                  (ground arith)
                  (
                    row,
                    record { stored = found; live = live },
                    left,
                    other,
                    ground (
                      arith,
                      select-update session_id id id increment w.sessions (λ r. refl),
                      eq_iff id id,
                    ),
                    refl,
                  )
          ]

      Explained-live : w.outside.now (suc w.step) ≤ℤ row.expires_at → Explained result after
      Explained-live live =
          elim (dec_le (pos_part max + neg_part row.attempt_count)
            (pos_part row.attempt_count + neg_part max)) [
              | yes full ↦ Explained-exceeded live full
              | no fewer ↦ elim (Bool-cases (matches row)) [
                | inl same ↦ Explained-matching live (omega arith) same
                | inr other ↦ Explained-mismatch live (omega arith) other
              ]
            ]

    Explained-found : Explained result after
    Explained-found = elim (Bool-cases (w.outside.fails w.step)) [
      | inl down ↦ Explained-refused down
      | inr up ↦
          elim (dec_le (pos_part (w.outside.now (suc w.step)) + neg_part row.expires_at)
            (pos_part row.expires_at + neg_part (w.outside.now (suc w.step)))) [
              | yes live ↦ Explained-live up live
              | no late ↦ Explained-expired up (omega arith)
            ]
    ]

  -- Every result of a validation, and what it leaves in the database, is explained by the session
  -- as it was stored. `Correct`: the session was stored and not expired, fewer than the maximum of
  -- attempts were counted, the guess matches the stored hash, and the session is gone. `Wrong`: the
  -- same but the guess does not match; the session has one attempt more, and the attempts remaining
  -- are as counted. `MaxAttemptsExceeded`: the session was stored and not expired and the maximum
  -- was reached; it is gone, unless the database refused to delete it. A database error: the
  -- session is as it was, and the database refused the statement that reads it, or the one that
  -- changes it while it is live and has attempts left. Any other error is `SessionNotFound`: the
  -- session was not stored, or expired, and then it is gone, unless the database refused to delete
  -- it.
  pub validate_session-Explained :
      Explained
        (validate_session_orchestrated s id guess max w).0
        (validate_session_orchestrated s id guess max w).1
  validate_session-Explained = elim (Option-cases (row_in w id)) [
    | inl missing ↦ Explained-missing missing
    | inr (row, found) ↦ Explained-found row found
  ]

  -- A validation of one session leaves every other session as it was, whatever it returns.
  pub validate_session_frame :
      (j : String)
      → id ≢ j
      → row_in (validate_session_orchestrated s id guess max w).1 j ≡ row_in w j
  unfolding validate_session_orchestrated session_from_row
  validate_session_frame j other = ground (
    arith,
    eq_iff id j,
    select-delete session_id id j w.sessions,
    select-update session_id id j increment w.sessions (λ r. refl),
  )
