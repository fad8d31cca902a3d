-- ===== src/Sessions/Attempts.antt =====
-- How often a session can be guessed at: histories of validation requests, one after another.
use captchapi.Prelude.{
  int_laws, +ℤ_parts, ℕ, ◌⊎◌, ◌<ℤ◌, ◌+◌, ◌-◌, ◌≤◌, ℤ, pos, pos_part, neg_part, String, ◌≡◌, refl,
  Option, none, some, List, [], ◌∷◌, arith, eq_iff, str_eq, if◌then◌else◌,
}
use captchapi.Error.{Result, ok, err}
use captchapi.Models.{SessionRow, session_from_row}
use captchapi.Table.Laws.{select-delete, select-update}
use captchapi.World.{World}
use captchapi.Storage.Sessions.{session_id, increment}
use captchapi.Sessions.{
  Services, ValidationOutcome, correct, wrong, max_attempts_exceeded, validate_session_orchestrated,
}
use captchapi.Sessions.Validate.{
  Explained, validate_session-Explained, row_in, validate_session_frame,
}

abbrev pub is_wrong : Result ValidationOutcome → ℕ
is_wrong (ok (wrong k)) = 1
is_wrong _ = 0

abbrev pub is_correct : Result ValidationOutcome → ℕ
is_correct (ok correct) = 1
is_correct _ = 0

-- The attempts that a row leaves below the maximum.
abbrev left_of : ℤ → Option SessionRow → ℕ
left_of max none = 0
left_of max (some row) =
    pos_part max + neg_part row.attempt_count - (neg_part max + pos_part row.attempt_count)

abbrev there : Option SessionRow → ℕ
there none = 0
there (some row) = 1

left-increment :
    (max : ℤ) (row : SessionRow)
    → row.attempt_count <ℤ max
    → 1 + left_of max (some (increment row)) ≤ left_of max (some row)
left-increment max row h = omega (int_laws, +ℤ_parts row.attempt_count (pos 1))

module _ (s : Services) (max : ℤ) (id : String) where
  -- The attempts that the session has left, and whether it is stored.
  abbrev pub attempts_left : World → ℕ
  attempts_left w = left_of max (row_in w id)

  abbrev pub stored : World → ℕ
  stored w = there (row_in w id)

  -- How many requests for the session, in a run of requests for any sessions, are answered that
  -- the guess is wrong, and that it is correct.
  pub wrongs : World → List (String × String) → ℕ
  wrongs w [] = 0
  wrongs w ((j, guess) ∷ rest) =
      let (r, w') = validate_session_orchestrated s j guess max w in
      let later = wrongs w' rest in if str_eq j id then is_wrong r + later else later

  pub corrects : World → List (String × String) → ℕ
  corrects w [] = 0
  corrects w ((j, guess) ∷ rest) =
      let (r, w') = validate_session_orchestrated s j guess max w in
      let later = corrects w' rest in if str_eq j id then is_correct r + later else later

  -- Every result other than `Wrong` leaves the row as it was, or takes it away.
  step_not_wrong :
      (guess : String) (w : World)
      → let (r, w') = validate_session_orchestrated s id guess max w in
        is_wrong r ≡ 0 → (row_in w' id ≡ none) ⊎ (row_in w' id ≡ row_in w id)
  unfolding validate_session_orchestrated session_from_row
  step_not_wrong guess w = ground (arith, eq_iff id id, select-delete session_id id id w.sessions)

  step-Explained :
      (guess : String) (w w' : World) (r : Result ValidationOutcome)
      → Explained s id guess max w r w'
      → (is_wrong r ≡ 0 → (row_in w' id ≡ none) ⊎ (row_in w' id ≡ row_in w id))
      → is_wrong r + attempts_left w' ≤ attempts_left w
  step-Explained guess w w' (ok (wrong k)) (row, live, fewer, _, counted, _) same =
      rw (counted, live.stored) (left-increment max row fewer)
  step-Explained guess w w' (ok correct) e same = ground (arith, same refl)
  step-Explained guess w w' (ok max_attempts_exceeded) e same = ground (arith, same refl)
  step-Explained guess w w' (err e) x same = ground (arith, same refl)

  step_left :
      (guess : String) (w : World)
      → let (r, w') = validate_session_orchestrated s id guess max w in
        is_wrong r + attempts_left w' ≤ attempts_left w
  step_left guess w =
      step-Explained guess w _ _ (validate_session-Explained s id guess max w)
        (step_not_wrong guess w)

  step_stored :
      (guess : String) (w : World)
      → let (r, w') = validate_session_orchestrated s id guess max w in
        is_correct r + stored w' ≤ stored w
  unfolding validate_session_orchestrated session_from_row
  step_stored guess w = ground (
    arith,
    eq_iff id id,
    select-delete session_id id id w.sessions,
    select-update session_id id id increment w.sessions (λ r. refl),
  )

  wrongs_bounded :
      (w : World) (requests : List (String × String)) → wrongs w requests ≤ attempts_left w
  unfolding wrongs
  wrongs_bounded w [] = omega arith
  wrongs_bounded w ((j, guess) ∷ rest) = ground (
    arith,
    eq_iff j id,
    step_left guess w,
    validate_session_frame s j guess max w id,
    wrongs_bounded (validate_session_orchestrated s j guess max w).1 rest,
  )

  corrects_bounded :
      (w : World) (requests : List (String × String)) → corrects w requests ≤ stored w
  unfolding corrects
  corrects_bounded w [] = omega arith
  corrects_bounded w ((j, guess) ∷ rest) = ground (
    arith,
    eq_iff j id,
    step_stored guess w,
    validate_session_frame s j guess max w id,
    corrects_bounded (validate_session_orchestrated s j guess max w).1 rest,
  )

  -- Whatever validation requests are served one after another, for whichever sessions and with
  -- whatever refusals of the database in between: a session answers `Wrong` at most as often as it
  -- had attempts left below the maximum, and `Correct` at most once, and never if it was not stored.
  pub validation_bounded :
      (w : World) (requests : List (String × String))
      → (wrongs w requests ≤ attempts_left w) × (corrects w requests ≤ stored w)
  validation_bounded w requests = (wrongs_bounded w requests, corrects_bounded w requests)
