-- ===== src/Sessions/Create.antt =====
-- create_session_orchestrated, and what can be done with the session afterwards.
use mathlib.Core.Path.{subst}
use captchapi.Prelude.{
  suc, pos, ◌≡◌, none, some, arith, eq_iff, ℤ, String, false, ℕ, length, ◌<ℤ◌, ◌≤ℤ◌, List, add_i64,
  as_i64,
}
use captchapi.Error.{ok}
use captchapi.Models.{Session, session_from_row, session_new}
use captchapi.Crypto.Laws.{verify_solution-hash_solution, decrypt-encrypt}
use captchapi.Table.Laws.{select-insert}
use captchapi.Crypto.{hash_solution, encrypt, decrypt}
use captchapi.Validation.{ValidatedSessionParams}
use captchapi.World.{World}
use captchapi.Storage.Sessions.{session_id, row_of}
use captchapi.Sessions.{
  judge, Services, CreatedSession, create_session_orchestrated, get_session_image_orchestrated,
  validate_session_orchestrated, correct,
}
use captchapi.Sessions.Validate.{row_in}

-- A row of the table is read back as the session that was written.
pub session_from_row-row_of : (x : Session) → session_from_row (row_of x) ≡ x
unfolding session_from_row row_of
session_from_row-row_of x = ground arith

module _ (s : Services) (params : ValidatedSessionParams) (w : World) where
  -- A new session as it stands in the database `w'`.
  pub record IsFresh (c : CreatedSession) (w' : World) : Type 0 where
    pub absent : row_in w c.session.id ≡ none
    pub stored : row_in w' c.session.id ≡ some (row_of c.session)
    pub unused : c.session.attempt_count ≡ pos 0
    pub lifetime : c.session.expires_at ≡ add_i64 c.session.created_at (as_i64 params.expires_in)
    pub difficulty : c.session.difficulty ≡ params.difficulty
    pub width : c.session.width ≡ params.width
    pub height : c.session.height ≡ params.height
    pub hashed :
        c.session.solution_hash ≡ hash_solution s.primitives s.solution_key c.session.id c.solution
    pub sealed :
        encrypt s.primitives s.image_key
          (w.outside.nonce (suc (suc w.step)))
          c.session.id
          c.image_bytes
        ≡ ok c.session.image_encrypted

  pub made_IsFresh :
      (c : CreatedSession)
      → (create_session_orchestrated s params w).0 ≡ ok c
      → IsFresh c (create_session_orchestrated s params w).1
  unfolding create_session_orchestrated session_new
  made_IsFresh c made = record {
    absent = ground arith;
    stored = ground (
      arith,
      select-insert session_id (row_of c.session) c.session.id w.sessions,
      eq_iff c.session.id c.session.id,
    );
    unused = ground arith;
    lifetime = ground arith;
    difficulty = ground arith;
    width = ground arith;
    height = ground arith;
    hashed = ground arith;
    sealed = ground arith;
  }

module _ (s : Services) (w' : World) (x : Session) (stored : row_in w' x.id ≡ some (row_of x)) where
  -- A stored session, read while it has not expired, comes back as it was written.
  validate_stored :
      (guess : String) (max : ℤ)
      → w'.outside.fails w'.step ≡ false
      → w'.outside.now (suc w'.step) ≤ℤ x.expires_at
      → validate_session_orchestrated s x.id guess max w'
        ≡ judge s x.id guess max x (record w' { step = suc (suc w'.step) })
  unfolding validate_session_orchestrated
  validate_stored guess max up live = ground (arith, session_from_row-row_of x)

  image_stored :
      w'.outside.fails w'.step ≡ false
      → w'.outside.now (suc w'.step) ≤ℤ x.expires_at
      → {image : List ℕ} → decrypt s.primitives s.image_key x.id x.image_encrypted ≡ ok image
      → (get_session_image_orchestrated s x.id w').0 ≡ ok (x, image)
  unfolding get_session_image_orchestrated
  image_stored up live opened = ground (arith, session_from_row-row_of x)

-- The solution itself is judged correct on the first attempt.
solved :
    (s : Services) (c : CreatedSession) (w : World) (max : ℤ)
    → c.session.attempt_count ≡ pos 0
    → c.session.solution_hash ≡ hash_solution s.primitives s.solution_key c.session.id c.solution
    → w.outside.fails (suc (suc w.step)) ≡ false
    → pos 0 <ℤ max
    → (judge s c.session.id c.solution max c.session (record w { step = suc (suc w.step) })).0
      ≡ ok correct
unfolding judge
solved s c w max unused hashed up some_attempt =
    ground
      (arith, verify_solution-hash_solution s.primitives s.solution_key c.session.id c.solution)

-- Once a session is created, and while it has not expired and the database answers: its image is
-- served as it was rendered, and the text that was drawn is accepted as the solution, where at
-- least one attempt is allowed. The nonces have twelve bytes.
pub created_session_works :
    (s : Services) (params : ValidatedSessionParams) (w w' : World) (c : CreatedSession) (max : ℤ)
    → ((n : ℕ) → length (w.outside.nonce n) ≡ 12)
    → (create_session_orchestrated s params w).0 ≡ ok c
    → (create_session_orchestrated s params w).1 ≡ w'
    → w'.outside.fails w'.step ≡ false
    → w'.outside.fails (suc (suc w'.step)) ≡ false
    → w'.outside.now (suc w'.step) ≤ℤ c.session.expires_at
    → pos 0 <ℤ max
    → ((get_session_image_orchestrated s c.session.id w').0 ≡ ok (c.session, c.image_bytes))
      × ((validate_session_orchestrated s c.session.id c.solution max w').0 ≡ ok correct)
created_session_works s params w w' c max twelve made left up up' live some_attempt =
    let f : IsFresh s params w c w' =
      subst (IsFresh s params w c) left (made_IsFresh s params w c made) in
    (
      image_stored s w' c.session f.stored up live (
          decrypt-encrypt s.primitives s.image_key _ c.session.id c.image_bytes
            c.session.image_encrypted (twelve _) f.sealed),
      rw (validate_stored s w' c.session f.stored c.solution max up live)
          (solved s c w' max f.unused f.hashed up' some_attempt),
    )
