-- ===== src/Sessions/Routes/Laws.antt =====
-- What the session endpoints promise.
use mathlib.Core.Path.{subst₂}
use captchapi.Prelude.{
  if◌then◌else◌, ℕ, ◌≤◌, ◌≢◌, pos, ◌≤ℤ◌, add_i64, as_i64, String, ◌≡◌, refl, true, false, none,
  some, arith, eq_iff, ◌⊎◌, inl, inr,
}
use captchapi.Error.{Result-cases, ok, err, session_not_found, database, ParamError}
use captchapi.Models.{SessionRow, SessionConfig}
use captchapi.Table.{is_some}
use captchapi.Table.Laws.{select-delete, affected-pos}
use captchapi.Validation.{
  ValidatedSessionParams, Checked, valid, invalid, validate_session_params, SessionRequest,
}
use captchapi.Validation.Laws.{IsAcceptable, validate_session_params_iff}
use captchapi.World.{World}
use captchapi.Storage.Sessions.{row_of, session_id}
use captchapi.Sessions.{CreatedSession, Services, create_session_orchestrated}
use captchapi.Sessions.Validate.{row_in}
use captchapi.Sessions.Create.{IsFresh, made_IsFresh}
use captchapi.Sessions.Routes.{
  create_session, response_of, CreateSessionResponse, delete_session_route, with_compression,
}

Checked-cases :
    (r : Checked ParamError ValidatedSessionParams)
    → ((p : ValidatedSessionParams) × (r ≡ valid p)) ⊎ ((e : ParamError) × (r ≡ invalid e))
Checked-cases (valid p) = inl (p, refl)
Checked-cases (invalid e) = inr (e, refl)

module _ (s : Services) (settings : SessionConfig) where
  -- `DELETE /sessions/{id}` answers 204 exactly if the session was stored and the database did not
  -- refuse; whenever it was not refused, the session is gone and every other is as before.
  pub delete_session_route_exact :
      (id : String) (w : World)
      → let (r, w') = delete_session_route s settings id w in
        (w.outside.fails w.step ≡ true → (r ≡ err database) × (w'.sessions ≡ w.sessions))
        × (w.outside.fails w.step ≡ false
            → (r ≡ (if is_some (row_in w id) then ok tt else err session_not_found))
              × (row_in w' id ≡ none)
              × ((j : String) → id ≢ j → row_in w' j ≡ row_in w j))
  unfolding delete_session_route
  delete_session_route_exact id w = (
    λ down. ground arith,
    λ up. (
      ground (arith, affected-pos session_id id w.sessions),
      ground (arith, select-delete session_id id id w.sessions, eq_iff id id),
      λ j other. ground (arith, select-delete session_id id j w.sessions, eq_iff id j),
    ),
  )

  abbrev checked_params : SessionRequest → Checked ParamError ValidatedSessionParams
  checked_params req =
      validate_session_params (with_compression req settings) settings.default_session_ttl_seconds
        settings.max_session_ttl_seconds

  -- A session as the creation endpoint stores it.
  pub record IsStored (r : CreateSessionResponse) (w w' : World) (row : SessionRow) (ttl : ℕ)
      : Type 0 where
    pub absent : row_in w r.session_id ≡ none
    pub stored : row_in w' r.session_id ≡ some row
    pub unused : row.attempt_count ≡ pos 0
    pub expires : r.expires_at ≡ row.expires_at
    pub lifetime : row.expires_at ≡ add_i64 row.created_at (as_i64 ttl)
    pub allowed : ttl ≤ settings.max_session_ttl_seconds
    pub difficulty : (pos 1 ≤ℤ row.difficulty) × (row.difficulty ≤ℤ pos 10)
    pub width : (pos 50 ≤ℤ row.width) × (row.width ≤ℤ pos 1000)
    pub height : (pos 30 ≤ℤ row.height) × (row.height ≤ℤ pos 500)

  built :
      (params : ValidatedSessionParams) (w : World) (c : CreatedSession)
      → IsAcceptable settings.max_session_ttl_seconds params
      → IsFresh s params w c (create_session_orchestrated s params w).1
      → IsStored
          (response_of c)
          w
          (create_session_orchestrated s params w).1
          (row_of c.session)
          params.expires_in
  unfolding row_of
  built params w c a f = record {
    absent = f.absent;
    stored = f.stored;
    unused = f.unused;
    expires = refl;
    lifetime = f.lifetime;
    allowed = a.expires_in;
    difficulty = rw f.difficulty a.difficulty;
    width = rw f.width a.width;
    height = rw f.height a.height;
  }

  -- What the creation endpoint answers with is stored, under an ID that was not in use: no attempts
  -- are counted, it expires as the answer says, at the lifetime after its creation, no more than the
  -- operator's limit, and its picture has a difficulty and a size in the documented ranges.
  pub create_session_stores :
      (req : SessionRequest) (w : World) (r : CreateSessionResponse)
      → (create_session s settings req w).0 ≡ ok r
      → (row : SessionRow) × (ttl : ℕ) × IsStored r w (create_session s settings req w).1 row ttl
  unfolding create_session
  create_session_stores req w r made = elim (Checked-cases (checked_params req)) [
    | inr (e, refused) ↦ ground arith
    | inl (params, fine) ↦
        let fits = ((validate_session_params_iff _ _ _ params).0 fine).1 in
        elim (Result-cases (create_session_orchestrated s params w).0) [
          | inr (e, failed) ↦ ground arith
          | inl (c, done) ↦
              let answer : response_of c ≡ r = ground arith in
              let world : (create_session_orchestrated s params w).1
                  ≡ (create_session s settings req w).1 =
                ground arith in
              (
                row_of c.session,
                params.expires_in,
                subst₂ (λ a b. IsStored a w b (row_of c.session) params.expires_in) answer world
                    (built params w c fits (made_IsFresh s params w c done)),
              )
        ]
  ]
