-- ===== src/Sessions/Routes.antt =====
-- src/routes/sessions.rs: the handlers of the session endpoints, behind authentication where the
-- router says so. A timestamp stands for the date that the response renders from it.
pub mod Laws
use captchapi.Prelude.{
  ℕ, suc, ℤ, pos, String, Bool, true, false, Option, none, some, List, sub_i64, max_ℤ,
  if◌then◌else◌,
}
use captchapi.Error.{ok, err, session_not_found, invalid_session_params, ParamError}
use captchapi.Models.{SessionConfig}
use captchapi.Validation.{
  SessionRequest, Checked, valid, invalid, validate_session_params, validate_solution,
}
use captchapi.World.{Exec, pure, raise, ok_or, utc_now, count_session, ◌>>=◌, ◌>>◌}
use captchapi.Storage.Sessions.{get_active_session, delete_session}
use captchapi.Sessions.{
  CreatedSession, Services, create_session_orchestrated, get_session_image_orchestrated,
  validate_session_orchestrated, ValidationOutcome, correct, wrong, max_attempts_exceeded,
}

pub record CreateSessionResponse : Type 0 where
  pub session_id : String
  pub expires_at : ℤ
  pub created_at : ℤ

pub record ValidateSessionResponse : Type 0 where
  pub valid : Bool
  pub session_id : String

pub record GetSessionDetailsResponse : Type 0 where
  pub session_id : String
  pub created_at : ℤ
  pub expires_at : ℤ
  pub attempt_count : ℤ
  pub difficulty : ℤ
  pub width : ℤ
  pub height : ℤ
  pub dark_mode : Bool

-- The image with the headers that depend on the session: `max-age`, the entity tag, the expiry.
pub record ImageResponse : Type 0 where
  pub max_age : ℤ
  pub etag : String
  pub expires : ℤ
  pub image_bytes : List ℕ

-- `.map_err(AppError::InvalidSessionParams)?`
abbrev pub checked : {A : Type 0} → Checked ParamError A → Exec A
checked (valid a) w = (ok a, w)
checked (invalid e) w = (err (invalid_session_params e), w)

-- `Option::or` with a value.
abbrev pub or_some : Option ℤ → ℤ → Option ℤ
or_some none d = some d
or_some (some q) d = some q

-- `req.compression.or(Some(settings.captcha_compression))`
abbrev pub with_compression : SessionRequest → SessionConfig → SessionRequest
with_compression req settings = record req {
  compression = or_some req.compression settings.captcha_compression;
}

abbrev pub response_of : CreatedSession → CreateSessionResponse
response_of c = record {
  session_id = c.session.id;
  expires_at = c.session.expires_at;
  created_at = c.session.created_at;
}

module _ (s : Services) (settings : SessionConfig) where
  unfoldable pub create_session : SessionRequest → Exec CreateSessionResponse
  create_session req = do
    params ← checked (
        validate_session_params (with_compression req settings) settings.default_session_ttl_seconds
          settings.max_session_ttl_seconds)
    created ← create_session_orchestrated s params
    pure (response_of created)

  unfoldable pub get_session_details : String → Exec GetSessionDetailsResponse
  unfolding get_active_session
  get_session_details id = do
    found ← get_active_session id
    session ← ok_or found session_not_found
    pure (record {
      session_id = session.id;
      created_at = session.created_at;
      expires_at = session.expires_at;
      attempt_count = session.attempt_count;
      difficulty = session.difficulty;
      width = session.width;
      height = session.height;
      dark_mode = session.dark_mode;
    })

  unfoldable pub get_image_binary : String → Exec ImageResponse
  unfolding get_session_image_orchestrated
  get_image_binary id = do
    served ← get_session_image_orchestrated s id
    now ← utc_now
    pure (record {
      max_age = max_ℤ (sub_i64 served.0.expires_at now) (pos 0);
      etag = id;
      expires = served.0.expires_at;
      image_bytes = served.1;
    })

  abbrev pub answer : String → ValidationOutcome → ValidateSessionResponse
  answer id correct = record { valid = true; session_id = id }
  answer id (wrong remaining) = record { valid = false; session_id = id }
  answer id max_attempts_exceeded = record { valid = false; session_id = id }

  unfoldable pub validate_session : String → String → Exec ValidateSessionResponse
  validate_session id solution = do
    checked (validate_solution solution)
    outcome ← validate_session_orchestrated s id solution settings.max_validation_attempts
    pure (answer id outcome)

  -- 204, or the error.
  unfoldable pub delete_session_route : String → Exec (Unit {0})
  unfolding delete_session
  delete_session_route id = do
    deleted ← delete_session id
    if deleted
        then count_session (λ m. record m { deleted = suc m.deleted })
        else raise session_not_found
