-- ===== src/Sessions.antt =====
-- src/services/session_ops.rs: creating a session, serving its image and validating a solution.
-- The renderer (services/captcha) is a function of its parameters and of what it draws at random.
pub mod Validate
pub mod Race
pub mod Cleanup
pub mod Routes
pub mod Create
pub mod Attempts
use captchapi.Prelude.{ℕ, suc, ℤ, pos, String, Option, List, sub_i64, leb_ℤ, max_ℤ, if◌then◌else◌}
use captchapi.Error.{session_not_found, internal, generation_failed}
use captchapi.Models.{Session, session_new}
use captchapi.Validation.{ValidatedSessionParams}
use captchapi.Crypto.{Primitives, hash_solution, verify_solution, encrypt, decrypt}
use captchapi.World.{Exec, pure, lift, ok_or, attempt, draw, utc_now, count_session, ◌>>=◌, ◌>>◌}
use captchapi.Storage.Sessions.{
  create_session, get_active_session, delete_session, increment_attempt_count,
}

-- What a handler is built with: the keys of `SolutionHasher` and `ImageCipher`, and the renderer,
-- which fails or returns the text and the picture that it drew in the n-th interaction.
pub record Services : Type 0 where
  pub primitives : Primitives
  pub solution_key : List ℕ
  pub image_key : List ℕ
  pub generate : ℕ → ValidatedSessionParams → Option (String × List ℕ)

pub record CreatedSession : Type 0 where
  pub session : Session
  pub solution : String
  pub image_bytes : List ℕ

pub data ValidationOutcome : Type 0 where
  correct : ValidationOutcome
  wrong : ℤ → ValidationOutcome
  max_attempts_exceeded : ValidationOutcome

module _ (s : Services) where
  unfoldable pub create_session_orchestrated : ValidatedSessionParams → Exec CreatedSession
  unfolding create_session
  create_session_orchestrated params = do
    generated ← draw (λ _ n. s.generate n params)
    drawn ← ok_or generated (internal generation_failed)
    id ← draw (λ o. o.uuid)
    nonce ← draw (λ o. o.nonce)
    stored ← lift (encrypt s.primitives s.image_key nonce id drawn.1)
    now ← utc_now
    let session =
        session_new now id (hash_solution s.primitives s.solution_key id drawn.0) stored
          params.expires_in params.difficulty params.width params.height params.dark_mode
    create_session session
    count_session (λ m. record m { created = suc m.created })
    pure (record { session = session; solution = drawn.0; image_bytes = drawn.1 })

  unfoldable pub get_session_image_orchestrated : String → Exec (Session × List ℕ)
  unfolding get_active_session
  get_session_image_orchestrated id = do
    found ← get_active_session id
    session ← ok_or found session_not_found
    image ← lift (decrypt s.primitives s.image_key session.id session.image_encrypted)
    pure (session, image)

  -- The first branch of the validation: too many attempts were made before.
  abbrev pub exceeded : String → Exec ValidationOutcome
  exceeded id = do
    attempt (delete_session id)
    count_session (λ m. record m { validation_attempts = suc m.validation_attempts })
    count_session (λ m. record m { max_attempts_exceeded = suc m.max_attempts_exceeded })
    pure max_attempts_exceeded

  abbrev pub accepted : String → Exec ValidationOutcome
  accepted id = do
    deleted ← delete_session id
    count_session (λ m. record m { validated = suc m.validated })
    pure correct

  abbrev pub rejected : String → ℤ → Exec ValidationOutcome
  rejected id remaining = do
    increment_attempt_count id
    count_session (λ m. record m { validation_failed = suc m.validation_failed })
    pure (wrong (max_ℤ remaining (pos 0)))

  -- What `validate_session_orchestrated` does with the session that it read.
  unfoldable pub judge : String → String → ℤ → Session → Exec ValidationOutcome
  unfolding delete_session increment_attempt_count
  judge id solution max_attempts session =
      if leb_ℤ max_attempts session.attempt_count then exceeded id else do
        let is_valid =
            verify_solution s.primitives s.solution_key session.id solution session.solution_hash
        count_session (λ m. record m { validation_attempts = suc m.validation_attempts })
        if is_valid
            then accepted id
            else rejected id (sub_i64 (sub_i64 max_attempts session.attempt_count) (pos 1))

  unfoldable pub validate_session_orchestrated : String → String → ℤ → Exec ValidationOutcome
  unfolding get_active_session judge
  validate_session_orchestrated id solution max_attempts = do
    found ← get_active_session id
    session ← ok_or found session_not_found
    judge id solution max_attempts session
