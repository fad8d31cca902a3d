-- ===== src/Tests/Endpoints.antt =====
-- Overlapping requests, the cleanup and the session endpoints at concrete inputs.
use captchapi.Validation.{validate_session_params}
use captchapi.Prelude.{as_i64, ◌+ℤ◌, wrap_i64, add_i64, ◌≡◌, refl, ℕ, pos, [], ◌∷◌, arith, as_bytes}
use captchapi.Error.{ok}
use captchapi.Table.{select}
use captchapi.World.{World}
use captchapi.Models.{Session, SessionConfig, session_new, SessionRow}
use captchapi.Crypto.{hmac_sha256, verify_solution, encrypt}
use captchapi.Storage.Sessions.{row_of, session_id}
use captchapi.Sessions.{create_session_orchestrated}
use captchapi.Sessions.Attempts.{is_wrong, is_correct}
use captchapi.Sessions.Race.{overlapping, total, IsOpen, overlapping_wrongs, overlapping_corrects}
use captchapi.Sessions.Routes.{CreateSessionResponse, create_session}
use captchapi.Sessions.Routes.Laws.{create_session_stores, IsStored}
use captchapi.Tests.{services, start}
use captchapi.Tests.Sessions.{blank_request, made}

-- One attempt is left of three.
abbrev guessed : Session
guessed = record made.session { attempt_count = pos 2 }

abbrev guessed_world : World
guessed_world = record start { sessions = row_of guessed ∷ [] }

guessed-IsOpen : IsOpen guessed guessed_world
unfolding session_new add_i64 wrap_i64 ◌+ℤ◌ as_i64 select row_of
guessed-IsOpen = record { up = λ n. refl; live = λ n. omega arith; stored = refl }

overlapping_wrongs_example :
    total is_wrong (overlapping services (pos 3) "6b1f" ("a" ∷ "b" ∷ "c" ∷ []) guessed_world) ≡ 3
unfolding session_new verify_solution as_bytes hmac_sha256
overlapping_wrongs_example =
    overlapping_wrongs services (pos 3) guessed (omega arith) guessed_world ("a" ∷ "b" ∷ "c" ∷ [])
      guessed-IsOpen (refl, (refl, (refl, tt)))

overlapping_corrects_example :
    total is_correct (overlapping services (pos 3) "6b1f" ("x7P" ∷ "x7P" ∷ []) guessed_world) ≡ 2
unfolding session_new verify_solution as_bytes hmac_sha256
overlapping_corrects_example =
    overlapping_corrects services (pos 3) guessed (omega arith) guessed_world ("x7P" ∷ "x7P" ∷ [])
      guessed-IsOpen (refl, (refl, tt))

-- One session has expired, the other has not.
abbrev two_sessions : World
two_sessions = record start {
  sessions = record (row_of guessed) { id = "old"; expires_at = pos 999 } ∷ row_of guessed ∷ [];
}

abbrev limits : SessionConfig
limits = record {
  default_session_ttl_seconds = 300;
  max_session_ttl_seconds = 3600;
  max_validation_attempts = pos 3;
  captcha_compression = pos 40;
}

abbrev answer : CreateSessionResponse
answer = record { session_id = "6b1f"; expires_at = pos 1300; created_at = pos 1000 }

answered : (create_session services limits blank_request start).0 ≡ ok answer
unfolding create_session validate_session_params create_session_orchestrated encrypt select
    session_new add_i64 wrap_i64 ◌+ℤ◌ as_i64
answered = refl

create_session_stores_example :
    (row : SessionRow) × (ttl : ℕ) × IsStored services limits answer start
      (create_session services limits blank_request start).1
      row
      ttl
create_session_stores_example =
    create_session_stores services limits blank_request start answer answered
