-- ===== src/Tests/Sessions.antt =====
-- Sessions at concrete inputs: one is created, guessed at, and removed.
use captchapi.Prelude.{
  eq_iff, as_i64, ◌+ℤ◌, wrap_i64, add_i64, ◌≤ℤ◌, ◌⊎◌, ◌≡◌, ◌≢◌, refl, ℕ, suc, ◌≤◌, pos, String,
  true, false, some, none, List, [], ◌∷◌, ◌++◌, replicate, arith, as_bytes, ◌≤ℤ◌, ◌⊎◌,
}
use captchapi.Error.{ok}
use captchapi.World.{World}
use captchapi.Models.{SessionRow, session_new}
use captchapi.Validation.{ValidatedSessionParams, SessionRequest}
use captchapi.Validation.Laws.{resolved}
use captchapi.Crypto.{hash_solution, verify_solution, encrypt, decrypt}
use captchapi.Crypto.Laws.{
  decrypt-encrypt, verify_solution-hash_solution, verify_solution_binds, Collision,
}
use captchapi.Table.{select}
use captchapi.Storage.Sessions.{row_of}
use captchapi.Sessions.{
  CreatedSession, correct, create_session_orchestrated, validate_session_orchestrated,
  get_session_image_orchestrated,
}
use captchapi.Sessions.Create.{created_session_works}
use captchapi.Sessions.Attempts.{validation_bounded, wrongs, corrects}
use captchapi.Sessions.Validate.{validate_session-Explained, Explained}
use captchapi.Tests.{toy, services, start, tally_injective}

abbrev pub blank_request : SessionRequest
blank_request = record {
  length = none;
  expires_in_seconds = none;
  difficulty = some (pos 7);
  width = none;
  height = none;
  dark_mode = some true;
  compression = none;
}

abbrev pub params : ValidatedSessionParams
params = resolved blank_request 300

abbrev pub sealed : List ℕ
sealed = 2 ∷ replicate 12 7 ++ replicate 16 0 ++ 10 ∷ 20 ∷ 30 ∷ []

abbrev pub made : CreatedSession
made = record {
  session =
      session_new (pos 1000) "6b1f" (hash_solution toy (1 ∷ 2 ∷ []) "6b1f" "x7P") sealed 300
        params.difficulty params.width params.height params.dark_mode;
  solution = "x7P";
  image_bytes = 10 ∷ 20 ∷ 30 ∷ [];
}

made_ok : (create_session_orchestrated services params start).0 ≡ ok made
unfolding create_session_orchestrated encrypt select
made_ok = refl

abbrev made_world : World
made_world = (create_session_orchestrated services params start).1

made_up : made_world.outside.fails made_world.step ≡ false
unfolding create_session_orchestrated encrypt select
made_up = refl

made_up' : made_world.outside.fails (suc (suc made_world.step)) ≡ false
unfolding create_session_orchestrated encrypt select
made_up' = refl

made_live : made_world.outside.now (suc made_world.step) ≤ℤ made.session.expires_at
unfolding create_session_orchestrated encrypt select session_new add_i64 wrap_i64 ◌+ℤ◌ as_i64
made_live = omega arith

created_session_works_example :
    ((get_session_image_orchestrated services "6b1f" made_world).0
      ≡ ok (made.session, made.image_bytes))
    × ((validate_session_orchestrated services "6b1f" "x7P" (pos 3) made_world).0 ≡ ok correct)
unfolding session_new
created_session_works_example =
    created_session_works services params start made_world made (pos 3) (λ n. refl) made_ok refl
      made_up made_up' made_live (omega arith)

-- A session with two attempts left of three.
abbrev row : SessionRow
row = record (row_of made.session) { attempt_count = pos 1 }

abbrev stored_world : World
stored_world = record start { sessions = row ∷ [] }

abbrev guesses : List (String × String)
guesses = ("6b1f", "abc") ∷ ("6b1f", "q") ∷ ("other", "x7P") ∷ ("6b1f", "x7P") ∷ []

validation_bounded_example :
    (wrongs services (pos 3) "6b1f" stored_world guesses ≤ 2)
    × (corrects services (pos 3) "6b1f" stored_world guesses ≤ 1)
unfolding session_new select row_of
validation_bounded_example = validation_bounded services (pos 3) "6b1f" stored_world guesses

validate_session-Explained_example :
    Explained services "6b1f" "abc"
      (pos 3)
      stored_world
      (validate_session_orchestrated services "6b1f" "abc" (pos 3) stored_world).0
      (validate_session_orchestrated services "6b1f" "abc" (pos 3) stored_world).1
validate_session-Explained_example =
    validate_session-Explained services "6b1f" "abc" (pos 3) stored_world

other_id : ◌≢◌ {A = String} "other" "6b1f"
other_id e = ground (arith, eq_iff "other" "6b1f")

accepted :
    verify_solution toy (1 ∷ []) "6b1f" "x7P" (hash_solution toy (1 ∷ []) "6b1f" "x7P") ≡ true
accepted = verify_solution-hash_solution toy (1 ∷ []) "6b1f" "x7P"

verify_solution_binds_example :
    ((as_bytes "6b1f" ≡ as_bytes "6b1f") × (as_bytes "x7P" ≡ as_bytes "x7P")) ⊎ Collision toy.sha256
unfolding as_bytes
verify_solution_binds_example =
    verify_solution_binds toy tally_injective (1 ∷ []) "6b1f" "6b1f" "x7P" "x7P" (ground arith)
      (ground arith) accepted

encrypted : encrypt toy (3 ∷ []) (replicate 12 7) "6b1f" (10 ∷ 20 ∷ 30 ∷ []) ≡ ok sealed
unfolding encrypt
encrypted = refl

decrypt-encrypt_example : decrypt toy (3 ∷ []) "6b1f" sealed ≡ ok (10 ∷ 20 ∷ 30 ∷ [])
decrypt-encrypt_example =
    decrypt-encrypt toy (3 ∷ []) (replicate 12 7) "6b1f" (10 ∷ 20 ∷ 30 ∷ []) sealed refl encrypted
