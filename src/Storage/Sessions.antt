-- ===== src/Storage/Sessions.antt =====
-- services/storage.rs: the session operations.
use captchapi.Prelude.{
  ℕ, ℤ, pos, String, Bool, Option, none, some, [], ◌∷◌, ◌++◌, ◌+ℤ◌, ltb_ℤ, ltb, if◌then◌else◌,
}
use captchapi.Error.{database, ok, err}
use captchapi.Models.{SessionRow, Session, session_from_row, is_expired}
use captchapi.Table.{select, delete, update, affected, delete_where, affected_where, is_some}
use captchapi.World.{Exec, pure, attempt, statement, utc_now, ◌>>=◌, ◌>>◌}
use mathlib.Core.Option

abbrev pub session_id : SessionRow → String
session_id r = r.id

-- The bound values of the INSERT: the Boolean goes in as 0 or 1.
unfoldable pub row_of : Session → SessionRow
row_of s = record {
  id = s.id;
  solution_hash = s.solution_hash;
  image_encrypted = s.image_encrypted;
  created_at = s.created_at;
  expires_at = s.expires_at;
  attempt_count = s.attempt_count;
  difficulty = s.difficulty;
  width = s.width;
  height = s.height;
  dark_mode = if s.dark_mode then pos 1 else pos 0;
}

-- A second row with one primary key is refused.
unfoldable pub create_session : Session → Exec (Unit {0})
unfolding row_of
create_session s = statement λ w.
    if is_some (select session_id s.id w.sessions)
    then (err database, w)
    else (ok tt, record w { sessions = w.sessions ++ row_of s ∷ [] })

unfoldable pub get_session : String → Exec (Option Session)
get_session id =
    statement λ w. (ok (Option.map session_from_row (select session_id id w.sessions)), w)

-- SET attempt_count = attempt_count + 1
abbrev pub increment : SessionRow → SessionRow
increment r = record r { attempt_count = r.attempt_count +ℤ pos 1 }

unfoldable pub increment_attempt_count : String → Exec (Unit {0})
increment_attempt_count id =
    statement λ w. (ok tt, record w { sessions = update session_id id increment w.sessions })

unfoldable pub delete_session : String → Exec Bool
delete_session id = statement λ w. (
  ok (ltb 0 (affected session_id id w.sessions)),
  record w { sessions = delete session_id id w.sessions },
)

-- What `get_active_session` does with the session that it found.
abbrev pub drop_if_expired : String → Option Session → Exec (Option Session)
drop_if_expired id none = pure none
drop_if_expired id (some session) = do
  now ← utc_now
  if is_expired session now
      then (do attempt (delete_session id); pure none)
      else pure (some session)

unfoldable pub get_active_session : String → Exec (Option Session)
unfolding get_session delete_session is_expired
get_active_session id = do found ← get_session id; drop_if_expired id found

-- WHERE expires_at < ?
abbrev pub expired_before : ℤ → SessionRow → Bool
expired_before now r = ltb_ℤ r.expires_at now

unfoldable pub delete_expired_sessions : Exec ℕ
delete_expired_sessions = do
  now ← utc_now
  statement λ w. (
    ok (affected_where (expired_before now) w.sessions),
    record w { sessions = delete_where (expired_before now) w.sessions },
  )
