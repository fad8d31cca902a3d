-- ===== src/Sessions/Cleanup.antt =====
-- The single cleanup of src/tasks/cleanup.rs, and how it agrees with what requests see.
use captchapi.Prelude.{ℕ, ◌+◌, ltb, if◌then◌else◌}
use captchapi.World.{World, Exec, pure, count_session, ◌>>=◌, ◌>>◌}
use captchapi.Storage.Sessions.{delete_expired_sessions}

-- `cleanup_expired_sessions`
unfoldable pub cleanup_expired_sessions : Exec ℕ
unfolding delete_expired_sessions
cleanup_expired_sessions = do
  count ← delete_expired_sessions
  if ltb 0 count
      then (do
        count_session (λ m. record m { expired_cleaned = m.expired_cleaned + count })
        pure count)
      else pure count
