-- ===== src/Restart.antt =====
-- src/restart.rs: the handle by which a restart is asked for, and the check of the address that the
-- restarted process is to listen on. Replacing the process image is the system's.
use captchapi.Prelude.{
  String, Bool, true, false, not, Option, none, some, str_eq, ◌+++◌, if◌then◌else◌,
}
use captchapi.Validation.{Checked, valid, invalid}
use captchapi.Config.Files.{System}

pub record RestartHandle : Type 0 where
  pub requested : Bool
  -- whether the token is cancelled
  pub cancelled : Bool

-- `RestartHandle::new` with a fresh token.
abbrev pub new : RestartHandle
new = record { requested = false; cancelled = false }

unfoldable pub request : RestartHandle → Bool × RestartHandle
request r = (not r.requested, record { requested = true; cancelled = true })

abbrev bind_answer : String → Option String → Checked String (Unit {0})
bind_answer addr none = valid tt
bind_answer addr (some e) = invalid ("cannot bind " +++ addr +++ ": " +++ e)

unfoldable pub preflight_bind : System → String → String → Checked String (Unit {0})
preflight_bind sys addr current =
    if str_eq addr current then valid tt else bind_answer addr (sys.bind_error addr)
