-- ===== src/Admin/Context.antt =====
-- What a request to the administration reads and changes: the database, the handle on the
-- configuration, the counters of the system, the restart handle, and the file system, which is read
-- anew each time and may be another one then.
use captchapi.Prelude.{ℕ, suc, String, Option}
use captchapi.Error.{AppError, Result, ok, err}
use captchapi.Validation.{Checked, valid, invalid}
use captchapi.World.{World, Exec}
use captchapi.Config.Files.{System}
use captchapi.Config.Handle.{Handle}
use captchapi.Restart.{RestartHandle}

-- metrics.rs: the counters of the system.
pub record SystemMetrics : Type 0 where
  pub config_reloads : ℕ
  pub config_reload_failures : ℕ
  pub config_patches : ℕ
  pub config_patch_failures : ℕ
  pub config_restarts : ℕ

pub record State : Type 0 where
  pub world : World
  pub handle : Handle
  pub metrics : SystemMetrics
  pub restart : Option RestartHandle
  -- the n-th reading of the file system
  pub systems : ℕ → System
  pub readings : ℕ

-- A fallible request. What was written before an error stays written.
abbrev pub Request : Type 0 → Type 0
Request A = State → Result A × State

module _ {A : Type 0} where
  abbrev pub pure : A → Request A
  pure a s = (ok a, s)

  abbrev pub raise : AppError → Request A
  raise e s = (err e, s)

  abbrev pub read : (State → A) → Request A
  read f s = (ok (f s), s)

  -- An operation of the store or of the sessions.
  abbrev pub in_world : Exec A → Request A
  in_world m s = let (r, w') = m s.world in (r, record s { world = w' })

  abbrev as_result : (String → AppError) → Checked String A → Result A
  as_result f (valid a) = ok a
  as_result f (invalid e) = err (f e)

  -- `spawn_blocking` of an operation on the handle, with `.map_err(f)`.
  abbrev pub on_handle :
      (System → Handle → Checked String A × Handle) → (String → AppError) → Request A
  on_handle op f s =
      let (r, h') = op (s.systems s.readings) s.handle in
      (as_result f r, record s { handle = h'; readings = suc s.readings })

  abbrev pub check : (System → Checked String A) → (String → AppError) → Request A
  check op f s = (as_result f (op (s.systems s.readings)), record s { readings = suc s.readings })

  -- A counter is added to before the error is passed on.
  abbrev note : (SystemMetrics → SystemMetrics) → Result A × State → Result A × State
  note f (ok a, s) = (ok a, s)
  note f (err e, s) = (err e, record s { metrics = f s.metrics })

  abbrev pub inspect_err : (SystemMetrics → SystemMetrics) → Request A → Request A
  inspect_err f m s = note f (m s)

module _ {A B : Type 0} where
  abbrev pub continue : Result A → (A → Request B) → Request B
  continue (ok a) f s = f a s
  continue (err e) f s = (err e, s)

  infixl 10 ◌>>=◌ ◌>>◌
  unfoldable pub ◌>>=◌ : Request A → (A → Request B) → Request B
  ◌>>=◌ m f s = let (r, s') = m s in continue r f s'

  abbrev pub ◌>>◌ : Request A → Request B → Request B
  m >> n = m >>= λ _. n

abbrev pub count : (SystemMetrics → SystemMetrics) → Request (Unit {0})
count f s = (ok tt, record s { metrics = f s.metrics })

abbrev pub add_patch : SystemMetrics → SystemMetrics
add_patch m = record m { config_patches = suc m.config_patches }

abbrev pub add_patch_failure : SystemMetrics → SystemMetrics
add_patch_failure m = record m { config_patch_failures = suc m.config_patch_failures }

abbrev pub add_reload : SystemMetrics → SystemMetrics
add_reload m = record m { config_reloads = suc m.config_reloads }

abbrev pub add_reload_failure : SystemMetrics → SystemMetrics
add_reload_failure m = record m { config_reload_failures = suc m.config_reload_failures }

abbrev pub add_restart : SystemMetrics → SystemMetrics
add_restart m = record m { config_restarts = suc m.config_restarts }

-- `config_patch_failures.add(1)` and the error.
abbrev pub refuse : {A : Type 0} → AppError → Request A
refuse e = inspect_err add_patch_failure (raise e)
