-- ===== src/Tasks/Cleanup.antt =====
-- src/tasks/cleanup.rs: the loop of `start_cleanup_task`. `tokio::select!` hands it one event at a
-- time; in which order they come is not assumed.
use captchapi.Prelude.{
  any, ap, ◌∙◌, ℕ, suc, ◌≤◌, ◌≡◌, refl, Bool, true, false, List, [], ◌∷◌, ◌++◌, arith, ltb, ◌==◌,
  if◌then◌else◌,
}
use captchapi.World.{World}
use captchapi.Sessions.Cleanup.{cleanup_expired_sessions}

pub data Event : Type 0 where
  shutdown : Event
  -- the configuration changed to one with this interval
  changed : ℕ → Event
  -- every sender of configurations is gone
  closed : Event
  tick : Event

pub record Task : Type 0 where
  pub period : ℕ
  -- the seconds between two ticks of the timer
  pub interval : ℕ
  pub config_closed : Bool
  pub running : Bool
  pub world : World
  -- how often `retain_recent` was called on the rate limiter
  pub sweeps : ℕ

-- `interval_for`
unfoldable pub interval_for : ℕ → ℕ
interval_for seconds = if ltb seconds 1 then 1 else seconds

unfoldable pub start : ℕ → World → Task
unfolding interval_for
start period w = record {
  period = period;
  interval = interval_for period;
  config_closed = false;
  running = true;
  world = w;
  sweeps = 0;
}

-- A cleanup, whose error is logged, and a sweep of the rate limiter.
unfoldable pub clean_up : Task → Task
unfolding cleanup_expired_sessions
clean_up t = record t { world = (cleanup_expired_sessions t.world).1; sweeps = suc t.sweeps }

abbrev adopt : ℕ → Task → Task
adopt updated t =
    if updated == t.period
    then t
    else record t { period = updated; interval = interval_for updated }

-- The branches of the `select!`.
unfoldable pub branch : Event → Task → Task
unfolding clean_up interval_for
branch shutdown t = record (clean_up t) { running = false }
branch (changed updated) t = if t.config_closed then t else adopt updated t
branch closed t = if t.config_closed then t else record t { config_closed = true }
branch tick t = clean_up t

-- One round of the loop; a task that has stopped takes no event.
abbrev pub step : Event → Task → Task
step e t = if t.running then branch e t else t

unfoldable pub run : List Event → Task → Task
unfolding branch
run [] t = t
run (e ∷ es) t = run es (step e t)

-- The interval is never zero, at which the timer would panic, and it is the period but for that.
abbrev pub IsTimed : Task → Type 0
IsTimed t = (t.interval ≡ interval_for t.period) × (1 ≤ t.interval)

branch-IsTimed : (e : Event) (t : Task) → IsTimed t → IsTimed (branch e t)
unfolding branch clean_up interval_for
branch-IsTimed shutdown t h = h
branch-IsTimed (changed updated) t h = ground arith
branch-IsTimed closed t h = ground arith
branch-IsTimed tick t h = h

step-IsTimed : (e : Event) (t : Task) → IsTimed t → IsTimed (step e t)
step-IsTimed e t h = ground (arith, branch-IsTimed e t h)

run-IsTimed : (es : List Event) (t : Task) → IsTimed t → IsTimed (run es t)
unfolding run
run-IsTimed [] t h = h
run-IsTimed (e ∷ es) t h = run-IsTimed es (step e t) (step-IsTimed e t h)

-- Whatever the events and their order, the timer of the task has an interval of at least a second,
-- which is the period that the task keeps, or one second if that is zero.
pub start-IsTimed : (period : ℕ) (w : World) (es : List Event) → IsTimed (run es (start period w))
unfolding start interval_for
start-IsTimed period w es = run-IsTimed es (start period w) (ground arith)

stopped : (es : List Event) (t : Task) → t.running ≡ false → run es t ≡ t
unfolding run
stopped [] t h = refl
stopped (e ∷ es) t h = let idle : step e t ≡ t = ground arith in rw idle (stopped es t h)

run-append : (es fs : List Event) (t : Task) → run (es ++ fs) t ≡ run fs (run es t)
unfolding run
run-append [] fs t = refl
run-append (e ∷ es) fs t = run-append es fs (step e t)

abbrev pub is_shutdown : Event → Bool
is_shutdown shutdown = true
is_shutdown _ = false

step-running :
    (e : Event) (t : Task) → is_shutdown e ≡ false → t.running ≡ true → (step e t).running ≡ true
unfolding branch clean_up
step-running shutdown t h r = absurd (ground arith)
step-running (changed updated) t h r = ground arith
step-running closed t h r = ground arith
step-running tick t h r = ground arith

run-running :
    (es : List Event) (t : Task)
    → any is_shutdown es ≡ false
    → t.running ≡ true
    → (run es t).running ≡ true
unfolding run
run-running [] t h r = r
run-running (e ∷ es) t h r =
    run-running es (step e t) (ground arith) (step-running e t (ground arith) r)

-- The task runs as long as no shutdown comes, and a shutdown ends it whatever came before it and
-- whatever comes after: a task that still ran does one last cleanup, and a task that has ended takes
-- no further event.
pub shutdown_ends :
    (es fs : List Event) (t : Task)
    → let before = run es t in
      (any is_shutdown es ≡ false → t.running ≡ true → before.running ≡ true)
      × (before.running ≡ true
          → run (es ++ shutdown ∷ fs) t ≡ record (clean_up before) { running = false })
      × (before.running ≡ false → run (es ++ shutdown ∷ fs) t ≡ before)
unfolding run branch
shutdown_ends es fs t =
    let before = run es t in
    let split = run-append es (shutdown ∷ fs) t in
    (
      run-running es t,
      λ h.
          let last : step shutdown before ≡ record (clean_up before) { running = false } =
            ground arith in
          split ∙ ap (run fs) last ∙ stopped fs (record (clean_up before) { running = false }) refl,
      λ h. split ∙ stopped (shutdown ∷ fs) before h,
    )
