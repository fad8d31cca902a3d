-- ===== src/Tasks/LogFilter.antt =====
-- src/tasks/log_filter.rs: the loop of `start_log_filter_task`, and `LogFilterHandle::apply` of
-- src/telemetry.rs. A filter is the text that it is parsed from.
use captchapi.Prelude.{
  ◌≡◌, String, Bool, true, false, Option, none, some, List, [], ◌∷◌, arith, str_eq, if◌then◌else◌,
  eq_iff,
}
use captchapi.Validation.{Checked, valid, invalid}

pub data Event : Type 0 where
  shutdown : Event
  -- the configuration changed to one with these directives
  changed : String → Event
  closed : Event

pub record Task : Type 0 where
  pub current : String
  -- the directives of the filter that is installed
  pub installed : String
  pub running : Bool

-- The message of the error quotes the directives; that part is left out.
abbrev pub filter_result : String → Option String → String → Checked String (Unit {0}) × String
filter_result directives none installed = (valid tt, directives)
filter_result directives (some e) installed = (invalid e, installed)

-- The text of the error of `parse::<Targets>`, or none.
module _ (filter_error : String → Option String) where
  -- `LogFilterHandle::apply`, on a subscriber that is live.
  unfoldable pub apply : String → String → Checked String (Unit {0}) × String
  apply directives installed = filter_result directives (filter_error directives) installed

  abbrev settle : String → Task → Checked String (Unit {0}) × String → Task
  settle next t (valid u, installed) = record t { current = next; installed = installed }
  settle next t (invalid e, installed) = record t { installed = installed }

  unfoldable pub branch : Event → Task → Task
  unfolding apply
  branch shutdown t = record t { running = false }
  branch (changed next) t =
      if str_eq next t.current then t else settle next t (apply next t.installed)
  branch closed t = record t { running = false }

  abbrev pub step : Event → Task → Task
  step e t = if t.running then branch e t else t

  unfoldable pub run : List Event → Task → Task
  unfolding branch
  run [] t = t
  run (e ∷ es) t = run es (step e t)

abbrev pub start : String → String → Task
start current installed = record { current = current; installed = installed; running = true }

module _ (filter_error : String → Option String) where
  -- The level that the task keeps is the one whose filter is installed.
  step-installed :
      (e : Event) (t : Task)
      → t.current ≡ t.installed
      → (step filter_error e t).current ≡ (step filter_error e t).installed
  unfolding branch apply
  step-installed shutdown t h = ground arith
  step-installed (changed next) t h = ground arith
  step-installed closed t h = ground arith

  -- If the filter that is installed at the start is the one that the task takes it to be, then after
  -- any events the task's idea of the level is what is installed; and a level that parses is installed
  -- as soon as the task is told of it.
  pub run-installed :
      (es : List Event) (t : Task) (next : String)
      → t.current ≡ t.installed
      → let t' = run filter_error es t in
        (t'.current ≡ t'.installed)
        × (t'.running ≡ true
            → filter_error next ≡ none
            → (run filter_error (changed next ∷ []) t').installed ≡ next)
  unfolding run branch apply
  run-installed [] t next h = (h, λ r ok. ground (arith, eq_iff next t.current))
  run-installed (e ∷ es) t next h =
      run-installed es (step filter_error e t) next (step-installed e t h)
