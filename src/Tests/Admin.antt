-- ===== src/Tests/Admin.antt =====
-- The administration and the background tasks at concrete inputs.
use captchapi.Table.{select}
use captchapi.Prelude.{
  if◌then◌else◌, str_eq, ◌≡◌, refl, String, true, false, Option, some, none, List, [], ◌∷◌, ◌++◌,
  any, len, arith,
}
use captchapi.Config.Layers.{get_in}
use captchapi.Config.Handle.{new}
use captchapi.Admin.{Body, number, put_stored}
use captchapi.Admin.Context.{State}
use captchapi.Admin.Describe.{describe_config}
use captchapi.Admin.Describe.Laws.{with_secrets, describe_config-with_secrets}
use captchapi.Admin.Laws.Mirror.{IsMirrored}
use captchapi.Admin.Laws.Put.{put_stored-IsMirrored}
use captchapi.Tests.Configuration.{config, handle, system}
use captchapi.Admin.{delete_stored}
use captchapi.Admin.Laws.Delete.{key_iff, delete_stored-IsMirrored}
use captchapi.Config.Params.{max_validation_attempts, by_field}
use captchapi.Tests.Settings.{settled, codec}
use captchapi.Tests.{start}
use captchapi.Tasks.Cleanup
use captchapi.Tasks.LogFilter

abbrev state : State
state = record {
  world = start;
  handle = handle;
  metrics = record {
    config_reloads = 0;
    config_reload_failures = 0;
    config_patches = 0;
    config_patch_failures = 0;
    config_restarts = 0;
  };
  restart = none;
  systems = λ n. system;
  readings = 0;
}

abbrev body : Body
body = ("max_validation_attempts", number "8") ∷ []

put_stored-IsMirrored_example : IsMirrored (put_stored codec body state).1
unfolding get_in select new
put_stored-IsMirrored_example =
    put_stored-IsMirrored codec body state (refl, tt) refl λ field p found at. refl

-- One setting is stored, and the handle knows it.
abbrev stored_state : State
stored_state = record state {
  world = settled;
  handle = record handle { stored = ("MAX_VALIDATION_ATTEMPTS", "5") ∷ [] };
}

attempts_found : by_field "max_validation_attempts" ≡ some max_validation_attempts
unfolding by_field
attempts_found = refl

stored_state-IsMirrored : IsMirrored stored_state
unfolding get_in select
stored_state-IsMirrored field p found at =
    ground (
      arith,
      key_iff "max_validation_attempts" field max_validation_attempts p attempts_found found,
    )

delete_stored-IsMirrored_example :
    IsMirrored (delete_stored codec "max_validation_attempts" stored_state).1
delete_stored-IsMirrored_example =
    delete_stored-IsMirrored codec "max_validation_attempts" stored_state refl
      stored_state-IsMirrored

describe_config-with_secrets_example :
    describe_config
      (with_secrets "0000000000000000" "1111111111111111" "2222222222222222" "3333333333333333"
        config)
      handle
    ≡ describe_config config handle
unfolding len
describe_config-with_secrets_example =
    describe_config-with_secrets config handle "0000000000000000" "1111111111111111"
      "2222222222222222" "3333333333333333" refl refl refl refl

abbrev events : List Cleanup.Event
events = Cleanup.Event.tick ∷ Cleanup.Event.changed 0 ∷ Cleanup.Event.closed ∷ []

abbrev task : Cleanup.Task
task = record {
  period = 60;
  interval = 60;
  config_closed = false;
  running = true;
  world = start;
  sweeps = 0;
}

shutdown_ends_example :
    let before = Cleanup.run events task in
    (any Cleanup.is_shutdown events ≡ false → task.running ≡ true → before.running ≡ true)
    × (before.running ≡ true
        → Cleanup.run (events ++ Cleanup.Event.shutdown ∷ events) task
          ≡ record (Cleanup.clean_up before) { running = false })
    × (before.running ≡ false
        → Cleanup.run (events ++ Cleanup.Event.shutdown ∷ events) task ≡ before)
shutdown_ends_example = Cleanup.shutdown_ends events events task

-- Only one text is no filter.
abbrev filter_error : String → Option String
filter_error directives = if str_eq directives "=" then some "invalid filter directive" else none

abbrev levels : List LogFilter.Event
levels = LogFilter.Event.changed "=" ∷ LogFilter.Event.changed "warn" ∷ []
