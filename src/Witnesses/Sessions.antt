-- ===== src/Witnesses/Sessions.antt =====
-- A command that is started and makes no registry, and outputs after the nested server has ended.
use swaylock_plugin.Base.{
  Outcome, ℕ, ◌≡◌, refl, true, false, [], ◌∷◌, none, some, returns, faults, exits, aborts, blocks,
  ◌==◌, All, pos,
}
use swaylock_plugin.EventLoop.{Pollfd, LoopTimer, no_events, loop_create}
use swaylock_plugin.EventLoop.Live.{live}
use swaylock_plugin.Clients.{BgClient, Surface, Host}
use swaylock_plugin.Session.{Session, Outside, Start, ClientCall, connect_call, find_surface}
use swaylock_plugin.Session.Handlers.{expire}
use swaylock_plugin.Session.Commands.{run_plugin_command}
use swaylock_plugin.Session.Outputs.{
  create_surface, start_or_fall_back, handle_wl_output_done, handle_global_remove,
}
use swaylock_plugin.Session.Linked.{Kept, nothing, ties_of}
use swaylock_plugin.Session.Clientless.{Covered}
use swaylock_plugin.Session.Expired.{expire_clientless}
use swaylock_plugin.Session.Created.{Ready}
use swaylock_plugin.Session.Fresh.{Holds}
use swaylock_plugin.Session.Told.{Able}
use swaylock_plugin.Session.Reached.{
  command_started, surface_created, output_added, output_configured, react, at_opening, Reached,
  at_start, after, reached-Kept,
}
use swaylock_plugin.Session.Outputs.{add_output}
use swaylock_plugin.Session.Frames.{configure_surface}
use swaylock_plugin.Session.Crashes.{removal_crashes, handle_wl_output_done_crashes}

abbrev junk : Pollfd
junk = record { fd = 0; events = no_events; revents = no_events }

abbrev host : Host
host = record { stopped = λ p. false; kill = λ p. true }

abbrev success : Start
success = record {
  socketpair = true;
  set_cloexec = true;
  spawn_command = some 100;
  calloc = true;
  wl_client_create = true;
}

abbrev outside : Outside
outside = record {
  loop_env = record { clock = λ n. record { tv_sec = 5; tv_nsec = 0 }; calloc = λ n. true };
  run = λ n. success;
  can_create = λ n. true;
  server_fd = 9;
  clock = λ c i. record { tv_sec = 5; tv_nsec = 0 };
}

abbrev able : Able outside
able = ((λ n. refl), λ n. refl)

abbrev client : BgClient
client = record {
  address = 0;
  pid = 100;
  paused = false;
  unique_output = none;
  made_a_registry = false;
  client_connect_timer = some 0;
}

abbrev node : LoopTimer ClientCall
node = record {
  address = 0;
  callback = connect_call 0;
  expiry = record { tv_sec = 7; tv_nsec = pos 500000000 };
  removed = false;
}

abbrev start : Session
start = record {
  display = true;
  run_display = false;
  clients = [];
  main_client = none;
  surfaces = [];
  start_clientless_mode = false;
  hidden_check_timer = none;
  plugin_per_output = false;
  pause_when_hidden = true;
  hidden_timeout_ms = 3000;
  host = host;
  eventloop = loop_create junk;
  starts = 0;
  log = [];
}

-- The state after the start of the command.
abbrev waiting : Session
waiting = record start {
  clients = client ∷ [];
  main_client = some 0;
  eventloop = record (loop_create junk) { timers = node ∷ []; allocs = 1 };
  starts = 1;
}

started : react outside command_started start ≡ returns waiting
unfolding react run_plugin_command start_or_fall_back loop_create
started = refl

reached_start : Reached outside start
unfolding at_opening
reached_start = at_start junk host false true 3000 refl

reached_waiting : Reached outside waiting
unfolding at_opening
reached_waiting = after command_started reached_start (refl, refl, refl) started

reached-Kept_example : Kept nothing waiting × Holds Ready waiting
reached-Kept_example = reached-Kept outside able reached_waiting

-- An output with a client, whose nested server has ended.
abbrev abandoned : Surface
abandoned = record {
  output_global_name = 7;
  client = some 0;
  client_submission_timer = none;
  width = 100;
  height = 50;
  has_buffer = true;
  has_newer_serial = false;
  newest_serial = 0;
  dirty = true;
  created = true;
  has_output_done = true;
  nested_server_output = true;
  plugin_surface = false;
  color_output = false;
  output_desc_current = false;
  frame_pending = false;
  frame_pending_since = record { tv_sec = 0; tv_nsec = 0 };
  frame_last_done = record { tv_sec = 0; tv_nsec = 0 };
}

abbrev ended : Session
ended = record start {
  display = false;
  run_display = true;
  clients = record client { unique_output = some 7; made_a_registry = true } ∷ [];
  surfaces =
      abandoned ∷ record abandoned { output_global_name = 8; client = none; created = false } ∷ [];
  plugin_per_output = true;
  starts = 1;
}

handle_wl_output_done_crashes_example : handle_wl_output_done outside 8 ended ≡ faults
unfolding find_surface
handle_wl_output_done_crashes_example =
    handle_wl_output_done_crashes outside 8 100
      (record abandoned { output_global_name = 8; client = none; created = false }) ended refl refl
      refl refl refl refl refl refl refl refl

-- Two outputs, each with a command.
abbrev value : Outcome Session → Session
value (returns s) = s
value (exits n) = start
value aborts = start
value blocks = start
value faults = start

abbrev each : Session
each = record start { plugin_per_output = true }

abbrev first_added : Session
first_added = value (react outside (output_added 7 false) each)

abbrev both_added : Session
both_added = value (react outside (output_added 8 false) first_added)

abbrev first_created : Session
first_created = value (react outside (surface_created 7) both_added)

abbrev both_created : Session
both_created = value (react outside (surface_created 8) first_created)

both_created-Kept : Kept nothing both_created
unfolding react at_opening create_surface loop_create find_surface add_output
both_created-Kept =
    (reached-Kept outside able (
      after (surface_created 8)
        (after (surface_created 7)
          (after (output_added 8 false)
            (after (output_added 7 false) (at_start junk host true true 3000 refl) refl refl) refl
            refl)
          ((λ e. refl), (_, refl, refl)) refl)
        ((λ e. refl), (_, refl, refl)) refl)).0

removal_crashes_example :
    (i : ℕ) × (live both_created.eventloop.timers i ≡ some (connect_call 0))
    × ((s' : Session) × (expire outside i (connect_call 0) both_created ≡ returns s')
        × (handle_global_remove 8 s' ≡ faults))
unfolding react at_opening create_surface loop_create find_surface add_output
removal_crashes_example =
    removal_crashes outside 0 1 8
      (record { pid = 100; output = some 7; registry = false; timer = some 1 }) both_created refl
      refl refl refl refl both_created-Kept

-- Both are configured; the first one's client then makes no registry.
abbrev first_sized : Session
first_sized = value (react outside (output_configured 7 1 800 600) both_created)

abbrev both_sized : Session
both_sized = value (react outside (output_configured 8 2 640 480) first_sized)

both_sized-Kept : Kept nothing both_sized
unfolding react at_opening create_surface loop_create find_surface add_output configure_surface
both_sized-Kept =
    (reached-Kept outside able (
      after (output_configured 8 2 640 480)
        (after (output_configured 7 1 800 600)
          (after (surface_created 8)
            (after (surface_created 7)
              (after (output_added 8 false)
                (after (output_added 7 false) (at_start junk host true true 3000 refl) refl refl)
                refl refl)
              ((λ e. refl), (_, refl, refl)) refl)
            ((λ e. refl), (_, refl, refl)) refl)
          (_, refl, refl) refl)
        (_, refl, refl) refl)).0

expire_clientless_example :
    (i : ℕ) × (live both_sized.eventloop.timers i ≡ some (connect_call 0))
    × ((s' : Session) × (expire outside i (connect_call 0) both_sized ≡ returns s')
        × Kept nothing s'
        × (s'.display ≡ false)
        × All (Covered outside.can_create) s'.surfaces
        × ((b : ℕ) → (b == 0) ≡ false → ties_of s' b ≡ ties_of both_sized b))
unfolding react at_opening create_surface loop_create find_surface add_output configure_surface
expire_clientless_example =
    expire_clientless outside 0
      (record { pid = 100; output = some 7; registry = false; timer = some 1 }) both_sized refl refl
      refl both_sized-Kept
