-- ===== src/Witnesses/Locks.antt =====
-- A lock screen in its grace period.
use swaylock_plugin.Base.{pos, ltb_ℤ, ◌≡◌, refl, List, [], ◌∷◌, true, false, none, some, returns}
use swaylock_plugin.EventLoop.Fds.{Entry}
use swaylock_plugin.Lock.{other, State, AuthState, InputState, FdCall}
use swaylock_plugin.Lock.Handlers.{step, term_in, sigusr1, lock_in, sleep_in}
use swaylock_plugin.Lock.Handlers.Grace.{Ended, lock_in-Ended, sleep_in-Ended}
use swaylock_plugin.Lock.Handlers.Unlock.{Release, step-Release}
use swaylock_plugin.Witnesses.Text.{typed}
use swaylock_plugin.Witnesses.Events.{env, cell, call, entries, full, full-Aligned}

abbrev pub grace : State
grace = record {
  eventloop = full;
  input_idle_timer = none;
  auth_idle_timer = none;
  clear_password_timer = none;
  grace_timer = some 0;
  password = typed;
  ignore_empty = false;
  control = false;
  xkb_caps_lock = false;
  xkb_state = true;
  seat = record {
    pointer = true;
    keyboard = true;
    repeat_period_ms = pos 40;
    repeat_delay_ms = pos 600;
    repeat_sym = other;
    repeat_codepoint = 0;
    repeat_timer = none;
    last_interval = 0;
    interval_start_x = pos 0;
    interval_start_y = pos 0;
    last_mouse_x = pos 0;
    last_mouse_y = pos 0;
  };
  far = λ x y. ltb_ℤ (pos 2560) x;
  auth_state = AuthState.idle;
  input_state = InputState.idle;
  highlight_start = 0;
  failed_attempts = 0;
  run_display = true;
  dirty = false;
  sleep_comm_r = 7;
  sleep_comm_w = 8;
  open_fds = 7 ∷ 8 ∷ 9 ∷ [];
  comm_write = record { script = []; pipe = [] };
  comm_read = record { script = []; pipe = []; closed = false };
}

-- The descriptor 7 marked.
abbrev marked_entries : List (Entry FdCall)
marked_entries = (cell 3, call FdCall.display_in true) ∷ (cell 7, call FdCall.sleep_in true) ∷ []

step-Release_example : Release grace sigusr1
unfolding step term_in
step-Release_example =
    step-Release env 0 grace (record grace { run_display = false }) sigusr1 refl refl refl

lock_in-Ended_example : (s' : State) × (lock_in grace ≡ returns s') × Ended grace s' marked_entries
lock_in-Ended_example = lock_in-Ended grace 0 entries refl full-Aligned

sleep_in-Ended_example : (s' : State) × (sleep_in grace ≡ returns s') × Ended grace s' entries
sleep_in-Ended_example = sleep_in-Ended grace 0 entries refl full-Aligned refl
