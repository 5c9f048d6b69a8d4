-- ===== src/Lock/Handlers.antt =====
-- main.c: the callbacks of the event loop that end the lock, show a failed attempt or end the grace
-- period, and the start of the grace period in `main`.
pub mod Unlock
pub mod Grace
use swaylock_plugin.Base.{
  ℤ, pos, ℕ, zero, suc, ◌+◌, ◌%◌, ◌^◌, Bool, true, false, ◌||◌, List, [], ◌∷◌, Option, none, some,
  ◌==◌, if◌then◌else◌, u32, Outcome, returns, exits, aborts, blocks, faults, ◌>>=◌,
}
use swaylock_plugin.EventLoop.{
  Env, Loop, Mask, Pollfd, want_in, loop_add_timer, loop_remove_timer, loop_add_fd, loop_remove_fd,
}
use swaylock_plugin.Comm.{Reader, read_comm_reply}
use swaylock_plugin.Lock.{State, AuthState, TimerCall, FdCall, damage_state, drop_timer, no_fd}
use swaylock_plugin.Lock.Keys.{
  Keysym, schedule_auth_idle, set_input_idle, set_auth_idle, clear_password,
}
use swaylock_plugin.Lock.Input.{
  Keymap, Modifiers, keyboard_key, keyboard_leave, keyboard_keymap, keyboard_modifiers,
  keyboard_repeat_info, keyboard_repeat, pointer_enter, pointer_motion, pointer_button,
  seat_handle_capabilities,
}

-- `dispatched` is whether `wl_display_dispatch` succeeded.
unfoldable pub display_in : Bool → State → State
display_in true s = s
display_in false s = record s { run_display = false }

-- After the reply was read.
unfoldable pub replied : Env → State → Option Bool → Outcome State
replied env s none = exits 1
replied env s (some true) = returns (record s { run_display = false })
replied env s (some false) =
    let s' = schedule_auth_idle env (record s { auth_state = AuthState.invalid }) in
    returns (damage_state (record s' { failed_attempts = u32 (s'.failed_attempts + 1) }))

unfoldable pub comm_in : Env → Mask → State → Outcome State
unfolding replied
comm_in env mask s =
    if mask.pollin
    then (do
      (r, reply) ← read_comm_reply s.comm_read
      replied env (record s { comm_read = r }) reply)
    else if mask.pollhup || mask.pollerr
    then exits 1
    else returns s

unfoldable pub term_in : State → State
term_in s = record s { run_display = false }

-- `close(fd)`.
pub close_fd : ℕ → List ℕ → List ℕ
close_fd fd [] = []
close_fd fd (x ∷ xs) = let rest = close_fd fd xs in if x == fd then rest else x ∷ rest

unfoldable pub close_sleep_comm : State → State
unfolding close_fd
close_sleep_comm s = record s {
  open_fds = close_fd s.sleep_comm_w (close_fd s.sleep_comm_r s.open_fds);
  sleep_comm_r = no_fd;
  sleep_comm_w = no_fd;
}

unfoldable pub remove_fd : ℕ → State → Outcome State
remove_fd fd s = elim (loop_remove_fd s.eventloop fd) [
  | none ↦ faults
  | some (loop, _) ↦ returns (record s { eventloop = loop })
]

unfoldable pub grace_timeout : State → Outcome State
unfolding remove_fd close_sleep_comm
grace_timeout s = do
  s' ← remove_fd s.sleep_comm_r (record s { grace_timer = none })
  returns (close_sleep_comm s')

-- `lock_in` with the field `grace_timer`.
unfoldable pub lock_in_grace : Option ℕ → State → Outcome State
unfolding remove_fd close_sleep_comm
lock_in_grace none s = returns s
lock_in_grace (some a) s = do
  s' ← remove_fd s.sleep_comm_r (record (drop_timer (some a) s) { grace_timer = none })
  returns (close_sleep_comm s')

unfoldable pub lock_in : State → Outcome State
unfolding lock_in_grace
lock_in s = lock_in_grace s.grace_timer s

-- The `if` of `sleep_in`.
unfoldable pub sleep_in_grace : Option ℕ → State → State
unfolding close_sleep_comm
sleep_in_grace none s = s
sleep_in_grace (some a) s = close_sleep_comm (record (drop_timer (some a) s) { grace_timer = none })

-- The descriptor is removed from the loop after the `if`, by the field as it then is.
unfoldable pub sleep_in : State → Outcome State
unfolding remove_fd sleep_in_grace
sleep_in s = let s' = sleep_in_grace s.grace_timer s in remove_fd s'.sleep_comm_r s'

-- The start of the grace period: `pipes` are the descriptors of `start_sleep_watcher`, or `none`
-- where it fails.
unfoldable pub start_grace : Env → Bool → Pollfd → ℕ → Option (ℕ × ℕ) → State → Outcome State
start_grace env realloc_ok junk delay none s = returns s
start_grace env realloc_ok junk delay (some (r, w)) s =
    let (loop, timer) = loop_add_timer env s.eventloop (pos delay) TimerCall.grace_timeout in
    loop_add_fd env realloc_ok junk loop r want_in FdCall.sleep_in >>= λ loop'. returns (record s {
      sleep_comm_r = r;
      sleep_comm_w = w;
      open_fds = r ∷ w ∷ s.open_fds;
      grace_timer = timer;
      eventloop = loop';
    })

-- What can happen to the lock screen.
pub data Event : Type 0 where
  key : Bool → Keysym → ℕ → Event
  leave : Event
  keymap : Keymap → Event
  modifiers : Modifiers → Event
  repeat_info : ℤ → ℤ → Event
  enter motion : ℕ → ℤ → ℤ → Event
  button : Event
  capabilities : Bool → Bool → Event
  display : Bool → Event
  reply : Mask → Event
  sigusr1 sigusr2 sleep_notice : Event
  timer : TimerCall → Event

-- The callback of a timer that expired.
unfoldable pub fire : Env → ℕ → State → TimerCall → Outcome State
fire env rand s TimerCall.set_input_idle = returns (set_input_idle s)
fire env rand s TimerCall.set_auth_idle = returns (set_auth_idle s)
fire env rand s TimerCall.clear_password = returns (clear_password env s)
fire env rand s TimerCall.grace_timeout = grace_timeout s
fire env rand s TimerCall.keyboard_repeat = keyboard_repeat env rand s

unfoldable pub step : Env → ℕ → State → Event → Outcome State
unfolding fire
step env rand s (key pressed sym c) = keyboard_key env rand pressed sym c s
step env rand s leave = returns (keyboard_leave s)
step env rand s (keymap k) = keyboard_keymap k s
step env rand s (modifiers m) = returns (keyboard_modifiers m s)
step env rand s (repeat_info rate delay) = returns (keyboard_repeat_info rate delay s)
step env rand s (enter now x y) = returns (pointer_enter now x y s)
step env rand s (motion now x y) = returns (pointer_motion now x y s)
step env rand s button = returns (pointer_button s)
step env rand s (capabilities p k) = returns (seat_handle_capabilities p k s)
step env rand s (display ok) = returns (display_in ok s)
step env rand s (reply mask) = comm_in env mask s
step env rand s sigusr1 = returns (term_in s)
step env rand s sigusr2 = lock_in s
step env rand s sleep_notice = sleep_in s
step env rand s (timer t) = fire env rand s t
