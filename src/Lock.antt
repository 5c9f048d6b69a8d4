-- ===== src/Lock.antt =====
-- The state of the lock screen (`struct swaylock_state` of include/swaylock.h) as far as password.c
-- and the callbacks of main.c that end the lock change it, and the callbacks that the event loop
-- holds. Rendering is the flag `dirty`, which `damage_state` sets.
pub mod Keys
pub mod Input
pub mod Handlers
pub mod Dispatch
pub mod Timed
use swaylock_plugin.Base.{
  ℤ, ℕ, zero, suc, ◌+◌, ◌-◌, ◌%◌, ◌^◌, Bool, true, false, List, [], ◌∷◌, Option, none, some, ltb,
}
use swaylock_plugin.EventLoop.{
  Loop, LoopTimer, Env, Mask, Pollfd, loop_remove_timer, loop_add_timer,
}
use swaylock_plugin.Password.{SwaylockPassword}
use swaylock_plugin.Comm.{Writer, Reader}

-- The timer callbacks of the lock screen itself.
pub data TimerCall : Type 0 where
  set_input_idle set_auth_idle clear_password grace_timeout keyboard_repeat : TimerCall

-- The descriptor callbacks.
pub data FdCall : Type 0 where
  display_in comm_in dispatch_nested term_in lock_in sleep_in : FdCall

pub data AuthState : Type 0 where
  idle validating invalid : AuthState

pub data InputState : Type 0 where
  idle clear letter backspace neutral : InputState

-- The keysyms that the switch names; `other` is every other one.
pub data Keysym : Type 0 where
  kp_enter return delete back_space escape : Keysym
  caps_lock shift_l shift_r control_l control_r meta_l meta_r : Keysym
  alt_l alt_r super_l super_r : Keysym
  key_m key_d key_j key_c key_u other : Keysym

-- `struct swaylock_seat`. The program's seats have the same fields; one of them is modelled. Times
-- are int32_t, and positions are wl_fixed_t, in 1/256; a timer is its address.
pub record Seat : Type 0 where
  pub pointer : Bool
  pub keyboard : Bool
  pub repeat_period_ms : ℤ
  pub repeat_delay_ms : ℤ
  pub repeat_sym : Keysym
  pub repeat_codepoint : ℕ
  pub repeat_timer : Option ℕ
  pub last_interval : ℕ
  pub interval_start_x : ℤ
  pub interval_start_y : ℤ
  pub last_mouse_x : ℤ
  pub last_mouse_y : ℤ

-- Descriptors are 32-bit patterns: -1 is `no_fd`.
abbrev pub no_fd : ℕ
no_fd = 2 ^ 32 - 1

pub record State : Type 0 where
  pub eventloop : Loop FdCall TimerCall
  pub input_idle_timer : Option ℕ
  pub auth_idle_timer : Option ℕ
  pub clear_password_timer : Option ℕ
  pub grace_timer : Option ℕ
  pub password : SwaylockPassword
  pub ignore_empty : Bool  -- args.ignore_empty
  pub control : Bool  -- xkb.control
  pub xkb_caps_lock : Bool  -- xkb.caps_lock
  pub xkb_state : Bool  -- xkb.state is not null
  pub seat : Seat
  pub far : ℤ → ℤ → Bool  -- the float test against args.grace_pointer_hysteresis
  pub auth_state : AuthState
  pub input_state : InputState
  pub highlight_start : ℕ  -- uint32_t
  pub failed_attempts : ℕ  -- int
  pub run_display : Bool
  pub dirty : Bool
  pub sleep_comm_r : ℕ
  pub sleep_comm_w : ℕ
  pub open_fds : List ℕ  -- the descriptors that are open in the kernel
  pub comm_write : Writer  -- the pipe of requests
  pub comm_read : Reader  -- the pipe of replies

abbrev pub damage_state : State → State
damage_state s = record s { dirty = true }

-- `if (timer) loop_remove_timer(eventloop, timer)`.
unfoldable pub drop_timer : Option ℕ → State → State
drop_timer none s = s
drop_timer (some a) s = record s { eventloop = (loop_remove_timer s.eventloop a).0 }
