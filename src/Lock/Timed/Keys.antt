-- ===== src/Lock/Timed/Keys.antt =====
-- The timers that password.c and seat.c arm and cancel.
use swaylock_plugin.Base.{ℕ, ℤ, Bool, none}
use swaylock_plugin.EventLoop.{Env}
use swaylock_plugin.EventLoop.Live.{loop_add_timer_runs}
use swaylock_plugin.Lock.{State, TimerCall}
use swaylock_plugin.Lock.Keys.{cancel_input_idle, cancel_password_clear}
use swaylock_plugin.Lock.Input.{stop_repeat, arm_repeat}
use swaylock_plugin.Lock.Timed.{
  Sound, drop_timer-without, without-Points, without-fresh, without-unused, with_timer-unused,
  SoundAt, with_timer-new, with_timer-Points, with_timer-fresh,
}
use swaylock_plugin.Lock.Timed.Rearmed.{Allocates}

pub cancel_input_idle-Sound :
    (freed : ℕ → Bool) (s : State) → Sound freed s → Sound freed (cancel_input_idle s)
unfolding cancel_input_idle
cancel_input_idle-Sound freed s v = rw drop_timer-without (record {
  fresh = without-fresh s.eventloop s.input_idle_timer v.fresh;
  unused = without-unused freed s.eventloop s.input_idle_timer v.unused;
  input_points = tt;
  auth_points =
      without-Points freed s.eventloop s.input_idle_timer s.auth_idle_timer TimerCall.set_input_idle
        TimerCall.set_auth_idle v.input_points v.auth_points (λ e. cc e);
  clear_points =
      without-Points freed s.eventloop s.input_idle_timer s.clear_password_timer
        TimerCall.set_input_idle TimerCall.clear_password v.input_points v.clear_points (λ e. cc e);
  grace_points =
      without-Points freed s.eventloop s.input_idle_timer s.grace_timer TimerCall.set_input_idle
        TimerCall.grace_timeout v.input_points v.grace_points (λ e. cc e);
  repeat_points =
      without-Points freed s.eventloop s.input_idle_timer s.seat.repeat_timer
        TimerCall.set_input_idle TimerCall.keyboard_repeat v.input_points v.repeat_points
        (λ e. cc e);
})

pub cancel_password_clear-Sound :
    (freed : ℕ → Bool) (s : State) → Sound freed s → Sound freed (cancel_password_clear s)
unfolding cancel_password_clear
cancel_password_clear-Sound freed s v = rw drop_timer-without (record {
  fresh = without-fresh s.eventloop s.clear_password_timer v.fresh;
  unused = without-unused freed s.eventloop s.clear_password_timer v.unused;
  input_points =
      without-Points freed s.eventloop s.clear_password_timer s.input_idle_timer
        TimerCall.clear_password TimerCall.set_input_idle v.clear_points v.input_points (λ e. cc e);
  auth_points =
      without-Points freed s.eventloop s.clear_password_timer s.auth_idle_timer
        TimerCall.clear_password TimerCall.set_auth_idle v.clear_points v.auth_points (λ e. cc e);
  clear_points = tt;
  grace_points =
      without-Points freed s.eventloop s.clear_password_timer s.grace_timer TimerCall.clear_password
        TimerCall.grace_timeout v.clear_points v.grace_points (λ e. cc e);
  repeat_points =
      without-Points freed s.eventloop s.clear_password_timer s.seat.repeat_timer
        TimerCall.clear_password TimerCall.keyboard_repeat v.clear_points v.repeat_points
        (λ e. cc e);
})

pub stop_repeat-Sound : (freed : ℕ → Bool) (s : State) → Sound freed s → Sound freed (stop_repeat s)
unfolding stop_repeat
stop_repeat-Sound freed s v = rw drop_timer-without (record {
  fresh = without-fresh s.eventloop s.seat.repeat_timer v.fresh;
  unused = without-unused freed s.eventloop s.seat.repeat_timer v.unused;
  input_points =
      without-Points freed s.eventloop s.seat.repeat_timer s.input_idle_timer
        TimerCall.keyboard_repeat TimerCall.set_input_idle v.repeat_points v.input_points
        (λ e. cc e);
  auth_points =
      without-Points freed s.eventloop s.seat.repeat_timer s.auth_idle_timer
        TimerCall.keyboard_repeat TimerCall.set_auth_idle v.repeat_points v.auth_points (λ e. cc e);
  clear_points =
      without-Points freed s.eventloop s.seat.repeat_timer s.clear_password_timer
        TimerCall.keyboard_repeat TimerCall.clear_password v.repeat_points v.clear_points
        (λ e. cc e);
  grace_points =
      without-Points freed s.eventloop s.seat.repeat_timer s.grace_timer TimerCall.keyboard_repeat
        TimerCall.grace_timeout v.repeat_points v.grace_points (λ e. cc e);
  repeat_points = tt;
})

-- A timer of the key repeat is armed when the field is empty, or its timer expired.
pub arm_repeat-Sound :
    (freed : ℕ → Bool) (env : Env) (ms : ℤ) (s : State)
    → Allocates env
    → SoundAt freed s.eventloop s.input_idle_timer s.auth_idle_timer s.clear_password_timer
        s.grace_timer none
    → Sound freed (arm_repeat env ms s)
unfolding arm_repeat
arm_repeat-Sound freed env ms s ok v =
    rw (loop_add_timer_runs env s.eventloop ms TimerCall.keyboard_repeat (ok _)) (record {
      fresh = with_timer-fresh env s.eventloop ms TimerCall.keyboard_repeat v.fresh;
      unused = with_timer-unused freed env s.eventloop ms TimerCall.keyboard_repeat v.unused;
      input_points =
          with_timer-Points freed env s.eventloop ms TimerCall.keyboard_repeat
            TimerCall.set_input_idle s.input_idle_timer v.fresh v.input_points;
      auth_points =
          with_timer-Points freed env s.eventloop ms TimerCall.keyboard_repeat
            TimerCall.set_auth_idle s.auth_idle_timer v.fresh v.auth_points;
      clear_points =
          with_timer-Points freed env s.eventloop ms TimerCall.keyboard_repeat
            TimerCall.clear_password s.clear_password_timer v.fresh v.clear_points;
      grace_points =
          with_timer-Points freed env s.eventloop ms TimerCall.keyboard_repeat
            TimerCall.grace_timeout s.grace_timer v.fresh v.grace_points;
      repeat_points = with_timer-new freed env s.eventloop ms TimerCall.keyboard_repeat v.unused;
    })
