-- ===== src/Lock/Timed/Rearmed.antt =====
-- The timers that password.c arms.
use swaylock_plugin.Base.{ℕ, ◌≡◌, sym, subst, ℤ, pos, Bool, true, Option, some}
use swaylock_plugin.EventLoop.{Env, Loop}
use swaylock_plugin.EventLoop.Live.{with_timer, loop_add_timer_runs}
use swaylock_plugin.Lock.{State, FdCall, TimerCall}
use swaylock_plugin.Lock.Keys.{schedule_input_idle, schedule_auth_idle, schedule_password_clear}
use swaylock_plugin.Lock.Timed.{
  Sound, without, drop_timer-without, without-unused, with_timer-unused, rearmed-Points,
  rearmed-fresh, with_timer-new,
}

-- No allocation fails.
abbrev pub Allocates : Env → Type 0
Allocates env = (n : ℕ) → env.calloc n ≡ true

abbrev pub renewed : Env → State → Option ℕ → ℤ → TimerCall → Loop FdCall TimerCall
renewed env s h ms c = with_timer env (without h s.eventloop) ms c

abbrev pub fresh_at : State → Option ℕ → Option ℕ
fresh_at s h = some (without h s.eventloop).allocs

pub schedule_input_idle_runs :
    (env : Env) (s : State)
    → Allocates env
    → schedule_input_idle env s ≡ record s {
      eventloop = renewed env s s.input_idle_timer (pos 1500) TimerCall.set_input_idle;
      input_idle_timer = fresh_at s s.input_idle_timer;
    }
unfolding schedule_input_idle
schedule_input_idle_runs env s ok = rw (
  drop_timer-without,
  loop_add_timer_runs env (without s.input_idle_timer s.eventloop) (pos 1500)
      TimerCall.set_input_idle (ok _),
)

pub schedule_auth_idle_runs :
    (env : Env) (s : State)
    → Allocates env
    → schedule_auth_idle env s ≡ record s {
      eventloop = renewed env s s.auth_idle_timer (pos 3000) TimerCall.set_auth_idle;
      auth_idle_timer = fresh_at s s.auth_idle_timer;
    }
unfolding schedule_auth_idle
schedule_auth_idle_runs env s ok = rw (
  drop_timer-without,
  loop_add_timer_runs env (without s.auth_idle_timer s.eventloop) (pos 3000) TimerCall.set_auth_idle
      (ok _),
)

pub schedule_password_clear_runs :
    (env : Env) (s : State)
    → Allocates env
    → schedule_password_clear env s ≡ record s {
      eventloop = renewed env s s.clear_password_timer (pos 10000) TimerCall.clear_password;
      clear_password_timer = fresh_at s s.clear_password_timer;
    }
unfolding schedule_password_clear
schedule_password_clear_runs env s ok = rw (
  drop_timer-without,
  loop_add_timer_runs env (without s.clear_password_timer s.eventloop) (pos 10000)
      TimerCall.clear_password (ok _),
)

-- A state whose timer of one callback is replaced.
pub schedule_input_idle-Sound :
    (freed : ℕ → Bool) (env : Env) (s : State)
    → Allocates env
    → Sound freed s
    → Sound freed (schedule_input_idle env s)
schedule_input_idle-Sound freed env s ok v =
    subst (Sound freed) (sym (schedule_input_idle_runs env s ok)) (record {
      fresh =
          rearmed-fresh env s.eventloop (pos 1500) s.input_idle_timer TimerCall.set_input_idle
            v.fresh;
      unused =
          with_timer-unused freed env (without s.input_idle_timer s.eventloop) (pos 1500)
            TimerCall.set_input_idle (without-unused freed s.eventloop s.input_idle_timer v.unused);
      input_points =
          with_timer-new freed env (without s.input_idle_timer s.eventloop) (pos 1500)
            TimerCall.set_input_idle (without-unused freed s.eventloop s.input_idle_timer v.unused);
      auth_points =
          rearmed-Points freed env s.eventloop (pos 1500) s.input_idle_timer s.auth_idle_timer
            TimerCall.set_input_idle TimerCall.set_auth_idle v.fresh v.input_points v.auth_points
            (λ e. cc e);
      clear_points =
          rearmed-Points freed env s.eventloop (pos 1500) s.input_idle_timer s.clear_password_timer
            TimerCall.set_input_idle TimerCall.clear_password v.fresh v.input_points v.clear_points
            (λ e. cc e);
      grace_points =
          rearmed-Points freed env s.eventloop (pos 1500) s.input_idle_timer s.grace_timer
            TimerCall.set_input_idle TimerCall.grace_timeout v.fresh v.input_points v.grace_points
            (λ e. cc e);
      repeat_points =
          rearmed-Points freed env s.eventloop (pos 1500) s.input_idle_timer s.seat.repeat_timer
            TimerCall.set_input_idle TimerCall.keyboard_repeat v.fresh v.input_points
            v.repeat_points (λ e. cc e);
    })

pub schedule_auth_idle-Sound :
    (freed : ℕ → Bool) (env : Env) (s : State)
    → Allocates env
    → Sound freed s
    → Sound freed (schedule_auth_idle env s)
schedule_auth_idle-Sound freed env s ok v =
    subst (Sound freed) (sym (schedule_auth_idle_runs env s ok)) (record {
      fresh =
          rearmed-fresh env s.eventloop (pos 3000) s.auth_idle_timer TimerCall.set_auth_idle
            v.fresh;
      unused =
          with_timer-unused freed env (without s.auth_idle_timer s.eventloop) (pos 3000)
            TimerCall.set_auth_idle (without-unused freed s.eventloop s.auth_idle_timer v.unused);
      input_points =
          rearmed-Points freed env s.eventloop (pos 3000) s.auth_idle_timer s.input_idle_timer
            TimerCall.set_auth_idle TimerCall.set_input_idle v.fresh v.auth_points v.input_points
            (λ e. cc e);
      auth_points =
          with_timer-new freed env (without s.auth_idle_timer s.eventloop) (pos 3000)
            TimerCall.set_auth_idle (without-unused freed s.eventloop s.auth_idle_timer v.unused);
      clear_points =
          rearmed-Points freed env s.eventloop (pos 3000) s.auth_idle_timer s.clear_password_timer
            TimerCall.set_auth_idle TimerCall.clear_password v.fresh v.auth_points v.clear_points
            (λ e. cc e);
      grace_points =
          rearmed-Points freed env s.eventloop (pos 3000) s.auth_idle_timer s.grace_timer
            TimerCall.set_auth_idle TimerCall.grace_timeout v.fresh v.auth_points v.grace_points
            (λ e. cc e);
      repeat_points =
          rearmed-Points freed env s.eventloop (pos 3000) s.auth_idle_timer s.seat.repeat_timer
            TimerCall.set_auth_idle TimerCall.keyboard_repeat v.fresh v.auth_points v.repeat_points
            (λ e. cc e);
    })

pub schedule_password_clear-Sound :
    (freed : ℕ → Bool) (env : Env) (s : State)
    → Allocates env
    → Sound freed s
    → Sound freed (schedule_password_clear env s)
schedule_password_clear-Sound freed env s ok v =
    subst (Sound freed) (sym (schedule_password_clear_runs env s ok)) (record {
      fresh =
          rearmed-fresh env s.eventloop (pos 10000) s.clear_password_timer TimerCall.clear_password
            v.fresh;
      unused =
          with_timer-unused freed env (without s.clear_password_timer s.eventloop) (pos 10000)
            TimerCall.clear_password
            (without-unused freed s.eventloop s.clear_password_timer v.unused);
      input_points =
          rearmed-Points freed env s.eventloop (pos 10000) s.clear_password_timer s.input_idle_timer
            TimerCall.clear_password TimerCall.set_input_idle v.fresh v.clear_points v.input_points
            (λ e. cc e);
      auth_points =
          rearmed-Points freed env s.eventloop (pos 10000) s.clear_password_timer s.auth_idle_timer
            TimerCall.clear_password TimerCall.set_auth_idle v.fresh v.clear_points v.auth_points
            (λ e. cc e);
      clear_points =
          with_timer-new freed env (without s.clear_password_timer s.eventloop) (pos 10000)
            TimerCall.clear_password
            (without-unused freed s.eventloop s.clear_password_timer v.unused);
      grace_points =
          rearmed-Points freed env s.eventloop (pos 10000) s.clear_password_timer s.grace_timer
            TimerCall.clear_password TimerCall.grace_timeout v.fresh v.clear_points v.grace_points
            (λ e. cc e);
      repeat_points =
          rearmed-Points freed env s.eventloop (pos 10000) s.clear_password_timer
            s.seat.repeat_timer TimerCall.clear_password TimerCall.keyboard_repeat v.fresh
            v.clear_points v.repeat_points (λ e. cc e);
    })
