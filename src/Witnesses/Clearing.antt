-- ===== src/Witnesses/Clearing.antt =====
-- A typed password whose timer expires.
use swaylock_plugin.Base.{refl, [], ◌∷◌, none, some, pos, false, arith}
use swaylock_plugin.EventLoop.{Timespec, expired}
use swaylock_plugin.EventLoop.Freed.{timer_at}
use swaylock_plugin.Lock.{State, TimerCall}
use swaylock_plugin.Lock.Keys.{clear_password}
use swaylock_plugin.Lock.Handlers.{step, fire, timer}
use swaylock_plugin.Lock.Dispatch.{free_node, visit, dispatch_from, dispatch_timers}
use swaylock_plugin.Lock.Timed.{nothing}
use swaylock_plugin.Lock.Timed.Guards.{Guarded}
use swaylock_plugin.Lock.Timed.Handlers.{step-Guarded}
use swaylock_plugin.Lock.Timed.Dispatch.{dispatch_timers-Guarded}
use swaylock_plugin.Witnesses.Events.{env, full}
use swaylock_plugin.Witnesses.Locks.{grace}

abbrev waiting : State
waiting = record grace {
  eventloop = record full {
    timers =
        record {
          address = 1;
          callback = TimerCall.clear_password;
          expiry = record { tv_sec = 10; tv_nsec = pos 0 };
          removed = false;
        }
        ∷ [];
  };
  clear_password_timer = some 1;
  grace_timer = none;
}

waiting-Guarded : Guarded nothing waiting
waiting-Guarded = (
  record {
    fresh = (omega arith, tt);
    unused = λ x le. refl;
    input_points = tt;
    auth_points = tt;
    clear_points = (refl, refl);
    grace_points = tt;
    repeat_points = tt;
  },
  λ e. cc e,
)

step-Guarded_example : Guarded nothing (clear_password env waiting)
unfolding step fire
step-Guarded_example =
    step-Guarded env 0 waiting (clear_password env waiting) (timer TimerCall.clear_password)
      (λ n. refl) waiting-Guarded refl

abbrev late : Timespec
late = record { tv_sec = 10; tv_nsec = 1 }

dispatch_timers-Guarded_example : Guarded nothing (free_node 1 (clear_password env waiting))
unfolding dispatch_timers dispatch_from visit timer_at expired fire
dispatch_timers-Guarded_example =
    dispatch_timers-Guarded env (λ a. 0) late waiting (free_node 1 (clear_password env waiting))
      (λ n. refl) waiting-Guarded refl
