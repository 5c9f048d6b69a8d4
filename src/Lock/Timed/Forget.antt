-- ===== src/Lock/Timed/Forget.antt =====
-- What keeps every field of the lock screen pointing to its timer, or makes one empty.
use swaylock_plugin.Base.{
  ℕ, ◌≤◌, Option-cases, inl, inr, ◌≡◌, refl, sym, subst, Bool, All, Option, none, some,
}
use swaylock_plugin.EventLoop.{Loop, mark_fd, loop_remove_fd}
use swaylock_plugin.EventLoop.Live.{IsOld}
use swaylock_plugin.Lock.{State, FdCall, TimerCall}
use swaylock_plugin.Lock.Timed.{
  Sound, SoundAt, Points, without, without-Points, without-fresh, without-unused,
}

-- What removing a descriptor leaves of the timers.
abbrev pub SameTimers : Loop FdCall TimerCall → Option (Loop FdCall TimerCall × Bool) → Type 0
SameTimers L none = Unit
SameTimers L (some (M, b)) = (M.timers ≡ L.timers) × (M.allocs ≡ L.allocs)

pub loop_remove_fd-SameTimers :
    (L : Loop FdCall TimerCall) (fd : ℕ) → SameTimers L (loop_remove_fd L fd)
unfolding loop_remove_fd
loop_remove_fd-SameTimers L fd = elim (Option-cases (mark_fd L.fds 0 fd L.fd_events)) [
  | inl e ↦ rw (e, SameTimers) tt
  | inr (m, e) ↦ rw (e, SameTimers) (refl, refl)
]

module _ {freed : ℕ → Bool} {L : Loop FdCall TimerCall} {i a c g r : Option ℕ} where
  -- Only the timers of the loop matter.
  pub same_timers :
      {M : Loop FdCall TimerCall}
      → M.timers ≡ L.timers
      → M.allocs ≡ L.allocs
      → SoundAt freed L i a c g r
      → SoundAt freed M i a c g r
  same_timers {M} e f v = record {
    fresh =
        subst (λ n. All (IsOld n) M.timers) (sym f)
          (subst (λ ts. All (IsOld L.allocs) ts) (sym e) v.fresh);
    unused = λ x le. v.unused x (subst (λ n. n ≤ x) f le);
    input_points = subst (λ ts. Points freed ts i TimerCall.set_input_idle) (sym e) v.input_points;
    auth_points = subst (λ ts. Points freed ts a TimerCall.set_auth_idle) (sym e) v.auth_points;
    clear_points = subst (λ ts. Points freed ts c TimerCall.clear_password) (sym e) v.clear_points;
    grace_points = subst (λ ts. Points freed ts g TimerCall.grace_timeout) (sym e) v.grace_points;
    repeat_points =
        subst (λ ts. Points freed ts r TimerCall.keyboard_repeat) (sym e) v.repeat_points;
  }

  -- A field may be emptied.
  forget_input : SoundAt freed L i a c g r → SoundAt freed L none a c g r
  forget_input v = record {
    fresh = v.fresh;
    unused = v.unused;
    input_points = tt;
    auth_points = v.auth_points;
    clear_points = v.clear_points;
    grace_points = v.grace_points;
    repeat_points = v.repeat_points;
  }

  forget_auth : SoundAt freed L i a c g r → SoundAt freed L i none c g r
  forget_auth v = record {
    fresh = v.fresh;
    unused = v.unused;
    input_points = v.input_points;
    auth_points = tt;
    clear_points = v.clear_points;
    grace_points = v.grace_points;
    repeat_points = v.repeat_points;
  }

  forget_grace : SoundAt freed L i a c g r → SoundAt freed L i a c none r
  forget_grace v = record {
    fresh = v.fresh;
    unused = v.unused;
    input_points = v.input_points;
    auth_points = v.auth_points;
    clear_points = v.clear_points;
    grace_points = tt;
    repeat_points = v.repeat_points;
  }

  forget_clear : SoundAt freed L i a c g r → SoundAt freed L i a none g r
  forget_clear v = record {
    fresh = v.fresh;
    unused = v.unused;
    input_points = v.input_points;
    auth_points = v.auth_points;
    clear_points = tt;
    grace_points = v.grace_points;
    repeat_points = v.repeat_points;
  }

  forget_repeat : SoundAt freed L i a c g r → SoundAt freed L i a c g none
  forget_repeat v = record {
    fresh = v.fresh;
    unused = v.unused;
    input_points = v.input_points;
    auth_points = v.auth_points;
    clear_points = v.clear_points;
    grace_points = v.grace_points;
    repeat_points = tt;
  }

  -- The timer of the grace period is removed.
  pub drop_grace : SoundAt freed L i a c g r → SoundAt freed (without g L) i a c none r
  drop_grace v = record {
    fresh = without-fresh L g v.fresh;
    unused = without-unused freed L g v.unused;
    input_points =
        without-Points freed L g i TimerCall.grace_timeout TimerCall.set_input_idle v.grace_points
          v.input_points (λ e. cc e);
    auth_points =
        without-Points freed L g a TimerCall.grace_timeout TimerCall.set_auth_idle v.grace_points
          v.auth_points (λ e. cc e);
    clear_points =
        without-Points freed L g c TimerCall.grace_timeout TimerCall.clear_password v.grace_points
          v.clear_points (λ e. cc e);
    grace_points = tt;
    repeat_points =
        without-Points freed L g r TimerCall.grace_timeout TimerCall.keyboard_repeat v.grace_points
          v.repeat_points (λ e. cc e);
  }

-- The state without the timer that runs a callback.
abbrev pub forget : TimerCall → State → State
forget TimerCall.set_input_idle s = record s { input_idle_timer = none }
forget TimerCall.set_auth_idle s = record s { auth_idle_timer = none }
forget TimerCall.clear_password s = record s { clear_password_timer = none }
forget TimerCall.grace_timeout s = record s { grace_timer = none }
forget TimerCall.keyboard_repeat s = record s { seat = record s.seat { repeat_timer = none } }

pub forget-Sound :
    (freed : ℕ → Bool) (s : State) (t : TimerCall) → Sound freed s → Sound freed (forget t s)
forget-Sound freed s TimerCall.set_input_idle v = forget_input v
forget-Sound freed s TimerCall.set_auth_idle v = forget_auth v
forget-Sound freed s TimerCall.clear_password v = forget_clear v
forget-Sound freed s TimerCall.grace_timeout v = forget_grace v
forget-Sound freed s TimerCall.keyboard_repeat v = forget_repeat v
