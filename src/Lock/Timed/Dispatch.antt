-- ===== src/Lock/Timed/Dispatch.antt =====
-- The timer dispatch frees no timer that a field still points to.
use swaylock_plugin.Base.{
  ℕ, ◌≡◌, refl, ◌∙◌, subst, inl, inr, List, [], ◌∷◌, Option, none, some, Bool-cases, Outcome,
  returns, exits, aborts, blocks, faults, ◌>>=◌,
}
use swaylock_plugin.EventLoop.{Env, LoopTimer, Timespec, expired}
use swaylock_plugin.EventLoop.Freed.{
  timer_at, free_timer, free_timer-IsOld, free_timer-live, timer_at-live, timer_at-IsOld,
}
use swaylock_plugin.Lock.{State, TimerCall}
use swaylock_plugin.Lock.Handlers.{fire}
use swaylock_plugin.Lock.Dispatch.{free_node, visit, dispatch_from, dispatch_timers}
use swaylock_plugin.Lock.Timed.{nothing, Points}
use swaylock_plugin.Lock.Timed.Rearmed.{Allocates}
use swaylock_plugin.Lock.Timed.Guards.{Guarded, Guards, if-Guards}
use swaylock_plugin.Lock.Timed.Handlers.{fire-Guards}
use swaylock_plugin.Lock.Timed.Visited.{visited, marked-Sound, firing-Sound}

kept-Points :
    (ts : List (LoopTimer TimerCall)) (a : ℕ) (h : Option ℕ) (d : TimerCall)
    → Points (visited a) ts h d
    → Points nothing (free_timer a ts) h d
kept-Points ts a none d p = tt
kept-Points ts a (some b) d (q, f) = (free_timer-live a b ts f ∙ q, refl)

freed-Guarded : (s : State) (a : ℕ) → Guarded (visited a) s → Guarded nothing (free_node a s)
unfolding free_node
freed-Guarded s a (v, h) =
    let ts = s.eventloop.timers in
    (
      record {
        fresh = free_timer-IsOld s.eventloop.allocs a ts v.fresh;
        unused = λ x le. refl;
        input_points = kept-Points ts a s.input_idle_timer TimerCall.set_input_idle v.input_points;
        auth_points = kept-Points ts a s.auth_idle_timer TimerCall.set_auth_idle v.auth_points;
        clear_points =
            kept-Points ts a s.clear_password_timer TimerCall.clear_password v.clear_points;
        grace_points = kept-Points ts a s.grace_timer TimerCall.grace_timeout v.grace_points;
        repeat_points =
            kept-Points ts a s.seat.repeat_timer TimerCall.keyboard_repeat v.repeat_points;
      },
      h,
    )

freed-Guards :
    (a : ℕ) (o : Outcome State)
    → Guards (visited a) o
    → Guards nothing (o >>= λ s. returns (free_node a s))
freed-Guards a (returns s) g = freed-Guarded s a g
freed-Guards a (exits n) g = tt
freed-Guards a aborts g = tt
freed-Guards a blocks g = tt
freed-Guards a faults g = tt

visit-Guards :
    (env : Env) (rand : ℕ → ℕ) (now : Timespec) (a : ℕ) (o : Option (LoopTimer TimerCall))
    (s : State)
    → Allocates env
    → timer_at a s.eventloop.timers ≡ o
    → Guarded nothing s
    → Guards nothing (visit env rand now a o s)
unfolding visit
visit-Guards env rand now a none s ok e g = tt
visit-Guards env rand now a (some t) s ok e (v, h) =
    let ts = s.eventloop.timers in
    let found = timer_at-live a ts t e in
    elim (Bool-cases t.removed) [
      | inl r ↦ rw r (
          freed-Guarded s a (
            marked-Sound s a (timer_at-IsOld s.eventloop.allocs a ts t v.fresh e) (rw r at found) v,
            h,
          ))
      | inr r ↦ rw r (
          if-Guards nothing (expired t.expiry now)
            (fire env (rand a) s t.callback >>= λ s'. returns (free_node a s')) (returns s)
            (freed-Guards a (fire env (rand a) s t.callback) (
              fire-Guards (visited a) env (rand a) s t.callback ok
                (firing-Sound s a t.callback (rw r at found) v) h))
            (v, h))
    ]

bind-Guards :
    (o : Outcome State) (f : State → Outcome State)
    → Guards nothing o
    → ((s : State) → Guarded nothing s → Guards nothing (f s))
    → Guards nothing (o >>= f)
bind-Guards (returns s) f g k = k s g
bind-Guards (exits n) f g k = tt
bind-Guards aborts f g k = tt
bind-Guards blocks f g k = tt
bind-Guards faults f g k = tt

dispatch_from-Guards :
    (env : Env) (rand : ℕ → ℕ) (now : Timespec) (addresses : List ℕ) (s : State)
    → Allocates env
    → Guarded nothing s
    → Guards nothing (dispatch_from env rand now addresses s)
unfolding dispatch_from
dispatch_from-Guards env rand now [] s ok g = g
dispatch_from-Guards env rand now (a ∷ rest) s ok g =
    bind-Guards (visit env rand now a (timer_at a s.eventloop.timers) s)
      (dispatch_from env rand now rest)
      (visit-Guards env rand now a (timer_at a s.eventloop.timers) s ok refl g)
      (λ t. dispatch_from-Guards env rand now rest t ok)

-- Where no allocation of a timer fails, a timer dispatch that returns, which runs the callbacks
-- of the expired timers and frees their nodes and the marked ones, keeps the same invariant:
-- afterwards no field points to a node that was freed, and a password that is not empty still
-- has its clearing timer in the loop.
pub dispatch_timers-Guarded :
    (env : Env) (rand : ℕ → ℕ) (now : Timespec) (s s' : State)
    → Allocates env
    → Guarded nothing s
    → dispatch_timers env rand now s ≡ returns s'
    → Guarded nothing s'
unfolding dispatch_timers
dispatch_timers-Guarded env rand now s s' ok g run =
    subst (Guards nothing) run (dispatch_from-Guards env rand now _ s ok g)
