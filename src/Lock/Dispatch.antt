-- ===== src/Lock/Dispatch.antt =====
-- loop.c: the timer dispatch of `loop_poll` with the callbacks of the lock screen. The nodes that
-- the list has at the start are visited in its order: a callback puts new ones in front.
use swaylock_plugin.Base.{
  ℕ, List, [], ◌∷◌, Option, none, some, if◌then◌else◌, Outcome, returns, faults, ◌>>=◌, map,
}
use swaylock_plugin.EventLoop.{Env, Timespec, LoopTimer, expired}
use swaylock_plugin.EventLoop.Freed.{timer_at, free_timer}
use swaylock_plugin.Lock.{State, TimerCall}
use swaylock_plugin.Lock.Handlers.{fire}

unfoldable pub free_node : ℕ → State → State
free_node a s = record s {
  eventloop = record s.eventloop { timers = free_timer a s.eventloop.timers };
}

-- The body of the loop. A node that is gone was freed, and reading it is a
-- fault. `rand a` is what `rand()` answers then.
unfoldable pub visit :
    Env → (ℕ → ℕ) → Timespec → ℕ → Option (LoopTimer TimerCall) → State → Outcome State
visit env rand now a none s = faults
visit env rand now a (some t) s =
    if t.removed
    then returns (free_node a s)
    else if expired t.expiry now
    then (fire env (rand a) s t.callback >>= λ s'. returns (free_node a s'))
    else returns s

unfoldable pub dispatch_from : Env → (ℕ → ℕ) → Timespec → List ℕ → State → Outcome State
unfolding visit
dispatch_from env rand now [] s = returns s
dispatch_from env rand now (a ∷ rest) s =
    visit env rand now a (timer_at a s.eventloop.timers) s >>= dispatch_from env rand now rest

unfoldable pub dispatch_timers : Env → (ℕ → ℕ) → Timespec → State → Outcome State
dispatch_timers env rand now s =
    dispatch_from env rand now (map (λ (t : LoopTimer TimerCall). t.address) s.eventloop.timers) s
