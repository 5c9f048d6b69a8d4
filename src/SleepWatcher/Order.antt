-- ===== src/SleepWatcher/Order.antt =====
-- What the helper does until the first signal of the login manager, and what that signal does.
use swaylock_plugin.Base.{
  ℕ, ◌≡◌, refl, true, List, [], ◌∷◌, Option, none, some, Outcome, returns, blocks, faults,
}
use swaylock_plugin.SleepWatcher.{
  closes, waits, Watcher, InhibitAnswer, call_failed, parse_failed, copied, acquire_inhibitor_lock,
  release_lock, release_inhibitor_lock, going_down, prepare_for_sleep, Round, interrupted,
  poll_failed, comm_ready, bus_failed, bus_other, bus_signal, run_loop, run,
}

-- How the rounds go on until one ends the helper.
pub data Ending : Type 0 where
  waiting ended signalled : Ending

unfoldable pub ending : List Round → Ending
ending [] = waiting
ending (interrupted ∷ rounds) = ending rounds
ending (poll_failed ∷ rounds) = ended
ending (comm_ready ∷ rounds) = ended
ending (bus_failed ∷ rounds) = ended
ending (bus_other ∷ rounds) = ending rounds
ending (bus_signal signal ∷ rounds) = signalled

abbrev pub outcome : Watcher → Ending → Outcome Watcher
outcome s waiting = blocks
outcome s ended = returns s
outcome s signalled = faults

loop_ends : (rounds : List Round) (s : Watcher) → run_loop rounds s ≡ outcome s (ending rounds)
unfolding run_loop prepare_for_sleep ending
loop_ends [] s = refl
loop_ends (interrupted ∷ rounds) s = loop_ends rounds s
loop_ends (poll_failed ∷ rounds) s = refl
loop_ends (comm_ready ∷ rounds) s = refl
loop_ends (bus_failed ∷ rounds) s = refl
loop_ends (bus_other ∷ rounds) s = loop_ends rounds s
loop_ends (bus_signal signal ∷ rounds) s = refl

-- The descriptor of the inhibitor lock that the helper holds when its loop begins.
abbrev pub lock_of : InhibitAnswer → Option ℕ
lock_of call_failed = none
lock_of parse_failed = none
lock_of (copied fd) = fd

abbrev pub holding : Option ℕ → ℕ → ℕ → Watcher
holding l r w = record { sleep_lock_fd = l; comm_r = r; comm_w = some w; acts = [] }

started :
    (inhibit : InhibitAnswer) (r w : ℕ)
    → acquire_inhibitor_lock inhibit (holding none r w) ≡ holding (lock_of inhibit) r w
unfolding acquire_inhibitor_lock
started call_failed r w = refl
started parse_failed r w = refl
started (copied fd) r w = refl

-- Whatever D-Bus and poll answer, the helper faults if a signal is handled before poll_failed,
-- the end of the pipe or bus_failed ends its loop, waits for ever if nothing ends it, and else
-- returns, having closed nothing and still holding its lock and both pipes; while the handler,
-- had it been given that state, would on a signal that the system goes down, with a lock l and a
-- read that returns, close the pipe to the lock screen, have its read of the other pipe return,
-- and then close l.
pub run_faults :
    (inhibit i : InhibitAnswer) (rounds : List Round) (r w l : ℕ)
    → (run inhibit rounds r w ≡ outcome (holding (lock_of inhibit) r w) (ending rounds))
      × (prepare_for_sleep
            (record { down = true; inhibit = i; answered = true })
            (some (holding (some l) r w))
          ≡ returns (record {
            sleep_lock_fd = none;
            comm_r = r;
            comm_w = none;
            acts = closes w ∷ waits r ∷ closes l ∷ [];
          }))
unfolding run prepare_for_sleep going_down release_inhibitor_lock release_lock
run_faults inhibit i rounds r w l =
    (rw (started inhibit r w) (loop_ends rounds (holding (lock_of inhibit) r w)), refl)
