-- ===== src/SleepWatcher.antt =====
-- sleep-watcher.c: the helper that holds an inhibitor lock of the login manager while a grace period
-- runs, and tells the lock screen when the system goes to sleep. What D-Bus, poll and read answer
-- comes from outside.
pub mod Order
use swaylock_plugin.Base.{
  ℕ, Bool, true, false, List, [], ◌∷◌, ◌++◌, Option, none, some, Outcome, returns, aborts, blocks,
  faults, ◌>>=◌,
}

-- What the helper does to its descriptors: it closes one, or a read of one returns.
pub data Act : Type 0 where
  closes waits : ℕ → Act

-- `struct state`; `none` is -1.
pub record Watcher : Type 0 where
  pub sleep_lock_fd : Option ℕ
  pub comm_r : ℕ
  pub comm_w : Option ℕ
  pub acts : List Act

-- The call of Inhibit fails, its answer cannot be read, or the descriptor is copied, or not.
pub data InhibitAnswer : Type 0 where
  call_failed parse_failed : InhibitAnswer
  copied : Option ℕ → InhibitAnswer

pub acquire_inhibitor_lock : InhibitAnswer → Watcher → Watcher
acquire_inhibitor_lock call_failed s = s
acquire_inhibitor_lock parse_failed s = s
acquire_inhibitor_lock (copied fd) s = record s { sleep_lock_fd = fd }

pub release_lock : Option ℕ → Watcher → Watcher
release_lock none s = s
release_lock (some fd) s = record s { acts = s.acts ++ closes fd ∷ [] }

pub release_inhibitor_lock : Watcher → Watcher
unfolding release_lock
release_inhibitor_lock s = record (release_lock s.sleep_lock_fd s) { sleep_lock_fd = none }

-- The system goes down, with the field `comm_w`: `answered` is whether the read of `comm_r` returns,
-- with whatever value.
pub going_down : Bool → Option ℕ → Watcher → Outcome Watcher
unfolding release_inhibitor_lock
going_down answered none s = aborts
going_down false (some w) s = blocks
going_down true (some w) s = returns (
    release_inhibitor_lock
      (record s { comm_w = none; acts = s.acts ++ closes w ∷ waits s.comm_r ∷ [] }))

-- A signal PrepareForSleep.
pub record Signal : Type 0 where
  pub down : Bool
  pub inhibit : InhibitAnswer
  pub answered : Bool

-- `userdata` is the state, or `none` for NULL, whose fields are read on both branches.
pub prepare_for_sleep : Signal → Option Watcher → Outcome Watcher
unfolding acquire_inhibitor_lock going_down
prepare_for_sleep signal none = faults
prepare_for_sleep signal (some s) = elim signal.down [
  | true ↦ going_down signal.answered s.comm_w s
  | false ↦ returns (acquire_inhibitor_lock signal.inhibit s)
]

-- A round of the loop of `run`: poll is interrupted or fails; `comm_r` is ready; or the bus is, and
-- `sd_bus_process` fails, handles another message, or handles the signal.
pub data Round : Type 0 where
  interrupted poll_failed comm_ready bus_failed bus_other : Round
  bus_signal : Signal → Round

-- The loop. The match was added with NULL as the userdata of the handler. A script that ends is a
-- poll that never returns.
pub run_loop : List Round → Watcher → Outcome Watcher
unfolding prepare_for_sleep
run_loop [] s = blocks
run_loop (interrupted ∷ rounds) s = run_loop rounds s
run_loop (poll_failed ∷ rounds) s = returns s
run_loop (comm_ready ∷ rounds) s = returns s
run_loop (bus_failed ∷ rounds) s = returns s
run_loop (bus_other ∷ rounds) s = run_loop rounds s
run_loop (bus_signal signal ∷ rounds) s =
    let more = run_loop rounds in prepare_for_sleep signal none >>= more

-- `run` after the bus is opened and the match added.
pub run : InhibitAnswer → List Round → ℕ → ℕ → Outcome Watcher
unfolding acquire_inhibitor_lock run_loop
run inhibit rounds comm_r comm_w = run_loop rounds (
    acquire_inhibitor_lock inhibit
      (record { sleep_lock_fd = none; comm_r = comm_r; comm_w = some comm_w; acts = [] }))
