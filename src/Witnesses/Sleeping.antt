-- ===== src/Witnesses/Sleeping.antt =====
-- The system goes to sleep once.
use swaylock_plugin.Base.{true, none, some, returns, faults, ◌≡◌, List, [], ◌∷◌}
use swaylock_plugin.SleepWatcher.{
  copied, call_failed, closes, waits, Round, interrupted, bus_signal, comm_ready, prepare_for_sleep,
  run,
}
use swaylock_plugin.SleepWatcher.Order.{ending, run_faults}

abbrev night : List Round
night =
    interrupted
    ∷ bus_signal (record { down = true; inhibit = copied (some 9); answered = true })
    ∷ comm_ready
    ∷ []

run_faults_example :
    (run (copied (some 8)) night 5 6 ≡ faults)
    × (prepare_for_sleep
          (record { down = true; inhibit = call_failed; answered = true })
          (some (record { sleep_lock_fd = some 8; comm_r = 5; comm_w = some 6; acts = [] }))
        ≡ returns (record {
          sleep_lock_fd = none;
          comm_r = 5;
          comm_w = none;
          acts = closes 6 ∷ waits 5 ∷ closes 8 ∷ [];
        }))
unfolding ending
run_faults_example = run_faults (copied (some 8)) call_failed night 5 6 8
