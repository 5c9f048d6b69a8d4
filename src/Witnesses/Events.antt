-- ===== src/Witnesses/Events.antt =====
-- A loop with two descriptors, the first of them marked for removal.
use swaylock_plugin.Base.{
  ℕ, ◌+◌, ◌*◌, pos, negsuc, ◌≡◌, refl, List, [], ◌∷◌, arith, Bool, true, false, not, ◌&&◌, returns,
  faults,
}
use swaylock_plugin.EventLoop.{LoopTimer}
use swaylock_plugin.Base.{All}
use swaylock_plugin.EventLoop.Poll.{poll_timeout, InTime, IsDue, Any, poll_timeout-punctual}
use swaylock_plugin.EventLoop.{
  Pollfd, Timespec, Env, LoopFdEvent, Loop, no_events, want_in, loop_add_fd, free_removed_fds,
  expiry_after, expired,
}
use swaylock_plugin.EventLoop.Fds.{Entry}
use swaylock_plugin.EventLoop.Aligned.{
  Aligned, with_entry, loop_add_fd-Aligned, free_removed_fds-Aligned,
}
use swaylock_plugin.EventLoop.Timers.{IsAt, expiry_after_exact, expiry_after_past, to_ns}
use swaylock_plugin.Lock.{FdCall, TimerCall}

abbrev pub env : Env
env = record { clock = λ n. record { tv_sec = n; tv_nsec = 999000000 }; calloc = λ n. true }

abbrev pub cell : ℕ → Pollfd
cell fd = record { fd = fd; events = want_in; revents = no_events }

abbrev pub call : FdCall → Bool → LoopFdEvent FdCall
call f removed = record { callback = f; removed = removed }

abbrev pub entries : List (Entry FdCall)
entries = (cell 3, call FdCall.display_in true) ∷ (cell 7, call FdCall.sleep_in false) ∷ []

-- A table of capacity two that is full.
abbrev pub full : Loop FdCall TimerCall
full = record {
  fds = cell 3 ∷ cell 7 ∷ [];
  fd_length = 2;
  fd_capacity = 2;
  fd_events = call FdCall.display_in true ∷ call FdCall.sleep_in false ∷ [];
  timers = [];
  allocs = 2;
}

pub full-Aligned : Aligned full entries
full-Aligned = record { unused = []; table = refl; list = refl; count = refl; capacity = refl }

loop_add_fd-Aligned_example :
    ((realloc_ok : Bool)
      → (true && not realloc_ok) ≡ false
      → (loop' : Loop FdCall TimerCall) × (loop_add_fd env realloc_ok
            (cell 0)
            full
            9
            want_in
            FdCall.comm_in
          ≡ returns loop')
        × Aligned loop' (with_entry entries 9 want_in FdCall.comm_in))
    × (true ≡ true → loop_add_fd env false (cell 0) full 9 want_in FdCall.comm_in ≡ faults)
loop_add_fd-Aligned_example =
    loop_add_fd-Aligned env (cell 0) full entries 9 want_in FdCall.comm_in full-Aligned refl

free_removed_fds-Aligned_example :
    Aligned (free_removed_fds full) ((cell 7, call FdCall.sleep_in false) ∷ [])
free_removed_fds-Aligned_example = free_removed_fds-Aligned full entries full-Aligned

abbrev late : Timespec
late = record { tv_sec = 5; tv_nsec = 999000000 }

expiry_after_exact_example : IsAt (expiry_after late (pos 1500)) (to_ns late + 1500 * 1000000)
expiry_after_exact_example = expiry_after_exact late 1500 (omega arith)

expiry_after_past_example : expired (expiry_after late (negsuc 0)) late ≡ true
expiry_after_past_example = expiry_after_past late 0 (omega arith) (omega arith)

abbrev armed : LoopTimer ℕ
armed = record {
  address = 0;
  callback = 4;
  expiry = record { tv_sec = 7; tv_nsec = pos 500000000 };
  removed = false;
}

poll_timeout-punctual_example :
    All (InTime late (poll_timeout late (armed ∷ []))) (armed ∷ [])
    × Any (IsDue late (poll_timeout late (armed ∷ []))) (armed ∷ [])
poll_timeout-punctual_example =
    poll_timeout-punctual late armed [] (omega arith)
      ((refl, omega arith, omega arith, omega arith), tt)
