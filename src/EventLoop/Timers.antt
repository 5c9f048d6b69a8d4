-- ===== src/EventLoop/Timers.antt =====
-- The arithmetic of timers, and the list of timers.
use swaylock_plugin.Base.{ℕ, ◌+◌, ◌*◌, ◌<◌, ◌≡◌, ◌↔◌, true, arith, pos, negsuc, pos_part, neg_part}
use swaylock_plugin.EventLoop.{Timespec, Expiry, expiry_after, expired}

-- Nanoseconds since the clock's start.
abbrev pub to_ns : Timespec → ℕ
to_ns t = t.tv_sec * 1000000000 + t.tv_nsec

abbrev pub IsNormal : Timespec → Type 0
IsNormal t = t.tv_nsec < 1000000000

-- An expiry at an instant whose nanoseconds are fewer than 10^9.
abbrev pub IsAt : Expiry → ℕ → Type 0
IsAt e ns =
    (neg_part e.tv_nsec ≡ 0)
    × (pos_part e.tv_nsec < 1000000000)
    × (e.tv_sec * 1000000000 + pos_part e.tv_nsec ≡ ns)

-- From a clock reading with fewer than 10^9 nanoseconds, a timer of 0 or more milliseconds
-- expires exactly that long after it, and the nanoseconds of its expiry are from 0 to below 10^9
-- again.
pub expiry_after_exact :
    (now : Timespec) (ms : ℕ)
    → IsNormal now
    → IsAt (expiry_after now (pos ms)) (to_ns now + ms * 1000000)
unfolding expiry_after
expiry_after_exact now ms h = ground arith

-- For an expiry whose nanoseconds are from 0 to below 10^9, and a clock reading with fewer than
-- 10^9, the test of the timer dispatch is true exactly when the expiry lies strictly before the
-- clock.
pub expired_iff :
    (expiry : Expiry) (ns : ℕ) (now : Timespec)
    → IsAt expiry ns
    → IsNormal now
    → (expired expiry now ≡ true) ↔ (ns < to_ns now)
unfolding expired
expired_iff expiry ns now p q = ground arith

-- A timer of -1 down to -999 milliseconds, set at a clock reading with fewer than 10^9
-- nanoseconds, has expired at once.
pub expiry_after_past :
    (now : Timespec) (k : ℕ)
    → IsNormal now
    → k < 999
    → expired (expiry_after now (negsuc k)) now ≡ true
unfolding expiry_after expired
expiry_after_past now k n h = ground arith
