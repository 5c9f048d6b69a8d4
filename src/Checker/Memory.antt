-- ===== src/Checker/Memory.antt =====
-- password-buffer.c: the locked memory of a password. What mlock(2) answers is a script.
use swaylock_plugin.Base.{
  ℕ, zero, suc, Bool, true, false, List, [], ◌∷◌, ◌==◌, if◌then◌else◌, Outcome, returns, blocks,
  ◌>>=◌, Option, none, some, ◌≡◌, ◌≢◌, ◌≤◌, ◌<◌, ◌++◌, replicate, length, refl, arith,
}
use swaylock_plugin.Password.{clear_buffer}
use swaylock_plugin.Password.Text.{clear_buffer_zero}

pub data MlockAnswer : Type 0 where
  locked eagain eperm other_errno : MlockAnswer

-- The loop of `password_buffer_lock`. The results are `mlock_supported` and the returned value.
pub lock_loop : ℕ → List MlockAnswer → Bool → Outcome (Bool × Bool)
lock_loop retries [] supported = blocks
lock_loop retries (locked ∷ script) supported = returns (supported, true)
lock_loop zero (eagain ∷ script) supported = returns (supported, true)
lock_loop zero (eperm ∷ script) supported = returns (supported, true)
lock_loop zero (other_errno ∷ script) supported = returns (supported, true)
lock_loop (suc retries) (eagain ∷ script) supported =
    let again = lock_loop retries script supported in
    if retries == 0 then returns (supported, false) else again
lock_loop (suc retries) (eperm ∷ script) supported = returns (false, true)
lock_loop (suc retries) (other_errno ∷ script) supported = returns (supported, false)

pub password_buffer_lock : List MlockAnswer → Bool → Outcome (Bool × Bool)
unfolding lock_loop
password_buffer_lock script supported = lock_loop 5 script supported

-- `memory` is what `posix_memalign` answers.
unfoldable pub password_buffer_create :
    Option (List ℕ) → List MlockAnswer → Bool → Outcome (Bool × Option (List ℕ))
unfolding password_buffer_lock
password_buffer_create none script supported = returns (supported, none)
password_buffer_create (some memory) script supported = do
  (supported', ok) ← password_buffer_lock script supported
  returns (supported', if ok then some memory else none)

-- `munlocked` is whether munlock(2) succeeds.
unfoldable pub password_buffer_unlock : Bool → Bool → Bool
password_buffer_unlock supported munlocked = if supported then munlocked else true

-- What the memory holds when it is freed.
pub password_buffer_destroy : List ℕ → ℕ → List ℕ
password_buffer_destroy buffer size = clear_buffer buffer size

-- What an answer other than EAGAIN decides: `mlock_supported`, and whether the lock counts as held.
abbrev pub decided : MlockAnswer → Bool → Bool × Bool
decided locked supported = (supported, true)
decided eagain supported = (supported, false)
decided eperm supported = (false, true)
decided other_errno supported = (supported, false)

lock_loop-decided :
    (n k : ℕ) (a : MlockAnswer) (script : List MlockAnswer) (supported : Bool)
    → n ≤ k
    → a ≢ eagain
    → lock_loop (suc k) (replicate n eagain ++ a ∷ script) supported ≡ returns (decided a supported)
unfolding lock_loop
lock_loop-decided zero k locked script supported le h = refl
lock_loop-decided zero k eagain script supported le h = absurd (h refl)
lock_loop-decided zero k eperm script supported le h = refl
lock_loop-decided zero k other_errno script supported le h = refl
lock_loop-decided (suc n) zero a script supported le h = absurd (omega arith)
lock_loop-decided (suc n) (suc k) a script supported le h =
    let more : (suc k == 0) ≡ false = ground arith in
    rw more (lock_loop-decided n k a script supported (omega arith) h)

-- After fewer than five answers EAGAIN, password_buffer_lock is decided by the next answer that
-- is not EAGAIN: success holds the lock, EPERM counts as success and marks mlock as not
-- supported, any other error fails; five answers EAGAIN fail.
pub password_buffer_lock-decided :
    (n : ℕ) (a : MlockAnswer) (script : List MlockAnswer) (supported : Bool)
    → n < 5
    → a ≢ eagain
    → (password_buffer_lock (replicate n eagain ++ a ∷ script) supported
        ≡ returns (decided a supported))
      × (password_buffer_lock (replicate 5 eagain ++ script) supported ≡ returns (supported, false))
unfolding password_buffer_lock lock_loop
password_buffer_lock-decided n a script supported lt h =
    (lock_loop-decided n 4 a script supported (omega arith) h, refl)

pub password_buffer_destroy_zero :
    (buf : List ℕ) → password_buffer_destroy buf (length buf) ≡ replicate (length buf) 0
unfolding password_buffer_destroy
password_buffer_destroy_zero buf = clear_buffer_zero buf (length buf) refl
