-- ===== src/Comm/Bytes.antt =====
-- A `size_t` written to the pipe and read back.
use swaylock_plugin.Base.{ℕ, zero, suc, ◌/◌, ◌^◌, ◌<◌, ◌≡◌, refl, ap, arith, length}
use native.Mathlib.Nat.{pow-suc}
use swaylock_plugin.Comm.{size_bytes, size_value}

pub length-size_bytes : (k n : ℕ) → length (size_bytes k n) ≡ k
unfolding size_bytes
length-size_bytes zero n = refl
length-size_bytes (suc k) n = ap suc (length-size_bytes k (n / 256))

pub size_value-size_bytes : (k n : ℕ) → n < 256 ^ k → size_value (size_bytes k n) ≡ n
unfolding size_bytes size_value
size_value-size_bytes zero n h = omega arith
size_value-size_bytes (suc k) n h =
    omega (arith, size_value-size_bytes k (n / 256) (omega (arith, pow-suc 256 k)))
