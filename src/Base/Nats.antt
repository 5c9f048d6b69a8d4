-- ===== src/Base/Nats.antt =====
-- Machine integers: a value is a natural number, with the wrap-around written out.
use Prim.Native.Nat.{ℕ, ◌+◌, ◌-◌, ◌%◌, ◌^◌}

abbrev pub u8 : ℕ → ℕ
u8 n = n % 256

abbrev pub u32 : ℕ → ℕ
u32 n = n % 2 ^ 32

abbrev pub size_t : ℕ → ℕ
size_t n = n % 2 ^ 64

-- `a - b` on size_t.
abbrev pub size_t_sub : ℕ → ℕ → ℕ
size_t_sub a b = (a + 2 ^ 64 - b) % 2 ^ 64
