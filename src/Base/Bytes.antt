-- ===== src/Base/Bytes.antt =====
-- Bit masks over a byte, checked value by value, and the masks of wider numbers by digits.
use Prim.Native.Nat.{
  ℕ, zero, suc, ◌+◌, ◌*◌, ◌/◌, ◌%◌, ◌≤◌, ◌<◌, min, bit_and, bit_or, digits, bit_and-bitwise,
}
use mathlib.Core.Path.{◌≡◌, refl, sym, ◌∙◌}
use mathlib.Core.Bool.{Bool, true, ◌&&◌}
use native.Mathlib.Omega.{arith}
use swaylock_plugin.Base.Tests.{◌==◌, ==_iff}

-- Every number below the bound passes the test.
unfoldable pub all_below : ℕ → (ℕ → Bool) → Bool
all_below zero test = true
all_below (suc bound) test = all_below bound test && test bound

pub all_below_sound :
    (test : ℕ → Bool) (bound x : ℕ) → x < bound → all_below bound test ≡ true → test x ≡ true
unfolding all_below
all_below_sound test zero x below passed = absurd (omega arith)
all_below_sound test (suc bound) x below passed = ground (arith, all_below_sound test bound x)

-- The binary digits that `bit_and` stands for, on fuel.
abbrev masked : ℕ → ℕ → ℕ → ℕ
masked fuel x m = digits (λ y. 0) min fuel x m

masked_none : (fuel m : ℕ) → masked fuel 0 m ≡ 0
masked_none zero m = refl
masked_none (suc fuel) m = refl

masked_enough : (x m f g : ℕ) → x ≤ f → x ≤ g → masked f x m ≡ masked g x m
masked_enough zero m f g p q = masked_none f m ∙ sym (masked_none g m)
masked_enough (suc x) m zero g p q = absurd (omega arith)
masked_enough (suc x) m (suc f) zero p q = absurd (omega arith)
masked_enough (suc x) m (suc f) (suc g) p q =
    omega (arith, masked_enough (suc x / 2) (m / 2) f g (omega arith) (omega arith))

-- A mask whose lowest bit is set keeps the lowest bit.
odd_mask : (x m : ℕ) → bit_and x (2 * m + 1) ≡ 2 * bit_and (x / 2) m + x % 2
odd_mask zero m = omega (arith, bit_and-bitwise 0 (2 * m + 1), bit_and-bitwise 0 m)
odd_mask (suc x) m =
    let half : (2 * m + 1) / 2 ≡ m = omega arith in
    let bit : (2 * m + 1) % 2 ≡ 1 = omega arith in
    let fewer = masked_enough (suc x / 2) m x (suc x / 2) (omega arith) (omega arith) in
    let whole : bit_and (suc x) (2 * m + 1) ≡ masked x (suc x / 2) m * 2 + min (suc x % 2) 1 =
      rw (half, bit) at (bit_and-bitwise (suc x) (2 * m + 1)) in
    omega (arith, whole, fewer, bit_and-bitwise (suc x / 2) m)

empty_mask : (fuel x : ℕ) → masked fuel x 0 ≡ 0
empty_mask zero x = refl
empty_mask (suc fuel) zero = refl
empty_mask (suc fuel) (suc x) = omega (arith, empty_mask fuel (suc x / 2))

-- The low six bits, of a number of any size.
pub bit_and_low6 : (a : ℕ) → bit_and a 0x3f ≡ a % 64
bit_and_low6 a = omega (
  arith,
  odd_mask a 0x1f,
  odd_mask (a / 2) 0xf,
  odd_mask (a / 2 / 2) 7,
  odd_mask (a / 2 / 2 / 2) 3,
  odd_mask (a / 2 / 2 / 2 / 2) 1,
  odd_mask (a / 2 / 2 / 2 / 2 / 2) 0,
  bit_and-bitwise (a / 2 / 2 / 2 / 2 / 2 / 2) 0,
  empty_mask (a / 2 / 2 / 2 / 2 / 2 / 2) (a / 2 / 2 / 2 / 2 / 2 / 2),
)

top2_table : all_below 256 (λ x. bit_and x 0xc0 == x / 64 * 64) ≡ true
unfolding all_below
top2_table = refl

-- The two high bits of a byte.
pub bit_and_top2 : (x : ℕ) → x < 256 → bit_and x 0xc0 ≡ x / 64 * 64
bit_and_top2 x h = (==_iff _ _).0 (all_below_sound _ 256 x h top2_table)

cont_table : all_below 64 (λ x. bit_or x 0x80 == x + 0x80) ≡ true
unfolding all_below
cont_table = refl

pub bit_or_cont : (x : ℕ) → x < 64 → bit_or x 0x80 ≡ x + 0x80
bit_or_cont x h = (==_iff _ _).0 (all_below_sound _ 64 x h cont_table)

lead0_table : all_below 128 (λ x. bit_or x 0 == x) ≡ true
unfolding all_below
lead0_table = refl

pub bit_or_lead0 : (x : ℕ) → x < 128 → bit_or x 0 ≡ x
bit_or_lead0 x h = (==_iff _ _).0 (all_below_sound _ 128 x h lead0_table)

lead2_table : all_below 32 (λ x. bit_or x 0xc0 == x + 0xc0) ≡ true
unfolding all_below
lead2_table = refl

pub bit_or_lead2 : (x : ℕ) → x < 32 → bit_or x 0xc0 ≡ x + 0xc0
bit_or_lead2 x h = (==_iff _ _).0 (all_below_sound _ 32 x h lead2_table)

lead3_table : all_below 16 (λ x. bit_or x 0xe0 == x + 0xe0) ≡ true
unfolding all_below
lead3_table = refl

pub bit_or_lead3 : (x : ℕ) → x < 16 → bit_or x 0xe0 ≡ x + 0xe0
bit_or_lead3 x h = (==_iff _ _).0 (all_below_sound _ 16 x h lead3_table)

lead4_table : all_below 8 (λ x. bit_or x 0xf0 == x + 0xf0) ≡ true
unfolding all_below
lead4_table = refl

pub bit_or_lead4 : (x : ℕ) → x < 8 → bit_or x 0xf0 ≡ x + 0xf0
bit_or_lead4 x h = (==_iff _ _).0 (all_below_sound _ 8 x h lead4_table)
