-- ===== src/Base/Outcomes.antt =====
-- How a call ends: it returns, or the process exits, aborts on an assertion, waits for ever or
-- reads outside its memory.
use Prim.Native.Nat.{ℕ}

pub data Outcome {ℓ} (A : Type ℓ) : Type ℓ where
  returns : A → Outcome A
  exits : ℕ → Outcome A
  aborts blocks faults : Outcome A

infixl 5 ◌>>=◌
abbrev pub ◌>>=◌ {ℓ κ} : {A : Type ℓ} {B : Type κ} → Outcome A → (A → Outcome B) → Outcome B
returns a >>= f = f a
exits n >>= f = exits n
aborts >>= f = aborts
blocks >>= f = blocks
faults >>= f = faults
