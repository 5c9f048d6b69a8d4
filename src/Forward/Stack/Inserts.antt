-- ===== src/Forward/Stack/Inserts.antt =====
-- Insertions into a stack of two parts.
use swaylock_plugin.Base.{
  ℕ, ◌≡◌, refl, true, false, List, [], ◌∷◌, ◌++◌, ◌==◌, Bool-cases, inl, inr,
}
use swaylock_plugin.Forward.Stack.{has, insert_above, insert_below}

-- An insertion happens in the part that has the reference.
pub insert_above-missing : (x r : ℕ) (l : List ℕ) → has r l ≡ false → insert_above x r l ≡ l
insert_above-missing x r [] h = refl
insert_above-missing x r (y ∷ l) h = elim (Bool-cases (y == r)) [
  | inl q ↦ cc (simp q at h)
  | inr q ↦ let h' : has r l ≡ false = simp q at h in simp (q, insert_above-missing x r l h')
]

pub insert_below-missing : (x r : ℕ) (l : List ℕ) → has r l ≡ false → insert_below x r l ≡ l
insert_below-missing x r [] h = refl
insert_below-missing x r (y ∷ l) h = elim (Bool-cases (y == r)) [
  | inl q ↦ cc (simp q at h)
  | inr q ↦ let h' : has r l ≡ false = simp q at h in simp (q, insert_below-missing x r l h')
]

pub insert_above-in :
    (x r : ℕ) (p q : List ℕ) → has r p ≡ true → insert_above x r (p ++ q) ≡ insert_above x r p ++ q
insert_above-in x r [] q h = cc h
insert_above-in x r (y ∷ p) q h = elim (Bool-cases (y == r)) [
  | inl e ↦ simp e
  | inr e ↦ let h' : has r p ≡ true = simp e at h in simp (e, insert_above-in x r p q h')
]

pub insert_below-in :
    (x r : ℕ) (p q : List ℕ) → has r p ≡ true → insert_below x r (p ++ q) ≡ insert_below x r p ++ q
insert_below-in x r [] q h = cc h
insert_below-in x r (y ∷ p) q h = elim (Bool-cases (y == r)) [
  | inl e ↦ simp e
  | inr e ↦ let h' : has r p ≡ true = simp e at h in simp (e, insert_below-in x r p q h')
]

pub insert_above-out :
    (x r : ℕ) (p q : List ℕ) → has r p ≡ false → insert_above x r (p ++ q) ≡ p ++ insert_above x r q
insert_above-out x r [] q h = refl
insert_above-out x r (y ∷ p) q h = elim (Bool-cases (y == r)) [
  | inl e ↦ cc (simp e at h)
  | inr e ↦ let h' : has r p ≡ false = simp e at h in simp (e, insert_above-out x r p q h')
]

pub insert_below-out :
    (x r : ℕ) (p q : List ℕ) → has r p ≡ false → insert_below x r (p ++ q) ≡ p ++ insert_below x r q
insert_below-out x r [] q h = refl
insert_below-out x r (y ∷ p) q h = elim (Bool-cases (y == r)) [
  | inl e ↦ cc (simp e at h)
  | inr e ↦ let h' : has r p ≡ false = simp e at h in simp (e, insert_below-out x r p q h')
]
