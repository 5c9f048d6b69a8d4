-- ===== src/Forward/Stack/Pending.antt =====
-- The requests that place a subsurface change the pending lists as the compositor's stack.
use swaylock_plugin.Base.{
  ℕ, suc, ◌≡◌, refl, false, List, [], ◌∷◌, ◌==◌, map, Bool-cases, inl, inr, arith,
}
use swaylock_plugin.Forward.Content.{unlink}
use swaylock_plugin.Forward.Subsurfaces.{insert_after, insert_before}
use swaylock_plugin.Forward.Stack.{has, without, without-missing, insert_above, insert_below}

suc_== : (a b : ℕ) → (suc a == suc b) ≡ (a == b)
suc_== a b = ground arith

pub unlink-without : (e : ℕ) (l : List ℕ) → has e (unlink e l) ≡ false → unlink e l ≡ without e l
unfolding unlink
unlink-without e [] h = refl
unlink-without e (x ∷ l) h = elim (Bool-cases (x == e)) [
  | inl here ↦ let h' : has e l ≡ false = simp here at h in simp (here, without-missing e l h')
  | inr there ↦
      let h' : has e (unlink e l) ≡ false = simp there at h in simp (there, unlink-without e l h')
]

pub map-without : (e : ℕ) (l : List ℕ) → map suc (without e l) ≡ without (suc e) (map suc l)
map-without e [] = refl
map-without e (x ∷ l) = elim (Bool-cases (x == e)) [
  | inl q ↦ simp (q, suc_== x e, map-without e l)
  | inr q ↦ simp (q, suc_== x e, map-without e l)
]

pub map-insert_after :
    (e s : ℕ) (l : List ℕ) → map suc (insert_after e s l) ≡ insert_above (suc e) (suc s) (map suc l)
unfolding insert_after
map-insert_after e s [] = refl
map-insert_after e s (x ∷ l) = elim (Bool-cases (x == s)) [
  | inl q ↦ simp (q, suc_== x s)
  | inr q ↦ simp (q, suc_== x s, map-insert_after e s l)
]

pub map-insert_before :
    (e s : ℕ) (l : List ℕ)
    → map suc (insert_before e s l) ≡ insert_below (suc e) (suc s) (map suc l)
unfolding insert_before
map-insert_before e s [] = refl
map-insert_before e s (x ∷ l) = elim (Bool-cases (x == s)) [
  | inl q ↦ simp (q, suc_== x s)
  | inr q ↦ simp (q, suc_== x s, map-insert_before e s l)
]

pub has-map : (s : ℕ) (l : List ℕ) → has (suc s) (map suc l) ≡ has s l
has-map s [] = refl
has-map s (x ∷ l) = elim (Bool-cases (x == s)) [
  | inl q ↦ simp (q, suc_== x s)
  | inr q ↦ simp (q, suc_== x s, has-map s l)
]

pub has-map_zero : (l : List ℕ) → has 0 (map suc l) ≡ false
has-map_zero [] = refl
has-map_zero (x ∷ l) = ground (arith, has-map_zero l)
