-- ===== src/Forward/Stack/Insertions.antt =====
-- The pending lists with a subsurface inserted, as one stack.
use swaylock_plugin.Base.{
  ℕ, suc, ◌≡◌, refl, sym, ap, ◌∙◌, true, false, List, [], ◌∷◌, ◌++◌, ◌==◌, map, append_assoc, arith,
}
use swaylock_plugin.Forward.{SurfaceState}
use swaylock_plugin.Forward.Content.{unlink}
use swaylock_plugin.Forward.Subsurfaces.{Reference, parent, sibling, insert_after, insert_before}
use swaylock_plugin.Forward.Stack.{
  stack, has, without, insert_above, insert_below, without-append, insert_above-append,
  insert_below-append,
}
use swaylock_plugin.Forward.Stack.Inserts.{
  insert_above-missing, insert_below-missing, insert_above-in, insert_below-in, insert_above-out,
  insert_below-out,
}
use swaylock_plugin.Forward.Stack.Pending.{
  unlink-without, map-without, map-insert_after, map-insert_before, has-map, has-map_zero,
}

-- The subsurface stands at most once in each pending list.
abbrev pub Once : ℕ → SurfaceState → Type 0
Once e p =
    (has e (unlink e p.subsurfaces_above) ≡ false) × (has e (unlink e p.subsurfaces_below) ≡ false)

-- Where the reference of a request stands: 0, or a sibling that is, the subsurface `e` apart, in just
-- one of the lists.
pub data Stands (e : ℕ) (p : SurfaceState) : Reference → ℕ → Type 0 where
  at_parent : Stands e p parent 0
  above :
      (s : ℕ)
      → has s (without e p.subsurfaces_above) ≡ true
      → has s (without e p.subsurfaces_below) ≡ false
      → Stands e p (sibling s) (suc s)
  below :
      (s : ℕ)
      → has s (without e p.subsurfaces_above) ≡ false
      → has s (without e p.subsurfaces_below) ≡ true
      → Stands e p (sibling s) (suc s)

-- The parts of the stack without the subsurface.
abbrev pub lower : ℕ → SurfaceState → List ℕ
lower e p = map suc (without e p.subsurfaces_below)

abbrev pub upper : ℕ → SurfaceState → List ℕ
upper e p = map suc (without e p.subsurfaces_above)

pub zero_== : (e : ℕ) → (0 == suc e) ≡ false
zero_== e = ground arith

pub map-snoc : (l : List ℕ) (e : ℕ) → map suc (l ++ (e ∷ [])) ≡ map suc l ++ (suc e ∷ [])
map-snoc [] e = refl
map-snoc (x ∷ l) e = ap (λ r. suc x ∷ r) (map-snoc l e)

pub without-stack :
    (e : ℕ) (p : SurfaceState) → without (suc e) (stack p) ≡ lower e p ++ (0 ∷ upper e p)
without-stack e p =
    without-append (suc e) (map suc p.subsurfaces_below) (0 ∷ map suc p.subsurfaces_above)
    ∙ simp (
      zero_== e,
      sym (map-without e p.subsurfaces_below),
      sym (map-without e p.subsurfaces_above),
    )

pub parent_above :
    (e : ℕ) (p : SurfaceState)
    → Once e p
    → map suc (unlink e p.subsurfaces_below)
        ++ (0 ∷ (suc e ∷ map suc (unlink e p.subsurfaces_above)))
      ≡ insert_above (suc e) 0 (lower e p ++ (0 ∷ upper e p))
parent_above e p (a, b) =
    ap (λ l. map suc l ++ (0 ∷ (suc e ∷ map suc (unlink e p.subsurfaces_above))))
      (unlink-without e p.subsurfaces_below b)
    ∙ ap (λ l. lower e p ++ (0 ∷ (suc e ∷ map suc l))) (unlink-without e p.subsurfaces_above a)
    ∙ sym (
        insert_above-append (suc e) 0 (lower e p) (upper e p)
          (has-map_zero (without e p.subsurfaces_below)))

pub parent_below :
    (e : ℕ) (p : SurfaceState)
    → Once e p
    → map suc (unlink e p.subsurfaces_below ++ (e ∷ []))
        ++ (0 ∷ map suc (unlink e p.subsurfaces_above))
      ≡ insert_below (suc e) 0 (lower e p ++ (0 ∷ upper e p))
parent_below e p (a, b) =
    ap (λ l. map suc (l ++ (e ∷ [])) ++ (0 ∷ map suc (unlink e p.subsurfaces_above)))
      (unlink-without e p.subsurfaces_below b)
    ∙ ap (λ l. map suc (without e p.subsurfaces_below ++ (e ∷ [])) ++ (0 ∷ map suc l))
        (unlink-without e p.subsurfaces_above a)
    ∙ ap (λ l. l ++ (0 ∷ upper e p)) (map-snoc (without e p.subsurfaces_below) e)
    ∙ append_assoc (lower e p) (suc e ∷ []) (0 ∷ upper e p)
    ∙ sym (
        insert_below-append (suc e) 0 (lower e p) (upper e p)
          (has-map_zero (without e p.subsurfaces_below)))

-- The two lists with an insertion, as one stack.
pub insert_after-stack :
    (e s : ℕ) (p : SurfaceState)
    → Once e p
    → map suc (insert_after e s (unlink e p.subsurfaces_below))
        ++ (0 ∷ map suc (insert_after e s (unlink e p.subsurfaces_above)))
      ≡ insert_above (suc e) (suc s) (lower e p) ++ (0 ∷ insert_above (suc e) (suc s) (upper e p))
insert_after-stack e s p (a, b) =
    let upper_same =
      ap (λ l. map suc (insert_after e s l)) (unlink-without e p.subsurfaces_above a)
      ∙ map-insert_after e s (without e p.subsurfaces_above) in
    let lower_same =
      ap (λ l. map suc (insert_after e s l)) (unlink-without e p.subsurfaces_below b)
      ∙ map-insert_after e s (without e p.subsurfaces_below) in
    ap (λ l. l ++ (0 ∷ map suc (insert_after e s (unlink e p.subsurfaces_above)))) lower_same
    ∙ ap (λ l. insert_above (suc e) (suc s) (lower e p) ++ (0 ∷ l)) upper_same

pub later_above :
    (x s : ℕ) (l : List ℕ) → 0 ∷ insert_above x (suc s) l ≡ insert_above x (suc s) (0 ∷ l)
later_above x s l = simp (zero_== s)

pub insert_above-upper :
    (e s : ℕ) (p : SurfaceState)
    → has s (without e p.subsurfaces_below) ≡ false
    → insert_above (suc e) (suc s) (lower e p) ++ (0 ∷ insert_above (suc e) (suc s) (upper e p))
      ≡ insert_above (suc e) (suc s) (lower e p ++ (0 ∷ upper e p))
insert_above-upper e s p b =
    let out = has-map s (without e p.subsurfaces_below) ∙ b in
    ap (λ l. l ++ (0 ∷ insert_above (suc e) (suc s) (upper e p)))
      (insert_above-missing (suc e) (suc s) (lower e p) out)
    ∙ ap (λ l. lower e p ++ l) (later_above (suc e) s (upper e p))
    ∙ sym (insert_above-out (suc e) (suc s) (lower e p) (0 ∷ upper e p) out)

pub insert_above-lower :
    (e s : ℕ) (p : SurfaceState)
    → has s (without e p.subsurfaces_above) ≡ false
    → has s (without e p.subsurfaces_below) ≡ true
    → insert_above (suc e) (suc s) (lower e p) ++ (0 ∷ insert_above (suc e) (suc s) (upper e p))
      ≡ insert_above (suc e) (suc s) (lower e p ++ (0 ∷ upper e p))
insert_above-lower e s p a b =
    ap (λ l. insert_above (suc e) (suc s) (lower e p) ++ (0 ∷ l))
      (insert_above-missing (suc e) (suc s) (upper e p)
        (has-map s (without e p.subsurfaces_above) ∙ a))
    ∙ sym (
        insert_above-in (suc e) (suc s) (lower e p) (0 ∷ upper e p)
          (has-map s (without e p.subsurfaces_below) ∙ b))

-- The two lists with an insertion, as one stack.
pub insert_before-stack :
    (e s : ℕ) (p : SurfaceState)
    → Once e p
    → map suc (insert_before e s (unlink e p.subsurfaces_below))
        ++ (0 ∷ map suc (insert_before e s (unlink e p.subsurfaces_above)))
      ≡ insert_below (suc e) (suc s) (lower e p) ++ (0 ∷ insert_below (suc e) (suc s) (upper e p))
insert_before-stack e s p (a, b) =
    let upper_same =
      ap (λ l. map suc (insert_before e s l)) (unlink-without e p.subsurfaces_above a)
      ∙ map-insert_before e s (without e p.subsurfaces_above) in
    let lower_same =
      ap (λ l. map suc (insert_before e s l)) (unlink-without e p.subsurfaces_below b)
      ∙ map-insert_before e s (without e p.subsurfaces_below) in
    ap (λ l. l ++ (0 ∷ map suc (insert_before e s (unlink e p.subsurfaces_above)))) lower_same
    ∙ ap (λ l. insert_below (suc e) (suc s) (lower e p) ++ (0 ∷ l)) upper_same

pub later_below :
    (x s : ℕ) (l : List ℕ) → 0 ∷ insert_below x (suc s) l ≡ insert_below x (suc s) (0 ∷ l)
later_below x s l = simp (zero_== s)

pub insert_below-upper :
    (e s : ℕ) (p : SurfaceState)
    → has s (without e p.subsurfaces_below) ≡ false
    → insert_below (suc e) (suc s) (lower e p) ++ (0 ∷ insert_below (suc e) (suc s) (upper e p))
      ≡ insert_below (suc e) (suc s) (lower e p ++ (0 ∷ upper e p))
insert_below-upper e s p b =
    let out = has-map s (without e p.subsurfaces_below) ∙ b in
    ap (λ l. l ++ (0 ∷ insert_below (suc e) (suc s) (upper e p)))
      (insert_below-missing (suc e) (suc s) (lower e p) out)
    ∙ ap (λ l. lower e p ++ l) (later_below (suc e) s (upper e p))
    ∙ sym (insert_below-out (suc e) (suc s) (lower e p) (0 ∷ upper e p) out)

pub insert_below-lower :
    (e s : ℕ) (p : SurfaceState)
    → has s (without e p.subsurfaces_above) ≡ false
    → has s (without e p.subsurfaces_below) ≡ true
    → insert_below (suc e) (suc s) (lower e p) ++ (0 ∷ insert_below (suc e) (suc s) (upper e p))
      ≡ insert_below (suc e) (suc s) (lower e p ++ (0 ∷ upper e p))
insert_below-lower e s p a b =
    ap (λ l. insert_below (suc e) (suc s) (lower e p) ++ (0 ∷ l))
      (insert_below-missing (suc e) (suc s) (upper e p)
        (has-map s (without e p.subsurfaces_above) ∙ a))
    ∙ sym (
        insert_below-in (suc e) (suc s) (lower e p) (0 ∷ upper e p)
          (has-map s (without e p.subsurfaces_below) ∙ b))
