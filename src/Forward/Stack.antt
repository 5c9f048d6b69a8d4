-- ===== src/Forward/Stack.antt =====
-- The stack that the compositor keeps of a surface and its subsurfaces, from the bottom: 0 is the
-- surface, and `suc c` the subsurface `c`.
pub mod Segments
pub mod Sent
pub mod Placed
pub mod Inserts
pub mod Pending
pub mod Insertions
pub mod Requested
use swaylock_plugin.Base.{
  ℕ, zero, suc, ◌≡◌, refl, sym, ap, ◌∙◌, subst, Bool, true, false, ◌||◌, List, [], ◌∷◌, ◌++◌,
  Option, none, some, ◌==◌, ==_iff, map, append_assoc, Bool-cases, inl, inr, if◌then◌else◌, arith,
}
use swaylock_plugin.Forward.{SurfaceState, SurfaceRequest, get_subsurface, place_above, place_below}

abbrev pub has : ℕ → List ℕ → Bool
has x [] = false
has x (y ∷ ys) = y == x || has x ys

abbrev pub without : ℕ → List ℕ → List ℕ
without x [] = []
without x (y ∷ ys) = let rest = without x ys in if y == x then rest else y ∷ rest

abbrev pub insert_above : ℕ → ℕ → List ℕ → List ℕ
insert_above x r [] = []
insert_above x r (y ∷ ys) =
    let rest = insert_above x r ys in if y == r then y ∷ x ∷ ys else y ∷ rest

abbrev pub insert_below : ℕ → ℕ → List ℕ → List ℕ
insert_below x r [] = []
insert_below x r (y ∷ ys) =
    let rest = insert_below x r ys in if y == r then x ∷ y ∷ ys else y ∷ rest

abbrev pub mark : Option ℕ → ℕ
mark none = 0
mark (some c) = suc c

-- A new subsurface is on top; one that is placed is taken out and put next to the other.
abbrev pub restack : SurfaceRequest → List ℕ → List ℕ
restack (get_subsurface c) st = st ++ suc c ∷ []
restack (place_above c r) st = insert_above (suc c) (mark r) (without (suc c) st)
restack (place_below c r) st = insert_below (suc c) (mark r) (without (suc c) st)
restack _ st = st

abbrev pub stacked : List ℕ → List SurfaceRequest → List ℕ
stacked st [] = st
stacked st (r ∷ rs) = restack r (stacked st rs)

-- The stack that the lists of a state stand for, from the bottom.
abbrev pub stack : SurfaceState → List ℕ
stack p = map suc p.subsurfaces_below ++ (0 ∷ map suc p.subsurfaces_above)

abbrev pub drop_all : List ℕ → List ℕ → List ℕ
drop_all [] st = st
drop_all (c ∷ cs) st = drop_all cs (without (suc c) st)

pub without-append : (x : ℕ) (p q : List ℕ) → without x (p ++ q) ≡ without x p ++ without x q
without-append x [] q = refl
without-append x (y ∷ p) q = elim (Bool-cases (y == x)) [
  | inl e ↦ simp (e, without-append x p q)
  | inr e ↦ simp (e, without-append x p q)
]

pub without-missing : (x : ℕ) (s : List ℕ) → has x s ≡ false → without x s ≡ s
without-missing x [] h = refl
without-missing x (y ∷ s) h = elim (Bool-cases (y == x)) [
  | inl e ↦ cc (simp e at h)
  | inr e ↦ let h' : has x s ≡ false = simp e at h in simp (e, without-missing x s h')
]

pub has-append : (x : ℕ) (p q : List ℕ) → has x (p ++ q) ≡ has x p || has x q
has-append x [] q = refl
has-append x (y ∷ p) q = elim (Bool-cases (y == x)) [
  | inl e ↦ simp e
  | inr e ↦ simp (e, has-append x p q)
]

pub has-without_same : (x : ℕ) (s : List ℕ) → has x (without x s) ≡ false
has-without_same x [] = refl
has-without_same x (y ∷ s) = elim (Bool-cases (y == x)) [
  | inl e ↦ simp (e, has-without_same x s)
  | inr e ↦ simp (e, has-without_same x s)
]

pub insert_above-append :
    (x r : ℕ) (p q : List ℕ) → has r p ≡ false → insert_above x r (p ++ r ∷ q) ≡ p ++ r ∷ x ∷ q
insert_above-append x r [] q h = rw ((==_iff r r).1 refl) refl
insert_above-append x r (y ∷ p) q h = elim (Bool-cases (y == r)) [
  | inl e ↦ cc (simp e at h)
  | inr e ↦ let h' : has r p ≡ false = simp e at h in simp (e, insert_above-append x r p q h')
]

pub insert_below-append :
    (x r : ℕ) (p q : List ℕ) → has r p ≡ false → insert_below x r (p ++ r ∷ q) ≡ p ++ x ∷ r ∷ q
insert_below-append x r [] q h = rw ((==_iff r r).1 refl) refl
insert_below-append x r (y ∷ p) q h = elim (Bool-cases (y == r)) [
  | inl e ↦ cc (simp e at h)
  | inr e ↦ let h' : has r p ≡ false = simp e at h in simp (e, insert_below-append x r p q h')
]

pub has-without_other : (r x : ℕ) (s : List ℕ) → has r s ≡ false → has r (without x s) ≡ false
has-without_other r x [] h = refl
has-without_other r x (y ∷ s) h = elim (Bool-cases (y == r)) [
  | inl e ↦ cc (simp e at h)
  | inr e ↦ elim (Bool-cases (y == x)) [
    | inl f ↦ let h' : has r s ≡ false = simp e at h in simp (f, has-without_other r x s h')
    | inr f ↦ let h' : has r s ≡ false = simp e at h in simp (e, f, has-without_other r x s h')
  ]
]

pub neither_has : (a b : Bool) → a || b ≡ false → (a ≡ false) × (b ≡ false)
neither_has true b e = cc e
neither_has false b e = (refl, e)

pub missing-append :
    (x : ℕ) (p q : List ℕ) → has x p ≡ false → has x q ≡ false → has x (p ++ q) ≡ false
missing-append x p q a b = has-append x p q ∙ simp (a, b)

-- Placing `x` above the last element `r` of a segment that it is not in.
pub place_above_segment :
    (x r : ℕ) (pre seg post : List ℕ)
    → has r (pre ++ seg) ≡ false
    → has x (seg ++ r ∷ []) ≡ false
    → insert_above x r (without x ((pre ++ seg) ++ (r ∷ post)))
      ≡ (without x pre ++ (seg ++ (r ∷ []))) ++ (x ∷ without x post)
place_above_segment x r pre seg post h k =
    let (a, b) = neither_has _ _ (sym (has-append x seg (r ∷ [])) ∙ k) in
    let c : (r == x) ≡ false = (neither_has (r == x) false b).0 in
    let (e, f) = neither_has _ _ (sym (has-append r pre seg) ∙ h) in
    let taken : without x ((pre ++ seg) ++ (r ∷ post))
        ≡ (without x pre ++ seg) ++ (r ∷ without x post) =
      without-append x (pre ++ seg) (r ∷ post)
      ∙ simp (without-append x pre seg, without-missing x seg a, c) in
    let placed : insert_above x r ((without x pre ++ seg) ++ (r ∷ without x post))
        ≡ (without x pre ++ seg) ++ (r ∷ (x ∷ without x post)) =
      insert_above-append x r (without x pre ++ seg) (without x post)
        (missing-append r (without x pre) seg (has-without_other r x pre e) f) in
    let moved : (without x pre ++ seg) ++ (r ∷ (x ∷ without x post))
        ≡ (without x pre ++ (seg ++ (r ∷ []))) ++ (x ∷ without x post) =
      simp append_assoc in
    ap (insert_above x r) taken ∙ placed ∙ moved

-- Placing `x` below the first element `r` of a segment that it is not in.
pub place_below_segment :
    (x r : ℕ) (pre seg post : List ℕ)
    → has r pre ≡ false
    → has x (r ∷ seg) ≡ false
    → insert_below x r (without x (pre ++ (r ∷ (seg ++ post))))
      ≡ without x pre ++ (x ∷ (r ∷ (seg ++ without x post)))
place_below_segment x r pre seg post h k =
    let c : (r == x) ≡ false = (neither_has (r == x) (has x seg) k).0 in
    let d : has x seg ≡ false = (neither_has (r == x) (has x seg) k).1 in
    let taken : without x (pre ++ (r ∷ (seg ++ post)))
        ≡ without x pre ++ (r ∷ (seg ++ without x post)) =
      without-append x pre (r ∷ (seg ++ post))
      ∙ simp (c, without-append x seg post, without-missing x seg d) in
    ap (insert_below x r) taken
    ∙ insert_below-append x r (without x pre) (seg ++ without x post) (has-without_other r x pre h)
