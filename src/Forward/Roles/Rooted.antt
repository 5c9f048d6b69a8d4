-- ===== src/Forward/Roles/Rooted.antt =====
-- The parents of subsurfaces never form a cycle, so that the search of the ancestor ends.
use swaylock_plugin.Base.{
  ℕ, zero, suc, ◌<◌, ◌≤◌, arith, ◌≡◌, refl, sym, ◌∙◌, subst, Bool, false, Option, none, some, ◌==◌,
  ==_iff, Bool-cases, inl, inr,
}
use swaylock_plugin.Forward.Content.{put}
use swaylock_plugin.Forward.Roles.{
  Roles, ancestor_of, GetSubsurface, has_layer_role, has_parent, descends, no_memory, linked,
  link_subsurface, check_ancestor, is_subsurface, subcompositor_get_subsurface,
}

-- From `s` the parents lead, in so many steps, to the surface `r`, which has none.
pub data Leads (parents : ℕ → Option ℕ) : ℕ → ℕ → ℕ → Type 0 where
  top : (s : ℕ) → parents s ≡ none → Leads parents s s 0
  up : (s p r n : ℕ) → parents s ≡ some p → Leads parents p r n → Leads parents s r (suc n)

-- Every surface has a root.
abbrev pub Rooted : Roles → Type 0
Rooted r = (s : ℕ) → (root : ℕ) × (n : ℕ) × Leads r.subsurface_parent s root n

climbs :
    (parents : ℕ → Option ℕ) (s r n fuel : ℕ)
    → Leads parents s r n
    → n < fuel
    → ancestor_of fuel parents s ≡ some r
unfolding ancestor_of
climbs parents _ _ _ zero (top s e) h = ground arith
climbs parents _ _ _ zero (up s p r n e l) h = ground arith
climbs parents _ _ _ (suc fuel) (top s e) h = rw (e, ancestor_of) refl
climbs parents _ _ _ (suc fuel) (up s p r n e l) h =
    rw (e, ancestor_of) (climbs parents p r n fuel l (omega (arith, h)))

put_other : (f : ℕ → Option ℕ) (k x : ℕ) (v : Option ℕ) → (x == k) ≡ false → put f k v x ≡ f x
unfolding put
put_other f k x v e = rw e refl

put_same : (f : ℕ → Option ℕ) (k : ℕ) (v : Option ℕ) → put f k v k ≡ v
unfolding put
put_same f k v = rw ((==_iff k k).1 refl) refl

module _ (parents : ℕ → Option ℕ) (child parent : ℕ) where
  -- A surface with a parent is not the child, which has none.
  moved_up :
      (s p : ℕ)
      → parents child ≡ none
      → parents s ≡ some p
      → put parents child (some parent) s ≡ some p
  moved_up s p free e = elim (Bool-cases (s == child)) [
    | inl q ↦
        let e' : parents child ≡ some p =
          subst (λ x. parents x ≡ some p) ((==_iff s child).0 q) e in
        cc (free, e')
    | inr q ↦ put_other parents child s (some parent) q ∙ e
  ]

  -- A way to another root does not pass the child.
  other_way :
      (s r n : ℕ)
      → parents child ≡ none
      → (r == child) ≡ false
      → Leads parents s r n
      → Leads (put parents child (some parent)) s r n
  other_way _ _ _ free other (top s e) = top s (put_other parents child s (some parent) other ∙ e)
  other_way _ _ _ free other (up s p r n e l) =
      up s p r n (moved_up s p free e) (other_way p r n free other l)

  -- A way that ended at the child goes on to the root of its parent.
  long_way :
      (s r n q m : ℕ)
      → parents child ≡ none
      → Leads (put parents child (some parent)) parent q m
      → r ≡ child
      → Leads parents s r n
      → (k : ℕ) × Leads (put parents child (some parent)) s q k
  long_way _ _ _ q m free l same (top s e) = (
    suc m,
    up s parent q m
        (subst (λ x. put parents child (some parent) x ≡ some parent) (sym same)
          (put_same parents child (some parent)))
        l,
  )
  long_way _ _ _ q m free l same (up s p r n e w) =
      let (k, way) = long_way p r n q m free l same w in
      (suc k, up s p q k (moved_up s p free e) way)

-- With a new parent whose root is not the child.
linked-Rooted :
    (r : Roles) (child parent root n : ℕ)
    → r.subsurface_parent child ≡ none
    → Leads r.subsurface_parent parent root n
    → (root == child) ≡ false
    → Rooted r
    → Rooted (record r { subsurface_parent = put r.subsurface_parent child (some parent) })
linked-Rooted r child parent root n free l other rooted s =
    let f = r.subsurface_parent in
    let l' = other_way f child parent parent root n free other l in
    let (root', n', w) = rooted s in
    elim (Bool-cases (root' == child)) [
      | inl e ↦
          let (k, way) =
            long_way f child parent s root' n' root n free l' ((==_iff root' child).0 e) w in
          (root, k, way)
      | inr e ↦ (root', n', other_way f child parent s root' n' free e w)
    ]

-- What is left of the roles.
abbrev pub after : GetSubsurface → Roles → Roles
after (linked r') r = r'
after _ r = r

free_parent : (o : Option ℕ) → is_subsurface o ≡ false → o ≡ none
unfolding is_subsurface
free_parent none e = refl
free_parent (some p) e = cc e

checked :
    (created : Bool) (child parent : ℕ) (r : Roles) (root n : ℕ)
    → r.subsurface_parent child ≡ none
    → Leads r.subsurface_parent parent root n
    → Rooted r
    → (answer : GetSubsurface) × (check_ancestor created child parent (some root) r ≡ some answer)
      × Rooted (after answer r)
unfolding check_ancestor link_subsurface
checked created child parent r root n free l rooted = elim (Bool-cases (root == child)) [
  | inl e ↦ (descends, rw e refl, rooted)
  | inr e ↦ elim (Bool-cases created) [
    | inl made ↦ (
      linked (record r { subsurface_parent = put r.subsurface_parent child (some parent) }),
      rw (e, made) refl,
      linked-Rooted r child parent root n free l e rooted,
    )
    | inr refused ↦ (no_memory, rw (e, refused) refl, rooted)
  ]
]

-- Where the parents of every surface lead to one without a parent, there is an amount of fuel
-- from which on every get_subsurface request, refused or not, comes to an answer, and afterwards
-- the parents of every surface still lead to one without a parent.
pub subcompositor_get_subsurface-Rooted :
    (created : Bool) (child parent : ℕ) (r : Roles)
    → Rooted r
    → (fuel : ℕ) × ((more : ℕ)
        → fuel ≤ more
        → (answer : GetSubsurface) × (subcompositor_get_subsurface more created child parent r
            ≡ some answer)
          × Rooted (after answer r))
unfolding subcompositor_get_subsurface
subcompositor_get_subsurface-Rooted created child parent r rooted =
    let (root, n, l) = rooted parent in
    (
      suc n,
      λ more le. elim (Bool-cases (r.layer_surface child)) [
        | inl layer ↦ (has_layer_role, rw layer refl, rooted)
        | inr plain ↦ elim (Bool-cases (is_subsurface (r.subsurface_parent child))) [
          | inl sub ↦ (has_parent, rw (plain, sub) refl, rooted)
          | inr free ↦
              let found = climbs r.subsurface_parent parent root n more l (omega (arith, le)) in
              let (answer, done, safe) =
                checked created child parent r root n (free_parent (r.subsurface_parent child) free)
                  l rooted in
              (answer, rw (plain, free, found) done, safe)
        ]
      ],
    )
