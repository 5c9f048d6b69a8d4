-- ===== src/Forward/Mirror/Descs.antt =====
-- The image descriptions that a commit exchanges.
use swaylock_plugin.Base.{
  ℕ, ◌≡◌, refl, ap, ◌∙◌, true, false, not, ◌||◌, ◌==◌, ==_iff, Bool-cases, inl, inr, Option, none,
  some, Outcome, returns, ◌>>=◌, ◌∷◌, arith,
}
use swaylock_plugin.Forward.{SurfaceState, ForwardSurface, ForwardImageDesc, World, set_committed}
use swaylock_plugin.Forward.Content.{
  put, unlink, is_empty, same_desc, delete_image_desc_if_unreferenced, release_found, release_desc,
  commit_found, commit_desc, exchange_desc,
}

-- A pointer to an image description is null or points to one that was not freed.
abbrev pub Alive : (ℕ → Option ForwardImageDesc) → Option ℕ → Type 0
Alive descs none = Unit
Alive descs (some d) = (desc : ForwardImageDesc) × (descs d ≡ some desc)

pub put_same :
    (f : ℕ → Option ForwardImageDesc) (k : ℕ) (v : Option ForwardImageDesc) → put f k v k ≡ v
unfolding put
put_same f k v = rw ((==_iff k k).1 refl) refl

pub put_other :
    (f : ℕ → Option ForwardImageDesc) (k x : ℕ) (v : Option ForwardImageDesc)
    → (x == k) ≡ false
    → put f k v x ≡ f x
unfolding put
put_other f k x v e = rw e refl

pub same_desc-same : (a b : Option ℕ) → same_desc a b ≡ true → a ≡ b
unfolding same_desc
same_desc-same none none e = refl
same_desc-same (some a) (some b) e = ap some ((==_iff a b).0 e)
same_desc-same none (some b) e = cc e
same_desc-same (some a) none e = cc e

-- Only the table changes, and only at the released description.
abbrev pub Released : World → Option ℕ → Outcome World → Type 0
Released w o out =
    (D : ℕ → Option ForwardImageDesc) × (out ≡ returns (record w { descs = D }))
    × ((d : Option ℕ) → same_desc o d ≡ false → Alive w.descs d → Alive D d)

pub deleted-descs :
    (d : ℕ) (desc : ForwardImageDesc) (w : World)
    → (D : ℕ → Option ForwardImageDesc) × (delete_image_desc_if_unreferenced d desc w
        ≡ record w { descs = D })
      × ((x : ℕ) → (x == d) ≡ false → D x ≡ w.descs x)
unfolding delete_image_desc_if_unreferenced
deleted-descs d desc w = elim (Bool-cases desc.resource) [
  | inl held ↦ (w.descs, rw held refl, λ x e. refl)
  | inr gone ↦
      elim (Bool-cases
        (not (is_empty desc.committed_surfaces) || not (is_empty desc.pending_surfaces))) [
          | inl used ↦ (w.descs, rw (gone, used) refl, λ x e. refl)
          | inr unused ↦
              (put w.descs d none, rw (gone, unused) refl, λ x e. put_other w.descs d x none e)
        ]
]

pub other_number : (a b : ℕ) → (a == b) ≡ false → (b == a) ≡ false
other_number a b e = ground arith

pub kept-Alive :
    (D : ℕ → Option ForwardImageDesc) (w : World) (d : ℕ) (v : Option ForwardImageDesc)
    (x : Option ℕ)
    → ((y : ℕ) → (y == d) ≡ false → D y ≡ put w.descs d v y)
    → same_desc (some d) x ≡ false
    → Alive w.descs x
    → Alive D x
unfolding same_desc
kept-Alive D w d v none others e a = tt
kept-Alive D w d v (some b) others e (desc, p) =
    let ne = other_number d b e in (desc, others b ne ∙ (put_other w.descs d b v ne ∙ p))

pub release_desc-Released :
    (w : World) (o : Option ℕ) → Alive w.descs o → Released w o (release_desc o w)
unfolding release_desc release_found same_desc
release_desc-Released w none alive = (w.descs, refl, λ d e a. a)
release_desc-Released w (some d) (desc, found) =
    let desc' : ForwardImageDesc = record desc {
      committed_surfaces = unlink w.surface.id desc.committed_surfaces;
    } in
    let w₁ = record w { descs = put w.descs d (some desc') } in
    let (D, same, others) = deleted-descs d desc' w₁ in
    (
      D,
      ap (λ o. release_found d o w) found ∙ ap returns same,
      λ x. kept-Alive D w d (some desc') x others,
    )

-- Only the table and the committed description change, and the pending one stays alive.
abbrev pub Exchanged : World → Outcome World → Type 0
Exchanged w out =
    let p = w.surface.pending.image_desc in
    (D : ℕ → Option ForwardImageDesc) × (out
      ≡ returns
          (set_committed (record w.surface.committed { image_desc = p }) (record w { descs = D })))
    × Alive D p

pub commit_desc-Exchanged :
    (w : World) (p : Option ℕ)
    → Alive w.descs p
    → (D : ℕ → Option ForwardImageDesc) × (commit_desc p w
        ≡ returns (
            set_committed (record w.surface.committed { image_desc = p }) (record w { descs = D })))
      × Alive D p
unfolding commit_desc commit_found
commit_desc-Exchanged w none alive = (w.descs, refl, tt)
commit_desc-Exchanged w (some d) (desc, found) =
    let desc' : ForwardImageDesc = record desc {
      committed_surfaces = w.surface.id ∷ desc.committed_surfaces;
    } in
    (
      put w.descs d (some desc'),
      ap (λ o. commit_found d o w) found,
      (desc', put_same w.descs d (some desc')),
    )

pub exchange_desc-Exchanged :
    (w : World)
    → Alive w.descs w.surface.committed.image_desc
    → Alive w.descs w.surface.pending.image_desc
    → Exchanged w (exchange_desc w)
unfolding exchange_desc
exchange_desc-Exchanged w old new =
    let c = w.surface.committed in
    let p = w.surface.pending.image_desc in
    elim (Bool-cases (same_desc c.image_desc p)) [
      | inl e ↦ (
        w.descs,
        rw e (
            ap (λ d. returns (set_committed (record c { image_desc = d }) w))
              (same_desc-same c.image_desc p e)),
        new,
      )
      | inr e ↦
          let (D, released, keeps) = release_desc-Released w c.image_desc old in
          let w₁ = record w { descs = D } in
          let (D', committed, alive) = commit_desc-Exchanged w₁ p (keeps p e new) in
          (D', rw e (ap (λ (o : Outcome World). o >>= commit_desc p) released ∙ committed), alive)
    ]

abbrev pub imaged : ForwardSurface → SurfaceState
imaged s = record s.committed {
  image_desc = s.pending.image_desc;
  render_intent = s.pending.render_intent;
}
