-- ===== src/Forward/Stack/Sent.antt =====
-- What a commit sends for the subsurfaces, where each of them can be made.
use swaylock_plugin.Base.{
  ℕ, ◌≡◌, refl, ap, ◌∙◌, true, not, List, [], ◌∷◌, Option, none, some, ◌==◌, returns, ◌>>=◌,
  Bool-cases, inl, inr, All,
}
use swaylock_plugin.Forward.{SubsurfaceEntries, Presentation, ForwardSurface, World}
use swaylock_plugin.Forward.Content.{put}
use swaylock_plugin.Forward.Commit.{
  can_make, entry_sent, apply_pending_subsurf_entry, entry_above, entry_below, apply_above,
  apply_below, reversed, empty_committed, apply_subsurfaces,
}
use swaylock_plugin.Forward.Stack.Segments.{made_surface, above_sent, below_sent}

-- The subsurface of an entry is made, or the surface has an output.
abbrev pub Makeable : World → ℕ → Type 0
Makeable w e = can_make w.surface.sway_surface (w.children e) ≡ true

made_can :
    (o : Option Presentation) (c : SubsurfaceEntries)
    → c.ext_subsurface ≡ true
    → can_make o c ≡ true
unfolding can_make
made_can (some p) c h = refl
made_can none c h = h

put-can :
    (o : Option Presentation) (cs : ℕ → SubsurfaceEntries) (e x : ℕ) (c : SubsurfaceEntries)
    → c.ext_subsurface ≡ true
    → can_make o (cs x) ≡ true
    → can_make o (put cs e c x) ≡ true
unfolding put
put-can o cs e x c h can = elim (Bool-cases (x == e)) [
  | inl same ↦ simp (same, made_can o c h)
  | inr other ↦ simp (other, can)
]

sent-Makeable : (e x : ℕ) (w : World) → Makeable w x → Makeable (entry_sent e w) x
unfolding entry_sent
sent-Makeable e x w can =
    let child = w.children e in
    let child' : SubsurfaceEntries = record child {
      ext_subsurface = true;
      committed_is_desync = child.is_desync;
      committed_pos_x = child.pos_x;
      committed_pos_y = child.pos_y;
    } in
    ap (λ (s : ForwardSurface). can_make s.sway_surface (put w.children e child' x))
      (made_surface (not child.ext_subsurface) e w)
    ∙ put-can w.surface.sway_surface w.children e x child' refl can

all_sent :
    (e : ℕ) (w : World) (xs : List ℕ) → All (Makeable w) xs → All (Makeable (entry_sent e w)) xs
all_sent e w [] h = tt
all_sent e w (x ∷ xs) (can, h) = (sent-Makeable e x w can, all_sent e w xs h)

entry_runs :
    (e : ℕ) (w : World) → Makeable w e → apply_pending_subsurf_entry e w ≡ returns (entry_sent e w)
unfolding apply_pending_subsurf_entry
entry_runs e w can = simp can

above_runs :
    (es xs : List ℕ) (last : Option ℕ) (w : World)
    → All (Makeable w) es
    → All (Makeable w) xs
    → (apply_above es last w ≡ returns (above_sent es last w))
      × All (Makeable (above_sent es last w)) xs
unfolding apply_above above_sent entry_above
above_runs [] xs last w h k = (refl, k)
above_runs (e ∷ es) xs last w (can, h) k =
    let (run, kept) =
      above_runs es xs (some e) (entry_above e last (entry_sent e w)) (all_sent e w es h)
        (all_sent e w xs k) in
    (
      ap (λ r. r >>= λ w'. apply_above es (some e) (entry_above e last w')) (entry_runs e w can)
          ∙ run,
      kept,
    )

below_runs :
    (es : List ℕ) (last : Option ℕ) (w : World)
    → All (Makeable w) es
    → apply_below es last w ≡ returns (below_sent es last w)
unfolding apply_below below_sent entry_below
below_runs [] last w h = refl
below_runs (e ∷ es) last w (can, h) =
    ap (λ r. r >>= λ w'. apply_below es (some e) (entry_below e last w')) (entry_runs e w can)
    ∙ below_runs es (some e) (entry_below e last (entry_sent e w)) (all_sent e w es h)

-- The world after a commit's subsurfaces.
unfoldable pub subsurfaces_sent : World → World
unfolding above_sent below_sent reversed empty_committed
subsurfaces_sent w =
    below_sent (reversed w.surface.pending.subsurfaces_below) none
      (above_sent w.surface.pending.subsurfaces_above none (empty_committed w))

pub apply_subsurfaces-runs :
    (w : World)
    → All (Makeable w) w.surface.pending.subsurfaces_above
    → All (Makeable w) (reversed w.surface.pending.subsurfaces_below)
    → apply_subsurfaces w ≡ returns (subsurfaces_sent w)
unfolding apply_subsurfaces subsurfaces_sent empty_committed
apply_subsurfaces-runs w above below =
    let (run, kept) =
      above_runs w.surface.pending.subsurfaces_above (reversed w.surface.pending.subsurfaces_below)
        none (empty_committed w) above below in
    ap (λ r. r >>= apply_below (reversed w.surface.pending.subsurfaces_below) none) run
    ∙ below_runs (reversed w.surface.pending.subsurfaces_below) none _ kept
