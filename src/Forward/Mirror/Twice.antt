-- ===== src/Forward/Mirror/Twice.antt =====
-- A commit that changes no property sends none.
use swaylock_plugin.Base.{
  ℕ, ◌≡◌, refl, sym, ap, ◌∙◌, subst, Bool, true, false, ◌==◌, ==_iff, differ, Option, none, some,
  Outcome, returns, ◌>>=◌,
}
use swaylock_plugin.Forward.{SurfaceState, ForwardSurface, World}
use swaylock_plugin.Forward.Apply.{
  apply_scale, apply_transform, apply_destination, apply_source, apply_color_representation,
  source_differs, dest_differs, color_rep_differs,
}
use swaylock_plugin.Forward.Content.{apply_image_desc, same_desc}
use swaylock_plugin.Forward.Commit.{apply_properties}
use swaylock_plugin.Forward.Mirror.{Mirrors}
use swaylock_plugin.Forward.Mirror.Descs.{Alive}
use swaylock_plugin.Forward.Mirror.Whole.{updated, apply_properties-Updated}

equal : (a b : ℕ) → a ≡ b → (a == b) ≡ true
equal a b e = (==_iff a b).1 e

differ-same : (a : Bool) → differ a a ≡ false
differ-same true = refl
differ-same false = refl

same_desc_refl : (o : Option ℕ) → same_desc o o ≡ true
unfolding same_desc
same_desc_refl none = refl
same_desc_refl (some a) = equal a a refl

-- Nothing differs once the properties are those of the pending state.
abbrev Unchanged : SurfaceState → SurfaceState → Type 0
Unchanged c p =
    ((c.buffer_scale == p.buffer_scale) ≡ true)
    × ((c.buffer_transform == p.buffer_transform) ≡ true)
    × (dest_differs c p ≡ false)
    × (source_differs c p ≡ false)
    × (color_rep_differs c p ≡ false)
    × (same_desc c.image_desc p.image_desc ≡ true)
    × ((c.render_intent == p.render_intent) ≡ true)

updated-Unchanged : (s : ForwardSurface) → Unchanged (updated s) s.pending
unfolding dest_differs source_differs color_rep_differs
updated-Unchanged s =
    let p = s.pending in
    (
      equal p.buffer_scale p.buffer_scale refl,
      equal p.buffer_transform p.buffer_transform refl,
      simp (
        equal p.viewport_dest_width p.viewport_dest_width refl,
        equal p.viewport_dest_height p.viewport_dest_height refl,
      ),
      simp (
        equal p.viewport_source_x p.viewport_source_x refl,
        equal p.viewport_source_y p.viewport_source_y refl,
        equal p.viewport_source_w p.viewport_source_w refl,
        equal p.viewport_source_h p.viewport_source_h refl,
      ),
      simp (
        differ-same p.has_alpha_mode,
        equal p.alpha_mode p.alpha_mode refl,
        differ-same p.has_chroma_location,
        equal p.chroma_location p.chroma_location refl,
        differ-same p.has_coef_range,
        equal p.coefficients p.coefficients refl,
        equal p.range p.range refl,
      ),
      same_desc_refl p.image_desc,
      equal p.render_intent p.render_intent refl,
    )

scale_stays :
    (w : World)
    → (w.surface.committed.buffer_scale == w.surface.pending.buffer_scale) ≡ true
    → apply_scale w ≡ w
unfolding apply_scale
scale_stays w e = rw e refl

transform_stays :
    (w : World)
    → (w.surface.committed.buffer_transform == w.surface.pending.buffer_transform) ≡ true
    → apply_transform w ≡ w
unfolding apply_transform
transform_stays w e = rw e refl

destination_stays :
    (w : World)
    → dest_differs w.surface.committed w.surface.pending ≡ false
    → apply_destination w ≡ returns w
unfolding apply_destination
destination_stays w e = rw e refl

source_stays :
    (w : World)
    → source_differs w.surface.committed w.surface.pending ≡ false
    → apply_source w ≡ returns w
unfolding apply_source
source_stays w e = rw e refl

colors_stay :
    (w : World)
    → color_rep_differs w.surface.committed w.surface.pending ≡ false
    → apply_color_representation w ≡ returns w
unfolding apply_color_representation
colors_stay w e = rw e refl

image_stays :
    (w : World)
    → same_desc w.surface.committed.image_desc w.surface.pending.image_desc ≡ true
    → (w.surface.committed.render_intent == w.surface.pending.render_intent) ≡ true
    → apply_image_desc w ≡ returns w
unfolding apply_image_desc
image_stays w e f = rw (e, f) refl

-- The parts after the destination, and after the source.
abbrev colored : World → Outcome World
colored w = apply_color_representation w >>= apply_image_desc

abbrev sourced : World → Outcome World
sourced w = apply_source w >>= colored

Unchanged-returns :
    (w : World) → Unchanged w.surface.committed w.surface.pending → apply_properties w ≡ returns w
unfolding apply_properties
Unchanged-returns w (a, b, c, d, e, f, g) =
    ap (λ x. apply_destination (apply_transform x) >>= sourced) (scale_stays w a)
    ∙ ap (λ x. apply_destination x >>= sourced) (transform_stays w b)
    ∙ ap (λ (o : Outcome World). o >>= sourced) (destination_stays w c)
    ∙ ap (λ (o : Outcome World). o >>= colored) (source_stays w d)
    ∙ ap (λ (o : Outcome World). o >>= apply_image_desc) (colors_stay w e)
    ∙ image_stays w f g

-- Under the same conditions (the three objects exist, the image descriptions are null or were
-- not freed, and the compositor has heard the committed state but for the source rectangle),
-- applying the pending properties a second time returns and changes and sends nothing, so that a
-- source rectangle that was sent late stays so.
pub apply_properties_twice :
    (w : World)
    → w.surface.background.viewport ≡ true
    → w.surface.background.color_rep_surface ≡ true
    → w.surface.background.color_surface ≡ true
    → Alive w.descs w.surface.committed.image_desc
    → Alive w.descs w.surface.pending.image_desc
    → Mirrors w
    → (w' : World) × (apply_properties w ≡ returns w') × (apply_properties w' ≡ returns w')
apply_properties_twice w v r c old new h =
    let (w', ran, u) = apply_properties-Updated w v r c old new h in
    (
      w',
      ran,
      Unchanged-returns w' (
          subst (λ (s : ForwardSurface). Unchanged s.committed s.pending) (sym u.surface_updated)
            (updated-Unchanged w.surface)),
    )
