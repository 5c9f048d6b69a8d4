-- ===== src/Forward/Mirror/Whole.antt =====
-- All property updates of one commit.
use swaylock_plugin.Base.{
  ℕ, ◌≡◌, sym, ap, ◌∙◌, subst, true, Option, if◌then◌else◌, Outcome, returns, ◌>>=◌,
}
use swaylock_plugin.Forward.{SurfaceState, ForwardSurface, World}
use swaylock_plugin.Forward.Apply.{apply_scale, apply_transform, source_differs}
use swaylock_plugin.Forward.Commit.{apply_properties}
use swaylock_plugin.Forward.Mirror.{Upstream, Shows, Mirrors, Moves, Moves-Moves, heard, source_of}
use swaylock_plugin.Forward.Mirror.Steps.{
  scaled, apply_scale-Moves, turned, apply_transform-Moves, resized, apply_destination-Goes,
}
use swaylock_plugin.Forward.Mirror.Colors.{
  cropped, late_source, apply_source-Goes, recolored, apply_color_representation-Goes,
}
use swaylock_plugin.Forward.Mirror.Descs.{Alive, imaged}
use swaylock_plugin.Forward.Mirror.Images.{apply_image_desc-Settles}

-- The committed state with the properties of the pending one.
abbrev pub updated : ForwardSurface → SurfaceState
updated s = record s.committed {
  buffer_scale = s.pending.buffer_scale;
  buffer_transform = s.pending.buffer_transform;
  viewport_dest_width = s.pending.viewport_dest_width;
  viewport_dest_height = s.pending.viewport_dest_height;
  viewport_source_x = s.pending.viewport_source_x;
  viewport_source_y = s.pending.viewport_source_y;
  viewport_source_w = s.pending.viewport_source_w;
  viewport_source_h = s.pending.viewport_source_h;
  has_alpha_mode = s.pending.has_alpha_mode;
  alpha_mode = s.pending.alpha_mode;
  has_chroma_location = s.pending.has_chroma_location;
  chroma_location = s.pending.chroma_location;
  has_coef_range = s.pending.has_coef_range;
  coefficients = s.pending.coefficients;
  range = s.pending.range;
  image_desc = s.pending.image_desc;
  render_intent = s.pending.render_intent;
}

pub record Updated (w w' : World) : Type 0 where
  pub surface_updated : w'.surface ≡ record w.surface { committed = updated w.surface }
  pub shown : Shows (heard w'.log) w.surface.pending
  pub source_updated : (heard w'.log).source ≡ (
      if source_differs w.surface.committed w.surface.pending
      then source_of w.surface.committed
      else (heard w.log).source)
  pub alive : Alive w'.descs w.surface.pending.image_desc

then_runs :
    (o : Outcome World) (x : World) (f : World → Outcome World) {y : Outcome World}
    → o ≡ returns x
    → f x ≡ y
    → (o >>= f) ≡ y
then_runs o x f e r = ap (λ (q : Outcome World). q >>= f) e ∙ r

-- A description that the surface names is alive after the parts that move it.
moved-Alive :
    (w w' : World) (c : SurfaceState) (source : ℕ × ℕ × ℕ × ℕ) (f : ForwardSurface → Option ℕ)
    → Moves w c source w'
    → Alive w.descs (f (record w.surface { committed = c }))
    → Alive w'.descs (f w'.surface)
moved-Alive w w' c source f m a =
    subst (λ s. Alive w'.descs (f s)) (sym m.surface_moves)
      (subst (λ D. Alive D (f (record w.surface { committed = c }))) (sym m.descs_moves) a)

all_shown : (u : Upstream) (s : ForwardSurface) → Shows u (updated s) → Shows u s.pending
all_shown u s h = record {
  scale_shown = h.scale_shown;
  transform_shown = h.transform_shown;
  dest_shown = h.dest_shown;
  alpha_shown = h.alpha_shown;
  chroma_shown = h.chroma_shown;
  coefs_shown = h.coefs_shown;
  image_shown = h.image_shown;
}

-- For a surface whose viewport, colour representation and colour surface exist, whose pending
-- and committed image descriptions are null or were not freed, and whose committed state, but
-- for the source rectangle, is what the compositor has heard, the first half of
-- apply_pending_surface_updates returns; the committed properties are then the pending ones, the
-- compositor has heard the pending scale, transform, destination, colour representation and
-- image description, the pending image description is not freed, and, where the source rectangle
-- changed, the compositor has heard the one committed before, not the new one.
pub apply_properties-Updated :
    (w : World)
    → w.surface.background.viewport ≡ true
    → w.surface.background.color_rep_surface ≡ true
    → w.surface.background.color_surface ≡ true
    → Alive w.descs w.surface.committed.image_desc
    → Alive w.descs w.surface.pending.image_desc
    → Mirrors w
    → (w' : World) × (apply_properties w ≡ returns w') × Updated w w'
unfolding apply_properties source_differs
apply_properties-Updated w v r c old new h =
    let a = apply_scale w in
    let b = apply_transform a in
    let m₂ =
      Moves-Moves w a b (scaled w.surface) _ turned (λ s x. x) (apply_scale-Moves w)
        (apply_transform-Moves a) in
    let (d, ran₃, n₃) =
      apply_destination-Goes b
        (ap (λ (s : ForwardSurface). s.background.viewport) m₂.surface_moves ∙ v) in
    let m₃ = Moves-Moves w b d _ _ resized (λ s x. x) m₂ n₃ in
    let (f, ran₄, n₄) =
      apply_source-Goes d
        (ap (λ (s : ForwardSurface). s.background.viewport) m₃.surface_moves ∙ v) in
    let m₄ = Moves-Moves w d f _ _ cropped late_source m₃ n₄ in
    let (g, ran₅, n₅) =
      apply_color_representation-Goes f
        (ap (λ (s : ForwardSurface). s.background.color_rep_surface) m₄.surface_moves ∙ r) in
    let m₅ = Moves-Moves w f g _ _ recolored (λ s x. x) m₄ n₅ in
    let (w', ran₆, t) =
      apply_image_desc-Settles g
        (ap (λ (s : ForwardSurface). s.background.color_surface) m₅.surface_moves ∙ c)
        (moved-Alive w g _ _ (λ s. s.committed.image_desc) m₅ old)
        (moved-Alive w g _ _ (λ s. s.pending.image_desc) m₅ new) in
    let same =
      t.surface_settles
      ∙ ap (λ (s : ForwardSurface). record s { committed = imaged s }) m₅.surface_moves in
    (
      w',
      then_runs _ d _ ran₃ (then_runs _ f _ ran₄ (then_runs _ g _ ran₅ ran₆)),
      record {
        surface_updated = same;
        shown = all_shown (heard w'.log) w.surface (
            subst (λ (s : ForwardSurface). Shows (heard w'.log) s.committed) same
              (t.mirrors_settles (m₅.mirrors_moves h)));
        source_updated = t.source_settles ∙ m₅.source_moves;
        alive =
            subst (λ (s : ForwardSurface). Alive w'.descs s.pending.image_desc) m₅.surface_moves
              t.alive_settles;
      },
    )
