-- ===== src/Forward/Mirror/Colors.antt =====
-- The source rectangle and the colour representation of the property updates.
use swaylock_plugin.Base.{
  ℕ, ◌≡◌, refl, sym, ap, ◌∙◌, subst, Bool, true, false, if◌then◌else◌, returns,
}
use swaylock_plugin.Forward.{
  SurfaceState, ForwardSurface, World, emit, set_committed, set_source, renew_color_representation,
  set_alpha_mode, set_chroma_location, set_coefficients_and_range,
}
use swaylock_plugin.Forward.Apply.{
  assert_then, source_differs, apply_source, color_rep_differs, emit_if, apply_color_representation,
}
use swaylock_plugin.Forward.Mirror.{Shows, Moves, Goes, if-Goes, heard, source_of, given}
use swaylock_plugin.Forward.Mirror.Steps.{same_number, same_flag, neither, stays, assert-Goes}

abbrev pub cropped : ForwardSurface → SurfaceState
cropped s = record s.committed {
  viewport_source_x = s.pending.viewport_source_x;
  viewport_source_y = s.pending.viewport_source_y;
  viewport_source_w = s.pending.viewport_source_w;
  viewport_source_h = s.pending.viewport_source_h;
}

-- The rectangle that is sent is the one before.
abbrev pub late_source : ForwardSurface → ℕ × ℕ × ℕ × ℕ → ℕ × ℕ × ℕ × ℕ
late_source s r = if source_differs s.committed s.pending then source_of s.committed else r

same_source :
    (s : ForwardSurface) → source_differs s.committed s.pending ≡ false → s.committed ≡ cropped s
unfolding source_differs
same_source s e =
    let p = s.pending in
    let (a, e₁) = neither _ _ e in
    let (b, e₂) = neither _ _ e₁ in
    let (c, d) = neither _ _ e₂ in
    ap (λ n. record s.committed { viewport_source_x = n }) (same_number _ _ a)
    ∙ ap
        (λ n. record s.committed { viewport_source_x = p.viewport_source_x; viewport_source_y = n })
        (same_number _ _ b)
    ∙ ap
        (λ n. record s.committed {
          viewport_source_x = p.viewport_source_x;
          viewport_source_y = p.viewport_source_y;
          viewport_source_w = n;
        })
        (same_number _ _ c)
    ∙ ap
        (λ n. record s.committed {
          viewport_source_x = p.viewport_source_x;
          viewport_source_y = p.viewport_source_y;
          viewport_source_w = p.viewport_source_w;
          viewport_source_h = n;
        })
        (same_number _ _ d)

pub apply_source-Goes :
    (w : World)
    → w.surface.background.viewport ≡ true
    → Goes w (cropped w.surface) (late_source w.surface (heard w.log).source) (apply_source w)
unfolding apply_source
apply_source-Goes w v =
    let c = w.surface.committed in
    let w' = set_committed (cropped w.surface) (
      emit
        (set_source c.viewport_source_x c.viewport_source_y c.viewport_source_w c.viewport_source_h)
        w) in
    if-Goes (source_differs c w.surface.pending) (assert_then w.surface.background.viewport w')
      (returns w)
      (λ e. assert-Goes w.surface.background.viewport w' v (record {
        surface_moves = refl;
        mirrors_moves = λ h. record {
          scale_shown = h.scale_shown;
          transform_shown = h.transform_shown;
          dest_shown = h.dest_shown;
          alpha_shown = h.alpha_shown;
          chroma_shown = h.chroma_shown;
          coefs_shown = h.coefs_shown;
          image_shown = h.image_shown;
        };
        source_moves = rw e refl;
        descs_moves = refl;
      }))
      (λ e. (
        w,
        refl,
        subst (λ r. Moves w (cropped w.surface) r w) (rw e refl)
            (stays w (cropped w.surface) (same_source w.surface e)),
      ))

abbrev pub recolored : ForwardSurface → SurfaceState
recolored s = record s.committed {
  has_alpha_mode = s.pending.has_alpha_mode;
  alpha_mode = s.pending.alpha_mode;
  has_chroma_location = s.pending.has_chroma_location;
  chroma_location = s.pending.chroma_location;
  has_coef_range = s.pending.has_coef_range;
  coefficients = s.pending.coefficients;
  range = s.pending.range;
}

same_colors :
    (s : ForwardSurface)
    → color_rep_differs s.committed s.pending ≡ false
    → s.committed ≡ recolored s
unfolding color_rep_differs
same_colors s e =
    let p = s.pending in
    let c = s.committed in
    let (a, e₁) = neither _ _ e in
    let (b, e₂) = neither _ _ e₁ in
    let (d, e₃) = neither _ _ e₂ in
    let (f, e₄) = neither _ _ e₃ in
    let (g, e₅) = neither _ _ e₄ in
    let (i, j) = neither _ _ e₅ in
    ap (λ n. record c { has_alpha_mode = n }) (same_flag _ _ a)
    ∙ ap (λ n. record c { has_alpha_mode = p.has_alpha_mode; alpha_mode = n }) (same_number _ _ b)
    ∙ ap
        (λ n. record c {
          has_alpha_mode = p.has_alpha_mode;
          alpha_mode = p.alpha_mode;
          has_chroma_location = n;
        })
        (same_flag _ _ d)
    ∙ ap
        (λ n. record c {
          has_alpha_mode = p.has_alpha_mode;
          alpha_mode = p.alpha_mode;
          has_chroma_location = p.has_chroma_location;
          chroma_location = n;
        })
        (same_number _ _ f)
    ∙ ap
        (λ n. record c {
          has_alpha_mode = p.has_alpha_mode;
          alpha_mode = p.alpha_mode;
          has_chroma_location = p.has_chroma_location;
          chroma_location = p.chroma_location;
          has_coef_range = n;
        })
        (same_flag _ _ g)
    ∙ ap
        (λ n. record c {
          has_alpha_mode = p.has_alpha_mode;
          alpha_mode = p.alpha_mode;
          has_chroma_location = p.has_chroma_location;
          chroma_location = p.chroma_location;
          has_coef_range = p.has_coef_range;
          coefficients = n;
        })
        (same_number _ _ i)
    ∙ ap
        (λ n. record c {
          has_alpha_mode = p.has_alpha_mode;
          alpha_mode = p.alpha_mode;
          has_chroma_location = p.has_chroma_location;
          chroma_location = p.chroma_location;
          has_coef_range = p.has_coef_range;
          coefficients = p.coefficients;
          range = n;
        })
        (same_number _ _ j)

-- A new colour representation with what is asked of it.
abbrev renewed : World → Bool → Bool → Bool → ℕ → ℕ → ℕ → ℕ → World
renewed w a b c x y z r = emit_if c (set_coefficients_and_range z r) (
    emit_if b (set_chroma_location y)
      (emit_if a (set_alpha_mode x) (emit renew_color_representation w)))

recolored_log :
    (w : World) (a b c : Bool) (x y z r : ℕ)
    → (renewed w a b c x y z r ≡ record w { log = (renewed w a b c x y z r).log })
      × (heard (renewed w a b c x y z r).log
          ≡ record (heard w.log) { alpha = given a x; chroma = given b y; coefs = given c (z, r) })
unfolding emit_if
recolored_log w true true true x y z r = (refl, refl)
recolored_log w true true false x y z r = (refl, refl)
recolored_log w true false true x y z r = (refl, refl)
recolored_log w true false false x y z r = (refl, refl)
recolored_log w false true true x y z r = (refl, refl)
recolored_log w false true false x y z r = (refl, refl)
recolored_log w false false true x y z r = (refl, refl)
recolored_log w false false false x y z r = (refl, refl)

pub apply_color_representation-Goes :
    (w : World)
    → w.surface.background.color_rep_surface ≡ true
    → Goes w (recolored w.surface) (heard w.log).source (apply_color_representation w)
unfolding apply_color_representation
apply_color_representation-Goes w v =
    let p = w.surface.pending in
    let w₁ =
      renewed w p.has_alpha_mode p.has_chroma_location p.has_coef_range p.alpha_mode
        p.chroma_location p.coefficients p.range in
    let w' = set_committed (recolored w.surface) w₁ in
    let (same, told) =
      recolored_log w p.has_alpha_mode p.has_chroma_location p.has_coef_range p.alpha_mode
        p.chroma_location p.coefficients p.range in
    if-Goes (color_rep_differs w.surface.committed p)
      (assert_then w.surface.background.color_rep_surface w') (returns w)
      (λ e. assert-Goes w.surface.background.color_rep_surface w' v (record {
        surface_moves =
            ap (λ (x : World). record x.surface { committed = recolored w.surface }) same;
        mirrors_moves = λ h.
            subst (λ u. Shows u w'.surface.committed) (sym told)
              (record {
                scale_shown = h.scale_shown;
                transform_shown = h.transform_shown;
                dest_shown = h.dest_shown;
                alpha_shown = refl;
                chroma_shown = refl;
                coefs_shown = refl;
                image_shown = h.image_shown;
              });
        source_moves = ap (λ u. u.source) told;
        descs_moves = ap (λ (x : World). x.descs) same;
      }))
      (λ e. (w, refl, stays w (recolored w.surface) (same_colors w.surface e)))
