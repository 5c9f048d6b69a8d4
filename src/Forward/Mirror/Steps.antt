-- ===== src/Forward/Mirror/Steps.antt =====
-- Each part of the property updates, on a surface that the compositor mirrors.
use swaylock_plugin.Base.{
  ℕ, ◌≡◌, refl, ap, ◌∙◌, Bool, true, false, not, ◌||◌, ◌==◌, differ, returns, arith,
}
use swaylock_plugin.Forward.{
  SurfaceState, ForwardSurface, World, emit, set_committed, set_buffer_scale, set_buffer_transform,
  set_destination,
}
use swaylock_plugin.Forward.Apply.{
  apply_scale, apply_transform, dest_differs, assert_then, apply_destination,
}
use swaylock_plugin.Forward.Mirror.{Moves, Goes, if-Moves, if-Goes, heard}

pub same_number : (a b : ℕ) → not (a == b) ≡ false → a ≡ b
same_number a b e = ground arith

pub same_flag : (a b : Bool) → differ a b ≡ false → a ≡ b
same_flag true true e = refl
same_flag true false e = cc e
same_flag false true e = cc e
same_flag false false e = refl

pub neither : (a b : Bool) → a || b ≡ false → (a ≡ false) × (b ≡ false)
neither true b e = cc e
neither false b e = (refl, e)

-- Nothing is sent where the state is as wanted.
pub stays :
    (w : World) (c : SurfaceState) → w.surface.committed ≡ c → Moves w c (heard w.log).source w
stays w c e = record {
  surface_moves = ap (λ c'. record w.surface { committed = c' }) e;
  mirrors_moves = λ h. h;
  source_moves = refl;
  descs_moves = refl;
}

pub assert-Goes :
    {w : World} {c : SurfaceState} {source : ℕ × ℕ × ℕ × ℕ} (b : Bool) (x : World)
    → b ≡ true
    → Moves w c source x
    → Goes w c source (assert_then b x)
unfolding assert_then
assert-Goes true x e m = (x, refl, m)
assert-Goes false x e m = cc e

abbrev pub scaled : ForwardSurface → SurfaceState
scaled s = record s.committed { buffer_scale = s.pending.buffer_scale }

pub apply_scale-Moves :
    (w : World) → Moves w (scaled w.surface) (heard w.log).source (apply_scale w)
unfolding apply_scale
apply_scale-Moves w =
    let p = w.surface.pending in
    let c = w.surface.committed in
    if-Moves (not (c.buffer_scale == p.buffer_scale))
      (set_committed (scaled w.surface) (emit (set_buffer_scale p.buffer_scale) w)) w
      (λ e. record {
        surface_moves = refl;
        mirrors_moves = λ h. record {
          scale_shown = refl;
          transform_shown = h.transform_shown;
          dest_shown = h.dest_shown;
          alpha_shown = h.alpha_shown;
          chroma_shown = h.chroma_shown;
          coefs_shown = h.coefs_shown;
          image_shown = h.image_shown;
        };
        source_moves = refl;
        descs_moves = refl;
      })
      (λ e.
        stays w (scaled w.surface)
          (ap (λ n. record c { buffer_scale = n }) (same_number c.buffer_scale p.buffer_scale e)))

abbrev pub turned : ForwardSurface → SurfaceState
turned s = record s.committed { buffer_transform = s.pending.buffer_transform }

pub apply_transform-Moves :
    (w : World) → Moves w (turned w.surface) (heard w.log).source (apply_transform w)
unfolding apply_transform
apply_transform-Moves w =
    let p = w.surface.pending in
    let c = w.surface.committed in
    if-Moves (not (c.buffer_transform == p.buffer_transform))
      (set_committed (turned w.surface) (emit (set_buffer_transform p.buffer_transform) w)) w
      (λ e. record {
        surface_moves = refl;
        mirrors_moves = λ h. record {
          scale_shown = h.scale_shown;
          transform_shown = refl;
          dest_shown = h.dest_shown;
          alpha_shown = h.alpha_shown;
          chroma_shown = h.chroma_shown;
          coefs_shown = h.coefs_shown;
          image_shown = h.image_shown;
        };
        source_moves = refl;
        descs_moves = refl;
      })
      (λ e. stays w (turned w.surface) (
        ap (λ n. record c { buffer_transform = n })
          (same_number c.buffer_transform p.buffer_transform e)))

abbrev pub resized : ForwardSurface → SurfaceState
resized s = record s.committed {
  viewport_dest_width = s.pending.viewport_dest_width;
  viewport_dest_height = s.pending.viewport_dest_height;
}

same_dest :
    (s : ForwardSurface) → dest_differs s.committed s.pending ≡ false → s.committed ≡ resized s
unfolding dest_differs
same_dest s e =
    let (a, b) = neither _ _ e in
    ap (λ n. record s.committed { viewport_dest_width = n }) (same_number _ _ a)
    ∙ ap
        (λ n. record s.committed {
          viewport_dest_width = s.pending.viewport_dest_width;
          viewport_dest_height = n;
        })
        (same_number _ _ b)

pub apply_destination-Goes :
    (w : World)
    → w.surface.background.viewport ≡ true
    → Goes w (resized w.surface) (heard w.log).source (apply_destination w)
unfolding apply_destination
apply_destination-Goes w v =
    let p = w.surface.pending in
    let w' =
      set_committed (resized w.surface)
        (emit (set_destination p.viewport_dest_width p.viewport_dest_height) w) in
    if-Goes (dest_differs w.surface.committed p) (assert_then w.surface.background.viewport w')
      (returns w)
      (λ e. assert-Goes w.surface.background.viewport w' v (record {
        surface_moves = refl;
        mirrors_moves = λ h. record {
          scale_shown = h.scale_shown;
          transform_shown = h.transform_shown;
          dest_shown = refl;
          alpha_shown = h.alpha_shown;
          chroma_shown = h.chroma_shown;
          coefs_shown = h.coefs_shown;
          image_shown = h.image_shown;
        };
        source_moves = refl;
        descs_moves = refl;
      }))
      (λ e. (w, refl, stays w (resized w.surface) (same_dest w.surface e)))
