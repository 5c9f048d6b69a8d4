-- ===== src/Forward/Apply.antt =====
-- forward.c: `apply_pending_surface_updates`, in the order of its parts.
use swaylock_plugin.Base.{
  Bool, true, false, not, ◌||◌, ◌==◌, differ, if◌then◌else◌, Outcome, returns, aborts,
}
use swaylock_plugin.Forward.{
  SurfaceState, SurfaceRequest, set_buffer_scale, set_buffer_transform, set_destination, set_source,
  renew_color_representation, set_alpha_mode, set_chroma_location, set_coefficients_and_range,
  World, emit, set_committed,
}

unfoldable pub apply_scale : World → World
apply_scale w =
    let p = w.surface.pending in
    let c = w.surface.committed in
    if not (c.buffer_scale == p.buffer_scale)
    then set_committed (record c { buffer_scale = p.buffer_scale })
        (emit (set_buffer_scale p.buffer_scale) w)
    else w

unfoldable pub apply_transform : World → World
apply_transform w =
    let p = w.surface.pending in
    let c = w.surface.committed in
    if not (c.buffer_transform == p.buffer_transform)
    then set_committed (record c { buffer_transform = p.buffer_transform })
        (emit (set_buffer_transform p.buffer_transform) w)
    else w

unfoldable pub dest_differs : SurfaceState → SurfaceState → Bool
dest_differs c p =
    not (c.viewport_dest_width == p.viewport_dest_width)
    || not (c.viewport_dest_height == p.viewport_dest_height)

-- `assert(object)` before `go`.
unfoldable pub assert_then : Bool → World → Outcome World
assert_then true w = returns w
assert_then false w = aborts

unfoldable pub apply_destination : World → Outcome World
unfolding dest_differs assert_then
apply_destination w =
    let p = w.surface.pending in
    let c = w.surface.committed in
    if dest_differs c p
    then assert_then w.surface.background.viewport (
        set_committed
          (record c {
            viewport_dest_width = p.viewport_dest_width;
            viewport_dest_height = p.viewport_dest_height;
          })
          (emit (set_destination p.viewport_dest_width p.viewport_dest_height) w))
    else returns w

unfoldable pub source_differs : SurfaceState → SurfaceState → Bool
source_differs c p =
    not (c.viewport_source_x == p.viewport_source_x)
    || (not (c.viewport_source_y == p.viewport_source_y)
        || (not (c.viewport_source_w == p.viewport_source_w)
            || not (c.viewport_source_h == p.viewport_source_h)))

-- The request has the committed source, which is assigned after it.
unfoldable pub apply_source : World → Outcome World
unfolding source_differs assert_then
apply_source w =
    let p = w.surface.pending in
    let c = w.surface.committed in
    if source_differs c p
    then assert_then w.surface.background.viewport (
        set_committed
          (record c {
            viewport_source_x = p.viewport_source_x;
            viewport_source_y = p.viewport_source_y;
            viewport_source_w = p.viewport_source_w;
            viewport_source_h = p.viewport_source_h;
          })
          (emit
            (set_source c.viewport_source_x c.viewport_source_y c.viewport_source_w
              c.viewport_source_h)
            w))
    else returns w

unfoldable pub color_rep_differs : SurfaceState → SurfaceState → Bool
color_rep_differs c p =
    differ c.has_alpha_mode p.has_alpha_mode
    || (not (c.alpha_mode == p.alpha_mode)
        || (differ c.has_chroma_location p.has_chroma_location
            || (not (c.chroma_location == p.chroma_location)
                || (differ c.has_coef_range p.has_coef_range
                    || (not (c.coefficients == p.coefficients) || not (c.range == p.range))))))

-- `if (asked) send`.
unfoldable pub emit_if : Bool → SurfaceRequest → World → World
emit_if true r w = emit r w
emit_if false r w = w

unfoldable pub apply_color_representation : World → Outcome World
unfolding color_rep_differs assert_then emit_if
apply_color_representation w =
    let p = w.surface.pending in
    let c = w.surface.committed in
    if color_rep_differs c p
    then assert_then w.surface.background.color_rep_surface (
        set_committed
          (record c {
            has_alpha_mode = p.has_alpha_mode;
            alpha_mode = p.alpha_mode;
            has_chroma_location = p.has_chroma_location;
            chroma_location = p.chroma_location;
            has_coef_range = p.has_coef_range;
            coefficients = p.coefficients;
            range = p.range;
          })
          (emit_if p.has_coef_range (set_coefficients_and_range p.coefficients p.range) (
            emit_if p.has_chroma_location (set_chroma_location p.chroma_location) (
              emit_if p.has_alpha_mode (set_alpha_mode p.alpha_mode)
                (emit renew_color_representation w)))))
    else returns w
