-- ===== src/Forward/Requests.antt =====
-- forward.c: the requests of the background program that change the pending state of its surface,
-- and the other pending things. An error that is posted instead is `none`.
use swaylock_plugin.Base.{
  ℕ, ◌^◌, Bool, not, ◌&&◌, ◌||◌, [], ◌∷◌, ◌++◌, Option, none, some, leb, ◌==◌, if◌then◌else◌,
}
use swaylock_plugin.Forward.{DamageRecord, World, set_pending, minus_one, minus_one_fixed}

unfoldable pub nested_surface_set_buffer_transform : ℕ → World → World
nested_surface_set_buffer_transform transform w =
    set_pending (record w.surface.pending { buffer_transform = transform }) w

unfoldable pub nested_surface_set_buffer_scale : ℕ → World → World
nested_surface_set_buffer_scale scale w =
    set_pending (record w.surface.pending { buffer_scale = scale }) w

-- The sign of a 32-bit pattern.
unfoldable pub negative : ℕ → Bool
negative x = leb (2 ^ 31) x

unfoldable pub not_positive : ℕ → Bool
unfolding negative
not_positive x = negative x || x == 0

unfoldable pub nested_viewport_set_source : ℕ → ℕ → ℕ → ℕ → World → Option World
unfolding negative not_positive
nested_viewport_set_source x y width height w =
    let n = minus_one_fixed in
    let no_source = x == n && y == n && width == n && height == n in
    if (negative x || negative y || not_positive width || not_positive height) && not no_source
    then none
    else some (
        set_pending
          (record w.surface.pending {
            viewport_source_x = x;
            viewport_source_y = y;
            viewport_source_w = width;
            viewport_source_h = height;
          })
          w)

unfoldable pub nested_viewport_set_destination : ℕ → ℕ → World → Option World
unfolding not_positive
nested_viewport_set_destination width height w =
    if (not_positive width || not_positive height)
      && not (width == minus_one && height == minus_one)
    then none
    else some (
        set_pending
          (record w.surface.pending { viewport_dest_width = width; viewport_dest_height = height })
          w)

-- `grown` is whether `realloc` succeeds.
unfoldable pub nested_surface_damage : Bool → DamageRecord → World → World
nested_surface_damage grown d w =
    if grown
    then record w { surface = record w.surface { old_damage = w.surface.old_damage ++ d ∷ [] } }
    else w

unfoldable pub nested_surface_damage_buffer : Bool → DamageRecord → World → World
nested_surface_damage_buffer grown d w =
    if grown
    then record w {
      surface = record w.surface { buffer_damage = w.surface.buffer_damage ++ d ∷ [] };
    }
    else w

-- `created` is whether the resource of the callback is made.
unfoldable pub nested_surface_frame : Bool → ℕ → World → World
nested_surface_frame created callback w =
    if created
    then record w {
      surface = record w.surface { frame_callbacks = callback ∷ w.surface.frame_callbacks };
    }
    else w
