-- ===== src/Forward/Commit.antt =====
-- forward.c: the subsurfaces and the frame callbacks of `apply_pending_surface_updates`, and the
-- whole of it.
use swaylock_plugin.Base.{
  ℕ, Bool, true, not, List, [], ◌∷◌, ◌++◌, Option, none, some, if◌then◌else◌, Outcome, returns,
  aborts, faults, ◌>>=◌,
}
use swaylock_plugin.EventLoop.{Timespec}
use swaylock_plugin.Forward.{
  get_subsurface, set_sync, set_desync, set_position, place_above, place_below, frame,
  SubsurfaceEntries, Presentation, World, emit, set_committed,
}
use swaylock_plugin.Forward.Apply.{
  apply_scale, apply_transform, apply_destination, apply_source, apply_color_representation,
  emit_if,
}
use swaylock_plugin.Forward.Content.{
  put, is_empty, apply_image_desc, apply_attachment, apply_offset, apply_damage,
}

-- Making a subsurface reads the output of the surface, which a surface without one does not have.
unfoldable pub can_make : Option Presentation → SubsurfaceEntries → Bool
can_make (some p) child = true
can_make none child = child.ext_subsurface

-- What is sent for an entry, whose subsurface is `entry`, and what it then is.
unfoldable pub entry_sent : ℕ → World → World
unfolding put emit_if
entry_sent entry w =
    let child = w.children entry in
    let w₁ = emit_if (not child.ext_subsurface) (get_subsurface entry) w in
    let w₂ = emit (if child.is_desync then set_desync entry else set_sync entry) w₁ in
    let w₃ = emit (set_position entry child.pos_x child.pos_y) w₂ in
    record w₃ {
      children = put w.children entry (record child {
        ext_subsurface = true;
        committed_is_desync = child.is_desync;
        committed_pos_x = child.pos_x;
        committed_pos_y = child.pos_y;
      });
    }

unfoldable pub apply_pending_subsurf_entry : ℕ → World → Outcome World
unfolding can_make entry_sent
apply_pending_subsurf_entry entry w =
    if can_make w.surface.sway_surface (w.children entry)
    then returns (entry_sent entry w)
    else faults

-- An entry is placed next to `last` and put into the committed list.
unfoldable pub entry_above : ℕ → Option ℕ → World → World
entry_above entry last w =
    let w₁ = emit (place_above entry last) w in
    let c = w₁.surface.committed in
    set_committed (record c { subsurfaces_above = c.subsurfaces_above ++ entry ∷ [] }) w₁

unfoldable pub entry_below : ℕ → Option ℕ → World → World
entry_below entry last w =
    let w₁ = emit (place_below entry last) w in
    let c = w₁.surface.committed in
    set_committed (record c { subsurfaces_below = entry ∷ c.subsurfaces_below }) w₁

-- The entries above, from the closest; `last` is the surface below the next one.
unfoldable pub apply_above : List ℕ → Option ℕ → World → Outcome World
unfolding apply_pending_subsurf_entry entry_above
apply_above [] last w = returns w
apply_above (entry ∷ entries) last w =
    let rest = apply_above entries (some entry) in
    apply_pending_subsurf_entry entry w >>= λ w'. rest (entry_above entry last w')

-- The entries below, from the closest.
unfoldable pub apply_below : List ℕ → Option ℕ → World → Outcome World
unfolding apply_pending_subsurf_entry entry_below
apply_below [] last w = returns w
apply_below (entry ∷ entries) last w =
    let rest = apply_below entries (some entry) in
    apply_pending_subsurf_entry entry w >>= λ w'. rest (entry_below entry last w')

-- The list in the order of `wl_list_for_each_reverse`.
unfoldable pub reversed : List ℕ → List ℕ
reversed [] = []
reversed (x ∷ xs) = reversed xs ++ x ∷ []

-- The committed lists are emptied first.
unfoldable pub empty_committed : World → World
empty_committed w =
    set_committed (record w.surface.committed { subsurfaces_above = []; subsurfaces_below = [] }) w

unfoldable pub apply_subsurfaces : World → Outcome World
unfolding apply_above apply_below reversed empty_committed
apply_subsurfaces w =
    apply_above w.surface.pending.subsurfaces_above none (empty_committed w)
    >>= apply_below (reversed w.surface.pending.subsurfaces_below) none

-- Only the first outstanding callback starts the clock.
unfoldable pub start_clock : Timespec → Option Presentation → Option Presentation
start_clock now none = none
start_clock now (some p) =
    if not p.frame_pending
    then some (record { frame_pending = true; frame_pending_since = now })
    else some p

-- `allocated` is whether `calloc` succeeds.
unfoldable pub apply_frame : Bool → Timespec → World → Outcome World
unfolding is_empty start_clock
apply_frame allocated now w =
    if is_empty w.surface.frame_callbacks
    then returns w
    else if allocated
    then returns (record (emit frame w) {
      surface = record w.surface {
        sway_surface = start_clock now w.surface.sway_surface;
        frame_callbacks = [];
      };
      callbacks = w.surface.frame_callbacks ∷ w.callbacks;
    })
    else aborts

-- The double-buffered properties, up to the version check.
unfoldable pub apply_properties : World → Outcome World
unfolding apply_scale apply_transform apply_destination apply_source apply_color_representation
    apply_image_desc
apply_properties w = do
  w₁ ← apply_destination (apply_transform (apply_scale w))
  w₂ ← apply_source w₁
  w₃ ← apply_color_representation w₂
  apply_image_desc w₃

-- The rest; `now` is what the clock answers.
unfoldable pub apply_content : Bool → Timespec → World → Outcome World
unfolding apply_attachment apply_offset apply_damage apply_subsurfaces apply_frame
apply_content allocated now w = do
  w₁ ← apply_attachment w
  w₂ ← apply_subsurfaces (apply_damage (apply_offset w₁))
  apply_frame allocated now w₂

unfoldable pub apply_pending_surface_updates : Bool → Timespec → World → Outcome World
unfolding apply_properties apply_content
apply_pending_surface_updates allocated now w = do
  w₁ ← apply_properties w
  apply_content allocated now w₁
