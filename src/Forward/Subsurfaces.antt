-- ===== src/Forward/Subsurfaces.antt =====
-- forward.c: the requests that a subsurface makes of its parent, the surface of the world. A request
-- of a subsurface whose parent was destroyed, or that is inert, does nothing: `ignored`. The error
-- of a surface that is neither the parent nor a sibling is `none`.
use swaylock_plugin.Base.{
  ℕ, Bool, true, false, List, [], ◌∷◌, ◌++◌, Option, none, some, ◌==◌, if◌then◌else◌,
}
use swaylock_plugin.Forward.{SurfaceState, World, set_pending}
use swaylock_plugin.Forward.Content.{put, unlink}

-- The surface that a subsurface is placed next to.
pub data Reference : Type 0 where
  parent stranger : Reference
  sibling : ℕ → Reference

-- `wl_list_insert(&sibling, &entry)`, and `wl_list_insert_before`, in the list that holds the
-- sibling.
unfoldable pub insert_after : ℕ → ℕ → List ℕ → List ℕ
insert_after entry at [] = []
insert_after entry at (x ∷ xs) =
    let rest = insert_after entry at xs in if x == at then x ∷ entry ∷ xs else x ∷ rest

unfoldable pub insert_before : ℕ → ℕ → List ℕ → List ℕ
insert_before entry at [] = []
insert_before entry at (x ∷ xs) =
    let rest = insert_before entry at xs in if x == at then entry ∷ x ∷ xs else x ∷ rest

-- The pending state without the entry, which is in one of its lists.
unfoldable pub removed_entry : ℕ → SurfaceState → SurfaceState
unfolding unlink
removed_entry entry p = record p {
  subsurfaces_above = unlink entry p.subsurfaces_above;
  subsurfaces_below = unlink entry p.subsurfaces_below;
}

unfoldable pub placed_above : ℕ → Reference → SurfaceState → Option SurfaceState
unfolding insert_after removed_entry
placed_above entry parent p =
    let q = removed_entry entry p in
    some (record q { subsurfaces_above = entry ∷ q.subsurfaces_above })
placed_above entry (sibling s) p =
    let q = removed_entry entry p in
    some (record q {
      subsurfaces_above = insert_after entry s q.subsurfaces_above;
      subsurfaces_below = insert_after entry s q.subsurfaces_below;
    })
placed_above entry stranger p = none

unfoldable pub placed_below : ℕ → Reference → SurfaceState → Option SurfaceState
unfolding insert_before removed_entry
placed_below entry parent p =
    let q = removed_entry entry p in
    some (record q { subsurfaces_below = q.subsurfaces_below ++ entry ∷ [] })
placed_below entry (sibling s) p =
    let q = removed_entry entry p in
    some (record q {
      subsurfaces_above = insert_before entry s q.subsurfaces_above;
      subsurfaces_below = insert_before entry s q.subsurfaces_below;
    })
placed_below entry stranger p = none

unfoldable pub with_pending : Option SurfaceState → World → Option World
with_pending none w = none
with_pending (some p) w = some (set_pending p w)

unfoldable pub nested_subsurface_place_above : Bool → ℕ → Reference → World → Option World
unfolding placed_above with_pending
nested_subsurface_place_above ignored entry r w =
    if ignored then some w else with_pending (placed_above entry r w.surface.pending) w

unfoldable pub nested_subsurface_place_below : Bool → ℕ → Reference → World → Option World
unfolding placed_below with_pending
nested_subsurface_place_below ignored entry r w =
    if ignored then some w else with_pending (placed_below entry r w.surface.pending) w

unfoldable pub nested_subsurface_set_position : Bool → ℕ → ℕ → ℕ → World → World
unfolding put
nested_subsurface_set_position ignored entry x y w = if ignored then w else record w {
  children = put w.children entry (record (w.children entry) { pos_x = x; pos_y = y });
}

unfoldable pub nested_subsurface_set_sync : Bool → ℕ → World → World
unfolding put
nested_subsurface_set_sync ignored entry w = if ignored then w else record w {
  children = put w.children entry (record (w.children entry) { is_desync = false });
}

unfoldable pub nested_subsurface_set_desync : Bool → ℕ → World → World
unfolding put
nested_subsurface_set_desync ignored entry w = if ignored then w else record w {
  children = put w.children entry (record (w.children entry) { is_desync = true });
}
