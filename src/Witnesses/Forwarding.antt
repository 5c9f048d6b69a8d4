-- ===== src/Witnesses/Forwarding.antt =====
-- A surface with two subsurfaces, a new scale, a new source rectangle and a new image description.
use swaylock_plugin.Base.{
  ℕ, ◌≤◌, ◌==◌, Bool-cases, inl, inr, if◌then◌else◌, ◌≡◌, refl, [], ◌∷◌, true, false, none, some,
  returns, aborts,
}
use swaylock_plugin.Forward.Roles.{Roles, GetSubsurface, subcompositor_get_subsurface}
use swaylock_plugin.Forward.Roles.Rooted.{
  Rooted, top, up, after, subcompositor_get_subsurface-Rooted,
}
use swaylock_plugin.Forward.{
  buffer, set_pending, World, SurfaceState, default_surface_state, ForwardImageDesc,
}
use swaylock_plugin.Forward.Commit.{apply_properties, apply_subsurfaces, can_make, reversed}
use swaylock_plugin.Forward.Mirror.{Mirrors}
use swaylock_plugin.Forward.Mirror.Whole.{Updated, apply_properties-Updated}
use swaylock_plugin.Forward.Content.{unlink, apply_attachment}
use swaylock_plugin.Forward.Buffers.{nested_surface_attach, nested_surface_attach_aborts}
use swaylock_plugin.Forward.Subsurfaces.{
  sibling, nested_subsurface_place_above, nested_subsurface_place_below,
}
use swaylock_plugin.Forward.Mirror.Twice.{apply_properties_twice}
use swaylock_plugin.Forward.Stack.{stack, stacked}
use swaylock_plugin.Forward.Stack.Insertions.{above, below}
use swaylock_plugin.Forward.Stack.Requested.{
  nested_subsurface_place_above-restacks, nested_subsurface_place_below-restacks,
}
use swaylock_plugin.Forward.Stack.Placed.{apply_subsurfaces-stacks}

abbrev desc : ForwardImageDesc
desc = record { resource = true; pending_surfaces = 1 ∷ []; committed_surfaces = [] }

abbrev pending : SurfaceState
pending = record default_surface_state {
  buffer_scale = 2;
  viewport_source_x = 0;
  viewport_source_y = 0;
  viewport_source_w = 256;
  viewport_source_h = 256;
  has_alpha_mode = true;
  alpha_mode = 1;
  image_desc = some 7;
  subsurfaces_above = 2 ∷ [];
  subsurfaces_below = 3 ∷ [];
}

abbrev changed : World
changed = record {
  surface = record {
    id = 1;
    version = 6;
    layer_surface = true;
    sway_surface = none;
    background = record { viewport = true; color_rep_surface = true; color_surface = true };
    pending = pending;
    committed = default_surface_state;
    committed_buffer_width = 0;
    committed_buffer_height = 0;
    buffer_damage = [];
    old_damage = [];
    frame_callbacks = [];
  };
  buffers = λ b. none;
  descs = λ d. some desc;
  children = λ c. record {
    ext_subsurface = false;
    is_desync = false;
    pos_x = 0;
    pos_y = 0;
    committed_is_desync = false;
    committed_pos_x = 0;
    committed_pos_y = 0;
  };
  callbacks = [];
  log = [];
}

changed-Mirrors : Mirrors changed
unfolding default_surface_state
changed-Mirrors = record {
  scale_shown = refl;
  transform_shown = refl;
  dest_shown = refl;
  alpha_shown = refl;
  chroma_shown = refl;
  coefs_shown = refl;
  image_shown = refl;
}

apply_properties-Updated_example :
    (w' : World) × (apply_properties changed ≡ returns w') × Updated changed w'
unfolding default_surface_state
apply_properties-Updated_example =
    apply_properties-Updated changed refl refl refl tt (desc, refl) changed-Mirrors

-- The same surface, shown on an output.
abbrev shown_on : World
shown_on = record changed {
  surface = record changed.surface {
    sway_surface = some (record {
      frame_pending = false;
      frame_pending_since = record { tv_sec = 0; tv_nsec = 0 };
    });
  };
}

apply_subsurfaces-stacks_example :
    (w' : World) × (apply_subsurfaces shown_on ≡ returns w')
    × (stacked (0 ∷ []) w'.log ≡ 4 ∷ (0 ∷ (3 ∷ [])))
    × (w'.surface ≡ record shown_on.surface {
      committed = record default_surface_state {
        subsurfaces_above = 2 ∷ [];
        subsurfaces_below = 3 ∷ [];
      };
    })
unfolding reversed can_make
apply_subsurfaces-stacks_example =
    apply_subsurfaces-stacks (0 ∷ []) shown_on [] [] (refl, tt) (refl, tt) refl refl (refl, tt)
      (refl, tt)

-- The upper subsurface is placed below the lower one, and the lower one above the upper one.
nested_subsurface_place_below-restacks_example :
    (p : SurfaceState) × (nested_subsurface_place_below false 2 (sibling 3) changed
      ≡ some (set_pending p changed))
    × (stack p ≡ 3 ∷ (4 ∷ (0 ∷ [])))
unfolding unlink
nested_subsurface_place_below-restacks_example =
    nested_subsurface_place_below-restacks 2 4 (sibling 3) changed (refl, refl) (below 3 refl refl)

nested_subsurface_place_above-restacks_example :
    (p : SurfaceState) × (nested_subsurface_place_above false 3 (sibling 2) changed
      ≡ some (set_pending p changed))
    × (stack p ≡ 0 ∷ (3 ∷ (4 ∷ [])))
unfolding unlink
nested_subsurface_place_above-restacks_example =
    nested_subsurface_place_above-restacks 3 3 (sibling 2) changed (refl, refl) (above 2 refl refl)

-- The buffer 5 is pending when its resource is destroyed.
abbrev destroyed : World
destroyed = record changed {
  surface = record changed.surface { pending = record pending { attachment = buffer 5 } };
  buffers = λ b. some (record {
    resource = false;
    pending_surfaces = 1 ∷ [];
    committed_surfaces = [];
    width = 1;
    height = 1;
  });
}

nested_surface_attach_aborts_example :
    (w' : World) × (apply_attachment destroyed ≡ returns w')
    × (nested_surface_attach (some 6) w' ≡ aborts)
unfolding unlink default_surface_state
nested_surface_attach_aborts_example =
    nested_surface_attach_aborts destroyed 5 6
      (record {
        resource = false;
        pending_surfaces = 1 ∷ [];
        committed_surfaces = [];
        width = 1;
        height = 1;
      })
      refl refl refl refl refl refl

-- The surface 2 is a subsurface of 1, and 3 becomes one of 2.
abbrev roles : Roles
roles = record {
  layer_surface = λ s. s == 1;
  subsurface_parent = λ s. if s == 2 then some 1 else none;
}

roles-Rooted : Rooted roles
roles-Rooted s = elim (Bool-cases (s == 2)) [
  | inl e ↦ (1, 1, up s 1 1 0 (rw e refl) (top 1 refl))
  | inr e ↦ (s, 0, top s (rw e refl))
]

subcompositor_get_subsurface-Rooted_example :
    (fuel : ℕ) × ((more : ℕ)
      → fuel ≤ more
      → (answer : GetSubsurface) × (subcompositor_get_subsurface more true 3 2 roles ≡ some answer)
        × Rooted (after answer roles))
subcompositor_get_subsurface-Rooted_example =
    subcompositor_get_subsurface-Rooted true 3 2 roles roles-Rooted

apply_properties_twice_example :
    (w' : World) × (apply_properties changed ≡ returns w') × (apply_properties w' ≡ returns w')
unfolding default_surface_state
apply_properties_twice_example =
    apply_properties_twice changed refl refl refl tt (desc, refl) changed-Mirrors
