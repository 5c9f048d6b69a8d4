-- ===== src/Forward.antt =====
-- forward.c: a surface of the background program and its copy at the compositor. An int32_t,
-- uint32_t or wl_fixed_t is its 32-bit pattern. Objects are named by numbers, a wl_list is a list of
-- them, and the requests that are sent are written to a log, the newest first.
pub mod Requests
pub mod Apply
pub mod Content
pub mod Commit
pub mod Mirror
pub mod Stack
pub mod Subsurfaces
pub mod Buffers
pub mod Roles
use swaylock_plugin.Base.{ℕ, ◌-◌, ◌^◌, Bool, true, false, List, [], ◌∷◌, Option, none, some}
use swaylock_plugin.EventLoop.{Timespec}

-- The values of a `struct forward_buffer *`: NULL, BUFFER_COMMITTED, BUFFER_UNREACHABLE, a buffer.
pub data Attachment : Type 0 where
  null committed_buffer unreachable : Attachment
  buffer : ℕ → Attachment

-- `struct surface_state`.
pub record SurfaceState : Type 0 where
  pub attachment : Attachment
  pub offset_x : ℕ
  pub offset_y : ℕ
  pub buffer_scale : ℕ
  pub buffer_transform : ℕ
  pub viewport_source_x : ℕ
  pub viewport_source_y : ℕ
  pub viewport_source_w : ℕ
  pub viewport_source_h : ℕ
  pub viewport_dest_width : ℕ
  pub viewport_dest_height : ℕ
  pub has_alpha_mode : Bool
  pub alpha_mode : ℕ
  pub has_coef_range : Bool
  pub coefficients : ℕ
  pub range : ℕ
  pub has_chroma_location : Bool
  pub chroma_location : ℕ
  pub image_desc : Option ℕ
  pub render_intent : ℕ
  pub subsurfaces_above : List ℕ
  pub subsurfaces_below : List ℕ

-- `wl_fixed_from_int(-1)` and `-1`.
abbrev pub minus_one_fixed : ℕ
minus_one_fixed = 2 ^ 32 - 256

abbrev pub minus_one : ℕ
minus_one = 2 ^ 32 - 1

-- What `calloc` leaves zero stays so.
unfoldable pub default_surface_state : SurfaceState
default_surface_state = record {
  attachment = null;
  offset_x = 0;
  offset_y = 0;
  buffer_scale = 1;
  buffer_transform = 0;
  viewport_source_x = minus_one_fixed;
  viewport_source_y = minus_one_fixed;
  viewport_source_w = minus_one_fixed;
  viewport_source_h = minus_one_fixed;
  viewport_dest_width = minus_one;
  viewport_dest_height = minus_one;
  has_alpha_mode = false;
  alpha_mode = 0;
  has_coef_range = false;
  coefficients = 0;
  range = 0;
  has_chroma_location = false;
  chroma_location = 0;
  image_desc = none;
  render_intent = 0;
  subsurfaces_above = [];
  subsurfaces_below = [];
}

-- `struct damage_record`.
pub record DamageRecord : Type 0 where
  pub x : ℕ
  pub y : ℕ
  pub w : ℕ
  pub h : ℕ

-- `struct augmented_surface`: which of its objects there are besides the surface.
pub record AugmentedSurface : Type 0 where
  pub viewport : Bool
  pub color_rep_surface : Bool
  pub color_surface : Bool

-- What is sent to the compositor about the surface. A subsurface is placed next to another one, or,
-- for `none`, next to the surface itself.
pub data SurfaceRequest : Type 0 where
  set_buffer_scale set_buffer_transform : ℕ → SurfaceRequest
  set_destination : ℕ → ℕ → SurfaceRequest
  set_source : ℕ → ℕ → ℕ → ℕ → SurfaceRequest
  renew_color_representation : SurfaceRequest
  set_alpha_mode set_chroma_location : ℕ → SurfaceRequest
  set_coefficients_and_range : ℕ → ℕ → SurfaceRequest
  unset_image_description : SurfaceRequest
  set_image_description : ℕ → ℕ → SurfaceRequest
  attach : ℕ → ℕ → ℕ → SurfaceRequest
  offset : ℕ → ℕ → SurfaceRequest
  damage_buffer damage : DamageRecord → SurfaceRequest
  get_subsurface set_sync set_desync : ℕ → SurfaceRequest
  set_position : ℕ → ℕ → ℕ → SurfaceRequest
  place_above place_below : ℕ → Option ℕ → SurfaceRequest
  frame : SurfaceRequest

-- `struct forward_buffer` with its upstream buffer, and `struct forward_image_desc`.
pub record ForwardBuffer : Type 0 where
  pub resource : Bool
  pub pending_surfaces : List ℕ
  pub committed_surfaces : List ℕ
  pub width : ℕ
  pub height : ℕ

pub record ForwardImageDesc : Type 0 where
  pub resource : Bool
  pub pending_surfaces : List ℕ
  pub committed_surfaces : List ℕ

-- The two `struct subsurface_entry` of a subsurface, and whether its wl_subsurface is made.
pub record SubsurfaceEntries : Type 0 where
  pub ext_subsurface : Bool
  pub is_desync : Bool
  pub pos_x : ℕ
  pub pos_y : ℕ
  pub committed_is_desync : Bool
  pub committed_pos_x : ℕ
  pub committed_pos_y : ℕ

-- The presentation record of the output that a surface is shown on.
pub record Presentation : Type 0 where
  pub frame_pending : Bool
  pub frame_pending_since : Timespec

-- `struct forward_surface`: what the updates of the compositor read and write.
pub record ForwardSurface : Type 0 where
  pub id : ℕ
  pub version : ℕ
  pub layer_surface : Bool
  pub sway_surface : Option Presentation
  pub background : AugmentedSurface
  pub pending : SurfaceState
  pub committed : SurfaceState
  pub committed_buffer_width : ℕ
  pub committed_buffer_height : ℕ
  pub buffer_damage : List DamageRecord
  pub old_damage : List DamageRecord
  pub frame_callbacks : List ℕ

-- The surface with the objects that it refers to; one that was freed is `none`. `callbacks` are the
-- frame callbacks that wait for the compositor.
pub record World : Type 0 where
  pub surface : ForwardSurface
  pub buffers : ℕ → Option ForwardBuffer
  pub descs : ℕ → Option ForwardImageDesc
  pub children : ℕ → SubsurfaceEntries
  pub callbacks : List (List ℕ)
  pub log : List SurfaceRequest

abbrev pub emit : SurfaceRequest → World → World
emit r w = record w { log = r ∷ w.log }

abbrev pub set_pending : SurfaceState → World → World
set_pending st w = record w { surface = record w.surface { pending = st } }

abbrev pub set_committed : SurfaceState → World → World
set_committed st w = record w { surface = record w.surface { committed = st } }
