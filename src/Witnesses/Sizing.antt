-- ===== src/Witnesses/Sizing.antt =====
-- An output that is resized from 800 x 600 to 1024 x 768.
use swaylock_plugin.Base.{◌≡◌, refl, [], ◌∷◌, ◌++◌, true, false, none, some, returns}
use swaylock_plugin.EventLoop.{Timespec}
use swaylock_plugin.Forward.{
  buffer, committed_buffer, SurfaceState, default_surface_state, set_destination, World,
}
use swaylock_plugin.Forward.Commit.{apply_pending_surface_updates}
use swaylock_plugin.Configure.{
  Plugin, Output, surface_commit, handle_configure, ack_configure, surface_size, is_set,
}
use swaylock_plugin.Configure.Cycle.{Quiet, Applied, exchange, configure_cycle}

abbrev plugin : Plugin
plugin = record {
  serial_table = [];
  last_used_plugin_serial = 100001;
  last_acked_width = 800;
  last_acked_height = 600;
  has_been_configured = true;
}

abbrev output : Output
output = record {
  width = 800;
  height = 600;
  first_configure_serial = 1;
  used_first_configure = true;
  has_pending_ack_conf = false;
  pending_upstream_serial = 1;
  has_newer_serial = false;
  newest_serial = 1;
  has_buffer = true;
  dirty = false;
  submission_timer = false;
  server_running = true;
  client_serial = 100002;
  plugin = some plugin;
  log = [];
}

-- A buffer of 512 x 384 that a viewport scales to the output.
abbrev scaled : SurfaceState
scaled = record default_surface_state {
  attachment = committed_buffer;
  viewport_dest_width = 1024;
  viewport_dest_height = 768;
}

abbrev world : World
world = record {
  surface = record {
    id = 1;
    version = 6;
    layer_surface = true;
    sway_surface = some (record {
      frame_pending = false;
      frame_pending_since = record { tv_sec = 0; tv_nsec = 0 };
    });
    background = record { viewport = true; color_rep_surface = true; color_surface = true };
    pending = scaled;
    committed = record default_surface_state { attachment = buffer 5 };
    committed_buffer_width = 512;
    committed_buffer_height = 384;
    buffer_damage = [];
    old_damage = [];
    frame_callbacks = [];
  };
  buffers = λ b. none;
  descs = λ d. none;
  children = λ c. record {
    ext_subsurface = true;
    is_desync = false;
    pos_x = 0;
    pos_y = 0;
    committed_is_desync = false;
    committed_pos_x = 0;
    committed_pos_y = 0;
  };
  callbacks = [];
  log = [];
}

abbrev updated : World
updated = record world {
  surface = record world.surface { committed = record scaled { attachment = buffer 5 } };
  log = set_destination 1024 768 ∷ [];
}

abbrev now : Timespec
now = record { tv_sec = 5; tv_nsec = 0 }

applied : Applied true now world updated 1024 768
unfolding surface_size is_set apply_pending_surface_updates default_surface_state
applied = record { pending = refl; updates = refl; attached = refl; size = refl }

configure_cycle_example :
    (o₁ : Output) × (p₁ : Plugin) × (p₂ : Plugin) × (o₃ : Output) × (handle_configure true 9 1024
        768 output
      ≡ returns o₁)
    × (o₁.plugin ≡ some p₁)
    × ((ack_configure p₁ 100002 o₁).plugin ≡ some p₂)
    × (surface_commit true true now p₂ world (ack_configure p₁ 100002 o₁) ≡ returns (updated, o₃))
    × (o₃.log ≡ [] ++ exchange 100002 9 1024 768 (set_destination 1024 768 ∷ []))
    × Quiet o₃
configure_cycle_example =
    configure_cycle true now output plugin 9 1024 768 world updated
      (record {
        running = refl;
        wide = refl;
        high = refl;
        has_plugin = refl;
        done = refl;
        others = tt;
        unused = refl;
      })
      refl refl applied
