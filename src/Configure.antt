-- ===== src/Configure.antt =====
-- The handshake over the size of an output, in main.c and forward.c: the configure events of the
-- compositor, the configure events that the background program gets with serials of its own, its
-- acknowledgements, and its commits. Requests and events that are sent are written to a log.
mod State
pub mod Cycle
pub mod Sizes
pub use State.*
use swaylock_plugin.Base.{
  ℕ, zero, suc, ◌+◌, ◌*◌, ◌/◌, ◌%◌, ◌^◌, Bool, true, false, not, ◌&&◌, ◌||◌, List, [], ◌∷◌, ◌++◌,
  Option, none, some, ◌==◌, if◌then◌else◌, u32, ltb, ◌-◌, Outcome, returns, aborts, faults, ◌>>=◌,
}
use swaylock_plugin.EventLoop.{Timespec}
use swaylock_plugin.Forward.{
  Attachment, null, committed_buffer, unreachable, buffer, SurfaceState, ForwardSurface, World,
  minus_one, minus_one_fixed,
}
use swaylock_plugin.Forward.Commit.{apply_pending_surface_updates}

pub paired : Plugin → ℕ → ℕ → ℕ → ℕ → Bool → Plugin
paired p upstream downstream width height local_only =
    let pair : SerialPair = record {
      plugin_serial = downstream;
      upstream_serial = upstream;
      config_width = width;
      config_height = height;
      local_only = local_only;
    } in
    record p { serial_table = p.serial_table ++ pair ∷ [] }

-- `realloc_ok` is whether `realloc` succeeds, which is asserted.
pub add_serial_pair : Bool → Plugin → ℕ → ℕ → ℕ → ℕ → Bool → Outcome Plugin
unfolding paired
add_serial_pair realloc_ok p upstream downstream width height local_only =
    if realloc_ok then returns (paired p upstream downstream width height local_only) else aborts

-- The last `if` of `forward_configure`.
pub reconfigure : Bool → Option Plugin → ℕ → Output → Outcome Output
unfolding add_serial_pair
reconfigure realloc_ok none serial o = returns o
reconfigure realloc_ok (some p) serial o =
    if p.has_been_configured
    then (add_serial_pair realloc_ok p serial o.client_serial o.width o.height false >>= λ p'.
        returns (
          emit (send_configure o.client_serial o.width o.height)
            (record o { client_serial = u32 (o.client_serial + 1); plugin = some p' })))
    else returns o

pub forward_configure : Bool → Bool → ℕ → Output → Outcome Output
unfolding reconfigure
forward_configure realloc_ok first serial o =
    let positive = not (o.width == 0) && not (o.height == 0) in
    if first && positive
    then returns (
        emit create_output
          (record o { first_configure_serial = serial; used_first_configure = false }))
    else if positive
    then reconfigure realloc_ok o.plugin serial (emit (update_outputs o.width o.height) o)
    else returns o

-- `ext_session_lock_surface_v1_handle_configure` before it draws: `first` is `first_configure`.
pub take_configure : Bool → Bool → ℕ → ℕ → ℕ → Output → Outcome Output
unfolding forward_configure
take_configure realloc_ok first serial width height o =
    let o₁ = record o { width = width; height = height; newest_serial = serial } in
    if o.server_running
    then (forward_configure realloc_ok first serial o₁ >>= λ o₂.
        returns (record o₂ { has_newer_serial = true }))
    else returns
        (emit draw_fallback (record (emit (ack_upstream serial) o₁) { has_newer_serial = false }))

pub handle_configure : Bool → ℕ → ℕ → ℕ → Output → Outcome Output
unfolding take_configure
handle_configure realloc_ok serial width height o =
    let first = o.width == 0 || o.height == 0 in
    let size_change = not (o.width == width) || not (o.height == height) in
    take_configure realloc_ok first serial width height o >>= λ o₁. returns (
      emit draw (record o₁ {
        dirty = true;
        submission_timer = o₁.submission_timer || size_change && not first;
      }))

-- The loop over the serial table: the entry, and the entries behind it.
pub find_serial : ℕ → List SerialPair → Option (SerialPair × List SerialPair)
find_serial serial [] = none
find_serial serial (pair ∷ pairs) =
    let more = find_serial serial pairs in
    if pair.plugin_serial == serial then some (pair, pairs) else more

pub acknowledged : Plugin → Output → Option (SerialPair × List SerialPair) → Output
acknowledged p o none = emit (post_error invalid_serial) (record o { plugin = some p })
acknowledged p o (some (pair, newer)) =
    let p' = record p {
      last_acked_width = pair.config_width;
      last_acked_height = pair.config_height;
      serial_table = newer;
    } in
    if pair.local_only then record o { plugin = some p' } else record o {
      plugin = some p';
      has_pending_ack_conf = true;
      pending_upstream_serial = pair.upstream_serial;
    }

-- `zwlr_layer_surface_ack_configure`, on the plugin surface `p` of the output.
pub ack_configure : Plugin → ℕ → Output → Output
unfolding find_serial acknowledged
ack_configure p serial o =
    if serial == p.last_used_plugin_serial
    then o
    else acknowledged (record p { last_used_plugin_serial = serial }) o
        (find_serial serial p.serial_table)

-- The switch has the same value on all its cases.
pub does_transform_transpose_size : ℕ → Bool
does_transform_transpose_size transform = false

-- Without a viewport the buffer's size is divided by its scale, as an unsigned number; the scale is
-- not checked.
pub buffer_size : ForwardSurface → SizeResult
unfolding does_transform_transpose_size
buffer_size f =
    let scale = f.committed.buffer_scale in
    if scale == 0
    then divides_by_zero
    else if not (f.committed_buffer_width % scale == 0)
        || not (f.committed_buffer_height % scale == 0)
    then bad_size not_divisible
    else (let w = f.committed_buffer_width / scale in
        let h = f.committed_buffer_height / scale in
        if does_transform_transpose_size f.committed.buffer_transform
        then of_size h w
        else of_size w h)

-- `wl_fixed_to_int` and `wl_fixed_from_int` on 32-bit patterns; C divides towards 0.
pub fixed_to_int : ℕ → ℕ
fixed_to_int w = if ltb w (2 ^ 31) then w / 256 else u32 (2 ^ 32 - (2 ^ 32 - w) / 256)

pub fixed_from_int : ℕ → ℕ
fixed_from_int n = u32 (n * 256)

pub source_size : SurfaceState → SizeResult
unfolding fixed_to_int fixed_from_int
source_size c =
    let w = fixed_to_int c.viewport_source_w in
    let h = fixed_to_int c.viewport_source_h in
    if not (fixed_from_int w == c.viewport_source_w)
      || not (fixed_from_int h == c.viewport_source_h)
    then bad_size not_integral
    else of_size w h

-- `output_width` and `output_height` of `nested_surface_commit`.
unfoldable pub surface_size : ForwardSurface → SizeResult
unfolding source_size buffer_size
surface_size f =
    let c = f.committed in
    if not (c.viewport_dest_width == minus_one)
    then of_size c.viewport_dest_width c.viewport_dest_height
    else if not (c.viewport_source_w == minus_one_fixed)
    then source_size c
    else buffer_size f

-- The first commit of a layer surface: which upstream serial its configure stands for.
pub first_pair : Bool → Plugin → Output → Outcome Output
unfolding add_serial_pair
first_pair realloc_ok p o =
    let ps = o.client_serial in
    let o₁ = record o { client_serial = u32 (ps + 1) } in
    if not o.used_first_configure
    then (add_serial_pair realloc_ok p o.first_configure_serial ps o.width o.height false >>= λ p'.
        returns (record o₁ { plugin = some p'; used_first_configure = true }))
    else if o.has_newer_serial
    then (add_serial_pair realloc_ok p o.newest_serial ps o.width o.height false >>= λ p'.
        returns (record o₁ { plugin = some p' }))
    else (add_serial_pair realloc_ok p 0 ps o.width o.height true >>= λ p'.
        returns (record o₁ { plugin = some p' }))

pub configured : Option Plugin → Option Plugin
configured none = none
configured (some p) = some (record p { has_been_configured = true })

-- `pending` is whether a buffer is attached.
pub first_commit : Bool → Bool → Plugin → Output → Outcome Output
unfolding first_pair configured
first_commit realloc_ok pending p o = first_pair realloc_ok p o >>= λ o₁.
    if pending
    then aborts
    else returns (
        emit (send_configure o.client_serial o.width o.height)
          (record o₁ { plugin = configured o₁.plugin }))

-- The end of a commit that has the right size; `attached` is whether a buffer is committed.
pub finish_commit : Bool → Output → Output
finish_commit attached o =
    let o₁ = record o { has_buffer = attached || o.has_buffer } in
    let o₂ =
      if o.has_pending_ack_conf
      then emit (ack_upstream o.pending_upstream_serial) (record o₁ {
        has_pending_ack_conf = false;
        has_newer_serial =
            if o.pending_upstream_serial == o.newest_serial then false else o.has_newer_serial;
      })
      else o₁ in
    emit commit_upstream (record o₂ { submission_timer = false })

pub commit_size : Plugin → SizeResult → Bool → Output → Outcome Output
unfolding finish_commit
commit_size p (bad_size e) attached o = returns (emit (post_error e) o)
commit_size p divides_by_zero attached o = faults
commit_size p (of_size w h) attached o =
    if not (w == p.last_acked_width) || not (h == p.last_acked_height)
    then returns (emit (post_error wrong_size) o)
    else returns (finish_commit attached o)

-- `attachment != NULL`.
unfoldable pub is_set : Attachment → Bool
is_set null = false
is_set committed_buffer = true
is_set unreachable = true
is_set (buffer b) = true

-- A commit of a surface that has been configured, with a buffer; `allocated` and `now` are what
-- `calloc` and the clock answer to the request of a frame.
pub mapped_commit : Bool → Timespec → Plugin → World → Output → Outcome (World × Output)
unfolding surface_size commit_size is_set apply_pending_surface_updates
mapped_commit allocated now p w o =
    apply_pending_surface_updates allocated now (record w { log = [] }) >>= λ w'.
    commit_size p (surface_size w'.surface) (is_set w'.surface.committed.attachment)
      (emit (send_updates w'.log) o)
    >>= λ o'. returns (w', o')

-- `nested_surface_commit` on the plugin surface `p` of the output, with its state in `w`.
pub surface_commit : Bool → Bool → Timespec → Plugin → World → Output → Outcome (World × Output)
unfolding first_commit mapped_commit is_set
surface_commit realloc_ok allocated now p w o =
    let pending = is_set w.surface.pending.attachment in
    if not p.has_been_configured
    then (first_commit realloc_ok pending p o >>= λ o'. returns (w, o'))
    else if pending
    then mapped_commit allocated now p w o
    else returns
        (w, if is_set w.surface.committed.attachment then emit (post_error unmapped) o else o)
