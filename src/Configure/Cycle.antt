-- ===== src/Configure/Cycle.antt =====
-- A configure of the compositor, on its way to the background program and back.
use swaylock_plugin.Base.{
  ℕ, ◌+◌, ◌≡◌, refl, ap, ◌∙◌, Bool, true, false, not, ◌&&◌, ◌||◌, List, [], ◌∷◌, ◌++◌, some, ◌==◌,
  arith, All, returns, append_assoc, u32,
}
use swaylock_plugin.EventLoop.{Timespec}
use swaylock_plugin.Forward.{SurfaceRequest, World}
use swaylock_plugin.Forward.Commit.{apply_pending_surface_updates}
use swaylock_plugin.Configure.{
  Message, ack_upstream, commit_upstream, send_configure, send_updates, update_outputs, draw,
  SerialPair, Plugin, Output, of_size, surface_size, surface_commit, mapped_commit, commit_size,
  finish_commit, is_set, paired, add_serial_pair, handle_configure, take_configure,
  forward_configure, reconfigure, ack_configure, acknowledged, find_serial,
}

abbrev pub IsOther : ℕ → SerialPair → Type 0
IsOther serial pair = (pair.plugin_serial == serial) ≡ false

find_serial_last :
    (serial : ℕ) (pairs : List SerialPair) (pair : SerialPair)
    → All (IsOther serial) pairs
    → (pair.plugin_serial == serial) ≡ true
    → find_serial serial (pairs ++ pair ∷ []) ≡ some (pair, [])
unfolding find_serial
find_serial_last serial [] pair h e = simp e
find_serial_last serial (x ∷ pairs) pair (other, h) e =
    simp (other, find_serial_last serial pairs pair h e)

-- An output whose background program has finished its first configure, and whose serials are used
-- up to but without `client_serial`.
pub record Settled (o : Output) (p : Plugin) : Type 0 where
  pub running : o.server_running ≡ true
  pub wide : (o.width == 0) ≡ false
  pub high : (o.height == 0) ≡ false
  pub has_plugin : o.plugin ≡ some p
  pub done : p.has_been_configured ≡ true
  pub others : All (IsOther o.client_serial) p.serial_table
  pub unused : (o.client_serial == p.last_used_plugin_serial) ≡ false

-- The state after the configure.
abbrev after : Output → Plugin → ℕ → ℕ → ℕ → Output
after o p u w h = record o {
  width = w;
  height = h;
  newest_serial = u;
  has_newer_serial = true;
  dirty = true;
  submission_timer =
      o.submission_timer
      || (not (o.width == w) || not (o.height == h)) && not (o.width == 0 || o.height == 0);
  client_serial = u32 (o.client_serial + 1);
  plugin = some (paired p u o.client_serial w h false);
  log =
      ((o.log ++ update_outputs w h ∷ []) ++ send_configure o.client_serial w h ∷ []) ++ draw ∷ [];
}

configure_runs :
    (o : Output) (p : Plugin) (u w h : ℕ)
    → Settled o p
    → (w == 0) ≡ false
    → (h == 0) ≡ false
    → handle_configure true u w h o ≡ returns (after o p u w h)
unfolding handle_configure take_configure forward_configure reconfigure add_serial_pair
configure_runs o p u w h s ew eh =
    simp (s.running, s.wide, s.high, s.has_plugin, s.done, ew, eh, reconfigure)

-- The acknowledgement of the new serial.
abbrev acked : Plugin → ℕ → ℕ → ℕ → Plugin
acked p s w h = record p {
  last_used_plugin_serial = s;
  last_acked_width = w;
  last_acked_height = h;
  serial_table = [];
}

ack_runs :
    (o : Output) (p : Plugin) (u w h : ℕ)
    → Settled o p
    → (o₁ : Output)
    → ack_configure (paired p u o.client_serial w h false) o.client_serial o₁ ≡ record o₁ {
      plugin = some (acked p o.client_serial w h);
      has_pending_ack_conf = true;
      pending_upstream_serial = u;
    }
unfolding ack_configure paired acknowledged
ack_runs o p u w h s o₁ =
    let same : (o.client_serial == o.client_serial) ≡ true = ground arith in
    let pair : SerialPair = record {
      plugin_serial = o.client_serial;
      upstream_serial = u;
      config_width = w;
      config_height = h;
      local_only = false;
    } in
    simp (s.unused, find_serial_last o.client_serial p.serial_table pair s.others same)

-- The state after the acknowledgement, and after the commit.
abbrev answered : Output → Plugin → ℕ → ℕ → ℕ → Output
answered o p u w h = record (after o p u w h) {
  plugin = some (acked p o.client_serial w h);
  has_pending_ack_conf = true;
  pending_upstream_serial = u;
}

abbrev shown : Output → Plugin → ℕ → ℕ → ℕ → List SurfaceRequest → Output
shown o p u w h us = record (answered o p u w h) {
  has_pending_ack_conf = false;
  has_newer_serial = false;
  has_buffer = true;
  submission_timer = false;
  log =
      (((answered o p u w h).log ++ send_updates us ∷ []) ++ ack_upstream u ∷ [])
      ++ commit_upstream ∷ [];
}

-- A commit that leaves a surface of size w x h with a buffer: its updates return.
pub record Applied (allocated : Bool) (now : Timespec) (world world' : World) (w h : ℕ)
    : Type 0 where
  pub pending : is_set world.surface.pending.attachment ≡ true
  pub updates :
      apply_pending_surface_updates allocated now (record world { log = [] }) ≡ returns world'
  pub attached : is_set world'.surface.committed.attachment ≡ true
  pub size : surface_size world'.surface ≡ of_size w h

commit_runs :
    (allocated : Bool) (now : Timespec) (o : Output) (p : Plugin) (u w h : ℕ) (world world' : World)
    → Settled o p
    → Applied allocated now world world' w h
    → surface_commit true allocated now (acked p o.client_serial w h) world (answered o p u w h)
      ≡ returns (world', shown o p u w h world'.log)
unfolding surface_commit mapped_commit commit_size finish_commit
commit_runs allocated now o p u w h world world' s a =
    let same_u : (u == u) ≡ true = ground arith in
    let same_w : (w == w) ≡ true = ground arith in
    let same_h : (h == h) ≡ true = ground arith in
    simp (
      s.done, a.pending, a.updates, a.attached, a.size, same_u, same_w, same_h, mapped_commit,
      commit_size,
    )

-- What the whole exchange sends, with the updates of the surface.
abbrev pub exchange : ℕ → ℕ → ℕ → ℕ → List SurfaceRequest → List Message
exchange serial u w h us =
    update_outputs w h
    ∷ send_configure serial w h
    ∷ draw
    ∷ send_updates us
    ∷ ack_upstream u
    ∷ commit_upstream
    ∷ []

-- What is left after it: nothing to acknowledge, a buffer, no timer.
pub record Quiet (o : Output) : Type 0 where
  pub acknowledged_all : (o.has_pending_ack_conf ≡ false) × (o.has_newer_serial ≡ false)
  pub drawn : o.has_buffer ≡ true
  pub on_time : o.submission_timer ≡ false

-- On an output of positive size with a running nested server and a plugin surface that has been
-- configured, whose used serials all differ from the next one, where memory for its serial can
-- be had, a configure of a positive size w x h with upstream serial u, the plugin's
-- acknowledgement of the serial that it is sent, and its commit of a buffer, whose updates
-- return and leave a surface of size w x h, send, in this order, the new output size, the
-- configure with the plugin's serial, a redraw, the updates, the acknowledgement of u and the
-- frame, and leave nothing to acknowledge and no submission timer.
pub configure_cycle :
    (allocated : Bool) (now : Timespec) (o : Output) (p : Plugin) (u w h : ℕ) (world world' : World)
    → Settled o p
    → (w == 0) ≡ false
    → (h == 0) ≡ false
    → Applied allocated now world world' w h
    → (o₁ : Output) × (p₁ : Plugin) × (p₂ : Plugin) × (o₃ : Output) × (handle_configure true u w h o
        ≡ returns o₁)
      × (o₁.plugin ≡ some p₁)
      × ((ack_configure p₁ o.client_serial o₁).plugin ≡ some p₂)
      × (surface_commit true allocated now p₂ world (ack_configure p₁ o.client_serial o₁)
          ≡ returns (world', o₃))
      × (o₃.log ≡ o.log ++ exchange o.client_serial u w h world'.log)
      × Quiet o₃
configure_cycle allocated now o p u w h world world' s ew eh a =
    let p₁ = paired p u o.client_serial w h false in
    let p₂ = acked p o.client_serial w h in
    let o₁ = after o p u w h in
    let answer = ack_runs o p u w h s o₁ in
    (
      o₁,
      p₁,
      p₂,
      shown o p u w h world'.log,
      configure_runs o p u w h s ew eh,
      refl,
      ap (λ o. o.plugin) answer,
      ap (surface_commit true allocated now p₂ world) answer
          ∙ commit_runs allocated now o p u w h world world' s a,
      simp append_assoc,
      record { acknowledged_all = (refl, refl); drawn = refl; on_time = refl },
    )
