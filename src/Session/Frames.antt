-- ===== src/Session/Frames.antt =====
-- main.c and forward.c: an output that is configured, shows a frame of its background program, and is
-- presented. What the handshake over serials and sizes decides before the frame is in Configure.
use swaylock_plugin.Base.{
  ℕ, Bool, true, false, not, ◌&&◌, ◌||◌, [], ◌∷◌, ◌++◌, Option, none, some, ◌==◌, if◌then◌else◌,
  List, Outcome, returns, faults,
}
use swaylock_plugin.EventLoop.{Timespec}
use swaylock_plugin.Clients.{BgClient, Surface, set_client_paused, client_for_surface}
use swaylock_plugin.Session.{
  Session, Outside, Note, ack_serial, commit_frame, draw, find_client, update_client, find_surface,
  update_surface, remove_timer, render_fallback_surface, note,
}
use swaylock_plugin.Session.Outputs.{arm_submission}

abbrev pub never_sized : Surface → Bool
never_sized f = f.width == 0 || f.height == 0

-- What `ext_session_lock_surface_v1_handle_configure` and `forward_configure` do to the output, and
-- send to the compositor for it: with the nested server, the output appears there at the first
-- size; without, the fallback is shown.
unfoldable pub take_size : Bool → Bool → ℕ → ℕ → ℕ → Surface → Surface × List Note
unfolding render_fallback_surface
take_size display can serial width height f =
    let g = record f { width = width; height = height; newest_serial = serial; dirty = true } in
    let shown = never_sized f && not (width == 0) && not (height == 0) in
    if display
    then (
      record g { has_newer_serial = true; nested_server_output = shown || f.nested_server_output },
      draw f.output_global_name ∷ [],
    )
    else (let (g', ns) = render_fallback_surface can (record g { has_newer_serial = false }) in
        (g', ack_serial f.output_global_name serial ∷ ns ++ draw f.output_global_name ∷ []))

unfoldable pub is_unarmed : Option ℕ → Bool
is_unarmed none = true
is_unarmed (some t) = false

unfoldable pub arm_after : Bool → Outside → ℕ → Session → Session
unfolding arm_submission
arm_after false o n s = s
arm_after true o n s = arm_submission o n s

unfoldable pub configure_found :
    Outside → ℕ → ℕ → ℕ → ℕ → Option Surface → Session → Outcome Session
unfolding take_size is_unarmed arm_after update_surface
configure_found o n serial width height none s = faults
configure_found o n serial width height (some f) s =
    let resized = not (f.width == width) || not (f.height == height) in
    let take = take_size s.display (o.can_create n) serial width height in
    returns (
      arm_after (resized && not (never_sized f) && is_unarmed f.client_submission_timer) o n
        (note (take f).1 (record s { surfaces = update_surface n (λ g. (take g).0) s.surfaces })))

unfoldable pub configure_surface : Outside → ℕ → ℕ → ℕ → ℕ → Session → Outcome Session
unfolding configure_found find_surface
configure_surface o n serial width height s =
    configure_found o n serial width height (find_surface n s.surfaces) s

-- `apply_pending_surface_updates` on the presentation of the output: `some now` is that callbacks
-- are requested, and what the clock reads.
unfoldable pub await_frame : Option Timespec → Surface → Surface
await_frame none f = f
await_frame (some now) f =
    if f.frame_pending then f else record f { frame_pending = true; frame_pending_since = now }

-- The acknowledgement of a serial that was due.
unfoldable pub acknowledge : Option ℕ → Surface → Surface
acknowledge none f = f
acknowledge (some serial) f =
    if serial == f.newest_serial then record f { has_newer_serial = false } else f

unfoldable pub ack_notes : ℕ → Option ℕ → List Note
ack_notes n none = []
ack_notes n (some serial) = ack_serial n serial ∷ []

unfoldable pub show_frame : Option ℕ → Option Timespec → Surface → Surface
unfolding await_frame acknowledge
show_frame ack now f = record (acknowledge ack (await_frame now f)) {
  has_buffer = true;
  client_submission_timer = none;
}

-- The end of `nested_surface_commit` on a surface with a buffer of the right size.
unfoldable pub frame_found :
    ℕ → Option ℕ → Option Timespec → Option Surface → Session → Outcome Session
unfolding show_frame ack_notes remove_timer update_surface
frame_found n ack now none s = faults
frame_found n ack now (some f) s = returns (
    note (ack_notes n ack ++ commit_frame n ∷ []) (record s {
      surfaces = update_surface n (show_frame ack now) s.surfaces;
      eventloop = remove_timer f.client_submission_timer s.eventloop;
    }))

unfoldable pub nested_frame : ℕ → Option ℕ → Option Timespec → Session → Outcome Session
unfolding frame_found find_surface
nested_frame n ack now s = frame_found n ack now (find_surface n s.surfaces) s

unfoldable pub resume_found : ℕ → Option BgClient → Session → Outcome Session
unfolding set_client_paused update_client
resume_found a none s = faults
resume_found a (some c) s =
    if c.paused
    then returns (record s {
      host = (set_client_paused s.host c false).1;
      clients = update_client a (λ d. (set_client_paused s.host d false).0) s.clients;
    })
    else returns s

unfoldable pub resume_client_for_surface : Option ℕ → Session → Outcome Session
unfolding resume_found find_client
resume_client_for_surface none s = returns s
resume_client_for_surface (some a) s = resume_found a (find_client a s.clients) s

-- `bg_frame_handle_done` at `now`, for an output.
unfoldable pub presented_found : ℕ → Timespec → Option Surface → Session → Outcome Session
unfolding resume_client_for_surface client_for_surface update_surface
presented_found n now none s = faults
presented_found n now (some f) s =
    resume_client_for_surface (client_for_surface s.main_client f) (record s {
      surfaces =
          update_surface n (λ g. record g { frame_pending = false; frame_last_done = now })
            s.surfaces;
    })

unfoldable pub bg_frame_handle_done : ℕ → Timespec → Session → Outcome Session
unfolding presented_found find_surface
bg_frame_handle_done n now s = presented_found n now (find_surface n s.surfaces) s
