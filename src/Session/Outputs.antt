-- ===== src/Session/Outputs.antt =====
-- main.c: outputs as they come, become ready and go, with the clients that are for them.
use swaylock_plugin.Base.{
  ℕ, Bool, true, false, not, ◌&&◌, ◌||◌, [], ◌∷◌, Option, none, some, if◌then◌else◌, Outcome,
  returns, faults, ◌>>=◌, pos,
}
use swaylock_plugin.EventLoop.{loop_add_timer}
use swaylock_plugin.Clients.{Surface}
use swaylock_plugin.Session.{
  Session, Outside, redraw_call, find_surface, update_surface, unlink_surface, remove_timer,
  cleanup_client, setup_clientless_mode, note, destroy_wl_client, send_closed, remove_output,
}
use swaylock_plugin.Session.Commands.{run_plugin_command}

-- The end of `create_surface`. `TIMEOUT_SURFACE` is 4000 ms.
unfoldable pub arm_submission : Outside → ℕ → Session → Session
unfolding loop_add_timer update_surface
arm_submission o n s =
    let (loop, timer) = loop_add_timer o.loop_env s.eventloop (pos 4000) (redraw_call n) in
    record s {
      eventloop = loop;
      surfaces = update_surface n (λ f. record f { client_submission_timer = timer }) s.surfaces;
    }

unfoldable pub start_or_fall_back : Outside → Session × Bool → Outcome Session
unfolding setup_clientless_mode
start_or_fall_back o (s, true) = returns s
start_or_fall_back o (s, false) = setup_clientless_mode o s

unfoldable pub mark_created : ℕ → Session → Session
unfolding update_surface
mark_created n s = record s {
  surfaces = update_surface n (λ f. record f { created = true }) s.surfaces;
}

unfoldable pub start_for_output : Bool → Outside → ℕ → Session → Outcome Session
unfolding run_plugin_command start_or_fall_back
start_for_output false o n s = returns s
start_for_output true o n s = run_plugin_command o (some n) s >>= start_or_fall_back o

unfoldable pub create_surface : Outside → ℕ → Session → Outcome Session
unfolding arm_submission start_for_output mark_created
create_surface o n s = start_for_output s.plugin_per_output o n (arm_submission o n s) >>= λ u.
    returns (mark_created n u)

-- `init_surface_if_ready`; the assertion on the current description holds by `output_desc_current`.
unfoldable pub init_found : Outside → ℕ → Option Surface → Session → Outcome Session
unfolding create_surface
init_found o n none s = faults
init_found o n (some f) s =
    if f.created || not s.run_display
    then returns s
    else if not f.has_output_done
    then returns s
    else if f.color_output && not f.output_desc_current
    then returns s
    else create_surface o n s

unfoldable pub init_surface_if_ready : Outside → ℕ → Session → Outcome Session
unfolding init_found find_surface
init_surface_if_ready o n s = init_found o n (find_surface n s.surfaces) s

unfoldable pub handle_wl_output_done : Outside → ℕ → Session → Outcome Session
unfolding init_surface_if_ready update_surface
handle_wl_output_done o n s =
    init_surface_if_ready o n (record s {
      surfaces = update_surface n (λ f. record f { has_output_done = true }) s.surfaces;
    })

-- `handle_global` for a wl_output, which may also have a color output.
unfoldable pub add_output : ℕ → Bool → Session → Session
add_output n color s =
    let f : Surface = record {
      output_global_name = n;
      client = none;
      client_submission_timer = none;
      width = 0;
      height = 0;
      has_buffer = false;
      has_newer_serial = false;
      newest_serial = 0;
      dirty = false;
      created = false;
      has_output_done = false;
      nested_server_output = false;
      plugin_surface = false;
      color_output = color;
      output_desc_current = false;
      frame_pending = false;
      frame_pending_since = record { tv_sec = 0; tv_nsec = 0 };
      frame_last_done = record { tv_sec = 0; tv_nsec = 0 };
    } in
    record s { surfaces = f ∷ s.surfaces }

-- The part of `destroy_surface` about the client of the output. `wl_client_destroy` and
-- `wl_global_remove` use the nested server, which must not be gone. The clients' references to the
-- record go by `cleanup_client`, which finds it although it is out of the list of outputs.
unfoldable pub drop_client : Bool → Option ℕ → Session → Outcome Session
unfolding cleanup_client
drop_client display none s = returns s
drop_client true (some a) s = cleanup_client a (note (destroy_wl_client a ∷ []) s)
drop_client false (some a) s = faults

unfoldable pub drop_output : Bool → ℕ → Bool → Session → Outcome Session
drop_output display n false s = returns s
drop_output true n true s = returns (note (remove_output n ∷ []) s)
drop_output false n true s = faults

unfoldable pub destroy_found : ℕ → Option Surface → Session → Outcome Session
unfolding drop_client drop_output unlink_surface remove_timer
destroy_found n none s = returns s
destroy_found n (some f) s =
    let t = note (if f.plugin_surface then send_closed n ∷ [] else []) s in
    drop_client s.display f.client t >>= drop_output s.display n f.nested_server_output >>= λ u.
    returns (record u {
      eventloop = remove_timer f.client_submission_timer u.eventloop;
      surfaces = unlink_surface n u.surfaces;
    })

unfoldable pub handle_global_remove : ℕ → Session → Outcome Session
unfolding destroy_found find_surface
handle_global_remove n s = destroy_found n (find_surface n s.surfaces) s
