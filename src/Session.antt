-- ===== src/Session.antt =====
-- main.c: the background programs, the nested server that they draw to, and the outputs that they
-- are for. A record that was freed is not in the list of its kind, and a use of it is a fault.
pub mod Commands
pub mod Handlers
pub mod Outputs
pub mod Frames
pub mod Rings
pub mod Ties
pub mod Names
pub mod Linked
pub mod Moves
pub mod Joins
pub mod Stopped
pub mod Cleanup
pub mod Cancelled
pub mod Clientless
pub mod Settled
pub mod Expiries
pub mod Expired
pub mod Tied
pub mod Started
pub mod Told
pub mod Served
pub mod Created
pub mod Appeared
pub mod Framed
pub mod Fresh
pub mod Ready
pub mod Readied
pub mod Presented
pub mod Reached
pub mod Crashes
use swaylock_plugin.Base.{
  ℕ, suc, Bool, true, false, not, ◌&&◌, ◌||◌, List, [], ◌∷◌, ◌++◌, Option, none, some, ◌==◌,
  if◌then◌else◌, Outcome, returns, aborts, faults, ◌>>=◌, ℤ, pos,
}
use swaylock_plugin.EventLoop.{
  Env, Timespec, Loop, loop_add_timer, loop_remove_timer, loop_remove_fd,
}
use swaylock_plugin.Clients.{
  BgClient, Surface, Host, set_client_paused, resume_all_clients, is_client,
}

-- The callbacks of the timers of main.c that concern the clients, with their `data`, and all others.
pub data ClientCall : Type 0 where
  connect_call : ℕ → ClientCall
  redraw_call : ℕ → ClientCall
  hidden_call : ClientCall
  other_call : ℕ → ClientCall

-- What the compositor, or a background program, is sent. `draw` is a call of `render`.
pub data Note : Type 0 where
  ack_serial : ℕ → ℕ → Note
  commit_fallback commit_frame : ℕ → Note
  draw : ℕ → Note
  send_closed : ℕ → Note
  destroy_wl_client : ℕ → Note
  remove_output : ℕ → Note

-- What `run_plugin_command` is answered: `spawn_command` gives the pid of the child.
pub record Start : Type 0 where
  pub socketpair : Bool
  pub set_cloexec : Bool
  pub spawn_command : Option ℕ
  pub calloc : Bool
  pub wl_client_create : Bool

-- What comes from outside: the loop's clock and allocator, the answers to the n-th start of the
-- command, whether the n-th fallback buffer of an output can be made, the descriptor of the nested
-- server's loop, and the clock of the check for hidden clients.
pub record Outside : Type 0 where
  pub loop_env : Env
  pub run : ℕ → Start
  pub can_create : ℕ → Bool
  pub server_fd : ℕ
  pub clock : ℕ → ℕ → Timespec

-- `struct swaylock_state` as far as the clients matter. `display` is whether the nested server
-- stands; `starts` counts the calls of `run_plugin_command`.
pub record Session : Type 0 where
  pub display : Bool
  pub run_display : Bool
  pub clients : List BgClient
  pub main_client : Option ℕ
  pub surfaces : List Surface
  pub start_clientless_mode : Bool
  pub hidden_check_timer : Option ℕ
  pub plugin_per_output : Bool
  pub pause_when_hidden : Bool
  pub hidden_timeout_ms : ℕ
  pub host : Host
  pub eventloop : Loop ℕ ClientCall
  pub starts : ℕ
  pub log : List Note

abbrev pub note : List Note → Session → Session
note ns s = record s { log = s.log ++ ns }

-- A pointer to a client, followed.
unfoldable pub find_client : ℕ → List BgClient → Option BgClient
find_client a [] = none
find_client a (c ∷ cs) = let rest = find_client a cs in if c.address == a then some c else rest

-- `wl_list_remove` of a client's link.
unfoldable pub unlink_client : ℕ → List BgClient → List BgClient
unlink_client a [] = []
unlink_client a (c ∷ cs) =
    let rest = unlink_client a cs in if c.address == a then rest else c ∷ rest

-- A write through a pointer to a client.
unfoldable pub update_client : ℕ → (BgClient → BgClient) → List BgClient → List BgClient
update_client a f [] = []
update_client a f (c ∷ cs) =
    let rest = update_client a f cs in if c.address == a then f c ∷ rest else c ∷ rest

unfoldable pub find_surface : ℕ → List Surface → Option Surface
find_surface n [] = none
find_surface n (s ∷ ss) =
    let rest = find_surface n ss in if s.output_global_name == n then some s else rest

unfoldable pub unlink_surface : ℕ → List Surface → List Surface
unlink_surface n [] = []
unlink_surface n (s ∷ ss) =
    let rest = unlink_surface n ss in if s.output_global_name == n then rest else s ∷ rest

unfoldable pub update_surface : ℕ → (Surface → Surface) → List Surface → List Surface
update_surface n f [] = []
update_surface n f (s ∷ ss) =
    let rest = update_surface n f ss in if s.output_global_name == n then f s ∷ rest else s ∷ rest

-- `if (timer) loop_remove_timer(state->eventloop, timer)`.
unfoldable pub remove_timer : Option ℕ → Loop ℕ ClientCall → Loop ℕ ClientCall
unfolding loop_remove_timer
remove_timer none loop = loop
remove_timer (some t) loop = (loop_remove_timer loop t).0

-- The last part of `cleanup_client`, with its assertions.
unfoldable pub forget_surface : ℕ → ℕ → Option Surface → Session → Outcome Session
unfolding update_surface is_client
forget_surface a n none s = faults
forget_surface a n (some surface) s =
    if is_client a surface.client
    then returns
        (record s { surfaces = update_surface n (λ f. record f { client = none }) s.surfaces })
    else aborts

unfoldable pub forget_client : ℕ → Option ℕ → Session → Outcome Session
unfolding forget_surface find_surface is_client
forget_client a none s =
    if is_client a s.main_client then returns (record s { main_client = none }) else aborts
forget_client a (some n) s = forget_surface a n (find_surface n s.surfaces) s

unfoldable pub cleanup_found : ℕ → Option BgClient → Session → Outcome Session
unfolding forget_client unlink_client remove_timer
cleanup_found a none s = faults
cleanup_found a (some c) s = forget_client a c.unique_output (record s {
  host = (set_client_paused s.host c false).1;
  clients = unlink_client a s.clients;
  eventloop = remove_timer c.client_connect_timer s.eventloop;
})

unfoldable pub cleanup_client : ℕ → Session → Outcome Session
unfolding cleanup_found find_client
cleanup_client a s = cleanup_found a (find_client a s.clients) s

-- `loop_remove_fd(state->eventloop, fd)`.
unfoldable pub fd_removed : Option (Loop ℕ ClientCall × Bool) → Session → Outcome Session
fd_removed none s = faults
fd_removed (some (loop, found)) s = returns (record s { eventloop = loop })

unfoldable pub drop_fd : ℕ → Session → Outcome Session
unfolding loop_remove_fd fd_removed
drop_fd fd s = fd_removed (loop_remove_fd s.eventloop fd) s

-- The loop of `setup_clientless_mode` that cancels the redraw timers.
unfoldable pub cancel_timers : List Surface → Loop ℕ ClientCall → List Surface × Loop ℕ ClientCall
unfolding remove_timer
cancel_timers [] loop = ([], loop)
cancel_timers (f ∷ fs) loop =
    let (fs', loop') = cancel_timers fs (remove_timer f.client_submission_timer loop) in
    (record f { client_submission_timer = none } ∷ fs', loop')

-- `render_fallback_surface`; `ok` is whether the buffer can be made.
unfoldable pub render_fallback_surface : Bool → Surface → Surface × List Note
render_fallback_surface ok f =
    if ok
    then (record f { has_buffer = true }, commit_fallback f.output_global_name ∷ [])
    else (f, [])

-- A surface without a buffer, in `setup_clientless_mode`.
unfoldable pub reply_and_fill : Bool → Surface → Surface × List Note
unfolding render_fallback_surface
reply_and_fill ok f =
    if f.has_newer_serial
    then (let (f', ns) = render_fallback_surface ok (record f { has_newer_serial = false }) in
        (f', ack_serial f.output_global_name f.newest_serial ∷ ns))
    else render_fallback_surface ok f

unfoldable pub fall_back : Bool → Surface → Surface × List Note
unfolding reply_and_fill
fall_back ok f =
    if f.width == 0 || f.height == 0
    then (f, [])
    else (let (f', ns) = if f.has_buffer then (f, []) else reply_and_fill ok f in
        (record f' { dirty = true }, ns ++ draw f.output_global_name ∷ []))

unfoldable pub fall_back_all : (ℕ → Bool) → List Surface → List Surface × List Note
unfolding fall_back
fall_back_all can [] = ([], [])
fall_back_all can (f ∷ fs) =
    let (f', ns) = fall_back (can f.output_global_name) f in
    let (fs', ms) = fall_back_all can fs in (f' ∷ fs', ns ++ ms)

-- The end of `setup_clientless_mode`, from the end of the nested server on.
unfoldable pub show_fallbacks : Outside → Session → Session
unfolding fall_back_all
show_fallbacks o s =
    let (fs, ns) = fall_back_all o.can_create s.surfaces in
    note ns (record s { display = false; surfaces = fs })

-- `wl_display_destroy` leaves the clients of the server as they are; so are their records.
unfoldable pub end_server : Bool → Outside → Session → Outcome Session
unfolding cancel_timers drop_fd show_fallbacks
end_server false o s = returns s
end_server true o s =
    let (cs, host) = resume_all_clients s.host s.clients in
    let (fs, loop) = cancel_timers s.surfaces s.eventloop in
    drop_fd o.server_fd (record s { clients = cs; host = host; surfaces = fs; eventloop = loop })
    >>= λ t. returns (show_fallbacks o t)

unfoldable pub setup_clientless_mode : Outside → Session → Outcome Session
unfolding end_server
setup_clientless_mode o s = end_server s.display o s
