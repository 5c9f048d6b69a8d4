-- ===== src/Session/Handlers.antt =====
-- main.c: the callbacks of the event loop that concern the clients, and the life of an output.
use swaylock_plugin.Base.{
  ℕ, Bool, true, false, List, [], ◌∷◌, Option, none, some, ◌==◌, if◌then◌else◌, Outcome, returns,
  faults, ◌>>=◌, pos,
}
use swaylock_plugin.EventLoop.{Timespec, loop_add_timer}
use swaylock_plugin.EventLoop.Freed.{free_timer}
use swaylock_plugin.Clients.{BgClient, Surface, check_clients, client_for_surface}
use swaylock_plugin.Session.{
  Session, Outside, ClientCall, redraw_call, hidden_call, connect_call, other_call, find_client,
  update_client, find_surface, update_surface, cleanup_client, setup_clientless_mode, note,
  destroy_wl_client,
}
use swaylock_plugin.Session.Commands.{client_resource_create, client_destroyed}
use swaylock_plugin.Session.Frames.{nested_frame}

unfoldable pub client_timeout : Outside → ℕ → Session → Outcome Session
unfolding cleanup_client setup_clientless_mode
client_timeout o a s =
    cleanup_client a (note (if s.display then destroy_wl_client a ∷ [] else []) s)
    >>= setup_clientless_mode o

unfoldable pub connection_found : Outside → ℕ → Option BgClient → Session → Outcome Session
unfolding client_timeout update_client
connection_found o a none s = faults
connection_found o a (some c) s = client_timeout o a (record s {
  clients = update_client a (λ d. record d { client_connect_timer = none }) s.clients;
})

unfoldable pub client_connection_timeout : Outside → ℕ → Session → Outcome Session
unfolding connection_found find_client
client_connection_timeout o a s = connection_found o a (find_client a s.clients) s

unfoldable pub redraw_failed : Outside → Option ℕ → Session → Outcome Session
unfolding client_timeout
redraw_failed o none s = returns s
redraw_failed o (some a) s = client_timeout o a s

unfoldable pub redraw_found : Outside → ℕ → Option Surface → Session → Outcome Session
unfolding redraw_failed update_surface client_for_surface
redraw_found o n none s = faults
redraw_found o n (some f) s = redraw_failed o (client_for_surface s.main_client f) (record s {
  surfaces = update_surface n (λ g. record g { client_submission_timer = none }) s.surfaces;
})

unfoldable pub output_redraw_timeout : Outside → ℕ → Session → Outcome Session
unfolding redraw_found find_surface
output_redraw_timeout o n s = redraw_found o n (find_surface n s.surfaces) s

-- `HIDDEN_CHECK_INTERVAL` is one second.
unfoldable pub arm_if : Bool → Outside → Session → Session
unfolding loop_add_timer
arm_if false o s = s
arm_if true o s =
    let (loop, timer) = loop_add_timer o.loop_env s.eventloop (pos 1000) hidden_call in
    record s { eventloop = loop; hidden_check_timer = timer }

unfoldable pub arm_hidden_check : Outside → Session → Session
unfolding arm_if
arm_hidden_check o s = arm_if s.pause_when_hidden o s

unfoldable pub hidden_check_timeout : Outside → Session → Session
unfolding arm_hidden_check check_clients
hidden_check_timeout o s =
    let (cs, host) =
      check_clients o.clock s.hidden_timeout_ms s.main_client s.surfaces s.host s.clients in
    arm_hidden_check o (record s { clients = cs; host = host; hidden_check_timer = none })

-- The callback of a timer. Those of other parts leave the clients alone.
unfoldable pub call_back : Outside → ClientCall → Session → Outcome Session
unfolding client_connection_timeout output_redraw_timeout hidden_check_timeout
call_back o (connect_call a) s = client_connection_timeout o a s
call_back o (redraw_call n) s = output_redraw_timeout o n s
call_back o hidden_call s = returns (hidden_check_timeout o s)
call_back o (other_call k) s = returns s

-- A timer of the loop has expired: `loop_poll` calls back and frees the node.
unfoldable pub expire : Outside → ℕ → ClientCall → Session → Outcome Session
unfolding call_back
expire o t c s = call_back o c s >>= λ u.
    returns
      (record u { eventloop = record u.eventloop { timers = free_timer t u.eventloop.timers } })

-- What `wl_event_loop_dispatch` may call while it serves the clients.
pub data ClientReport : Type 0 where
  resource_created : ℕ → ℕ → ClientReport
  client_gone : ℕ → ℕ → ClientReport
  frame_committed : ℕ → Option ℕ → Option Timespec → ClientReport

unfoldable pub serve : Outside → ClientReport → Session → Outcome Session
unfolding client_resource_create client_destroyed nested_frame
serve o (resource_created a client) s = client_resource_create a client s
serve o (client_gone a client) s = client_destroyed o a client s
serve o (frame_committed n ack now) s = nested_frame n ack now s

unfoldable pub serve_all : Outside → List ClientReport → Session → Outcome Session
unfolding serve
serve_all o [] s = returns s
serve_all o (e ∷ es) s = serve o e s >>= serve_all o es

unfoldable pub end_dispatch : Bool → Outside → Session → Outcome Session
unfolding setup_clientless_mode
end_dispatch false o s = returns s
end_dispatch true o s = setup_clientless_mode o s

unfoldable pub dispatch_nested : Outside → List ClientReport → Session → Outcome Session
unfolding serve_all end_dispatch
dispatch_nested o es s = serve_all o es s >>= λ t. end_dispatch t.start_clientless_mode o t

-- `global_filter`: whether a client of the nested server may see a global, which is a wl_output of
-- the given name or another one.
unfoldable pub sees_output : Option ℕ → Option ℕ → Bool
sees_output none global = true
sees_output (some n) none = true
sees_output (some n) (some m) = m == n

unfoldable pub global_filter : List BgClient → ℕ → Option ℕ → Bool
unfolding sees_output
global_filter [] client global = false
global_filter (c ∷ cs) client global =
    let rest = global_filter cs client global in
    if c.address == client then sees_output c.unique_output global else rest
