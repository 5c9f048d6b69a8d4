-- ===== src/Session/Commands.antt =====
-- main.c: the start of the background command, and what its connection does to the records.
use swaylock_plugin.Base.{
  ℕ, suc, Bool, true, false, not, ◌&&◌, ◌∷◌, Option, none, some, ◌==◌, if◌then◌else◌, Outcome,
  returns, aborts, faults, ◌>>=◌, pos,
}
use swaylock_plugin.EventLoop.{Env, loop_add_timer}
use swaylock_plugin.Clients.{BgClient, Surface}
use swaylock_plugin.Session.{
  Session, Outside, Start, connect_call, find_client, update_client, find_surface, update_surface,
  remove_timer, cleanup_client,
}

-- The part of `run_plugin_command` that ties the new record to its output, with its assertions.
unfoldable pub own_surface : ℕ → ℕ → Option ℕ → Session → Outcome Session
unfolding update_surface
own_surface a n (some b) s = aborts
own_surface a n none s =
    returns
      (record s { surfaces = update_surface n (λ f. record f { client = some a }) s.surfaces })

unfoldable pub tie_surface : ℕ → ℕ → Option Surface → Session → Outcome Session
unfolding own_surface
tie_surface a n none s = faults
tie_surface a n (some surface) s = own_surface a n surface.client s

unfoldable pub tie_main : ℕ → Option ℕ → Session → Outcome Session
tie_main a (some b) s = aborts
tie_main a none s = returns (record s { main_client = some a })

unfoldable pub tie_client : ℕ → Option ℕ → Session → Outcome Session
unfolding tie_surface tie_main find_surface
tie_client a (some n) s = tie_surface a n (find_surface n s.surfaces) s
tie_client a none s = tie_main a s.main_client s

-- The new record, in front of the others, with its timer. `TIMEOUT_CONNECT` is 2500 ms.
unfoldable pub insert_client : Env → ℕ → Option ℕ → ℕ → Session → Session
unfolding loop_add_timer
insert_client env a output pid s =
    let (loop, timer) = loop_add_timer env s.eventloop (pos 2500) (connect_call a) in
    let c : BgClient = record {
      address = a;
      pid = pid;
      paused = false;
      unique_output = output;
      made_a_registry = false;
      client_connect_timer = timer;
    } in
    record s { clients = c ∷ s.clients; eventloop = loop }

-- From the allocation of the record on. `wl_client_create` on a server that is gone, and the use of
-- a client that it did not make, are faults. The first test is whether the record was allocated, the
-- second whether there is a server that makes the client.
unfoldable pub connect_client :
    Bool → Bool → Env → ℕ → Option ℕ → ℕ → Session → Outcome (Session × Bool)
unfolding insert_client tie_client
connect_client false made env a output pid s = returns (s, false)
connect_client true false env a output pid s = faults
connect_client true true env a output pid s =
    tie_client a output (insert_client env a output pid s) >>= λ t. returns (t, true)

unfoldable pub spawned :
    Outside → Start → ℕ → Option ℕ → Option ℕ → Session → Outcome (Session × Bool)
unfolding connect_client
spawned o r a output none s = returns (s, false)
spawned o r a output (some pid) s =
    connect_client r.calloc (s.display && r.wl_client_create) o.loop_env a output pid s

unfoldable pub start_command : Outside → Start → ℕ → Option ℕ → Session → Outcome (Session × Bool)
unfolding spawned
start_command o r a output s =
    if r.socketpair && r.set_cloexec
    then spawned o r a output r.spawn_command s
    else returns (s, false)

unfoldable pub run_plugin_command : Outside → Option ℕ → Session → Outcome (Session × Bool)
unfolding start_command
run_plugin_command o output s =
    start_command o (o.run s.starts) s.starts output (record s { starts = suc s.starts })

-- A client of the nested server `client` made a resource, which the listener of the record `a` is
-- told.
unfoldable pub registry_made : ℕ → Option BgClient → Session → Outcome Session
unfolding update_client remove_timer
registry_made a none s = faults
registry_made a (some c) s = returns (record s {
  clients =
      update_client a (λ d. record d { made_a_registry = true; client_connect_timer = none })
        s.clients;
  eventloop = remove_timer c.client_connect_timer s.eventloop;
})

unfoldable pub client_resource_create : ℕ → ℕ → Session → Outcome Session
unfolding registry_made find_client
client_resource_create a client s =
    if client == a then registry_made a (find_client a s.clients) s else returns s

-- The end of `client_destroyed`.
unfoldable pub mark_clientless : Session × Bool → Session
mark_clientless (s, true) = s
mark_clientless (s, false) = record s { start_clientless_mode = true }

unfoldable pub restart_client : Outside → Bool → Option ℕ → Session → Outcome Session
unfolding run_plugin_command mark_clientless
restart_client o made_a_registry output s =
    if not made_a_registry
    then returns (record s { start_clientless_mode = true })
    else (run_plugin_command o output s >>= λ r. returns (mark_clientless r))

unfoldable pub destroyed_found : Outside → ℕ → Option BgClient → Session → Outcome Session
unfolding restart_client cleanup_client
destroyed_found o a none s = faults
destroyed_found o a (some c) s =
    cleanup_client a s >>= restart_client o c.made_a_registry c.unique_output

unfoldable pub client_destroyed : Outside → ℕ → ℕ → Session → Outcome Session
unfolding destroyed_found find_client
client_destroyed o a client s =
    if client == a then destroyed_found o a (find_client a s.clients) s else returns s
