-- ===== src/Session/Reached.antt =====
-- The life of the clients and of the outputs as a sequence of events.
use swaylock_plugin.Base.{
  ℕ, ◌≡◌, refl, ap, ◌∙◌, Bool, true, false, List, ◌↔◌, none, some, returns, Outcome, ◌>>=◌, [],
  subst, sym, Option, arith,
}
use swaylock_plugin.EventLoop.{Pollfd, Timespec, loop_create}
use swaylock_plugin.EventLoop.Aligned.{loop_create-Aligned}
use swaylock_plugin.EventLoop.Live.{live}
use swaylock_plugin.Clients.{Surface, Host}
use swaylock_plugin.Session.{Session, Outside, ClientCall, find_surface}
use swaylock_plugin.Session.Handlers.{ClientReport, dispatch_nested, expire, arm_hidden_check}
use swaylock_plugin.Session.Commands.{run_plugin_command}
use swaylock_plugin.Session.Started.{run_plugin_command-Started}
use swaylock_plugin.Session.Outputs.{
  start_or_fall_back, create_surface, handle_wl_output_done, add_output, handle_global_remove,
}
use swaylock_plugin.Session.Frames.{configure_surface, bg_frame_handle_done}
use swaylock_plugin.Session.Framed.{configure_surface-Kept, bg_frame_handle_done-Kept}
use swaylock_plugin.Session.Names.{find_surface-hold_of}
use swaylock_plugin.Session.Ties.{hold_of}
use swaylock_plugin.Session.Linked.{Kept, nothing, ties_of, holds_of, slot, output_of}
use swaylock_plugin.Session.Expired.{expire-Kept, arm_hidden_check-Kept}
use swaylock_plugin.Session.Told.{Able}
use swaylock_plugin.Session.Served.{Delivered, dispatch_nested-Kept}
use swaylock_plugin.Session.Created.{
  Ready, start_or_fall_back-Kept, create_surface-Kept, handle_wl_output_done-Kept,
}
use swaylock_plugin.Session.Fresh.{
  Gives, Gives->>=, Holds, HoldsFirst, run_plugin_command-Holds, start_or_fall_back-Holds,
}
use swaylock_plugin.Session.Ready.{
  Ready-Closed, all_find, create_surface-Ready, handle_wl_output_done-Ready,
  handle_global_remove-Ready,
}
use swaylock_plugin.Session.Readied.{arm_hidden_check-Ready, expire-Ready, dispatch_nested-Ready}
use swaylock_plugin.Session.Presented.{configure_surface-Ready, bg_frame_handle_done-Ready}
use swaylock_plugin.Session.Appeared.{Removable, add_output-Kept, handle_global_remove-Kept}

-- What happens to the locker, as far as the clients matter.
pub data Event : Type 0 where
  surface_created : ℕ → Event
  command_started : Event
  display_run : Event
  check_armed : Event
  timer_expired : ℕ → ClientCall → Event
  nested_served : List ClientReport → Event
  output_added : ℕ → Bool → Event
  output_done : ℕ → Event
  output_removed : ℕ → Event
  output_configured : ℕ → ℕ → ℕ → ℕ → Event
  output_presented : ℕ → Timespec → Event

unfoldable pub react : Outside → Event → Session → Outcome Session
react o (surface_created n) s = create_surface o n s
react o display_run s = returns (record s { run_display = true })
react o check_armed s = returns (arm_hidden_check o s)
react o command_started s = run_plugin_command o none s >>= start_or_fall_back o
react o (timer_expired i c) s = expire o i c s
react o (nested_served es) s = dispatch_nested o es s
react o (output_added n color) s = returns (add_output n color s)
react o (output_done n) s = handle_wl_output_done o n s
react o (output_removed n) s = handle_global_remove n s
react o (output_configured n serial width height) s = configure_surface o n serial width height s
react o (output_presented n now) s = bg_frame_handle_done n now s

-- An event that can come: main creates an output that is not created, and starts the command for all
-- outputs, once, before any other, while the nested server stands; a timer is in the loop, unmarked;
-- the nested server stands, and tells of clients and outputs that are there; an added output has a
-- new name, a done one is there, and one that is configured or presented is there and created. The
-- creation of an output with a command of its own, and the removal of one that the nested server
-- shows or that has a client, are allowed only while the server stands.
abbrev pub Allowed : Outside → Event → Session → Type 0
Allowed o (surface_created n) s =
    (s.plugin_per_output ≡ true → s.display ≡ true)
    × ((f : Surface) × (find_surface n s.surfaces ≡ some f) × (f.created ≡ false))
Allowed o display_run s = Unit {0}
Allowed o check_armed s = Unit {0}
Allowed o command_started s = (s.plugin_per_output ≡ false) × (s.display ≡ true) × (s.starts ≡ 0)
Allowed o (timer_expired i c) s = live s.eventloop.timers i ≡ some c
Allowed o (nested_served es) s = (s.display ≡ true) × Delivered o es s
Allowed o (output_added n color) s = holds_of s n ≡ none
Allowed o (output_done n) s =
    (s.plugin_per_output ≡ true → s.display ≡ true)
    × ((f : Surface) × (find_surface n s.surfaces ≡ some f))
Allowed o (output_removed n) s = (f : Surface) → find_surface n s.surfaces ≡ some f → Removable f s
Allowed o (output_configured n serial width height) s =
    (f : Surface) × (find_surface n s.surfaces ≡ some f) × (f.created ≡ true)
Allowed o (output_presented n now) s =
    (f : Surface) × (find_surface n s.surfaces ≡ some f) × (f.created ≡ true)

-- Before the first start of a command there is no main client.
no_main :
    (main : Option ℕ) (s : Session)
    → s.main_client ≡ main
    → s.starts ≡ 0
    → Kept nothing s
    → main ≡ none
no_main none s is first k = refl
no_main (some a) s is first k =
    let owner = (k.linked.owners none a).0 is in
    let unknown : ties_of s a ≡ none = k.linked.named a (omega (arith, first)) in
    let nobody : Path (Option (Option ℕ)) none (some none) = sym (ap output_of unknown) ∙ owner in
    cc nobody

-- An allowed event returns, and keeps the invariant.
pub react-Kept :
    (o : Outside) (e : Event) (s : Session)
    → Able o
    → Allowed o e s
    → Kept nothing s
    → Holds Ready s
    → (s' : Session) × (react o e s ≡ returns s') × Kept nothing s'
unfolding react
react-Kept o (surface_created n) s able (on, (f, found, fresh)) k h =
    let (free, quiet) = all_find Ready n f s.surfaces h found fresh in
    create_surface-Kept o n (hold_of f) s able on (find_surface-hold_of n s.surfaces f found) free
      quiet k
react-Kept o display_run s able at k h = (
  record s { run_display = true },
  refl,
  record {
    linked = k.linked;
    awaited = k.awaited;
    distinct = k.distinct;
    entries = k.entries;
    aligned = k.aligned;
  },
)
react-Kept o check_armed s able at k h =
    (arm_hidden_check o s, refl, arm_hidden_check-Kept o nothing s (able.0 s.eventloop.allocs) k)
react-Kept o command_started s able (each, on, first) k h =
    let free : s.main_client ≡ none = no_main s.main_client s refl first k in
    let (s₁, b, run, d) =
      run_plugin_command-Started o nothing none s (able.0 s.eventloop.allocs) (able.1 s.starts) on
        free tt k in
    let (s₂, run₂, k₂) = start_or_fall_back-Kept o s₁ b d.kept in
    (s₂, ap (λ r. r >>= start_or_fall_back o) run ∙ run₂, k₂)
react-Kept o (timer_expired i c) s able at k h =
    expire-Kept o i c s (able.0 s.eventloop.allocs) at k
react-Kept o (nested_served es) s able (on, d) k h = dispatch_nested-Kept o es s able on d k
react-Kept o (output_added n color) s able new k h =
    (add_output n color s, refl, add_output-Kept n color s new k)
react-Kept o (output_done n) s able (on, (f, found)) k h =
    handle_wl_output_done-Kept o n f s able on found (all_find Ready n f s.surfaces h found) k
react-Kept o (output_removed n) s able may k h = handle_global_remove-Kept n s may k
react-Kept o (output_configured n serial width height) s able (f, found, made) k h =
    configure_surface-Kept o n serial width height f s (able.0 s.eventloop.allocs) found k
react-Kept o (output_presented n now) s able (f, found, made) k h =
    bg_frame_handle_done-Kept n now f s found k

-- An allowed event leaves the outputs that are not created without a client and a timer.
react-Ready :
    (o : Outside) (e : Event) (s : Session)
    → Able o
    → Allowed o e s
    → Kept nothing s
    → Holds Ready s
    → Gives (Holds Ready) (react o e s)
unfolding react add_output
react-Ready o (surface_created n) s able at k h = create_surface-Ready o n s h
react-Ready o display_run s able at k h = h
react-Ready o check_armed s able at k h = arm_hidden_check-Ready o s h
react-Ready o command_started s able at k h =
    Gives->>= (HoldsFirst Ready Ready-Closed) (Holds Ready) (run_plugin_command o none s)
      (start_or_fall_back o)
      (run_plugin_command-Holds Ready Ready-Closed o none s (λ n g e. cc e) h)
      (start_or_fall_back-Holds Ready Ready-Closed o)
react-Ready o (timer_expired i c) s able at k h = expire-Ready o i c s h
react-Ready o (nested_served es) s able (on, d) k h = dispatch_nested-Ready o es s able on d k h
react-Ready o (output_added n color) s able new k h = (λ e. (refl, refl), h)
react-Ready o (output_done n) s able at k h = handle_wl_output_done-Ready o n s h
react-Ready o (output_removed n) s able may k h = handle_global_remove-Ready n s h
react-Ready o (output_configured n serial width height) s able (f, found, made) k h =
    configure_surface-Ready o n serial width height f s found made k h
react-Ready o (output_presented n now) s able at k h = bg_frame_handle_done-Ready n now s h

-- The state of main.c when the nested server has been made.
unfoldable pub at_opening : Pollfd → Host → Bool → Bool → ℕ → Session
unfolding loop_create
at_opening junk host plugin_per_output pause_when_hidden hidden_timeout_ms = record {
  display = true;
  run_display = false;
  clients = [];
  main_client = none;
  surfaces = [];
  start_clientless_mode = false;
  hidden_check_timer = none;
  plugin_per_output = plugin_per_output;
  pause_when_hidden = pause_when_hidden;
  hidden_timeout_ms = hidden_timeout_ms;
  host = host;
  eventloop = loop_create junk;
  starts = 0;
  log = [];
}

at_opening-Kept :
    (junk : Pollfd) (host : Host) (each pause : Bool) (ms : ℕ)
    → Kept nothing (at_opening junk host each pause ms)
unfolding at_opening loop_create
at_opening-Kept junk host each pause ms = record {
  linked = record {
    owners = λ o a.
        elim o as (λ o. (slot none (λ n. none) o ≡ some a) ↔ (output_of none ≡ some o)) [
          | none ↦ ((λ e. cc e), λ e. cc e)
          | some n ↦ ((λ e. cc e), λ e. cc e)
        ];
    connects = λ a i. ((λ e. cc e), λ e. cc e);
    redraws = λ n i. ((λ e. cc e), λ e. cc e);
    order = tt;
    unspared = λ l le. refl;
    named = λ b le. refl;
  };
  awaited = λ a t e. cc e;
  distinct = tt;
  entries = [];
  aligned = loop_create-Aligned junk;
}

-- The states that allowed events lead to.
pub data Reached (o : Outside) : Session → Type 0 where
  at_start :
      {s : Session} (junk : Pollfd) (host : Host) (each pause : Bool) (ms : ℕ)
      → s ≡ at_opening junk host each pause ms
      → Reached o s
  after :
      {s s' : Session} (e : Event)
      → Reached o s
      → Allowed o e s
      → react o e s ≡ returns s'
      → Reached o s'

returned : {s s' : Session} → Path (Outcome Session) (returns s) (returns s') → s ≡ s'
returned e = cc e

-- Where timers can be allocated and the nested server can make clients, in every state that is
-- reached the records of clients and outputs point to each other, the main client being the one
-- without an output of its own; their timers are the unmarked nodes of the loop that call back
-- for them, each such node is the timer of its record, a client that has not made a registry has
-- one, and an output that is not created has neither a client nor a timer.
pub reached-Kept :
    (o : Outside) {s : Session} → Able o → Reached o s → Kept nothing s × Holds Ready s
unfolding at_opening
reached-Kept o able (at_start junk host each pause ms e) = (
  subst (Kept nothing) (sym e) (at_opening-Kept junk host each pause ms),
  subst (Holds Ready) (sym e) tt,
)
reached-Kept o able (after {s = s} e r at run) =
    let (k, h) = reached-Kept o able r in
    let (s', run', k') = react-Kept o e s able at k h in
    (
      subst (Kept nothing) (returned (sym run' ∙ run)) k',
      subst (Gives (Holds Ready)) run (react-Ready o e s able at k h),
    )
