-- ===== src/Session/Readied.antt =====
-- The timers, the clients and the frames of outputs leave every output that is not created without a
-- client and a timer.
use swaylock_plugin.Base.{
  ℕ, ◌≡◌, refl, sym, ap, ◌∙◌, subst, Bool, true, false, not, List, [], ◌∷◌, Option, none, some,
  ◌==◌, arith, if◌then◌else◌, Bool-cases, inl, inr, returns, ◌>>=◌,
}
use swaylock_plugin.EventLoop.{Timespec}
use swaylock_plugin.EventLoop.Freed.{free_timer}
use swaylock_plugin.Clients.{BgClient, Surface, client_for_surface}
use swaylock_plugin.Session.{
  Session, Outside, ClientCall, connect_call, redraw_call, hidden_call, other_call, find_client,
  find_surface, cleanup_client, setup_clientless_mode, note, destroy_wl_client,
}
use swaylock_plugin.Session.Commands.{
  registry_made, client_resource_create, restart_client, destroyed_found, client_destroyed,
  run_plugin_command, mark_clientless,
}
use swaylock_plugin.Session.Handlers.{
  client_timeout, connection_found, client_connection_timeout, redraw_failed, redraw_found,
  output_redraw_timeout, arm_if, arm_hidden_check, hidden_check_timeout, call_back, expire,
  ClientReport, resource_created, client_gone, frame_committed, serve, serve_all, end_dispatch,
  dispatch_nested,
}
use swaylock_plugin.Session.Frames.{show_frame, acknowledge, await_frame, frame_found, nested_frame}
use swaylock_plugin.Session.Ties.{Tie, Hold, find_client-tie, find_surface-hold}
use swaylock_plugin.Session.Linked.{Kept, nothing, client_of, output_of, ties_of, holds_of}
use swaylock_plugin.Session.Cleanup.{client_of-held}
use swaylock_plugin.Session.Created.{Ready}
use swaylock_plugin.Session.Framed.{show_frame-calmed}
use swaylock_plugin.Session.Told.{Able}
use swaylock_plugin.Session.Served.{Known, Delivered, serve-Kept}
use swaylock_plugin.Session.Fresh.{
  Gives, Gives->>=, Gives-if, Closed, Holds, HoldsFirst, Tieable, all_update, cleanup_client-Holds,
  setup_clientless_mode-Holds, run_plugin_command-Holds,
}
use swaylock_plugin.Session.Ready.{
  Ready-Closed, ReadyMade, ReadyMade-Closed, created_Ready, same_Ready, all_map, all_find, made_all,
}

client_timeout-Ready :
    (o : Outside) (a : ℕ) (s : Session) → Holds Ready s → Gives (Holds Ready) (client_timeout o a s)
unfolding client_timeout
client_timeout-Ready o a s h =
    let t = note (if s.display then destroy_wl_client a ∷ [] else []) s in
    Gives->>= (Holds Ready) (Holds Ready) (cleanup_client a t) (setup_clientless_mode o)
      (cleanup_client-Holds Ready Ready-Closed a t h)
      (setup_clientless_mode-Holds Ready Ready-Closed o)

connection_found-Ready :
    (o : Outside) (a : ℕ) (c : Option BgClient) (s : Session)
    → Holds Ready s
    → Gives (Holds Ready) (connection_found o a c s)
unfolding connection_found
connection_found-Ready o a none s h = tt
connection_found-Ready o a (some c) s h = client_timeout-Ready o a _ h

redraw_failed-Ready :
    (o : Outside) (a : Option ℕ) (s : Session)
    → Holds Ready s
    → Gives (Holds Ready) (redraw_failed o a s)
unfolding redraw_failed
redraw_failed-Ready o none s h = h
redraw_failed-Ready o (some a) s h = client_timeout-Ready o a s h

redraw_found-Ready :
    (o : Outside) (n : ℕ) (f : Option Surface) (s : Session)
    → Holds Ready s
    → Gives (Holds Ready) (redraw_found o n f s)
unfolding redraw_found
redraw_found-Ready o n none s h = tt
redraw_found-Ready o n (some f) s h = redraw_failed-Ready o (client_for_surface s.main_client f) _ (
    all_update Ready Ready (λ g. record g { client_submission_timer = none }) n s.surfaces
      (λ g e. Ready-Closed.no_timer g) (λ g e p. p) h)

arm_if-Ready : (b : Bool) (o : Outside) (s : Session) → Holds Ready s → Holds Ready (arm_if b o s)
unfolding arm_if
arm_if-Ready false o s h = h
arm_if-Ready true o s h = h

pub arm_hidden_check-Ready :
    (o : Outside) (s : Session) → Holds Ready s → Holds Ready (arm_hidden_check o s)
unfolding arm_hidden_check
arm_hidden_check-Ready o s h = arm_if-Ready s.pause_when_hidden o s h

call_back-Ready :
    (o : Outside) (c : ClientCall) (s : Session)
    → Holds Ready s
    → Gives (Holds Ready) (call_back o c s)
unfolding call_back client_connection_timeout output_redraw_timeout hidden_check_timeout
call_back-Ready o (connect_call a) s h = connection_found-Ready o a (find_client a s.clients) s h
call_back-Ready o (redraw_call n) s h = redraw_found-Ready o n (find_surface n s.surfaces) s h
call_back-Ready o hidden_call s h = arm_hidden_check-Ready o _ h
call_back-Ready o (other_call m) s h = h

pub expire-Ready :
    (o : Outside) (i : ℕ) (c : ClientCall) (s : Session)
    → Holds Ready s
    → Gives (Holds Ready) (expire o i c s)
unfolding expire
expire-Ready o i c s h =
    Gives->>= (Holds Ready) (Holds Ready) (call_back o c s)
      (λ u.
        returns (record u {
          eventloop = record u.eventloop { timers = free_timer i u.eventloop.timers };
        }))
      (call_back-Ready o c s h) (λ u k. k)

-- A client whose command ends is replaced for the same output, which is created.
mark_clientless-Ready : (r : Session × Bool) → Holds Ready r.0 → Holds Ready (mark_clientless r)
unfolding mark_clientless
mark_clientless-Ready (s, true) h = h
mark_clientless-Ready (s, false) h = h

restart_client-Ready :
    (P : Surface → Type 0) (c : Closed P) (o : Outside) (b : Bool) (u : Option ℕ) (s : Session)
    → ((g : Surface) → P g → Ready g)
    → Tieable P c u
    → Holds P s
    → Gives (Holds Ready) (restart_client o b u s)
unfolding restart_client
restart_client-Ready P c o b u s weak t h =
    Gives-if (Holds Ready) (not b) _ _ (all_map P Ready s.surfaces weak h) (
      Gives->>= (HoldsFirst P c) (Holds Ready) (run_plugin_command o u s)
        (λ r. returns (mark_clientless r)) (run_plugin_command-Holds P c o u s t h)
        (λ r k. mark_clientless-Ready r (all_map P Ready r.0.surfaces weak k)))

owner_created : (f : Surface) (a : ℕ) → Ready f → f.client ≡ some a → f.created ≡ true
owner_created f a r e = elim (Bool-cases f.created) [
  | inl made ↦ made
  | inr unmade ↦ let no : Path (Option ℕ) (some a) none = sym e ∙ (r unmade).0 in cc no
]

replaced-Ready :
    (o : Outside) (a : ℕ) (b : Bool) (u : Option ℕ) (s : Session)
    → Kept nothing s
    → output_of (ties_of s a) ≡ some u
    → Holds Ready s
    → Gives (Holds Ready) (cleanup_client a s >>= restart_client o b u)
replaced-Ready o a b none s k out h =
    Gives->>= (Holds Ready) (Holds Ready) (cleanup_client a s) (restart_client o b none)
      (cleanup_client-Holds Ready Ready-Closed a s h)
      (λ t. restart_client-Ready Ready Ready-Closed o b none t (λ g p. p) (λ m g e. cc e))
replaced-Ready o a b (some n) s k out h =
    let own : client_of (holds_of s n) ≡ some a = (k.linked.owners (some n) a).1 out in
    let (x, held, has) = client_of-held (holds_of s n) a own in
    let (f, found, is) = find_surface-hold n s.surfaces x held in
    let owned : f.client ≡ some a = ap (λ (y : Hold). y.client) is ∙ has in
    let made = owner_created f a (all_find Ready n f s.surfaces h found) owned in
    Gives->>= (Holds (ReadyMade n)) (Holds Ready) (cleanup_client a s) (restart_client o b (some n))
      (cleanup_client-Holds (ReadyMade n) (ReadyMade-Closed n) a s (made_all n f s k found made h))
      (λ t.
        restart_client-Ready (ReadyMade n) (ReadyMade-Closed n) o b (some n) t (λ g p. p.0)
          (λ m g e hit p d.
            let nm : n ≡ m = cc e in
            let hit' : (g.output_global_name == n) ≡ true = ground arith in
            (created_Ready (record g { client = some d }) (p.1 hit'), p.1)))

client_destroyed-Ready :
    (o : Outside) (a : ℕ) (t : Tie) (s : Session)
    → ties_of s a ≡ some t
    → Kept nothing s
    → Holds Ready s
    → Gives (Holds Ready) (client_destroyed o a a s)
unfolding client_destroyed destroyed_found
client_destroyed-Ready o a t s tied k h =
    let (c, found, is) = find_client-tie a s.clients t tied in
    let out : output_of (ties_of s a) ≡ some c.unique_output =
      ap output_of tied ∙ ap (λ (x : Tie). some x.output) (sym is) in
    Gives-if (Holds Ready) (a == a) _ _
      (subst (λ x. Gives (Holds Ready) (destroyed_found o a x s)) (sym found)
        (replaced-Ready o a c.made_a_registry c.unique_output s k out h))
      h

registry_made-Ready :
    (a : ℕ) (c : Option BgClient) (s : Session)
    → Holds Ready s
    → Gives (Holds Ready) (registry_made a c s)
unfolding registry_made
registry_made-Ready a none s h = tt
registry_made-Ready a (some c) s h = h

-- A frame.
show_frame-created :
    (ack : Option ℕ) (now : Option Timespec) (g : Surface)
    → (show_frame ack now g).created ≡ g.created
unfolding show_frame acknowledge await_frame
show_frame-created none none g = refl
show_frame-created none (some t) g = ground arith
show_frame-created (some a) none g = ground arith
show_frame-created (some a) (some t) g = ground arith

frame_found-Ready :
    (n : ℕ) (ack : Option ℕ) (now : Option Timespec) (f : Option Surface) (s : Session)
    → Holds Ready s
    → Gives (Holds Ready) (frame_found n ack now f s)
unfolding frame_found
frame_found-Ready n ack now none s h = tt
frame_found-Ready n ack now (some f) s h =
    all_update Ready Ready (show_frame ack now) n s.surfaces
      (λ g e r.
        same_Ready (record g { client_submission_timer = none }) (show_frame ack now g)
          (show_frame-created ack now g) (show_frame-calmed ack now g).1
          (Ready-Closed.no_timer g r))
      (λ g e p. p) h

serve-Ready :
    (o : Outside) (e : ClientReport) (s : Session)
    → Known e s
    → Kept nothing s
    → Holds Ready s
    → Gives (Holds Ready) (serve o e s)
unfolding serve client_resource_create nested_frame
serve-Ready o (resource_created a client) s known k h =
    Gives-if (Holds Ready) (client == a) _ _ (registry_made-Ready a (find_client a s.clients) s h) h
serve-Ready o (client_gone a client) s (same, (t, tied)) k h =
    subst (λ c. Gives (Holds Ready) (client_destroyed o a c s)) (sym same)
      (client_destroyed-Ready o a t s tied k h)
serve-Ready o (frame_committed n ack now) s known k h =
    frame_found-Ready n ack now (find_surface n s.surfaces) s h

serve_all-Ready :
    (o : Outside) (es : List ClientReport) (s : Session)
    → Able o
    → s.display ≡ true
    → Delivered o es s
    → Kept nothing s
    → Holds Ready s
    → Gives (Holds Ready) (serve_all o es s)
unfolding serve_all
serve_all-Ready o [] s able on d k h = h
serve_all-Ready o (e ∷ es) s able on (known, more) k h =
    let (s₁, run, k₁, on₁) = serve-Kept o e s able on known k in
    let h₁ : Holds Ready s₁ = subst (Gives (Holds Ready)) run (serve-Ready o e s known k h) in
    subst (λ r. Gives (Holds Ready) (r >>= serve_all o es)) (sym run)
      (serve_all-Ready o es s₁ able on₁ (more s₁ run) k₁ h₁)

end_dispatch-Ready :
    (b : Bool) (o : Outside) (s : Session)
    → Holds Ready s
    → Gives (Holds Ready) (end_dispatch b o s)
unfolding end_dispatch
end_dispatch-Ready false o s h = h
end_dispatch-Ready true o s h = setup_clientless_mode-Holds Ready Ready-Closed o s h

pub dispatch_nested-Ready :
    (o : Outside) (es : List ClientReport) (s : Session)
    → Able o
    → s.display ≡ true
    → Delivered o es s
    → Kept nothing s
    → Holds Ready s
    → Gives (Holds Ready) (dispatch_nested o es s)
unfolding dispatch_nested
dispatch_nested-Ready o es s able on d k h =
    Gives->>= (Holds Ready) (Holds Ready) (serve_all o es s)
      (λ t. end_dispatch t.start_clientless_mode o t) (serve_all-Ready o es s able on d k h)
      (λ t v. end_dispatch-Ready t.start_clientless_mode o t v)
