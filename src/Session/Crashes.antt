-- ===== src/Session/Crashes.antt =====
-- What main.c does to outputs after the nested server has ended.
use swaylock_plugin.Base.{
  ℕ, suc, ◌≡◌, refl, ap, ◌∙◌, true, false, not, ◌&&◌, ◌||◌, [], ◌∷◌, Option, some, if◌then◌else◌,
  arith, faults, returns, ◌>>=◌, ◌==◌,
}
use swaylock_plugin.Clients.{Surface}
use swaylock_plugin.Session.{
  Session, Outside, Start, find_surface, update_surface, note, send_closed, remove_timer,
  unlink_surface, connect_call,
}
use swaylock_plugin.Session.Commands.{run_plugin_command, start_command, spawned, connect_client}
use swaylock_plugin.Session.Outputs.{
  start_for_output, create_surface, init_found, init_surface_if_ready, handle_wl_output_done,
  drop_client, drop_output, destroy_found, handle_global_remove, arm_submission, mark_created,
  start_or_fall_back,
}
use swaylock_plugin.Session.Names.{find_surface-update}
use swaylock_plugin.EventLoop.Live.{live}
use swaylock_plugin.Session.Handlers.{expire}
use swaylock_plugin.Session.Ties.{Tie, Hold, find_surface-hold}
use swaylock_plugin.Session.Linked.{Kept, nothing, output_of, client_of, ties_of, holds_of}
use swaylock_plugin.Session.Cleanup.{client_of-held}
use swaylock_plugin.Session.Expired.{expire_clientless}

-- The loss of an output that still has a client, after the nested server has ended, uses the
-- server that is gone.
pub handle_global_remove_crashes :
    (n a : ℕ) (f : Surface) (s : Session)
    → s.display ≡ false
    → find_surface n s.surfaces ≡ some f
    → f.client ≡ some a
    → handle_global_remove n s ≡ faults
unfolding handle_global_remove destroy_found drop_client
handle_global_remove_crashes n a f s off found own =
    let t : Session = note (if f.plugin_surface then send_closed n ∷ [] else []) s in
    let gone : drop_client s.display f.client t ≡ faults =
      ap (λ d. drop_client d f.client t) off ∙ ap (λ c. drop_client false c t) own in
    ap (λ x. destroy_found n x s) found
    ∙ ap
        (λ r. r >>= drop_output s.display n f.nested_server_output >>= λ u. returns (record u {
          eventloop = remove_timer f.client_submission_timer u.eventloop;
          surfaces = unlink_surface n u.surfaces;
        }))
        gone

-- A start that gets as far as the record, without a server, is a fault.
run_without_server :
    (o : Outside) (u : Option ℕ) (pid : ℕ) (s : Session)
    → s.display ≡ false
    → (o.run s.starts).socketpair ≡ true
    → (o.run s.starts).set_cloexec ≡ true
    → (o.run s.starts).spawn_command ≡ some pid
    → (o.run s.starts).calloc ≡ true
    → run_plugin_command o u s ≡ faults
unfolding run_plugin_command start_command spawned connect_client
run_without_server o u pid s off pair cloexec child room =
    let r : Start = o.run s.starts in
    let s₁ : Session = record s { starts = suc s.starts } in
    let fine : (r.socketpair && r.set_cloexec) ≡ true = ground arith in
    let made : (s.display && r.wl_client_create) ≡ false = ground arith in
    rw fine (
      ap (λ c. spawned o r s.starts u c s₁) child
      ∙ ap (λ b. connect_client b (s.display && r.wl_client_create) o.loop_env s.starts u pid s₁)
          room
      ∙ ap (λ b. connect_client true b o.loop_env s.starts u pid s₁) made)

-- With a command for each output, the done event of an output that is not created and waits for
-- no color description, while the display runs but the nested server has ended, uses the server
-- that is gone, where the descriptors, the child and the record can be made.
pub handle_wl_output_done_crashes :
    (o : Outside) (n pid : ℕ) (f : Surface) (s : Session)
    → s.display ≡ false
    → s.plugin_per_output ≡ true
    → s.run_display ≡ true
    → find_surface n s.surfaces ≡ some f
    → f.created ≡ false
    → (f.color_output && not f.output_desc_current) ≡ false
    → (o.run s.starts).socketpair ≡ true
    → (o.run s.starts).set_cloexec ≡ true
    → (o.run s.starts).spawn_command ≡ some pid
    → (o.run s.starts).calloc ≡ true
    → handle_wl_output_done o n s ≡ faults
unfolding handle_wl_output_done init_surface_if_ready init_found create_surface start_for_output
    arm_submission
handle_wl_output_done_crashes o n pid f s off each runs found fresh known pair cloexec child room =
    let mark : Surface → Surface = λ g. record g { has_output_done = true } in
    let s₁ : Session = record s { surfaces = update_surface n mark s.surfaces } in
    let found₁ : find_surface n s₁.surfaces ≡ some (mark f) =
      find_surface-update mark (λ g. refl) n s.surfaces f found in
    let t : Session = arm_submission o n s₁ in
    let start : run_plugin_command o (some n) t ≡ faults =
      run_without_server o (some n) pid t off pair cloexec child room in
    let go : start_for_output s.plugin_per_output o n t ≡ faults =
      ap (λ b. start_for_output b o n t) each ∙ ap (λ r. r >>= start_or_fall_back o) start in
    let open_at : (f.created || not s.run_display) ≡ false = ground arith in
    ap (λ x. init_found o n x s₁) found₁
    ∙ rw open_at (rw known (ap (λ r. r >>= λ u. returns (mark_created n u)) go))

-- In a state with that invariant whose nested server stands, let a client have made no registry,
-- and let an output have another client: then the connection timer of the first is in the loop,
-- its expiry returns, and the loss of the output after it uses the server that is gone.
pub removal_crashes :
    (o : Outside) (a b n : ℕ) (t : Tie) (s : Session)
    → ties_of s a ≡ some t
    → t.registry ≡ false
    → s.display ≡ true
    → client_of (holds_of s n) ≡ some b
    → (b == a) ≡ false
    → Kept nothing s
    → (i : ℕ) × (live s.eventloop.timers i ≡ some (connect_call a))
      × ((s' : Session) × (expire o i (connect_call a) s ≡ returns s')
          × (handle_global_remove n s' ≡ faults))
removal_crashes o a b n t s tied silent on own other k =
    let (i, at, rest) = expire_clientless o a t s tied silent on k in
    let (s', run, k', ended, _, others) = rest in
    let back : output_of (ties_of s' b) ≡ some (some n) =
      ap output_of (others b other) ∙ (k.linked.owners (some n) b).0 own in
    let (h, held, hc) = client_of-held (holds_of s' n) b ((k'.linked.owners (some n) b).1 back) in
    let (f, found, fh) = find_surface-hold n s'.surfaces h held in
    (
      i,
      at,
      (
        s',
        run,
        handle_global_remove_crashes n b f s' ended found (ap (λ (x : Hold). x.client) fh ∙ hc),
      ),
    )
