-- ===== src/Session/Clientless.antt =====
-- What `setup_clientless_mode` leaves.
use swaylock_plugin.Base.{
  ℕ, ◌≡◌, refl, ap, ◌∙◌, Bool, true, false, ◌||◌, List, [], ◌∷◌, Option, none, some, ◌==◌, arith,
  inl, inr, returns, ◌>>=◌, Option-cases, All,
}
use swaylock_plugin.EventLoop.{Loop, loop_remove_fd, mark_fd}
use swaylock_plugin.EventLoop.Fds.{Entry, marked}
use swaylock_plugin.EventLoop.Aligned.{Aligned, loop_remove_fd-Aligned}
use swaylock_plugin.Clients.{Surface, resume_all_clients}
use swaylock_plugin.Session.{
  Session, Outside, ClientCall, setup_clientless_mode, cancel_timers, remove_timer, drop_fd,
  end_server, fd_removed, show_fallbacks, fall_back, fall_back_all, reply_and_fill,
  render_fallback_surface,
}
use swaylock_plugin.Session.Ties.{
  mapped, tie-resume_all_clients, hold-cancel_timers, hold-fall_back_all,
}
use swaylock_plugin.Session.Names.{Unrepeated, cancel_timers-Unrepeated, fall_back_all-Unrepeated}
use swaylock_plugin.Session.Linked.{
  LinkedAt, Linked, heard, output_of, timer_of, client_of, due_of, connect_of, redraw_of, slot,
  ties_of, holds_of,
}
use swaylock_plugin.Session.Moves.{Linked-ext}
use swaylock_plugin.Session.Cleanup.{Aligned-remove_timer}
use swaylock_plugin.Session.Cancelled.{calmed, calmed_due, cancel_timers-Linked}

cancel_timers-Aligned :
    (fs : List Surface) (loop : Loop ℕ ClientCall) (es : List (Entry ℕ))
    → Aligned loop es
    → Aligned (cancel_timers fs loop).1 es
unfolding cancel_timers
cancel_timers-Aligned [] loop es al = al
cancel_timers-Aligned (f ∷ fs) loop es al =
    cancel_timers-Aligned fs (remove_timer f.client_submission_timer loop) es
      (Aligned-remove_timer f.client_submission_timer loop es al)

-- Removing a descriptor leaves the timers.
drop_fd-keeps :
    (loop loop' : Loop ℕ ClientCall) (fd : ℕ) (found : Bool)
    → loop_remove_fd loop fd ≡ some (loop', found)
    → (loop'.timers ≡ loop.timers) × (loop'.allocs ≡ loop.allocs)
unfolding loop_remove_fd
drop_fd-keeps loop loop' fd found e = elim (Option-cases (mark_fd loop.fds 0 fd loop.fd_events)) [
  | inl none_found ↦ cc (rw (none_found, loop_remove_fd) at e)
  | inr ((events, b), marks) ↦
      let r : Path (Option (Loop ℕ ClientCall × Bool))
          (some (record loop { fd_events = events }, b)) (some (loop', found)) =
        rw (marks, loop_remove_fd) at e in
      let same : loop' ≡ record loop { fd_events = events } = cc r in
      (ap (λ (l : Loop ℕ ClientCall). l.timers) same, ap (λ (l : Loop ℕ ClientCall). l.allocs) same)
]

-- An output that has a size shows something, unless its buffer could not be made.
abbrev pub Covered : (ℕ → Bool) → Surface → Type 0
Covered can f =
    (f.width == 0 || f.height == 0) ≡ false → can f.output_global_name ≡ true → f.has_buffer ≡ true

fall_back-Covered :
    (can : ℕ → Bool) (f : Surface) → Covered can (fall_back (can f.output_global_name) f).0
unfolding fall_back reply_and_fill render_fallback_surface
fall_back-Covered can f = λ sized ok. ground arith

fall_back_all-Covered :
    (can : ℕ → Bool) (fs : List Surface) → All (Covered can) (fall_back_all can fs).0
unfolding fall_back_all
fall_back_all-Covered can [] = tt
fall_back_all-Covered can (f ∷ fs) = (fall_back-Covered can f, fall_back_all-Covered can fs)

-- What stays of a state when the nested server ends.
pub record Clientless (o : Outside) (spare : ℕ → Bool) (es : List (Entry ℕ)) (s s' : Session)
    : Type 0 where
  pub linked : Linked spare s'
  pub ended : s'.display ≡ false
  pub same_ties : (b : ℕ) → ties_of s' b ≡ ties_of s b
  pub untimed : (n : ℕ) → due_of (holds_of s' n) ≡ none
  pub covered : All (Covered o.can_create) s'.surfaces
  pub distinct : Unrepeated s'.surfaces
  pub polled : Aligned s'.eventloop (marked o.server_fd es)

pub setup_clientless_mode-Clientless :
    (o : Outside) (spare : ℕ → Bool) (s : Session) (es : List (Entry ℕ))
    → s.display ≡ true
    → Unrepeated s.surfaces
    → Aligned s.eventloop es
    → Linked spare s
    → (s' : Session) × (setup_clientless_mode o s ≡ returns s') × Clientless o spare es s s'
unfolding setup_clientless_mode end_server drop_fd show_fallbacks
setup_clientless_mode-Clientless o spare s es on u al v =
    let cs = (resume_all_clients s.host s.clients).0 in
    let fs = (cancel_timers s.surfaces s.eventloop).0 in
    let loop : Loop ℕ ClientCall = (cancel_timers s.surfaces s.eventloop).1 in
    let calm : LinkedAt spare (ties_of s) s.main_client (λ n. mapped calmed (holds_of s n))
        loop.timers loop.allocs s.starts =
      cancel_timers-Linked (holds_of s) s.surfaces s.eventloop u (λ n h e. e) (λ n e. ap due_of e)
        v in
    let al' : Aligned loop es = cancel_timers-Aligned s.surfaces s.eventloop es al in
    let (loop', run, al₂) = loop_remove_fd-Aligned loop es o.server_fd al' in
    let (times, allocs) = drop_fd-keeps loop loop' o.server_fd _ run in
    let t : Session = record s {
      clients = cs;
      host = (resume_all_clients s.host s.clients).1;
      surfaces = fs;
      eventloop = loop';
    } in
    let s' : Session = show_fallbacks o t in
    let holds' : (n : ℕ) → holds_of s' n ≡ mapped calmed (holds_of s n) =
      λ n. hold-fall_back_all n o.can_create fs ∙ hold-cancel_timers n s.surfaces s.eventloop in
    (
      s',
      (ap (λ d. end_server d o s) on
          ∙ ap
              (λ r.
                fd_removed r (record s {
                  clients = cs;
                  host = (resume_all_clients s.host s.clients).1;
                  surfaces = fs;
                  eventloop = loop;
                })
                >>= λ u. returns (show_fallbacks o u))
              run),
      record {
        linked =
            Linked-ext calm (λ b. ap output_of (tie-resume_all_clients b s.host s.clients))
              (λ b. ap timer_of (tie-resume_all_clients b s.host s.clients))
              (λ u.
                elim u
                  as (λ u.
                    slot s.main_client (holds_of s') u
                    ≡ slot s.main_client (λ n. mapped calmed (holds_of s n)) u) [
                      | none ↦ refl
                      | some m ↦ ap client_of (holds' m)
                    ])
              (λ n. ap due_of (holds' n)) (λ l. ap (λ ts. connect_of (heard spare ts l)) times)
              (λ l. ap (λ ts. redraw_of (heard spare ts l)) times) s'.eventloop.allocs s.starts
              (rw (times, allocs) calm.order) (rw allocs calm.unspared)
              (λ b le. tie-resume_all_clients b s.host s.clients ∙ v.named b le);
        ended = refl;
        same_ties = λ b. tie-resume_all_clients b s.host s.clients;
        untimed = λ n. ap due_of (holds' n) ∙ calmed_due (holds_of s n);
        covered = fall_back_all-Covered o.can_create fs;
        distinct =
            fall_back_all-Unrepeated o.can_create fs
              (cancel_timers-Unrepeated s.surfaces s.eventloop u);
        polled = al₂;
      },
    )
