-- ===== src/Session/Fresh.antt =====
-- What the operations on clients and outputs keep of every output.
use swaylock_plugin.Base.{
  ℕ, ◌≡◌, refl, Bool, true, false, ◌&&◌, ◌||◌, List, [], ◌∷◌, Option, none, some, ◌==◌,
  if◌then◌else◌, Bool-cases, inl, inr, Outcome, returns, exits, aborts, blocks, faults, ◌>>=◌, All,
}
use swaylock_plugin.EventLoop.{Loop, loop_remove_fd}
use swaylock_plugin.Clients.{BgClient, Surface, is_client, resume_all_clients}
use swaylock_plugin.Session.{
  Session, Outside, Note, Start, ClientCall, find_client, find_surface, unlink_surface,
  update_surface, remove_timer, forget_surface, forget_client, cleanup_found, cleanup_client,
  fd_removed, drop_fd, cancel_timers, render_fallback_surface, reply_and_fill, fall_back,
  fall_back_all, show_fallbacks, end_server, setup_clientless_mode,
}
use swaylock_plugin.Session.Commands.{
  own_surface, tie_surface, tie_main, tie_client, insert_client, connect_client, spawned,
  start_command, run_plugin_command,
}
use swaylock_plugin.Session.Outputs.{start_or_fall_back, start_for_output}

-- A result that is returned has the property.
abbrev pub Gives : {A : Type 0} → (A → Type 0) → Outcome A → Type 0
Gives P (returns a) = P a
Gives P (exits n) = Unit
Gives P aborts = Unit
Gives P blocks = Unit
Gives P faults = Unit

pub Gives->>= :
    {A B : Type 0} (P : A → Type 0) (Q : B → Type 0) (m : Outcome A) (f : A → Outcome B)
    → Gives P m
    → ((a : A) → P a → Gives Q (f a))
    → Gives Q (m >>= f)
Gives->>= P Q (returns a) f h k = k a h
Gives->>= P Q (exits n) f h k = tt
Gives->>= P Q aborts f h k = tt
Gives->>= P Q blocks f h k = tt
Gives->>= P Q faults f h k = tt

pub Gives-if :
    {A : Type 0} (P : A → Type 0) (b : Bool) (m n : Outcome A)
    → Gives P m
    → Gives P n
    → Gives P (if b then m else n)
Gives-if P true m n h k = h
Gives-if P false m n h k = k

-- A property of outputs that holds on when they lose their client or their timer, and when what is
-- shown on them changes.
pub record Closed (P : Surface → Type 0) : Type 0 where
  pub no_client : (g : Surface) → P g → P (record g { client = none })
  pub no_timer : (g : Surface) → P g → P (record g { client_submission_timer = none })
  pub shown :
      (g : Surface) (b c d : Bool)
      → P g
      → P (record g { has_buffer = b; has_newer_serial = c; dirty = d })

-- Every output has the property.
abbrev pub Holds : (Surface → Type 0) → Session → Type 0
Holds P s = All P s.surfaces

pub all_update :
    (P Q : Surface → Type 0) (F : Surface → Surface) (n : ℕ) (fs : List Surface)
    → ((g : Surface) → (g.output_global_name == n) ≡ true → P g → Q (F g))
    → ((g : Surface) → (g.output_global_name == n) ≡ false → P g → Q g)
    → All P fs
    → All Q (update_surface n F fs)
unfolding update_surface
all_update P Q F n [] at off h = tt
all_update P Q F n (g ∷ fs) at off (p, h) = elim (Bool-cases (g.output_global_name == n)) [
  | inl e ↦ rw e (at g e p, all_update P Q F n fs at off h)
  | inr e ↦ rw e (off g e p, all_update P Q F n fs at off h)
]

pub all_unlink :
    (P : Surface → Type 0) (n : ℕ) (fs : List Surface) → All P fs → All P (unlink_surface n fs)
unfolding unlink_surface
all_unlink P n [] h = tt
all_unlink P n (g ∷ fs) (p, h) = elim (Bool-cases (g.output_global_name == n)) [
  | inl e ↦ rw e (all_unlink P n fs h)
  | inr e ↦ rw e (p, all_unlink P n fs h)
]

module _ (P : Surface → Type 0) (c : Closed P) where
  forget_surface-Holds :
      (a n : ℕ) (f : Option Surface) (s : Session)
      → Holds P s
      → Gives (Holds P) (forget_surface a n f s)
  unfolding forget_surface
  forget_surface-Holds a n none s h = tt
  forget_surface-Holds a n (some f) s h =
      Gives-if (Holds P) (is_client a f.client) _ _
        (all_update P P (λ g. record g { client = none }) n s.surfaces (λ g e. c.no_client g)
          (λ g e p. p) h)
        tt

  forget_client-Holds :
      (a : ℕ) (u : Option ℕ) (s : Session) → Holds P s → Gives (Holds P) (forget_client a u s)
  unfolding forget_client
  forget_client-Holds a none s h = Gives-if (Holds P) (is_client a s.main_client) _ _ h tt
  forget_client-Holds a (some n) s h = forget_surface-Holds a n (find_surface n s.surfaces) s h

  cleanup_found-Holds :
      (a : ℕ) (b : Option BgClient) (s : Session)
      → Holds P s
      → Gives (Holds P) (cleanup_found a b s)
  unfolding cleanup_found
  cleanup_found-Holds a none s h = tt
  cleanup_found-Holds a (some b) s h = forget_client-Holds a b.unique_output _ h

  pub cleanup_client-Holds :
      (a : ℕ) (s : Session) → Holds P s → Gives (Holds P) (cleanup_client a s)
  unfolding cleanup_client
  cleanup_client-Holds a s h = cleanup_found-Holds a (find_client a s.clients) s h

  cancel_timers-Holds :
      (fs : List Surface) (loop : Loop ℕ ClientCall) → All P fs → All P (cancel_timers fs loop).0
  unfolding cancel_timers
  cancel_timers-Holds [] loop h = tt
  cancel_timers-Holds (f ∷ fs) loop (p, h) =
      (c.no_timer f p, cancel_timers-Holds fs (remove_timer f.client_submission_timer loop) h)

  pick : (b : Bool) (x y : Surface × List Note) → P x.0 → P y.0 → P (if b then x else y).0
  pick true x y p q = p
  pick false x y p q = q

  pub render-Holds : (ok : Bool) (f : Surface) → P f → P (render_fallback_surface ok f).0
  unfolding render_fallback_surface
  render-Holds ok f p = pick ok _ _ (c.shown f true f.has_newer_serial f.dirty p) p

  reply-Holds : (ok : Bool) (f : Surface) → P f → P (reply_and_fill ok f).0
  unfolding reply_and_fill
  reply-Holds ok f p =
      pick f.has_newer_serial _ _
        (render-Holds ok (record f { has_newer_serial = false })
          (c.shown f f.has_buffer false f.dirty p))
        (render-Holds ok f p)

  fall_back-Holds : (ok : Bool) (f : Surface) → P f → P (fall_back ok f).0
  unfolding fall_back
  fall_back-Holds ok f p =
      let g = if f.has_buffer then (f, []) else reply_and_fill ok f in
      pick (f.width == 0 || f.height == 0) _ _ p (
        c.shown g.0 g.0.has_buffer g.0.has_newer_serial true
          (pick f.has_buffer _ _ p (reply-Holds ok f p)))

  fall_back_all-Holds :
      (can : ℕ → Bool) (fs : List Surface) → All P fs → All P (fall_back_all can fs).0
  unfolding fall_back_all
  fall_back_all-Holds can [] h = tt
  fall_back_all-Holds can (f ∷ fs) (p, h) =
      (fall_back-Holds (can f.output_global_name) f p, fall_back_all-Holds can fs h)

  fd_removed-Holds :
      (r : Option (Loop ℕ ClientCall × Bool)) (s : Session)
      → Holds P s
      → Gives (Holds P) (fd_removed r s)
  unfolding fd_removed
  fd_removed-Holds none s h = tt
  fd_removed-Holds (some (loop, found)) s h = h

  drop_fd-Holds : (fd : ℕ) (s : Session) → Holds P s → Gives (Holds P) (drop_fd fd s)
  unfolding drop_fd
  drop_fd-Holds fd s h = fd_removed-Holds (loop_remove_fd s.eventloop fd) s h

  end_server-Holds :
      (b : Bool) (o : Outside) (s : Session) → Holds P s → Gives (Holds P) (end_server b o s)
  unfolding end_server show_fallbacks
  end_server-Holds false o s h = h
  end_server-Holds true o s h =
      let s' = record s {
        clients = (resume_all_clients s.host s.clients).0;
        host = (resume_all_clients s.host s.clients).1;
        surfaces = (cancel_timers s.surfaces s.eventloop).0;
        eventloop = (cancel_timers s.surfaces s.eventloop).1;
      } in
      Gives->>= (Holds P) (Holds P) (drop_fd o.server_fd s') (λ t. returns (show_fallbacks o t))
        (drop_fd-Holds o.server_fd s' (cancel_timers-Holds s.surfaces s.eventloop h))
        (λ t k. fall_back_all-Holds o.can_create t.surfaces k)

  pub setup_clientless_mode-Holds :
      (o : Outside) (s : Session) → Holds P s → Gives (Holds P) (setup_clientless_mode o s)
  unfolding setup_clientless_mode
  setup_clientless_mode-Holds o s h = end_server-Holds s.display o s h

  -- The output may get a client.
  abbrev pub Tieable : Option ℕ → Type 0
  Tieable u =
      (n : ℕ) (g : Surface)
      → u ≡ some n
      → (g.output_global_name == n) ≡ true
      → P g
      → (a : ℕ) → P (record g { client = some a })

  own_surface-Holds :
      (a n : ℕ) (b : Option ℕ) (s : Session)
      → Tieable (some n)
      → Holds P s
      → Gives (Holds P) (own_surface a n b s)
  unfolding own_surface
  own_surface-Holds a n (some b) s t h = tt
  own_surface-Holds a n none s t h =
      all_update P P (λ g. record g { client = some a }) n s.surfaces (λ g e p. t n g refl e p a)
        (λ g e p. p) h

  tie_surface-Holds :
      (a n : ℕ) (f : Option Surface) (s : Session)
      → Tieable (some n)
      → Holds P s
      → Gives (Holds P) (tie_surface a n f s)
  unfolding tie_surface
  tie_surface-Holds a n none s t h = tt
  tie_surface-Holds a n (some f) s t h = own_surface-Holds a n f.client s t h

  tie_main-Holds :
      (a : ℕ) (b : Option ℕ) (s : Session) → Holds P s → Gives (Holds P) (tie_main a b s)
  unfolding tie_main
  tie_main-Holds a (some b) s h = tt
  tie_main-Holds a none s h = h

  tie_client-Holds :
      (a : ℕ) (u : Option ℕ) (s : Session)
      → Tieable u
      → Holds P s
      → Gives (Holds P) (tie_client a u s)
  unfolding tie_client
  tie_client-Holds a (some n) s t h = tie_surface-Holds a n (find_surface n s.surfaces) s t h
  tie_client-Holds a none s t h = tie_main-Holds a s.main_client s h

  abbrev pub HoldsFirst : Session × Bool → Type 0
  HoldsFirst r = Holds P r.0

  connect_client-Holds :
      (x y : Bool) (o : Outside) (a : ℕ) (u : Option ℕ) (pid : ℕ) (s : Session)
      → Tieable u
      → Holds P s
      → Gives HoldsFirst (connect_client x y o.loop_env a u pid s)
  unfolding connect_client insert_client
  connect_client-Holds false y o a u pid s t h = h
  connect_client-Holds true false o a u pid s t h = tt
  connect_client-Holds true true o a u pid s t h =
      Gives->>= (Holds P) HoldsFirst (tie_client a u (insert_client o.loop_env a u pid s))
        (λ v. returns (v, true)) (tie_client-Holds a u (insert_client o.loop_env a u pid s) t h)
        (λ v k. k)

  spawned-Holds :
      (o : Outside) (r : Start) (a : ℕ) (u pid : Option ℕ) (s : Session)
      → Tieable u
      → Holds P s
      → Gives HoldsFirst (spawned o r a u pid s)
  unfolding spawned
  spawned-Holds o r a u none s t h = h
  spawned-Holds o r a u (some pid) s t h =
      connect_client-Holds r.calloc (s.display && r.wl_client_create) o a u pid s t h

  pub run_plugin_command-Holds :
      (o : Outside) (u : Option ℕ) (s : Session)
      → Tieable u
      → Holds P s
      → Gives HoldsFirst (run_plugin_command o u s)
  unfolding run_plugin_command start_command
  run_plugin_command-Holds o u s t h =
      let r = o.run s.starts in
      Gives-if HoldsFirst (r.socketpair && r.set_cloexec) _ _
        (spawned-Holds o r s.starts u r.spawn_command _ t h) h

  pub start_or_fall_back-Holds :
      (o : Outside) (r : Session × Bool) → HoldsFirst r → Gives (Holds P) (start_or_fall_back o r)
  unfolding start_or_fall_back
  start_or_fall_back-Holds o (s, true) h = h
  start_or_fall_back-Holds o (s, false) h = setup_clientless_mode-Holds o s h

  pub start_for_output-Holds :
      (b : Bool) (o : Outside) (n : ℕ) (s : Session)
      → Tieable (some n)
      → Holds P s
      → Gives (Holds P) (start_for_output b o n s)
  unfolding start_for_output
  start_for_output-Holds false o n s t h = h
  start_for_output-Holds true o n s t h =
      Gives->>= HoldsFirst (Holds P) (run_plugin_command o (some n) s) (start_or_fall_back o)
        (run_plugin_command-Holds o (some n) s t h) (start_or_fall_back-Holds o)
