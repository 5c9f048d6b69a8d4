-- ===== src/Session/Expiries.antt =====
-- The timers of the clients and of the outputs keep the invariant.
use swaylock_plugin.Base.{
  ℕ, ◌≡◌, ◌⊎◌, refl, sym, ap, ◌∙◌, Bool, true, false, List, [], ◌∷◌, Option, none, some, ◌==◌,
  ==_iff, if◌then◌else◌, inl, inr, returns, ◌>>=◌, Option-cases, All,
}
use swaylock_plugin.EventLoop.Live.{live}
use swaylock_plugin.EventLoop.Fds.{Entry}
use swaylock_plugin.EventLoop.Aligned.{Aligned}
use swaylock_plugin.Clients.{Surface, client_for_surface}
use swaylock_plugin.Session.{
  Session, Outside, connect_call, redraw_call, setup_clientless_mode, update_client, update_surface,
  note, destroy_wl_client,
}
use swaylock_plugin.Session.Handlers.{
  client_timeout, connection_found, client_connection_timeout, redraw_failed, redraw_found,
  output_redraw_timeout,
}
use swaylock_plugin.Session.Ties.{
  Tie, Hold, mapped, find_client-tie, find_surface-hold, tie-update_client, hold-update_surface,
}
use swaylock_plugin.Session.Names.{Unrepeated, update_surface-Unrepeated}
use swaylock_plugin.Session.Linked.{
  Linked, Kept, nothing, output_of, timer_of, client_of, due_of, connect_of, redraw_of, ties_of,
  holds_of,
}
use swaylock_plugin.Session.Moves.{cut_connect, cut_redraw}
use swaylock_plugin.Session.Joins.{visited, visited-Below}
use swaylock_plugin.Session.Cleanup.{cleanup_client-Cleaned}
use swaylock_plugin.Session.Cancelled.{calmed}
use swaylock_plugin.Session.Clientless.{Covered}
use swaylock_plugin.Session.Settled.{setup_clientless_mode-Settled, AwaitedBut, Awaited-gone}

-- The record is cleaned up, and the mode is clientless.
pub client_timeout-Settled :
    (o : Outside) (spare : ℕ → Bool) (a : ℕ) (t : Tie) (s : Session) (es : List (Entry ℕ))
    → ties_of s a ≡ some t
    → Linked spare s
    → AwaitedBut a (ties_of s)
    → Unrepeated s.surfaces
    → Aligned s.eventloop es
    → (s' : Session) × (client_timeout o a s ≡ returns s')
      × Kept spare s'
      × (s'.display ≡ false)
      × (s.display ≡ true → All (Covered o.can_create) s'.surfaces)
      × ((b : ℕ) → (b == a) ≡ false → ties_of s' b ≡ ties_of s b)
unfolding client_timeout
client_timeout-Settled o spare a t s es at v w u al =
    let s₀ = note (if s.display then destroy_wl_client a ∷ [] else []) s in
    let (s₁, run, c) = cleanup_client-Cleaned spare a t s₀ at v in
    let k : Kept spare s₁ = record {
      linked = c.linked;
      awaited = Awaited-gone a (ties_of s) (ties_of s₁) c.gone w;
      distinct = c.distinct u;
      entries = es;
      aligned = c.polled es al;
    } in
    let (s₂, run₂, d) = setup_clientless_mode-Settled o spare s₁ k in
    (
      s₂,
      ap (λ r. r >>= setup_clientless_mode o) run ∙ run₂,
      d.kept,
      d.ended,
      (λ on. d.covered (c.same_display ∙ on)),
      λ b other. let g : ties_of s₁ b ≡ ties_of s b = rw other at (c.gone b) in d.same_ties b ∙ g,
    )

pub timer_of-tied :
    (x : Option Tie) (i : ℕ) → timer_of x ≡ some i → (t : Tie) × (x ≡ some t) × (t.timer ≡ some i)
timer_of-tied none i e = cc e
timer_of-tied (some t) i e = (t, refl, e)

pub output_of-tied :
    (x : Option Tie) (u : Option ℕ)
    → output_of x ≡ some u
    → (t : Tie) × (x ≡ some t) × (t.output ≡ u)
output_of-tied none u e = cc e
output_of-tied (some t) u e = (t, refl, cc e)

due_of-held :
    (x : Option Hold) (i : ℕ) → due_of x ≡ some i → (h : Hold) × (x ≡ some h) × (h.timer ≡ some i)
due_of-held none i e = cc e
due_of-held (some h) i e = (h, refl, e)

abbrev hushed : Tie → Tie
hushed t = record t { timer = none }

pub client_connection_timeout-Kept :
    (o : Outside) (i a : ℕ) (s : Session)
    → live s.eventloop.timers i ≡ some (connect_call a)
    → Kept nothing s
    → (s' : Session) × (client_connection_timeout o a s ≡ returns s')
      × Kept (visited i) s'
      × (s'.display ≡ false)
      × (s.display ≡ true → All (Covered o.can_create) s'.surfaces)
      × ((b : ℕ) → (b == a) ≡ false → ties_of s' b ≡ ties_of s b)
unfolding client_connection_timeout connection_found
client_connection_timeout-Kept o i a s at k =
    let due : timer_of (ties_of s a) ≡ some i = (k.linked.connects a i).1 (ap connect_of at) in
    let (t, tied, _) = timer_of-tied (ties_of s a) i due in
    let (c, found, _) = find_client-tie a s.clients t tied in
    let s₁ : Session = record s {
      clients = update_client a (λ d. record d { client_connect_timer = none }) s.clients;
    } in
    let new : (b : ℕ)
        → ties_of s₁ b ≡ (if b == a then mapped hushed (ties_of s b) else ties_of s b) =
      λ b.
        tie-update_client (λ d. record d { client_connect_timer = none }) hushed (λ d. (refl, refl))
          a b s.clients in
    let here : (a == a) ≡ true = (==_iff a a).1 refl in
    let mine : ties_of s₁ a ≡ some (hushed t) = new a ∙ rw here refl ∙ ap (mapped hushed) tied in
    let v : Linked (visited i) s₁ =
      cut_connect k.linked a i hushed due (λ x. refl) (λ x. refl) new (λ l. refl) k.linked.order
        (visited-Below i s.eventloop.allocs s.eventloop.timers (connect_call a) k.linked.order
          at) in
    let w : AwaitedBut a (ties_of s₁) = λ b x other e.
      let g : ties_of s₁ b ≡ ties_of s b = rw other at (new b) in k.awaited b x (sym g ∙ e) in
    let (s₂, run, kept, ended, covered, others) =
      client_timeout-Settled o (visited i) a (hushed t) s₁ k.entries mine v w k.distinct
        k.aligned in
    (
      s₂,
      ap (λ x. connection_found o a x s) found ∙ run,
      kept,
      ended,
      covered,
      λ b other. let g : ties_of s₁ b ≡ ties_of s b = rw other at (new b) in others b other ∙ g,
    )

-- The client that a late output is for is that of the output or the main one.
owner_for :
    (f : Surface) (main own : Option ℕ)
    → f.client ≡ own
    → (a : ℕ) → client_for_surface main f ≡ some a
    → (own ≡ some a) ⊎ (main ≡ some a)
unfolding client_for_surface
owner_for f main own e a h = elim (Option-cases f.client) [
  | inl none_there ↦ inr (rw none_there at h)
  | inr (b, there) ↦
      let g : Path (Option ℕ) (some b) (some a) = rw there at h in inl (sym e ∙ there ∙ g)
]

redraw_failed-Kept :
    (o : Outside) (spare : ℕ → Bool) (n : ℕ) (late : Option ℕ) (s : Session)
    → Kept spare s
    → ((a : ℕ) → late ≡ some a → (client_of (holds_of s n) ≡ some a) ⊎ (s.main_client ≡ some a))
    → (s' : Session) × (redraw_failed o late s ≡ returns s') × Kept spare s'
unfolding redraw_failed
redraw_failed-Kept o spare n none s k owner = (s, refl, k)
redraw_failed-Kept o spare n (some a) s k owner =
    let tied : (t : Tie) × (ties_of s a ≡ some t) = elim (owner a refl) [
      | inl own ↦
          let (t, e, _) =
            output_of-tied (ties_of s a) (some n) ((k.linked.owners (some n) a).0 own) in
          (t, e)
      | inr main ↦
          let (t, e, _) = output_of-tied (ties_of s a) none ((k.linked.owners none a).0 main) in
          (t, e)
    ] in
    let (s₂, run, kept, _, _, _) =
      client_timeout-Settled o spare a tied.0 s k.entries tied.1 k.linked
        (λ b t other. k.awaited b t) k.distinct k.aligned in
    (s₂, run, kept)

pub output_redraw_timeout-Kept :
    (o : Outside) (i n : ℕ) (s : Session)
    → live s.eventloop.timers i ≡ some (redraw_call n)
    → Kept nothing s
    → (s' : Session) × (output_redraw_timeout o n s ≡ returns s') × Kept (visited i) s'
unfolding output_redraw_timeout redraw_found
output_redraw_timeout-Kept o i n s at k =
    let due : due_of (holds_of s n) ≡ some i = (k.linked.redraws n i).1 (ap redraw_of at) in
    let (h, held, _) = due_of-held (holds_of s n) i due in
    let (f, found, fh) = find_surface-hold n s.surfaces h held in
    let s₁ : Session = record s {
      surfaces = update_surface n (λ g. record g { client_submission_timer = none }) s.surfaces;
    } in
    let new : (m : ℕ)
        → holds_of s₁ m ≡ (if m == n then mapped calmed (holds_of s m) else holds_of s m) =
      λ m.
        hold-update_surface (λ g. record g { client_submission_timer = none }) calmed
          (λ g. (refl, refl)) n m s.surfaces in
    let v : Linked (visited i) s₁ =
      cut_redraw k.linked n i calmed due (λ x. refl) (λ x. refl) new (λ l. refl) k.linked.order
        (visited-Below i s.eventloop.allocs s.eventloop.timers (redraw_call n) k.linked.order at) in
    let k₁ : Kept (visited i) s₁ = record {
      linked = v;
      awaited = k.awaited;
      distinct =
          update_surface-Unrepeated (λ g. record g { client_submission_timer = none }) calmed
            (λ g. (refl, refl)) n s.surfaces k.distinct;
      entries = k.entries;
      aligned = k.aligned;
    } in
    let mine : f.client ≡ client_of (holds_of s₁ n) =
      (let here : (n == n) ≡ true = (==_iff n n).1 refl in
        let g : holds_of s₁ n ≡ some (calmed h) = new n ∙ rw here refl ∙ ap (mapped calmed) held in
        ap (λ (x : Hold). x.client) fh ∙ sym (ap client_of g)) in
    let (s₂, run, kept) =
      redraw_failed-Kept o (visited i) n (client_for_surface s.main_client f) s₁ k₁
        (owner_for f s.main_client (client_of (holds_of s₁ n)) mine) in
    (s₂, ap (λ x. redraw_found o n x s) found ∙ run, kept)
