-- ===== src/Session/Cleanup.antt =====
-- What `cleanup_client` does to a state with the invariant.
use swaylock_plugin.Base.{
  ℕ, ◌≡◌, refl, sym, ap, ◌∙◌, Bool, true, false, List, Option, none, some, ◌==◌, ==_iff,
  if◌then◌else◌, returns,
}
use swaylock_plugin.EventLoop.{Loop, loop_remove_timer}
use swaylock_plugin.EventLoop.Fds.{Entry}
use swaylock_plugin.EventLoop.Aligned.{Aligned, loop_remove_timer-Aligned}
use swaylock_plugin.Clients.{set_client_paused, is_client}
use swaylock_plugin.Session.{
  Session, ClientCall, cleanup_client, cleanup_found, forget_client, forget_surface, remove_timer,
  unlink_client, update_surface,
}
use swaylock_plugin.Session.Ties.{
  Tie, tie, Hold, hold, mapped, find_client-tie, find_surface-hold, tie-unlink_client,
  hold-update_surface,
}
use swaylock_plugin.Session.Names.{Unrepeated, update_surface-Unrepeated}
use swaylock_plugin.Session.Linked.{
  LinkedAt, Linked, output_of, timer_of, client_of, due_of, slot, same_slot, same_slot_iff, ties_of,
  holds_of,
}
use swaylock_plugin.Session.Moves.{cut_client}
use swaylock_plugin.Session.Stopped.{
  stopped_ties, mapped_quiet, same_output, quiet_if, stop_client_timer,
}

-- What `forget_client` changes.
pub record Forgot (a : ℕ) (o : Option ℕ) (s s' : Session) : Type 0 where
  pub slots :
      (u : Option ℕ)
      → slot s'.main_client (holds_of s') u
        ≡ (if same_slot u o then none else slot s.main_client (holds_of s) u)
  pub dues : (n : ℕ) → due_of (holds_of s' n) ≡ due_of (holds_of s n)
  pub present : (n : ℕ) → holds_of s' n ≡ none → holds_of s n ≡ none
  pub same_clients : s'.clients ≡ s.clients
  pub same_loop : s'.eventloop ≡ s.eventloop
  pub same_display : s'.display ≡ s.display
  pub same_starts : s'.starts ≡ s.starts
  pub distinct : Unrepeated s.surfaces → Unrepeated s'.surfaces

is_client_itself : (a : ℕ) (o : Option ℕ) → o ≡ some a → is_client a o ≡ true
unfolding is_client
is_client_itself a none h = cc h
is_client_itself a (some b) h = let e : b ≡ a = cc h in (==_iff b a).1 e

abbrev disowned : Hold → Hold
disowned h = record h { client = none }

pub client_of-held :
    (o : Option Hold) (a : ℕ)
    → client_of o ≡ some a
    → (h : Hold) × (o ≡ some h) × (h.client ≡ some a)
client_of-held none a e = cc e
client_of-held (some h) a e = (h, refl, e)

disowned_slot :
    (o : Option Hold) (hit : Bool)
    → client_of (if hit then mapped disowned o else o) ≡ (if hit then none else client_of o)
disowned_slot none true = refl
disowned_slot (some h) true = refl
disowned_slot o false = refl

disowned_due :
    (o : Option Hold) (hit : Bool) → due_of (if hit then mapped disowned o else o) ≡ due_of o
disowned_due none true = refl
disowned_due (some h) true = refl
disowned_due o false = refl

disowned-none :
    (o : Option Hold) (hit : Bool) → (if hit then mapped disowned o else o) ≡ none → o ≡ none
disowned-none none true e = refl
disowned-none (some h) true e = cc e
disowned-none o false e = e

forget_client-Forgot :
    (a : ℕ) (o : Option ℕ) (s : Session)
    → slot s.main_client (holds_of s) o ≡ some a
    → (s' : Session) × (forget_client a o s ≡ returns s') × Forgot a o s s'
unfolding forget_client forget_surface
forget_client-Forgot a none s at = (
  record s { main_client = none },
  rw (is_client_itself a s.main_client at) refl,
  record {
    slots = λ u.
        elim u
          as (λ u.
            slot none (holds_of s) u
            ≡ (if same_slot u none then none else slot s.main_client (holds_of s) u)) [
              | none ↦ refl
              | some n ↦ refl
            ];
    dues = λ n. refl;
    present = λ n e. e;
    same_clients = refl;
    same_loop = refl;
    same_display = refl;
    same_starts = refl;
    distinct = λ u. u;
  },
)
forget_client-Forgot a (some n) s at =
    let (h, held, hc) = client_of-held (holds_of s n) a at in
    let (f, found, fh) = find_surface-hold n s.surfaces h held in
    let fc : f.client ≡ some a = ap (λ (k : Hold). k.client) fh ∙ hc in
    let upd : (m : ℕ)
        → hold m (update_surface n (λ g. record g { client = none }) s.surfaces)
          ≡ (if m == n then mapped disowned (hold m s.surfaces) else hold m s.surfaces) =
      λ m.
        hold-update_surface (λ g. record g { client = none }) disowned (λ g. (refl, refl)) n m
          s.surfaces in
    (
      record s { surfaces = update_surface n (λ g. record g { client = none }) s.surfaces },
      ap (λ o. forget_surface a n o s) found ∙ rw (is_client_itself a f.client fc) refl,
      record {
        slots = λ u.
            elim u
              as (λ u.
                slot s.main_client
                  (λ m. hold m (update_surface n (λ g. record g { client = none }) s.surfaces)) u
                ≡ (if same_slot u (some n) then none else slot s.main_client (holds_of s) u)) [
                  | none ↦ refl
                  | some m ↦ ap client_of (upd m) ∙ disowned_slot (hold m s.surfaces) (m == n)
                ];
        dues = λ m. ap due_of (upd m) ∙ disowned_due (hold m s.surfaces) (m == n);
        present = λ m e. disowned-none (hold m s.surfaces) (m == n) (sym (upd m) ∙ e);
        same_clients = refl;
        same_loop = refl;
        same_display = refl;
        same_starts = refl;
        distinct =
            update_surface-Unrepeated (λ g. record g { client = none }) disowned (λ g. (refl, refl))
              n s.surfaces;
      },
    )

-- What `cleanup_client` leaves.
pub record Cleaned (spare : ℕ → Bool) (a : ℕ) (o : Option ℕ) (s s' : Session) : Type 0 where
  pub linked : Linked spare s'
  pub gone : (b : ℕ) → ties_of s' b ≡ (if b == a then none else ties_of s b)
  pub vacant : slot s'.main_client (holds_of s') o ≡ none
  pub dues : (n : ℕ) → due_of (holds_of s' n) ≡ due_of (holds_of s n)
  pub present : (n : ℕ) → holds_of s' n ≡ none → holds_of s n ≡ none
  pub polled : (es : List (Entry ℕ)) → Aligned s.eventloop es → Aligned s'.eventloop es
  pub same_display : s'.display ≡ s.display
  pub same_starts : s'.starts ≡ s.starts
  pub distinct : Unrepeated s.surfaces → Unrepeated s'.surfaces

pub Aligned-remove_timer :
    (o : Option ℕ) (loop : Loop ℕ ClientCall) (es : List (Entry ℕ))
    → Aligned loop es
    → Aligned (remove_timer o loop) es
unfolding remove_timer
Aligned-remove_timer none loop es al = al
Aligned-remove_timer (some i) loop es al = loop_remove_timer-Aligned loop i es al

pub remove_timer_allocs :
    (o : Option ℕ) (loop : Loop ℕ ClientCall) → (remove_timer o loop).allocs ≡ loop.allocs
unfolding remove_timer loop_remove_timer
remove_timer_allocs none loop = refl
remove_timer_allocs (some i) loop = refl

gone_stopped :
    (o : Option Tie) (hit : Bool)
    → (if hit then none else o) ≡ (if hit then none else quiet_if hit o)
gone_stopped o true = refl
gone_stopped o false = refl

pub cleanup_client-Cleaned :
    (spare : ℕ → Bool) (a : ℕ) (t : Tie) (s : Session)
    → ties_of s a ≡ some t
    → Linked spare s
    → (s' : Session) × (cleanup_client a s ≡ returns s') × Cleaned spare a t.output s s'
unfolding cleanup_client cleanup_found
cleanup_client-Cleaned spare a t s at v =
    let (c, found, ct) = find_client-tie a s.clients t at in
    let o : Option ℕ = c.unique_output in
    let ot : o ≡ t.output = ap (λ (x : Tie). x.output) ct in
    let it : timer_of (ties_of s a) ≡ c.client_connect_timer =
      ap timer_of at ∙ sym (ap (λ (x : Tie). x.timer) ct) in
    let out : output_of (ties_of s a) ≡ some o = ap output_of at ∙ ap some (sym ot) in
    let s₁ : Session = record s {
      host = (set_client_paused s.host c false).1;
      clients = unlink_client a s.clients;
      eventloop = remove_timer c.client_connect_timer s.eventloop;
    } in
    let (s', run, fg) = forget_client-Forgot a o s₁ ((v.owners o a).1 out) in
    let gone : (b : ℕ) → ties_of s' b ≡ (if b == a then none else ties_of s b) =
      λ b. ap (tie b) fg.same_clients ∙ tie-unlink_client a b s.clients in
    let stopped : LinkedAt spare (stopped_ties a (ties_of s)) s.main_client (holds_of s)
        (remove_timer c.client_connect_timer s.eventloop).timers s.eventloop.allocs s.starts =
      stop_client_timer a c.client_connect_timer s.eventloop it v in
    let here : (a == a) ≡ true = (==_iff a a).1 refl in
    let cut : LinkedAt spare (ties_of s') s'.main_client (holds_of s')
        (remove_timer c.client_connect_timer s.eventloop).timers s.eventloop.allocs s.starts =
      cut_client stopped a o (same_output (ties_of s a) (a == a) ∙ out)
        (rw here (mapped_quiet (ties_of s a))) (λ b. gone b ∙ gone_stopped (ties_of s b) (b == a))
        fg.slots fg.dues in
    (
      s',
      ap (λ x. cleanup_found a x s) found ∙ run,
      record {
        linked =
            rw
              (fg.same_loop, fg.same_starts, remove_timer_allocs c.client_connect_timer s.eventloop)
              cut;
        gone = gone;
        vacant =
            ap (slot s'.main_client (holds_of s')) (sym ot)
            ∙ fg.slots o
            ∙ rw ((same_slot_iff o o).1 refl) refl;
        dues = fg.dues;
        present = fg.present;
        polled = λ es al.
            rw fg.same_loop (Aligned-remove_timer c.client_connect_timer s.eventloop es al);
        same_display = fg.same_display;
        same_starts = fg.same_starts;
        distinct = fg.distinct;
      },
    )
