-- ===== src/Session/Framed.antt =====
-- A configure, a frame and a presentation of an output keep the invariant.
use swaylock_plugin.Base.{
  ℕ, ◌≡◌, refl, sym, ap, ◌∙◌, Bool, true, false, not, ◌&&◌, ◌||◌, [], ◌∷◌, ◌++◌, Option, none, some,
  ◌==◌, if◌then◌else◌, Bool-cases, inl, inr, ◌⊎◌, returns, arith,
}
use swaylock_plugin.EventLoop.{Timespec}
use swaylock_plugin.Clients.{Surface, Host, set_client_paused, client_for_surface}
use swaylock_plugin.Session.{
  Session, Outside, find_surface, update_client, update_surface, remove_timer,
  render_fallback_surface, note, commit_frame,
}
use swaylock_plugin.Session.Frames.{
  never_sized, take_size, is_unarmed, arm_after, configure_found, configure_surface, await_frame,
  acknowledge, ack_notes, show_frame, frame_found, nested_frame, resume_found,
  resume_client_for_surface, presented_found, bg_frame_handle_done,
}
use swaylock_plugin.Session.Ties.{
  Tie, Hold, hold, hold_of, mapped, find_client-tie, tie-update_client, hold-update_surface,
  same_but_paused,
}
use swaylock_plugin.Session.Names.{find_surface-hold_of, update_surface-Unrepeated}
use swaylock_plugin.Session.Linked.{
  LinkedAt, Kept, nothing, client_of, due_of, output_of, timer_of, slot, ties_of, holds_of,
}
use swaylock_plugin.Session.Moves.{Linked-ext}
use swaylock_plugin.Session.Cleanup.{Aligned-remove_timer}
use swaylock_plugin.Session.Cancelled.{calmed, calm_if, stop_redraw_timer}
use swaylock_plugin.Session.Expiries.{output_of-tied}
use swaylock_plugin.Session.Created.{untied-Kept, arm_submission-Kept, same_if}

-- A write keeps the name and the ties of an output.
abbrev pub Untied : (Surface → Surface) → Type 0
Untied f =
    (g : Surface) → ((f g).output_global_name ≡ g.output_global_name) × (hold_of (f g) ≡ hold_of g)

render-Untied : (can : Bool) → Untied (λ g. (render_fallback_surface can g).0)
unfolding render_fallback_surface
render-Untied true g = (refl, refl)
render-Untied false g = (refl, refl)

pub take_size-Untied :
    (display can : Bool) (serial width height : ℕ)
    → Untied (λ g. (take_size display can serial width height g).0)
unfolding take_size
take_size-Untied true can serial width height g = (refl, refl)
take_size-Untied false can serial width height g = render-Untied can (record g {
  width = width;
  height = height;
  newest_serial = serial;
  dirty = true;
  has_newer_serial = false;
})

unarmed : (t : Option ℕ) → is_unarmed t ≡ true → t ≡ none
unfolding is_unarmed
unarmed none e = refl
unarmed (some t) e = cc e

last_true : (a b : Bool) → (a && b) ≡ true → b ≡ true
last_true a b e = ground arith

arm_after-Kept :
    (on : Bool) (o : Outside) (n : ℕ) (h : Hold) (s : Session)
    → o.loop_env.calloc s.eventloop.allocs ≡ true
    → holds_of s n ≡ some h
    → (on ≡ true → h.timer ≡ none)
    → Kept nothing s
    → Kept nothing (arm_after on o n s)
unfolding arm_after
arm_after-Kept false o n h s ok held quiet k = k
arm_after-Kept true o n h s ok held quiet k = (arm_submission-Kept o n h s ok held (quiet refl) k).0

pub configure_surface-Kept :
    (o : Outside) (n serial width height : ℕ) (f : Surface) (s : Session)
    → o.loop_env.calloc s.eventloop.allocs ≡ true
    → find_surface n s.surfaces ≡ some f
    → Kept nothing s
    → (s' : Session) × (configure_surface o n serial width height s ≡ returns s') × Kept nothing s'
unfolding configure_surface configure_found
configure_surface-Kept o n serial width height f s ok found k =
    let take : Surface → Surface =
      λ g. (take_size s.display (o.can_create n) serial width height g).0 in
    let notes = (take_size s.display (o.can_create n) serial width height f).1 in
    let u : Session = record s { surfaces = update_surface n take s.surfaces } in
    let same = take_size-Untied s.display (o.can_create n) serial width height in
    let v = untied-Kept take same n s k in
    let held : holds_of u n ≡ some (hold_of f) =
      hold-update_surface take (λ h. h) same n n s.surfaces
      ∙ same_if (holds_of s n) (n == n)
      ∙ find_surface-hold_of n s.surfaces f found in
    let resized = not (f.width == width) || not (f.height == height) in
    let on = resized && not (never_sized f) && is_unarmed f.client_submission_timer in
    let kept : Kept nothing (note notes u) = record {
      linked = v.linked;
      awaited = v.awaited;
      distinct = v.distinct;
      entries = v.entries;
      aligned = v.aligned;
    } in
    (
      arm_after on o n (note notes u),
      ap (λ x. configure_found o n serial width height x s) found,
      arm_after-Kept on o n (hold_of f) (note notes u) ok held
          (λ e. unarmed f.client_submission_timer (last_true _ _ e)) kept,
    )

pub show_frame-calmed :
    (ack : Option ℕ) (now : Option Timespec) (g : Surface)
    → ((show_frame ack now g).output_global_name ≡ g.output_global_name)
      × (hold_of (show_frame ack now g) ≡ calmed (hold_of g))
unfolding show_frame acknowledge await_frame
show_frame-calmed none none g = (refl, refl)
show_frame-calmed none (some t) g = ground arith
show_frame-calmed (some a) none g = ground arith
show_frame-calmed (some a) (some t) g = ground arith

pub nested_frame-Kept :
    (n : ℕ) (ack : Option ℕ) (now : Option Timespec) (f : Surface) (s : Session)
    → find_surface n s.surfaces ≡ some f
    → Kept nothing s
    → (s' : Session) × (nested_frame n ack now s ≡ returns s')
      × Kept nothing s'
      × (s'.display ≡ s.display)
unfolding nested_frame frame_found
nested_frame-Kept n ack now f s found k =
    let timer = f.client_submission_timer in
    let due : due_of (holds_of s n) ≡ timer =
      ap due_of (find_surface-hold_of n s.surfaces f found) in
    let v : LinkedAt nothing (ties_of s) s.main_client (λ m. calm_if (m == n) (holds_of s m))
        (remove_timer timer s.eventloop).timers (remove_timer timer s.eventloop).allocs s.starts =
      stop_redraw_timer n timer s.eventloop due k.linked in
    let shown = update_surface n (show_frame ack now) s.surfaces in
    let calm : (m : ℕ) → hold m shown ≡ calm_if (m == n) (holds_of s m) = λ m.
      hold-update_surface (show_frame ack now) calmed (show_frame-calmed ack now) n m s.surfaces in
    (
      note (ack_notes n ack ++ commit_frame n ∷ [])
          (record s { surfaces = shown; eventloop = remove_timer timer s.eventloop }),
      ap (λ x. frame_found n ack now x s) found,
      record {
        linked =
            Linked-ext v (λ b. refl) (λ b. refl)
              (λ u.
                elim u
                  as (λ u.
                    slot s.main_client (λ m. hold m shown) u
                    ≡ slot s.main_client (λ m. calm_if (m == n) (holds_of s m)) u) [
                      | none ↦ refl
                      | some m ↦ ap client_of (calm m)
                    ])
              (λ m. ap due_of (calm m)) (λ l. refl) (λ l. refl)
              (remove_timer timer s.eventloop).allocs s.starts v.order v.unspared v.named;
        awaited = k.awaited;
        distinct =
            update_surface-Unrepeated (show_frame ack now) calmed (show_frame-calmed ack now) n
              s.surfaces k.distinct;
        entries = k.entries;
        aligned = Aligned-remove_timer timer s.eventloop k.entries k.aligned;
      },
      refl,
    )

same_tie : (x : Option Tie) (hit : Bool) → (if hit then mapped (λ t. t) x else x) ≡ x
same_tie none true = refl
same_tie (some t) true = refl
same_tie x false = refl

resumed-Kept :
    (a : ℕ) (host host' : Host) (s : Session)
    → Kept nothing s
    → Kept nothing (record s {
      host = host';
      clients = update_client a (λ d. (set_client_paused host d false).0) s.clients;
    })
resumed-Kept a host host' s k =
    let same : (b : ℕ)
        → ties_of
            (record s {
              host = host';
              clients = update_client a (λ d. (set_client_paused host d false).0) s.clients;
            })
            b
          ≡ ties_of s b =
      λ b.
        tie-update_client (λ d. (set_client_paused host d false).0) (λ t. t)
          (λ c. same_but_paused host c false) a b s.clients
        ∙ same_tie (ties_of s b) (b == a) in
    record {
      linked =
          Linked-ext k.linked (λ b. ap output_of (same b)) (λ b. ap timer_of (same b)) (λ u. refl)
            (λ m. refl) (λ l. refl) (λ l. refl) s.eventloop.allocs s.starts k.linked.order
            k.linked.unspared (λ b le. same b ∙ k.linked.named b le);
      awaited = λ b t e. k.awaited b t (sym (same b) ∙ e);
      distinct = k.distinct;
      entries = k.entries;
      aligned = k.aligned;
    }

resume-Kept :
    (c u : Option ℕ) (s : Session)
    → (c ≡ none) ⊎ (slot s.main_client (holds_of s) u ≡ c)
    → Kept nothing s
    → (s' : Session) × (resume_client_for_surface c s ≡ returns s') × Kept nothing s'
unfolding resume_client_for_surface resume_found
resume-Kept none u s own k = (s, refl, k)
resume-Kept (some a) u s (inl e) k = cc e
resume-Kept (some a) u s (inr own) k =
    let (t, tied, out) = output_of-tied (ties_of s a) u ((k.linked.owners u a).0 own) in
    let (c, found, is) = find_client-tie a s.clients t tied in
    elim (Bool-cases c.paused) [
      | inl held ↦ (
        record s {
          host = (set_client_paused s.host c false).1;
          clients = update_client a (λ d. (set_client_paused s.host d false).0) s.clients;
        },
        ap (λ x. resume_found a x s) found ∙ simp held,
        resumed-Kept a s.host (set_client_paused s.host c false).1 s k,
      )
      | inr going ↦ (s, ap (λ x. resume_found a x s) found ∙ simp going, k)
    ]

-- The client of an output is its own or the main one.
shown_by :
    (s : Session) (n : ℕ) (f : Surface) (c : Option ℕ)
    → f.client ≡ c
    → client_of (holds_of s n) ≡ c
    → (u : Option ℕ) × (slot s.main_client (holds_of s) u ≡ client_for_surface s.main_client f)
unfolding client_for_surface
shown_by s n f none is own = (none, rw is refl)
shown_by s n f (some a) is own = (some n, rw is own)

pub bg_frame_handle_done-Kept :
    (n : ℕ) (now : Timespec) (f : Surface) (s : Session)
    → find_surface n s.surfaces ≡ some f
    → Kept nothing s
    → (s' : Session) × (bg_frame_handle_done n now s ≡ returns s') × Kept nothing s'
unfolding bg_frame_handle_done presented_found
bg_frame_handle_done-Kept n now f s found k =
    let mark : Surface → Surface = λ g. record g { frame_pending = false; frame_last_done = now } in
    let same : Untied mark = λ g. (refl, refl) in
    let u : Session = record s { surfaces = update_surface n mark s.surfaces } in
    let held : holds_of u n ≡ some (hold_of f) =
      hold-update_surface mark (λ h. h) same n n s.surfaces
      ∙ same_if (holds_of s n) (n == n)
      ∙ find_surface-hold_of n s.surfaces f found in
    let (o, own) = shown_by u n f f.client refl (ap client_of held) in
    let (s', run, k') =
      resume-Kept (client_for_surface s.main_client f) o u (inr own)
        (untied-Kept mark same n s k) in
    (s', ap (λ x. presented_found n now x s) found ∙ run, k')
