-- ===== src/Session/Appeared.antt =====
-- Outputs that come, become ready and go keep the invariant.
use swaylock_plugin.Base.{
  ℕ, ◌≡◌, refl, sym, ap, ◌∙◌, Bool, true, false, [], ◌∷◌, Option, none, some, ◌==◌, ==_iff,
  if◌then◌else◌, Bool-cases, inl, inr, ◌⊎◌, returns, ◌>>=◌, Outcome, Option-cases,
}
use swaylock_plugin.Clients.{Surface}
use swaylock_plugin.Session.{
  Session, find_surface, unlink_surface, remove_timer, note, destroy_wl_client, send_closed,
  remove_output,
}
use swaylock_plugin.Session.Outputs.{
  add_output, drop_client, drop_output, destroy_found, handle_global_remove,
}
use swaylock_plugin.Session.Ties.{Hold, hold, hold_of, hold-unlink_surface}
use swaylock_plugin.Session.Names.{unlink_surface-Unrepeated, find_surface-hold_of}
use swaylock_plugin.Session.Linked.{
  LinkedAt, Kept, nothing, client_of, due_of, slot, ties_of, holds_of,
}
use swaylock_plugin.Session.Moves.{Linked-ext}
use swaylock_plugin.Session.Cleanup.{cleanup_client-Cleaned, Aligned-remove_timer}
use swaylock_plugin.Session.Cancelled.{calm_if, stop_redraw_timer}
use swaylock_plugin.Session.Settled.{Awaited-gone}
use swaylock_plugin.Session.Expiries.{output_of-tied}

pub add_output-Kept :
    (n : ℕ) (color : Bool) (s : Session)
    → holds_of s n ≡ none
    → Kept nothing s
    → Kept nothing (add_output n color s)
unfolding add_output
add_output-Kept n color s new k = record {
  linked =
      Linked-ext k.linked (λ b. refl) (λ b. refl)
        (λ u.
          elim u
            as (λ u.
              slot s.main_client (holds_of (add_output n color s)) u
              ≡ slot s.main_client (holds_of s) u) [
                | none ↦ refl
                | some m ↦ elim (Bool-cases (n == m)) [
                  | inl e ↦
                      let nm : n ≡ m = (==_iff n m).0 e in
                      rw e (sym (ap (λ x. client_of (holds_of s x)) (sym nm) ∙ ap client_of new))
                  | inr e ↦ rw e refl
                ]
              ])
        (λ m. elim (Bool-cases (n == m)) [
          | inl e ↦
              let nm : n ≡ m = (==_iff n m).0 e in
              rw e (sym (ap (λ x. due_of (holds_of s x)) (sym nm) ∙ ap due_of new))
          | inr e ↦ rw e refl
        ])
        (λ l. refl) (λ l. refl) s.eventloop.allocs s.starts k.linked.order k.linked.unspared
        k.linked.named;
  awaited = k.awaited;
  distinct = (new, k.distinct);
  entries = k.entries;
  aligned = k.aligned;
}

drop_client-Kept :
    (display : Bool) (n : ℕ) (c : Option ℕ) (s : Session)
    → (c ≡ none) ⊎ (display ≡ true)
    → client_of (holds_of s n) ≡ c
    → Kept nothing s
    → (s' : Session) × (drop_client display c s ≡ returns s')
      × Kept nothing s'
      × (client_of (holds_of s' n) ≡ none)
      × (due_of (holds_of s' n) ≡ due_of (holds_of s n))
unfolding drop_client
drop_client-Kept display n none s may own k = (s, refl, k, own, refl)
drop_client-Kept true n (some a) s may own k =
    let (t, tied, out) =
      output_of-tied (ties_of s a) (some n) ((k.linked.owners (some n) a).0 own) in
    let (s₁, run, d) =
      cleanup_client-Cleaned nothing a t (note (destroy_wl_client a ∷ []) s) tied k.linked in
    (
      s₁,
      run,
      record {
        linked = d.linked;
        awaited = Awaited-gone a (ties_of s) (ties_of s₁) d.gone (λ b u other. k.awaited b u);
        distinct = d.distinct k.distinct;
        entries = k.entries;
        aligned = d.polled k.entries k.aligned;
      },
      ap (slot s₁.main_client (holds_of s₁)) (sym out) ∙ d.vacant,
      d.dues n,
    )
drop_client-Kept false n (some a) s (inl e) own k = cc e
drop_client-Kept false n (some a) s (inr e) own k = cc e

drop_output-Kept :
    (display : Bool) (n : ℕ) (shown : Bool) (s : Session)
    → (shown ≡ false) ⊎ (display ≡ true)
    → Kept nothing s
    → (s' : Session) × (drop_output display n shown s ≡ returns s')
      × Kept nothing s'
      × (holds_of s' n ≡ holds_of s n)
unfolding drop_output
drop_output-Kept display n false s may k = (s, refl, k, refl)
drop_output-Kept true n true s may k = (
  note (remove_output n ∷ []) s,
  refl,
  record {
    linked = k.linked;
    awaited = k.awaited;
    distinct = k.distinct;
    entries = k.entries;
    aligned = k.aligned;
  },
  refl,
)
drop_output-Kept false n true s (inl e) k = cc e
drop_output-Kept false n true s (inr e) k = cc e

gone_client :
    (x : Option Hold) (hit : Bool)
    → (hit ≡ true → client_of x ≡ none)
    → client_of (if hit then none else x) ≡ client_of (calm_if hit x)
gone_client none true e = refl
gone_client (some h) true e = sym (e refl)
gone_client x false e = refl

gone_due :
    (x : Option Hold) (hit : Bool) → due_of (if hit then none else x) ≡ due_of (calm_if hit x)
gone_due none true = refl
gone_due (some h) true = refl
gone_due x false = refl

-- An output goes whose record is tied to nothing but its timer.
unlinked-Kept :
    (n : ℕ) (timer : Option ℕ) (s : Session)
    → client_of (holds_of s n) ≡ none
    → due_of (holds_of s n) ≡ timer
    → Kept nothing s
    → Kept nothing (record s {
      eventloop = remove_timer timer s.eventloop;
      surfaces = unlink_surface n s.surfaces;
    })
unlinked-Kept n timer s free due k =
    let v : LinkedAt nothing (ties_of s) s.main_client (λ m. calm_if (m == n) (holds_of s m))
        (remove_timer timer s.eventloop).timers (remove_timer timer s.eventloop).allocs s.starts =
      stop_redraw_timer n timer s.eventloop due k.linked in
    let gone : (m : ℕ)
        → hold m (unlink_surface n s.surfaces) ≡ (if m == n then none else holds_of s m) =
      λ m. hold-unlink_surface n m s.surfaces in
    let free_at : (m : ℕ) → (m == n) ≡ true → client_of (holds_of s m) ≡ none =
      λ m e. let mn : m ≡ n = (==_iff m n).0 e in ap (λ x. client_of (holds_of s x)) mn ∙ free in
    record {
      linked =
          Linked-ext v (λ b. refl) (λ b. refl)
            (λ u.
              elim u
                as (λ u.
                  slot s.main_client (λ m. hold m (unlink_surface n s.surfaces)) u
                  ≡ slot s.main_client (λ m. calm_if (m == n) (holds_of s m)) u) [
                    | none ↦ refl
                    | some m ↦
                        ap client_of (gone m) ∙ gone_client (holds_of s m) (m == n) (free_at m)
                  ])
            (λ m. ap due_of (gone m) ∙ gone_due (holds_of s m) (m == n)) (λ l. refl) (λ l. refl)
            (remove_timer timer s.eventloop).allocs s.starts v.order v.unspared v.named;
      awaited = k.awaited;
      distinct = unlink_surface-Unrepeated n s.surfaces k.distinct;
      entries = k.entries;
      aligned = Aligned-remove_timer timer s.eventloop k.entries k.aligned;
    }

-- What the nested server still has of an output can be taken back.
abbrev pub Removable : Surface → Session → Type 0
Removable f s = ((f.client ≡ none) × (f.nested_server_output ≡ false)) ⊎ (s.display ≡ true)

destroy_found-Kept :
    (n : ℕ) (f : Surface) (s : Session)
    → holds_of s n ≡ some (hold_of f)
    → Removable f s
    → Kept nothing s
    → (s' : Session) × (destroy_found n (some f) s ≡ returns s') × Kept nothing s'
unfolding destroy_found
destroy_found-Kept n f s held may k =
    let t : Session = note (if f.plugin_surface then send_closed n ∷ [] else []) s in
    let kt : Kept nothing t = record {
      linked = k.linked;
      awaited = k.awaited;
      distinct = k.distinct;
      entries = k.entries;
      aligned = k.aligned;
    } in
    let may_client : (f.client ≡ none) ⊎ (s.display ≡ true) = elim may [
      | inl (c, _) ↦ inl c
      | inr d ↦ inr d
    ] in
    let may_output : (f.nested_server_output ≡ false) ⊎ (s.display ≡ true) = elim may [
      | inl (_, c) ↦ inl c
      | inr d ↦ inr d
    ] in
    let (s₁, run₁, k₁, free₁, due₁) =
      drop_client-Kept s.display n f.client t may_client (ap client_of held) kt in
    let (s₂, run₂, k₂, same₂) =
      drop_output-Kept s.display n f.nested_server_output s₁ may_output k₁ in
    let last : Session → Outcome Session = λ u. returns (record u {
      eventloop = remove_timer f.client_submission_timer u.eventloop;
      surfaces = unlink_surface n u.surfaces;
    }) in
    (
      record s₂ {
        eventloop = remove_timer f.client_submission_timer s₂.eventloop;
        surfaces = unlink_surface n s₂.surfaces;
      },
      (ap (λ r. r >>= drop_output s.display n f.nested_server_output >>= last) run₁
          ∙ ap (λ r. r >>= last) run₂),
      unlinked-Kept n f.client_submission_timer s₂ (ap client_of same₂ ∙ free₁)
          (ap due_of same₂ ∙ due₁ ∙ ap due_of held) k₂,
    )

-- The loss of an output.
pub handle_global_remove-Kept :
    (n : ℕ) (s : Session)
    → ((f : Surface) → find_surface n s.surfaces ≡ some f → Removable f s)
    → Kept nothing s
    → (s' : Session) × (handle_global_remove n s ≡ returns s') × Kept nothing s'
unfolding handle_global_remove destroy_found
handle_global_remove-Kept n s may k = elim (Option-cases (find_surface n s.surfaces)) [
  | inl absent ↦ (s, ap (λ x. destroy_found n x s) absent, k)
  | inr (f, found) ↦
      let (s', run, k') =
        destroy_found-Kept n f s (find_surface-hold_of n s.surfaces f found) (may f found) k in
      (s', ap (λ x. destroy_found n x s) found ∙ run, k')
]
