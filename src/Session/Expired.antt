-- ===== src/Session/Expired.antt =====
-- Every timer that expires keeps the invariant.
use swaylock_plugin.Base.{
  ◌==◌, ℕ, ◌≡◌, refl, sym, ap, ◌∙◌, Bool, true, false, List, Option, none, some, inl, inr, returns,
  ◌>>=◌, All, pos, subst, Option-cases,
}
use swaylock_plugin.EventLoop.{Loop, LoopTimer, expiry_after}
use swaylock_plugin.EventLoop.Live.{live, with_timer, loop_add_timer_runs}
use swaylock_plugin.EventLoop.Freed.{free_timer}
use swaylock_plugin.EventLoop.Fds.{Entry}
use swaylock_plugin.EventLoop.Aligned.{Aligned}
use swaylock_plugin.Clients.{check_clients}
use swaylock_plugin.Session.{
  Session, Outside, ClientCall, connect_call, redraw_call, hidden_call, other_call,
}
use swaylock_plugin.Session.Handlers.{
  arm_if, arm_hidden_check, hidden_check_timeout, call_back, expire,
}
use swaylock_plugin.Session.Ties.{Tie, tie, tie-check_clients}
use swaylock_plugin.Session.Linked.{Linked, Kept, nothing, connect_of, output_of, timer_of, ties_of}
use swaylock_plugin.Session.Moves.{Linked-ext}
use swaylock_plugin.Session.Joins.{visited, visit_other, free_visited, join_other}
use swaylock_plugin.Session.Clientless.{Covered}
use swaylock_plugin.Session.Expiries.{client_connection_timeout-Kept, output_redraw_timeout-Kept}

-- A timer more or a node less changes nothing of the descriptors.
pub Aligned-timers :
    (loop : Loop ℕ ClientCall) (ts : List (LoopTimer ClientCall)) (n : ℕ) (es : List (Entry ℕ))
    → Aligned loop es
    → Aligned (record loop { timers = ts; allocs = n }) es
Aligned-timers loop ts n es al = record {
  unused = al.unused;
  table = al.table;
  list = al.list;
  count = al.count;
  capacity = al.capacity;
}

arm_if-Kept :
    (on : Bool) (o : Outside) (spare : ℕ → Bool) (s : Session)
    → o.loop_env.calloc s.eventloop.allocs ≡ true
    → Kept spare s
    → Kept spare (arm_if on o s)
unfolding arm_if
arm_if-Kept false o spare s ok k = k
arm_if-Kept true o spare s ok k =
    let added = with_timer o.loop_env s.eventloop (pos 1000) hidden_call in
    let run = loop_add_timer_runs o.loop_env s.eventloop (pos 1000) hidden_call ok in
    let s' : Session = record s {
      eventloop = added;
      hidden_check_timer = some s.eventloop.allocs;
    } in
    let kept : Kept spare s' = record {
      linked =
          join_other k.linked
            (record {
              address = s.eventloop.allocs;
              callback = hidden_call;
              expiry = expiry_after (o.loop_env.clock s.eventloop.allocs) (pos 1000);
              removed = false;
            })
            refl refl refl refl;
      awaited = k.awaited;
      distinct = k.distinct;
      entries = k.entries;
      aligned = Aligned-timers s.eventloop _ _ k.entries k.aligned;
    } in
    subst
      (λ (r : Loop ℕ ClientCall × Option ℕ).
        Kept spare (record s { eventloop = r.0; hidden_check_timer = r.1 }))
      (sym run) kept

pub arm_hidden_check-Kept :
    (o : Outside) (spare : ℕ → Bool) (s : Session)
    → o.loop_env.calloc s.eventloop.allocs ≡ true
    → Kept spare s
    → Kept spare (arm_hidden_check o s)
unfolding arm_hidden_check
arm_hidden_check-Kept o spare s ok k = arm_if-Kept s.pause_when_hidden o spare s ok k

hidden_check_timeout-Kept :
    (o : Outside) (i : ℕ) (s : Session)
    → o.loop_env.calloc s.eventloop.allocs ≡ true
    → live s.eventloop.timers i ≡ some hidden_call
    → Kept nothing s
    → Kept (visited i) (hidden_check_timeout o s)
unfolding hidden_check_timeout
hidden_check_timeout-Kept o i s ok at k =
    let (cs, host) =
      check_clients o.clock s.hidden_timeout_ms s.main_client s.surfaces s.host s.clients in
    let same : (b : ℕ) → tie b cs ≡ ties_of s b = λ b.
      tie-check_clients b o.clock s.hidden_timeout_ms s.main_client s.surfaces s.host s.clients in
    let v : Linked (visited i) s = visit_other i hidden_call at refl refl k.linked in
    let s₁ : Session = record s { clients = cs; host = host; hidden_check_timer = none } in
    arm_hidden_check-Kept o (visited i) s₁ ok (record {
      linked =
          Linked-ext v (λ b. ap output_of (same b)) (λ b. ap timer_of (same b)) (λ u. refl)
            (λ n. refl) (λ l. refl) (λ l. refl) s.eventloop.allocs s.starts v.order v.unspared
            (λ b le. same b ∙ v.named b le);
      awaited = λ a t e. k.awaited a t (sym (same a) ∙ e);
      distinct = k.distinct;
      entries = k.entries;
      aligned = k.aligned;
    })

-- The node of a callback that has returned is freed.
abbrev pub freed : ℕ → Session → Session
freed i s = record s { eventloop = record s.eventloop { timers = free_timer i s.eventloop.timers } }

pub freed-Kept : (i : ℕ) (s : Session) → Kept (visited i) s → Kept nothing (freed i s)
freed-Kept i s k = record {
  linked = free_visited i k.linked;
  awaited = k.awaited;
  distinct = k.distinct;
  entries = k.entries;
  aligned = Aligned-timers s.eventloop _ s.eventloop.allocs k.entries k.aligned;
}

call_back-Kept :
    (o : Outside) (i : ℕ) (c : ClientCall) (s : Session)
    → o.loop_env.calloc s.eventloop.allocs ≡ true
    → live s.eventloop.timers i ≡ some c
    → Kept nothing s
    → (s' : Session) × (call_back o c s ≡ returns s') × Kept (visited i) s'
unfolding call_back
call_back-Kept o i (connect_call a) s ok at k =
    let (s', run, kept, _, _, _) = client_connection_timeout-Kept o i a s at k in (s', run, kept)
call_back-Kept o i (redraw_call n) s ok at k = output_redraw_timeout-Kept o i n s at k
call_back-Kept o i hidden_call s ok at k =
    (hidden_check_timeout o s, refl, hidden_check_timeout-Kept o i s ok at k)
call_back-Kept o i (other_call m) s ok at k = (
  s,
  refl,
  record {
    linked = visit_other i (other_call m) at refl refl k.linked;
    awaited = k.awaited;
    distinct = k.distinct;
    entries = k.entries;
    aligned = k.aligned;
  },
)

-- A timer of the loop that expires finds its records, and keeps the invariant.
pub expire-Kept :
    (o : Outside) (i : ℕ) (c : ClientCall) (s : Session)
    → o.loop_env.calloc s.eventloop.allocs ≡ true
    → live s.eventloop.timers i ≡ some c
    → Kept nothing s
    → (s' : Session) × (expire o i c s ≡ returns s') × Kept nothing s'
unfolding expire
expire-Kept o i c s ok at k =
    let (s', run, kept) = call_back-Kept o i c s ok at k in
    (freed i s', ap (λ r. r >>= λ u. returns (freed i u)) run, freed-Kept i s' kept)

connect_of_only :
    (c : Option ClientCall) (a : ℕ) → connect_of c ≡ some a → c ≡ some (connect_call a)
connect_of_only none a e = cc e
connect_of_only (some (connect_call b)) a e =
    let ba : b ≡ a = cc e in ap (λ x. some (connect_call x)) ba
connect_of_only (some (redraw_call n)) a e = cc e
connect_of_only (some hidden_call) a e = cc e
connect_of_only (some (other_call m)) a e = cc e

-- In a state with that invariant, a client that has not made a registry while the nested server
-- stands has a timer in the loop whose expiry returns with the nested server ended and the
-- invariant kept, and then every output of positive size has a buffer if its fallback buffer can
-- be made, and the other clients have records with the same pid, output, registry and timer as
-- before.
pub expire_clientless :
    (o : Outside) (a : ℕ) (t : Tie) (s : Session)
    → ties_of s a ≡ some t
    → t.registry ≡ false
    → s.display ≡ true
    → Kept nothing s
    → (i : ℕ) × (live s.eventloop.timers i ≡ some (connect_call a))
      × ((s' : Session) × (expire o i (connect_call a) s ≡ returns s')
          × Kept nothing s'
          × (s'.display ≡ false)
          × All (Covered o.can_create) s'.surfaces
          × ((b : ℕ) → (b == a) ≡ false → ties_of s' b ≡ ties_of s b))
unfolding expire call_back
expire_clientless o a t s tied silent on k = elim (Option-cases t.timer) [
  | inl gone ↦ absurd (k.awaited a t tied silent gone)
  | inr (i, armed) ↦
      let rung : connect_of (live s.eventloop.timers i) ≡ some a =
        (k.linked.connects a i).0 (ap timer_of tied ∙ armed) in
      let at : live s.eventloop.timers i ≡ some (connect_call a) =
        connect_of_only (live s.eventloop.timers i) a rung in
      let (s', run, kept, ended, covered, others) = client_connection_timeout-Kept o i a s at k in
      (
        i,
        at,
        (
          freed i s',
          ap (λ r. r >>= λ u. returns (freed i u)) run,
          freed-Kept i s' kept,
          ended,
          covered on,
          others,
        ),
      )
]
