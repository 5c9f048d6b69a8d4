-- ===== src/Session/Started.antt =====
-- A start of the background command keeps the invariant.
use swaylock_plugin.Base.{
  ℕ, suc, ◌≡◌, refl, sym, ap, ◌∙◌, Bool, true, false, ◌&&◌, ◌∷◌, Option, none, some, ◌==◌,
  if◌then◌else◌, arith, Bool-cases, inl, inr, returns, ◌>>=◌, pos, subst,
}
use swaylock_plugin.EventLoop.{Env, Loop, LoopTimer, expiry_after}
use swaylock_plugin.EventLoop.Live.{with_timer, loop_add_timer_runs}
use swaylock_plugin.Clients.{BgClient}
use swaylock_plugin.Session.{Session, Outside, Start, ClientCall, connect_call}
use swaylock_plugin.Session.Commands.{
  tie_client, insert_client, connect_client, spawned, start_command, run_plugin_command,
}
use swaylock_plugin.Session.Ties.{Tie, tie, tie_of}
use swaylock_plugin.Session.Linked.{LinkedAt, Kept, slot, ties_of, holds_of}
use swaylock_plugin.Session.Moves.{Linked-ext}
use swaylock_plugin.Session.Joins.{join_client}
use swaylock_plugin.Session.Expired.{Aligned-timers}
use swaylock_plugin.Session.Tied.{Present, tie_client-Tied}

-- What a start of the command does: it may fail, but keeps all.
pub record Started (spare : ℕ → Bool) (s s' : Session) : Type 0 where
  pub kept : Kept spare s'
  pub same_display : s'.display ≡ s.display
  pub present : (n : ℕ) → Present (some n) s.surfaces → Present (some n) s'.surfaces

failed-Started :
    (spare : ℕ → Bool) (s : Session)
    → Kept spare s
    → Started spare s (record s { starts = suc s.starts })
failed-Started spare s k = record {
  kept = record {
    linked =
        Linked-ext k.linked (λ b. refl) (λ b. refl) (λ u. refl) (λ n. refl) (λ l. refl) (λ l. refl)
          s.eventloop.allocs (suc s.starts) k.linked.order k.linked.unspared
          (λ b le. k.linked.named b (omega (arith, le)));
    awaited = k.awaited;
    distinct = k.distinct;
    entries = k.entries;
    aligned = k.aligned;
  };
  same_display = refl;
  present = λ n p. p;
}

flipped :
    (a b : ℕ) (t : Tie) (x : Option Tie)
    → (if a == b then some t else x) ≡ (if b == a then some t else x)
flipped a b t x = ground arith

insert_client-Started :
    (env : Env) (spare : ℕ → Bool) (o : Option ℕ) (pid : ℕ) (s : Session)
    → env.calloc s.eventloop.allocs ≡ true
    → slot s.main_client (holds_of s) o ≡ none
    → Present o s.surfaces
    → Kept spare s
    → (s' : Session) × (tie_client s.starts o
          (insert_client env s.starts o pid (record s { starts = suc s.starts }))
        ≡ returns s')
      × Started spare s s'
unfolding insert_client
insert_client-Started env spare o pid s ok free here k =
    let a : ℕ = s.starts in
    let i : ℕ = s.eventloop.allocs in
    let client : Option ℕ → BgClient = λ timer. record {
      address = a;
      pid = pid;
      paused = false;
      unique_output = o;
      made_a_registry = false;
      client_connect_timer = timer;
    } in
    let inserted : Loop ℕ ClientCall × Option ℕ → Session =
      λ r. record s { clients = client r.1 ∷ s.clients; eventloop = r.0; starts = suc a } in
    let added : Loop ℕ ClientCall = with_timer env s.eventloop (pos 2500) (connect_call a) in
    let node : LoopTimer ClientCall = record {
      address = i;
      callback = connect_call a;
      expiry = expiry_after (env.clock i) (pos 2500);
      removed = false;
    } in
    let s₁ : Session = inserted (added, some i) in
    let (s', run, d) = tie_client-Tied a o s₁ free here in
    let unnamed : ties_of s a ≡ none = k.linked.named a (omega arith) in
    let new : (b : ℕ)
        → ties_of s' b ≡ (if b == a then some (tie_of (client (some i))) else ties_of s b) =
      λ b. ap (tie b) d.same_clients ∙ flipped a b (tie_of (client (some i))) (ties_of s b) in
    let v : LinkedAt spare (ties_of s') s'.main_client (holds_of s') (node ∷ s.eventloop.timers)
        (suc i) (suc a) =
      join_client k.linked a o (tie_of (client (some i))) node unnamed free refl refl refl refl refl
        new d.slots d.dues
        (λ b le.
          let other : (b == a) ≡ false = ground arith in
          new b ∙ rw other (k.linked.named b (omega (arith, le)))) in
    let all : (s' : Session) × (tie_client a o s₁ ≡ returns s') × Started spare s s' = (
      s',
      run,
      record {
        kept = record {
          linked = rw (d.same_loop, d.same_starts) v;
          awaited = λ b t e silent. elim (Bool-cases (b == a)) [
            | inl q ↦
                let g : ties_of s' b ≡ some (tie_of (client (some i))) = rw q at (new b) in
                let same : tie_of (client (some i)) ≡ t = cc (g, e) in
                λ gone.
                  let f : Path (Option ℕ) (some i) none = ap (λ (x : Tie). x.timer) same ∙ gone in
                  cc f
            | inr q ↦
                let g : ties_of s' b ≡ ties_of s b = rw q at (new b) in
                k.awaited b t (sym g ∙ e) silent
          ];
          distinct = d.distinct k.distinct;
          entries = k.entries;
          aligned =
              rw d.same_loop (
                Aligned-timers s.eventloop (node ∷ s.eventloop.timers) (suc i) k.entries k.aligned);
        };
        same_display = d.same_display;
        present = d.present;
      },
    ) in
    subst
      (λ (r : Loop ℕ ClientCall × Option ℕ).
        (s' : Session) × (tie_client a o (inserted r) ≡ returns s') × Started spare s s')
      (sym (loop_add_timer_runs env s.eventloop (pos 2500) (connect_call a) ok)) all

connect_client-Started :
    (allocated : Bool) (env : Env) (spare : ℕ → Bool) (u : Option ℕ) (pid : ℕ) (s : Session)
    → env.calloc s.eventloop.allocs ≡ true
    → slot s.main_client (holds_of s) u ≡ none
    → Present u s.surfaces
    → Kept spare s
    → (s' : Session) × (b : Bool) × (connect_client allocated true env s.starts u pid
          (record s { starts = suc s.starts })
        ≡ returns (s', b))
      × Started spare s s'
unfolding connect_client
connect_client-Started false env spare u pid s ok free here k =
    (record s { starts = suc s.starts }, false, refl, failed-Started spare s k)
connect_client-Started true env spare u pid s ok free here k =
    let (s', run, d) = insert_client-Started env spare u pid s ok free here k in
    (s', true, ap (λ r. r >>= λ t. returns (t, true)) run, d)

spawned-Started :
    (o : Outside) (r : Start) (spare : ℕ → Bool) (u child : Option ℕ) (s : Session)
    → o.loop_env.calloc s.eventloop.allocs ≡ true
    → r.wl_client_create ≡ true
    → s.display ≡ true
    → slot s.main_client (holds_of s) u ≡ none
    → Present u s.surfaces
    → Kept spare s
    → (s' : Session) × (b : Bool) × (spawned o r s.starts u child
          (record s { starts = suc s.starts })
        ≡ returns (s', b))
      × Started spare s s'
unfolding spawned
spawned-Started o r spare u none s ok can on free here k =
    (record s { starts = suc s.starts }, false, refl, failed-Started spare s k)
spawned-Started o r spare u (some pid) s ok can on free here k =
    let (s', b, run, d) = connect_client-Started r.calloc o.loop_env spare u pid s ok free here k in
    let made : (s.display && r.wl_client_create) ≡ true = ground arith in
    (
      s',
      b,
      ap
            (λ m.
              connect_client r.calloc m o.loop_env s.starts u pid
                (record s { starts = suc s.starts }))
            made
          ∙ run,
      d,
    )

-- From the descriptors on.
start_command-Started :
    (o : Outside) (r : Start) (spare : ℕ → Bool) (u : Option ℕ) (s : Session)
    → o.loop_env.calloc s.eventloop.allocs ≡ true
    → r.wl_client_create ≡ true
    → s.display ≡ true
    → slot s.main_client (holds_of s) u ≡ none
    → Present u s.surfaces
    → Kept spare s
    → (s' : Session) × (b : Bool) × (start_command o r s.starts u
          (record s { starts = suc s.starts })
        ≡ returns (s', b))
      × Started spare s s'
unfolding start_command spawned
start_command-Started o r spare u s ok can on free here k =
    let s₁ : Session = record s { starts = suc s.starts } in
    elim (Bool-cases (r.socketpair && r.set_cloexec)) [
      | inr e ↦ (s₁, false, rw e refl, failed-Started spare s k)
      | inl e ↦
          let (s', b, run, d) =
            spawned-Started o r spare u r.spawn_command s ok can on free here k in
          (s', b, rw e run, d)
    ]

-- While the nested server stands, a start of the command succeeds or fails, and keeps the invariant.
pub run_plugin_command-Started :
    (o : Outside) (spare : ℕ → Bool) (u : Option ℕ) (s : Session)
    → o.loop_env.calloc s.eventloop.allocs ≡ true
    → (o.run s.starts).wl_client_create ≡ true
    → s.display ≡ true
    → slot s.main_client (holds_of s) u ≡ none
    → Present u s.surfaces
    → Kept spare s
    → (s' : Session) × (b : Bool) × (run_plugin_command o u s ≡ returns (s', b))
      × Started spare s s'
unfolding run_plugin_command
run_plugin_command-Started o spare u s = start_command-Started o (o.run s.starts) spare u s
