-- ===== src/Session/Told.antt =====
-- What a client does to its record keeps the invariant.
use swaylock_plugin.Base.{
  ℕ, ◌≡◌, refl, sym, ap, ◌∙◌, Bool, true, false, Option, none, some, ◌==◌, ==_iff, if◌then◌else◌,
  Bool-cases, inl, inr, returns, ◌>>=◌, Option-cases,
}
use swaylock_plugin.Session.{Session, Outside, update_client, remove_timer}
use swaylock_plugin.Session.Commands.{
  registry_made, client_resource_create, mark_clientless, restart_client, destroyed_found,
  client_destroyed,
}
use swaylock_plugin.Session.Ties.{Tie, mapped, find_client-tie, tie-update_client}
use swaylock_plugin.Session.Linked.{
  LinkedAt, Kept, nothing, output_of, timer_of, client_of, slot, ties_of, holds_of,
}
use swaylock_plugin.Session.Moves.{Linked-ext}
use swaylock_plugin.Session.Stopped.{stopped_ties, stop_client_timer}
use swaylock_plugin.Session.Cleanup.{
  cleanup_client-Cleaned, Aligned-remove_timer, remove_timer_allocs,
}
use swaylock_plugin.Session.Settled.{Awaited-gone}
use swaylock_plugin.Session.Tied.{Present}
use swaylock_plugin.Session.Started.{run_plugin_command-Started}

-- Allocations of timers succeed, and the nested server can make clients.
abbrev pub Able : Outside → Type 0
Able o = ((n : ℕ) → o.loop_env.calloc n ≡ true) × ((n : ℕ) → (o.run n).wl_client_create ≡ true)

abbrev pub registered : Tie → Tie
registered t = record t { registry = true; timer = none }

pub registered_output :
    (x : Option Tie) (hit : Bool)
    → output_of (if hit then mapped registered x else x)
      ≡ output_of (if hit then mapped (λ t. record t { timer = none }) x else x)
registered_output none true = refl
registered_output (some t) true = refl
registered_output x false = refl

pub registered_timer :
    (x : Option Tie) (hit : Bool)
    → timer_of (if hit then mapped registered x else x)
      ≡ timer_of (if hit then mapped (λ t. record t { timer = none }) x else x)
registered_timer none true = refl
registered_timer (some t) true = refl
registered_timer x false = refl

pub registered-none :
    (hit : Bool) (x : Option Tie) → x ≡ none → (if hit then mapped registered x else x) ≡ none
registered-none true x e = ap (mapped registered) e
registered-none false x e = e

pub registered_answer :
    (x : Option Tie) (t : Tie) → mapped registered x ≡ some t → t.registry ≡ true
registered_answer none t e = cc e
registered_answer (some u) t e =
    let f : registered u ≡ t = cc e in sym (ap (λ (y : Tie). y.registry) f)

pub client_resource_create-Kept :
    (a : ℕ) (t : Tie) (s : Session)
    → ties_of s a ≡ some t
    → Kept nothing s
    → (s' : Session) × (client_resource_create a a s ≡ returns s')
      × Kept nothing s'
      × (s'.display ≡ s.display)
unfolding client_resource_create registry_made
client_resource_create-Kept a t s tied k =
    let (c, found, ct) = find_client-tie a s.clients t tied in
    let s' : Session = record s {
      clients =
          update_client a (λ d. record d { made_a_registry = true; client_connect_timer = none })
            s.clients;
      eventloop = remove_timer c.client_connect_timer s.eventloop;
    } in
    let new : (b : ℕ)
        → ties_of s' b ≡ (if b == a then mapped registered (ties_of s b) else ties_of s b) =
      λ b.
        tie-update_client (λ d. record d { made_a_registry = true; client_connect_timer = none })
          registered (λ d. (refl, refl)) a b s.clients in
    let at : timer_of (ties_of s a) ≡ c.client_connect_timer =
      ap timer_of tied ∙ sym (ap (λ (x : Tie). x.timer) ct) in
    let v : LinkedAt nothing (stopped_ties a (ties_of s)) s.main_client (holds_of s)
        (remove_timer c.client_connect_timer s.eventloop).timers s.eventloop.allocs s.starts =
      stop_client_timer a c.client_connect_timer s.eventloop at k.linked in
    let here : (a == a) ≡ true = (==_iff a a).1 refl in
    (
      s',
      rw here (ap (λ x. registry_made a x s) found),
      record {
        linked =
            Linked-ext v (λ b. ap output_of (new b) ∙ registered_output (ties_of s b) (b == a))
              (λ b. ap timer_of (new b) ∙ registered_timer (ties_of s b) (b == a)) (λ u. refl)
              (λ n. refl) (λ l. refl) (λ l. refl) s'.eventloop.allocs s.starts
              (rw (remove_timer_allocs c.client_connect_timer s.eventloop) v.order) (λ l le. refl)
              (λ b le. new b ∙ registered-none (b == a) (ties_of s b) (k.linked.named b le));
        awaited = λ b u e silent. elim (Bool-cases (b == a)) [
          | inl q ↦
              let g : ties_of s' b ≡ mapped registered (ties_of s b) = rw q at (new b) in
              let r : u.registry ≡ true = registered_answer (ties_of s b) u (sym g ∙ e) in
              cc (r, silent)
          | inr q ↦
              let g : ties_of s' b ≡ ties_of s b = rw q at (new b) in
              k.awaited b u (sym g ∙ e) silent
        ];
        distinct = k.distinct;
        entries = k.entries;
        aligned = Aligned-remove_timer c.client_connect_timer s.eventloop k.entries k.aligned;
      },
      refl,
    )

-- The mark for the clientless mode ties nothing.
pub flagged-Kept :
    (spare : ℕ → Bool) (s : Session)
    → Kept spare s
    → Kept spare (record s { start_clientless_mode = true })
flagged-Kept spare s k = record {
  linked = k.linked;
  awaited = k.awaited;
  distinct = k.distinct;
  entries = k.entries;
  aligned = k.aligned;
}

pub mark_clientless-Kept :
    (s : Session) (b : Bool)
    → Kept nothing s
    → Kept nothing (mark_clientless (s, b)) × ((mark_clientless (s, b)).display ≡ s.display)
unfolding mark_clientless
mark_clientless-Kept s true k = (k, refl)
mark_clientless-Kept s false k = (flagged-Kept nothing s k, refl)

pub restart_client-Kept :
    (o : Outside) (made : Bool) (u : Option ℕ) (s : Session)
    → Able o
    → s.display ≡ true
    → slot s.main_client (holds_of s) u ≡ none
    → Present u s.surfaces
    → Kept nothing s
    → (s' : Session) × (restart_client o made u s ≡ returns s')
      × Kept nothing s'
      × (s'.display ≡ true)
unfolding restart_client
restart_client-Kept o false u s able on free here k =
    (record s { start_clientless_mode = true }, refl, flagged-Kept nothing s k, on)
restart_client-Kept o true u s able on free here k =
    let (s₁, b, run, d) =
      run_plugin_command-Started o nothing u s (able.0 s.eventloop.allocs) (able.1 s.starts) on free
        here k in
    let (kept, same) = mark_clientless-Kept s₁ b d.kept in
    (
      mark_clientless (s₁, b),
      ap (λ r. r >>= λ x. returns (mark_clientless x)) run,
      kept,
      same ∙ d.same_display ∙ on,
    )

pub still_there :
    (u : Option ℕ) (a : ℕ) (s s' : Session)
    → slot s.main_client (holds_of s) u ≡ some a
    → ((n : ℕ) → holds_of s' n ≡ none → holds_of s n ≡ none)
    → Present u s'.surfaces
still_there none a s s' at keep = tt
still_there (some n) a s s' at keep = elim (Option-cases (holds_of s' n)) [
  | inl gone ↦
      let none_there : client_of (holds_of s n) ≡ none = ap client_of (keep n gone) in
      cc (none_there, at)
  | inr there ↦ there
]

pub client_destroyed-Kept :
    (o : Outside) (a : ℕ) (t : Tie) (s : Session)
    → Able o
    → s.display ≡ true
    → ties_of s a ≡ some t
    → Kept nothing s
    → (s' : Session) × (client_destroyed o a a s ≡ returns s')
      × Kept nothing s'
      × (s'.display ≡ true)
unfolding client_destroyed destroyed_found
client_destroyed-Kept o a t s able on tied k =
    let (c, found, ct) = find_client-tie a s.clients t tied in
    let (s₁, run, d) = cleanup_client-Cleaned nothing a t s tied k.linked in
    let ot : t.output ≡ c.unique_output = sym (ap (λ (x : Tie). x.output) ct) in
    let k₁ : Kept nothing s₁ = record {
      linked = d.linked;
      awaited = Awaited-gone a (ties_of s) (ties_of s₁) d.gone (λ b u other. k.awaited b u);
      distinct = d.distinct k.distinct;
      entries = k.entries;
      aligned = d.polled k.entries k.aligned;
    } in
    let owner : slot s.main_client (holds_of s) t.output ≡ some a =
      (k.linked.owners t.output a).1 (ap output_of tied) in
    let (s₂, run₂, kept, shown) =
      restart_client-Kept o c.made_a_registry t.output s₁ able (d.same_display ∙ on) d.vacant
        (still_there t.output a s s₁ owner d.present) k₁ in
    let here : (a == a) ≡ true = (==_iff a a).1 refl in
    (
      s₂,
      (rw here (ap (λ x. destroyed_found o a x s) found)
          ∙ ap (λ r. r >>= restart_client o c.made_a_registry c.unique_output) run
          ∙ ap (λ u. restart_client o c.made_a_registry u s₁) (sym ot)
          ∙ run₂),
      kept,
      shown,
    )
