-- ===== src/Session/Created.antt =====
-- The creation of an output keeps the invariant.
use swaylock_plugin.Base.{
  ℕ, suc, ◌≡◌, refl, sym, ap, ◌∙◌, Bool, true, false, not, ◌&&◌, ◌||◌, ◌∷◌, Option, none, some,
  ◌==◌, ==_iff, if◌then◌else◌, arith, Bool-cases, inl, inr, returns, ◌>>=◌, pos, subst,
}
use swaylock_plugin.EventLoop.{Loop, LoopTimer, expiry_after}
use swaylock_plugin.EventLoop.Live.{with_timer, loop_add_timer_runs}
use swaylock_plugin.Clients.{Surface}
use swaylock_plugin.Session.{
  Session, Outside, ClientCall, redraw_call, find_surface, update_surface,
}
use swaylock_plugin.Session.Outputs.{
  arm_submission, start_or_fall_back, mark_created, start_for_output, create_surface, init_found,
  init_surface_if_ready, handle_wl_output_done,
}
use swaylock_plugin.Session.Ties.{Hold, hold, hold_of, mapped, hold-update_surface}
use swaylock_plugin.Session.Names.{
  update_surface-Unrepeated, find_surface-hold_of, find_surface-update,
}
use swaylock_plugin.Session.Linked.{Kept, nothing, client_of, due_of, slot, holds_of}
use swaylock_plugin.Session.Moves.{Linked-ext}
use swaylock_plugin.Session.Joins.{join_redraw}
use swaylock_plugin.Session.Settled.{setup_clientless_mode-Settled}
use swaylock_plugin.Session.Expired.{Aligned-timers}
use swaylock_plugin.Session.Started.{run_plugin_command-Started}
use swaylock_plugin.Session.Told.{Able}

pub same_if : (x : Option Hold) (hit : Bool) → (if hit then mapped (λ h. h) x else x) ≡ x
same_if none true = refl
same_if (some h) true = refl
same_if x false = refl

-- A write to an output that leaves its client and timer keeps the invariant.
pub untied-Kept :
    (f : Surface → Surface)
    → ((g : Surface)
        → ((f g).output_global_name ≡ g.output_global_name) × (hold_of (f g) ≡ hold_of g))
    → (n : ℕ) (s : Session) → Kept nothing s
    → Kept nothing (record s { surfaces = update_surface n f s.surfaces })
untied-Kept f k n s v =
    let same : (m : ℕ) → hold m (update_surface n f s.surfaces) ≡ holds_of s m =
      λ m. hold-update_surface f (λ h. h) k n m s.surfaces ∙ same_if (holds_of s m) (m == n) in
    record {
      linked =
          Linked-ext v.linked (λ b. refl) (λ b. refl)
            (λ u.
              elim u
                as (λ u.
                  slot s.main_client (λ m. hold m (update_surface n f s.surfaces)) u
                  ≡ slot s.main_client (holds_of s) u) [
                    | none ↦ refl
                    | some m ↦ ap client_of (same m)
                  ])
            (λ m. ap due_of (same m)) (λ l. refl) (λ l. refl) s.eventloop.allocs s.starts
            v.linked.order v.linked.unspared v.linked.named;
      awaited = v.awaited;
      distinct = update_surface-Unrepeated f (λ h. h) k n s.surfaces v.distinct;
      entries = v.entries;
      aligned = v.aligned;
    }

pub armed : ℕ → Hold → Hold
armed i h = record h { timer = some i }

pub arm_submission-Kept :
    (o : Outside) (n : ℕ) (h : Hold) (s : Session)
    → o.loop_env.calloc s.eventloop.allocs ≡ true
    → holds_of s n ≡ some h
    → h.timer ≡ none
    → Kept nothing s
    → Kept nothing (arm_submission o n s)
      × (holds_of (arm_submission o n s) n ≡ some (armed s.eventloop.allocs h))
      × ((arm_submission o n s).display ≡ s.display)
unfolding arm_submission armed
arm_submission-Kept o n h s ok held quiet k =
    let i : ℕ = s.eventloop.allocs in
    let put : Loop ℕ ClientCall × Option ℕ → Session = λ r. record s {
      eventloop = r.0;
      surfaces = update_surface n (λ f. record f { client_submission_timer = r.1 }) s.surfaces;
    } in
    let node : LoopTimer ClientCall = record {
      address = i;
      callback = redraw_call n;
      expiry = expiry_after (o.loop_env.clock i) (pos 4000);
      removed = false;
    } in
    let t : Session = put (with_timer o.loop_env s.eventloop (pos 4000) (redraw_call n), some i) in
    let new : (m : ℕ)
        → holds_of t m ≡ (if m == n then mapped (armed i) (holds_of s m) else holds_of s m) =
      λ m.
        hold-update_surface (λ f. record f { client_submission_timer = some i }) (armed i)
          (λ f. (refl, refl)) n m s.surfaces in
    let here : (n == n) ≡ true = (==_iff n n).1 refl in
    let all : Kept nothing t × (holds_of t n ≡ some (armed i h)) × (t.display ≡ s.display) = (
      record {
        linked =
            join_redraw k.linked n h (armed i) node held quiet (λ x. refl) (λ x. refl) refl refl
              refl new;
        awaited = k.awaited;
        distinct =
            update_surface-Unrepeated (λ f. record f { client_submission_timer = some i }) (armed i)
              (λ f. (refl, refl)) n s.surfaces k.distinct;
        entries = k.entries;
        aligned =
            Aligned-timers s.eventloop (node ∷ s.eventloop.timers) (suc i) k.entries k.aligned;
      },
      (new n ∙ rw here refl ∙ ap (mapped (armed i)) held),
      refl,
    ) in
    subst
      (λ (r : Loop ℕ ClientCall × Option ℕ).
        Kept nothing (put r)
        × (holds_of (put r) n ≡ some (armed i h))
        × ((put r).display ≡ s.display))
      (sym (loop_add_timer_runs o.loop_env s.eventloop (pos 4000) (redraw_call n) ok)) all

pub start_or_fall_back-Kept :
    (o : Outside) (s : Session) (b : Bool)
    → Kept nothing s
    → (s' : Session) × (start_or_fall_back o (s, b) ≡ returns s') × Kept nothing s'
unfolding start_or_fall_back
start_or_fall_back-Kept o s true k = (s, refl, k)
start_or_fall_back-Kept o s false k =
    let (s', run, d) = setup_clientless_mode-Settled o nothing s k in (s', run, d.kept)

pub start_for_output-Kept :
    (each : Bool) (o : Outside) (n : ℕ) (h : Hold) (s : Session)
    → Able o
    → (each ≡ true → s.display ≡ true)
    → holds_of s n ≡ some h
    → h.client ≡ none
    → Kept nothing s
    → (s' : Session) × (start_for_output each o n s ≡ returns s') × Kept nothing s'
unfolding start_for_output
start_for_output-Kept false o n h s able on held free k = (s, refl, k)
start_for_output-Kept true o n h s able on held free k =
    let (s₁, b, run, d) =
      run_plugin_command-Started o nothing (some n) s (able.0 s.eventloop.allocs) (able.1 s.starts)
        (on refl) (ap client_of held ∙ free) (h, held) k in
    let (s₂, run₂, k₂) = start_or_fall_back-Kept o s₁ b d.kept in
    (s₂, ap (λ r. r >>= start_or_fall_back o) run ∙ run₂, k₂)

pub create_surface-Kept :
    (o : Outside) (n : ℕ) (h : Hold) (s : Session)
    → Able o
    → (s.plugin_per_output ≡ true → s.display ≡ true)
    → holds_of s n ≡ some h
    → h.client ≡ none
    → h.timer ≡ none
    → Kept nothing s
    → (s' : Session) × (create_surface o n s ≡ returns s') × Kept nothing s'
unfolding create_surface mark_created armed
create_surface-Kept o n h s able on held free quiet k =
    let (k₁, held₁, same) = arm_submission-Kept o n h s (able.0 s.eventloop.allocs) held quiet k in
    let (s₂, run, k₂) =
      start_for_output-Kept s.plugin_per_output o n (armed s.eventloop.allocs h)
        (arm_submission o n s) able (λ e. same ∙ on e) held₁ free k₁ in
    (
      mark_created n s₂,
      ap (λ r. r >>= λ u. returns (mark_created n u)) run,
      untied-Kept (λ f. record f { created = true }) (λ f. (refl, refl)) n s₂ k₂,
    )

pub or_false : (a b : Bool) → (a || b) ≡ false → a ≡ false
or_false a b e = ground arith

-- An output that is not created has neither a client nor a timer.
abbrev pub Ready : Surface → Type 0
Ready f = f.created ≡ false → (f.client ≡ none) × (f.client_submission_timer ≡ none)

pub init_found-Kept :
    (o : Outside) (n : ℕ) (f : Surface) (s : Session)
    → Able o
    → (s.plugin_per_output ≡ true → s.display ≡ true)
    → holds_of s n ≡ some (hold_of f)
    → Ready f
    → Kept nothing s
    → (s' : Session) × (init_found o n (some f) s ≡ returns s') × Kept nothing s'
unfolding init_found
init_found-Kept o n f s able on held ready k = elim (Bool-cases (f.created || not s.run_display)) [
  | inl made ↦ (s, rw made refl, k)
  | inr not_made ↦ elim (Bool-cases f.has_output_done) [
    | inr waits ↦ (s, rw not_made (rw waits refl), k)
    | inl done ↦ elim (Bool-cases (f.color_output && not f.output_desc_current)) [
      | inl waits ↦ (s, rw not_made (rw done (rw waits refl)), k)
      | inr known ↦
          let fresh : f.created ≡ false = or_false f.created (not s.run_display) not_made in
          let (free, quiet) = ready fresh in
          let (s', run, k') = create_surface-Kept o n (hold_of f) s able on held free quiet k in
          (s', rw not_made (rw done (rw known run)), k')
    ]
  ]
]

-- The first `done` of an output, and every later one, returns and keeps the invariant.
pub handle_wl_output_done-Kept :
    (o : Outside) (n : ℕ) (f : Surface) (s : Session)
    → Able o
    → (s.plugin_per_output ≡ true → s.display ≡ true)
    → find_surface n s.surfaces ≡ some f
    → Ready f
    → Kept nothing s
    → (s' : Session) × (handle_wl_output_done o n s ≡ returns s') × Kept nothing s'
unfolding handle_wl_output_done init_surface_if_ready
handle_wl_output_done-Kept o n f s able on found ready k =
    let mark : Surface → Surface = λ g. record g { has_output_done = true } in
    let s₁ : Session = record s { surfaces = update_surface n mark s.surfaces } in
    let found₁ : find_surface n s₁.surfaces ≡ some (mark f) =
      find_surface-update mark (λ g. refl) n s.surfaces f found in
    let (s', run, k') =
      init_found-Kept o n (mark f) s₁ able on (find_surface-hold_of n s₁.surfaces (mark f) found₁)
        ready (untied-Kept mark (λ g. (refl, refl)) n s k) in
    (s', ap (λ x. init_found o n x s₁) found₁ ∙ run, k')
