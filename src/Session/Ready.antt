-- ===== src/Session/Ready.antt =====
-- An output that is not created has neither a client nor a timer: what the operations do to that.
use swaylock_plugin.Base.{
  ℕ, ◌≡◌, refl, sym, ap, ◌∙◌, subst, Bool, true, false, not, ◌&&◌, ◌||◌, List, [], ◌∷◌, Option,
  none, some, ◌==◌, ==_iff, arith, if◌then◌else◌, Bool-cases, inl, inr, Outcome, returns, ◌>>=◌,
  All,
}
use swaylock_plugin.Clients.{Surface}
use swaylock_plugin.Session.{
  Session, Outside, find_surface, update_surface, unlink_surface, remove_timer, note,
  destroy_wl_client, send_closed,
}
use swaylock_plugin.Session.Outputs.{
  arm_submission, mark_created, start_for_output, create_surface, init_found, init_surface_if_ready,
  handle_wl_output_done, drop_client, drop_output, destroy_found, handle_global_remove,
}
use swaylock_plugin.Session.Ties.{Hold, hold, hold_of}
use swaylock_plugin.Session.Names.{Unrepeated}
use swaylock_plugin.Session.Linked.{Kept, nothing}
use swaylock_plugin.Session.Created.{Ready}
use swaylock_plugin.Session.Fresh.{
  Gives, Gives->>=, Gives-if, Closed, Holds, Tieable, all_update, all_unlink, cleanup_client-Holds,
  start_for_output-Holds,
}

pub Ready-Closed : Closed Ready
Ready-Closed = record {
  no_client = λ g r e. (refl, (r e).1);
  no_timer = λ g r e. ((r e).0, refl);
  shown = λ g b c d r. r;
}

-- The same of every output but the one of the name.
abbrev pub Spared : ℕ → Surface → Type 0
Spared n f = (f.output_global_name == n) ≡ false → Ready f

pub Spared-Closed : (n : ℕ) → Closed (Spared n)
Spared-Closed n = record {
  no_client = λ g r d e. (refl, (r d e).1);
  no_timer = λ g r d e. ((r d e).0, refl);
  shown = λ g b c d r. r;
}

-- The same of every output, of which the one of the name is created.
abbrev pub Made : ℕ → Surface → Type 0
Made n f = (f.output_global_name == n) ≡ true → f.created ≡ true

abbrev pub ReadyMade : ℕ → Surface → Type 0
ReadyMade n f = Ready f × Made n f

pub ReadyMade-Closed : (n : ℕ) → Closed (ReadyMade n)
ReadyMade-Closed n = record {
  no_client = λ g r. (λ e. (refl, (r.0 e).1), r.1);
  no_timer = λ g r. (λ e. ((r.0 e).0, refl), r.1);
  shown = λ g b c d r. r;
}

-- A created output may have a client and a timer.
pub created_Ready : (f : Surface) → f.created ≡ true → Ready f
created_Ready f made e = let no : Path Bool true false = sym made ∙ e in cc no

pub same_Ready : (f g : Surface) → g.created ≡ f.created → hold_of g ≡ hold_of f → Ready f → Ready g
same_Ready f g made ties r e =
    let (c, t) = r (sym made ∙ e) in
    (ap (λ (h : Hold). h.client) ties ∙ c, ap (λ (h : Hold). h.timer) ties ∙ t)

pub all_map :
    (P Q : Surface → Type 0) (fs : List Surface) → ((g : Surface) → P g → Q g) → All P fs → All Q fs
all_map P Q [] k h = tt
all_map P Q (f ∷ fs) k (p, h) = (k f p, all_map P Q fs k h)

pub all_and :
    (P Q : Surface → Type 0) (fs : List Surface) → All P fs → All Q fs → All (λ g. P g × Q g) fs
all_and P Q [] h k = tt
all_and P Q (f ∷ fs) (p, h) (q, k) = ((p, q), all_and P Q fs h k)

pub all_find :
    (P : Surface → Type 0) (n : ℕ) (f : Surface) (fs : List Surface)
    → All P fs
    → find_surface n fs ≡ some f
    → P f
unfolding find_surface
all_find P n f [] h e = cc e
all_find P n f (g ∷ fs) (p, h) e = elim (Bool-cases (g.output_global_name == n)) [
  | inl q ↦
      let same : Path (Option Surface) (some g) (some f) = rw q at e in
      let gf : g ≡ f = cc same in subst P gf p
  | inr q ↦ all_find P n f fs h (rw q at e)
]

all_other :
    (Q : Surface → Type 0) (n : ℕ) (fs : List Surface)
    → hold n fs ≡ none
    → All (λ g. (g.output_global_name == n) ≡ true → Q g) fs
all_other Q n [] e = tt
all_other Q n (g ∷ fs) e = elim (Bool-cases (g.output_global_name == n)) [
  | inl q ↦ let no : Path (Option Hold) (some (hold_of g)) none = rw q at e in cc no
  | inr q ↦ (λ p. let no : Path Bool true false = sym p ∙ q in cc no, all_other Q n fs (rw q at e))
]

-- The output that is found is the only one of its name.
pub all_named :
    (Q : Surface → Type 0) (n : ℕ) (f : Surface) (fs : List Surface)
    → Unrepeated fs
    → find_surface n fs ≡ some f
    → Q f
    → All (λ g. (g.output_global_name == n) ≡ true → Q g) fs
unfolding find_surface
all_named Q n f [] u e q = tt
all_named Q n f (g ∷ fs) (new, u) e q = elim (Bool-cases (g.output_global_name == n)) [
  | inl p ↦
      let same : Path (Option Surface) (some g) (some f) = rw p at e in
      let fg : f ≡ g = cc same in
      let gn : g.output_global_name ≡ n = (==_iff g.output_global_name n).0 p in
      (λ x. subst Q fg q, all_other Q n fs (ap (λ m. hold m fs) (sym gn) ∙ new))
  | inr p ↦
      (λ x. let no : Path Bool true false = sym x ∙ p in cc no, all_named Q n f fs u (rw p at e) q)
]

pub made_all :
    (n : ℕ) (f : Surface) (s : Session)
    → Kept nothing s
    → find_surface n s.surfaces ≡ some f
    → f.created ≡ true
    → Holds Ready s
    → Holds (ReadyMade n) s
made_all n f s k found made h =
    all_and Ready (Made n) s.surfaces h
      (all_named (λ g. g.created ≡ true) n f s.surfaces k.distinct found made)

-- The creation of an output.
pub create_surface-Ready :
    (o : Outside) (n : ℕ) (s : Session) → Holds Ready s → Gives (Holds Ready) (create_surface o n s)
unfolding create_surface arm_submission mark_created
create_surface-Ready o n s h =
    let none_else : Tieable (Spared n) (Spared-Closed n) (some n) = λ m g e hit p a d.
      let nm : n ≡ m = cc e in
      let hit' : (g.output_global_name == n) ≡ true = ground arith in
      let no : Path Bool true false = sym hit' ∙ d in cc no in
    Gives->>= (Holds (Spared n)) (Holds Ready)
      (start_for_output s.plugin_per_output o n (arm_submission o n s))
      (λ u. returns (mark_created n u))
      (start_for_output-Holds (Spared n) (Spared-Closed n) s.plugin_per_output o n
        (arm_submission o n s) none_else
        (all_update Ready (Spared n) _ n s.surfaces
          (λ g e r d. let no : Path Bool true false = sym e ∙ d in cc no) (λ g e r d. r) h))
      (λ u k.
        all_update (Spared n) Ready (λ f. record f { created = true }) n u.surfaces
          (λ g e p d. cc d) (λ g e p. p e) k)

init_found-Ready :
    (o : Outside) (n : ℕ) (f : Option Surface) (s : Session)
    → Holds Ready s
    → Gives (Holds Ready) (init_found o n f s)
unfolding init_found
init_found-Ready o n none s h = tt
init_found-Ready o n (some f) s h = Gives-if (Holds Ready) (f.created || not s.run_display) _ _ h (
    Gives-if (Holds Ready) (not f.has_output_done) _ _ h (
      Gives-if (Holds Ready) (f.color_output && not f.output_desc_current) _ _ h
        (create_surface-Ready o n s h)))

-- A write that leaves the tie and the creation of an output.
pub untied-Ready :
    (F : Surface → Surface) (n : ℕ) (s : Session)
    → ((g : Surface) → ((F g).created ≡ g.created) × (hold_of (F g) ≡ hold_of g))
    → Holds Ready s
    → All Ready (update_surface n F s.surfaces)
untied-Ready F n s same h =
    all_update Ready Ready F n s.surfaces (λ g e. same_Ready g (F g) (same g).0 (same g).1)
      (λ g e p. p) h

pub handle_wl_output_done-Ready :
    (o : Outside) (n : ℕ) (s : Session)
    → Holds Ready s
    → Gives (Holds Ready) (handle_wl_output_done o n s)
unfolding handle_wl_output_done init_surface_if_ready
handle_wl_output_done-Ready o n s h =
    let mark : Surface → Surface = λ g. record g { has_output_done = true } in
    init_found-Ready o n (find_surface n (update_surface n mark s.surfaces)) _
      (untied-Ready mark n s (λ g. (refl, refl)) h)

-- The loss of an output.
drop_client-Ready :
    (display : Bool) (c : Option ℕ) (s : Session)
    → Holds Ready s
    → Gives (Holds Ready) (drop_client display c s)
unfolding drop_client
drop_client-Ready display none s h = h
drop_client-Ready true (some a) s h =
    cleanup_client-Holds Ready Ready-Closed a (note (destroy_wl_client a ∷ []) s) h
drop_client-Ready false (some a) s h = tt

drop_output-Ready :
    (display : Bool) (n : ℕ) (shown : Bool) (s : Session)
    → Holds Ready s
    → Gives (Holds Ready) (drop_output display n shown s)
unfolding drop_output
drop_output-Ready display n false s h = h
drop_output-Ready true n true s h = h
drop_output-Ready false n true s h = tt

destroy_found-Ready :
    (n : ℕ) (f : Option Surface) (s : Session)
    → Holds Ready s
    → Gives (Holds Ready) (destroy_found n f s)
unfolding destroy_found
destroy_found-Ready n none s h = h
destroy_found-Ready n (some f) s h =
    let t : Session = note (if f.plugin_surface then send_closed n ∷ [] else []) s in
    let last : Session → Outcome Session = λ u. returns (record u {
      eventloop = remove_timer f.client_submission_timer u.eventloop;
      surfaces = unlink_surface n u.surfaces;
    }) in
    Gives->>= (Holds Ready) (Holds Ready)
      (drop_client s.display f.client t >>= drop_output s.display n f.nested_server_output) last
      (Gives->>= (Holds Ready) (Holds Ready) (drop_client s.display f.client t)
        (drop_output s.display n f.nested_server_output) (drop_client-Ready s.display f.client t h)
        (λ u k. drop_output-Ready s.display n f.nested_server_output u k))
      (λ u k. all_unlink Ready n u.surfaces k)

pub handle_global_remove-Ready :
    (n : ℕ) (s : Session) → Holds Ready s → Gives (Holds Ready) (handle_global_remove n s)
unfolding handle_global_remove
handle_global_remove-Ready n s h = destroy_found-Ready n (find_surface n s.surfaces) s h
