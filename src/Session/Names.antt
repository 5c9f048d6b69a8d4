-- ===== src/Session/Names.antt =====
-- The outputs have different names.
use swaylock_plugin.Base.{
  ℕ, ◌≡◌, refl, ap, ◌∙◌, Bool, true, false, List, [], ◌∷◌, Option, none, some, arith, ◌==◌,
  if◌then◌else◌, Bool-cases, inl, inr,
}
use swaylock_plugin.EventLoop.{Loop}
use swaylock_plugin.Clients.{Surface}
use swaylock_plugin.Session.{
  ClientCall, find_surface, unlink_surface, update_surface, cancel_timers, remove_timer, fall_back,
  fall_back_all, reply_and_fill, render_fallback_surface,
}
use swaylock_plugin.Session.Ties.{
  Hold, hold, hold_of, mapped, hold-unlink_surface, hold-update_surface, hold-cancel_timers,
  hold-fall_back_all,
}

abbrev pub Unrepeated : List Surface → Type 0
Unrepeated [] = Unit {0}
Unrepeated (f ∷ fs) = (hold f.output_global_name fs ≡ none) × Unrepeated fs

mapped_none_if :
    (g : Hold → Hold) (hit : Bool) (o : Option Hold)
    → o ≡ none
    → (if hit then mapped g o else o) ≡ none
mapped_none_if g true o e = ap (mapped g) e
mapped_none_if g false o e = e

pub update_surface-Unrepeated :
    (f : Surface → Surface) (g : Hold → Hold)
    → ((s : Surface)
        → ((f s).output_global_name ≡ s.output_global_name) × (hold_of (f s) ≡ g (hold_of s)))
    → (n : ℕ) (fs : List Surface) → Unrepeated fs
    → Unrepeated (update_surface n f fs)
unfolding update_surface
update_surface-Unrepeated f g k n [] u = tt
update_surface-Unrepeated f g k n (s ∷ fs) u =
    let p : (f s).output_global_name ≡ s.output_global_name = (k s).0 in
    let rest : Unrepeated (update_surface n f fs) = update_surface-Unrepeated f g k n fs u.1 in
    let free : hold s.output_global_name (update_surface n f fs) ≡ none =
      hold-update_surface f g k n s.output_global_name fs
      ∙ mapped_none_if g (s.output_global_name == n) (hold s.output_global_name fs) u.0 in
    elim (Bool-cases (s.output_global_name == n)) [
      | inl e ↦ rw e (ap (λ m. hold m (update_surface n f fs)) p ∙ free, rest)
      | inr e ↦ rw e (free, rest)
    ]

none_if : (hit : Bool) (o : Option Hold) → o ≡ none → (if hit then none else o) ≡ none
none_if true o e = refl
none_if false o e = e

pub unlink_surface-Unrepeated :
    (n : ℕ) (fs : List Surface) → Unrepeated fs → Unrepeated (unlink_surface n fs)
unfolding unlink_surface
unlink_surface-Unrepeated n [] u = tt
unlink_surface-Unrepeated n (s ∷ fs) u =
    let rest : Unrepeated (unlink_surface n fs) = unlink_surface-Unrepeated n fs u.1 in
    elim (Bool-cases (s.output_global_name == n)) [
      | inl e ↦ rw e rest
      | inr e ↦ rw e (
        (hold-unlink_surface n s.output_global_name fs
            ∙ none_if (s.output_global_name == n) (hold s.output_global_name fs) u.0),
        rest,
      )
    ]

pub cancel_timers-Unrepeated :
    (fs : List Surface) (loop : Loop ℕ ClientCall)
    → Unrepeated fs
    → Unrepeated (cancel_timers fs loop).0
unfolding cancel_timers
cancel_timers-Unrepeated [] loop u = tt
cancel_timers-Unrepeated (f ∷ fs) loop u =
    let loop' = remove_timer f.client_submission_timer loop in
    (
      (hold-cancel_timers f.output_global_name fs loop'
          ∙ ap (mapped (λ h. record h { timer = none })) u.0),
      cancel_timers-Unrepeated fs loop' u.1,
    )

fall_back_name :
    (ok : Bool) (f : Surface) → (fall_back ok f).0.output_global_name ≡ f.output_global_name
unfolding fall_back reply_and_fill render_fallback_surface
fall_back_name ok f = ground arith

pub fall_back_all-Unrepeated :
    (can : ℕ → Bool) (fs : List Surface) → Unrepeated fs → Unrepeated (fall_back_all can fs).0
unfolding fall_back_all
fall_back_all-Unrepeated can [] u = tt
fall_back_all-Unrepeated can (f ∷ fs) u = (
  (ap (λ m. hold m (fall_back_all can fs).0) (fall_back_name (can f.output_global_name) f)
      ∙ hold-fall_back_all f.output_global_name can fs
      ∙ u.0),
  fall_back_all-Unrepeated can fs u.1,
)

pub find_surface-hold_of :
    (n : ℕ) (fs : List Surface) (f : Surface)
    → find_surface n fs ≡ some f
    → hold n fs ≡ some (hold_of f)
unfolding find_surface
find_surface-hold_of n [] f e = cc e
find_surface-hold_of n (s ∷ fs) f e = elim (Bool-cases (s.output_global_name == n)) [
  | inl q ↦
      let same : Path (Option Surface) (some s) (some f) = rw q at e in
      let sf : s ≡ f = cc same in rw q (ap (λ x. some (hold_of x)) sf)
  | inr q ↦ rw q (find_surface-hold_of n fs f (rw q at e))
]

pub find_surface-update :
    (g : Surface → Surface)
    → ((s : Surface) → (g s).output_global_name ≡ s.output_global_name)
    → (n : ℕ) (fs : List Surface) (f : Surface) → find_surface n fs ≡ some f
    → find_surface n (update_surface n g fs) ≡ some (g f)
unfolding find_surface update_surface
find_surface-update g k n [] f e = cc e
find_surface-update g k n (s ∷ fs) f e =
    let p : (g s).output_global_name ≡ s.output_global_name = k s in
    elim (Bool-cases (s.output_global_name == n)) [
      | inl q ↦
          let same : Path (Option Surface) (some s) (some f) = rw q at e in
          let sf : s ≡ f = cc same in
          let q' : ((g s).output_global_name == n) ≡ true = ap (λ x. x == n) p ∙ q in
          rw q (rw q' (ap (λ x. some (g x)) sf))
      | inr q ↦ rw q (rw q (find_surface-update g k n fs f (rw q at e)))
    ]
