-- ===== src/Session/Cancelled.antt =====
-- The timers of all outputs are cancelled.
use swaylock_plugin.Base.{
  ℕ, ◌≡◌, refl, sym, ap, ◌∙◌, Bool, true, false, List, [], ◌∷◌, Option, none, some, ◌==◌, ==_iff,
  if◌then◌else◌, arith, Bool-cases, inl, inr,
}
use swaylock_plugin.EventLoop.{Loop, loop_remove_timer}
use swaylock_plugin.EventLoop.Order.{mark_timer-Below}
use swaylock_plugin.Clients.{Surface}
use swaylock_plugin.Session.{ClientCall, cancel_timers, remove_timer}
use swaylock_plugin.Session.Ties.{Tie, Hold, hold, hold_of, mapped}
use swaylock_plugin.Session.Names.{Unrepeated}
use swaylock_plugin.Session.Linked.{LinkedAt, client_of, due_of, slot}
use swaylock_plugin.Session.Moves.{cut_redraw, Linked-ext}
use swaylock_plugin.Session.Stopped.{marked-Lost}

abbrev pub calmed : Hold → Hold
calmed h = record h { timer = none }

abbrev pub calm_if : Bool → Option Hold → Option Hold
calm_if hit o = if hit then mapped calmed o else o

pub calm_if_due :
    (o : Option Hold) (hit : Bool)
    → (hit ≡ true → due_of o ≡ none)
    → due_of (calm_if hit o) ≡ due_of o
calm_if_due none true k = refl
calm_if_due (some h) true k = sym (k refl)
calm_if_due o false k = refl

pub calm_if_client : (o : Option Hold) (hit : Bool) → client_of (calm_if hit o) ≡ client_of o
calm_if_client none true = refl
calm_if_client (some h) true = refl
calm_if_client o false = refl

pub calmed_again : (o : Option Hold) (hit : Bool) → mapped calmed (calm_if hit o) ≡ mapped calmed o
calmed_again none true = refl
calmed_again (some h) true = refl
calmed_again o false = refl

pub calmed_due : (o : Option Hold) → due_of (mapped calmed o) ≡ none
calmed_due none = refl
calmed_due (some h) = refl

module _ {spare : ℕ → Bool} {ties : ℕ → Option Tie} {main : Option ℕ} {starts : ℕ} where
  pub stop_redraw_timer :
      {holds : ℕ → Option Hold} (n : ℕ) (o : Option ℕ) (loop : Loop ℕ ClientCall)
      → due_of (holds n) ≡ o
      → LinkedAt spare ties main holds loop.timers loop.allocs starts
      → LinkedAt spare ties main
          (λ m. calm_if (m == n) (holds m))
          (remove_timer o loop).timers
          (remove_timer o loop).allocs
          starts
  unfolding remove_timer loop_remove_timer
  stop_redraw_timer {holds} n none loop at v =
      Linked-ext v (λ b. refl) (λ b. refl)
        (λ u. elim u as (λ u. slot main (λ m. calm_if (m == n) (holds m)) u ≡ slot main holds u) [
          | none ↦ refl
          | some m ↦ calm_if_client (holds m) (m == n)
        ])
        (λ m.
          calm_if_due (holds m) (m == n)
            (λ e. let mn : m ≡ n = (==_iff m n).0 e in ap (λ x. due_of (holds x)) mn ∙ at))
        (λ l. refl) (λ l. refl) loop.allocs starts v.order v.unspared v.named
  stop_redraw_timer n (some i) loop at v =
      cut_redraw v n i calmed at (λ t. refl) (λ t. refl) (λ b. refl)
        (marked-Lost spare i loop.timers) (mark_timer-Below i loop.allocs loop.timers v.order)
        v.unspared

  recalmed :
      (holds : ℕ → Option Hold) (loop : Loop ℕ ClientCall) (n : ℕ)
      → LinkedAt spare ties main
          (λ m. mapped calmed (calm_if (m == n) (holds m)))
          loop.timers
          loop.allocs
          starts
      → LinkedAt spare ties main (λ m. mapped calmed (holds m)) loop.timers loop.allocs starts
  recalmed holds loop n v =
      Linked-ext v (λ b. refl) (λ b. refl)
        (λ u.
          elim u
            as (λ u.
              slot main (λ m. mapped calmed (holds m)) u
              ≡ slot main (λ m. mapped calmed (calm_if (m == n) (holds m))) u) [
                | none ↦ refl
                | some m ↦ ap client_of (sym (calmed_again (holds m) (m == n)))
              ])
        (λ m. ap due_of (sym (calmed_again (holds m) (m == n)))) (λ l. refl) (λ l. refl) loop.allocs
        starts v.order v.unspared v.named

  -- All the timers of outputs are stopped.
  pub cancel_timers-Linked :
      (holds : ℕ → Option Hold) (fs : List Surface) (loop : Loop ℕ ClientCall)
      → Unrepeated fs
      → ((n : ℕ) (h : Hold) → hold n fs ≡ some h → holds n ≡ some h)
      → ((n : ℕ) → hold n fs ≡ none → due_of (holds n) ≡ none)
      → LinkedAt spare ties main holds loop.timers loop.allocs starts
      → LinkedAt spare ties main
          (λ n. mapped calmed (holds n))
          (cancel_timers fs loop).1.timers
          (cancel_timers fs loop).1.allocs
          starts
  unfolding cancel_timers
  cancel_timers-Linked holds [] loop u sub out v =
      Linked-ext v (λ b. refl) (λ b. refl)
        (λ u. elim u as (λ u. slot main (λ m. mapped calmed (holds m)) u ≡ slot main holds u) [
          | none ↦ refl
          | some m ↦ calm_if_client (holds m) true
        ])
        (λ m. calm_if_due (holds m) true (λ e. out m refl)) (λ l. refl) (λ l. refl) loop.allocs
        starts v.order v.unspared v.named
  cancel_timers-Linked holds (f ∷ fs) loop u sub out v =
      let name : ℕ = f.output_global_name in
      let holds₁ : ℕ → Option Hold = λ m. calm_if (m == name) (holds m) in
      let itself : (name == name) ≡ true = (==_iff name name).1 refl in
      let mine : holds name ≡ some (hold_of f) = sub name (hold_of f) (rw itself refl) in
      let w : LinkedAt spare ties main holds₁ (remove_timer f.client_submission_timer loop).timers
          (remove_timer f.client_submission_timer loop).allocs starts =
        stop_redraw_timer name f.client_submission_timer loop (ap due_of mine) v in
      let later : (n : ℕ) → (n == name) ≡ false → hold n (f ∷ fs) ≡ hold n fs =
        λ n e. let e' : (name == n) ≡ false = ground arith in rw e' refl in
      let sub₁ : (n : ℕ) (h : Hold) → hold n fs ≡ some h → holds₁ n ≡ some h = λ n h e.
        elim (Bool-cases (n == name)) [
          | inl q ↦
              let nn : n ≡ name = (==_iff n name).0 q in
              let gone : hold n fs ≡ none = ap (λ x. hold x fs) nn ∙ u.0 in cc (gone, e)
          | inr q ↦ rw q (sub n h (later n q ∙ e))
        ] in
      let out₁ : (n : ℕ) → hold n fs ≡ none → due_of (holds₁ n) ≡ none = λ n e.
        elim (Bool-cases (n == name)) [
          | inl q ↦ rw q (calmed_due (holds n))
          | inr q ↦ rw q (out n (later n q ∙ e))
        ] in
      recalmed holds (cancel_timers fs (remove_timer f.client_submission_timer loop)).1 name (
        cancel_timers-Linked holds₁ fs (remove_timer f.client_submission_timer loop) u.1 sub₁ out₁
          w)
