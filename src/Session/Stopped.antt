-- ===== src/Session/Stopped.antt =====
-- The timer of a client stops with it.
use swaylock_plugin.Base.{
  ℕ, ◌≡◌, refl, sym, ap, ◌∙◌, Bool, true, false, List, Option, none, some, ◌==◌, ==_iff,
  if◌then◌else◌, arith, Bool-cases, inl, inr,
}
use swaylock_plugin.EventLoop.{Loop, LoopTimer, mark_timer, loop_remove_timer}
use swaylock_plugin.EventLoop.Order.{mark_timer-Below, mark_timer-live_all}
use swaylock_plugin.Session.{ClientCall, remove_timer}
use swaylock_plugin.Session.Ties.{Tie, Hold, mapped}
use swaylock_plugin.Session.Linked.{LinkedAt, output_of, timer_of}
use swaylock_plugin.Session.Moves.{cut_connect, Lost, Linked-ext}

-- A marked node is heard no more.
pub marked-Lost :
    (spare : ℕ → Bool) (i : ℕ) (ts : List (LoopTimer ClientCall))
    → Lost spare ts spare (mark_timer i ts).0 i
marked-Lost spare i ts l = ground (arith, mark_timer-live_all i l ts)

abbrev pub quieted : Tie → Tie
quieted t = record t { timer = none }

-- The client's timer is stopped with it.
abbrev pub stopped_ties : ℕ → (ℕ → Option Tie) → ℕ → Option Tie
stopped_ties a ties b = if b == a then mapped quieted (ties b) else ties b

pub mapped_quiet : (o : Option Tie) → timer_of (mapped quieted o) ≡ none
mapped_quiet none = refl
mapped_quiet (some t) = refl

pub same_output :
    (o : Option Tie) (hit : Bool) → output_of (if hit then mapped quieted o else o) ≡ output_of o
same_output none true = refl
same_output (some t) true = refl
same_output o false = refl

abbrev pub quiet_if : Bool → Option Tie → Option Tie
quiet_if hit o = if hit then mapped quieted o else o

pub quiet_if-none : (hit : Bool) → quiet_if hit none ≡ none
quiet_if-none true = refl
quiet_if-none false = refl

pub quieted_none :
    (ties : ℕ → Option Tie) (a : ℕ) (b : ℕ)
    → timer_of (ties a) ≡ none
    → timer_of (stopped_ties a ties b) ≡ timer_of (ties b)
quieted_none ties a b quiet = elim (Bool-cases (b == a)) [
  | inl e ↦
      let ba : b ≡ a = (==_iff b a).0 e in
      rw e (mapped_quiet (ties b)) ∙ sym (ap (λ x. timer_of (ties x)) ba ∙ quiet)
  | inr e ↦ rw e refl
]

module _ {spare : ℕ → Bool} {ties : ℕ → Option Tie} {main : Option ℕ} {holds : ℕ → Option Hold}
    {starts : ℕ} where
  pub stop_client_timer :
      (a : ℕ) (o : Option ℕ) (loop : Loop ℕ ClientCall)
      → timer_of (ties a) ≡ o
      → LinkedAt spare ties main holds loop.timers loop.allocs starts
      → LinkedAt spare
          (stopped_ties a ties)
          main
          holds
          (remove_timer o loop).timers
          loop.allocs
          starts
  unfolding remove_timer loop_remove_timer
  stop_client_timer a none loop at v =
      Linked-ext v (λ b. same_output (ties b) (b == a)) (λ b. quieted_none ties a b at) (λ u. refl)
        (λ n. refl) (λ l. refl) (λ l. refl) loop.allocs starts v.order v.unspared
        (λ b le. ap (quiet_if (b == a)) (v.named b le) ∙ quiet_if-none (b == a))
  stop_client_timer a (some i) loop at v =
      cut_connect v a i quieted at (λ t. refl) (λ t. refl) (λ b. refl)
        (marked-Lost spare i loop.timers) (mark_timer-Below i loop.allocs loop.timers v.order)
        v.unspared
