-- ===== src/EventLoop/Order.antt =====
-- The nodes of the timer list stand in the order of their making, the newest in front.
use swaylock_plugin.Base.{
  ℕ, ◌<◌, ◌≤◌, ◌≡◌, refl, List, [], ◌∷◌, none, arith, ◌==◌, if◌then◌else◌, Bool-cases, inl, inr,
}
use swaylock_plugin.EventLoop.{LoopTimer, mark_timer}
use swaylock_plugin.EventLoop.Freed.{free_timer}
use swaylock_plugin.EventLoop.Live.{live}

module _ {T : Type 0} where
  -- The newest node is in front.
  abbrev pub Below : ℕ → List (LoopTimer T) → Type 0
  Below n [] = Unit {0}
  Below n (t ∷ ts) = (t.address < n) × Below t.address ts

  pub Below-mono : (m n : ℕ) (ts : List (LoopTimer T)) → m ≤ n → Below m ts → Below n ts
  Below-mono m n [] h b = tt
  Below-mono m n (t ∷ ts) h b = (omega (arith, b.0), b.1)

  pub mark_timer-Below :
      (i n : ℕ) (ts : List (LoopTimer T)) → Below n ts → Below n (mark_timer i ts).0
  unfolding mark_timer
  mark_timer-Below i n [] b = tt
  mark_timer-Below i n (t ∷ ts) b = elim (Bool-cases (t.address == i)) [
    | inl e ↦ rw e b
    | inr e ↦ rw e (b.0, mark_timer-Below i t.address ts b.1)
  ]

  pub free_timer-Below :
      (i n : ℕ) (ts : List (LoopTimer T)) → Below n ts → Below n (free_timer i ts)
  unfolding free_timer
  free_timer-Below i n [] b = tt
  free_timer-Below i n (t ∷ ts) b = elim (Bool-cases (t.address == i)) [
    | inl e ↦ rw e (Below-mono t.address n ts (omega (arith, b.0)) b.1)
    | inr e ↦ rw e (b.0, free_timer-Below i t.address ts b.1)
  ]

  pub live_above : (i n : ℕ) (ts : List (LoopTimer T)) → Below n ts → n ≤ i → live ts i ≡ none
  live_above i n [] b h = refl
  live_above i n (t ∷ ts) b h = let ih = live_above i t.address ts b.1 in ground (arith, b.0, ih)

  pub mark_timer-live_all :
      (i l : ℕ) (ts : List (LoopTimer T))
      → live (mark_timer i ts).0 l ≡ (if l == i then none else live ts l)
  unfolding mark_timer
  mark_timer-live_all i l [] = ground arith
  mark_timer-live_all i l (t ∷ ts) = ground (arith, mark_timer-live_all i l ts)

  pub free_timer-live_all :
      (i l n : ℕ) (ts : List (LoopTimer T))
      → Below n ts
      → live (free_timer i ts) l ≡ (if l == i then none else live ts l)
  unfolding free_timer
  free_timer-live_all i l n [] b = ground arith
  free_timer-live_all i l n (t ∷ ts) b =
      ground (arith, free_timer-live_all i l t.address ts b.1, live_above l t.address ts b.1)
