-- ===== src/EventLoop/Freed.antt =====
-- The nodes of the timer list: the one at an address, and the list without it.
use swaylock_plugin.Base.{
  ℕ, ◌≡◌, refl, ap, false, List, [], ◌∷◌, Option, none, some, arith, ◌==◌, if◌then◌else◌, All,
  Bool-cases, inl, inr, ◌<◌,
}
use swaylock_plugin.EventLoop.{LoopTimer}
use swaylock_plugin.EventLoop.Live.{live, IsOld}

module _ {T : Type 0} where
  unfoldable pub timer_at : ℕ → List (LoopTimer T) → Option (LoopTimer T)
  timer_at a [] = none
  timer_at a (t ∷ ts) = let rest = timer_at a ts in if t.address == a then some t else rest

  -- `wl_list_remove(&timer->link); free(timer)`.
  unfoldable pub free_timer : ℕ → List (LoopTimer T) → List (LoopTimer T)
  free_timer a [] = []
  free_timer a (t ∷ ts) = let rest = free_timer a ts in if t.address == a then ts else t ∷ rest

  pub free_timer-IsOld :
      (n a : ℕ) (ts : List (LoopTimer T)) → All (IsOld n) ts → All (IsOld n) (free_timer a ts)
  unfolding free_timer
  free_timer-IsOld n a [] h = tt
  free_timer-IsOld n a (t ∷ ts) (p, h) = elim (Bool-cases (t.address == a)) [
    | inl e ↦ rw e h
    | inr e ↦ rw e (p, free_timer-IsOld n a ts h)
  ]

  pub free_timer-live :
      (a b : ℕ) (ts : List (LoopTimer T)) → (b == a) ≡ false → live (free_timer a ts) b ≡ live ts b
  unfolding free_timer
  free_timer-live a b [] h = refl
  free_timer-live a b (t ∷ ts) h = ground (arith, free_timer-live a b ts h)

  answer : Option (LoopTimer T) → Option T
  answer none = none
  answer (some t) = if t.removed then none else some t.callback

  -- A node that is not marked is live.
  pub timer_at-live :
      (a : ℕ) (ts : List (LoopTimer T)) (t : LoopTimer T)
      → timer_at a ts ≡ some t
      → live ts a ≡ (if t.removed then none else some t.callback)
  unfolding timer_at answer
  timer_at-live a [] t e = cc e
  timer_at-live a (u ∷ ts) t e = elim (Bool-cases (u.address == a)) [
    | inl here ↦
        let same : Path (Option (LoopTimer T)) (some u) (some t) = rw here at e in
        rw here (ap (λ o. answer o) same)
    | inr there ↦ rw there (timer_at-live a ts t (rw there at e))
  ]

  pub timer_at-IsOld :
      (n a : ℕ) (ts : List (LoopTimer T)) (t : LoopTimer T)
      → All (IsOld n) ts
      → timer_at a ts ≡ some t
      → a < n
  unfolding timer_at
  timer_at-IsOld n a [] t h e = cc e
  timer_at-IsOld n a (u ∷ ts) t (p, h) e = elim (Bool-cases (u.address == a)) [
    | inl here ↦ ground arith
    | inr there ↦ timer_at-IsOld n a ts t h (rw there at e)
  ]
