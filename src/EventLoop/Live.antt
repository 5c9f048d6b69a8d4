-- ===== src/EventLoop/Live.antt =====
-- Which timers of the loop will still call back.
use swaylock_plugin.Base.{
  ℕ, suc, ◌<◌, ◌≡◌, refl, ℤ, true, false, List, [], ◌∷◌, Option, none, some, arith, ◌==◌,
  if◌then◌else◌, All, Bool-cases, inl, inr,
}
use swaylock_plugin.EventLoop.{
  Env, LoopTimer, Loop, expiry_after, mark_timer, loop_add_timer, loop_remove_timer,
}

module _ {T : Type 0} where
  -- The callback of the unmarked timer at an address.
  abbrev pub live : List (LoopTimer T) → ℕ → Option T
  live [] a = none
  live (t ∷ ts) a =
      let rest = live ts a in
      if t.address == a then if t.removed then none else some t.callback else rest

  -- A timer that was allocated before.
  abbrev pub IsOld : ℕ → LoopTimer T → Type 0
  IsOld n t = t.address < n

  pub IsOld-suc : (n : ℕ) (ts : List (LoopTimer T)) → All (IsOld n) ts → All (IsOld (suc n)) ts
  IsOld-suc n [] h = tt
  IsOld-suc n (t ∷ ts) (p, h) = (omega (arith, p), IsOld-suc n ts h)

  pub mark_timer-IsOld :
      (n a : ℕ) (ts : List (LoopTimer T)) → All (IsOld n) ts → All (IsOld n) (mark_timer a ts).0
  unfolding mark_timer
  mark_timer-IsOld n a [] h = tt
  mark_timer-IsOld n a (t ∷ ts) (p, h) = elim (Bool-cases (t.address == a)) [
    | inl e ↦ rw e (p, h)
    | inr e ↦ rw e (p, mark_timer-IsOld n a ts h)
  ]

  pub mark_timer-live :
      (a b : ℕ) (ts : List (LoopTimer T))
      → (b == a) ≡ false
      → live (mark_timer b ts).0 a ≡ live ts a
  unfolding mark_timer
  mark_timer-live a b [] h = refl
  mark_timer-live a b (t ∷ ts) h = ground (arith, mark_timer-live a b ts h)

  -- A live timer is old.
  pub live-old :
      (n a : ℕ) (ts : List (LoopTimer T)) {c : T} → All (IsOld n) ts → live ts a ≡ some c → a < n
  live-old n a [] h e = cc
  live-old n a (t ∷ ts) (p, h) e = elim (Bool-cases (t.address == a)) [
    | inl here ↦ ground arith
    | inr there ↦ live-old n a ts h (rw there at e)
  ]

module _ {F T : Type 0} where
  -- The loop with a new timer.
  abbrev pub with_timer : Env → Loop F T → ℤ → T → Loop F T
  with_timer env loop ms callback = record loop {
    timers =
        record {
          address = loop.allocs;
          callback = callback;
          expiry = expiry_after (env.clock loop.allocs) ms;
          removed = false;
        }
        ∷ loop.timers;
    allocs = suc loop.allocs;
  }

  pub loop_add_timer_runs :
      (env : Env) (loop : Loop F T) (ms : ℤ) (callback : T)
      → env.calloc loop.allocs ≡ true
      → loop_add_timer env loop ms callback ≡ (with_timer env loop ms callback, some loop.allocs)
  unfolding loop_add_timer
  loop_add_timer_runs env loop ms callback ok = simp ok

  pub loop_remove_timer_timers :
      (loop : Loop F T) (a : ℕ) → (loop_remove_timer loop a).0.timers ≡ (mark_timer a loop.timers).0
  unfolding loop_remove_timer
  loop_remove_timer_timers loop a = refl

  pub loop_remove_timer_allocs :
      (loop : Loop F T) (a : ℕ) → (loop_remove_timer loop a).0.allocs ≡ loop.allocs
  unfolding loop_remove_timer
  loop_remove_timer_allocs loop a = refl
