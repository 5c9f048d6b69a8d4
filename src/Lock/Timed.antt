-- ===== src/Lock/Timed.antt =====
-- The timers of the lock screen: every field that holds a timer points to a timer of the loop that
-- will still run the field's callback, and was not freed.
pub mod Emptied
pub mod Rearmed
pub mod Keys
pub mod Guards
pub mod Steps
pub mod Forget
pub mod Seats
pub mod Handlers
pub mod Visited
pub mod Dispatch
use swaylock_plugin.Base.{
  ℕ, suc, ◌+◌, ◌<◌, ◌≤◌, ◌≡◌, ◌≢◌, ◌⊎◌, inl, inr, refl, sym, ap, ◌∙◌, subst, ℤ, Bool, true, false,
  List, [], ◌∷◌, Option, none, some, arith, ◌==◌, ==_iff, All, Bool-cases,
}
use swaylock_plugin.EventLoop.{Env, Loop, LoopTimer, loop_remove_timer, loop_add_timer}
use swaylock_plugin.EventLoop.Live.{
  live, IsOld, IsOld-suc, mark_timer-IsOld, mark_timer-live, live-old, with_timer,
  loop_add_timer_runs, loop_remove_timer_timers, loop_remove_timer_allocs,
}
use swaylock_plugin.Lock.{State, FdCall, TimerCall, drop_timer}

-- No timer was freed.
abbrev pub nothing : ℕ → Bool
nothing x = false

-- A field is empty, or points to an unmarked timer with its callback that was not freed.
abbrev pub Points : (ℕ → Bool) → List (LoopTimer TimerCall) → Option ℕ → TimerCall → Type 0
Points freed ts none c = Unit
Points freed ts (some a) c = (live ts a ≡ some c) × (freed a ≡ false)

-- Every timer was allocated before, a new one is not among those freed, and every field points to a
-- live timer with its callback.
pub record SoundAt (freed : ℕ → Bool) (L : Loop FdCall TimerCall) (i a c g r : Option ℕ)
    : Type 0 where
  pub fresh : All (IsOld L.allocs) L.timers
  pub unused : (x : ℕ) → L.allocs ≤ x → freed x ≡ false
  pub input_points : Points freed L.timers i TimerCall.set_input_idle
  pub auth_points : Points freed L.timers a TimerCall.set_auth_idle
  pub clear_points : Points freed L.timers c TimerCall.clear_password
  pub grace_points : Points freed L.timers g TimerCall.grace_timeout
  pub repeat_points : Points freed L.timers r TimerCall.keyboard_repeat

abbrev pub Sound : (ℕ → Bool) → State → Type 0
Sound freed s =
    SoundAt freed s.eventloop s.input_idle_timer s.auth_idle_timer s.clear_password_timer
      s.grace_timer s.seat.repeat_timer

-- The loop without the timer of a field.
abbrev pub without : Option ℕ → Loop FdCall TimerCall → Loop FdCall TimerCall
without none L = L
without (some a) L = (loop_remove_timer L a).0

pub drop_timer-without :
    (h : Option ℕ) (s : State) → drop_timer h s ≡ record s { eventloop = without h s.eventloop }
unfolding drop_timer
drop_timer-without none s = refl
drop_timer-without (some a) s = refl

pub without-allocs : (h : Option ℕ) (L : Loop FdCall TimerCall) → (without h L).allocs ≡ L.allocs
without-allocs none L = refl
without-allocs (some a) L = loop_remove_timer_allocs L a

module _ (freed : ℕ → Bool) where
  -- Removing the timer of one callback leaves the fields of the others.
  pub without-Points :
      (L : Loop FdCall TimerCall) (h k : Option ℕ) (c d : TimerCall)
      → Points freed L.timers h c
      → Points freed L.timers k d
      → d ≢ c
      → Points freed (without h L).timers k d
  without-Points L none k c d p q n = q
  without-Points L (some b) none c d p q n = tt
  without-Points L (some b) (some a) c d (p, _) (q, f) n = elim (Bool-cases (b == a)) [
    | inl e ↦
        elim (n
          (let r = subst (λ x. live L.timers x ≡ some c) ((==_iff b a).0 e) p in cc (q, r))) [ ]
    | inr e ↦ (
      subst (λ ts. live ts a ≡ some d) (sym (loop_remove_timer_timers L b))
          (mark_timer-live a b L.timers e ∙ q),
      f,
    )
  ]

  pub without-unused :
      (L : Loop FdCall TimerCall) (h : Option ℕ)
      → ((x : ℕ) → L.allocs ≤ x → freed x ≡ false)
      → (x : ℕ) → (without h L).allocs ≤ x
      → freed x ≡ false
  without-unused L h u x le = u x (subst (λ n. n ≤ x) (without-allocs h L) le)

  -- A new timer leaves the fields too.
  pub with_timer-Points :
      (env : Env) (L : Loop FdCall TimerCall) (ms : ℤ) (c d : TimerCall) (k : Option ℕ)
      → All (IsOld L.allocs) L.timers
      → Points freed L.timers k d
      → Points freed (with_timer env L ms c).timers k d
  with_timer-Points env L ms c d none f q = tt
  with_timer-Points env L ms c d (some a) f (q, g) =
      (let old = live-old L.allocs a L.timers f q in ground (arith, q, old), g)

  pub with_timer-new :
      (env : Env) (L : Loop FdCall TimerCall) (ms : ℤ) (c : TimerCall)
      → ((x : ℕ) → L.allocs ≤ x → freed x ≡ false)
      → Points freed (with_timer env L ms c).timers (some L.allocs) c
  with_timer-new env L ms c u = (ground arith, u L.allocs (omega arith))

  pub with_timer-unused :
      (env : Env) (L : Loop FdCall TimerCall) (ms : ℤ) (c : TimerCall)
      → ((x : ℕ) → L.allocs ≤ x → freed x ≡ false)
      → (x : ℕ) → (with_timer env L ms c).allocs ≤ x
      → freed x ≡ false
  with_timer-unused env L ms c u x le = u x (omega (arith, le))

pub without-fresh :
    (L : Loop FdCall TimerCall) (h : Option ℕ)
    → All (IsOld L.allocs) L.timers
    → All (IsOld (without h L).allocs) (without h L).timers
unfolding loop_remove_timer
without-fresh L none p = p
without-fresh L (some b) p = mark_timer-IsOld L.allocs b L.timers p

pub with_timer-fresh :
    (env : Env) (L : Loop FdCall TimerCall) (ms : ℤ) (c : TimerCall)
    → All (IsOld L.allocs) L.timers
    → All (IsOld (with_timer env L ms c).allocs) (with_timer env L ms c).timers
with_timer-fresh env L ms c f = (omega arith, IsOld-suc L.allocs L.timers f)

-- A timer that replaces the one of a field leaves the fields of the other callbacks.
pub rearmed-Points :
    (freed : ℕ → Bool) (env : Env) (L : Loop FdCall TimerCall) (ms : ℤ) (h k : Option ℕ)
    (c d : TimerCall)
    → All (IsOld L.allocs) L.timers
    → Points freed L.timers h c
    → Points freed L.timers k d
    → d ≢ c
    → Points freed (with_timer env (without h L) ms c).timers k d
rearmed-Points freed env L ms h k c d f p q n =
    with_timer-Points freed env (without h L) ms c d k (without-fresh L h f)
      (without-Points freed L h k c d p q n)

pub rearmed-fresh :
    (env : Env) (L : Loop FdCall TimerCall) (ms : ℤ) (h : Option ℕ) (c : TimerCall)
    → All (IsOld L.allocs) L.timers
    → All
        (IsOld (with_timer env (without h L) ms c).allocs)
        (with_timer env (without h L) ms c).timers
rearmed-fresh env L ms h c f = with_timer-fresh env (without h L) ms c (without-fresh L h f)
