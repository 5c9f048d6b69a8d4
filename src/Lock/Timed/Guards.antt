-- ===== src/Lock/Timed/Guards.antt =====
-- A password that is not empty is guarded by the timer that clears it.
use swaylock_plugin.Base.{
  ℕ, ◌≡◌, refl, sym, ap, ◌∙◌, subst, Bool, true, false, none, if◌then◌else◌, Outcome, returns,
  exits, aborts, blocks, faults,
}
use swaylock_plugin.EventLoop.{Env}
use swaylock_plugin.Password.{SwaylockPassword, clear_password_buffer}
use swaylock_plugin.Lock.{State, InputState}
use swaylock_plugin.Lock.Keys.{
  schedule_input_idle, cancel_input_idle, schedule_auth_idle, schedule_password_clear,
  cancel_password_clear, clear_password, erase_all, neutral_key,
}
use swaylock_plugin.Lock.Timed.{Sound, drop_timer-without}
use swaylock_plugin.Lock.Timed.Rearmed.{
  Allocates, schedule_password_clear_runs, schedule_input_idle-Sound, schedule_auth_idle-Sound,
  schedule_password_clear-Sound,
}
use swaylock_plugin.Lock.Timed.Keys.{cancel_password_clear-Sound}

abbrev pub Protected : State → Type 0
Protected s = s.clear_password_timer ≡ none → s.password.len ≡ 0

abbrev pub Guarded : (ℕ → Bool) → State → Type 0
Guarded freed s = Sound freed s × Protected s

-- An outcome whose state, if it returns one, is guarded.
abbrev pub Guards : (ℕ → Bool) → Outcome State → Type 0
Guards freed (returns s) = Guarded freed s
Guards freed (exits n) = Unit
Guards freed aborts = Unit
Guards freed blocks = Unit
Guards freed faults = Unit

abbrev pub Same : State → State → Type 0
Same s t = (t.clear_password_timer ≡ s.clear_password_timer) × (t.password ≡ s.password)

pub Same-Protected : (s t : State) → Same s t → Protected s → Protected t
Same-Protected s t (c, p) h e = ap (λ (pw : SwaylockPassword). pw.len) p ∙ h (sym c ∙ e)

pub schedule_input_idle-Same : (env : Env) (s : State) → Same s (schedule_input_idle env s)
unfolding schedule_input_idle
schedule_input_idle-Same env s = rw drop_timer-without (refl, refl)

pub schedule_auth_idle-Same : (env : Env) (s : State) → Same s (schedule_auth_idle env s)
unfolding schedule_auth_idle
schedule_auth_idle-Same env s = rw drop_timer-without (refl, refl)

pub cancel_input_idle-Same : (s : State) → Same s (cancel_input_idle s)
unfolding cancel_input_idle
cancel_input_idle-Same s = rw drop_timer-without (refl, refl)

pub cancel_password_clear-password : (s : State) → (cancel_password_clear s).password ≡ s.password
unfolding cancel_password_clear
cancel_password_clear-password s = rw drop_timer-without refl

-- The operations keep both.
pub guard_input :
    (freed : ℕ → Bool) (env : Env) (s : State)
    → Allocates env
    → Guarded freed s
    → Guarded freed (schedule_input_idle env s)
guard_input freed env s ok (v, h) = (
  schedule_input_idle-Sound freed env s ok v,
  Same-Protected s (schedule_input_idle env s) (schedule_input_idle-Same env s) h,
)

pub guard_auth :
    (freed : ℕ → Bool) (env : Env) (s : State)
    → Allocates env
    → Guarded freed s
    → Guarded freed (schedule_auth_idle env s)
guard_auth freed env s ok (v, h) = (
  schedule_auth_idle-Sound freed env s ok v,
  Same-Protected s (schedule_auth_idle env s) (schedule_auth_idle-Same env s) h,
)

-- A timer to clear the password guards any password.
pub guard_clear :
    (freed : ℕ → Bool) (env : Env) (s : State)
    → Allocates env
    → Sound freed s
    → Guarded freed (schedule_password_clear env s)
guard_clear freed env s ok v = (
  schedule_password_clear-Sound freed env s ok v,
  λ e.
      let armed =
        subst (λ (t : State). t.clear_password_timer ≡ none) (schedule_password_clear_runs env s ok)
          e in
      cc armed,
)

-- It may be cancelled when the password is empty.
pub guard_cancel :
    (freed : ℕ → Bool) (s : State)
    → Sound freed s
    → s.password.len ≡ 0
    → Guarded freed (cancel_password_clear s)
guard_cancel freed s v h = (
  cancel_password_clear-Sound freed s v,
  λ e. ap (λ (pw : SwaylockPassword). pw.len) (cancel_password_clear-password s) ∙ h,
)

-- The callback starts by forgetting its timer.
pub clear_password-Guarded :
    (freed : ℕ → Bool) (env : Env) (s : State)
    → Allocates env
    → Sound freed (record s { clear_password_timer = none })
    → Guarded freed (clear_password env s)
unfolding clear_password clear_password_buffer
clear_password-Guarded freed env s ok v =
    let s₁ = record s { clear_password_timer = none; input_state = InputState.clear } in
    (schedule_input_idle-Sound freed env s₁ ok v, λ e. refl)

pub erase_all-Guarded :
    (freed : ℕ → Bool) (env : Env) (s : State)
    → Allocates env
    → Sound freed s
    → Guarded freed (erase_all env s)
unfolding erase_all clear_password_buffer
erase_all-Guarded freed env s ok v =
    let s₁ = record s {
      password = clear_password_buffer s.password;
      input_state = InputState.clear;
    } in
    guard_input freed env (cancel_password_clear s₁) ok (guard_cancel freed s₁ v refl)

pub neutral_key-Guarded :
    (freed : ℕ → Bool) (env : Env) (s : State)
    → Allocates env
    → Sound freed s
    → Guarded freed (neutral_key env s)
unfolding neutral_key
neutral_key-Guarded freed env s ok v =
    let s₁ = record s { input_state = InputState.neutral } in
    guard_input freed env (schedule_password_clear env s₁) ok (guard_clear freed env s₁ ok v)

pub if-Guarded :
    (freed : ℕ → Bool) (b : Bool) (x y : State)
    → (b ≡ true → Guarded freed x)
    → (b ≡ false → Guarded freed y)
    → Guarded freed (if b then x else y)
if-Guarded freed true x y p q = p refl
if-Guarded freed false x y p q = q refl

pub if-Guards :
    (freed : ℕ → Bool) (b : Bool) (x y : Outcome State)
    → Guards freed x
    → Guards freed y
    → Guards freed (if b then x else y)
if-Guards freed true x y p q = p
if-Guards freed false x y p q = q
