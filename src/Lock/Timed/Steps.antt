-- ===== src/Lock/Timed/Steps.antt =====
-- While the password is not empty, the timer that clears it is in the loop: no key, reply, signal or
-- timer of the lock screen breaks this.
use swaylock_plugin.Base.{
  ℕ, ◌≡◌, refl, sym, subst, inl, inr, Bool, true, false, not, ◌&&◌, Option, none, some, Bool-cases,
  ◌==◌, ==_iff, if◌then◌else◌, Outcome, returns, exits, aborts, blocks, faults, ◌>>=◌,
}
use swaylock_plugin.EventLoop.{Env}
use swaylock_plugin.Password
use swaylock_plugin.Password.{SwaylockPassword, clear_password_buffer}
use swaylock_plugin.Comm.{Writer}
use swaylock_plugin.Lock.{State, InputState, AuthState}
use swaylock_plugin.Lock.Keys.{
  schedule_password_clear, cancel_password_clear, erase_all, letter_key, backspaced,
  update_highlight, after_backspace, back_space_key, submitted, request_written, submitting,
  submit_password,
}
use swaylock_plugin.Lock.Keys.Kept.{submission, ignored, sent}
use swaylock_plugin.Lock.Timed.Emptied.{Emptied, erased_none, write_comm_request-Emptied}
use swaylock_plugin.Lock.Timed.{Sound}
use swaylock_plugin.Lock.Timed.Rearmed.{Allocates}
use swaylock_plugin.Lock.Timed.Keys.{cancel_input_idle-Sound, cancel_password_clear-Sound}
use swaylock_plugin.Lock.Timed.Guards.{
  Guarded, Guards, guard_input, guard_auth, guard_clear, guard_cancel, erase_all-Guarded,
  if-Guarded, if-Guards,
}

emptied_len :
    (erased : Bool) (n : ℕ) → erased && not (n == 0) ≡ false → (erased ≡ false → n ≡ 0) → n ≡ 0
emptied_len true n e h = elim (Bool-cases (n == 0)) [
  | inl z ↦ (==_iff n 0).0 z
  | inr z ↦ cc (rw z at e)
]
emptied_len false n e h = h refl

pub letter_key-Guarded :
    (freed : ℕ → Bool) (env : Env) (rand : ℕ) (s : State) (c : ℕ)
    → Allocates env
    → Guarded freed s
    → Guarded freed (letter_key env rand s c)
unfolding letter_key update_highlight
letter_key-Guarded freed env rand s c ok g =
    let s₁ = record s {
      password = Password.append_ch s.password c;
      input_state = InputState.letter;
    } in
    if-Guarded freed (c == 0) s _ (λ e. g)
      (λ e.
        guard_input freed env (schedule_password_clear env s₁) ok
          (guard_clear freed env s₁ ok (g.0)))

backspaced-Guarded :
    (freed : ℕ → Bool) (env : Env) (rand : ℕ) (s : State) (erased : Bool)
    → Allocates env
    → Sound freed s
    → (erased ≡ false → s.password.len ≡ 0)
    → Guarded freed (backspaced env rand s erased)
unfolding backspaced update_highlight
backspaced-Guarded freed env rand s erased ok v h =
    let armed = record s { input_state = InputState.backspace } in
    let emptied = record s { input_state = InputState.clear } in
    let more = erased && not (s.password.len == 0) in
    guard_input freed env
      (if more
        then update_highlight rand (schedule_password_clear env armed)
        else cancel_password_clear emptied)
      ok
      (if-Guarded freed more _ _ (λ e. guard_clear freed env armed ok v)
        (λ e. guard_cancel freed emptied v (emptied_len erased s.password.len e h)))

after_backspace-Guards :
    (freed : ℕ → Bool) (env : Env) (rand : ℕ) (s : State) (o : Option (SwaylockPassword × Bool))
    → Allocates env
    → Sound freed s
    → Password.backspace s.password ≡ o
    → Guards freed (after_backspace env rand s o)
unfolding after_backspace
after_backspace-Guards freed env rand s none ok v e = tt
after_backspace-Guards freed env rand s (some (pw, erased)) ok v e =
    backspaced-Guarded freed env rand (record s { password = pw }) erased ok v
      (λ f.
        erased_none s.password pw (subst (λ b. Password.backspace s.password ≡ some (pw, b)) f e))

pub back_space_key-Guards :
    (freed : ℕ → Bool) (env : Env) (rand : ℕ) (s : State)
    → Allocates env
    → Sound freed s
    → Guards freed (back_space_key env rand s)
unfolding back_space_key
back_space_key-Guards freed env rand s ok v =
    if-Guards freed s.control (returns (erase_all env s)) _ (erase_all-Guarded freed env s ok v)
      (after_backspace-Guards freed env rand s (Password.backspace s.password) ok v refl)

submitted-Guarded :
    (freed : ℕ → Bool) (env : Env) (s : State) (sent : Bool)
    → Allocates env
    → Guarded freed s
    → Guarded freed (submitted env s sent)
unfolding submitted
submitted-Guarded freed env s true ok g = g
submitted-Guarded freed env s false ok g =
    guard_auth freed env (record s { auth_state = AuthState.invalid }) ok g

submitting-Sound : (freed : ℕ → Bool) (s : State) → Sound freed s → Sound freed (submitting s)
unfolding submitting
submitting-Sound freed s v =
    let s₁ = record s { input_state = InputState.idle; auth_state = AuthState.validating } in
    cancel_input_idle-Sound freed (cancel_password_clear s₁)
      (cancel_password_clear-Sound freed s₁ v)

request_written-Guards :
    (freed : ℕ → Bool) (env : Env) (s : State) (o : Outcome (Writer × SwaylockPassword × Bool))
    → Allocates env
    → Sound freed s
    → Emptied o
    → Guards freed (o >>= request_written env s)
unfolding request_written
request_written-Guards freed env s (returns (w, pw, b)) ok v e =
    submitted-Guarded freed env (record s { comm_write = w; password = pw }) b ok (v, λ _. e)
request_written-Guards freed env s (exits n) ok v e = tt
request_written-Guards freed env s aborts ok v e = tt
request_written-Guards freed env s blocks ok v e = tt
request_written-Guards freed env s faults ok v e = tt

pub submit_password-Guards :
    (freed : ℕ → Bool) (env : Env) (s : State)
    → Allocates env
    → Guarded freed s
    → Guards freed (submit_password env s)
submit_password-Guards freed env s ok g = elim (submission env s) [
  | ignored e ↦ subst (Guards freed) (sym e) g
  | sent _ e ↦ subst (Guards freed) (sym e) (
      request_written-Guards freed env (submitting s) _ ok (submitting-Sound freed s (g.0))
        (write_comm_request-Emptied (submitting s).comm_write (submitting s).password))
]
