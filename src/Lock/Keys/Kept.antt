-- ===== src/Lock/Keys/Kept.antt =====
-- No key press and no timer of password.c changes whether the display runs.
use swaylock_plugin.Base.{
  ℕ, ◌≡◌, ◌≢◌, refl, sym, subst, ◌∙◌, Bool, true, false, not, ◌&&◌, Option, none, some, ◌==◌,
  if◌then◌else◌, Bool-cases, inl, inr, Outcome, returns, exits, aborts, blocks, faults, ◌>>=◌,
}
use swaylock_plugin.EventLoop.{Env}
use swaylock_plugin.Password
use swaylock_plugin.Password.{SwaylockPassword}
use swaylock_plugin.Comm.{Writer, write_comm_request}
use swaylock_plugin.Lock.{State, AuthState, drop_timer}
use swaylock_plugin.Lock.Keys.{
  Keysym, kp_enter, return, delete, back_space, escape, caps_lock, shift_l, shift_r, control_l,
  control_r, meta_l, meta_r, alt_l, alt_r, super_l, super_r, key_m, key_d, key_j, key_c, key_u,
  other, schedule_input_idle, cancel_input_idle, schedule_auth_idle, schedule_password_clear,
  cancel_password_clear, set_input_idle, set_auth_idle, clear_password, submitted, submit_password,
  update_highlight, erase_all, backspaced, neutral_key, letter_key, back_space_key,
  swaylock_handle_key, is_validating, after_backspace, request_written, submitting,
}

abbrev Runs : State → State → Type 0
Runs s s' = s'.run_display ≡ s.run_display

-- An outcome that, if it returns, returns a state with the same `run_display`.
abbrev pub Keeps : State → Outcome State → Type 0
Keeps s (returns s') = s'.run_display ≡ s.run_display
Keeps s (exits n) = Unit
Keeps s aborts = Unit
Keeps s blocks = Unit
Keeps s faults = Unit

pub drop_timer-Runs : (t : Option ℕ) (s : State) → Runs s (drop_timer t s)
unfolding drop_timer
drop_timer-Runs none s = refl
drop_timer-Runs (some a) s = refl

pub schedule_input_idle-Runs : (env : Env) (s : State) → Runs s (schedule_input_idle env s)
unfolding schedule_input_idle
schedule_input_idle-Runs env s = drop_timer-Runs s.input_idle_timer s

pub schedule_auth_idle-Runs : (env : Env) (s : State) → Runs s (schedule_auth_idle env s)
unfolding schedule_auth_idle
schedule_auth_idle-Runs env s = drop_timer-Runs s.auth_idle_timer s

schedule_password_clear-Runs : (env : Env) (s : State) → Runs s (schedule_password_clear env s)
unfolding schedule_password_clear
schedule_password_clear-Runs env s = drop_timer-Runs s.clear_password_timer s

cancel_password_clear-Runs : (s : State) → Runs s (cancel_password_clear s)
unfolding cancel_password_clear
cancel_password_clear-Runs s = drop_timer-Runs s.clear_password_timer s

cancel_input_idle-Runs : (s : State) → Runs s (cancel_input_idle s)
unfolding cancel_input_idle
cancel_input_idle-Runs s = drop_timer-Runs s.input_idle_timer s

ruleset timers_run = (
  schedule_input_idle-Runs, schedule_auth_idle-Runs, schedule_password_clear-Runs,
  cancel_password_clear-Runs, cancel_input_idle-Runs,
)

pub set_input_idle-Runs : (s : State) → Runs s (set_input_idle s)
unfolding set_input_idle
set_input_idle-Runs s = refl

pub set_auth_idle-Runs : (s : State) → Runs s (set_auth_idle s)
unfolding set_auth_idle
set_auth_idle-Runs s = refl

pub clear_password-Runs : (env : Env) (s : State) → Runs s (clear_password env s)
unfolding clear_password
clear_password-Runs env s = simp timers_run

erase_all-Runs : (env : Env) (s : State) → Runs s (erase_all env s)
unfolding erase_all
erase_all-Runs env s = simp timers_run

neutral_key-Runs : (env : Env) (s : State) → Runs s (neutral_key env s)
unfolding neutral_key
neutral_key-Runs env s = simp timers_run

letter_key-Runs : (env : Env) (rand : ℕ) (s : State) (c : ℕ) → Runs s (letter_key env rand s c)
unfolding letter_key update_highlight
letter_key-Runs env rand s c = elim (Bool-cases (c == 0)) [
  | inl z ↦ rw (letter_key, z)
  | inr nz ↦ simp (letter_key, nz, timers_run)
]

backspaced-Runs :
    (env : Env) (rand : ℕ) (s : State) (erased : Bool) → Runs s (backspaced env rand s erased)
unfolding backspaced update_highlight
backspaced-Runs env rand s erased = elim (Bool-cases (erased && not (s.password.len == 0))) [
  | inl more ↦ simp (backspaced, more, timers_run)
  | inr done ↦ simp (backspaced, done, timers_run)
]

submitted-Runs : (env : Env) (s : State) (sent : Bool) → Runs s (submitted env s sent)
unfolding submitted
submitted-Runs env s true = refl
submitted-Runs env s false = simp timers_run

pub >>=-Keeps {ℓ} :
    {A : Type ℓ} (s : State) (m : Outcome A) (f : A → Outcome State)
    → ((a : A) → Keeps s (f a))
    → Keeps s (m >>= f)
>>=-Keeps s (returns a) f k = k a
>>=-Keeps s (exits n) f k = tt
>>=-Keeps s aborts f k = tt
>>=-Keeps s blocks f k = tt
>>=-Keeps s faults f k = tt

pub Keeps-map :
    (s : State) (m : Outcome State) (f : State → State)
    → ((t : State) → (f t).run_display ≡ t.run_display)
    → Keeps s m
    → Keeps s (m >>= λ t. returns (f t))
Keeps-map s (returns t) f k h = k t ∙ h
Keeps-map s (exits n) f k h = tt
Keeps-map s aborts f k h = tt
Keeps-map s blocks f k h = tt
Keeps-map s faults f k h = tt

after_backspace-Keeps :
    (env : Env) (rand : ℕ) (s : State) (o : Option (SwaylockPassword × Bool))
    → Keeps s (after_backspace env rand s o)
unfolding after_backspace
after_backspace-Keeps env rand s none = tt
after_backspace-Keeps env rand s (some (pw, erased)) =
    backspaced-Runs env rand (record s { password = pw }) erased

control_erases :
    (env : Env) (rand : ℕ) (s : State)
    → s.control ≡ true
    → back_space_key env rand s ≡ returns (erase_all env s)
unfolding back_space_key
control_erases env rand s c = simp c

plain_erases :
    (env : Env) (rand : ℕ) (s : State)
    → s.control ≡ false
    → back_space_key env rand s ≡ after_backspace env rand s (Password.backspace s.password)
unfolding back_space_key
plain_erases env rand s c = simp c

back_space_key-Keeps : (env : Env) (rand : ℕ) (s : State) → Keeps s (back_space_key env rand s)
unfolding back_space_key
back_space_key-Keeps env rand s = elim (Bool-cases s.control) [
  | inl c ↦ subst (Keeps s) (sym (control_erases env rand s c)) (erase_all-Runs env s)
  | inr c ↦ subst (Keeps s) (sym (plain_erases env rand s c)) (after_backspace-Keeps env rand s _)
]

request_written-Keeps :
    (env : Env) (s : State) (r : Writer × SwaylockPassword × Bool)
    → Keeps s (request_written env s r)
unfolding request_written
request_written-Keeps env s (w, pw, sent) =
    submitted-Runs env (record s { comm_write = w; password = pw }) sent

submitting-Runs : (s : State) → Runs s (submitting s)
unfolding submitting
submitting-Runs s = simp timers_run

pub Keeps-of_Runs : (s t : State) (o : Outcome State) → Runs s t → Keeps t o → Keeps s o
Keeps-of_Runs s t (returns u) e k = k ∙ e
Keeps-of_Runs s t (exits n) e k = tt
Keeps-of_Runs s t aborts e k = tt
Keeps-of_Runs s t blocks e k = tt
Keeps-of_Runs s t faults e k = tt

-- The three ways through `submit_password`.
pub data Submission (env : Env) (s : State) : Type 0 where
  ignored : submit_password env s ≡ returns s → Submission env s
  sent :
      (s.auth_state ≢ AuthState.validating)
      → submit_password env s ≡ (
          write_comm_request (submitting s).comm_write (submitting s).password
          >>= request_written env (submitting s))
      → Submission env s

pub submission : (env : Env) (s : State) → Submission env s
unfolding submit_password is_validating
submission env s = elim (Bool-cases (s.ignore_empty && s.password.len == 0)) [
  | inl e ↦ ignored (simp e)
  | inr e ↦ elim (Bool-cases (is_validating s.auth_state)) [
    | inl v ↦ ignored (simp (e, v))
    | inr v ↦ sent (λ q. cc (rw q at v)) (simp (e, v))
  ]
]

submit_password-Keeps : (env : Env) (s : State) → Keeps s (submit_password env s)
submit_password-Keeps env s = elim (submission env s) [
  | ignored e ↦ subst (Keeps s) (sym e) refl
  | sent _ e ↦ subst (Keeps s) (sym e) (
      >>=-Keeps s _ (request_written env (submitting s)) (λ r.
        Keeps-of_Runs s (submitting s) _ (submitting-Runs s)
          (request_written-Keeps env (submitting s) r)))
]

if_control-Keeps :
    (s : State) (b : Bool) (x y : Outcome State)
    → Keeps s x
    → Keeps s y
    → Keeps s (if b then x else y)
if_control-Keeps s true x y p q = p
if_control-Keeps s false x y p q = q

-- No key press changes whether the display runs.
pub swaylock_handle_key-Keeps :
    (env : Env) (rand : ℕ) (s : State) (k : Keysym) (c : ℕ)
    → Keeps s (swaylock_handle_key env rand s k c)
unfolding swaylock_handle_key
swaylock_handle_key-Keeps env rand s kp_enter c = submit_password-Keeps env s
swaylock_handle_key-Keeps env rand s return c = submit_password-Keeps env s
swaylock_handle_key-Keeps env rand s delete c = back_space_key-Keeps env rand s
swaylock_handle_key-Keeps env rand s back_space c = back_space_key-Keeps env rand s
swaylock_handle_key-Keeps env rand s escape c = erase_all-Runs env s
swaylock_handle_key-Keeps env rand s key_m c =
    if_control-Keeps s s.control _ _ (submit_password-Keeps env s) (letter_key-Runs env rand s c)
swaylock_handle_key-Keeps env rand s key_d c =
    if_control-Keeps s s.control _ _ (submit_password-Keeps env s) (letter_key-Runs env rand s c)
swaylock_handle_key-Keeps env rand s key_j c =
    if_control-Keeps s s.control _ _ (submit_password-Keeps env s) (letter_key-Runs env rand s c)
swaylock_handle_key-Keeps env rand s key_c c =
    if_control-Keeps s s.control _ _ (erase_all-Runs env s) (letter_key-Runs env rand s c)
swaylock_handle_key-Keeps env rand s key_u c =
    if_control-Keeps s s.control _ _ (erase_all-Runs env s) (letter_key-Runs env rand s c)
swaylock_handle_key-Keeps env rand s other c = letter_key-Runs env rand s c
swaylock_handle_key-Keeps env rand s caps_lock c = neutral_key-Runs env s
swaylock_handle_key-Keeps env rand s shift_l c = neutral_key-Runs env s
swaylock_handle_key-Keeps env rand s shift_r c = neutral_key-Runs env s
swaylock_handle_key-Keeps env rand s control_l c = neutral_key-Runs env s
swaylock_handle_key-Keeps env rand s control_r c = neutral_key-Runs env s
swaylock_handle_key-Keeps env rand s meta_l c = neutral_key-Runs env s
swaylock_handle_key-Keeps env rand s meta_r c = neutral_key-Runs env s
swaylock_handle_key-Keeps env rand s alt_l c = neutral_key-Runs env s
swaylock_handle_key-Keeps env rand s alt_r c = neutral_key-Runs env s
swaylock_handle_key-Keeps env rand s super_l c = neutral_key-Runs env s
swaylock_handle_key-Keeps env rand s super_r c = neutral_key-Runs env s
