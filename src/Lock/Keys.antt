-- ===== src/Lock/Keys.antt =====
-- password.c: what a key press does, the timers it arms and the callbacks of those timers.
pub mod Kept
use swaylock_plugin.Base.{
  pos, ℕ, zero, suc, ◌+◌, ◌%◌, ◌^◌, Bool, true, false, not, ◌&&◌, Option, none, some, ◌==◌,
  if◌then◌else◌, u32, Outcome, returns, exits, aborts, blocks, faults, ◌>>=◌,
}
use swaylock_plugin.EventLoop.{Env, loop_add_timer, loop_remove_timer}
use swaylock_plugin.Password
use swaylock_plugin.Password.{SwaylockPassword, clear_password_buffer, append_ch}
use swaylock_plugin.Comm.{Writer, write_comm_request}
pub use swaylock_plugin.Lock.{
  Keysym, kp_enter, return, delete, back_space, escape, caps_lock, shift_l, shift_r, control_l,
  control_r, meta_l, meta_r, alt_l, alt_r, super_l, super_r, key_m, key_d, key_j, key_c, key_u,
  other,
}
use swaylock_plugin.Lock.{State, AuthState, InputState, TimerCall, damage_state, drop_timer}

unfoldable pub schedule_input_idle : Env → State → State
unfolding drop_timer
schedule_input_idle env s =
    let s' = drop_timer s.input_idle_timer s in
    let (loop, timer) = loop_add_timer env s'.eventloop (pos 1500) TimerCall.set_input_idle in
    record s' { eventloop = loop; input_idle_timer = timer }

unfoldable pub cancel_input_idle : State → State
unfolding drop_timer
cancel_input_idle s = record (drop_timer s.input_idle_timer s) { input_idle_timer = none }

unfoldable pub schedule_auth_idle : Env → State → State
unfolding drop_timer
schedule_auth_idle env s =
    let s' = drop_timer s.auth_idle_timer s in
    let (loop, timer) = loop_add_timer env s'.eventloop (pos 3000) TimerCall.set_auth_idle in
    record s' { eventloop = loop; auth_idle_timer = timer }

unfoldable pub schedule_password_clear : Env → State → State
unfolding drop_timer
schedule_password_clear env s =
    let s' = drop_timer s.clear_password_timer s in
    let (loop, timer) = loop_add_timer env s'.eventloop (pos 10000) TimerCall.clear_password in
    record s' { eventloop = loop; clear_password_timer = timer }

unfoldable pub cancel_password_clear : State → State
unfolding drop_timer
cancel_password_clear s = record (drop_timer s.clear_password_timer s) {
  clear_password_timer = none;
}

-- The callbacks of the timers.
unfoldable pub set_input_idle : State → State
set_input_idle s =
    damage_state (record s { input_idle_timer = none; input_state = InputState.idle })

unfoldable pub set_auth_idle : State → State
set_auth_idle s = damage_state (record s { auth_idle_timer = none; auth_state = AuthState.idle })

unfoldable pub clear_password : Env → State → State
unfolding schedule_input_idle
clear_password env s =
    let s₁ = record s { clear_password_timer = none; input_state = InputState.clear } in
    let s₂ = schedule_input_idle env s₁ in
    damage_state (record s₂ { password = clear_password_buffer s₂.password })

pub is_validating : AuthState → Bool
is_validating AuthState.validating = true
is_validating _ = false

-- After the request was sent, or failed.
unfoldable pub submitted : Env → State → Bool → State
unfolding schedule_auth_idle
submitted env s true = damage_state s
submitted env s false =
    damage_state (schedule_auth_idle env (record s { auth_state = AuthState.invalid }))

-- The result of `write_comm_request`, with the writer and the password that it leaves.
unfoldable pub request_written : Env → State → Writer × SwaylockPassword × Bool → Outcome State
unfolding submitted
request_written env s (w, pw, sent) =
    returns (submitted env (record s { comm_write = w; password = pw }) sent)

-- The assignments of `submit_password` before the request.
unfoldable pub submitting : State → State
unfolding cancel_password_clear cancel_input_idle
submitting s = cancel_input_idle (
    cancel_password_clear
      (record s { input_state = InputState.idle; auth_state = AuthState.validating }))

unfoldable pub submit_password : Env → State → Outcome State
unfolding is_validating submitting request_written
submit_password env s =
    if s.ignore_empty && s.password.len == 0
    then returns s
    else if is_validating s.auth_state
    then returns s
    else (let s' = submitting s in
        write_comm_request s'.comm_write s'.password >>= request_written env s')

-- `rand()` comes from outside.
unfoldable pub update_highlight : ℕ → State → State
update_highlight rand s = record s {
  highlight_start = u32 (s.highlight_start + rand % 1024 + 512) % 2048;
}

-- Escape, and the control keys that erase everything.
unfoldable pub erase_all : Env → State → State
unfolding cancel_password_clear schedule_input_idle
erase_all env s =
    let s₁ = record s {
      password = clear_password_buffer s.password;
      input_state = InputState.clear;
    } in
    damage_state (schedule_input_idle env (cancel_password_clear s₁))

-- Backspace after the buffer's own backspace answered `erased`.
unfoldable pub backspaced : Env → ℕ → State → Bool → State
unfolding schedule_password_clear cancel_password_clear schedule_input_idle update_highlight
backspaced env rand s erased =
    let s₁ =
      if erased && not (s.password.len == 0)
      then update_highlight rand
          (schedule_password_clear env (record s { input_state = InputState.backspace }))
      else cancel_password_clear (record s { input_state = InputState.clear }) in
    damage_state (schedule_input_idle env s₁)

unfoldable pub neutral_key : Env → State → State
unfolding schedule_password_clear schedule_input_idle
neutral_key env s = damage_state (
    schedule_input_idle env
      (schedule_password_clear env (record s { input_state = InputState.neutral })))

-- The default case.
unfoldable pub letter_key : Env → ℕ → State → ℕ → State
unfolding schedule_password_clear schedule_input_idle update_highlight
letter_key env rand s codepoint =
    if codepoint == 0
    then s
    else (let s₁ = record s {
      password = append_ch s.password codepoint;
      input_state = InputState.letter;
    } in
        damage_state
          (update_highlight rand (schedule_input_idle env (schedule_password_clear env s₁))))

unfoldable pub after_backspace : Env → ℕ → State → Option (SwaylockPassword × Bool) → Outcome State
unfolding backspaced
after_backspace env rand s none = faults
after_backspace env rand s (some (pw, erased)) =
    returns (backspaced env rand (record s { password = pw }) erased)

unfoldable pub back_space_key : Env → ℕ → State → Outcome State
unfolding erase_all after_backspace
back_space_key env rand s =
    if s.control
    then returns (erase_all env s)
    else after_backspace env rand s (Password.backspace s.password)

-- The switch of `swaylock_handle_key`, with its fallthroughs.
unfoldable pub swaylock_handle_key : Env → ℕ → State → Keysym → ℕ → Outcome State
unfolding submit_password erase_all neutral_key letter_key back_space_key
swaylock_handle_key env rand s kp_enter c = submit_password env s
swaylock_handle_key env rand s return c = submit_password env s
swaylock_handle_key env rand s delete c = back_space_key env rand s
swaylock_handle_key env rand s back_space c = back_space_key env rand s
swaylock_handle_key env rand s escape c = returns (erase_all env s)
swaylock_handle_key env rand s key_m c =
    if s.control then submit_password env s else returns (letter_key env rand s c)
swaylock_handle_key env rand s key_d c =
    if s.control then submit_password env s else returns (letter_key env rand s c)
swaylock_handle_key env rand s key_j c =
    if s.control then submit_password env s else returns (letter_key env rand s c)
swaylock_handle_key env rand s key_c c =
    if s.control then returns (erase_all env s) else returns (letter_key env rand s c)
swaylock_handle_key env rand s key_u c =
    if s.control then returns (erase_all env s) else returns (letter_key env rand s c)
swaylock_handle_key env rand s other c = returns (letter_key env rand s c)
swaylock_handle_key env rand s caps_lock c = returns (neutral_key env s)
swaylock_handle_key env rand s shift_l c = returns (neutral_key env s)
swaylock_handle_key env rand s shift_r c = returns (neutral_key env s)
swaylock_handle_key env rand s control_l c = returns (neutral_key env s)
swaylock_handle_key env rand s control_r c = returns (neutral_key env s)
swaylock_handle_key env rand s meta_l c = returns (neutral_key env s)
swaylock_handle_key env rand s meta_r c = returns (neutral_key env s)
swaylock_handle_key env rand s alt_l c = returns (neutral_key env s)
swaylock_handle_key env rand s alt_r c = returns (neutral_key env s)
swaylock_handle_key env rand s super_l c = returns (neutral_key env s)
swaylock_handle_key env rand s super_r c = returns (neutral_key env s)
