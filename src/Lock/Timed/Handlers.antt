-- ===== src/Lock/Timed/Handlers.antt =====
-- Every step of the lock screen keeps the password guarded by the timer that clears it.
use swaylock_plugin.Base.{
  ℕ, ◌==◌, Bool-cases, inl, inr, ◌≡◌, refl, sym, subst, ℤ, Bool, true, false, ◌||◌, Option, none,
  some, if◌then◌else◌, Outcome, returns, exits, aborts, blocks, faults, ◌>>=◌,
}
use swaylock_plugin.EventLoop.{Env, Loop, Mask, loop_remove_fd}
use swaylock_plugin.Comm.{Reader, read_comm_reply}
use swaylock_plugin.Lock.{State, Seat, AuthState, FdCall, TimerCall, drop_timer}
use swaylock_plugin.Lock.Keys.{set_input_idle, set_auth_idle}
use swaylock_plugin.Lock.Handlers.{
  Event, key, leave, keymap, modifiers, repeat_info, enter, motion, button, capabilities, display,
  reply, sigusr1, sigusr2, sleep_notice, timer, step, fire, comm_in, replied, lock_in,
  lock_in_grace, sleep_in, sleep_in_grace, grace_timeout, remove_fd, close_sleep_comm, display_in,
  term_in,
}
use swaylock_plugin.Lock.Input.{
  keyboard_leave, pointer_enter, move_pointer, pointer_motion, next_interval, click, pointer_button,
  seat_handle_capabilities, keyboard_repeat_info,
}
use swaylock_plugin.Lock.Timed.Forget.{
  forget, forget-Sound, same_timers, drop_grace, SameTimers, loop_remove_fd-SameTimers,
}
use swaylock_plugin.Lock.Timed.{nothing, Sound, SoundAt, drop_timer-without}
use swaylock_plugin.Lock.Timed.Rearmed.{Allocates}
use swaylock_plugin.Lock.Timed.Guards.{
  Protected, Guarded, Guards, if-Guards, guard_auth, clear_password-Guarded,
}
use swaylock_plugin.Lock.Timed.Seats.{
  Guards-map, keyboard_key-Guards, keyboard_repeat-Guards, keyboard_keymap-Guards,
  keyboard_modifiers-Guarded, pointer_enter-Guarded, stop_repeat-Guarded,
}

removed-Guards :
    (freed : ℕ → Bool) (s : State) (o : Option (Loop FdCall TimerCall × Bool))
    → SameTimers s.eventloop o
    → Guarded freed s
    → Guards freed
        (elim o [ none ↦ faults | some (loop, _) ↦ returns (record s { eventloop = loop }) ])
removed-Guards freed s none e g = tt
removed-Guards freed s (some (loop, found)) (e, f) (v, h) = (same_timers e f v, h)

remove_fd-Guards :
    (freed : ℕ → Bool) (fd : ℕ) (s : State) → Guarded freed s → Guards freed (remove_fd fd s)
unfolding remove_fd
remove_fd-Guards freed fd s g =
    removed-Guards freed s (loop_remove_fd s.eventloop fd)
      (loop_remove_fd-SameTimers s.eventloop fd) g

close-Guarded :
    (freed : ℕ → Bool) (s : State) → Guarded freed s → Guarded freed (close_sleep_comm s)
unfolding close_sleep_comm
close-Guarded freed s g = g

grace_timeout-Guards :
    (freed : ℕ → Bool) (s : State)
    → Guarded freed (record s { grace_timer = none })
    → Guards freed (grace_timeout s)
unfolding grace_timeout
grace_timeout-Guards freed s g =
    Guards-map freed (remove_fd s.sleep_comm_r (record s { grace_timer = none })) close_sleep_comm
      (close-Guarded freed)
      (remove_fd-Guards freed s.sleep_comm_r (record s { grace_timer = none }) g)

-- The state after the timer of the grace period was removed.
grace_dropped :
    (freed : ℕ → Bool) (s : State) (a : ℕ)
    → s.grace_timer ≡ some a
    → Guarded freed s
    → Guarded freed (record (drop_timer (some a) s) { grace_timer = none })
grace_dropped freed s a e (v, h) = rw drop_timer-without (
  drop_grace (
      subst
        (λ x.
          SoundAt freed s.eventloop s.input_idle_timer s.auth_idle_timer s.clear_password_timer x
            s.seat.repeat_timer)
        e v),
  h,
)

lock_in_grace-Guards :
    (freed : ℕ → Bool) (s : State) (h : Option ℕ)
    → s.grace_timer ≡ h
    → Guarded freed s
    → Guards freed (lock_in_grace h s)
unfolding lock_in_grace
lock_in_grace-Guards freed s none e g = g
lock_in_grace-Guards freed s (some a) e g =
    let t = record (drop_timer (some a) s) { grace_timer = none } in
    Guards-map freed (remove_fd s.sleep_comm_r t) close_sleep_comm (close-Guarded freed)
      (remove_fd-Guards freed s.sleep_comm_r t (grace_dropped freed s a e g))

sleep_in_grace-Guarded :
    (freed : ℕ → Bool) (s : State) (h : Option ℕ)
    → s.grace_timer ≡ h
    → Guarded freed s
    → Guarded freed (sleep_in_grace h s)
unfolding sleep_in_grace
sleep_in_grace-Guarded freed s none e g = g
sleep_in_grace-Guarded freed s (some a) e g =
    close-Guarded freed (record (drop_timer (some a) s) { grace_timer = none })
      (grace_dropped freed s a e g)

sleep_in-Guards : (freed : ℕ → Bool) (s : State) → Guarded freed s → Guards freed (sleep_in s)
unfolding sleep_in
sleep_in-Guards freed s g =
    let t = sleep_in_grace s.grace_timer s in
    remove_fd-Guards freed t.sleep_comm_r t (sleep_in_grace-Guarded freed s s.grace_timer refl g)

replied-Guards :
    (freed : ℕ → Bool) (env : Env) (s : State) (o : Option Bool)
    → Allocates env
    → Guarded freed s
    → Guards freed (replied env s o)
unfolding replied
replied-Guards freed env s none ok g = tt
replied-Guards freed env s (some true) ok g = g
replied-Guards freed env s (some false) ok g =
    guard_auth freed env (record s { auth_state = AuthState.invalid }) ok g

read-Guards :
    (freed : ℕ → Bool) (env : Env) (s : State) (o : Outcome (Reader × Option Bool))
    → Allocates env
    → Guarded freed s
    → Guards freed (o >>= λ (r, answer). replied env (record s { comm_read = r }) answer)
read-Guards freed env s (returns (r, answer)) ok g =
    replied-Guards freed env (record s { comm_read = r }) answer ok g
read-Guards freed env s (exits n) ok g = tt
read-Guards freed env s aborts ok g = tt
read-Guards freed env s blocks ok g = tt
read-Guards freed env s faults ok g = tt

comm_in-Guards :
    (freed : ℕ → Bool) (env : Env) (mask : Mask) (s : State)
    → Allocates env
    → Guarded freed s
    → Guards freed (comm_in env mask s)
unfolding comm_in
comm_in-Guards freed env mask s ok g =
    if-Guards freed mask.pollin _ (if mask.pollhup || mask.pollerr then exits 1 else returns s)
      (read-Guards freed env s (read_comm_reply s.comm_read) ok g)
      (if-Guards freed (mask.pollhup || mask.pollerr) (exits 1) (returns s) tt g)

-- A callback forgets its timer, or arms another, before anything else.
pub fire-Guards :
    (freed : ℕ → Bool) (env : Env) (rand : ℕ) (s : State) (t : TimerCall)
    → Allocates env
    → Sound freed (forget t s)
    → Protected s
    → Guards freed (fire env rand s t)
unfolding fire set_input_idle set_auth_idle
fire-Guards freed env rand s TimerCall.set_input_idle ok v h = (v, h)
fire-Guards freed env rand s TimerCall.set_auth_idle ok v h = (v, h)
fire-Guards freed env rand s TimerCall.clear_password ok v h =
    clear_password-Guarded freed env s ok v
fire-Guards freed env rand s TimerCall.grace_timeout ok v h = grace_timeout-Guards freed s (v, h)
fire-Guards freed env rand s TimerCall.keyboard_repeat ok v h =
    keyboard_repeat-Guards freed env rand s ok (v, h)

interval_repeat :
    (now : ℕ) (seat : Seat) → (next_interval now seat).repeat_timer ≡ seat.repeat_timer
unfolding next_interval
interval_repeat now seat = elim (Bool-cases (now == seat.last_interval)) [
  | inl e ↦ simp e
  | inr e ↦ simp e
]

motion-Guarded :
    (freed : ℕ → Bool) (h : Option ℕ) (now : ℕ) (x y : ℤ) (s : State)
    → Guarded freed s
    → Guarded freed (move_pointer h now x y s)
unfolding move_pointer
motion-Guarded freed none now x y s g = g
motion-Guarded freed (some a) now x y s g =
    subst
      (λ h.
        SoundAt freed s.eventloop s.input_idle_timer s.auth_idle_timer s.clear_password_timer
          s.grace_timer h
        × Protected s)
      (sym (interval_repeat now s.seat)) g

click-Guarded :
    (freed : ℕ → Bool) (h : Option ℕ) (s : State) → Guarded freed s → Guarded freed (click h s)
unfolding click
click-Guarded freed none s g = g
click-Guarded freed (some a) s g = g

display_in-Guarded :
    (freed : ℕ → Bool) (b : Bool) (s : State) → Guarded freed s → Guarded freed (display_in b s)
unfolding display_in
display_in-Guarded freed true s g = g
display_in-Guarded freed false s g = g

pub step-Guards :
    (freed : ℕ → Bool) (env : Env) (rand : ℕ) (s : State) (ev : Event)
    → Allocates env
    → Guarded freed s
    → Guards freed (step env rand s ev)
unfolding step term_in keyboard_leave keyboard_repeat_info pointer_enter pointer_motion
    pointer_button seat_handle_capabilities lock_in
step-Guards freed env rand s (key pressed k c) ok g =
    keyboard_key-Guards freed env rand pressed k c s ok g
step-Guards freed env rand s leave ok g = stop_repeat-Guarded freed s g
step-Guards freed env rand s (keymap k) ok g = keyboard_keymap-Guards freed k s g
step-Guards freed env rand s (modifiers m) ok g = keyboard_modifiers-Guarded freed m s g
step-Guards freed env rand s (repeat_info rate delay) ok g = g
step-Guards freed env rand s (enter now x y) ok g =
    pointer_enter-Guarded freed s.grace_timer now x y s g
step-Guards freed env rand s (motion now x y) ok g = motion-Guarded freed s.grace_timer now x y s g
step-Guards freed env rand s button ok g = click-Guarded freed s.grace_timer s g
step-Guards freed env rand s (capabilities p k) ok g = g
step-Guards freed env rand s (display b) ok g = display_in-Guarded freed b s g
step-Guards freed env rand s (reply mask) ok g = comm_in-Guards freed env mask s ok g
step-Guards freed env rand s sigusr1 ok g = g
step-Guards freed env rand s sigusr2 ok g = lock_in_grace-Guards freed s s.grace_timer refl g
step-Guards freed env rand s sleep_notice ok g = sleep_in-Guards freed s g
step-Guards freed env rand s (timer t) ok (v, h) =
    fire-Guards freed env rand s t ok (forget-Sound freed s t v) h

-- Where no allocation of a timer fails, every event that returns keeps this invariant: each
-- field that holds a timer points to an unmarked node of the loop with that field's callback,
-- every node was allocated before, and a password that is not empty has its clearing timer in
-- the loop.
pub step-Guarded :
    (env : Env) (rand : ℕ) (s s' : State) (ev : Event)
    → Allocates env
    → Guarded nothing s
    → step env rand s ev ≡ returns s'
    → Guarded nothing s'
step-Guarded env rand s s' ev ok g run =
    subst (Guards nothing) run (step-Guards nothing env rand s ev ok g)
