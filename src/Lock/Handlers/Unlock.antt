-- ===== src/Lock/Handlers/Unlock.antt =====
-- What ends the lock.
use swaylock_plugin.Base.{
  ℕ, ◌≡◌, ◌≢◌, refl, subst, inl, inr, Bool, true, false, Bool-cases, Option-cases, ℤ, ◌||◌, Option,
  none, some, Outcome, returns, exits, aborts, blocks, faults, ◌>>=◌, if◌then◌else◌,
}
use swaylock_plugin.EventLoop.{Env, Mask, loop_remove_fd, Loop}
use swaylock_plugin.Comm.{Reader, read_comm_reply}
use swaylock_plugin.Lock.{State, AuthState, TimerCall, FdCall, drop_timer}
use swaylock_plugin.Lock.Keys.Kept.{
  Keeps, Keeps-map, Keeps-of_Runs, schedule_auth_idle-Runs, clear_password-Runs,
  set_input_idle-Runs, set_auth_idle-Runs,
}
use swaylock_plugin.Lock.Keys.{Keysym}
use swaylock_plugin.Lock.Input.Held.{
  keyboard_keymap-Keeps, keyboard_leave-Runs, keyboard_repeat-Keeps, keyboard_key-Keeps,
  released-Keeps, unmapped-Keeps, keyboard_modifiers-Runs, keyboard_repeat_info-Runs,
  pointer_enter-Runs, pointer_motion-Runs, pointer_button-Runs, seat_handle_capabilities-Runs,
}
use swaylock_plugin.Lock.Handlers.{
  Event, key, leave, keymap, modifiers, repeat_info, enter, motion, button, capabilities, display,
  reply, sigusr1, sigusr2, sleep_notice, timer, step, fire, comm_in, replied, lock_in,
  lock_in_grace, sleep_in, sleep_in_grace, grace_timeout, remove_fd, close_sleep_comm, display_in,
}

removed-Keeps :
    (s : State) (o : Option (Loop FdCall TimerCall × Bool))
    → Keeps s (elim o [ none ↦ faults | some (loop, _) ↦ returns (record s { eventloop = loop }) ])
removed-Keeps s none = tt
removed-Keeps s (some (loop, _)) = refl

remove_fd-Keeps : (fd : ℕ) (s : State) → Keeps s (remove_fd fd s)
unfolding remove_fd
remove_fd-Keeps fd s = removed-Keeps s (loop_remove_fd s.eventloop fd)

close_sleep_comm-Runs : (s : State) → (close_sleep_comm s).run_display ≡ s.run_display
unfolding close_sleep_comm
close_sleep_comm-Runs s = refl

grace_timeout-Keeps : (s : State) → Keeps s (grace_timeout s)
unfolding grace_timeout
grace_timeout-Keeps s =
    Keeps-map s (remove_fd s.sleep_comm_r (record s { grace_timer = none })) close_sleep_comm
      close_sleep_comm-Runs (remove_fd-Keeps s.sleep_comm_r (record s { grace_timer = none }))

lock_in_grace-Keeps : (g : Option ℕ) (s : State) → Keeps s (lock_in_grace g s)
unfolding lock_in_grace drop_timer
lock_in_grace-Keeps none s = refl
lock_in_grace-Keeps (some a) s =
    let t = record (drop_timer (some a) s) { grace_timer = none } in
    Keeps-map s (remove_fd s.sleep_comm_r t) close_sleep_comm close_sleep_comm-Runs
      (remove_fd-Keeps s.sleep_comm_r t)

sleep_in_grace-Runs : (g : Option ℕ) (s : State) → (sleep_in_grace g s).run_display ≡ s.run_display
unfolding sleep_in_grace close_sleep_comm drop_timer
sleep_in_grace-Runs none s = refl
sleep_in_grace-Runs (some a) s = refl

sleep_in-Keeps : (s : State) → Keeps s (sleep_in s)
unfolding sleep_in
sleep_in-Keeps s =
    let t = sleep_in_grace s.grace_timer s in
    Keeps-of_Runs s t (remove_fd t.sleep_comm_r t) (sleep_in_grace-Runs s.grace_timer s)
      (remove_fd-Keeps t.sleep_comm_r t)

fire-Keeps : (env : Env) (rand : ℕ) (s : State) (t : TimerCall) → Keeps s (fire env rand s t)
unfolding fire
fire-Keeps env rand s TimerCall.set_input_idle = set_input_idle-Runs s
fire-Keeps env rand s TimerCall.set_auth_idle = set_auth_idle-Runs s
fire-Keeps env rand s TimerCall.clear_password = clear_password-Runs env s
fire-Keeps env rand s TimerCall.grace_timeout = grace_timeout-Keeps s
fire-Keeps env rand s TimerCall.keyboard_repeat = keyboard_repeat-Keeps env rand s

-- What may end the lock in state `s`: the loss of the compositor, a positive reply of the password
-- checker, SIGUSR1, and input in the grace period.
pub data Release (s : State) : Event → Type 0 where
  lost : Release s (display false)
  granted :
      (mask : Mask) (r : Reader)
      → mask.pollin ≡ true
      → read_comm_reply s.comm_read ≡ returns (r, some true)
      → Release s (reply mask)
  terminated : Release s sigusr1
  pressed :
      (a : ℕ) (k : Keysym) (c : ℕ)
      → s.grace_timer ≡ some a
      → s.xkb_state ≡ true
      → Release s (key true k c)
  moved : (a now : ℕ) (x y : ℤ) → s.grace_timer ≡ some a → Release s (motion now x y)
  clicked : (a : ℕ) → s.grace_timer ≡ some a → Release s button

kept :
    (s s' : State) (o : Outcome State)
    → s.run_display ≡ true
    → o ≡ returns s'
    → s'.run_display ≡ false
    → ¬ Keeps s o
kept s s' o up run down k =
    let e : s'.run_display ≡ s.run_display = subst (Keeps s) run k in cc (up, e, down)

replied-Keeps :
    (env : Env) (s : State) (r : Reader) (o : Option Bool)
    → o ≢ some true
    → Keeps s (replied env (record s { comm_read = r }) o)
unfolding replied
replied-Keeps env s r none h = tt
replied-Keeps env s r (some true) h = elim (h refl) [ ]
replied-Keeps env s r (some false) h =
    schedule_auth_idle-Runs env (record s { comm_read = r; auth_state = AuthState.invalid })

read-Release :
    (env : Env) (s s' : State) (mask : Mask) (o : Outcome (Reader × Option Bool))
    → mask.pollin ≡ true
    → read_comm_reply s.comm_read ≡ o
    → s.run_display ≡ true
    → (o >>= λ (r, answer). replied env (record s { comm_read = r }) answer) ≡ returns s'
    → s'.run_display ≡ false
    → Release s (reply mask)
read-Release env s s' mask (returns (r, some true)) p q up run down = granted mask r p q
read-Release env s s' mask (returns (r, some false)) p q up run down =
    elim (kept s s' _ up run down (replied-Keeps env s r (some false) (λ e. cc e))) [ ]
read-Release env s s' mask (returns (r, none)) p q up run down =
    elim (kept s s' _ up run down (replied-Keeps env s r none (λ e. cc e))) [ ]
read-Release env s s' mask (exits n) p q up run down = elim (kept s s' _ up run down tt) [ ]
read-Release env s s' mask aborts p q up run down = elim (kept s s' _ up run down tt) [ ]
read-Release env s s' mask blocks p q up run down = elim (kept s s' _ up run down tt) [ ]
read-Release env s s' mask faults p q up run down = elim (kept s s' _ up run down tt) [ ]

hung_up-Keeps : (s : State) (b : Bool) → Keeps s (if b then exits 1 else returns s)
hung_up-Keeps s true = tt
hung_up-Keeps s false = refl

comm_in-Release :
    (env : Env) (s s' : State) (mask : Mask)
    → s.run_display ≡ true
    → comm_in env mask s ≡ returns s'
    → s'.run_display ≡ false
    → Release s (reply mask)
unfolding comm_in
comm_in-Release env s s' mask up run down = elim (Bool-cases mask.pollin) [
  | inl p ↦ read-Release env s s' mask (read_comm_reply s.comm_read) p refl up (simp p at run) down
  | inr p ↦
      elim (kept s s' _ up (simp p at run) down
        (hung_up-Keeps s (mask.pollhup || mask.pollerr))) [ ]
]

-- While the display runs, a step that returns with the display stopped is the loss of the
-- compositor, SIGUSR1, an answer of the password checker that read_comm_reply read as true, or,
-- with a grace timer, a key that is pressed with a keymap, a pointer motion or a pointer button;
-- no other event (a key after the grace period, a timer, SIGUSR2, a sleep notice, a refused
-- password) opens the lock.
pub step-Release :
    (env : Env) (rand : ℕ) (s s' : State) (ev : Event)
    → s.run_display ≡ true
    → step env rand s ev ≡ returns s'
    → s'.run_display ≡ false
    → Release s ev
unfolding step display_in lock_in
step-Release env rand s s' (key false k c) up run down =
    elim (kept s s' _ up run down (released-Keeps env rand k c s)) [ ]
step-Release env rand s s' (key true k c) up run down = elim (Option-cases s.grace_timer) [
  | inl over ↦ elim (kept s s' _ up run down (keyboard_key-Keeps env rand true k c s over)) [ ]
  | inr (a, grace) ↦ elim (Bool-cases s.xkb_state) [
    | inl xkb ↦ pressed a k c grace xkb
    | inr xkb ↦ elim (kept s s' _ up run down (unmapped-Keeps env rand true k c s xkb)) [ ]
  ]
]
step-Release env rand s s' leave up run down =
    elim (kept s s' _ up run down (keyboard_leave-Runs s)) [ ]
step-Release env rand s s' (keymap k) up run down =
    elim (kept s s' _ up run down (keyboard_keymap-Keeps k s)) [ ]
step-Release env rand s s' (modifiers m) up run down =
    elim (kept s s' _ up run down (keyboard_modifiers-Runs m s)) [ ]
step-Release env rand s s' (repeat_info rate delay) up run down =
    elim (kept s s' _ up run down (keyboard_repeat_info-Runs rate delay s)) [ ]
step-Release env rand s s' (enter now x y) up run down =
    elim (kept s s' _ up run down (pointer_enter-Runs now x y s)) [ ]
step-Release env rand s s' (motion now x y) up run down = elim (Option-cases s.grace_timer) [
  | inl over ↦ elim (kept s s' _ up run down (pointer_motion-Runs now x y s over)) [ ]
  | inr (a, grace) ↦ moved a now x y grace
]
step-Release env rand s s' button up run down = elim (Option-cases s.grace_timer) [
  | inl over ↦ elim (kept s s' _ up run down (pointer_button-Runs s over)) [ ]
  | inr (a, grace) ↦ clicked a grace
]
step-Release env rand s s' (capabilities p k) up run down =
    elim (kept s s' _ up run down (seat_handle_capabilities-Runs p k s)) [ ]
step-Release env rand s s' (display true) up run down = elim (kept s s' _ up run down refl) [ ]
step-Release env rand s s' (display false) up run down = lost
step-Release env rand s s' (reply mask) up run down = comm_in-Release env s s' mask up run down
step-Release env rand s s' sigusr1 up run down = terminated
step-Release env rand s s' sigusr2 up run down =
    elim (kept s s' _ up run down (lock_in_grace-Keeps s.grace_timer s)) [ ]
step-Release env rand s s' sleep_notice up run down =
    elim (kept s s' _ up run down (sleep_in-Keeps s)) [ ]
step-Release env rand s s' (timer t) up run down =
    elim (kept s s' _ up run down (fire-Keeps env rand s t)) [ ]
