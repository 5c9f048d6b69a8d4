-- ===== src/Lock/Timed/Seats.antt =====
-- Keyboard and pointer events keep a password guarded by its timer.
use swaylock_plugin.Base.{
  differ, ℕ, ℤ, Bool, true, false, not, ◌||◌, Option, none, some, if◌then◌else◌, Outcome, returns,
  exits, aborts, blocks, faults, ◌>>=◌,
}
use swaylock_plugin.EventLoop.{Env}
use swaylock_plugin.Lock.{State}
use swaylock_plugin.Lock.Keys.{
  Keysym, kp_enter, return, delete, back_space, escape, caps_lock, shift_l, shift_r, control_l,
  control_r, meta_l, meta_r, alt_l, alt_r, super_l, super_r, key_m, key_d, key_j, key_c, key_u,
  other, swaylock_handle_key, erase_all, letter_key,
}
use swaylock_plugin.Lock.Input.{
  Keymap, no_keymap, unknown_format, xkb_v1, keyboard_keymap, stop_repeat, arm_repeat,
  keyboard_repeat, after_key, press_key, keyboard_key, Modifiers, keyboard_modifiers, enter_pointer,
}
use swaylock_plugin.Lock.Timed.{SoundAt, drop_timer-without}
use swaylock_plugin.Lock.Timed.Rearmed.{Allocates}
use swaylock_plugin.Lock.Timed.Keys.{stop_repeat-Sound, arm_repeat-Sound}
use swaylock_plugin.Lock.Timed.Guards.{
  Protected, Guarded, Guards, if-Guarded, if-Guards, erase_all-Guarded, neutral_key-Guarded,
}
use swaylock_plugin.Lock.Timed.Steps.{
  submit_password-Guards, back_space_key-Guards, letter_key-Guarded,
}

pub swaylock_handle_key-Guards :
    (freed : ℕ → Bool) (env : Env) (rand : ℕ) (s : State) (k : Keysym) (c : ℕ)
    → Allocates env
    → Guarded freed s
    → Guards freed (swaylock_handle_key env rand s k c)
unfolding swaylock_handle_key
swaylock_handle_key-Guards freed env rand s kp_enter c ok g =
    submit_password-Guards freed env s ok g
swaylock_handle_key-Guards freed env rand s return c ok g = submit_password-Guards freed env s ok g
swaylock_handle_key-Guards freed env rand s delete c ok g =
    back_space_key-Guards freed env rand s ok (g.0)
swaylock_handle_key-Guards freed env rand s back_space c ok g =
    back_space_key-Guards freed env rand s ok (g.0)
swaylock_handle_key-Guards freed env rand s escape c ok g = erase_all-Guarded freed env s ok (g.0)
swaylock_handle_key-Guards freed env rand s key_m c ok g =
    if-Guards freed s.control _ (returns (letter_key env rand s c))
      (submit_password-Guards freed env s ok g) (letter_key-Guarded freed env rand s c ok g)
swaylock_handle_key-Guards freed env rand s key_d c ok g =
    if-Guards freed s.control _ (returns (letter_key env rand s c))
      (submit_password-Guards freed env s ok g) (letter_key-Guarded freed env rand s c ok g)
swaylock_handle_key-Guards freed env rand s key_j c ok g =
    if-Guards freed s.control _ (returns (letter_key env rand s c))
      (submit_password-Guards freed env s ok g) (letter_key-Guarded freed env rand s c ok g)
swaylock_handle_key-Guards freed env rand s key_c c ok g =
    if-Guards freed s.control (returns (erase_all env s)) (returns (letter_key env rand s c))
      (erase_all-Guarded freed env s ok (g.0)) (letter_key-Guarded freed env rand s c ok g)
swaylock_handle_key-Guards freed env rand s key_u c ok g =
    if-Guards freed s.control (returns (erase_all env s)) (returns (letter_key env rand s c))
      (erase_all-Guarded freed env s ok (g.0)) (letter_key-Guarded freed env rand s c ok g)
swaylock_handle_key-Guards freed env rand s other c ok g =
    letter_key-Guarded freed env rand s c ok g
swaylock_handle_key-Guards freed env rand s caps_lock c ok g =
    neutral_key-Guarded freed env s ok (g.0)
swaylock_handle_key-Guards freed env rand s shift_l c ok g =
    neutral_key-Guarded freed env s ok (g.0)
swaylock_handle_key-Guards freed env rand s shift_r c ok g =
    neutral_key-Guarded freed env s ok (g.0)
swaylock_handle_key-Guards freed env rand s control_l c ok g =
    neutral_key-Guarded freed env s ok (g.0)
swaylock_handle_key-Guards freed env rand s control_r c ok g =
    neutral_key-Guarded freed env s ok (g.0)
swaylock_handle_key-Guards freed env rand s meta_l c ok g = neutral_key-Guarded freed env s ok (g.0)
swaylock_handle_key-Guards freed env rand s meta_r c ok g = neutral_key-Guarded freed env s ok (g.0)
swaylock_handle_key-Guards freed env rand s alt_l c ok g = neutral_key-Guarded freed env s ok (g.0)
swaylock_handle_key-Guards freed env rand s alt_r c ok g = neutral_key-Guarded freed env s ok (g.0)
swaylock_handle_key-Guards freed env rand s super_l c ok g =
    neutral_key-Guarded freed env s ok (g.0)
swaylock_handle_key-Guards freed env rand s super_r c ok g =
    neutral_key-Guarded freed env s ok (g.0)

pub Guards-map :
    (freed : ℕ → Bool) (m : Outcome State) (f : State → State)
    → ((t : State) → Guarded freed t → Guarded freed (f t))
    → Guards freed m
    → Guards freed (m >>= λ t. returns (f t))
Guards-map freed (returns t) f k g = k t g
Guards-map freed (exits n) f k g = tt
Guards-map freed aborts f k g = tt
Guards-map freed blocks f k g = tt
Guards-map freed faults f k g = tt

stop_repeat-Protected : (s : State) → Protected s → Protected (stop_repeat s)
unfolding stop_repeat
stop_repeat-Protected s h = rw drop_timer-without h

pub stop_repeat-Guarded :
    (freed : ℕ → Bool) (s : State) → Guarded freed s → Guarded freed (stop_repeat s)
stop_repeat-Guarded freed s (v, h) = (stop_repeat-Sound freed s v, stop_repeat-Protected s h)

-- The field of the key repeat may point anywhere before a timer is armed.
abbrev pub Unrepeated : (ℕ → Bool) → State → Type 0
Unrepeated freed s =
    SoundAt freed s.eventloop s.input_idle_timer s.auth_idle_timer s.clear_password_timer
      s.grace_timer none
    × Protected s

pub arm_repeat-Guarded :
    (freed : ℕ → Bool) (env : Env) (ms : ℤ) (s : State)
    → Allocates env
    → Unrepeated freed s
    → Guarded freed (arm_repeat env ms s)
unfolding arm_repeat
arm_repeat-Guarded freed env ms s ok (v, h) = (arm_repeat-Sound freed env ms s ok v, h)

pub stop_repeat-Unrepeated :
    (freed : ℕ → Bool) (s : State)
    → Guarded freed (stop_repeat s)
    → Unrepeated freed (stop_repeat s)
unfolding stop_repeat
stop_repeat-Unrepeated freed s g = g

pub keyboard_repeat-Guards :
    (freed : ℕ → Bool) (env : Env) (rand : ℕ) (s : State)
    → Allocates env
    → Unrepeated freed s
    → Guards freed (keyboard_repeat env rand s)
unfolding keyboard_repeat
keyboard_repeat-Guards freed env rand s ok g =
    let s' = arm_repeat env s.seat.repeat_period_ms s in
    swaylock_handle_key-Guards freed env rand s' s'.seat.repeat_sym s'.seat.repeat_codepoint ok
      (arm_repeat-Guarded freed env s.seat.repeat_period_ms s ok g)

after_key-Guarded :
    (freed : ℕ → Bool) (env : Env) (pressed : Bool) (k : Keysym) (c : ℕ) (s : State)
    → Allocates env
    → Guarded freed s
    → Guarded freed (after_key env pressed k c s)
unfolding after_key
after_key-Guarded freed env pressed k c s ok g =
    let s' = stop_repeat s in
    let t = record s' { seat = record s'.seat { repeat_sym = k; repeat_codepoint = c } } in
    if-Guarded freed _ _ _
      (λ _.
        arm_repeat-Guarded freed env s'.seat.repeat_delay_ms t ok
          (stop_repeat-Unrepeated freed s (stop_repeat-Guarded freed s g)))
      (λ _. stop_repeat-Guarded freed s g)

press_key-Guards :
    (freed : ℕ → Bool) (env : Env) (rand : ℕ) (grace : Option ℕ) (k : Keysym) (c : ℕ) (s : State)
    → Allocates env
    → Guarded freed s
    → Guards freed (press_key env rand grace k c s)
unfolding press_key
press_key-Guards freed env rand (some a) k c s ok g = g
press_key-Guards freed env rand none k c s ok g =
    Guards-map freed (swaylock_handle_key env rand s k c) (after_key env true k c)
      (λ t. after_key-Guarded freed env true k c t ok)
      (swaylock_handle_key-Guards freed env rand s k c ok g)

pub keyboard_key-Guards :
    (freed : ℕ → Bool) (env : Env) (rand : ℕ) (pressed : Bool) (k : Keysym) (c : ℕ) (s : State)
    → Allocates env
    → Guarded freed s
    → Guards freed (keyboard_key env rand pressed k c s)
unfolding keyboard_key
keyboard_key-Guards freed env rand pressed k c s ok g =
    if-Guards freed (not s.xkb_state) (returns s)
      (if pressed
        then press_key env rand s.grace_timer k c s
        else returns (after_key env false k c s))
      g
      (if-Guards freed pressed (press_key env rand s.grace_timer k c s)
        (returns (after_key env false k c s))
        (press_key-Guards freed env rand s.grace_timer k c s ok g)
        (after_key-Guarded freed env false k c s ok g))

pub keyboard_keymap-Guards :
    (freed : ℕ → Bool) (k : Keymap) (s : State)
    → Guarded freed s
    → Guards freed (keyboard_keymap k s)
unfolding keyboard_keymap
keyboard_keymap-Guards freed no_keymap s g = g
keyboard_keymap-Guards freed unknown_format s g = g
keyboard_keymap-Guards freed (xkb_v1 false compiled) s g = tt
keyboard_keymap-Guards freed (xkb_v1 true false) s g = tt
keyboard_keymap-Guards freed (xkb_v1 true true) s g = g

pub keyboard_modifiers-Guarded :
    (freed : ℕ → Bool) (m : Modifiers) (s : State)
    → Guarded freed s
    → Guarded freed (keyboard_modifiers m s)
unfolding keyboard_modifiers
keyboard_modifiers-Guarded freed m s g =
    let changed = differ m.caps s.xkb_caps_lock || not m.layout_same in
    let t = record s { xkb_caps_lock = m.caps; dirty = true; control = m.ctrl } in
    let u = record s { control = m.ctrl } in
    if-Guarded freed (not s.xkb_state) s (if changed then t else u) (λ _. g)
      (λ _. if-Guarded freed changed t u (λ _. g) (λ _. g))

pub pointer_enter-Guarded :
    (freed : ℕ → Bool) (h : Option ℕ) (now : ℕ) (x y : ℤ) (s : State)
    → Guarded freed s
    → Guarded freed (enter_pointer h now x y s)
unfolding enter_pointer
pointer_enter-Guarded freed none now x y s g = g
pointer_enter-Guarded freed (some a) now x y s g = g
