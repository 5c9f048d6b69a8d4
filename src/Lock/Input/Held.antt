-- ===== src/Lock/Input/Held.antt =====
-- Input changes whether the display runs only in the grace period.
use swaylock_plugin.Base.{
  differ, ℕ, ◌≡◌, refl, sym, subst, ap, ◌∙◌, inl, inr, ℤ, Bool, true, false, not, ◌||◌, Option,
  none, some, Bool-cases, if◌then◌else◌, Outcome, returns,
}
use swaylock_plugin.EventLoop.{Env}
use swaylock_plugin.Lock.{State}
use swaylock_plugin.Lock.Keys.{Keysym, swaylock_handle_key}
use swaylock_plugin.Lock.Keys.Kept.{
  Keeps, Keeps-map, Keeps-of_Runs, drop_timer-Runs, swaylock_handle_key-Keeps,
}
use swaylock_plugin.Lock.Input.{
  Keymap, no_keymap, unknown_format, xkb_v1, keyboard_keymap, stop_repeat, keyboard_leave,
  arm_repeat, keyboard_repeat, after_key, press_key, keyboard_key, Modifiers, differ,
  keyboard_modifiers, keyboard_repeat_info, enter_pointer, pointer_enter, move_pointer,
  pointer_motion, click, pointer_button, seat_handle_capabilities,
}

abbrev Runs : State → State → Type 0
Runs s s' = s'.run_display ≡ s.run_display

pub keyboard_keymap-Keeps : (k : Keymap) (s : State) → Keeps s (keyboard_keymap k s)
unfolding keyboard_keymap
keyboard_keymap-Keeps no_keymap s = refl
keyboard_keymap-Keeps unknown_format s = refl
keyboard_keymap-Keeps (xkb_v1 false compiled) s = tt
keyboard_keymap-Keeps (xkb_v1 true false) s = tt
keyboard_keymap-Keeps (xkb_v1 true true) s = refl

stop_repeat-Runs : (s : State) → Runs s (stop_repeat s)
unfolding stop_repeat
stop_repeat-Runs s = drop_timer-Runs s.seat.repeat_timer s

pub keyboard_leave-Runs : (s : State) → Runs s (keyboard_leave s)
unfolding keyboard_leave
keyboard_leave-Runs s = stop_repeat-Runs s

arm_repeat-Runs : (env : Env) (ms : ℤ) (s : State) → Runs s (arm_repeat env ms s)
unfolding arm_repeat
arm_repeat-Runs env ms s = refl

pub keyboard_repeat-Keeps :
    (env : Env) (rand : ℕ) (s : State) → Keeps s (keyboard_repeat env rand s)
unfolding keyboard_repeat
keyboard_repeat-Keeps env rand s =
    let s' = arm_repeat env s.seat.repeat_period_ms s in
    Keeps-of_Runs s s' _ (arm_repeat-Runs env s.seat.repeat_period_ms s)
      (swaylock_handle_key-Keeps env rand s' s'.seat.repeat_sym s'.seat.repeat_codepoint)

if-Runs : (s t u : State) (b : Bool) → Runs s t → Runs s u → Runs s (if b then t else u)
if-Runs s t u true p q = p
if-Runs s t u false p q = q

after_key-Runs :
    (env : Env) (pressed : Bool) (k : Keysym) (c : ℕ) (s : State)
    → Runs s (after_key env pressed k c s)
unfolding after_key
after_key-Runs env pressed k c s =
    let s' = stop_repeat s in
    let t = record s' { seat = record s'.seat { repeat_sym = k; repeat_codepoint = c } } in
    if-Runs s _ _ _ (arm_repeat-Runs env s'.seat.repeat_delay_ms t ∙ stop_repeat-Runs s)
      (stop_repeat-Runs s)

press_key-Keeps :
    (env : Env) (rand : ℕ) (k : Keysym) (c : ℕ) (s : State)
    → Keeps s (press_key env rand none k c s)
unfolding press_key
press_key-Keeps env rand k c s =
    Keeps-map s (swaylock_handle_key env rand s k c) (after_key env true k c)
      (after_key-Runs env true k c) (swaylock_handle_key-Keeps env rand s k c)

if-Keeps :
    (s : State) (b : Bool) (x y : Outcome State)
    → Keeps s x
    → Keeps s y
    → Keeps s (if b then x else y)
if-Keeps s true x y p q = p
if-Keeps s false x y p q = q

pub keyboard_key-Keeps :
    (env : Env) (rand : ℕ) (pressed : Bool) (k : Keysym) (c : ℕ) (s : State)
    → s.grace_timer ≡ none
    → Keeps s (keyboard_key env rand pressed k c s)
unfolding keyboard_key
keyboard_key-Keeps env rand pressed k c s over =
    if-Keeps s (not s.xkb_state) (returns s)
      (if pressed
        then press_key env rand s.grace_timer k c s
        else returns (after_key env false k c s))
      refl
      (if-Keeps s pressed (press_key env rand s.grace_timer k c s)
        (returns (after_key env false k c s))
        (subst (λ g. Keeps s (press_key env rand g k c s)) (sym over)
          (press_key-Keeps env rand k c s))
        (after_key-Runs env false k c s))

-- A released key never stops the display.
pub released-Keeps :
    (env : Env) (rand : ℕ) (k : Keysym) (c : ℕ) (s : State)
    → Keeps s (keyboard_key env rand false k c s)
unfolding keyboard_key
released-Keeps env rand k c s =
    if-Keeps s (not s.xkb_state) (returns s) (returns (after_key env false k c s)) refl
      (after_key-Runs env false k c s)

-- Nor does a key without a keymap.
pub unmapped-Keeps :
    (env : Env) (rand : ℕ) (pressed : Bool) (k : Keysym) (c : ℕ) (s : State)
    → s.xkb_state ≡ false
    → Keeps s (keyboard_key env rand pressed k c s)
unfolding keyboard_key
unmapped-Keeps env rand pressed k c s e =
    subst
      (λ b. Keeps s (
        if not b
        then returns s
        else if pressed
        then press_key env rand s.grace_timer k c s
        else returns (after_key env false k c s)))
      (sym e) refl

pub keyboard_modifiers-Runs : (m : Modifiers) (s : State) → Runs s (keyboard_modifiers m s)
unfolding keyboard_modifiers
keyboard_modifiers-Runs m s = elim (Bool-cases s.xkb_state) [
  | inr off ↦ simp off
  | inl on ↦ elim (Bool-cases (differ m.caps s.xkb_caps_lock || not m.layout_same)) [
    | inl changed ↦ simp (on, changed)
    | inr same ↦ simp (on, same)
  ]
]

pub keyboard_repeat_info-Runs :
    (rate delay : ℤ) (s : State) → Runs s (keyboard_repeat_info rate delay s)
unfolding keyboard_repeat_info
keyboard_repeat_info-Runs rate delay s = refl

enter_pointer-Runs :
    (g : Option ℕ) (now : ℕ) (x y : ℤ) (s : State) → Runs s (enter_pointer g now x y s)
unfolding enter_pointer
enter_pointer-Runs none now x y s = refl
enter_pointer-Runs (some a) now x y s = refl

pub pointer_enter-Runs : (now : ℕ) (x y : ℤ) (s : State) → Runs s (pointer_enter now x y s)
unfolding pointer_enter
pointer_enter-Runs now x y s = enter_pointer-Runs s.grace_timer now x y s

pub pointer_motion-Runs :
    (now : ℕ) (x y : ℤ) (s : State) → s.grace_timer ≡ none → Runs s (pointer_motion now x y s)
unfolding pointer_motion move_pointer
pointer_motion-Runs now x y s over = ap (λ g. (move_pointer g now x y s).run_display) over

pub pointer_button-Runs : (s : State) → s.grace_timer ≡ none → Runs s (pointer_button s)
unfolding pointer_button click
pointer_button-Runs s over = ap (λ g. (click g s).run_display) over

pub seat_handle_capabilities-Runs :
    (pointer keyboard : Bool) (s : State) → Runs s (seat_handle_capabilities pointer keyboard s)
unfolding seat_handle_capabilities
seat_handle_capabilities-Runs pointer keyboard s = refl
