-- ===== src/Lock/Input.antt =====
-- seat.c: keyboard and pointer events. What xkbcommon computes of an event is given with it;
-- the field `far` compares a distance, in 1/256 of a pixel, with the hysteresis.
pub mod Held
use swaylock_plugin.Base.{
  differ, ℕ, ◌/◌, ℤ, pos, negsuc, ◌-ℤ◌, ltb_ℤ, Bool, true, false, not, ◌&&◌, ◌||◌, Option, none,
  some, ◌==◌, if◌then◌else◌, Outcome, returns, exits, aborts, ◌>>=◌,
}
use swaylock_plugin.EventLoop.{Env, loop_add_timer}
use swaylock_plugin.Lock.{State, Seat, TimerCall, damage_state, drop_timer}
use swaylock_plugin.Lock.Keys.{Keysym, swaylock_handle_key}

-- The formats of a keymap. `mapped` is whether mmap succeeds, `compiled` whether xkbcommon gives a
-- keymap and a state.
pub data Keymap : Type 0 where
  no_keymap unknown_format : Keymap
  xkb_v1 : Bool → Bool → Keymap

unfoldable pub keyboard_keymap : Keymap → State → Outcome State
keyboard_keymap no_keymap s = returns (record s { xkb_state = false })
keyboard_keymap unknown_format s = returns (record s { xkb_state = false })
keyboard_keymap (xkb_v1 false compiled) s = exits 1
keyboard_keymap (xkb_v1 true false) s = aborts
keyboard_keymap (xkb_v1 true true) s = returns (record s { xkb_state = true })

unfoldable pub stop_repeat : State → State
unfolding drop_timer
stop_repeat s =
    let s' = drop_timer s.seat.repeat_timer s in
    record s' { seat = record s'.seat { repeat_timer = none } }

unfoldable pub keyboard_leave : State → State
unfolding stop_repeat
keyboard_leave s = stop_repeat s

unfoldable pub arm_repeat : Env → ℤ → State → State
arm_repeat env ms s =
    let (loop, timer) = loop_add_timer env s.eventloop ms TimerCall.keyboard_repeat in
    record s { eventloop = loop; seat = record s.seat { repeat_timer = timer } }

unfoldable pub keyboard_repeat : Env → ℕ → State → Outcome State
unfolding arm_repeat
keyboard_repeat env rand s =
    let s' = arm_repeat env s.seat.repeat_period_ms s in
    swaylock_handle_key env rand s' s'.seat.repeat_sym s'.seat.repeat_codepoint

-- The end of `keyboard_key`.
unfoldable pub after_key : Env → Bool → Keysym → ℕ → State → State
unfolding stop_repeat arm_repeat
after_key env pressed sym codepoint s =
    let s' = stop_repeat s in
    if pressed && ltb_ℤ (pos 0) s'.seat.repeat_period_ms
    then arm_repeat env s'.seat.repeat_delay_ms
        (record s' { seat = record s'.seat { repeat_sym = sym; repeat_codepoint = codepoint } })
    else s'

-- A key that is pressed, with the field `grace_timer`.
unfoldable pub press_key : Env → ℕ → Option ℕ → Keysym → ℕ → State → Outcome State
unfolding after_key
press_key env rand (some a) sym codepoint s = returns (record s { run_display = false })
press_key env rand none sym codepoint s = do
  s' ← swaylock_handle_key env rand s sym codepoint
  returns (after_key env true sym codepoint s')

unfoldable pub keyboard_key : Env → ℕ → Bool → Keysym → ℕ → State → Outcome State
unfolding press_key
keyboard_key env rand pressed sym codepoint s =
    if not s.xkb_state
    then returns s
    else if pressed
    then press_key env rand s.grace_timer sym codepoint s
    else returns (after_key env false sym codepoint s)

-- What xkbcommon answers of the modifiers: whether the layout is the same, Caps Lock and Control.
pub record Modifiers : Type 0 where
  pub layout_same : Bool
  pub caps : Bool
  pub ctrl : Bool

unfoldable pub keyboard_modifiers : Modifiers → State → State
keyboard_modifiers m s =
    if not s.xkb_state
    then s
    else if differ m.caps s.xkb_caps_lock || not m.layout_same
    then record (damage_state (record s { xkb_caps_lock = m.caps })) { control = m.ctrl }
    else record s { control = m.ctrl }

pub period_of : ℤ → ℤ
period_of (pos rate) = if rate == 0 then negsuc 0 else pos (1000 / rate)
period_of (negsuc n) = negsuc 0

unfoldable pub keyboard_repeat_info : ℤ → ℤ → State → State
unfolding period_of
keyboard_repeat_info rate delay s = record s {
  seat = record s.seat { repeat_period_ms = period_of rate; repeat_delay_ms = delay };
}

-- `now` is `tv_sec` of the clock.
unfoldable pub enter_pointer : Option ℕ → ℕ → ℤ → ℤ → State → State
enter_pointer none now x y s = s
enter_pointer (some a) now x y s = record s {
  seat = record s.seat {
    last_interval = now;
    interval_start_x = x;
    interval_start_y = y;
    last_mouse_x = x;
    last_mouse_y = y;
  };
}

unfoldable pub pointer_enter : ℕ → ℤ → ℤ → State → State
unfolding enter_pointer
pointer_enter now x y s = enter_pointer s.grace_timer now x y s

-- A new interval of a second starts where the pointer last was.
unfoldable pub next_interval : ℕ → Seat → Seat
next_interval now seat = if now == seat.last_interval then seat else record seat {
  last_interval = now;
  interval_start_x = seat.last_mouse_x;
  interval_start_y = seat.last_mouse_y;
}

unfoldable pub move_pointer : Option ℕ → ℕ → ℤ → ℤ → State → State
unfolding next_interval
move_pointer none now x y s = s
move_pointer (some a) now x y s =
    let seat = next_interval now s.seat in
    let moved = s.far (x -ℤ seat.interval_start_x) (y -ℤ seat.interval_start_y) in
    record s {
      run_display = if moved then false else s.run_display;
      seat = record seat { last_mouse_x = x; last_mouse_y = y };
    }

unfoldable pub pointer_motion : ℕ → ℤ → ℤ → State → State
unfolding move_pointer
pointer_motion now x y s = move_pointer s.grace_timer now x y s

unfoldable pub click : Option ℕ → State → State
click none s = s
click (some a) s = record s { run_display = false }

unfoldable pub pointer_button : State → State
unfolding click
pointer_button s = click s.grace_timer s

-- The old devices are released, and those that the seat has are got again.
unfoldable pub seat_handle_capabilities : Bool → Bool → State → State
seat_handle_capabilities pointer keyboard s = record s {
  seat = record s.seat { pointer = pointer; keyboard = keyboard };
}
