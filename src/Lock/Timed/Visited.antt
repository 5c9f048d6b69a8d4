-- ===== src/Lock/Timed/Visited.antt =====
-- No field but that of a running callback points to the node that is being visited.
use swaylock_plugin.Base.{
  ℕ, ◌≤◌, ◌<◌, ◌≡◌, ◌≢◌, subst, inl, inr, Bool, false, List, Option, none, some, arith, ◌==◌,
  ==_iff, Bool-cases,
}
use swaylock_plugin.EventLoop.{LoopTimer}
use swaylock_plugin.EventLoop.Live.{live, live-old}
use swaylock_plugin.Lock.{State, TimerCall}
use swaylock_plugin.Lock.Timed.{nothing, Points, Sound}
use swaylock_plugin.Lock.Timed.Forget.{forget}

-- The node that is being visited.
abbrev pub visited : ℕ → ℕ → Bool
visited a x = x == a

pub other-Points :
    (ts : List (LoopTimer TimerCall)) (a : ℕ) (h : Option ℕ) (d : TimerCall)
    → Points nothing ts h d
    → live ts a ≢ some d
    → Points (visited a) ts h d
other-Points ts a none d p n = tt
other-Points ts a (some b) d (q, _) n = (
  q,
  elim (Bool-cases (b == a)) [
    | inl e ↦ elim (n (subst (λ x. live ts x ≡ some d) ((==_iff b a).0 e) q)) [ ]
    | inr e ↦ e
  ],
)

pub later : (a n : ℕ) → a < n → (x : ℕ) → n ≤ x → visited a x ≡ false
later a n lt x le = ground arith

-- A marked node is no field's.
pub marked-Sound :
    (s : State) (a : ℕ)
    → a < s.eventloop.allocs
    → live s.eventloop.timers a ≡ none
    → Sound nothing s
    → Sound (visited a) s
marked-Sound s a old e v =
    let ts = s.eventloop.timers in
    record {
      fresh = v.fresh;
      unused = later a s.eventloop.allocs old;
      input_points =
          other-Points ts a s.input_idle_timer TimerCall.set_input_idle v.input_points
            (λ f. cc (e, f));
      auth_points =
          other-Points ts a s.auth_idle_timer TimerCall.set_auth_idle v.auth_points
            (λ f. cc (e, f));
      clear_points =
          other-Points ts a s.clear_password_timer TimerCall.clear_password v.clear_points
            (λ f. cc (e, f));
      grace_points =
          other-Points ts a s.grace_timer TimerCall.grace_timeout v.grace_points (λ f. cc (e, f));
      repeat_points =
          other-Points ts a s.seat.repeat_timer TimerCall.keyboard_repeat v.repeat_points
            (λ f. cc (e, f));
    }

-- A node that will run a callback is at most the field of that callback.
pub firing-Sound :
    (s : State) (a : ℕ) (c : TimerCall)
    → live s.eventloop.timers a ≡ some c
    → Sound nothing s
    → Sound (visited a) (forget c s)
firing-Sound s a TimerCall.set_input_idle e v =
    let ts = s.eventloop.timers in
    record {
      fresh = v.fresh;
      unused = later a s.eventloop.allocs (live-old s.eventloop.allocs a ts v.fresh e);
      input_points = tt;
      auth_points =
          other-Points ts a s.auth_idle_timer TimerCall.set_auth_idle v.auth_points
            (λ f. cc (e, f));
      clear_points =
          other-Points ts a s.clear_password_timer TimerCall.clear_password v.clear_points
            (λ f. cc (e, f));
      grace_points =
          other-Points ts a s.grace_timer TimerCall.grace_timeout v.grace_points (λ f. cc (e, f));
      repeat_points =
          other-Points ts a s.seat.repeat_timer TimerCall.keyboard_repeat v.repeat_points
            (λ f. cc (e, f));
    }
firing-Sound s a TimerCall.set_auth_idle e v =
    let ts = s.eventloop.timers in
    record {
      fresh = v.fresh;
      unused = later a s.eventloop.allocs (live-old s.eventloop.allocs a ts v.fresh e);
      input_points =
          other-Points ts a s.input_idle_timer TimerCall.set_input_idle v.input_points
            (λ f. cc (e, f));
      auth_points = tt;
      clear_points =
          other-Points ts a s.clear_password_timer TimerCall.clear_password v.clear_points
            (λ f. cc (e, f));
      grace_points =
          other-Points ts a s.grace_timer TimerCall.grace_timeout v.grace_points (λ f. cc (e, f));
      repeat_points =
          other-Points ts a s.seat.repeat_timer TimerCall.keyboard_repeat v.repeat_points
            (λ f. cc (e, f));
    }
firing-Sound s a TimerCall.clear_password e v =
    let ts = s.eventloop.timers in
    record {
      fresh = v.fresh;
      unused = later a s.eventloop.allocs (live-old s.eventloop.allocs a ts v.fresh e);
      input_points =
          other-Points ts a s.input_idle_timer TimerCall.set_input_idle v.input_points
            (λ f. cc (e, f));
      auth_points =
          other-Points ts a s.auth_idle_timer TimerCall.set_auth_idle v.auth_points
            (λ f. cc (e, f));
      clear_points = tt;
      grace_points =
          other-Points ts a s.grace_timer TimerCall.grace_timeout v.grace_points (λ f. cc (e, f));
      repeat_points =
          other-Points ts a s.seat.repeat_timer TimerCall.keyboard_repeat v.repeat_points
            (λ f. cc (e, f));
    }
firing-Sound s a TimerCall.grace_timeout e v =
    let ts = s.eventloop.timers in
    record {
      fresh = v.fresh;
      unused = later a s.eventloop.allocs (live-old s.eventloop.allocs a ts v.fresh e);
      input_points =
          other-Points ts a s.input_idle_timer TimerCall.set_input_idle v.input_points
            (λ f. cc (e, f));
      auth_points =
          other-Points ts a s.auth_idle_timer TimerCall.set_auth_idle v.auth_points
            (λ f. cc (e, f));
      clear_points =
          other-Points ts a s.clear_password_timer TimerCall.clear_password v.clear_points
            (λ f. cc (e, f));
      grace_points = tt;
      repeat_points =
          other-Points ts a s.seat.repeat_timer TimerCall.keyboard_repeat v.repeat_points
            (λ f. cc (e, f));
    }
firing-Sound s a TimerCall.keyboard_repeat e v =
    let ts = s.eventloop.timers in
    record {
      fresh = v.fresh;
      unused = later a s.eventloop.allocs (live-old s.eventloop.allocs a ts v.fresh e);
      input_points =
          other-Points ts a s.input_idle_timer TimerCall.set_input_idle v.input_points
            (λ f. cc (e, f));
      auth_points =
          other-Points ts a s.auth_idle_timer TimerCall.set_auth_idle v.auth_points
            (λ f. cc (e, f));
      clear_points =
          other-Points ts a s.clear_password_timer TimerCall.clear_password v.clear_points
            (λ f. cc (e, f));
      grace_points =
          other-Points ts a s.grace_timer TimerCall.grace_timeout v.grace_points (λ f. cc (e, f));
      repeat_points = tt;
    }
