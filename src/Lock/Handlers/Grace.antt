-- ===== src/Lock/Handlers/Grace.antt =====
-- How the grace period ends.
use swaylock_plugin.Base.{
  ℕ, ◌≡◌, refl, ap, ◌∙◌, inl, inr, ◌==◌, Bool-cases, false, List, [], ◌∷◌, none, some, returns,
  ◌>>=◌,
}
use swaylock_plugin.EventLoop.{Loop}
use swaylock_plugin.EventLoop.Fds.{Entry, has_fd, marked}
use swaylock_plugin.EventLoop.Aligned.{Aligned, loop_remove_fd-Aligned, loop_remove_timer-Aligned}
use swaylock_plugin.Lock.{State, FdCall, TimerCall, no_fd, drop_timer}
use swaylock_plugin.Lock.Handlers.{
  lock_in, lock_in_grace, sleep_in, sleep_in_grace, grace_timeout, close_fd, remove_fd,
  close_sleep_comm,
}

-- A removed timer changes nothing of the descriptors.
Aligned-drop_timer :
    (a : ℕ) (s : State) (es : List (Entry FdCall))
    → Aligned s.eventloop es
    → Aligned (drop_timer (some a) s).eventloop es
unfolding drop_timer
Aligned-drop_timer a s es h = loop_remove_timer-Aligned s.eventloop a es h

remove_fd-Aligned :
    (fd : ℕ) (s : State) (es : List (Entry FdCall))
    → Aligned s.eventloop es
    → (loop : Loop FdCall TimerCall) × (remove_fd fd s ≡ returns (record s { eventloop = loop }))
      × Aligned loop (marked fd es)
unfolding remove_fd
remove_fd-Aligned fd s es h =
    let (loop, run, al) = loop_remove_fd-Aligned s.eventloop es fd h in
    (loop, rw (run, remove_fd), al)

-- What the end of the grace period leaves: no grace timer, both descriptors closed and forgotten,
-- and the event loop with the entries `es`.
pub record Ended (s s' : State) (es : List (Entry FdCall)) : Type 0 where
  pub no_timer : s'.grace_timer ≡ none
  pub closed : s'.open_fds ≡ close_fd s.sleep_comm_w (close_fd s.sleep_comm_r s.open_fds)
  pub forgotten : (s'.sleep_comm_r ≡ no_fd) × (s'.sleep_comm_w ≡ no_fd)
  pub polled : Aligned s'.eventloop es

-- SIGUSR2 during the grace period, with an aligned event loop, returns with no grace timer, both
-- descriptors closed and forgotten, and the first event of the read descriptor marked for
-- removal.
pub lock_in-Ended :
    (s : State) (a : ℕ) (es : List (Entry FdCall))
    → s.grace_timer ≡ some a
    → Aligned s.eventloop es
    → (s' : State) × (lock_in s ≡ returns s') × Ended s s' (marked s.sleep_comm_r es)
unfolding lock_in close_sleep_comm drop_timer
lock_in-Ended s a es g h =
    let t = record (drop_timer (some a) s) { grace_timer = none } in
    let (loop, run, al) = remove_fd-Aligned s.sleep_comm_r t es (Aligned-drop_timer a s es h) in
    (
      close_sleep_comm (record t { eventloop = loop }),
      ap (λ g. lock_in_grace g s) g ∙ ap (λ o. o >>= λ s'. returns (close_sleep_comm s')) run,
      record { no_timer = refl; closed = refl; forgotten = (refl, refl); polled = al },
    )

-- The grace timer, with an aligned event loop, returns with no grace timer, both descriptors
-- closed and forgotten, and the first event of the read descriptor marked for removal.
pub grace_timeout-Ended :
    (s : State) (es : List (Entry FdCall))
    → Aligned s.eventloop es
    → (s' : State) × (grace_timeout s ≡ returns s') × Ended s s' (marked s.sleep_comm_r es)
unfolding grace_timeout close_sleep_comm
grace_timeout-Ended s es h =
    let t = record s { grace_timer = none } in
    let (loop, run, al) = remove_fd-Aligned s.sleep_comm_r t es h in
    (
      close_sleep_comm (record t { eventloop = loop }),
      ap (λ o. o >>= λ s'. returns (close_sleep_comm s')) run,
      record { no_timer = refl; closed = refl; forgotten = (refl, refl); polled = al },
    )

marked_none : (fd : ℕ) (es : List (Entry FdCall)) → has_fd fd es ≡ false → marked fd es ≡ es
marked_none fd [] h = refl
marked_none fd ((p, e) ∷ es) h = elim (Bool-cases (p.fd == fd)) [
  | inl hit ↦ cc (rw hit at h)
  | inr miss ↦ simp (miss, marked_none fd es (rw miss at h))
]

-- A sleep notice during the grace period, with an aligned event loop in which no event has the
-- descriptor -1, returns with no grace timer and both descriptors closed and forgotten, but the
-- entries of the event loop are the same as before: the closed descriptor stays in it unmarked.
pub sleep_in-Ended :
    (s : State) (a : ℕ) (es : List (Entry FdCall))
    → s.grace_timer ≡ some a
    → Aligned s.eventloop es
    → has_fd no_fd es ≡ false
    → (s' : State) × (sleep_in s ≡ returns s') × Ended s s' es
unfolding sleep_in close_sleep_comm drop_timer
sleep_in-Ended s a es g h absent =
    let t = close_sleep_comm (record (drop_timer (some a) s) { grace_timer = none }) in
    let (loop, run, al) = remove_fd-Aligned no_fd t es (Aligned-drop_timer a s es h) in
    (
      record t { eventloop = loop },
      ap (λ g. let s' = sleep_in_grace g s in remove_fd s'.sleep_comm_r s') g ∙ run,
      record {
        no_timer = refl;
        closed = refl;
        forgotten = (refl, refl);
        polled = rw (marked_none no_fd es absent) at al;
      },
    )
