-- ===== src/Session/Settled.antt =====
-- The fall back to the clientless mode keeps the invariant.
use swaylock_plugin.Base.{
  ℕ, ◌≡◌, ◌≢◌, refl, sym, ap, ◌∙◌, Bool, true, false, Option, none, some, ◌==◌, if◌then◌else◌,
  Bool-cases, inl, inr, returns, All,
}
use swaylock_plugin.EventLoop.Fds.{marked}
use swaylock_plugin.Session.{Session, Outside, setup_clientless_mode, end_server}
use swaylock_plugin.Session.Ties.{Tie}
use swaylock_plugin.Session.Linked.{Kept, Awaited, ties_of}
use swaylock_plugin.Session.Clientless.{Covered, setup_clientless_mode-Clientless}

-- How a fall back to the clientless mode leaves the state: every output that has a size shows
-- something, if the server stood before and the buffers could be made.
pub record Settled (o : Outside) (spare : ℕ → Bool) (s s' : Session) : Type 0 where
  pub kept : Kept spare s'
  pub ended : s'.display ≡ false
  pub covered : s.display ≡ true → All (Covered o.can_create) s'.surfaces
  pub same_ties : (b : ℕ) → ties_of s' b ≡ ties_of s b

pub setup_clientless_mode-Settled :
    (o : Outside) (spare : ℕ → Bool) (s : Session)
    → Kept spare s
    → (s' : Session) × (setup_clientless_mode o s ≡ returns s') × Settled o spare s s'
unfolding setup_clientless_mode end_server
setup_clientless_mode-Settled o spare s k = elim (Bool-cases s.display) [
  | inl on ↦
      let (s', run, c) =
        setup_clientless_mode-Clientless o spare s k.entries on k.distinct k.aligned k.linked in
      (
        s',
        run,
        record {
          kept = record {
            linked = c.linked;
            awaited = λ a t e. k.awaited a t (sym (c.same_ties a) ∙ e);
            distinct = c.distinct;
            entries = marked o.server_fd k.entries;
            aligned = c.polled;
          };
          ended = c.ended;
          covered = λ d. c.covered;
          same_ties = c.same_ties;
        },
      )
  | inr off ↦ (
    s,
    ap (λ d. end_server d o s) off,
    record { kept = k; ended = off; covered = λ on. cc (on, off); same_ties = λ b. refl },
  )
]

-- Every client but `a` that has not made a registry has its timer.
abbrev pub AwaitedBut : ℕ → (ℕ → Option Tie) → Type 0
AwaitedBut a ties =
    (b : ℕ) (t : Tie) → (b == a) ≡ false → ties b ≡ some t → t.registry ≡ false → t.timer ≢ none

pub Awaited-gone :
    (a : ℕ) (ties ties' : ℕ → Option Tie)
    → ((b : ℕ) → ties' b ≡ (if b == a then none else ties b))
    → AwaitedBut a ties
    → Awaited ties'
Awaited-gone a ties ties' gone w b t e r = elim (Bool-cases (b == a)) [
  | inl h ↦ let g : ties' b ≡ none = rw h at (gone b) in cc (g, e)
  | inr h ↦ let g : ties' b ≡ ties b = rw h at (gone b) in w b t h (sym g ∙ e) r
]
