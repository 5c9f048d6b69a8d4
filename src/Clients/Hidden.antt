-- ===== src/Clients/Hidden.antt =====
-- When a client counts as hidden.
use swaylock_plugin.Base.{
  ℕ, ◌+◌, ◌≡◌, Bool, true, false, not, ◌&&◌, ◌||◌, List, [], ◌∷◌, Option, ltb, leb, ◌==◌,
  if◌then◌else◌, arith,
}
use swaylock_plugin.EventLoop.{Timespec}
use swaylock_plugin.Clients.{
  BgClient, Surface, ms_since, client_for_surface, is_client, hidden_from, client_is_hidden,
}

module _ (clock : ℕ → Timespec) (timeout : ℕ) (main_client : Option ℕ) (address : ℕ) where
  -- A surface of the client that has waited for a frame at least as long as the timeout.
  abbrev pub stale : ℕ → Surface → Bool
  stale i s =
      is_client address (client_for_surface main_client s)
      && (s.frame_pending && leb timeout (ms_since (clock i) s.frame_pending_since))

  -- A surface of the client that has waited for less, or whose last frame is that recent.
  abbrev pub shown : ℕ → Surface → Bool
  shown i s =
      is_client address (client_for_surface main_client s)
      && (if s.frame_pending
          then not (leb timeout (ms_since (clock i) s.frame_pending_since))
          else not (s.frame_last_done.tv_sec == 0)
            && ltb (ms_since (clock i) s.frame_last_done) timeout)

abbrev pub anywhere : (ℕ → Surface → Bool) → ℕ → List Surface → Bool
anywhere test i [] = false
anywhere test i (s ∷ ss) = test i s || anywhere test (i + 1) ss

hidden_from-anywhere :
    (clock : ℕ → Timespec) (timeout : ℕ) (main_client : Option ℕ) (address i : ℕ)
    (ss : List Surface) (any_stale : Bool)
    → hidden_from clock timeout main_client address i ss any_stale ≡ (
        (any_stale || anywhere (stale clock timeout main_client address) i ss)
        && not (anywhere (shown clock timeout main_client address) i ss))
unfolding hidden_from
hidden_from-anywhere clock timeout main_client address i [] any_stale = ground arith
hidden_from-anywhere clock timeout main_client address i (s ∷ ss) any_stale = ground (
  arith,
  hidden_from-anywhere clock timeout main_client address (i + 1) ss any_stale,
  hidden_from-anywhere clock timeout main_client address (i + 1) ss true,
)

-- client_is_hidden, with its flag and its early returns, is true exactly when some surface of
-- the client has waited for a frame at least the timeout, and none has waited for less or had a
-- frame that recently.
pub client_is_hidden_judged :
    (clock : ℕ → Timespec) (timeout : ℕ) (main_client : Option ℕ) (ss : List Surface) (c : BgClient)
    → client_is_hidden clock timeout main_client ss c ≡ (
        anywhere (stale clock timeout main_client c.address) 0 ss
        && not (anywhere (shown clock timeout main_client c.address) 0 ss))
unfolding client_is_hidden
client_is_hidden_judged clock timeout main_client ss c =
    hidden_from-anywhere clock timeout main_client c.address 0 ss false
