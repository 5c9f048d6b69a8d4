-- ===== src/Session/Linked.antt =====
-- The invariant of main.c about clients, outputs and timers.
use swaylock_plugin.Base.{
  ℕ, ◌≤◌, ◌≡◌, ◌≢◌, ◌↔◌, refl, ap, Bool, true, false, List, Option, none, some, ◌==◌, ==_iff,
  if◌then◌else◌,
}
use swaylock_plugin.EventLoop.{LoopTimer}
use swaylock_plugin.EventLoop.Live.{live}
use swaylock_plugin.EventLoop.Order.{Below}
use swaylock_plugin.EventLoop.Fds.{Entry}
use swaylock_plugin.EventLoop.Aligned.{Aligned}
use swaylock_plugin.Session.{
  Session, ClientCall, connect_call, redraw_call, hidden_call, other_call,
}
use swaylock_plugin.Session.Rings.{Match}
use swaylock_plugin.Session.Ties.{Tie, tie, Hold, hold}
use swaylock_plugin.Session.Names.{Unrepeated}

abbrev pub output_of : Option Tie → Option (Option ℕ)
output_of none = none
output_of (some t) = some t.output

abbrev pub timer_of : Option Tie → Option ℕ
timer_of none = none
timer_of (some t) = t.timer

abbrev pub client_of : Option Hold → Option ℕ
client_of none = none
client_of (some h) = h.client

abbrev pub due_of : Option Hold → Option ℕ
due_of none = none
due_of (some h) = h.timer

abbrev pub connect_of : Option ClientCall → Option ℕ
connect_of (some (connect_call a)) = some a
connect_of (some (redraw_call n)) = none
connect_of (some hidden_call) = none
connect_of (some (other_call k)) = none
connect_of none = none

abbrev pub redraw_of : Option ClientCall → Option ℕ
redraw_of (some (connect_call a)) = none
redraw_of (some (redraw_call n)) = some n
redraw_of (some hidden_call) = none
redraw_of (some (other_call k)) = none
redraw_of none = none

-- The client of all outputs, or of one.
abbrev pub slot : Option ℕ → (ℕ → Option Hold) → Option ℕ → Option ℕ
slot main holds none = main
slot main holds (some n) = client_of (holds n)

abbrev pub same_slot : Option ℕ → Option ℕ → Bool
same_slot none none = true
same_slot none (some n) = false
same_slot (some m) none = false
same_slot (some m) (some n) = m == n

pub same_slot_iff : (o u : Option ℕ) → (same_slot o u ≡ true) ↔ (o ≡ u)
same_slot_iff none none = ((λ h. refl), λ h. refl)
same_slot_iff none (some n) = ((λ h. cc h), λ h. cc h)
same_slot_iff (some m) none = ((λ h. cc h), λ h. cc h)
same_slot_iff (some m) (some n) =
    ((λ h. ap some ((==_iff m n).0 h)), λ h. (==_iff m n).1 (let e : m ≡ n = cc h in e))

-- What a node will call, but for the spare ones.
abbrev pub heard : (ℕ → Bool) → List (LoopTimer ClientCall) → ℕ → Option ClientCall
heard spare ts i = if spare i then none else live ts i

-- `spare` is the nodes that are being called back. The records of clients and what they are for
-- point to each other: the main client is the one client without an output of its own, and the
-- client of an output is the one for that output. The timers of clients and of outputs are the
-- nodes that will call back for them, and each such node is the timer of its record.
pub record LinkedAt (spare : ℕ → Bool) (ties : ℕ → Option Tie) (main : Option ℕ)
    (holds : ℕ → Option Hold) (ts : List (LoopTimer ClientCall)) (allocs starts : ℕ) : Type 0 where
  pub owners : Match (slot main holds) (λ a. output_of (ties a))
  pub connects : Match (λ a. timer_of (ties a)) (λ i. connect_of (heard spare ts i))
  pub redraws : Match (λ n. due_of (holds n)) (λ i. redraw_of (heard spare ts i))
  pub order : Below allocs ts
  pub unspared : (i : ℕ) → allocs ≤ i → spare i ≡ false
  pub named : (a : ℕ) → starts ≤ a → ties a ≡ none

-- A client that has not made a registry still has its timer.
abbrev pub Awaited : (ℕ → Option Tie) → Type 0
Awaited ties = (a : ℕ) (t : Tie) → ties a ≡ some t → t.registry ≡ false → t.timer ≢ none

abbrev pub ties_of : Session → ℕ → Option Tie
ties_of s a = tie a s.clients

abbrev pub holds_of : Session → ℕ → Option Hold
holds_of s n = hold n s.surfaces

abbrev pub Linked : (ℕ → Bool) → Session → Type 0
Linked spare s =
    LinkedAt spare (ties_of s) s.main_client (holds_of s) s.eventloop.timers s.eventloop.allocs
      s.starts

abbrev pub nothing : ℕ → Bool
nothing i = false

-- All that is kept: the outputs have different names, and the event loop is in order as well.
pub record Kept (spare : ℕ → Bool) (s : Session) : Type 0 where
  pub linked : Linked spare s
  pub awaited : Awaited (ties_of s)
  pub distinct : Unrepeated s.surfaces
  pub entries : List (Entry ℕ)
  pub aligned : Aligned s.eventloop entries
