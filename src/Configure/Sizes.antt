-- ===== src/Configure/Sizes.antt =====
-- No frame of another size than the acknowledged one reaches the compositor.
use swaylock_plugin.Base.{
  ◌≡◌, Bool, true, false, List, [], ◌∷◌, ◌++◌, Outcome, returns, faults, ◌>>=◌,
}
use swaylock_plugin.EventLoop.{Timespec}
use swaylock_plugin.Forward.{World}
use swaylock_plugin.Forward.Commit.{apply_pending_surface_updates}
use swaylock_plugin.Configure.{
  ClientError, Message, send_updates, ack_upstream, commit_upstream, post_error, unmapped, Plugin,
  Output, of_size, divides_by_zero, surface_size, is_set, emit,
}

-- What a commit with a buffer sends behind the updates of the surface, whose state is then `w`: one
-- error, or the frame, behind the acknowledgement that was due.
pub data Committed (p : Plugin) (w : World) (o : Output) : List Message → Type 0 where
  refused : (e : ClientError) → Committed p w o (post_error e ∷ [])
  framed :
      surface_size w.surface ≡ of_size p.last_acked_width p.last_acked_height
      → o.has_pending_ack_conf ≡ false
      → Committed p w o (commit_upstream ∷ [])
  framed_acknowledged :
      surface_size w.surface ≡ of_size p.last_acked_width p.last_acked_height
      → o.has_pending_ack_conf ≡ true
      → Committed p w o (ack_upstream o.pending_upstream_serial ∷ commit_upstream ∷ [])

-- The log of a commit whose updates have left the surface as it is in `w`.
abbrev pub Adds : Plugin → World → Output → Output → Type 0
Adds p w o o' =
    (added : List Message) × (o'.log ≡ (o.log ++ send_updates w.log ∷ []) ++ added)
    × Committed p w o added

-- What a commit of a plugin surface that has been configured does: nothing, without any buffer; an
-- error, where the buffer is taken away; or it sends the updates of the surface and then one error,
-- or the frame. It ends the program where the updates do, or where the scale is 0 and divides.
pub data Commits (allocated : Bool) (now : Timespec) (p : Plugin) (w : World) (o : Output)
    : Outcome (World × Output) → Type 0 where
  silent :
      is_set w.surface.pending.attachment ≡ false
      → is_set w.surface.committed.attachment ≡ false
      → Commits allocated now p w o (returns (w, o))
  unmapping :
      is_set w.surface.pending.attachment ≡ false
      → is_set w.surface.committed.attachment ≡ true
      → Commits allocated now p w o (returns (w, emit (post_error unmapped) o))
  sent :
      (w' : World) (o' : Output)
      → is_set w.surface.pending.attachment ≡ true
      → apply_pending_surface_updates allocated now (record w { log = [] }) ≡ returns w'
      → Adds p w' o o'
      → Commits allocated now p w o (returns (w', o'))
  divided :
      (w' : World)
      → apply_pending_surface_updates allocated now (record w { log = [] }) ≡ returns w'
      → surface_size w'.surface ≡ divides_by_zero
      → Commits allocated now p w o faults
  stopped :
      (r : Outcome World) (k : World → Outcome (World × Output))
      → apply_pending_surface_updates allocated now (record w { log = [] }) ≡ r
      → ((w' : World) → r ≡ returns w' → ⊥)
      → Commits allocated now p w o (r >>= k)
