-- ===== src/Forward/Buffers.antt =====
-- forward.c: the request that attaches a buffer, and what a commit does with one whose resource the
-- background program has destroyed.
use swaylock_plugin.Base.{
  ℕ, ◌≡◌, refl, ap, ◌∙◌, Bool, true, false, not, ◌&&◌, [], ◌∷◌, Option, none, some, ◌==◌, ==_iff,
  if◌then◌else◌, Outcome, returns, aborts, faults, ◌>>=◌,
}
use swaylock_plugin.Forward.{
  Attachment, null, committed_buffer, unreachable, buffer, ForwardBuffer, World, set_pending,
}
use swaylock_plugin.Forward.Content.{
  put, unlink, is_empty, unlink_committed, attach_buffer, link_found, link_pending,
  is_committed_buffer, apply_attachment,
}

-- The buffer of the request, or NULL.
unfoldable pub requested : Option ℕ → Attachment
requested none = null
requested (some b) = buffer b

unfoldable pub same_attachment : Attachment → Attachment → Bool
same_attachment null null = true
same_attachment committed_buffer committed_buffer = true
same_attachment unreachable unreachable = true
same_attachment (buffer a) (buffer b) = a == b
same_attachment _ _ = false

-- `Dereference pending buffer`: it is freed with its last link, if its resource is gone.
unfoldable pub dereference_found : ℕ → Option ForwardBuffer → World → Outcome World
unfolding put unlink is_empty
dereference_found b none w = faults
dereference_found b (some buf) w =
    let buf' = record buf { pending_surfaces = unlink w.surface.id buf.pending_surfaces } in
    if not buf.resource && is_empty buf'.pending_surfaces
    then (if is_empty buf'.committed_surfaces
        then returns (record w { buffers = put w.buffers b none })
        else aborts)
    else returns (record w { buffers = put w.buffers b (some buf') })

unfoldable pub dereference_pending : Attachment → World → Outcome World
unfolding dereference_found
dereference_pending null w = returns w
dereference_pending committed_buffer w = returns w
dereference_pending unreachable w = faults
dereference_pending (buffer b) w = dereference_found b (w.buffers b) w

-- The link is inserted in a list of the buffer, which NULL does not have.
unfoldable pub insert_pending : ℕ → Option ForwardBuffer → World → Outcome World
unfolding put
insert_pending b none w = faults
insert_pending b (some buf) w = returns (
    set_pending (record w.surface.pending { attachment = buffer b })
      (record w {
        buffers =
            put w.buffers b
              (some (record buf { pending_surfaces = w.surface.id ∷ buf.pending_surfaces }));
      }))

unfoldable pub become_pending : Option ℕ → World → Outcome World
unfolding insert_pending
become_pending none w = faults
become_pending (some b) w = insert_pending b (w.buffers b) w

unfoldable pub nested_surface_attach : Option ℕ → World → Outcome World
unfolding requested same_attachment dereference_pending become_pending
nested_surface_attach b w =
    if same_attachment w.surface.pending.attachment (requested b)
    then returns w
    else dereference_pending w.surface.pending.attachment w >>= become_pending b

put_same : (f : ℕ → Option ForwardBuffer) (k : ℕ) (v : Option ForwardBuffer) → put f k v k ≡ v
unfolding put
put_same f k v = rw ((==_iff k k).1 refl) refl

-- A committed buffer without a resource is not given up: another one aborts.
gone_aborts :
    (b : ℕ) (w : World) (buf : ForwardBuffer)
    → buf.resource ≡ false
    → unlink w.surface.id buf.pending_surfaces ≡ []
    → is_empty buf.committed_surfaces ≡ false
    → dereference_found b (some buf) w ≡ aborts
unfolding dereference_found is_empty
gone_aborts b w buf gone last used = simp (gone, last, used)

-- The buffer after the commit.
abbrev committed_again : World → ForwardBuffer → ForwardBuffer
committed_again w buf = record buf { committed_surfaces = w.surface.id ∷ buf.committed_surfaces }

-- For a surface without a committed buffer, whose pending buffer has no resource any more and is
-- pending on this surface only, the commit of the buffer returns, and attaching any other buffer
-- then fails an assertion.
pub nested_surface_attach_aborts :
    (w : World) (b c : ℕ) (buf : ForwardBuffer)
    → w.surface.pending.attachment ≡ buffer b
    → w.surface.committed.attachment ≡ null
    → w.buffers b ≡ some buf
    → buf.resource ≡ false
    → unlink w.surface.id buf.pending_surfaces ≡ []
    → (b == c) ≡ false
    → (w' : World) × (apply_attachment w ≡ returns w')
      × (nested_surface_attach (some c) w' ≡ aborts)
unfolding apply_attachment is_committed_buffer unlink_committed link_pending link_found
    attach_buffer nested_surface_attach same_attachment requested dereference_pending is_empty
nested_surface_attach_aborts w b c buf pending committed found gone last other =
    let w' = attach_buffer b buf w in
    let again = committed_again w buf in
    let refused : dereference_found b (w'.buffers b) w' ≡ aborts =
      ap (λ o. dereference_found b o w') (put_same w.buffers b (some again))
      ∙ gone_aborts b w' again gone last refl in
    (
      w',
      ap
            (λ p.
              if is_committed_buffer p
              then returns w
              else unlink_committed w.surface.committed.attachment w >>= link_pending p)
            pending
          ∙ ap (λ d. unlink_committed d w >>= link_pending (buffer b)) committed
          ∙ ap (λ o. link_found b o w) found,
      ap
            (λ p.
              if same_attachment p (buffer c)
              then returns w'
              else dereference_pending p w' >>= become_pending (some c))
            pending
          ∙ rw other (ap (λ (o : Outcome World). o >>= become_pending (some c)) refused),
    )
