-- ===== src/Forward/Content.antt =====
-- forward.c: the image description, the buffer, the offset and the damage of
-- `apply_pending_surface_updates`.
use swaylock_plugin.Base.{
  ℕ, Bool, true, false, not, ◌&&◌, ◌||◌, List, [], ◌∷◌, Option, none, some, leb, ltb, ◌==◌,
  if◌then◌else◌, Outcome, returns, aborts, faults, ◌>>=◌,
}
use swaylock_plugin.Forward.{
  Attachment, null, committed_buffer, unreachable, buffer, DamageRecord, SurfaceRequest,
  unset_image_description, set_image_description, attach, offset, damage_buffer, damage,
  ForwardBuffer, ForwardImageDesc, World, emit, set_committed,
}
use swaylock_plugin.Forward.Apply.{assert_then}

-- A table of objects with another value at a key.
unfoldable pub put {ℓ} : {A : Type ℓ} → (ℕ → A) → ℕ → A → ℕ → A
put f k v x = if x == k then v else f x

-- The surface that a link stands for, removed from a list.
unfoldable pub unlink : ℕ → List ℕ → List ℕ
unlink id [] = []
unlink id (x ∷ xs) = let rest = unlink id xs in if x == id then xs else x ∷ rest

unfoldable pub is_empty : List ℕ → Bool
is_empty [] = true
is_empty (x ∷ xs) = false

-- Two pointers to image descriptions.
unfoldable pub same_desc : Option ℕ → Option ℕ → Bool
same_desc none none = true
same_desc (some a) (some b) = a == b
same_desc _ _ = false

unfoldable pub delete_image_desc_if_unreferenced : ℕ → ForwardImageDesc → World → World
unfolding put is_empty
delete_image_desc_if_unreferenced d desc w =
    if desc.resource
    then w
    else if not (is_empty desc.committed_surfaces) || not (is_empty desc.pending_surfaces)
    then w
    else record w { descs = put w.descs d none }

-- A committed description loses the surface.
unfoldable pub release_found : ℕ → Option ForwardImageDesc → World → Outcome World
unfolding put unlink delete_image_desc_if_unreferenced
release_found d none w = faults
release_found d (some desc) w =
    let desc' = record desc { committed_surfaces = unlink w.surface.id desc.committed_surfaces } in
    returns
      (delete_image_desc_if_unreferenced d desc' (record w { descs = put w.descs d (some desc') }))

unfoldable pub release_desc : Option ℕ → World → Outcome World
unfolding release_found
release_desc none w = returns w
release_desc (some d) w = release_found d (w.descs d) w

-- The pending description becomes the committed one.
unfoldable pub commit_found : ℕ → Option ForwardImageDesc → World → Outcome World
unfolding put
commit_found d none w = faults
commit_found d (some desc) w =
    let desc' = record desc { committed_surfaces = w.surface.id ∷ desc.committed_surfaces } in
    returns (
      set_committed (record w.surface.committed { image_desc = some d })
        (record w { descs = put w.descs d (some desc') }))

unfoldable pub commit_desc : Option ℕ → World → Outcome World
unfolding commit_found
commit_desc none w = returns (set_committed (record w.surface.committed { image_desc = none }) w)
commit_desc (some d) w = commit_found d (w.descs d) w

unfoldable pub request_desc : Option ℕ → ℕ → World → World
request_desc none intent w = emit unset_image_description w
request_desc (some d) intent w = emit (set_image_description d intent) w

unfoldable pub exchange_desc : World → Outcome World
unfolding same_desc release_desc commit_desc
exchange_desc w =
    if same_desc w.surface.committed.image_desc w.surface.pending.image_desc
    then returns w
    else release_desc w.surface.committed.image_desc w >>= commit_desc w.surface.pending.image_desc

unfoldable pub set_intent : World → World
set_intent w =
    set_committed (record w.surface.committed { render_intent = w.surface.pending.render_intent }) w

unfoldable pub apply_image_desc : World → Outcome World
unfolding same_desc request_desc exchange_desc set_intent assert_then
apply_image_desc w =
    let p = w.surface.pending in
    let c = w.surface.committed in
    if not (same_desc c.image_desc p.image_desc) || not (c.render_intent == p.render_intent)
    then (do
      w₁ ← assert_then w.surface.background.color_surface w
      w₂ ← exchange_desc (request_desc p.image_desc p.render_intent w₁)
      returns (set_intent w₂))
    else returns w

-- `unlink the committed attachment`.
unfoldable pub unlink_found : ℕ → Option ForwardBuffer → World → Outcome World
unfolding put unlink
unlink_found b none w = faults
unlink_found b (some buf) w =
    if buf.resource
    then returns (record w {
      buffers =
          put w.buffers b
            (some (record buf { committed_surfaces = unlink w.surface.id buf.committed_surfaces }));
    })
    else aborts

unfoldable pub unlink_committed : Attachment → World → Outcome World
unfolding unlink_found
unlink_committed null w = returns w
unlink_committed unreachable w = returns w
unlink_committed committed_buffer w = faults
unlink_committed (buffer b) w = unlink_found b (w.buffers b) w

-- The buffer becomes the committed one.
unfoldable pub attach_buffer : ℕ → ForwardBuffer → World → World
unfolding put
attach_buffer b buf w =
    let p = w.surface.pending in
    let c = w.surface.committed in
    let old = ltb w.surface.version 5 in
    let w₁ = emit (attach b (if old then p.offset_x else 0) (if old then p.offset_y else 0)) w in
    record w₁ {
      surface = record w.surface {
        committed = record c {
          attachment = buffer b;
          offset_x = if old then p.offset_x else c.offset_x;
          offset_y = if old then p.offset_y else c.offset_y;
        };
        committed_buffer_width = buf.width;
        committed_buffer_height = buf.height;
      };
      buffers =
          put w.buffers b
            (some (record buf { committed_surfaces = w.surface.id ∷ buf.committed_surfaces }));
    }

unfoldable pub link_found : ℕ → Option ForwardBuffer → World → Outcome World
unfolding attach_buffer
link_found b none w = faults
link_found b (some buf) w = returns (attach_buffer b buf w)

unfoldable pub link_pending : Attachment → World → Outcome World
unfolding link_found
link_pending null w =
    if w.surface.layer_surface
    then aborts
    else returns (set_committed (record w.surface.committed { attachment = null }) w)
link_pending (buffer b) w = link_found b (w.buffers b) w
link_pending committed_buffer w = faults
link_pending unreachable w = faults

unfoldable pub is_committed_buffer : Attachment → Bool
is_committed_buffer committed_buffer = true
is_committed_buffer _ = false

unfoldable pub apply_attachment : World → Outcome World
unfolding is_committed_buffer unlink_committed link_pending
apply_attachment w =
    if is_committed_buffer w.surface.pending.attachment
    then returns w
    else unlink_committed w.surface.committed.attachment w
      >>= link_pending w.surface.pending.attachment

unfoldable pub apply_offset : World → World
apply_offset w =
    let p = w.surface.pending in
    let c = w.surface.committed in
    if (not (c.offset_x == p.offset_x) || not (c.offset_y == p.offset_y)) && leb 5 w.surface.version
    then set_committed (record c { offset_x = p.offset_x; offset_y = p.offset_y })
        (emit (offset p.offset_x p.offset_y) w)
    else w

unfoldable pub send_all : (DamageRecord → SurfaceRequest) → List DamageRecord → World → World
send_all f [] w = w
send_all f (d ∷ ds) w = send_all f ds (emit (f d) w)

unfoldable pub apply_damage : World → World
unfolding send_all
apply_damage w =
    let w₁ = send_all damage_buffer w.surface.buffer_damage w in
    let w₂ = send_all damage w.surface.old_damage w₁ in
    record w₂ { surface = record w₂.surface { buffer_damage = []; old_damage = [] } }
