-- ===== src/Forward/Stack/Requested.antt =====
-- The requests that place a subsurface put it, in the stack of the pending lists, where the protocol
-- says.
use swaylock_plugin.Base.{ℕ, suc, ◌≡◌, refl, sym, ap, ◌∙◌, false, some}
use swaylock_plugin.Forward.{SurfaceState, World, set_pending}
use swaylock_plugin.Forward.Subsurfaces.{
  Reference, removed_entry, placed_above, placed_below, with_pending, nested_subsurface_place_above,
  nested_subsurface_place_below,
}
use swaylock_plugin.Forward.Stack.{stack, without, insert_above, insert_below}
use swaylock_plugin.Forward.Stack.Insertions.{
  at_parent, above, below, Once, Stands, without-stack, parent_above, parent_below,
  insert_after-stack, insert_above-upper, insert_above-lower, insert_before-stack,
  insert_below-upper, insert_below-lower,
}

-- For a subsurface that stands at most once in each pending list, and a reference that is the
-- parent or a sibling in just one of them, place_above changes the pending lists to those of the
-- stack in which the subsurface was taken out and put directly above the reference.
pub nested_subsurface_place_above-restacks :
    (e n : ℕ) (r : Reference) (w : World)
    → Once e w.surface.pending
    → Stands e w.surface.pending r n
    → (p : SurfaceState) × (nested_subsurface_place_above false e r w ≡ some (set_pending p w))
      × (stack p ≡ insert_above (suc e) n (without (suc e) (stack w.surface.pending)))
unfolding nested_subsurface_place_above placed_above with_pending removed_entry
nested_subsurface_place_above-restacks e _ _ w once at_parent =
    let p = w.surface.pending in
    (_, refl, parent_above e p once ∙ ap (insert_above (suc e) 0) (sym (without-stack e p)))
nested_subsurface_place_above-restacks e _ _ w once (above s a b) =
    let p = w.surface.pending in
    (
      _,
      refl,
      insert_after-stack e s p once
          ∙ insert_above-upper e s p b
          ∙ ap (insert_above (suc e) (suc s)) (sym (without-stack e p)),
    )
nested_subsurface_place_above-restacks e _ _ w once (below s a b) =
    let p = w.surface.pending in
    (
      _,
      refl,
      insert_after-stack e s p once
          ∙ insert_above-lower e s p a b
          ∙ ap (insert_above (suc e) (suc s)) (sym (without-stack e p)),
    )

-- For a subsurface that stands at most once in each pending list, and a reference that is the
-- parent or a sibling in just one of them, place_below changes the pending lists to those of the
-- stack in which the subsurface was taken out and put directly below the reference.
pub nested_subsurface_place_below-restacks :
    (e n : ℕ) (r : Reference) (w : World)
    → Once e w.surface.pending
    → Stands e w.surface.pending r n
    → (p : SurfaceState) × (nested_subsurface_place_below false e r w ≡ some (set_pending p w))
      × (stack p ≡ insert_below (suc e) n (without (suc e) (stack w.surface.pending)))
unfolding nested_subsurface_place_below placed_below with_pending removed_entry
nested_subsurface_place_below-restacks e _ _ w once at_parent =
    let p = w.surface.pending in
    (_, refl, parent_below e p once ∙ ap (insert_below (suc e) 0) (sym (without-stack e p)))
nested_subsurface_place_below-restacks e _ _ w once (above s a b) =
    let p = w.surface.pending in
    (
      _,
      refl,
      insert_before-stack e s p once
          ∙ insert_below-upper e s p b
          ∙ ap (insert_below (suc e) (suc s)) (sym (without-stack e p)),
    )
nested_subsurface_place_below-restacks e _ _ w once (below s a b) =
    let p = w.surface.pending in
    (
      _,
      refl,
      insert_before-stack e s p once
          ∙ insert_below-lower e s p a b
          ∙ ap (insert_below (suc e) (suc s)) (sym (without-stack e p)),
    )
