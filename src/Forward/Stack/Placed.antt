-- ===== src/Forward/Stack/Placed.antt =====
-- The subsurfaces of a commit are stacked in the order of the pending lists.
use swaylock_plugin.Base.{
  ℕ, suc, ◌≡◌, refl, sym, ap, ◌∙◌, false, not, List, [], ◌∷◌, ◌++◌, Option, none, some, map,
  append_assoc, append-nil, All, returns,
}
use swaylock_plugin.Forward.{
  SurfaceState, ForwardSurface, World, place_above, place_below, emit, set_committed,
}
use swaylock_plugin.Forward.Commit.{
  entry_sent, entry_above, entry_below, reversed, empty_committed, apply_subsurfaces,
}
use swaylock_plugin.Forward.Stack.Sent.{Makeable, subsurfaces_sent, apply_subsurfaces-runs}
use swaylock_plugin.Forward.Stack.{stack, has, stacked, drop_all}
use swaylock_plugin.Forward.Stack.Segments.{
  above_sent, below_sent, made_surface, NewAbove, NewBelow, above_stack, below_stack, onto-reversed,
  drop_all-has,
}

entry_pending : (e : ℕ) (w : World) → (entry_sent e w).surface ≡ w.surface
unfolding entry_sent
entry_pending e w = made_surface (not (w.children e).ext_subsurface) e w

above_surface :
    (es : List ℕ) (last : Option ℕ) (w : World)
    → (above_sent es last w).surface ≡ record w.surface {
      committed = record w.surface.committed {
        subsurfaces_above = w.surface.committed.subsurfaces_above ++ es;
      };
    }
unfolding above_sent entry_above
above_surface [] last w =
    ap (λ l. record w.surface { committed = record w.surface.committed { subsurfaces_above = l } })
      (sym (append-nil w.surface.committed.subsurfaces_above))
above_surface (e ∷ es) last w =
    let w₁ = emit (place_above e last) (entry_sent e w) in
    let c = w₁.surface.committed in
    let w₂ = set_committed (record c { subsurfaces_above = c.subsurfaces_above ++ e ∷ [] }) w₁ in
    above_surface es (some e) w₂
    ∙ ap
        (λ (s : ForwardSurface). record s {
          committed = record s.committed {
            subsurfaces_above = (s.committed.subsurfaces_above ++ e ∷ []) ++ es;
          };
        })
        (entry_pending e w)
    ∙ ap
        (λ l. record w.surface { committed = record w.surface.committed { subsurfaces_above = l } })
        (append_assoc w.surface.committed.subsurfaces_above (e ∷ []) es)

below_surface :
    (es : List ℕ) (last : Option ℕ) (w : World)
    → (below_sent es last w).surface ≡ record w.surface {
      committed = record w.surface.committed {
        subsurfaces_below = reversed es ++ w.surface.committed.subsurfaces_below;
      };
    }
unfolding below_sent entry_below reversed
below_surface [] last w = refl
below_surface (e ∷ es) last w =
    let w₁ = emit (place_below e last) (entry_sent e w) in
    let c = w₁.surface.committed in
    let w₂ = set_committed (record c { subsurfaces_below = e ∷ c.subsurfaces_below }) w₁ in
    below_surface es (some e) w₂
    ∙ ap
        (λ (s : ForwardSurface). record s {
          committed = record s.committed {
            subsurfaces_below = reversed es ++ e ∷ s.committed.subsurfaces_below;
          };
        })
        (entry_pending e w)
    ∙ ap
        (λ l. record w.surface { committed = record w.surface.committed { subsurfaces_below = l } })
        (sym (append_assoc (reversed es) (e ∷ []) w.surface.committed.subsurfaces_below))

reversed-append : (xs ys : List ℕ) → reversed (xs ++ ys) ≡ reversed ys ++ reversed xs
unfolding reversed
reversed-append [] ys = sym (append-nil (reversed ys))
reversed-append (x ∷ xs) ys =
    ap (λ l. l ++ x ∷ []) (reversed-append xs ys)
    ∙ append_assoc (reversed ys) (reversed xs) (x ∷ [])

reversed-reversed : (xs : List ℕ) → reversed (reversed xs) ≡ xs
unfolding reversed
reversed-reversed [] = refl
reversed-reversed (x ∷ xs) =
    reversed-append (reversed xs) (x ∷ []) ∙ ap (λ l. x ∷ l) (reversed-reversed xs)

-- What a stack keeps of the other surfaces.
abbrev pub others : SurfaceState → List ℕ → List ℕ
others p s = drop_all (reversed p.subsurfaces_below) (drop_all p.subsurfaces_above s)

-- What is sent for all of them.
subsurfaces_sent-stacks :
    (st : List ℕ) (w : World) (pre post : List ℕ)
    → stacked st w.log ≡ pre ++ (0 ∷ post)
    → has 0 pre ≡ false
    → NewAbove (0 ∷ []) w.surface.pending.subsurfaces_above
    → NewBelow
        (0 ∷ map suc w.surface.pending.subsurfaces_above)
        (reversed w.surface.pending.subsurfaces_below)
    → (stacked st (subsurfaces_sent w).log
        ≡ others w.surface.pending pre
          ++ (stack w.surface.pending ++ others w.surface.pending post))
      × ((subsurfaces_sent w).surface ≡ record w.surface {
        committed = record w.surface.committed {
          subsurfaces_above = w.surface.pending.subsurfaces_above;
          subsurfaces_below = w.surface.pending.subsurfaces_below;
        };
      })
unfolding subsurfaces_sent empty_committed
subsurfaces_sent-stacks st w pre post s h na nb =
    let p = w.surface.pending in
    let w₁ =
      set_committed (record w.surface.committed { subsurfaces_above = []; subsurfaces_below = [] })
        w in
    let w₂ = above_sent p.subsurfaces_above none w₁ in
    let above =
      above_stack st p.subsurfaces_above none w₁ pre [] post
        (s ∙ ap (λ l. l ++ (0 ∷ post)) (sym (append-nil pre))) (ap (has 0) (append-nil pre) ∙ h)
        na in
    let below =
      below_stack st (reversed p.subsurfaces_below) none w₂ (drop_all p.subsurfaces_above pre)
        (map suc p.subsurfaces_above) (drop_all p.subsurfaces_above post)
        (above
          ∙ append_assoc (drop_all p.subsurfaces_above pre) (0 ∷ map suc p.subsurfaces_above)
              (drop_all p.subsurfaces_above post))
        (drop_all-has p.subsurfaces_above pre 0 h) nb in
    (
      below
          ∙ ap (λ l. others p pre ++ (l ++ others p post))
              (onto-reversed p.subsurfaces_below (0 ∷ map suc p.subsurfaces_above)),
      below_surface (reversed p.subsurfaces_below) none w₂
          ∙ ap
              (λ (q : ForwardSurface). record q {
                committed = record q.committed {
                  subsurfaces_below =
                      reversed (reversed p.subsurfaces_below) ++ q.committed.subsurfaces_below;
                };
              })
              (above_surface p.subsurfaces_above none w₁)
          ∙ ap
              (λ l. record w.surface {
                committed = record w.surface.committed {
                  subsurfaces_above = p.subsurfaces_above;
                  subsurfaces_below = l;
                };
              })
              (append-nil _ ∙ reversed-reversed p.subsurfaces_below),
    )

-- Where each subsurface of the pending lists is made, or the surface has an output, and where
-- the compositor's stack has the surface, and each subsurface of the pending lists stands there
-- only once, the subsurfaces of a commit are applied without a fault, and the requests put them
-- into the stack directly below and above the surface, in the order of the pending lists, leave
-- the order of the other surfaces on both sides, and the committed lists are the pending ones.
pub apply_subsurfaces-stacks :
    (st : List ℕ) (w : World) (pre post : List ℕ)
    → All (Makeable w) w.surface.pending.subsurfaces_above
    → All (Makeable w) (reversed w.surface.pending.subsurfaces_below)
    → stacked st w.log ≡ pre ++ (0 ∷ post)
    → has 0 pre ≡ false
    → NewAbove (0 ∷ []) w.surface.pending.subsurfaces_above
    → NewBelow
        (0 ∷ map suc w.surface.pending.subsurfaces_above)
        (reversed w.surface.pending.subsurfaces_below)
    → (w' : World) × (apply_subsurfaces w ≡ returns w')
      × (stacked st w'.log
          ≡ others w.surface.pending pre
            ++ (stack w.surface.pending ++ others w.surface.pending post))
      × (w'.surface ≡ record w.surface {
        committed = record w.surface.committed {
          subsurfaces_above = w.surface.pending.subsurfaces_above;
          subsurfaces_below = w.surface.pending.subsurfaces_below;
        };
      })
apply_subsurfaces-stacks st w pre post above below s h na nb =
    let (stacks, commits) = subsurfaces_sent-stacks st w pre post s h na nb in
    (subsurfaces_sent w, apply_subsurfaces-runs w above below, stacks, commits)
