-- ===== src/Forward/Stack/Segments.antt =====
-- Placing subsurfaces one after another around the surface.
use swaylock_plugin.Base.{
  ℕ, suc, ◌≡◌, refl, ap, ◌∙◌, Bool, true, false, not, List, [], ◌∷◌, ◌++◌, Option, some, ==_iff,
  map, append_assoc, append-nil, if◌then◌else◌,
}
use swaylock_plugin.Forward.{
  World, get_subsurface, set_sync, set_desync, place_above, place_below, emit, set_committed,
}
use swaylock_plugin.Forward.Apply.{emit_if}
use swaylock_plugin.Forward.Commit.{entry_sent, entry_above, entry_below, reversed}
use swaylock_plugin.Forward.Stack.{
  has, without, insert_above, insert_below, mark, restack, stacked, drop_all, without-append,
  missing-append, has-without_same, has-without_other, place_above_segment, place_below_segment,
}

pub sync_stack :
    (b : Bool) (e : ℕ) (st : List ℕ) → restack (if b then set_desync e else set_sync e) st ≡ st
sync_stack true e st = refl
sync_stack false e st = refl

pub made_stack :
    (b : Bool) (e : ℕ) (st : List ℕ) (w : World)
    → without (suc e) (stacked st (emit_if b (get_subsurface e) w).log)
      ≡ without (suc e) (stacked st w.log)
unfolding emit_if
made_stack true e st w =
    without-append (suc e) (stacked st w.log) (suc e ∷ [])
    ∙ simp ((==_iff (suc e) (suc e)).1 refl, append-nil)
made_stack false e st w = refl

pub made_surface :
    (b : Bool) (e : ℕ) (w : World) → (emit_if b (get_subsurface e) w).surface ≡ w.surface
unfolding emit_if
made_surface true e w = refl
made_surface false e w = refl

-- Making the subsurface may put it on top, before it is placed.
pub entry_stack :
    (e : ℕ) (st : List ℕ) (w : World)
    → without (suc e) (stacked st (entry_sent e w).log) ≡ without (suc e) (stacked st w.log)
unfolding entry_sent
entry_stack e st w =
    let child = w.children e in
    ap (without (suc e)) (sync_stack child.is_desync e _)
    ∙ made_stack (not child.ext_subsurface) e st w

-- What is sent for the entries, each made and then placed next to the last.
unfoldable pub above_sent : List ℕ → Option ℕ → World → World
unfolding entry_sent entry_above
above_sent [] last w = w
above_sent (e ∷ es) last w = above_sent es (some e) (entry_above e last (entry_sent e w))

unfoldable pub below_sent : List ℕ → Option ℕ → World → World
unfolding entry_sent entry_below
below_sent [] last w = w
below_sent (e ∷ es) last w = below_sent es (some e) (entry_below e last (entry_sent e w))

-- The surfaces to place above a segment are not in it, and no one twice.
abbrev pub NewAbove : List ℕ → List ℕ → Type 0
NewAbove seg [] = Unit
NewAbove seg (e ∷ es) = (has (suc e) seg ≡ false) × NewAbove (seg ++ suc e ∷ []) es

abbrev pub NewBelow : List ℕ → List ℕ → Type 0
NewBelow seg [] = Unit
NewBelow seg (e ∷ es) = (has (suc e) seg ≡ false) × NewBelow (suc e ∷ seg) es

pub above_stack :
    (st : List ℕ) (entries : List ℕ) (last : Option ℕ) (w : World) (pre seg post : List ℕ)
    → stacked st w.log ≡ (pre ++ seg) ++ mark last ∷ post
    → has (mark last) (pre ++ seg) ≡ false
    → NewAbove (seg ++ mark last ∷ []) entries
    → stacked st (above_sent entries last w).log
      ≡ (drop_all entries pre ++ (seg ++ mark last ∷ map suc entries)) ++ drop_all entries post
unfolding above_sent entry_above
above_stack st [] last w pre seg post s h new = s ∙ simp append_assoc
above_stack st (e ∷ es) last w pre seg post s h (n, new) =
    let x = suc e in
    let w₁ = emit (place_above e last) (entry_sent e w) in
    let c = w₁.surface.committed in
    let w₂ = set_committed (record c { subsurfaces_above = c.subsurfaces_above ++ e ∷ [] }) w₁ in
    above_stack st es (some e) w₂ (without x pre) (seg ++ mark last ∷ []) (without x post)
      (ap (insert_above x (mark last)) (entry_stack e st w ∙ ap (without x) s)
        ∙ place_above_segment x (mark last) pre seg post h n)
      (missing-append x (without x pre) (seg ++ mark last ∷ []) (has-without_same x pre) n) new
    ∙ simp append_assoc

-- The entries, each put in front of the last.
pub onto : List ℕ → List ℕ → List ℕ
onto [] seg = seg
onto (e ∷ es) seg = onto es (suc e ∷ seg)

pub below_stack :
    (st : List ℕ) (entries : List ℕ) (last : Option ℕ) (w : World) (pre seg post : List ℕ)
    → stacked st w.log ≡ pre ++ (mark last ∷ (seg ++ post))
    → has (mark last) pre ≡ false
    → NewBelow (mark last ∷ seg) entries
    → stacked st (below_sent entries last w).log
      ≡ drop_all entries pre ++ (onto entries (mark last ∷ seg) ++ drop_all entries post)
unfolding below_sent onto entry_below
below_stack st [] last w pre seg post s h new = s
below_stack st (e ∷ es) last w pre seg post s h (n, new) =
    let x = suc e in
    let w₁ = emit (place_below e last) (entry_sent e w) in
    let c = w₁.surface.committed in
    let w₂ = set_committed (record c { subsurfaces_below = e ∷ c.subsurfaces_below }) w₁ in
    below_stack st es (some e) w₂ (without x pre) (mark last ∷ seg) (without x post)
      (ap (insert_below x (mark last)) (entry_stack e st w ∙ ap (without x) s)
        ∙ place_below_segment x (mark last) pre seg post h n)
      (has-without_same x pre) new

pub onto-append : (xs ys seg : List ℕ) → onto (xs ++ ys) seg ≡ onto ys (onto xs seg)
unfolding onto
onto-append [] ys seg = refl
onto-append (x ∷ xs) ys seg = onto-append xs ys (suc x ∷ seg)

pub onto-reversed : (xs seg : List ℕ) → onto (reversed xs) seg ≡ map suc xs ++ seg
unfolding reversed onto
onto-reversed [] seg = refl
onto-reversed (x ∷ xs) seg =
    onto-append (reversed xs) (x ∷ []) seg ∙ ap (λ l. suc x ∷ l) (onto-reversed xs seg)

pub drop_all-has : (cs s : List ℕ) (r : ℕ) → has r s ≡ false → has r (drop_all cs s) ≡ false
drop_all-has [] s r h = h
drop_all-has (c ∷ cs) s r h =
    drop_all-has cs (without (suc c) s) r (has-without_other r (suc c) s h)
