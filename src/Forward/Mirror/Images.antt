-- ===== src/Forward/Mirror/Images.antt =====
-- The image description of the property updates.
use swaylock_plugin.Base.{
  ℕ, ◌≡◌, refl, sym, ap, ◌∙◌, subst, Bool, true, false, not, ◌||◌, ◌==◌, Bool-cases, inl, inr,
  Option, none, some, Outcome, returns, ◌>>=◌,
}
use swaylock_plugin.Forward.{SurfaceState, ForwardSurface, World, set_committed}
use swaylock_plugin.Forward.Apply.{assert_then}
use swaylock_plugin.Forward.Content.{
  same_desc, request_desc, exchange_desc, set_intent, apply_image_desc,
}
use swaylock_plugin.Forward.Mirror.{Shows, Mirrors, heard, described}
use swaylock_plugin.Forward.Mirror.Steps.{same_number, neither}
use swaylock_plugin.Forward.Mirror.Descs.{Alive, same_desc-same, exchange_desc-Exchanged, imaged}

-- The whole part, in the way of `Moves`.
pub record Settles (w w' : World) : Type 0 where
  pub surface_settles : w'.surface ≡ record w.surface { committed = imaged w.surface }
  pub mirrors_settles : Mirrors w → Mirrors w'
  pub source_settles : (heard w'.log).source ≡ (heard w.log).source
  pub alive_settles : Alive w'.descs w.surface.pending.image_desc

requested-log :
    (w : World) (o : Option ℕ) (intent : ℕ)
    → (request_desc o intent w ≡ record w { log = (request_desc o intent w).log })
      × (heard (request_desc o intent w).log ≡ record (heard w.log) { image = described o intent })
unfolding request_desc
requested-log w none intent = (refl, refl)
requested-log w (some d) intent = (refl, refl)

-- What follows the assertion, with the pending description `p`.
abbrev rest : SurfaceState → World → Outcome World
rest p w =
    exchange_desc (request_desc p.image_desc p.render_intent w) >>= λ w₂. returns (set_intent w₂)

asserted :
    (b : Bool) (w : World) (f : World → Outcome World) → b ≡ true → (assert_then b w >>= f) ≡ f w
unfolding assert_then
asserted true w f e = refl
asserted false w f e = cc e

rest-Settles :
    (w : World)
    → Alive w.descs w.surface.committed.image_desc
    → Alive w.descs w.surface.pending.image_desc
    → (w' : World) × (rest w.surface.pending w ≡ returns w') × Settles w w'
unfolding set_intent
rest-Settles w old new =
    let p = w.surface.pending in
    let (same, told) = requested-log w p.image_desc p.render_intent in
    let w₁ = record w { log = (request_desc p.image_desc p.render_intent w).log } in
    let (D, exchanged, alive) = exchange_desc-Exchanged w₁ old new in
    let w' = set_committed (imaged w.surface) (record w₁ { descs = D }) in
    (
      w',
      ap (λ x. exchange_desc x >>= λ w₂. returns (set_intent w₂)) same
          ∙ ap (λ (o : Outcome World). o >>= λ w₂. returns (set_intent w₂)) exchanged,
      record {
        surface_settles = refl;
        mirrors_settles = λ h.
            subst (λ u. Shows u w'.surface.committed) (sym told)
              (record {
                scale_shown = h.scale_shown;
                transform_shown = h.transform_shown;
                dest_shown = h.dest_shown;
                alpha_shown = h.alpha_shown;
                chroma_shown = h.chroma_shown;
                coefs_shown = h.coefs_shown;
                image_shown = refl;
              });
        source_settles = ap (λ u. u.source) told;
        alive_settles = alive;
      },
    )

not-false : (b : Bool) → not b ≡ false → b ≡ true
not-false true e = refl
not-false false e = cc e

same_image :
    (s : ForwardSurface)
    → not (same_desc s.committed.image_desc s.pending.image_desc)
        || not (s.committed.render_intent == s.pending.render_intent)
      ≡ false
    → s.committed ≡ imaged s
same_image s e =
    let (a, b) = neither _ _ e in
    ap (λ d. record s.committed { image_desc = d }) (same_desc-same _ _ (not-false _ a))
    ∙ ap (λ n. record s.committed { image_desc = s.pending.image_desc; render_intent = n })
        (same_number _ _ b)

pub apply_image_desc-Settles :
    (w : World)
    → w.surface.background.color_surface ≡ true
    → Alive w.descs w.surface.committed.image_desc
    → Alive w.descs w.surface.pending.image_desc
    → (w' : World) × (apply_image_desc w ≡ returns w') × Settles w w'
unfolding apply_image_desc
apply_image_desc-Settles w v old new =
    let p = w.surface.pending in
    let c = w.surface.committed in
    elim (Bool-cases
      (not (same_desc c.image_desc p.image_desc) || not (c.render_intent == p.render_intent))) [
        | inl e ↦
            let (w', ran, settles) = rest-Settles w old new in
            (w', rw e (asserted w.surface.background.color_surface w (rest p) v ∙ ran), settles)
        | inr e ↦ (
          w,
          rw e refl,
          record {
            surface_settles =
                ap (λ c'. record w.surface { committed = c' }) (same_image w.surface e);
            mirrors_settles = λ h. h;
            source_settles = refl;
            alive_settles = new;
          },
        )
      ]
