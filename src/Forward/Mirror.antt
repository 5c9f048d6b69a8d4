-- ===== src/Forward/Mirror.antt =====
-- What the compositor knows of a surface from the requests, and how the parts of
-- `apply_pending_surface_updates` change it.
pub mod Steps
pub mod Colors
pub mod Descs
pub mod Images
pub mod Whole
pub mod Twice
use swaylock_plugin.Base.{
  ℕ, ◌≡◌, refl, sym, ap, ◌∙◌, subst, Bool, true, false, List, [], ◌∷◌, Option, none, some,
  if◌then◌else◌, Outcome, returns, ◌>>=◌,
}
use swaylock_plugin.Forward.{
  SurfaceState, ForwardSurface, ForwardImageDesc, World, SurfaceRequest, set_buffer_scale,
  set_buffer_transform, set_destination, set_source, renew_color_representation, set_alpha_mode,
  set_chroma_location, set_coefficients_and_range, unset_image_description, set_image_description,
  minus_one, minus_one_fixed,
}

-- The properties of a wl_surface and of the objects that extend it, with the protocols' initial
-- values.
pub record Upstream : Type 0 where
  pub scale : ℕ
  pub transform : ℕ
  pub dest : ℕ × ℕ
  pub source : ℕ × ℕ × ℕ × ℕ
  pub alpha : Option ℕ
  pub chroma : Option ℕ
  pub coefs : Option (ℕ × ℕ)
  pub image : Option (ℕ × ℕ)

abbrev initial : Upstream
initial = record {
  scale = 1;
  transform = 0;
  dest = (minus_one, minus_one);
  source = (minus_one_fixed, minus_one_fixed, minus_one_fixed, minus_one_fixed);
  alpha = none;
  chroma = none;
  coefs = none;
  image = none;
}

abbrev pub receive : SurfaceRequest → Upstream → Upstream
receive (set_buffer_scale n) u = record u { scale = n }
receive (set_buffer_transform n) u = record u { transform = n }
receive (set_destination w h) u = record u { dest = (w, h) }
receive (set_source x y w h) u = record u { source = (x, y, w, h) }
receive renew_color_representation u = record u { alpha = none; chroma = none; coefs = none }
receive (set_alpha_mode n) u = record u { alpha = some n }
receive (set_chroma_location n) u = record u { chroma = some n }
receive (set_coefficients_and_range c r) u = record u { coefs = some (c, r) }
receive unset_image_description u = record u { image = none }
receive (set_image_description d intent) u = record u { image = some (d, intent) }
receive _ u = u

-- What the requests of a log, the newest first, leave.
abbrev pub heard : List SurfaceRequest → Upstream
heard [] = initial
heard (r ∷ rs) = receive r (heard rs)

abbrev pub given {ℓ} : {A : Type ℓ} → Bool → A → Option A
given true a = some a
given false a = none

abbrev pub described : Option ℕ → ℕ → Option (ℕ × ℕ)
described none intent = none
described (some d) intent = some (d, intent)

abbrev pub source_of : SurfaceState → ℕ × ℕ × ℕ × ℕ
source_of st =
    (st.viewport_source_x, st.viewport_source_y, st.viewport_source_w, st.viewport_source_h)

-- The compositor knows the properties of the state, but for the source rectangle.
pub record Shows (u : Upstream) (st : SurfaceState) : Type 0 where
  pub scale_shown : u.scale ≡ st.buffer_scale
  pub transform_shown : u.transform ≡ st.buffer_transform
  pub dest_shown : u.dest ≡ (st.viewport_dest_width, st.viewport_dest_height)
  pub alpha_shown : u.alpha ≡ given st.has_alpha_mode st.alpha_mode
  pub chroma_shown : u.chroma ≡ given st.has_chroma_location st.chroma_location
  pub coefs_shown : u.coefs ≡ given st.has_coef_range (st.coefficients, st.range)
  pub image_shown : u.image ≡ described st.image_desc st.render_intent

abbrev pub Mirrors : World → Type 0
Mirrors w = Shows (heard w.log) w.surface.committed

-- From `w` to `w'`, the surface gets the committed state `c` and the compositor the source
-- rectangle `source`.
pub record Moves (w : World) (c : SurfaceState) (source : ℕ × ℕ × ℕ × ℕ) (w' : World) : Type 0 where
  pub surface_moves : w'.surface ≡ record w.surface { committed = c }
  pub mirrors_moves : Mirrors w → Mirrors w'
  pub source_moves : (heard w'.log).source ≡ source
  pub descs_moves : w'.descs ≡ w.descs

abbrev pub Goes : World → SurfaceState → ℕ × ℕ × ℕ × ℕ → Outcome World → Type 0
Goes w c source o = (w' : World) × (o ≡ returns w') × Moves w c source w'

-- One part after another: the second computes its committed state and its source rectangle from the
-- surface and the rectangle that it finds.
pub Moves-Moves :
    (w w₁ w₂ : World) (c : SurfaceState) (source : ℕ × ℕ × ℕ × ℕ)
    (f : ForwardSurface → SurfaceState) (g : ForwardSurface → ℕ × ℕ × ℕ × ℕ → ℕ × ℕ × ℕ × ℕ)
    → Moves w c source w₁
    → Moves w₁ (f w₁.surface) (g w₁.surface (heard w₁.log).source) w₂
    → Moves w
        (f (record w.surface { committed = c }))
        (g (record w.surface { committed = c }) source)
        w₂
Moves-Moves w w₁ w₂ c source f g m n = record {
  surface_moves =
      n.surface_moves ∙ ap (λ (s : ForwardSurface). record s { committed = f s }) m.surface_moves;
  mirrors_moves = λ h. n.mirrors_moves (m.mirrors_moves h);
  source_moves =
      n.source_moves
      ∙ (ap (λ s. g s (heard w₁.log).source) m.surface_moves
          ∙ ap (λ r. g (record w.surface { committed = c }) r) m.source_moves);
  descs_moves = n.descs_moves ∙ m.descs_moves;
}

pub if-Moves :
    {w : World} {c : SurfaceState} {source : ℕ × ℕ × ℕ × ℕ} (b : Bool) (x y : World)
    → (b ≡ true → Moves w c source x)
    → (b ≡ false → Moves w c source y)
    → Moves w c source (if b then x else y)
if-Moves true x y p q = p refl
if-Moves false x y p q = q refl

pub if-Goes :
    {w : World} {c : SurfaceState} {source : ℕ × ℕ × ℕ × ℕ} (b : Bool) (x y : Outcome World)
    → (b ≡ true → Goes w c source x)
    → (b ≡ false → Goes w c source y)
    → Goes w c source (if b then x else y)
if-Goes true x y p q = p refl
if-Goes false x y p q = q refl
