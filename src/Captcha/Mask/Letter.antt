-- ===== src/Captcha/Mask/Letter.antt =====
-- src/services/captcha/generator.rs: `Shading::shape` and the blending of `Shading::paint`, with the
-- masks of drawing.rs.
use captchapi.Prelude.{
  ◌^◌, ◌<◌, ◌≡◌, refl, ◌∙◌, ℤ, Option, none, some, Bool-cases, inl, inr, if◌then◌else◌,
}
use captchapi.Captcha.Floats.{Floats}
use captchapi.Captcha.Loop.{◌>>=◌}
use captchapi.Captcha.Generator.{Hsl, Shading}
use captchapi.Captcha.Render.{Rgb}
use captchapi.Captcha.Mask.{GlyphMask, Canvas, fade_mask, composite_mask, composite_mask_gradient}
use captchapi.Captcha.Mask.Bounds.{IsWellFormed, fade_mask-IsWellFormed}
use captchapi.Captcha.Mask.Outline.{outline_mask, outline_mask-IsWellFormed}
use captchapi.Captcha.Mask.Blend.{IsBlended, composite_shaded-IsBlended}

module _ (f : Floats) where
  open f use {F, lit, lt}

  -- The `match self.fade` of `Shading::shape`.
  unfoldable pub faded_by : Option (F × F) → GlyphMask f → Option (GlyphMask f)
  unfolding fade_mask
  faded_by none m = some m
  faded_by (some (far, angle)) m = fade_mask f m (lit 10 1) far angle

  -- `Shading::shape`: hollowed out before it is faded.
  unfoldable pub shape_mask : Shading f → GlyphMask f → Option (GlyphMask f)
  unfolding outline_mask faded_by
  shape_mask s m = do
    hollow ← if lt (lit 0 1) s.stroke then outline_mask f m s.stroke else some m
    faded_by s.fade hollow

  -- The `match self.gradient` of `Shading::paint`, which the blur of the canvas follows.
  unfoldable pub blend_mask :
      (v : Canvas)
      → (Rgb → Rgb → F → F → Rgb)
      → (Hsl f → Rgb)
      → Hsl f
      → Option (Hsl f × F)
      → v.Image
      → GlyphMask f
      → ℤ
      → ℤ
      → Option v.Image
  unfolding composite_mask composite_mask_gradient
  blend_mask v weighted_sum to_rgb near none image m x y =
      composite_mask f v weighted_sum image m x y (to_rgb near)
  blend_mask v weighted_sum to_rgb near (some (far, angle)) image m x y =
      composite_mask_gradient f v weighted_sum to_rgb image m x y near far angle

module _ {f : Floats} where
  open f use {F, lit, lt}

  -- A mask of the same size and place.
  pub record IsShaped (m n : GlyphMask f) : Type 0 where
    pub formed : IsWellFormed n
    pub width : n.width ≡ m.width
    pub height : n.height ≡ m.height
    pub left : n.left ≡ m.left
    pub top : n.top ≡ m.top

  hollow-IsShaped :
      (m : GlyphMask f) (stroke : F)
      → IsWellFormed m
      → (n : GlyphMask f) × ((if lt (lit 0 1) stroke then outline_mask f m stroke else some m)
          ≡ some n)
        × IsShaped m n
  hollow-IsShaped m stroke h =
      let (n, done, formed, w, t, l, u) = outline_mask-IsWellFormed m stroke h in
      elim (Bool-cases (lt (lit 0 1) stroke)) [
        | inl hollow ↦ (
          n,
          rw hollow done,
          record { formed = formed; width = w; height = t; left = l; top = u },
        )
        | inr solid ↦ (
          m,
          rw solid refl,
          record { formed = h; width = refl; height = refl; left = refl; top = refl },
        )
      ]

  faded_by-IsShaped :
      (fade : Option (F × F)) (m : GlyphMask f)
      → IsWellFormed m
      → (n : GlyphMask f) × (faded_by f fade m ≡ some n) × IsShaped m n
  unfolding faded_by
  faded_by-IsShaped none m h =
      (m, refl, record { formed = h; width = refl; height = refl; left = refl; top = refl })
  faded_by-IsShaped (some (far, angle)) m h =
      let (n, done, formed, w, t, l, u) = fade_mask-IsWellFormed m (lit 10 1) far angle h in
      (n, done, record { formed = formed; width = w; height = t; left = l; top = u })

  shape_mask-IsShaped :
      (s : Shading f) (m : GlyphMask f)
      → IsWellFormed m
      → (n : GlyphMask f) × (shape_mask f s m ≡ some n) × IsShaped m n
  unfolding shape_mask
  shape_mask-IsShaped s m h =
      let (a, hollowed, p) = hollow-IsShaped m s.stroke h in
      let (b, faded, q) = faded_by-IsShaped s.fade a p.formed in
      (
        b,
        rw hollowed faded,
        record {
          formed = q.formed;
          width = q.width ∙ p.width;
          height = q.height ∙ p.height;
          left = q.left ∙ p.left;
          top = q.top ∙ p.top;
        },
      )

  blend_mask-IsBlended :
      (v : Canvas) (weighted_sum : Rgb → Rgb → F → F → Rgb) (to_rgb : Hsl f → Rgb) (near : Hsl f)
      (gradient : Option (Hsl f × F)) (i : v.Image) (m : GlyphMask f) (x y : ℤ)
      → IsWellFormed m
      → v.width i < 2 ^ 31
      → v.height i < 2 ^ 31
      → (j : v.Image) × (blend_mask f v weighted_sum to_rgb near gradient i m x y ≡ some j)
        × IsBlended {f = f} v weighted_sum m x y i j
  unfolding blend_mask composite_mask composite_mask_gradient
  blend_mask-IsBlended v weighted_sum to_rgb near none i m x y h wide high =
      composite_shaded-IsBlended {f = f} v weighted_sum i m x y _ h wide high
  blend_mask-IsBlended v weighted_sum to_rgb near (some (far, angle)) i m x y h wide high =
      composite_shaded-IsBlended {f = f} v weighted_sum i m x y _ h wide high

  -- A letter with a well-formed mask that is shaped and blended onto a canvas whose sides are below
  -- 2 ^ 31, whatever the shading that was drawn for it and wherever it lands: nothing reads or writes
  -- out of bounds, the mask keeps its size and its place, the canvas keeps its size, and every pixel
  -- of it on which no ink lands is as it was.
  pub shape_mask-IsBlended :
      (v : Canvas) (weighted_sum : Rgb → Rgb → F → F → Rgb) (to_rgb : Hsl f → Rgb) (s : Shading f)
      (i : v.Image) (m : GlyphMask f) (x y : ℤ)
      → IsWellFormed m
      → v.width i < 2 ^ 31
      → v.height i < 2 ^ 31
      → (n : GlyphMask f) × (j : v.Image) × (shape_mask f s m ≡ some n)
        × IsShaped m n
        × (blend_mask f v weighted_sum to_rgb s.near s.gradient i n x y ≡ some j)
        × IsBlended {f = f} v weighted_sum n x y i j
  shape_mask-IsBlended v weighted_sum to_rgb s i m x y h wide high =
      let (n, shaped, same) = shape_mask-IsShaped s m h in
      let (j, blended, result) =
        blend_mask-IsBlended v weighted_sum to_rgb s.near s.gradient i n x y same.formed wide
          high in
      (n, j, shaped, same, blended, result)
