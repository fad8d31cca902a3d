-- ===== src/Tests/Masks.antt =====
-- Masks of letters at concrete inputs: a mask of two by two, and canvases as functions.
use captchapi.Captcha.Floats.{clamp}
use captchapi.Prelude.{
  ◌-ℤ◌, sub_i32, add_i32, wrap_i32, ◌+ℤ◌, ◌+ℤ◌, wrap_i32, add_i32, ℕ, ◌<◌, ◌≡◌, ◌≢◌, refl, ◌⊎◌, pos,
  negsuc, Bool, false, ◌&&◌, Option, none, some, [], ◌∷◌, arith, ltb, ◌==◌, if◌then◌else◌,
}
use captchapi.Captcha.Render.{Rgb}
use captchapi.Captcha.Loop.{◌>>=◌}
use captchapi.Captcha.Mask.{as_i32, rows_from, fold, GlyphMask, Canvas, fade_mask, composite_mask}
use captchapi.Captcha.Mask.Rotate.{displace_and_rotate, turn_of, displace_and_rotate-IsWellFormed}
use captchapi.Captcha.Mask.Bounds.{IsWellFormed}
use captchapi.Captcha.Mask.Blend.{IsBlended}
use captchapi.Tests.Thousandths.{Milli, milli, thousandths, lawful}
use captchapi.Prelude.{◌+◌, ◌≤◌}
use captchapi.Captcha.Generator.{Hsl, Shading}
use captchapi.Captcha.Mask.Letter.{shape_mask, blend_mask, IsShaped, shape_mask-IsBlended}
use captchapi.Captcha.Mask.Blur.{blur_mask, radius_of, blur_mask-IsWellFormed}

abbrev glyph : GlyphMask thousandths
glyph = record {
  width = 2;
  height = 2;
  left = negsuc 0;
  top = pos 3;
  coverage = milli false 1000 ∷ milli false 0 ∷ milli false 250 ∷ milli false 500 ∷ [];
}

glyph-IsWellFormed : IsWellFormed glyph
glyph-IsWellFormed = omega arith

pub record Picture : Type 0 where
  pub wide : ℕ
  pub high : ℕ
  pub pixel : ℕ → ℕ → Rgb

abbrev within : Picture → ℕ → ℕ → Bool
within i x y = ltb x i.wide && ltb y i.high

abbrev get_pixel : Picture → ℕ → ℕ → Option Rgb
get_pixel i x y = if within i x y then some (i.pixel x y) else none

abbrev painted : Picture → ℕ → ℕ → Rgb → Picture
painted i x y c = record i { pixel = λ p q. if x == p && y == q then c else i.pixel p q }

abbrev put_pixel : Picture → ℕ → ℕ → Rgb → Option Picture
put_pixel i x y c = if within i x y then some (painted i x y c) else none

put_pixel-some :
    (i : Picture) (x y : ℕ) (c : Rgb)
    → x < i.wide
    → y < i.high
    → (j : Picture) × (put_pixel i x y c ≡ some j)
      × (j.wide ≡ i.wide)
      × (j.high ≡ i.high)
      × ((p q : ℕ) → (x ≢ p) ⊎ (y ≢ q) → get_pixel j p q ≡ get_pixel i p q)
put_pixel-some i x y c hx hy =
    (painted i x y c, ground arith, refl, refl, λ p q apart. ground arith)

get_pixel-some :
    (i : Picture) (x y : ℕ) → x < i.wide → y < i.high → (c : Rgb) × (get_pixel i x y ≡ some c)
get_pixel-some i x y hx hy = (i.pixel x y, ground arith)

abbrev canvas : Canvas
canvas = record {
  Image = Picture;
  width = λ i. i.wide;
  height = λ i. i.high;
  get_pixel = get_pixel;
  put_pixel = put_pixel;
  get_pixel-some = get_pixel-some;
  put_pixel-some = put_pixel-some;
}

abbrev plain : Picture
plain = record { wide = 4; high = 5; pixel = λ x y. (224, 238, 253) }

abbrev blend : Rgb → Rgb → Milli → Milli → Rgb
blend under over rest share = over

displace_and_rotate-IsWellFormed_example :
    (n : GlyphMask thousandths) × (displace_and_rotate thousandths glyph
        (λ row. row)
        (milli false 300)
      ≡ some n)
    × IsWellFormed n
unfolding rows_from fold turn_of sub_i32 add_i32 wrap_i32 as_i32 ◌+ℤ◌ ◌-ℤ◌
displace_and_rotate-IsWellFormed_example =
    displace_and_rotate-IsWellFormed lawful glyph (λ row. row) (milli false 300) glyph-IsWellFormed
      (omega arith) (omega arith) (omega arith) (omega arith) (omega arith) (omega arith)

-- Half faded, from end to end: one column is as it was.
faded :
    fade_mask thousandths glyph (milli false 1000) (milli false 0) (milli false 0)
    ≡ some (record glyph {
      coverage = milli false 1000 ∷ milli false 0 ∷ milli false 250 ∷ milli false 0 ∷ [];
    })
unfolding fade_mask clamp
faded = refl

-- The lower row of the mask lands on the canvas, with its ink at (1, 2) and (2, 2).
blended :
    (composite_mask thousandths canvas blend plain glyph (pos 2) (negsuc 1) (1, 2, 3) >>= λ j.
    get_pixel j 2 2)
    ≡ some (1, 2, 3)
unfolding composite_mask add_i32 wrap_i32 ◌+ℤ◌
blended = refl

abbrev red : Hsl thousandths
red = record { hue = milli false 0; saturation = milli false 800; lightness = milli false 400 }

-- Hollow, faded, and in two colours.
abbrev shading : Shading thousandths
shading = record {
  near = red;
  stroke = milli false 1500;
  fade = some (milli false 600, milli false 700);
  gradient = some (red, milli false 100);
  sigma = milli false 0;
}

shape_mask-IsBlended_example :
    (n : GlyphMask thousandths) × (j : Picture) × (shape_mask thousandths shading glyph ≡ some n)
    × IsShaped glyph n
    × (blend_mask thousandths canvas blend
          (λ c. (1, 2, 3))
          red
          shading.gradient
          plain
          n
          (pos 2)
          (negsuc 1)
        ≡ some j)
    × IsBlended {f = thousandths} canvas blend n (pos 2) (negsuc 1) plain j
shape_mask-IsBlended_example =
    shape_mask-IsBlended {f = thousandths} canvas blend (λ c. (1, 2, 3)) shading plain glyph (pos 2)
      (negsuc 1) glyph-IsWellFormed (omega arith) (omega arith)

-- The radius is 1, so the mask of two by two becomes one of four by four.
blur_mask-IsWellFormed_example :
    (n : GlyphMask thousandths) × (blur_mask thousandths glyph (milli false 300) ≡ some n)
    × IsWellFormed n
    × (2 ≤ n.width)
    × (n.width + 2 ≡ 2 + n.height)
blur_mask-IsWellFormed_example =
    blur_mask-IsWellFormed glyph (milli false 300) glyph-IsWellFormed (omega arith) (omega arith)
      (omega arith)

radius : radius_of thousandths (milli false 300) ≡ pos 1
radius = refl
