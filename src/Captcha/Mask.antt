-- ===== src/Captcha/Mask.antt =====
-- src/services/captcha/drawing.rs: the masks of letters, which are rasterized as coverage and then
-- displaced and faded, and how one is blended onto the canvas. An index out of bounds and a `u32`
-- that overflows panic. The pixels of the canvas are those of the crate image.
pub mod Bounds
pub mod Blend
pub mod Blur
pub mod Letter
pub mod Outline
pub mod Rotate
use captchapi.Prelude.{
  ◌<◌, ◌≡◌, ◌≢◌, ◌⊎◌, ℕ, zero, suc, ◌+◌, ◌-◌, ◌*◌, ◌^◌, ℤ, pos, negsuc, pos_part, Bool, true, false,
  ◌||◌, ◌&&◌, Option, none, some, List, [], ◌∷◌, ltb, leb, ltb_ℤ, leb_ℤ, ◌==◌, length, replicate,
  get_elem?, wrap_i32, add_i32, sub_i32, if◌then◌else◌, ◌≡◌,
}
use captchapi.Captcha.Floats.{Floats, clamp}
use captchapi.Captcha.Loop.{◌>>=◌, set?, pixels}
use captchapi.Captcha.Generator.{Hsl}
use captchapi.Captcha.Render.{Rgb}

-- `n as i32` on u32.
unfoldable pub as_i32 : ℕ → ℤ
as_i32 n = wrap_i32 (pos n)

-- `n as u32` on i32.
abbrev pub as_u32 : ℤ → ℕ
as_u32 (pos n) = n
as_u32 (negsuc n) = 2 ^ 32 - suc n

-- `n as usize` on i32, which extends the sign.
abbrev pub as_usize : ℤ → ℕ
as_usize (pos n) = n
as_usize (negsuc n) = 2 ^ 64 - suc n

-- `usize` arithmetic that panics on an overflow.
abbrev pub checked_usize : ℕ → Option ℕ
checked_usize n = if ltb n (2 ^ 64) then some n else none

-- `u32` arithmetic that panics on an overflow.
abbrev pub checked_u32 : ℕ → Option ℕ
checked_u32 n = if ltb n (2 ^ 32) then some n else none

module _ (f : Floats) where
  open f use {
    F, lit, of_ℕ, add, sub, mul, div, min, max, neg, sin, cos, abs, floor, ceil, rem_euclid, to_i32,
    to_u32, to_usize, lt, le, infinity,
  }

  pub record GlyphMask : Type 0 where
    pub width : ℕ
    pub height : ℕ
    pub left : ℤ
    pub top : ℤ
    -- row by row, each in 0.0 to 1.0
    pub coverage : List F

  pub record LinearRamp : Type 0 where
    pub cos : F
    pub sin : F
    pub origin : F
    pub span : F

  -- `LinearRamp::across`
  unfoldable pub across : ℕ → ℕ → F → LinearRamp
  across width height angle =
      let w = of_ℕ (width - 1) in
      let h = of_ℕ (height - 1) in
      record {
        cos = cos angle;
        sin = sin angle;
        origin = add (mul (min (cos angle) (lit 0 1)) w) (mul (min (sin angle) (lit 0 1)) h);
        span = add (mul (abs (cos angle)) w) (mul (abs (sin angle)) h);
      }

  -- `LinearRamp::at`
  unfoldable pub ramp_at : LinearRamp → ℕ → ℕ → F
  ramp_at r x y =
      if le r.span (lit 0 1)
      then lit 0 1
      else clamp f (div (sub (add (mul (of_ℕ x) r.cos) (mul (of_ℕ y) r.sin)) r.origin) r.span)
          (lit 0 1) (lit 10 1)

  -- `Hsl::lerp`
  unfoldable pub lerp : Hsl f → Hsl f → F → Hsl f
  lerp a b t =
      let share = clamp f t (lit 0 1) (lit 10 1) in
      let arc = rem_euclid (sub b.hue a.hue) (lit 10 1) in
      let delta = if lt (lit 5 1) arc then sub arc (lit 10 1) else arc in
      record {
        hue = rem_euclid (add a.hue (mul delta share)) (lit 10 1);
        saturation = add a.saturation (mul (sub b.saturation a.saturation) share);
        lightness = add a.lightness (mul (sub b.lightness a.lightness) share);
      }

  abbrev pub is_outside : GlyphMask → ℤ → ℤ → Bool
  is_outside m x y =
      ltb_ℤ x (pos 0) || ltb_ℤ y (pos 0) || leb_ℤ (as_i32 m.width) x || leb_ℤ (as_i32 m.height) y

  -- `GlyphMask::at`: nothing outside.
  unfoldable pub mask_at : GlyphMask → ℤ → ℤ → Option F
  unfolding as_i32
  mask_at m x y =
      if is_outside m x y
      then some (lit 0 1)
      else do index ← checked_usize (as_usize y * m.width + as_usize x); get_elem? m.coverage index

  unfoldable pub sample_row : GlyphMask → F → ℤ → Option F
  unfolding mask_at
  sample_row m x y = do
    let x0 = to_i32 (floor x)
    let frac = sub x (floor x)
    a ← mask_at m x0 y
    b ← mask_at m (add_i32 x0 (pos 1)) y
    some (add (mul a (sub (lit 10 1) frac)) (mul b frac))

  -- `(0..n).map(…).collect()`, from a first row on.
  unfoldable pub rows_from : ℕ → ℕ → (F → F) → List F
  rows_from y zero displacement = []
  rows_from y (suc n) displacement = displacement (of_ℕ y) ∷ rows_from (suc y) n displacement

  unfoldable pub fold : (F → F → F) → F → List F → F
  fold g acc [] = acc
  fold g acc (x ∷ xs) = fold g (g acc x) xs

  abbrev pub offsets_of : GlyphMask → (F → F) → List F
  offsets_of m displacement = rows_from 0 m.height displacement

  abbrev pub pad_left_of : GlyphMask → (F → F) → ℕ
  pad_left_of m displacement =
      to_u32 (ceil (max (neg (fold min infinity (offsets_of m displacement))) (lit 0 1))) + 1

  abbrev pub pad_right_of : GlyphMask → (F → F) → ℕ
  pad_right_of m displacement =
      to_u32 (ceil (max (fold max (neg infinity) (offsets_of m displacement)) (lit 0 1))) + 1

  unfoldable pub displacement_bounds : GlyphMask → (F → F) → Option (List F × ℕ × ℕ)
  unfolding rows_from fold
  displacement_bounds m displacement = do
    pad_left ← checked_u32 (pad_left_of m displacement)
    pad_right ← checked_u32 (pad_right_of m displacement)
    some (offsets_of m displacement, pad_left, pad_right)

  -- One pixel of `displace_rows`.
  unfoldable pub displace_pixel : GlyphMask → ℕ → ℕ → List F → ℕ → ℕ → List F → Option (List F)
  unfolding sample_row
  displace_pixel m width pad_left offsets x y coverage = do
    shift ← get_elem? offsets y
    value ← sample_row m (sub (sub (of_ℕ x) (of_ℕ pad_left)) shift) (as_i32 y)
    if lt (lit 0 1) value
        then (do index ← checked_u32 (y * width + x); set? coverage index value)
        else some coverage

  unfoldable pub displace_rows : GlyphMask → (F → F) → Option GlyphMask
  unfolding displacement_bounds displace_pixel pixels
  displace_rows m displacement = if m.height == 0 || m.width == 0 then some m else do
    bounds ← displacement_bounds m displacement
    width ← checked_u32 (m.width + bounds.1 + bounds.2)
    area ← checked_u32 (width * m.height)
    coverage ←
        pixels width m.height (displace_pixel m width bounds.1 bounds.0) (replicate area (lit 0 1))
    some (record {
      width = width;
      height = m.height;
      left = sub_i32 m.left (as_i32 bounds.1);
      top = m.top;
      coverage = coverage;
    })

  -- One pixel of `fade`.
  unfoldable pub fade_pixel : GlyphMask → F → F → LinearRamp → ℕ → ℕ → List F → Option (List F)
  fade_pixel m from to ramp x y coverage = do
    index ← checked_u32 (y * m.width + x)
    value ← get_elem? coverage index
    if le value (lit 0 1)
        then some coverage
        else set? coverage index (mul value (add from (mul (sub to from) (ramp_at ramp x y))))

  unfoldable pub fade_mask : GlyphMask → F → F → F → Option GlyphMask
  unfolding fade_pixel pixels across ramp_at
  fade_mask m from to angle = do
    coverage ←
        pixels m.width m.height (fade_pixel m from to (across m.width m.height angle)) m.coverage
    some (record m { coverage = coverage })

-- `RgbImage`: its size, and the access to a pixel, which panics outside.
pub record Canvas : Type 1 where
  pub Image : Type 0
  pub width : Image → ℕ
  pub height : Image → ℕ
  pub get_pixel : Image → ℕ → ℕ → Option Rgb
  pub put_pixel : Image → ℕ → ℕ → Rgb → Option Image
  pub get_pixel-some :
      (i : Image) (x y : ℕ) → x < width i → y < height i → (c : Rgb) × (get_pixel i x y ≡ some c)
  -- A write inside changes that pixel at most.
  pub put_pixel-some :
      (i : Image) (x y : ℕ) (c : Rgb)
      → x < width i
      → y < height i
      → (j : Image) × (put_pixel i x y c ≡ some j)
        × (width j ≡ width i)
        × (height j ≡ height i)
        × ((p q : ℕ) → (x ≢ p) ⊎ (y ≢ q) → get_pixel j p q ≡ get_pixel i p q)

-- `(0..length).contains(&x)`
abbrev pub inside : ℤ → ℤ → Bool
inside length x = leb_ℤ (pos 0) x && ltb_ℤ x length

module _ (f : Floats) (v : Canvas) (weighted_sum : Rgb → Rgb → f.F → f.F → Rgb) where
  open f use {F, lit, sub, le}
  open v use {Image, get_pixel, put_pixel}

  -- One pixel of `composite_shaded`.
  unfoldable pub composite_pixel :
      GlyphMask f → ℤ × ℤ → ℤ → ℤ → (ℕ → ℕ → Rgb) → ℕ → ℕ → Image → Option Image
  unfolding as_i32
  composite_pixel m limits x y color_at gx gy image = do
    index ← checked_u32 (gy * m.width + gx)
    gv ← get_elem? m.coverage index
    let image_x = add_i32 (add_i32 (as_i32 gx) x) m.left
    let image_y = add_i32 (add_i32 (as_i32 gy) y) m.top
    if le gv (lit 0 1)
        then some image
        else if inside limits.0 image_x && inside limits.1 image_y
        then (do
          pixel ← get_pixel image (as_u32 image_x) (as_u32 image_y)
          let share = clamp f gv (lit 0 1) (lit 10 1)
          put_pixel image (as_u32 image_x) (as_u32 image_y)
              (weighted_sum pixel (color_at gx gy) (sub (lit 10 1) share) share))
        else some image

  unfoldable pub composite_shaded : Image → GlyphMask f → ℤ → ℤ → (ℕ → ℕ → Rgb) → Option Image
  unfolding composite_pixel pixels
  composite_shaded image m x y color_at =
      let limits : ℤ × ℤ = (as_i32 (v.width image), as_i32 (v.height image)) in
      pixels m.width m.height (composite_pixel m limits x y color_at) image

  unfoldable pub composite_mask : Image → GlyphMask f → ℤ → ℤ → Rgb → Option Image
  unfolding composite_shaded
  composite_mask image m x y color = composite_shaded image m x y (λ _ _. color)

  unfoldable pub composite_mask_gradient :
      (Hsl f → Rgb) → Image → GlyphMask f → ℤ → ℤ → Hsl f → Hsl f → F → Option Image
  unfolding composite_shaded across ramp_at lerp
  composite_mask_gradient to_rgb image m x y near far angle =
      let ramp = across f m.width m.height angle in
      composite_shaded image m x y (λ gx gy. to_rgb (lerp f near far (ramp_at f ramp gx gy)))
