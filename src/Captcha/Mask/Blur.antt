-- ===== src/Captcha/Mask/Blur.antt =====
-- src/services/captcha/drawing.rs: `gaussian_kernel` and `GlyphMask::blur`, which convolves a mask
-- in two passes into a buffer that is wider and higher by the radius on every side.
use captchapi.Prelude.{
  ℕ, zero, suc, ◌+◌, ◌*◌, ◌^◌, ◌≤◌, ◌<◌, ◌≡◌, refl, ◌∙◌, ℤ, pos, pos_part, true, ◌||◌, ◌&&◌, Option,
  some, List, [], ◌∷◌, arith, ltb, ltb_ℤ, leb_ℤ, ◌==◌, length, replicate, get_elem?, add_i32,
  sub_i32, Bool-cases, inl, inr, if◌then◌else◌,
}
use captchapi.Captcha.Floats.{Floats}
use captchapi.Captcha.Loop.{◌>>=◌, set?, pixels, get_elem?-some, set?-some, index-lt}
use captchapi.Captcha.Mask.{checked_u32, GlyphMask, mask_at, as_i32, as_u32, fold}
use captchapi.Captcha.Mask.Bounds.{
  IsWellFormed, as_i32-id, mask_at-some, buffer_loop, length-replicate,
}
use captchapi.Captcha.Mask.Outline.{diameter, shifted}

module _ (f : Floats) where
  open f use {F, lit, of_ℤ, add, mul, div, neg, exp, ceil, to_i32, le}

  -- The values of the gaussian at the next `n` offsets of `-radius..=radius`.
  unfoldable pub bell : F → ℤ → ℕ → ℕ → List F
  bell sigma radius i zero = []
  bell sigma radius i (suc n) =
      let x = of_ℤ (shifted f radius i) in
      exp (div (neg (mul x x)) (mul (mul (lit 20 1) sigma) sigma)) ∷ bell sigma radius (suc i) n

  unfoldable pub shares : F → List F → List F
  shares total [] = []
  shares total (w ∷ ws) = div w total ∷ shares total ws

  abbrev pub radius_of : F → ℤ
  radius_of sigma = to_i32 (ceil (mul (lit 30 1) sigma))

  unfoldable pub gaussian_kernel : F → ℤ × List F
  unfolding bell shares fold
  gaussian_kernel sigma =
      let radius = radius_of sigma in
      let kernel = bell sigma radius 0 (diameter f radius) in
      (radius, shares (fold f add (lit 0 1) kernel) kernel)

  -- `for (index, weight) in kernel.iter().enumerate()`
  unfoldable pub taps : (ℕ → F → F → Option F) → ℕ → List F → F → Option F
  taps tap index [] sum = some sum
  taps tap index (w ∷ ws) sum = do next ← tap index w sum; taps tap (suc index) ws next

  -- One tap of the horizontal pass.
  unfoldable pub horizontal_tap : GlyphMask f → ℕ → ℤ → ℕ → ℕ → ℕ → F → F → Option F
  unfolding mask_at
  horizontal_tap m pad radius x y index weight sum = do
    let offset = shifted f radius index
    value ← mask_at f m (add_i32 (sub_i32 (as_i32 x) (as_i32 pad)) offset) (as_i32 y)
    some (add sum (mul weight value))

  -- One pixel of the horizontal pass.
  unfoldable pub horizontal_pixel :
      GlyphMask f → ℕ → ℕ → ℤ × List F → ℕ → ℕ → List F → Option (List F)
  unfolding taps horizontal_tap
  horizontal_pixel m pad width kernel x y horizontal = do
    sum ← taps (horizontal_tap m pad kernel.0 x y) 0 kernel.1 (lit 0 1)
    index ← checked_u32 (y * width + x)
    set? horizontal index sum

  -- One tap of the vertical pass: nothing above and below the mask.
  unfoldable pub vertical_tap : GlyphMask f → ℕ → ℕ → ℤ → List F → ℕ → ℕ → ℕ → F → F → Option F
  unfolding as_i32
  vertical_tap m pad width radius horizontal x y index weight sum =
      let source = sub_i32 (add_i32 (sub_i32 (as_i32 y) (as_i32 pad)) (as_i32 index)) radius in
      if leb_ℤ (pos 0) source && ltb_ℤ source (as_i32 m.height)
      then (do
        at ← checked_u32 (as_u32 source * width + x)
        value ← get_elem? horizontal at
        some (add sum (mul weight value)))
      else some sum

  -- One pixel of the vertical pass.
  unfoldable pub vertical_pixel :
      GlyphMask f → ℕ → ℕ → ℤ × List F → List F → ℕ → ℕ → List F → Option (List F)
  unfolding taps vertical_tap
  vertical_pixel m pad width kernel horizontal x y coverage = do
    sum ← taps (vertical_tap m pad width kernel.0 horizontal x y) 0 kernel.1 (lit 0 1)
    index ← checked_u32 (y * width + x)
    set? coverage index sum

  unfoldable pub blur_mask : GlyphMask f → F → Option (GlyphMask f)
  unfolding gaussian_kernel horizontal_pixel vertical_pixel pixels as_i32
  blur_mask m sigma = if le sigma (lit 0 1) || m.width == 0 || m.height == 0 then some m else do
    let kernel = gaussian_kernel sigma
    let pad = as_u32 kernel.0
    double ← checked_u32 (2 * pad)
    width ← checked_u32 (m.width + double)
    height ← checked_u32 (m.height + double)
    first ← checked_u32 (width * m.height)
    horizontal ←
        pixels (pos_part (as_i32 width)) (pos_part (as_i32 m.height))
          (horizontal_pixel m pad width kernel) (replicate first (lit 0 1))
    area ← checked_u32 (width * height)
    coverage ←
        pixels width (pos_part (as_i32 height)) (vertical_pixel m pad width kernel horizontal)
          (replicate area (lit 0 1))
    some (record {
      width = width;
      height = height;
      left = sub_i32 m.left (as_i32 pad);
      top = sub_i32 m.top (as_i32 pad);
      coverage = coverage;
    })

-- Writing a pixel of a buffer whose indices fit.
write-some :
    {A : Type 0} (b : List A) (x y width height : ℕ) (value : A)
    → x < width
    → y < height
    → width * height < 2 ^ 32
    → length b ≡ width * height
    → (c : List A) × ((checked_u32 (y * width + x) >>= λ index. set? b index value) ≡ some c)
      × (length c ≡ width * height)
write-some b x y width height value hx hy small size =
    let below = index-lt x y width height hx hy in
    let fits : ltb (y * width + x) (2 ^ 32) ≡ true = ground (arith, small, below) in
    let (c, wrote, same) = set?-some b (y * width + x) value (omega (arith, size, below)) in
    (c, rw fits wrote, same ∙ size)

module _ (f : Floats) where
  open f use {F}

  taps-some :
      (tap : ℕ → F → F → Option F)
      → ((i : ℕ) (w sum : F) → (next : F) × (tap i w sum ≡ some next))
      → (i : ℕ) (ws : List F) (sum : F) → (total : F) × (taps f tap i ws sum ≡ some total)
  unfolding taps
  taps-some tap steps i [] sum = (sum, refl)
  taps-some tap steps i (w ∷ ws) sum =
      let (next, e) = steps i w sum in
      let (total, rest) = taps-some tap steps (suc i) ws next in (total, rw e rest)

module _ {f : Floats} where
  open f use {F, lit, add, mul, le}

  horizontal_pixel-keeps :
      (m : GlyphMask f) (pad width : ℕ) (kernel : ℤ × List F) (x y : ℕ) (b : List F)
      → IsWellFormed m
      → x < width
      → y < m.height
      → width * m.height < 2 ^ 32
      → length b ≡ width * m.height
      → (c : List F) × (horizontal_pixel f m pad width kernel x y b ≡ some c)
        × (length c ≡ width * m.height)
  unfolding horizontal_pixel horizontal_tap
  horizontal_pixel-keeps m pad width kernel x y b h hx hy small size =
      let (sum, summed) =
        taps-some f (horizontal_tap f m pad kernel.0 x y)
          (λ index weight sum.
            let (value, read) =
              mask_at-some m (add_i32 (sub_i32 (as_i32 x) (as_i32 pad)) (shifted f kernel.0 index))
                (as_i32 y) h in
            (add sum (mul weight value), rw read refl))
          0 kernel.1 (lit 0 1) in
      let (c, wrote, same) = write-some b x y width m.height sum hx hy small size in
      (c, rw summed wrote, same)

  vertical_tap-some :
      (m : GlyphMask f) (pad width : ℕ) (radius : ℤ) (horizontal : List F) (x y index : ℕ)
      (weight sum : F)
      → m.height < 2 ^ 31
      → x < width
      → width * m.height < 2 ^ 32
      → length horizontal ≡ width * m.height
      → (next : F) × (vertical_tap f m pad width radius horizontal x y index weight sum ≡ some next)
  unfolding vertical_tap
  vertical_tap-some m pad width radius horizontal x y index weight sum high hx small size =
      let source = sub_i32 (add_i32 (sub_i32 (as_i32 y) (as_i32 pad)) (as_i32 index)) radius in
      elim (Bool-cases (leb_ℤ (pos 0) source && ltb_ℤ source (as_i32 m.height))) [
        | inr out ↦ (sum, rw out refl)
        | inl within ↦
            let hy : as_u32 source < m.height = ground (arith, as_i32-id m.height high, within) in
            let below = index-lt x (as_u32 source) width m.height hx hy in
            let fits : ltb (as_u32 source * width + x) (2 ^ 32) ≡ true =
              ground (arith, small, below) in
            let (value, read) =
              get_elem?-some horizontal (as_u32 source * width + x) (omega (arith, size, below)) in
            (add sum (mul weight value), rw (within, fits, read) refl)
      ]

  vertical_pixel-keeps :
      (m : GlyphMask f) (pad width height : ℕ) (kernel : ℤ × List F) (horizontal : List F) (x y : ℕ)
      (b : List F)
      → m.height < 2 ^ 31
      → width * m.height < 2 ^ 32
      → length horizontal ≡ width * m.height
      → x < width
      → y < height
      → width * height < 2 ^ 32
      → length b ≡ width * height
      → (c : List F) × (vertical_pixel f m pad width kernel horizontal x y b ≡ some c)
        × (length c ≡ width * height)
  unfolding vertical_pixel
  vertical_pixel-keeps m pad width height kernel horizontal x y b high first filled hx hy small
        size =
      let (sum, summed) =
        taps-some f (vertical_tap f m pad width kernel.0 horizontal x y)
          (λ index weight sum.
            vertical_tap-some m pad width kernel.0 horizontal x y index weight sum high hx first
              filled)
          0 kernel.1 (lit 0 1) in
      let (c, wrote, same) = write-some b x y width height sum hx hy small size in
      (c, rw summed wrote, same)

  -- A well-formed mask that is blurred: where the sides of the larger buffer are below 2 ^ 31 and its
  -- area below 2 ^ 32, no index leaves any of the buffers, and the result is well formed and has
  -- grown as much in width as in height.
  pub blur_mask-IsWellFormed :
      (m : GlyphMask f) (sigma : F)
      → IsWellFormed m
      → let double = 2 * as_u32 (radius_of f sigma) in
        (m.width + double < 2 ^ 31)
        → m.height + double < 2 ^ 31
        → (m.width + double) * (m.height + double) < 2 ^ 32
        → (n : GlyphMask f) × (blur_mask f m sigma ≡ some n)
          × IsWellFormed n
          × (m.width ≤ n.width)
          × (n.width + m.height ≡ m.width + n.height)
  unfolding blur_mask gaussian_kernel
  blur_mask-IsWellFormed m sigma h wide high small =
      elim (Bool-cases (le sigma (lit 0 1) || m.width == 0 || m.height == 0)) [
        | inl sharp ↦ (m, rw sharp refl, h, omega arith, refl)
        | inr soft ↦
            let kernel = gaussian_kernel f sigma in
            let pad = as_u32 (radius_of f sigma) in
            let double = 2 * pad in
            let width = m.width + double in
            let height = m.height + double in
            let first : width * m.height < 2 ^ 32 = grind arith in
            let fits_double : ltb double (2 ^ 32) ≡ true = ground arith in
            let fits_width : ltb width (2 ^ 32) ≡ true = ground arith in
            let fits_height : ltb height (2 ^ 32) ≡ true = ground arith in
            let fits_first : ltb (width * m.height) (2 ^ 32) ≡ true = ground (arith, first) in
            let fits_area : ltb (width * height) (2 ^ 32) ≡ true = ground arith in
            let (b, passed, filled) =
              buffer_loop width m.height (width * m.height) (horizontal_pixel f m pad width kernel)
                (λ x y b hx hy size.
                  horizontal_pixel-keeps m pad width kernel x y b h hx hy first size)
                (replicate (width * m.height) (lit 0 1))
                (length-replicate (width * m.height) (lit 0 1)) in
            let (c, done, size) =
              buffer_loop width height (width * height) (vertical_pixel f m pad width kernel b)
                (λ x y c hx hy size.
                  vertical_pixel-keeps m pad width height kernel b x y c h.high first filled hx hy
                    small size)
                (replicate (width * height) (lit 0 1))
                (length-replicate (width * height) (lit 0 1)) in
            (
              record {
                width = width;
                height = height;
                left = sub_i32 m.left (as_i32 pad);
                top = sub_i32 m.top (as_i32 pad);
                coverage = c;
              },
              rw
                  (
                    soft,
                    fits_double,
                    fits_width,
                    fits_height,
                    fits_first,
                    as_i32-id width wide,
                    as_i32-id m.height h.high,
                    as_i32-id height high,
                    passed,
                    fits_area,
                    done,
                  )
                  refl,
              record { sized = size; small = small; wide = wide; high = high },
              omega arith,
              omega arith,
            )
      ]
