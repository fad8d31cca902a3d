-- ===== src/Captcha/Mask/Bounds.antt =====
-- src/services/captcha/drawing.rs: no operation on a mask reads or writes out of bounds.
use captchapi.Prelude.{
  ℕ, zero, suc, ◌+◌, ◌*◌, ◌^◌, ◌≤◌, ◌<◌, ◌≡◌, refl, inl, inr, ◌∙◌, ℤ, pos, true, false, negsuc,
  ◌||◌, Option, some, List, arith, ltb, ◌==◌, length, replicate, wrap_i32, add_i32, sub_i32,
  Bool-cases,
}
use captchapi.Captcha.Floats.{Floats}
use captchapi.Captcha.Loop.{pixels, get_elem?-some, set?-some, pixels-keeps, index-lt}
use captchapi.Captcha.Mask.{
  is_outside, as_usize, ramp_at, GlyphMask, LinearRamp, as_i32, across, mask_at, sample_row,
  rows_from, offsets_of, pad_left_of, pad_right_of, displacement_bounds, displace_pixel,
  displace_rows, fade_pixel, fade_mask,
}

pub as_i32-id : (n : ℕ) → n < 2 ^ 31 → as_i32 n ≡ pos n
unfolding as_i32 wrap_i32
as_i32-id n h = ground arith

pub length-replicate : {A : Type 0} (n : ℕ) (a : A) → length (replicate n a) ≡ n
length-replicate zero a = refl
length-replicate (suc n) a = omega (arith, length-replicate n a)

pub length-rows_from : (f : Floats) (y n : ℕ) (g : f.F → f.F) → length (rows_from f y n g) ≡ n
unfolding rows_from
length-rows_from f y zero g = refl
length-rows_from f y (suc n) g = omega (arith, length-rows_from f (suc y) n g)

-- A loop over the pixels of a buffer that keeps its length.
pub buffer_loop :
    {A : Type 0} (width height size : ℕ) (body : ℕ → ℕ → List A → Option (List A))
    → ((x y : ℕ) (b : List A)
        → x < width
        → y < height
        → length b ≡ size
        → (c : List A) × (body x y b ≡ some c) × (length c ≡ size))
    → (b : List A) → length b ≡ size
    → (c : List A) × (pixels width height body b ≡ some c) × (length c ≡ size)
buffer_loop width height size body keeps =
    pixels-keeps (λ b. length b ≡ size) body width height keeps

module _ {f : Floats} where
  open f use {F, lit, lt, le}

  -- A mask with a coverage for every pixel, and of a size that its numbers can hold.
  pub record IsWellFormed (m : GlyphMask f) : Type 0 where
    pub sized : length m.coverage ≡ m.width * m.height
    pub small : m.width * m.height < 2 ^ 32
    pub wide : m.width < 2 ^ 31
    pub high : m.height < 2 ^ 31

  -- Inside, neither coordinate is negative.
  inside_mask :
      (m : GlyphMask f) (x y : ℤ)
      → IsWellFormed m
      → is_outside f m x y ≡ false
      → (as_usize x < m.width) × (as_usize y < m.height)
  inside_mask m (pos x) (pos y) h within =
      (ground (arith, as_i32-id m.width h.wide), ground (arith, as_i32-id m.height h.high))
  inside_mask m (pos x) (negsuc y) h within = absurd (ground arith)
  inside_mask m (negsuc x) y h within = absurd (ground arith)

  pub mask_at-some :
      (m : GlyphMask f) (x y : ℤ) → IsWellFormed m → (v : F) × (mask_at f m x y ≡ some v)
  unfolding mask_at
  mask_at-some m x y h = elim (Bool-cases (is_outside f m x y)) [
    | inl out ↦ (lit 0 1, rw out refl)
    | inr within ↦
        let (hx, hy) = inside_mask m x y h within in
        let index = as_usize y * m.width + as_usize x in
        let below = index-lt (as_usize x) (as_usize y) m.width m.height hx hy in
        let fits : ltb index (2 ^ 64) ≡ true = ground (arith, h.small, below) in
        let (v, found) = get_elem?-some m.coverage index (omega (arith, h.sized, below)) in
        (v, rw (within, fits) found)
  ]

  sample_row-some :
      (m : GlyphMask f) (x : F) (y : ℤ) → IsWellFormed m → (v : F) × (sample_row f m x y ≡ some v)
  unfolding sample_row
  sample_row-some m x y h =
      let x0 = f.to_i32 (f.floor x) in
      let (a, at_left) = mask_at-some m x0 y h in
      let (b, at_right) = mask_at-some m (add_i32 x0 (pos 1)) y h in
      let frac = f.sub x (f.floor x) in
      (f.add (f.mul a (f.sub (lit 10 1) frac)) (f.mul b frac), rw (at_left, at_right) refl)

  displace_pixel-keeps :
      (m : GlyphMask f) (width pad_left : ℕ) (offsets : List F) (x y : ℕ) (b : List F)
      → IsWellFormed m
      → length offsets ≡ m.height
      → x < width
      → y < m.height
      → length b ≡ width * m.height
      → width * m.height < 2 ^ 32
      → (c : List F) × (displace_pixel f m width pad_left offsets x y b ≡ some c)
        × (length c ≡ width * m.height)
  unfolding displace_pixel
  displace_pixel-keeps m width pad_left offsets x y b h rows hx hy size small =
      let fits : ltb (y * width + x) (2 ^ 32) ≡ true =
        ground (arith, index-lt x y width m.height hx hy) in
      let (shift, found) = get_elem?-some offsets y (omega (arith, rows)) in
      let (value, sampled) =
        sample_row-some m (f.sub (f.sub (f.of_ℕ x) (f.of_ℕ pad_left)) shift) (as_i32 y) h in
      let (c, wrote, same) =
        set?-some b (y * width + x) value
          (omega (arith, size, index-lt x y width m.height hx hy)) in
      elim (Bool-cases (lt (lit 0 1) value)) [
        | inl inked ↦ (c, rw (found, sampled, inked, fits) wrote, same ∙ size)
        | inr blank ↦ (b, rw (found, sampled, blank) refl, size)
      ]

  fade_pixel-keeps :
      (m : GlyphMask f) (from to : F) (ramp : LinearRamp f) (x y : ℕ) (b : List F)
      → IsWellFormed m
      → x < m.width
      → y < m.height
      → length b ≡ m.width * m.height
      → (c : List F) × (fade_pixel f m from to ramp x y b ≡ some c)
        × (length c ≡ m.width * m.height)
  unfolding fade_pixel
  fade_pixel-keeps m from to ramp x y b h hx hy size =
      let below = index-lt x y m.width m.height hx hy in
      let fits : ltb (y * m.width + x) (2 ^ 32) ≡ true = ground (arith, h.small, below) in
      let (value, found) = get_elem?-some b (y * m.width + x) (omega (arith, size, below)) in
      let (c, wrote, same) =
        set?-some b (y * m.width + x)
          (f.mul value (f.add from (f.mul (f.sub to from) (ramp_at f ramp x y))))
          (omega (arith, size, below)) in
      elim (Bool-cases (le value (lit 0 1))) [
        | inl blank ↦ (b, rw (fits, found, blank) refl, size)
        | inr inked ↦ (c, rw (fits, found, inked) wrote, same ∙ size)
      ]

  -- A faded mask has the size and the place of the one that was given, and is well formed: no index
  -- leaves the buffer.
  pub fade_mask-IsWellFormed :
      (m : GlyphMask f) (from to angle : F)
      → IsWellFormed m
      → (n : GlyphMask f) × (fade_mask f m from to angle ≡ some n)
        × IsWellFormed n
        × (n.width ≡ m.width)
        × (n.height ≡ m.height)
        × (n.left ≡ m.left)
        × (n.top ≡ m.top)
  unfolding fade_mask
  fade_mask-IsWellFormed m from to angle h =
      let (c, done, size) =
        buffer_loop m.width m.height (m.width * m.height)
          (fade_pixel f m from to (across f m.width m.height angle))
          (λ x y b hx hy. fade_pixel-keeps m from to _ x y b h hx hy) m.coverage h.sized in
      (
        record m { coverage = c },
        rw done refl,
        record { sized = size; small = h.small; wide = h.wide; high = h.high },
        refl,
        refl,
        refl,
        refl,
      )

  -- A mask whose rows are displaced: where the wider buffer still has a size that fits, no index
  -- leaves either buffer, and the result is well formed, as high as the mask and at the same top.
  pub displace_rows-IsWellFormed :
      (m : GlyphMask f) (displacement : F → F)
      → IsWellFormed m
      → let width = m.width + pad_left_of f m displacement + pad_right_of f m displacement in
        (width < 2 ^ 31)
        → width * m.height < 2 ^ 32
        → (n : GlyphMask f) × (displace_rows f m displacement ≡ some n)
          × IsWellFormed n
          × (n.height ≡ m.height)
          × (n.top ≡ m.top)
          × (m.width ≤ n.width)
  unfolding displace_rows displacement_bounds
  displace_rows-IsWellFormed m displacement h wide small =
      elim (Bool-cases (m.height == 0 || m.width == 0)) [
        | inl empty ↦ (m, rw empty refl, h, refl, refl, omega arith)
        | inr inked ↦
            let left = pad_left_of f m displacement in
            let right = pad_right_of f m displacement in
            let width = m.width + left + right in
            let fits_left : ltb left (2 ^ 32) ≡ true = ground arith in
            let fits_right : ltb right (2 ^ 32) ≡ true = ground arith in
            let fits_width : ltb width (2 ^ 32) ≡ true = ground arith in
            let fits_area : ltb (width * m.height) (2 ^ 32) ≡ true = ground arith in
            let (c, done, size) =
              buffer_loop width m.height (width * m.height)
                (displace_pixel f m width left (offsets_of f m displacement))
                (λ x y b hx hy size.
                  displace_pixel-keeps m width left (offsets_of f m displacement) x y b h
                    (length-rows_from f 0 m.height displacement) hx hy size small)
                (replicate (width * m.height) (lit 0 1))
                (length-replicate (width * m.height) (lit 0 1)) in
            (
              record {
                width = width;
                height = m.height;
                left = sub_i32 m.left (as_i32 left);
                top = m.top;
                coverage = c;
              },
              rw (inked, fits_left, fits_right, fits_width, fits_area, done) refl,
              record { sized = size; small = small; wide = wide; high = h.high },
              refl,
              refl,
              omega arith,
            )
      ]
