-- ===== src/Captcha/Mask/Rotate.antt =====
-- src/services/captcha/drawing.rs: displacing the rows of a mask and turning it, in one resample.
use captchapi.Prelude.{
  ℕ, ◌+◌, ◌-◌, ◌*◌, ◌^◌, ◌≤◌, ◌<◌, ◌≡◌, refl, ◌∙◌, ℤ, pos, max_ℤ, true, ◌||◌, Option, some, List,
  [], ◌∷◌, arith, ltb, ◌==◌, length, replicate, add_i32, sub_i32, Bool-cases, inl, inr,
  if◌then◌else◌,
}
use captchapi.Captcha.Floats.{Floats, Rng, FloatLaws}
use captchapi.Captcha.Loop.{◌>>=◌, set?, pixels, get_elem?-some, set?-some, index-lt}
use captchapi.Captcha.Mask.{
  GlyphMask, as_i32, checked_u32, displacement_bounds, displace_rows, offsets_of, pad_left_of,
  pad_right_of, as_u32,
}
use captchapi.Captcha.Mask.Bounds.{
  IsWellFormed, mask_at-some, buffer_loop, length-replicate, length-rows_from,
  displace_rows-IsWellFormed,
}
use captchapi.Captcha.Mask.Outline.{sample, interpolate_offset}

module _ (f : Floats) where
  open f use {
    F, lit, of_ℕ, of_ℤ, add, sub, mul, div, neg, sin, cos, abs, floor, ceil, to_i32, lt, eq,
  }

  -- The box of the displaced mask, the angle, and the box of the turned one.
  pub record Turn : Type 0 where
    pub displaced_width : F
    pub displaced_height : F
    pub centre_x : F
    pub centre_y : F
    pub sin_angle : F
    pub cos_angle : F
    pub left : ℤ
    pub top : ℤ
    pub width : ℕ
    pub height : ℕ

  -- `(end.ceil() as i32 + 1 - start).max(1) as u32`
  abbrev pub extent : F → ℤ → ℕ
  extent end start = as_u32 (max_ℤ (sub_i32 (add_i32 (to_i32 (ceil end)) (pos 1)) start) (pos 1))

  unfoldable pub turn_of : GlyphMask f → ℕ → ℕ → F → Turn
  turn_of m displaced pad_left angle =
      let displaced_width = of_ℕ displaced in
      let displaced_height = of_ℕ m.height in
      let displaced_left = of_ℤ (sub_i32 m.left (as_i32 pad_left)) in
      let centre_x = add displaced_left (div displaced_width (lit 20 1)) in
      let centre_y = add (of_ℤ m.top) (div displaced_height (lit 20 1)) in
      let s = sin angle in
      let c = cos angle in
      let half_width =
        div (add (mul (abs c) displaced_width) (mul (abs s) displaced_height)) (lit 20 1) in
      let half_height =
        div (add (mul (abs s) displaced_width) (mul (abs c) displaced_height)) (lit 20 1) in
      let left = sub_i32 (to_i32 (floor (sub centre_x half_width))) (pos 1) in
      let top = sub_i32 (to_i32 (floor (sub centre_y half_height))) (pos 1) in
      record {
        displaced_width = displaced_width;
        displaced_height = displaced_height;
        centre_x = centre_x;
        centre_y = centre_y;
        sin_angle = s;
        cos_angle = c;
        left = left;
        top = top;
        width = extent (add centre_x half_width) left;
        height = extent (add centre_y half_height) top;
      }

  -- Where in the mask a pixel comes from, before its row's displacement is undone: (px, row).
  unfoldable pub turned_back : Turn → ℕ → ℕ → F × F
  turned_back t x y =
      let dx = sub (add (of_ℤ (add_i32 t.left (as_i32 x))) (lit 5 1)) t.centre_x in
      let dy = sub (add (of_ℤ (add_i32 t.top (as_i32 y))) (lit 5 1)) t.centre_y in
      let px =
        add (add (mul dx t.cos_angle) (mul dy t.sin_angle)) (div t.displaced_width (lit 20 1)) in
      let py =
        add (add (mul (neg dx) t.sin_angle) (mul dy t.cos_angle))
          (div t.displaced_height (lit 20 1)) in
      (px, sub py (lit 5 1))

  -- One pixel of `displace_and_rotate`.
  unfoldable pub rotate_pixel : GlyphMask f → Turn → ℕ → List F → ℕ → ℕ → List F → Option (List F)
  unfolding turned_back interpolate_offset sample
  rotate_pixel m t pad_left offsets x y coverage = do
    let at = turned_back t x y
    shift ← interpolate_offset f offsets at.1
    value ← sample f m (sub (sub (sub at.0 (lit 5 1)) (of_ℕ pad_left)) shift) at.1
    if lt (lit 0 1) value
        then (do index ← checked_u32 (y * t.width + x); set? coverage index value)
        else some coverage

  unfoldable pub displace_and_rotate : GlyphMask f → (F → F) → F → Option (GlyphMask f)
  unfolding displacement_bounds turn_of rotate_pixel pixels
  displace_and_rotate m displacement angle =
      if m.height == 0 || m.width == 0
      then some m
      else if eq angle (lit 0 1)
      then displace_rows f m displacement
      else (do
        bounds ← displacement_bounds f m displacement
        displaced ← checked_u32 (m.width + bounds.1 + bounds.2)
        let t = turn_of m displaced bounds.1 angle
        area ← checked_u32 (t.width * t.height)
        coverage ←
            pixels t.width t.height (rotate_pixel m t bounds.1 bounds.0) (replicate area (lit 0 1))
        some (record {
          width = t.width;
          height = t.height;
          left = t.left;
          top = t.top;
          coverage = coverage;
        }))

sample-some :
    {f : Floats} (m : GlyphMask f) (x y : f.F)
    → IsWellFormed m
    → (v : f.F) × (sample f m x y ≡ some v)
unfolding sample
sample-some {f} m x y h =
    let x0 = f.to_i32 (f.floor x) in
    let y0 = f.to_i32 (f.floor y) in
    let (a, at_a) = mask_at-some m x0 y0 h in
    let (b, at_b) = mask_at-some m (add_i32 x0 (pos 1)) y0 h in
    let (c, at_c) = mask_at-some m x0 (add_i32 y0 (pos 1)) h in
    let (d, at_d) = mask_at-some m (add_i32 x0 (pos 1)) (add_i32 y0 (pos 1)) h in
    let fx = f.sub x (f.floor x) in
    let fy = f.sub y (f.floor y) in
    let top = f.add (f.mul a (f.sub (f.lit 10 1) fx)) (f.mul b fx) in
    let bottom = f.add (f.mul c (f.sub (f.lit 10 1) fx)) (f.mul d fx) in
    (f.add (f.mul top (f.sub (f.lit 10 1) fy)) (f.mul bottom fy), rw (at_a, at_b, at_c, at_d) refl)

module _ {f : Floats} {r : Rng f} (laws : FloatLaws f r) where
  open f use {F, lit, of_ℕ, lt, le, eq}

  -- Between two rows, or at an end: always a row that there is.
  interpolate_offset-some :
      (offsets : List F) (row : F)
      → length offsets < 2 ^ 24
      → (v : F) × (interpolate_offset f offsets row ≡ some v)
  unfolding interpolate_offset
  interpolate_offset-some [] row h = (lit 0 1, refl)
  interpolate_offset-some (o ∷ rest) row h =
      let offsets = o ∷ rest in
      let last = length offsets - 1 in
      let index = f.to_usize (f.floor row) in
      let next = if ltb (index + 1) last then index + 1 else last in
      elim (Bool-cases (le row (lit 0 1))) [
        | inl before ↦ (o, rw before refl)
        | inr inner ↦ elim (Bool-cases (le (of_ℕ last) row)) [
          | inl after ↦
              let (v, found) = get_elem?-some offsets last (omega arith) in
              (v, rw (inner, after) found)
          | inr between ↦
              let near : index ≤ last = laws.to_usize_floor_le last row (omega arith) between in
              let (a, at_a) = get_elem?-some offsets index (omega (arith, near)) in
              let (b, at_b) = get_elem?-some offsets next (ground (arith, near)) in
              let frac = f.sub row (f.floor row) in
              (
                f.add (f.mul a (f.sub (lit 10 1) frac)) (f.mul b frac),
                rw (inner, between, at_a, at_b) refl,
              )
        ]
      ]

  rotate_pixel-keeps :
      (m : GlyphMask f) (t : Turn f) (pad_left : ℕ) (offsets : List F) (x y : ℕ) (b : List F)
      → IsWellFormed m
      → length offsets < 2 ^ 24
      → t.width * t.height < 2 ^ 32
      → x < t.width
      → y < t.height
      → length b ≡ t.width * t.height
      → (c : List F) × (rotate_pixel f m t pad_left offsets x y b ≡ some c)
        × (length c ≡ t.width * t.height)
  unfolding rotate_pixel
  rotate_pixel-keeps m t pad_left offsets x y b h few small hx hy size =
      let below = index-lt x y t.width t.height hx hy in
      let fits : ltb (y * t.width + x) (2 ^ 32) ≡ true = ground (arith, below) in
      let at = turned_back f t x y in
      let (shift, moved) = interpolate_offset-some offsets at.1 few in
      let (value, sampled) =
        sample-some m (f.sub (f.sub (f.sub at.0 (lit 5 1)) (of_ℕ pad_left)) shift) at.1 h in
      let (c, wrote, same) = set?-some b (y * t.width + x) value (omega (arith, size, below)) in
      elim (Bool-cases (lt (lit 0 1) value)) [
        | inl inked ↦ (c, rw (moved, sampled, inked, fits) wrote, same ∙ size)
        | inr blank ↦ (b, rw (moved, sampled, blank) refl, size)
      ]

  -- A well-formed mask lower than 2 ^ 24 that is displaced and turned, by whatever angle: where the
  -- numbers of the displaced box and of the turned one can hold their sizes, no index leaves a
  -- buffer, and the result is well formed.
  pub displace_and_rotate-IsWellFormed :
      (m : GlyphMask f) (displacement : F → F) (angle : F)
      → IsWellFormed m
      → m.height < 2 ^ 24
      → let left = pad_left_of f m displacement in
        let displaced = m.width + left + pad_right_of f m displacement in
        let t = turn_of f m displaced left angle in
        (displaced < 2 ^ 31)
        → displaced * m.height < 2 ^ 32
        → t.width < 2 ^ 31
        → t.height < 2 ^ 31
        → t.width * t.height < 2 ^ 32
        → (n : GlyphMask f) × (displace_and_rotate f m displacement angle ≡ some n) × IsWellFormed n
  unfolding displace_and_rotate displacement_bounds
  displace_and_rotate-IsWellFormed m displacement angle h low wide small wide' high' small' =
      let left = pad_left_of f m displacement in
      let right = pad_right_of f m displacement in
      let displaced = m.width + left + right in
      let t = turn_of f m displaced left angle in
      elim (Bool-cases (m.height == 0 || m.width == 0)) [
        | inl empty ↦ (m, rw empty refl, h)
        | inr inked ↦ elim (Bool-cases (eq angle (lit 0 1))) [
          | inl straight ↦
              let (n, done, good, _, _, _) =
                displace_rows-IsWellFormed m displacement h wide small in
              (n, rw (inked, straight) done, good)
          | inr turned ↦
              let fits_left : ltb left (2 ^ 32) ≡ true = ground arith in
              let fits_right : ltb right (2 ^ 32) ≡ true = ground arith in
              let fits_width : ltb displaced (2 ^ 32) ≡ true = ground arith in
              let fits_area : ltb (t.width * t.height) (2 ^ 32) ≡ true = ground arith in
              let (c, done, size) =
                buffer_loop t.width t.height (t.width * t.height)
                  (rotate_pixel f m t left (offsets_of f m displacement))
                  (λ x y b hx hy size.
                    rotate_pixel-keeps m t left (offsets_of f m displacement) x y b h
                      (omega (arith, length-rows_from f 0 m.height displacement)) small' hx hy size)
                  (replicate (t.width * t.height) (lit 0 1))
                  (length-replicate (t.width * t.height) (lit 0 1)) in
              (
                record {
                  width = t.width;
                  height = t.height;
                  left = t.left;
                  top = t.top;
                  coverage = c;
                },
                rw (inked, turned, fits_left, fits_right, fits_width, fits_area, done) refl,
                record { sized = size; small = small'; wide = wide'; high = high' },
              )
        ]
      ]
