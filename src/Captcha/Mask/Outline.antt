-- ===== src/Captcha/Mask/Outline.antt =====
-- src/services/captcha/drawing.rs: hollowing a mask out, and sampling it between its pixels.
use captchapi.Prelude.{
  ℕ, suc, ◌+◌, ◌-◌, ◌*◌, ◌^◌, ◌<◌, ◌≡◌, refl, ◌∙◌, ℤ, pos, negsuc, Bool, true, false, ◌||◌, Option,
  some, List, [], ◌∷◌, arith, ltb, ◌==◌, length, replicate, get_elem?, wrap_i32, add_i32, sub_i32,
  Bool-cases, inl, inr, if◌then◌else◌,
}
use captchapi.Captcha.Floats.{Floats}
use captchapi.Captcha.Loop.{◌>>=◌, set?, each, pixels, set?-some, each-keeps, index-lt}
use captchapi.Captcha.Mask.{checked_u32, GlyphMask, mask_at, as_i32}
use captchapi.Captcha.Mask.Bounds.{IsWellFormed, mask_at-some, buffer_loop, length-replicate}

-- The absolute value of an `i32`.
abbrev pub magnitude : ℤ → ℕ
magnitude (pos n) = n
magnitude (negsuc n) = suc n

module _ (f : Floats) where
  open f use {F, lit, of_ℕ, of_ℤ, add, sub, mul, min, floor, to_i32, to_usize, lt, le}

  -- `GlyphMask::sample`
  unfoldable pub sample : GlyphMask f → F → F → Option F
  unfolding mask_at
  sample m x y = do
    let x0 = to_i32 (floor x)
    let y0 = to_i32 (floor y)
    let fx = sub x (floor x)
    let fy = sub y (floor y)
    a ← mask_at f m x0 y0
    b ← mask_at f m (add_i32 x0 (pos 1)) y0
    c ← mask_at f m x0 (add_i32 y0 (pos 1))
    d ← mask_at f m (add_i32 x0 (pos 1)) (add_i32 y0 (pos 1))
    let top = add (mul a (sub (lit 10 1) fx)) (mul b fx)
    let bottom = add (mul c (sub (lit 10 1) fx)) (mul d fx)
    some (add (mul top (sub (lit 10 1) fy)) (mul bottom fy))

  -- `interpolate_offset`: between two rows, and flat outside.
  unfoldable pub interpolate_offset : List F → F → Option F
  interpolate_offset [] row = some (lit 0 1)
  interpolate_offset (o ∷ rest) row =
      let offsets = o ∷ rest in
      let last = length offsets - 1 in
      if le row (lit 0 1)
      then get_elem? offsets 0
      else if le (of_ℕ last) row
      then get_elem? offsets last
      else (do
        let frac = sub row (floor row)
        let index = to_usize (floor row)
        a ← get_elem? offsets index
        b ← get_elem? offsets (if ltb (index + 1) last then index + 1 else last)
        some (add (mul a (sub (lit 10 1) frac)) (mul b frac)))

  -- The numbers of a stroke: how the two discs are mixed, their squared radii, and their reach.
  pub record Stroke : Type 0 where
    pub blend : F
    pub inner_squared : F
    pub outer_squared : F
    pub reach : ℤ

  unfoldable pub stroke_of : GlyphMask f → F → Stroke
  stroke_of m stroke =
      let capped = min stroke (of_ℕ (if ltb m.width m.height then m.height else m.width)) in
      let inner = floor capped in
      record {
        blend = sub capped inner;
        inner_squared = mul inner inner;
        outer_squared = mul (add inner (lit 10 1)) (add inner (lit 10 1));
        reach = add_i32 (to_i32 inner) (pos 1);
      }

  -- The minima over the discs so far, and whether the search has been left.
  pub record Disc : Type 0 where
    pub min_inner : F
    pub min_outer : F
    pub stopped : Bool

  -- A number of the range `-reach..=reach`.
  abbrev pub shifted : ℤ → ℕ → ℤ
  shifted reach i = sub_i32 (as_i32 i) reach

  -- The squared distance of a pixel of the disc from its middle.
  abbrev pub distance_of : ℤ → ℤ → F
  distance_of dx dy =
      of_ℤ (wrap_i32 (pos (magnitude dx * magnitude dx + magnitude dy * magnitude dy)))

  -- A pixel of the outer disc, with what is `there`.
  unfoldable pub visit : Stroke → F → F → Disc → Disc
  visit s distance there disc =
      let min_outer = min disc.min_outer there in
      let min_inner = min disc.min_inner there in
      if le distance s.inner_squared
      then (if le min_inner (lit 0 1)
          then record { min_inner = min_inner; min_outer = lit 0 1; stopped = true }
          else record { min_inner = min_inner; min_outer = min_outer; stopped = false })
      else record disc { min_outer = min_outer }

  unfoldable pub disc_step : GlyphMask f → Stroke → ℤ → ℤ → ℤ → ℕ → Disc → Option Disc
  unfolding mask_at visit
  disc_step m s x y dy i disc =
      let dx = shifted s.reach i in
      let distance = distance_of dx dy in
      if disc.stopped || lt s.outer_squared distance
      then some disc
      else do there ← mask_at f m (add_i32 x dx) (add_i32 y dy); some (visit s distance there disc)

  -- How many numbers the range `-reach..=reach` has; the least i32 is its own negative.
  abbrev pub diameter : ℤ → ℕ
  diameter (pos n) = 2 * n + 1
  diameter (negsuc n) = if suc n == 2 ^ 31 then 1 else 0

  unfoldable pub disc_row : GlyphMask f → Stroke → ℤ → ℤ → ℕ → Disc → Option Disc
  unfolding disc_step each
  disc_row m s x y j disc = each (diameter s.reach) 0 (disc_step m s x y (shifted s.reach j)) disc

  unfoldable pub disc_minima : GlyphMask f → Stroke → ℤ → ℤ → F → Option Disc
  unfolding disc_row each
  disc_minima m s x y here =
      each (diameter s.reach) 0 (disc_row m s x y)
        (record { min_inner = here; min_outer = here; stopped = false })

  -- One pixel of `outline`.
  unfoldable pub outline_pixel : GlyphMask f → Stroke → ℕ → ℕ → List F → Option (List F)
  unfolding mask_at disc_minima
  outline_pixel m s x y coverage = do
    here ← mask_at f m (as_i32 x) (as_i32 y)
    if le here (lit 0 1) then some coverage else do
      found ← disc_minima m s (as_i32 x) (as_i32 y) here
      let interior = add found.min_inner (mul (sub found.min_outer found.min_inner) s.blend)
      index ← checked_u32 (y * m.width + x)
      set? coverage index (sub here interior)

  unfoldable pub outline_mask : GlyphMask f → F → Option (GlyphMask f)
  unfolding stroke_of outline_pixel pixels
  outline_mask m stroke =
      if le stroke (lit 0 1) || m.width == 0 || m.height == 0 then some m else do
        coverage ←
            pixels m.width m.height (outline_pixel m (stroke_of m stroke))
              (replicate (length m.coverage) (lit 0 1))
        some (record m { coverage = coverage })

module _ {f : Floats} where
  open f use {F, lit, sub, mul, add, le, lt}

  disc_step-some :
      (m : GlyphMask f) (s : Stroke f) (x y dy : ℤ) (i : ℕ) (disc : Disc f)
      → IsWellFormed m
      → (next : Disc f) × (disc_step f m s x y dy i disc ≡ some next) × Unit {0}
  unfolding disc_step
  disc_step-some m s x y dy i disc h =
      let dx = shifted f s.reach i in
      let (there, read) = mask_at-some m (add_i32 x dx) (add_i32 y dy) h in
      elim (Bool-cases (disc.stopped || lt s.outer_squared (distance_of f dx dy))) [
        | inl passed ↦ (disc, rw passed refl, tt)
        | inr met ↦ (visit f s (distance_of f dx dy) there disc, rw (met, read) refl, tt)
      ]

  disc_minima-some :
      (m : GlyphMask f) (s : Stroke f) (x y : ℤ) (here : F)
      → IsWellFormed m
      → (found : Disc f) × (disc_minima f m s x y here ≡ some found) × Unit {0}
  unfolding disc_minima disc_row
  disc_minima-some m s x y here h =
      each-keeps (λ _. Unit {0}) (disc_row f m s x y) (diameter f s.reach) 0 _ refl
        (λ j disc _ _.
          each-keeps (λ _. Unit {0}) (disc_step f m s x y (shifted f s.reach j))
            (diameter f s.reach) 0 _ refl
            (λ i inner _ _. disc_step-some m s x y (shifted f s.reach j) i inner h) disc tt)
        _ tt

  outline_pixel-keeps :
      (m : GlyphMask f) (s : Stroke f) (x y : ℕ) (b : List F)
      → IsWellFormed m
      → x < m.width
      → y < m.height
      → length b ≡ m.width * m.height
      → (c : List F) × (outline_pixel f m s x y b ≡ some c) × (length c ≡ m.width * m.height)
  unfolding outline_pixel
  outline_pixel-keeps m s x y b h hx hy size =
      let below = index-lt x y m.width m.height hx hy in
      let fits : ltb (y * m.width + x) (2 ^ 32) ≡ true = ground (arith, h.small, below) in
      let (here, read) = mask_at-some m (as_i32 x) (as_i32 y) h in
      let (found, searched, _) = disc_minima-some m s (as_i32 x) (as_i32 y) here h in
      let value =
        sub here (add found.min_inner (mul (sub found.min_outer found.min_inner) s.blend)) in
      let (c, wrote, same) = set?-some b (y * m.width + x) value (omega (arith, size, below)) in
      elim (Bool-cases (le here (lit 0 1))) [
        | inl blank ↦ (b, rw (read, blank) refl, size)
        | inr inked ↦ (c, rw (read, inked, searched, fits) wrote, same ∙ size)
      ]

  -- A mask that is hollowed out has the size and the place of the one that was given, and is well
  -- formed: no index leaves the buffer, however far the stroke reaches.
  pub outline_mask-IsWellFormed :
      (m : GlyphMask f) (stroke : F)
      → IsWellFormed m
      → (n : GlyphMask f) × (outline_mask f m stroke ≡ some n)
        × IsWellFormed n
        × (n.width ≡ m.width)
        × (n.height ≡ m.height)
        × (n.left ≡ m.left)
        × (n.top ≡ m.top)
  unfolding outline_mask
  outline_mask-IsWellFormed m stroke h =
      let s = stroke_of f m stroke in
      let (c, done, size) =
        buffer_loop m.width m.height (m.width * m.height) (outline_pixel f m s)
          (λ x y b hx hy. outline_pixel-keeps m s x y b h hx hy)
          (replicate (length m.coverage) (lit 0 1))
          (length-replicate (length m.coverage) (lit 0 1) ∙ h.sized) in
      elim (Bool-cases (le stroke (lit 0 1) || m.width == 0 || m.height == 0)) [
        | inl solid ↦ (m, rw solid refl, h, refl, refl, refl, refl)
        | inr hollow ↦ (
          record m { coverage = c },
          rw (hollow, done) refl,
          record { sized = size; small = h.small; wide = h.wide; high = h.high },
          refl,
          refl,
          refl,
          refl,
        )
      ]
