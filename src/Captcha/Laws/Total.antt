-- ===== src/Captcha/Laws/Total.antt =====
-- src/services/captcha/generator.rs: rendering returns, for every text and every random draw, and
-- its picture has the size that was asked for.
use captchapi.Prelude.{
  ℕ, zero, suc, ◌+◌, ◌-◌, ◌*◌, ◌/◌, ◌%◌, ◌^◌, ◌≤◌, ◌<◌, ◌≡◌, ◌∙◌, inl, inr, ℤ, pos, String, Bool,
  Option, none, some, List, [], ◌∷◌, arith, length, ltb, leb, ◌==◌, Bool-cases,
}
use Prim.Native.Char.{Char}
use captchapi.Captcha.Floats.{Floats, Rng, FloatLaws}
use captchapi.Captcha.Draw.{
  Draw, Runs, checked_sub, checked_div, pure-Runs, lift-Runs, bind-Runs, when-Runs,
}
use captchapi.Captcha.Generator.{Deformations, Shading, clamp_ℕ, chars, get_rnd, Hsl, spread}
use captchapi.Captcha.Render.{
  Rgb, Drawing, background, paint, layout, scale_for, draw_wave, write_letter, write_letters,
  write_characters, get_next, get_color, draw_interference_line, repeat, draw_circle,
  draw_interference_ellipses, add_noise, render, with_mask,
}
use captchapi.Captcha.Laws.Runs.{
  Ends, clamp_ℕ_bounds, literals-Ends, angle-Ends, spread-Ends, get_hsl-Ends, IsUsable,
  draw_shading-Ends,
}

module _ {f double : Floats} (d : Drawing f double) where
  -- Two canvases of one size.
  abbrev pub SameSize : d.Image → d.Image → Type 0
  SameSize a b = (d.width a ≡ d.width b) × (d.height a ≡ d.height b)

  -- Drawing on a canvas keeps its size.
  pub record DrawingLaws : Type 0 where
    pub from_pixel_size :
        (w h : ℕ) (c : Rgb)
        → (d.width (d.from_pixel w h c) ≡ w) × (d.height (d.from_pixel w h c) ≡ h)
    pub composite_mask_size :
        (i : d.Image) (m : d.Mask) (x y : ℤ) (c : Rgb) → SameSize (d.composite_mask i m x y c) i
    pub composite_mask_gradient_size :
        (i : d.Image) (m : d.Mask) (x y : ℤ) (near far : Hsl f) (angle : f.F)
        → SameSize (d.composite_mask_gradient i m x y near far angle) i
    pub blur_over_mask_size :
        (i : d.Image) (m : d.Mask) (x y : ℤ) (sigma : f.F)
        → SameSize (d.blur_over_mask i m x y sigma) i
    pub draw_cubic_bezier_curve_size :
        (i : d.Image) (start end control_a control_b : f.F × f.F) (c : Rgb)
        → SameSize (d.draw_cubic_bezier_curve i start end control_a control_b c) i
    pub draw_hollow_circle_size :
        (i : d.Image) (center : ℤ × ℤ) (radius : ℤ) (c : Rgb)
        → SameSize (d.draw_hollow_circle i center radius c) i
    pub gaussian_noise_size :
        (i : d.Image) (mean deviation : double.F) (seed : ℕ)
        → SameSize (d.gaussian_noise i mean deviation seed) i
    pub salt_and_pepper_noise_size :
        (i : d.Image) (rate : double.F) (seed : ℕ)
        → SameSize (d.salt_and_pepper_noise i rate seed) i

module _ {f double : Floats} {r : Rng f} {d : Drawing f double} (laws : FloatLaws f r)
    (sizes : DrawingLaws d) where
  open f use {F, lit, lt, le, mul, of_ℕ}
  open d use {Image, Mask}
  open laws use {Within, within_lit, within_mul, within_of_ℕ, lt_of_not_le, to_usize_le}

  abbrev IsSized : ℕ → ℕ → Image → Type 0
  IsSized w h image = (d.width image ≡ w) × (d.height image ≡ h)

  resized : (w h : ℕ) (a b : Image) → IsSized w h a → SameSize d b a → IsSized w h b
  resized w h a b sized same = (same.0 ∙ sized.0, same.1 ∙ sized.1)

  colour-IsSized :
      (w h : ℕ) (s : Shading f) (image : Image) (mask : Mask) (x y : ℤ)
      (gradient : Option (Hsl f × F))
      → IsSized w h image
      → IsSized w h (elim gradient [
        | none ↦ d.composite_mask image mask x y (d.to_rgb s.near)
        | some (far, angle) ↦ d.composite_mask_gradient image mask x y s.near far angle
      ])
  colour-IsSized w h s image mask x y none sized =
      resized w h image _ sized (sizes.composite_mask_size image mask x y (d.to_rgb s.near))
  colour-IsSized w h s image mask x y (some (far, angle)) sized =
      resized w h image _ sized (sizes.composite_mask_gradient_size image mask x y s.near far angle)

  paint-IsSized :
      (w h : ℕ) (s : Shading f) (image : Image) (mask : Mask) (x y : ℤ)
      → IsSized w h image
      → IsSized w h (paint f double r d s image mask x y)
  unfolding paint
  paint-IsSized w h s image mask x y sized =
      let coloured = colour-IsSized w h s image mask x y s.gradient sized in
      elim (Bool-cases (lt (lit 0 1) s.sigma)) [
        | inl blurred ↦
            rw blurred (resized w h _ _ coloured (sizes.blur_over_mask_size _ mask x y s.sigma))
        | inr sharp ↦ rw sharp coloured
      ]

  scale_for_within : (count : ℕ) → Within 50 (scale_for f double r d count)
  unfolding scale_for
  scale_for_within count = elim (Bool-cases (leb count 3)) [
    | inl few ↦ rw few (within_lit 500 1 50 (omega arith) (omega arith) (omega arith))
    | inr more ↦ elim (Bool-cases (leb count 5)) [
      | inl some_more ↦
          rw (more, some_more) (within_lit 420 1 50 (omega arith) (omega arith) (omega arith))
      | inr many ↦ rw (more, many) (within_lit 350 1 50 (omega arith) (omega arith) (omega arith))
    ]
  ]

  draw_wave-Ends : (deform : Deformations f) → Ends (draw_wave f double r d deform)
  unfolding draw_wave
  draw_wave-Ends deform =
      when-Runs _
        (λ _.
          bind-Runs (literals-Ends laws 7 1 16 1 (omega arith))
            λ _ _. bind-Runs (angle-Ends laws) λ _ _. pure-Runs _ tt)
        (λ _. pure-Runs _ tt)

  -- `a.b * intensity` and `a.b * scale * intensity`, of an intensity of at most 1.
  factor-Ends :
      (a b : ℕ) (x : F)
      → a < 10_000
      → b ≤ 3
      → a ≤ 1 * 10 ^ b
      → Within 1 x
      → Ends (spread f r (mul (lit a b) x))
  factor-Ends a b x ha hb h within =
      spread-Ends laws 1 _
        (within_mul 1 1 (lit a b) x (within_lit a b 1 ha hb h) within (omega arith))

  scaled-Ends :
      (a b : ℕ) (scale x : F)
      → a < 10_000
      → b ≤ 3
      → a ≤ 1 * 10 ^ b
      → Within 50 scale
      → Within 1 x
      → Ends (spread f r (mul (mul (lit a b) scale) x))
  scaled-Ends a b scale x ha hb h sw within = spread-Ends laws 50 _ (
      within_mul 50 1 _ x
        (within_mul 1 50 (lit a b) scale (within_lit a b 1 ha hb h) sw (omega arith)) within
        (omega arith))

  with_mask-IsSized :
      (w h : ℕ) (image : Image) (found : Option Mask) (body : Mask → Image)
      → IsSized w h image
      → ((mask : Mask) → IsSized w h (body mask))
      → IsSized w h (with_mask f double r d image found body)
  unfolding with_mask
  with_mask-IsSized w h image none body sized painted = sized
  with_mask-IsSized w h image (some mask) body sized painted = painted mask

  write_letter-Runs :
      (w h : ℕ) (dark_mode : Bool) (deform : Deformations f) (count : ℕ) (placed : F × F) (y : ℤ)
      (i : ℕ) (ch : Char) (image : Image)
      → IsUsable laws deform
      → IsSized w h image
      → Runs
          (write_letter f double r d dark_mode deform
            (scale_for f double r d count)
            placed
            y
            i
            ch
            image)
          (IsSized w h)
  unfolding write_letter
  write_letter-Runs w h dark_mode deform count placed y i ch image u sized =
      let sw = scale_for_within count in
      bind-Runs (draw_shading-Ends laws dark_mode _ deform u) λ shading _.
        bind-Runs (factor-Ends 30 2 _ (omega arith) (omega arith) (omega arith) u.scale) λ wider _.
          bind-Runs (factor-Ends 30 2 _ (omega arith) (omega arith) (omega arith) u.scale)
            λ taller _.
              bind-Runs (scaled-Ends 16 2 _ _ (omega arith) (omega arith) (omega arith) sw u.jitter)
                λ jitter_x _.
                  bind-Runs
                    (scaled-Ends 16 2 _ _ (omega arith) (omega arith) (omega arith) sw u.jitter)
                    λ jitter_y _.
                      bind-Runs
                        (factor-Ends 40 2 _ (omega arith) (omega arith) (omega arith) u.skew)
                        λ lean _.
                          bind-Runs
                            (scaled-Ends 14 2 _ _ (omega arith) (omega arith) (omega arith) sw
                              u.wave)
                            λ amplitude _. bind-Runs (draw_wave-Ends deform) λ wave _.
                              bind-Runs
                                (factor-Ends 45 2 _ (omega arith) (omega arith) (omega arith)
                                  u.rotation)
                                λ turn _. pure-Runs _ (
                                  with_mask-IsSized w h image (d.rasterize_char ch _) _ sized
                                    λ mask. paint-IsSized w h shading image _ _ _ sized)

  write_letters-Runs :
      (w h : ℕ) (dark_mode : Bool) (deform : Deformations f) (count : ℕ) (placed : F × F) (y : ℤ)
      (i : ℕ) (text : List Char) (image : Image)
      → IsUsable laws deform
      → IsSized w h image
      → Runs
          (write_letters f double r d dark_mode deform
            (scale_for f double r d count)
            placed
            y
            i
            text
            image)
          (IsSized w h)
  unfolding write_letters
  write_letters-Runs w h dark_mode deform count placed y i [] image u sized = pure-Runs _ sized
  write_letters-Runs w h dark_mode deform count placed y i (ch ∷ rest) image u sized =
      bind-Runs (write_letter-Runs w h dark_mode deform count placed y i ch image u sized)
        λ painted sized'.
          write_letters-Runs w h dark_mode deform count placed y (i + 1) rest painted u sized'

  checked_div-Ends : (a b : ℕ) → 0 < b → Ends {S = r.State} (checked_div a b)
  checked_div-Ends a b h =
      when-Runs (b == 0) (λ zero_b. absurd (ground arith)) (λ _. pure-Runs _ tt)

  layout-Ends :
      (usable_width count : ℕ) (deform : Deformations f)
      → 0 < count
      → count < 2 ^ 32
      → Ends (layout f double r d usable_width count deform)
  unfolding layout
  layout-Ends usable_width count deform low high =
      when-Runs _ (λ _. pure-Runs _ tt)
        (λ _.
          bind-Runs (checked_div-Ends usable_width (count % 2 ^ 32) (omega arith))
            λ _ _. pure-Runs _ tt)

  write_characters-Runs :
      (w h : ℕ) (text : String) (image : Image) (dark_mode : Bool) (deform : Deformations f)
      → length (chars text) < 2 ^ 32
      → IsUsable laws deform
      → IsSized w h image
      → Runs (write_characters f double r d text image dark_mode deform) (IsSized w h)
  unfolding write_characters
  write_characters-Runs w h text image dark_mode deform short u sized =
      when-Runs (length (chars text) == 0) (λ _. pure-Runs _ sized)
        (λ more. bind-Runs (layout-Ends _ _ deform (ground arith) short) λ placed _.
          write_letters-Runs w h dark_mode deform (length (chars text)) placed
            (pos (d.height image / 2 - 15)) 0 (chars text) image u sized)

  checked_sub-Runs : (a b : ℕ) → b ≤ a → Runs {S = r.State} (checked_sub a b) (λ c. c ≤ a)
  checked_sub-Runs a b h =
      when-Runs (leb b a) (λ _. pure-Runs _ (omega arith)) (λ below. absurd (ground arith))

  get_rnd-Ends : (n : ℕ) → Ends (get_rnd f r n)
  unfolding get_rnd
  get_rnd-Ends n = lift-Runs _ λ _. tt

  get_next-Ends :
      (n most : ℕ) (low : F) → most < 2 ^ 24 → Within n low → Ends (get_next f double r d low most)
  unfolding get_next
  get_next-Ends n most low small within =
      when-Runs (le (of_ℕ most) low) (λ _. pure-Runs _ tt)
        (λ above.
          bind-Runs
            (checked_sub-Runs most _ (
              to_usize_le most low small
                (lt_of_not_le n most low (of_ℕ most) within (within_of_ℕ most small) above)))
            λ space _. bind-Runs (get_rnd-Ends space) λ _ _. pure-Runs _ tt)

  get_color-Ends : (dark_mode : Bool) → Ends (get_color f double r d dark_mode)
  unfolding get_color
  get_color-Ends dark_mode = bind-Runs (get_hsl-Ends laws dark_mode) λ _ _. pure-Runs _ tt

  draw_interference_line-Runs :
      (w h : ℕ) (dark_mode : Bool)
      → w ≤ 2000
      → h ≤ 2000
      → (image : Image) → IsSized w h image
      → Runs (draw_interference_line f double r d dark_mode image) (IsSized w h)
  unfolding draw_interference_line
  draw_interference_line-Runs w h dark_mode hw hh image sized =
      let five = within_lit 50 1 5 (omega arith) (omega arith) (omega arith) in
      let width_bound : d.width image ≤ 2000 = omega (arith, sized.0) in
      let height_bound : d.height image ≤ 2000 = omega (arith, sized.1) in
      when-Runs _ (λ _. pure-Runs _ sized)
        (λ large. bind-Runs (get_next-Ends 5 _ _ (omega arith) five) λ y1 _.
          bind-Runs (get_next-Ends _ _ _ (omega arith) (within_of_ℕ _ (omega arith))) λ y2 _.
            bind-Runs (get_next-Ends _ _ _ (omega arith) (within_of_ℕ _ (omega arith))) λ ctrl_x _.
              bind-Runs (checked_sub-Runs (d.height image) 5 (ground arith)) λ lowest below.
                bind-Runs (get_next-Ends 5 _ _ (omega arith) five) λ ctrl_y _.
                  bind-Runs (get_next-Ends _ _ _ (omega arith) (within_of_ℕ _ (omega arith)))
                    λ ctrl_x2 _. bind-Runs (get_next-Ends 5 _ _ (omega arith) five) λ ctrl_y2 _.
                      bind-Runs (get_color-Ends dark_mode) λ color _. pure-Runs _ (
                        resized w h image _ sized
                          (sizes.draw_cubic_bezier_curve_size image _ _ _ _ color)))

  repeat-Runs :
      (w h n : ℕ) (body : Image → Draw r.State Image) (image : Image)
      → ((i : Image) → IsSized w h i → Runs (body i) (IsSized w h))
      → IsSized w h image
      → Runs (repeat f double r d n body image) (IsSized w h)
  unfolding repeat
  repeat-Runs w h zero body image keeps sized = pure-Runs _ sized
  repeat-Runs w h (suc n) body image keeps sized =
      bind-Runs (keeps image sized) λ next sized'. repeat-Runs w h n body next keeps sized'

  draw_circle-Runs :
      (w h : ℕ) (dark_mode : Bool)
      → 25 ≤ w
      → 15 ≤ h
      → (image : Image) → IsSized w h image
      → Runs (draw_circle f double r d dark_mode image) (IsSized w h)
  unfolding draw_circle
  draw_circle-Runs w h dark_mode hw hh image sized = bind-Runs (get_rnd-Ends 5) λ wider _.
      bind-Runs (checked_sub-Runs (d.width image) 25 (omega (arith, sized.0))) λ columns _.
        bind-Runs (get_rnd-Ends columns) λ x _.
          bind-Runs (checked_sub-Runs (d.height image) 15 (omega (arith, sized.1))) λ rows _.
            bind-Runs (get_rnd-Ends rows) λ y _. bind-Runs (get_color-Ends dark_mode) λ color _.
              pure-Runs _
                (resized w h image _ sized (sizes.draw_hollow_circle_size image _ _ color))

  draw_interference_ellipses-Runs :
      (w h n : ℕ) (dark_mode : Bool) (image : Image)
      → IsSized w h image
      → Runs (draw_interference_ellipses f double r d n dark_mode image) (IsSized w h)
  unfolding draw_interference_ellipses
  draw_interference_ellipses-Runs w h n dark_mode image sized =
      when-Runs _ (λ _. pure-Runs _ sized)
        (λ large.
          repeat-Runs w h n _ image
            (draw_circle-Runs w h dark_mode (ground (arith, sized.0)) (ground (arith, sized.1)))
            sized)

  add_noise-Runs :
      (w h difficulty : ℕ) (image : Image)
      → IsSized w h image
      → Runs (add_noise f double r d difficulty image) (IsSized w h)
  unfolding add_noise
  add_noise-Runs w h difficulty image sized =
      when-Runs (ltb 1 difficulty)
        (λ more. bind-Runs (checked_sub-Runs difficulty 1 (ground arith)) λ mean _.
          bind-Runs (checked_sub-Runs (5 * difficulty) 5 (ground arith)) λ deviation _.
            bind-Runs (lift-Runs {P = λ _. Unit {0}} r.word λ _. tt) λ seed _.
              bind-Runs (lift-Runs {P = λ _. Unit {0}} r.word λ _. tt) λ seed' _. pure-Runs _ (
                resized w h _ _
                  (resized w h image _ sized (sizes.gaussian_noise_size image _ _ seed))
                  (sizes.salt_and_pepper_noise_size _ _ seed')))
        (λ _. pure-Runs _ sized)

  -- A text that is not too long, deformed usably: its picture has the size asked for, within the
  -- renderer's own limits.
  pub render-Runs :
      (text : String) (difficulty width height : ℕ) (dark_mode : Bool) (deform : Deformations f)
      → length (chars text) < 2 ^ 32
      → IsUsable laws deform
      → Runs (render f double r d text difficulty width height dark_mode deform) (λ image.
        (d.width image ≡ clamp_ℕ width 30 2000) × (d.height image ≡ clamp_ℕ height 20 2000))
  unfolding render background
  render-Runs text difficulty width height dark_mode deform short u =
      let w = clamp_ℕ width 30 2000 in
      let h = clamp_ℕ height 20 2000 in
      let wide = clamp_ℕ_bounds width 30 2000 (omega arith) in
      let high = clamp_ℕ_bounds height 20 2000 (omega arith) in
      bind-Runs
        (write_characters-Runs w h text _ dark_mode deform short u (sizes.from_pixel_size w h _))
        λ written sized.
          bind-Runs
            (repeat-Runs w h 2 (draw_interference_line f double r d dark_mode) written
              (draw_interference_line-Runs w h dark_mode wide.1 high.1) sized)
            λ lined sized'.
              bind-Runs (draw_interference_ellipses-Runs w h 2 dark_mode lined sized')
                λ circled sized2. add_noise-Runs w h (clamp_ℕ difficulty 1 10) circled sized2
