-- ===== src/Captcha/Render.antt =====
-- src/services/captcha/generator.rs: the letters are laid out and painted, interference and noise
-- are laid over them. `u32` and `usize` subtractions that would underflow, and divisions by zero,
-- panic; the pixels' `i32` coordinates wrap. The canvas and the masks of letters are those of
-- drawing.rs and the `image` and `ab_glyph` crates.
use captchapi.Prelude.{
  ℕ, zero, suc, ◌+◌, ◌-◌, ◌*◌, ◌/◌, ◌%◌, ◌^◌, ℤ, pos, String, Bool, ◌||◌, not, Option, none, some,
  List, [], ◌∷◌, ltb, leb, ◌==◌, length, sub_i32, if◌then◌else◌, add_i32,
}
use Prim.Native.Char.{Char}
use captchapi.Captcha.Floats.{Floats, Rng, clamp}
use captchapi.Captcha.Draw.{Draw, pure, lift, when◌then◌else◌, ◌>>=◌, checked_div, checked_sub}
use captchapi.Captcha.Generator.{
  Deformations, Hsl, Shading, clamp_ℕ, chars, for_difficulty, get_rnd, spread, random_text, get_hsl,
  draw_shading,
}

abbrev pub Rgb : Type 0
Rgb = ℕ × ℕ × ℕ

module _ (f : Floats) where
  open f use {F}

  -- `ab_glyph::PxScale`
  pub record PxScale : Type 0 where
    pub x : F
    pub y : F

-- What the renderer calls: the font, the masks of letters, and the canvas. `double` is `f64`.
pub record Drawing (f double : Floats) : Type 1 where
  pub ascent : PxScale f → f.F
  pub Mask : Type 0
  pub mask_height : Mask → ℕ
  pub rasterize_char : Char → PxScale f → Option Mask
  pub displace_and_rotate : Mask → (f.F → f.F) → f.F → Mask
  pub outline : Mask → f.F → Mask
  pub fade : Mask → f.F → f.F → f.F → Mask
  pub to_rgb : Hsl f → Rgb
  pub Image : Type 0
  pub width : Image → ℕ
  pub height : Image → ℕ
  pub from_pixel : ℕ → ℕ → Rgb → Image
  pub composite_mask : Image → Mask → ℤ → ℤ → Rgb → Image
  pub composite_mask_gradient : Image → Mask → ℤ → ℤ → Hsl f → Hsl f → f.F → Image
  pub blur_over_mask : Image → Mask → ℤ → ℤ → f.F → Image
  -- start, end, and the two control points
  pub draw_cubic_bezier_curve : Image → f.F × f.F → f.F × f.F → f.F × f.F → f.F × f.F → Rgb → Image
  pub draw_hollow_circle : Image → ℤ × ℤ → ℤ → Rgb → Image
  -- mean, deviation, seed
  pub gaussian_noise : Image → double.F → double.F → ℕ → Image
  -- rate, seed
  pub salt_and_pepper_noise : Image → double.F → ℕ → Image

module _ (f double : Floats) (r : Rng f) (d : Drawing f double) where
  open f use {F, lit, of_ℕ, add, sub, mul, div, max, sin, round, to_i32, to_usize, lt, le, eq, tau}
  open r use {State, word}
  open d use {Mask, Image}

  unfoldable pub background : ℕ → ℕ → Bool → Image
  background width height dark_mode =
      d.from_pixel width height (if dark_mode then (18, 18, 18) else (224, 238, 253))

  -- `Shading::shape`
  unfoldable pub shape : Shading f → Mask → Mask
  shape s mask =
      let hollow = if lt (lit 0 1) s.stroke then d.outline mask s.stroke else mask in
      elim (s.fade) [ none ↦ hollow | some (far, angle) ↦ d.fade hollow (lit 10 1) far angle ]

  -- `Shading::paint`
  unfoldable pub paint : Shading f → Image → Mask → ℤ → ℤ → Image
  paint s image mask x y =
      let painted : Image = elim (s.gradient) [
        | none ↦ d.composite_mask image mask x y (d.to_rgb s.near)
        | some (far, angle) ↦ d.composite_mask_gradient image mask x y s.near far angle
      ] in
      if lt (lit 0 1) s.sigma then d.blur_over_mask painted mask x y s.sigma else painted

  -- `MAX_CLUSTERING` is 0.45.
  unfoldable pub layout : ℕ → ℕ → Deformations f → Draw State (F × F)
  layout usable_width count deform =
      when lt (lit 0 1) deform.clustering
      then (do
        let full = of_ℕ usable_width
        let packed =
            mul (sub (lit 10 1) (lit 45 2)) (clamp f deform.clustering (lit 0 1) (lit 10 1))
        let span = mul full (sub (lit 10 1) packed)
        pure (add (lit 50 1) (div (sub full span) (lit 20 1)), div span (of_ℕ count)))
      else (do step ← checked_div usable_width (count % 2 ^ 32); pure (lit 50 1, of_ℕ step))

  -- SCALE_LG, SCALE_MD and SCALE_SM
  unfoldable pub scale_for : ℕ → F
  scale_for count = if leb count 3 then lit 500 1 else if leb count 5 then lit 420 1 else lit 350 1

  -- Period and phase of the wave.
  unfoldable pub draw_wave : Deformations f → Draw State (F × F)
  draw_wave deform =
      when lt (lit 0 1) deform.wave
      then (do
        period ← r.between (lit 7 1) (lit 16 1)
        phase ← r.between (lit 0 1) tau
        pure (period, phase))
      else pure (lit 10 1, lit 0 1)

  -- The horizontal displacement of a row of a letter.
  unfoldable pub displacement : Mask → F → F → F × F → F → F
  displacement mask lean amplitude wave row =
      let rows = of_ℕ (d.mask_height mask) in
      let centre = div rows (lit 20 1) in
      let wavelength = max (mul rows wave.0) (lit 10 1) in
      add (mul lean (sub row centre))
        (mul amplitude (sin (add (div (mul tau row) wavelength) wave.1)))

  unfoldable pub deform_mask : F → F → F → F × F → Mask → Mask
  unfolding displacement
  deform_mask lean amplitude turn wave mask =
      if not (eq lean (lit 0 1)) || not (eq amplitude (lit 0 1)) || not (eq turn (lit 0 1))
      then d.displace_and_rotate mask (displacement mask lean amplitude wave) turn
      else mask

  -- `if let Some(mask) = …`: a character without a glyph leaves the canvas as it is.
  unfoldable pub with_mask : Image → Option Mask → (Mask → Image) → Image
  with_mask image none body = image
  with_mask image (some mask) body = body mask

  -- One turn of the loop of `write_characters`: the letter `ch`, the `i`-th of the text.
  -- MAX_SCALE_VARIANCE, MAX_JITTER, MAX_SKEW, MAX_WAVE_AMPLITUDE and MAX_ROTATION are 0.30, 0.16,
  -- 0.40, 0.14 and 0.45.
  unfoldable pub write_letter :
      Bool → Deformations f → F → F × F → ℤ → ℕ → Char → Image → Draw State Image
  unfolding draw_wave shape paint deform_mask with_mask
  write_letter dark_mode deform scale placed y i ch image = do
    let x = to_i32 (round (add placed.0 (mul (of_ℕ i) placed.1)))
    shading ← draw_shading f r dark_mode scale deform
    wider ← spread f r (mul (lit 30 2) deform.scale)
    taller ← spread f r (mul (lit 30 2) deform.scale)
    let px : PxScale f = record {
      x = mul scale (add (lit 10 1) wider);
      y = mul scale (add (lit 10 1) taller);
    }
    let baseline_shift =
        to_i32 (round (sub (d.ascent px) (d.ascent (record { x = scale; y = scale }))))
    jitter_x ← spread f r (mul (mul (lit 16 2) scale) deform.jitter)
    jitter_y ← spread f r (mul (mul (lit 16 2) scale) deform.jitter)
    lean ← spread f r (mul (lit 40 2) deform.skew)
    amplitude ← spread f r (mul (mul (lit 14 2) scale) deform.wave)
    wave ← draw_wave deform
    turn ← spread f r (mul (lit 45 2) deform.rotation)
    pure (
        with_mask image (d.rasterize_char ch px) λ mask.
          paint shading image (shape shading (deform_mask lean amplitude turn wave mask))
            (add_i32 x (to_i32 (round jitter_x)))
            (sub_i32 (add_i32 y (to_i32 (round jitter_y))) baseline_shift))

  unfoldable pub write_letters :
      Bool → Deformations f → F → F × F → ℤ → ℕ → List Char → Image → Draw State Image
  unfolding write_letter
  write_letters dark_mode deform scale placed y i [] image = pure image
  write_letters dark_mode deform scale placed y i (ch ∷ rest) image = do
    painted ← write_letter dark_mode deform scale placed y i ch image
    write_letters dark_mode deform scale placed y (i + 1) rest painted

  unfoldable pub write_characters : String → Image → Bool → Deformations f → Draw State Image
  unfolding layout scale_for write_letters
  write_characters text image dark_mode deform =
      let count = length (chars text) in
      when count == 0 then pure image else (do
        placed ← layout (d.width image - 10) count deform
        write_letters dark_mode deform (scale_for count) placed (pos (d.height image / 2 - 15)) 0
            (chars text) image)

  unfoldable pub get_next : F → ℕ → Draw State F
  get_next min most = when le (of_ℕ most) min then pure min else (do
    above ← checked_sub most (to_usize min)
    drawn ← get_rnd f r above
    pure (add min (of_ℕ drawn)))

  unfoldable pub get_color : Bool → Draw State Rgb
  get_color dark_mode = do colour ← get_hsl f r dark_mode; pure (d.to_rgb colour)

  unfoldable pub draw_interference_line : Bool → Image → Draw State Image
  unfolding get_next get_color
  draw_interference_line dark_mode image =
      let width = d.width image in
      let height = d.height image in
      when leb width 5 || leb height 5 then pure image else (do
        y1 ← get_next (lit 50 1) (height / 2)
        y2 ← get_next (of_ℕ (height / 2)) (height - 5)
        ctrl_x ← get_next (of_ℕ (width / 4)) (width / 4 * 3)
        lowest ← checked_sub height 5
        ctrl_y ← get_next (lit 50 1) lowest
        ctrl_x2 ← get_next (of_ℕ (width / 4)) (width / 4 * 3)
        ctrl_y2 ← get_next (lit 50 1) lowest
        color ← get_color dark_mode
        pure (
            d.draw_cubic_bezier_curve image (lit 50 1, y1) (of_ℕ (width - 5), y2) (ctrl_x, ctrl_y)
              (ctrl_x2, ctrl_y2) color))

  unfoldable pub repeat : ℕ → (Image → Draw State Image) → Image → Draw State Image
  repeat zero body image = pure image
  repeat (suc count) body image = do next ← body image; repeat count body next

  -- One turn of the loop of `draw_interference_ellipses`.
  unfoldable pub draw_circle : Bool → Image → Draw State Image
  unfolding get_color
  draw_circle dark_mode image = do
    wider ← get_rnd f r 5
    columns ← checked_sub (d.width image) 25
    x ← get_rnd f r columns
    rows ← checked_sub (d.height image) 15
    y ← get_rnd f r rows
    color ← get_color dark_mode
    pure (d.draw_hollow_circle image (pos x, pos y) (pos (10 + wider)) color)

  unfoldable pub draw_interference_ellipses : ℕ → Bool → Image → Draw State Image
  unfolding draw_circle repeat
  draw_interference_ellipses count dark_mode image =
      when leb (d.width image) 25 || leb (d.height image) 15
      then pure image
      else repeat count (draw_circle dark_mode) image

  -- The noise of a difficulty that is more than the least.
  unfoldable pub add_noise : ℕ → Image → Draw State Image
  add_noise difficulty image =
      when ltb 1 difficulty
      then (do
        mean ← checked_sub difficulty 1
        deviation ← checked_sub (5 * difficulty) 5
        seed ← lift word
        seed' ← lift word
        let noisy = d.gaussian_noise image (double.of_ℕ mean) (double.of_ℕ deviation) seed
        let rate =
            double.sub (double.mul (double.lit 2 3) (double.of_ℕ difficulty)) (double.lit 2 3)
        pure (d.salt_and_pepper_noise noisy rate seed'))
      else pure image

  -- `INTERFERENCE_LINES` and `INTERFERENCE_ELLIPSES` are 2.
  unfoldable pub render : String → ℕ → ℕ → ℕ → Bool → Deformations f → Draw State Image
  unfolding background write_characters draw_interference_line draw_interference_ellipses repeat
      add_noise
  render text difficulty width height dark_mode deform = do
    let canvas = background (clamp_ℕ width 30 2000) (clamp_ℕ height 20 2000) dark_mode
    written ← write_characters text canvas dark_mode deform
    lined ← repeat 2 (draw_interference_line dark_mode) written
    circled ← draw_interference_ellipses 2 dark_mode lined
    add_noise (clamp_ℕ difficulty 1 10) circled

  unfoldable pub generate : ℕ → ℕ → ℕ → ℕ → Bool → Draw State (String × Image)
  unfolding render
  generate count difficulty width height dark_mode = do
    text ← random_text f r (clamp_ℕ count 1 32)
    image ← render text difficulty width height dark_mode (for_difficulty f difficulty)
    pure (text, image)
