-- ===== src/Captcha/Generator.antt =====
-- src/services/captcha/generator.rs: the alphabet, how strongly a difficulty deforms, and how one
-- letter is painted. A random draw may panic, and so does an index out of range.
use captchapi.Prelude.{
  ℕ, zero, suc, ◌-◌, String, Bool, Option, none, some, List, [], ◌∷◌, ltb, get_elem?, length,
  if◌then◌else◌,
}
use Prim.Native.Char.{Char}
use captchapi.Captcha.Floats.{Floats, Rng, clamp}
use captchapi.Captcha.Draw.{Draw, pure, lift, panic, when◌then◌else◌, ◌>>=◌}

abbrev pub chars : String → List Char
chars String.[] = []
chars (String.◌∷◌ c s) = c ∷ chars s

abbrev pub basic_char : List Char
basic_char = chars "23456789ABCDEFGHJKMNPQRSTUVWXYZabcdefghjkmnpqrstuvwxyz"

-- `n.clamp(low, high)`
unfoldable pub clamp_ℕ : ℕ → ℕ → ℕ → ℕ
clamp_ℕ n low high = if ltb n low then low else if ltb high n then high else n

module _ (f : Floats) where
  open f use {F, lit, of_ℕ, add, sub, mul, div, powf, eq, lt, le, neg, tau}

  -- The intensities of the deformations. 0.0 skips one.
  pub record Deformations : Type 0 where
    pub jitter : F
    pub scale : F
    pub skew : F
    pub wave : F
    pub rotation : F
    pub clustering : F
    pub outline : F
    pub transparency : F
    pub gradient : F
    pub blur : F

  -- drawing.rs: a colour before its conversion.
  pub record Hsl : Type 0 where
    pub hue : F
    pub saturation : F
    pub lightness : F

  -- How one letter is painted.
  pub record Shading : Type 0 where
    pub near : Hsl
    pub stroke : F
    pub fade : Option (F × F)
    pub gradient : Option (Hsl × F)
    pub sigma : F

  unfoldable pub no_deformation : Deformations
  no_deformation = record {
    jitter = lit 0 1;
    scale = lit 0 1;
    skew = lit 0 1;
    wave = lit 0 1;
    rotation = lit 0 1;
    clustering = lit 0 1;
    outline = lit 0 1;
    transparency = lit 0 1;
    gradient = lit 0 1;
    blur = lit 0 1;
  }

  -- Every deformation at one intensity, but the blur, which is at `FLAT_BLUR`.
  unfoldable pub deformed : F → Deformations
  deformed intensity = record {
    jitter = intensity;
    scale = intensity;
    skew = intensity;
    wave = intensity;
    rotation = intensity;
    clustering = intensity;
    outline = intensity;
    transparency = intensity;
    gradient = intensity;
    blur = lit 10 1;
  }

  unfoldable pub intensity_of : ℕ → F → F
  unfolding clamp_ℕ
  intensity_of difficulty curve = powf (div (of_ℕ (clamp_ℕ difficulty 1 10 - 1)) (lit 90 1)) curve

  unfoldable pub shaped : ℕ → F → Deformations
  shaped difficulty curve =
      let intensity = intensity_of difficulty curve in
      if eq intensity (lit 0 1) then no_deformation else deformed intensity

  -- The exponent is `INTENSITY_CURVE`.
  unfoldable pub for_difficulty : ℕ → Deformations
  for_difficulty difficulty = shaped difficulty (lit 6 1)

  -- LIGHT_MODE_LIGHTNESS and DARK_MODE_LIGHTNESS
  unfoldable pub glyph_lightness : Bool → F × F
  glyph_lightness dark_mode = if dark_mode then (lit 55 2, lit 80 2) else (lit 32 2, lit 52 2)

  module _ (r : Rng f) where
    open r use {State, up_to, between, word}

    unfoldable pub get_rnd : ℕ → Draw State ℕ
    get_rnd num = lift (up_to num)

    unfoldable pub spread : F → Draw State F
    spread magnitude =
        when le magnitude (lit 0 1) then pure (lit 0 1) else between (neg magnitude) magnitude

    unfoldable pub char_at : ℕ → Draw State Char
    char_at i = elim (get_elem? basic_char i) [ none ↦ panic | some c ↦ pure c ]

    unfoldable pub random_text : ℕ → Draw State String
    random_text zero = pure String.[]
    random_text (suc len) = do
      i ← get_rnd (length basic_char - 1)
      c ← char_at i
      rest ← random_text len
      pure (String.◌∷◌ c rest)

    unfoldable pub get_hsl : Bool → Draw State Hsl
    unfolding glyph_lightness
    get_hsl dark_mode = do
      hue ← between (lit 0 1) (lit 10 1)
      saturation ← between (lit 50 2) (lit 95 2)
      lightness ← between (glyph_lightness dark_mode).0 (glyph_lightness dark_mode).1
      pure (record { hue = hue; saturation = saturation; lightness = lightness })

    -- The stroke of a hollow letter: `MAX_OUTLINE_SHARE` is 0.6, `OUTLINE_STROKE` 0.025 to 0.055.
    unfoldable pub draw_stroke : F → Deformations → Draw State F
    draw_stroke scale deform =
        when lt (lit 0 1) deform.outline
        then (do
          drawn ← between (lit 0 1) (lit 10 1)
          when lt drawn (mul (clamp f deform.outline (lit 0 1) (lit 10 1)) (lit 6 1))
              then (do width ← between (lit 25 3) (lit 55 3); pure (mul scale width))
              else pure (lit 0 1))
        else pure (lit 0 1)

    -- `MIN_OUTLINE_OPACITY` for a hollow letter and `MIN_OPACITY` for another, weakened.
    unfoldable pub fade_floor : F → F → F
    fade_floor lowest transparency =
        sub (lit 10 1) (mul (sub (lit 10 1) lowest) (clamp f transparency (lit 0 1) (lit 10 1)))

    unfoldable pub draw_fade : F → Deformations → Draw State (Option (F × F))
    unfolding fade_floor
    draw_fade stroke deform =
        when lt (lit 0 1) deform.transparency
        then (do
          let lowest = if lt (lit 0 1) stroke then lit 6 1 else lit 35 2
          far ← between (fade_floor lowest deform.transparency) (lit 10 1)
          angle ← between (lit 0 1) tau
          pure (some (far, angle)))
        else pure none

    -- `MAX_BLUR` is 0.045.
    unfoldable pub draw_sigma : F → Deformations → Draw State F
    draw_sigma scale deform =
        when lt (lit 0 1) deform.blur
        then (do
          share ← between (lit 0 1) (lit 10 1)
          pure (mul (mul (mul scale (lit 45 3)) (clamp f deform.blur (lit 0 1) (lit 10 1))) share))
        else pure (lit 0 1)

    -- `MAX_GRADIENT_HUE_SHIFT` is 0.45.
    unfoldable pub draw_gradient : Bool → Hsl → Deformations → Draw State (Option (Hsl × F))
    unfolding glyph_lightness
    draw_gradient dark_mode near deform =
        when lt (lit 0 1) deform.gradient
        then (do
          let intensity = clamp f deform.gradient (lit 0 1) (lit 10 1)
          shift ← between (neg (lit 45 2)) (lit 45 2)
          far ← between (glyph_lightness dark_mode).0 (glyph_lightness dark_mode).1
          angle ← between (lit 0 1) tau
          let end : Hsl = record {
            hue = add near.hue (mul shift intensity);
            saturation = near.saturation;
            lightness = add near.lightness (mul (sub far near.lightness) intensity);
          }
          pure (some (end, angle)))
        else pure none

    -- `Shading::draw`
    unfoldable pub draw_shading : Bool → F → Deformations → Draw State Shading
    unfolding get_hsl draw_stroke draw_fade draw_sigma draw_gradient
    draw_shading dark_mode scale deform = do
      near ← get_hsl dark_mode
      stroke ← draw_stroke scale deform
      fade ← draw_fade stroke deform
      sigma ← draw_sigma scale deform
      gradient ← draw_gradient dark_mode near deform
      pure
          (record { near = near; stroke = stroke; fade = fade; gradient = gradient; sigma = sigma })
