-- ===== src/Captcha/Laws/Runs.antt =====
-- No draw of services/captcha/generator.rs panics while a letter is painted: every range is one of
-- numbers and is not empty.
use captchapi.Prelude.{
  ℕ, zero, suc, ◌-◌, ◌*◌, ◌^◌, ◌≤◌, ◌<◌, ◌≡◌, refl, ◌⊎◌, inl, inr, Bool, true, false, arith,
  Bool-cases, if◌then◌else◌,
}
use captchapi.Captcha.Floats.{Floats, Rng, FloatLaws}
use captchapi.Captcha.Draw.{Draw, Runs, pure-Runs, bind-Runs, when-Runs}
use captchapi.Captcha.Generator.{
  Deformations, Hsl, no_deformation, deformed, intensity_of, shaped, for_difficulty, clamp_ℕ,
  glyph_lightness, spread, get_hsl, draw_stroke, fade_floor, draw_fade, draw_sigma, draw_gradient,
  draw_shading,
}

pub clamp_ℕ_bounds :
    (n low high : ℕ) → low ≤ high → (low ≤ clamp_ℕ n low high) × (clamp_ℕ n low high ≤ high)
unfolding clamp_ℕ
clamp_ℕ_bounds n low high h = ground arith

-- A computation that returns.
abbrev pub Ends : {S A : Type 0} → Draw S A → Type 0
Ends m = Runs m (λ _. Unit {0})

abbrev IsShortRange : ℕ → ℕ → ℕ → ℕ → Type 0
IsShortRange a b c d =
    (a < 10_000)
    × (b ≤ 3)
    × (c < 10_000)
    × (d ≤ 3)
    × (a * 10 ^ d < c * 10 ^ b)
    × (a ≤ 10_000 * 10 ^ b)
    × (c ≤ 10_000 * 10 ^ d)

module _ {f : Floats} {r : Rng f} (laws : FloatLaws f r) where
  open f use {F, lit, lt, le, mul, neg}
  open r use {between}
  open laws use {
    Within, within_lit, within_mul, within_neg, within_tau, lit_order, tau_positive, neg_lt,
    between_some, lt_irrefl, no_intensity, intensity_within, opacity_below_one,
  }

  pub range-Ends :
      (n : ℕ) (low high : F)
      → Within n low
      → Within n high
      → lt low high ≡ true
      → Ends (between low high)
  range-Ends n low high hl hh h = record {
    at = λ s. let (v, t, e) = between_some n low high s hl hh h in (v, t, e, tt);
  }

  -- A range between two short literals.
  pub literals-Ends : (a b c d : ℕ) → IsShortRange a b c d → Ends (between (lit a b) (lit c d))
  literals-Ends a b c d h =
      range-Ends 10_000 (lit a b) (lit c d) (within_lit a b 10_000 h.0 h.1 (omega arith))
        (within_lit c d 10_000 h.2 h.3 (omega arith)) (lit_order a b c d h.0 h.1 h.2 h.3 h.4).0

  unit-Ends : Ends (between (lit 0 1) (lit 10 1))
  unit-Ends = literals-Ends 0 1 10 1 (omega arith)

  pub angle-Ends : Ends (between (lit 0 1) f.tau)
  angle-Ends =
      range-Ends 7 (lit 0 1) f.tau (within_lit 0 1 7 (omega arith) (omega arith) (omega arith))
        within_tau tau_positive

  pub spread-Ends : (n : ℕ) (x : F) → Within n x → Ends (spread f r x)
  unfolding spread
  spread-Ends n x h =
      when-Runs (le x (lit 0 1)) (λ _. pure-Runs _ tt)
        (λ e. range-Ends n (neg x) x (within_neg n x h) h (neg_lt n x h e))

  lightness-Ends :
      (dark_mode : Bool)
      → Ends (between (glyph_lightness f dark_mode).0 (glyph_lightness f dark_mode).1)
  unfolding glyph_lightness
  lightness-Ends true = literals-Ends 55 2 80 2 (omega arith)
  lightness-Ends false = literals-Ends 32 2 52 2 (omega arith)

  pub get_hsl-Ends : (dark_mode : Bool) → Ends (get_hsl f r dark_mode)
  unfolding get_hsl
  get_hsl-Ends dark_mode = bind-Runs unit-Ends λ _ _.
      bind-Runs (literals-Ends 50 2 95 2 (omega arith))
        λ _ _. bind-Runs (lightness-Ends dark_mode) λ _ _. pure-Runs _ tt

  shift-Ends : Ends (between (neg (lit 45 2)) (lit 45 2))
  shift-Ends =
      let within = within_lit 45 2 1 (omega arith) (omega arith) (omega arith) in
      range-Ends 1 (neg (lit 45 2)) (lit 45 2) (within_neg 1 (lit 45 2) within) within (
        neg_lt 1 (lit 45 2) within
          (lit_order 0 1 45 2 (omega arith) (omega arith) (omega arith) (omega arith)
            (omega arith)).1)

  pub draw_stroke-Ends : (scale : F) (deform : Deformations f) → Ends (draw_stroke f r scale deform)
  unfolding draw_stroke
  draw_stroke-Ends scale deform =
      when-Runs _
        (λ _. bind-Runs unit-Ends λ _ _.
          when-Runs _ (λ _. bind-Runs (literals-Ends 25 3 55 3 (omega arith)) λ _ _. pure-Runs _ tt)
            (λ _. pure-Runs _ tt))
        (λ _. pure-Runs _ tt)

  pub draw_sigma-Ends : (scale : F) (deform : Deformations f) → Ends (draw_sigma f r scale deform)
  unfolding draw_sigma
  draw_sigma-Ends scale deform =
      when-Runs _ (λ _. bind-Runs unit-Ends λ _ _. pure-Runs _ tt) (λ _. pure-Runs _ tt)

  pub draw_gradient-Ends :
      (dark_mode : Bool) (near : Hsl f) (deform : Deformations f)
      → Ends (draw_gradient f r dark_mode near deform)
  unfolding draw_gradient
  draw_gradient-Ends dark_mode near deform =
      when-Runs _
        (λ _. bind-Runs shift-Ends λ _ _.
          bind-Runs (lightness-Ends dark_mode) λ _ _. bind-Runs angle-Ends λ _ _. pure-Runs _ tt)
        (λ _. pure-Runs _ tt)

  -- Intensities with which every letter can be painted.
  pub record IsUsable (deform : Deformations f) : Type 0 where
    pub jitter : Within 1 deform.jitter
    pub scale : Within 1 deform.scale
    pub skew : Within 1 deform.skew
    pub wave : Within 1 deform.wave
    pub rotation : Within 1 deform.rotation
    pub fades :
        (lowest : F)
        → (lowest ≡ lit 6 1) ⊎ (lowest ≡ lit 35 2)
        → lt (lit 0 1) deform.transparency ≡ true
        → Within 1 (fade_floor f r lowest deform.transparency)
          × (lt (fade_floor f r lowest deform.transparency) (lit 10 1) ≡ true)

  fade_range-Ends :
      (lowest : F) (deform : Deformations f)
      → IsUsable deform
      → (lowest ≡ lit 6 1) ⊎ (lowest ≡ lit 35 2)
      → lt (lit 0 1) deform.transparency ≡ true
      → Ends (between (fade_floor f r lowest deform.transparency) (lit 10 1))
  fade_range-Ends lowest deform usable known fading =
      let (within, below) = usable.fades lowest known fading in
      range-Ends 1 (fade_floor f r lowest deform.transparency) (lit 10 1) within
        (within_lit 10 1 1 (omega arith) (omega arith) (omega arith)) below

  lowest_known :
      (hollow : Bool)
      → ((if hollow then lit 6 1 else lit 35 2) ≡ lit 6 1)
        ⊎ ((if hollow then lit 6 1 else lit 35 2) ≡ lit 35 2)
  lowest_known true = inl refl
  lowest_known false = inr refl

  pub draw_fade-Ends :
      (stroke : F) (deform : Deformations f) → IsUsable deform → Ends (draw_fade f r stroke deform)
  unfolding draw_fade
  draw_fade-Ends stroke deform usable =
      when-Runs _
        (λ fading.
          bind-Runs (fade_range-Ends _ deform usable (lowest_known (lt (lit 0 1) stroke)) fading)
            λ _ _. bind-Runs angle-Ends λ _ _. pure-Runs _ tt)
        (λ _. pure-Runs _ tt)

  pub draw_shading-Ends :
      (dark_mode : Bool) (scale : F) (deform : Deformations f)
      → IsUsable deform
      → Ends (draw_shading f r dark_mode scale deform)
  unfolding draw_shading
  draw_shading-Ends dark_mode scale deform usable = bind-Runs (get_hsl-Ends dark_mode) λ near _.
      bind-Runs (draw_stroke-Ends scale deform) λ stroke _.
        bind-Runs (draw_fade-Ends stroke deform usable) λ _ _.
          bind-Runs (draw_sigma-Ends scale deform)
            λ _ _. bind-Runs (draw_gradient-Ends dark_mode near deform) λ _ _. pure-Runs _ tt

  no_deformation-IsUsable : IsUsable (no_deformation f)
  unfolding no_deformation
  no_deformation-IsUsable =
      let none_within = within_lit 0 1 1 (omega arith) (omega arith) (omega arith) in
      record {
        jitter = none_within;
        scale = none_within;
        skew = none_within;
        wave = none_within;
        rotation = none_within;
        fades = λ lowest known fading. cc (lt_irrefl (lit 0 1));
      }

  deformed-IsUsable :
      (k : ℕ)
      → 0 < k
      → k ≤ 9
      → IsUsable (deformed f (f.powf (f.div (f.of_ℕ k) (lit 90 1)) (lit 6 1)))
  unfolding deformed fade_floor
  deformed-IsUsable k low high =
      let within = intensity_within k low high in
      record {
        jitter = within;
        scale = within;
        skew = within;
        wave = within;
        rotation = within;
        fades = λ lowest known fading. opacity_below_one k lowest low high known;
      }

  level-IsUsable :
      (k : ℕ)
      → k ≤ 9
      → let intensity = f.powf (f.div (f.of_ℕ k) (lit 90 1)) (lit 6 1) in
        IsUsable (if f.eq intensity (lit 0 1) then no_deformation f else deformed f intensity)
  level-IsUsable zero h = rw no_intensity no_deformation-IsUsable
  level-IsUsable (suc k) h =
      elim (Bool-cases (f.eq (f.powf (f.div (f.of_ℕ (suc k)) (lit 90 1)) (lit 6 1)) (lit 0 1))) [
        | inl off ↦ rw off no_deformation-IsUsable
        | inr on ↦ rw on (deformed-IsUsable (suc k) (omega arith) h)
      ]

  -- The intensities of every difficulty are usable, also of one out of range.
  pub for_difficulty-IsUsable : (difficulty : ℕ) → IsUsable (for_difficulty f difficulty)
  unfolding for_difficulty shaped intensity_of
  for_difficulty-IsUsable difficulty =
      level-IsUsable (clamp_ℕ difficulty 1 10 - 1) (omega (arith, clamp_ℕ_bounds difficulty 1 10))
