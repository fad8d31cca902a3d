-- ===== src/Captcha/Laws/Draws.antt =====
-- src/services/captcha/generator.rs: how much is drawn at random does not depend on the font, nor on
-- the canvas.
use captchapi.Prelude.{ℕ, ◌+◌, ◌≡◌, refl, ℤ, String, Bool, List, [], ◌∷◌}
use Prim.Native.Char.{Char}
use captchapi.Captcha.Floats.{Floats, Rng}
use captchapi.Captcha.Draw.{source, bind-same, bind-source, when-source}
use captchapi.Captcha.Generator.{Deformations, chars}
use captchapi.Captcha.Render.{
  Drawing, layout, scale_for, draw_wave, write_letter, write_letters, write_characters,
}

module _ {f double : Floats} (r : Rng f) (d e : Drawing f double) where
  open f use {F}

  write_letter-source :
      (dark_mode : Bool) (deform : Deformations f) (scale : F) (placed placed' : F × F) (y y' : ℤ)
      (i : ℕ) (ch : Char) (image : d.Image) (image' : e.Image) (s : r.State)
      → source (write_letter f double r d dark_mode deform scale placed y i ch image s)
        ≡ source (write_letter f double r e dark_mode deform scale placed' y' i ch image' s)
  unfolding write_letter draw_wave
  write_letter-source dark_mode deform scale placed placed' y y' i ch image image' =
      bind-same _ _ _ λ shading. bind-same _ _ _ λ wider. bind-same _ _ _ λ taller.
        bind-same _ _ _ λ jitter_x. bind-same _ _ _ λ jitter_y. bind-same _ _ _ λ lean.
          bind-same _ _ _ λ amplitude. bind-same _ _ _ λ wave. bind-same _ _ _ λ turn s. refl

  write_letters-source :
      (dark_mode : Bool) (deform : Deformations f) (scale : F) (placed placed' : F × F) (y y' : ℤ)
      (i : ℕ) (text : List Char) (image : d.Image) (image' : e.Image) (s : r.State)
      → source (write_letters f double r d dark_mode deform scale placed y i text image s)
        ≡ source (write_letters f double r e dark_mode deform scale placed' y' i text image' s)
  unfolding write_letters
  write_letters-source dark_mode deform scale placed placed' y y' i [] image image' s = refl
  write_letters-source dark_mode deform scale placed placed' y y' i (ch ∷ rest) image image' s =
      bind-source _ _ _ _ s s
        (write_letter-source dark_mode deform scale placed placed' y y' i ch image image' s)
        (λ painted painted'.
          write_letters-source dark_mode deform scale placed placed' y y' (i + 1) rest painted
            painted')

  layout-source :
      (w w' count : ℕ) (deform : Deformations f) (s : r.State)
      → source (layout f double r d w count deform s)
        ≡ source (layout f double r e w' count deform s)
  unfolding layout
  layout-source w w' count deform s =
      when-source _ _ _ _ _ s refl
        (bind-source _ _ _ _ s s (when-source _ _ _ _ _ s refl refl) λ step step' t. refl)

  -- Two fonts and two canvases, of whatever sizes: writing a text draws the same at random, so that
  -- the source of random numbers is left in the same state, or panics on both.
  pub write_characters-source :
      (text : String) (image : d.Image) (image' : e.Image) (dark_mode : Bool)
      (deform : Deformations f) (s : r.State)
      → source (write_characters f double r d text image dark_mode deform s)
        ≡ source (write_characters f double r e text image' dark_mode deform s)
  unfolding write_characters scale_for
  write_characters-source text image image' dark_mode deform s = when-source _ _ _ _ _ s refl (
      bind-source _ _ _ _ s s (layout-source _ _ _ deform s) λ placed placed'.
        write_letters-source dark_mode deform _ placed placed' _ _ 0 (chars text) image image')
