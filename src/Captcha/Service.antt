-- ===== src/Captcha/Service.antt =====
-- src/services/captcha/mod.rs: the renderer as the session operations call it, and the conversions
-- of the numbers of a request. The JPEG encoder is a parameter; its error becomes an internal one.
use captchapi.Prelude.{ℕ, ◌-◌, ◌%◌, ◌^◌, ℤ, pos, negsuc, String, Bool, Option, none, some, List}
use captchapi.Validation.{ValidatedSessionParams}
use captchapi.Captcha.Floats.{Floats, Rng}
use captchapi.Captcha.Draw.{Draw, pure, ◌>>=◌}
use captchapi.Captcha.Render.{Drawing, generate}

-- `n as u8`, `as u32` and `as usize` on i64: the low bits, in two's complement.
unfoldable pub as_unsigned : ℕ → ℤ → ℕ
as_unsigned bits (pos n) = n % 2 ^ bits
as_unsigned bits (negsuc n) = 2 ^ bits - (n % 2 ^ bits) - 1

module _ (f double : Floats) (r : Rng f) (d : Drawing f double)
    (encode : d.Image → ℕ → Option (List ℕ)) where
  open d use {Image}
  open r use {State}

  unfoldable pub image_to_jpeg_bytes : Image → ℕ → Option (List ℕ)
  image_to_jpeg_bytes image quality = encode image quality

  unfoldable pub with_text : String → Option (List ℕ) → Option (String × List ℕ)
  with_text text none = none
  with_text text (some image_bytes) = some (text, image_bytes)

  -- `CaptchaService::generate`. `none` is an error.
  unfoldable pub generate_captcha : ℤ → ℤ → ℤ → ℤ → Bool → ℤ → Draw State (Option (String × List ℕ))
  unfolding as_unsigned image_to_jpeg_bytes with_text
  generate_captcha count difficulty width height dark_mode compression = do
    drawn ←
        generate f double r d (as_unsigned 64 count) (as_unsigned 32 difficulty)
          (as_unsigned 32 width) (as_unsigned 32 height) dark_mode
    pure (with_text drawn.0 (image_to_jpeg_bytes drawn.1 (as_unsigned 8 compression)))

  -- What a computation answers that does not panic; a panic answers nothing.
  unfoldable pub answer_of : Option (Option (String × List ℕ) × State) → Option (String × List ℕ)
  answer_of none = none
  answer_of (some (answer, s)) = answer

  -- The call in `create_session_orchestrated`, where the n-th interaction finds the source of random
  -- numbers in the state `states n`.
  unfoldable pub renderer : (ℕ → State) → ℕ → ValidatedSessionParams → Option (String × List ℕ)
  unfolding generate_captcha answer_of
  renderer states n p =
      answer_of (
        generate_captcha p.length p.difficulty p.width p.height p.dark_mode p.compression
          (states n))
