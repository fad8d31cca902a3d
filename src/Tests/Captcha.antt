-- ===== src/Tests/Captcha.antt =====
-- The renderer at concrete inputs, on a canvas that knows its size and how often it was drawn on.
use captchapi.Captcha.Floats.{clamp}
use captchapi.Prelude.{
  replicate, ◌++◌, ℕ, ◌+◌, ◌≡◌, refl, pos, true, false, Option, none, some, List, [], ◌∷◌, arith,
  length, all, codes,
}
use captchapi.Models.{session_new}
use captchapi.Crypto.{hash_solution, encrypt}
use captchapi.Table.{select}
use captchapi.Error.{ok}
use captchapi.Validation.{valid, validate_solution}
use captchapi.Sessions.{Services, CreatedSession, create_session_orchestrated}
use captchapi.Captcha.Draw.{when◌then◌else◌, ◌>>=◌, Runs, source}
use captchapi.Captcha.Generator.{
  deformed, spread, draw_shading, no_deformation, intensity_of, shaped, char_at, get_rnd,
  random_text, clamp_ℕ, for_difficulty,
}
use captchapi.Captcha.Render.{Drawing, generate, write_characters}
use captchapi.Captcha.Service.{renderer}
use captchapi.Captcha.Laws.Total.{DrawingLaws}
use captchapi.Captcha.Laws.Generated.{unambiguous}
use captchapi.Captcha.Laws.Draws.{write_characters-source}
use captchapi.Captcha.Laws.Service.{created_solution-submittable}
use captchapi.Tests.Thousandths.{thousandths, counting, lawful}
use captchapi.Tests.Sessions.{params}
use captchapi.Tests.{toy, start}

-- Width, height, and how often it was drawn on.
pub record Sheet : Type 0 where
  pub wide : ℕ
  pub high : ℕ
  pub strokes : ℕ

abbrev stroke : Sheet → Sheet
stroke s = record s { strokes = s.strokes + 1 }

-- A font that has every letter, of as many rows, or none.
abbrev paper : Option ℕ → Drawing thousandths thousandths
paper glyph = record {
  ascent = λ px. px.y;
  Mask = ℕ;
  mask_height = λ m. m;
  rasterize_char = λ ch px. glyph;
  displace_and_rotate = λ m displacement angle. m + 2;
  outline = λ m width. m;
  fade = λ m from to angle. m;
  to_rgb = λ hsl. (1, 2, 3);
  Image = Sheet;
  width = λ s. s.wide;
  height = λ s. s.high;
  from_pixel = λ w h c. record { wide = w; high = h; strokes = 0 };
  composite_mask = λ s m x y c. stroke s;
  composite_mask_gradient = λ s m x y near far angle. stroke s;
  blur_over_mask = λ s m x y sigma. stroke s;
  draw_cubic_bezier_curve = λ s a b c d colour. stroke s;
  draw_hollow_circle = λ s center radius colour. stroke s;
  gaussian_noise = λ s mean deviation seed. stroke s;
  salt_and_pepper_noise = λ s rate seed. stroke s;
}

abbrev letters : Drawing thousandths thousandths
letters = paper (some 30)

abbrev letters_keep_size : DrawingLaws letters
letters_keep_size = record {
  from_pixel_size = λ w h c. (refl, refl);
  composite_mask_size = λ i m x y c. (refl, refl);
  composite_mask_gradient_size = λ i m x y near far angle. (refl, refl);
  blur_over_mask_size = λ i m x y sigma. (refl, refl);
  draw_cubic_bezier_curve_size = λ i a b c d colour. (refl, refl);
  draw_hollow_circle_size = λ i center radius c. (refl, refl);
  gaussian_noise_size = λ i mean deviation seed. (refl, refl);
  salt_and_pepper_noise_size = λ i rate seed. (refl, refl);
}

-- Three letters, two lines and two circles, and at the least difficulty nothing else.
easiest :
    generate thousandths thousandths counting letters 3 1 100 50 false 7
    ≡ some (("9AB", record { wide = 100; high = 50; strokes = 7 }), 49)
unfolding generate ◌>>=◌ random_text clamp_ℕ get_rnd char_at when◌then◌else◌ for_difficulty shaped
    intensity_of no_deformation draw_shading spread
easiest = refl

write_characters-source_example :
    source (
      write_characters thousandths thousandths counting letters "aB3"
        (record { wide = 220; high = 120; strokes = 0 })
        true
        (for_difficulty thousandths 10)
        7)
    ≡ source (
        write_characters thousandths thousandths counting
          (paper none)
          "aB3"
          (record { wide = 50; high = 30; strokes = 0 })
          true
          (for_difficulty thousandths 10)
          7)
write_characters-source_example =
    write_characters-source counting letters (paper none) "aB3"
      (record { wide = 220; high = 120; strokes = 0 })
      (record { wide = 50; high = 30; strokes = 0 }) true (for_difficulty thousandths 10) 7

abbrev encode : Sheet → ℕ → Option (List ℕ)
encode s quality = some (255 ∷ 216 ∷ s.strokes ∷ quality ∷ [])

abbrev rendering : Services
rendering = record {
  primitives = toy;
  solution_key = 1 ∷ 2 ∷ [];
  image_key = 3 ∷ [];
  generate = renderer thousandths thousandths counting letters encode (λ n. n + 40);
}

abbrev picture : List ℕ
picture = 255 ∷ 216 ∷ 12 ∷ 40 ∷ []

abbrev made : CreatedSession
made = record {
  session =
      session_new (pos 1000) "6b1f" (hash_solution toy (1 ∷ 2 ∷ []) "6b1f" "kmnpqr")
        (2 ∷ replicate 12 7 ++ replicate 16 0 ++ picture) 300 params.difficulty params.width
        params.height params.dark_mode;
  solution = "kmnpqr";
  image_bytes = picture;
}

made_ok : (create_session_orchestrated rendering params start).0 ≡ ok made
unfolding create_session_orchestrated renderer encrypt select ◌>>=◌ generate random_text clamp_ℕ
    get_rnd char_at when◌then◌else◌ for_difficulty shaped intensity_of deformed draw_shading clamp
    spread
made_ok = refl

created_solution-submittable_example :
    (pos (length (codes "kmnpqr")) ≡ pos 6)
    × (all unambiguous (codes "kmnpqr") ≡ true)
    × (validate_solution "kmnpqr" ≡ valid tt)
created_solution-submittable_example =
    created_solution-submittable lawful letters_keep_size encode rendering (λ n. n + 40) params 300
      start made refl (omega arith) made_ok
