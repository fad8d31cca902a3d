-- ===== src/Captcha/Laws/Service.antt =====
-- src/services/captcha/mod.rs: what a validated request is answered with, and what becomes of it in
-- a session.
use captchapi.Captcha.Laws.Runs.{clamp_ℕ_bounds}
use captchapi.Prelude.{
  pos_part, neg_part, sym, ℕ, ◌^◌, ◌≤◌, ◌≡◌, refl, ◌∙◌, ap, ℤ, pos, negsuc, ◌≤ℤ◌, String, true,
  Option, none, some, List, [], ◌∷◌, arith, length, all, codes, len, len-ascii, ltb, ◌<◌,
}
use native.Mathlib.Nat.{mod-eq_of_lt}
use captchapi.Error.{ok}
use captchapi.Validation.{ValidatedSessionParams, valid, validate_solution}
use captchapi.Validation.Laws.{IsAcceptable}
use captchapi.World.{World}
use captchapi.Sessions.{Services, CreatedSession, create_session_orchestrated}
use captchapi.Captcha.Floats.{Floats, Rng, FloatLaws}
use captchapi.Captcha.Draw.{Runs, pure-Runs, bind-Runs}
use captchapi.Captcha.Generator.{clamp_ℕ}
use captchapi.Captcha.Render.{Drawing}
use captchapi.Captcha.Service.{
  as_unsigned, generate_captcha, with_text, answer_of, renderer, image_to_jpeg_bytes,
}
use captchapi.Captcha.Laws.Total.{DrawingLaws}
use captchapi.Captcha.Laws.Generated.{unambiguous, generate-returns}

-- A number in range is converted to itself, and stays as it is where it is clamped.
as_unsigned-id :
    (bits : ℕ) (n : ℤ) (top : ℕ)
    → pos 0 ≤ℤ n
    → n ≤ℤ pos top
    → top < 2 ^ bits
    → pos (as_unsigned bits n) ≡ n
unfolding as_unsigned
as_unsigned-id bits (pos n) top low high h = grind (arith, mod-eq_of_lt)
as_unsigned-id bits (negsuc n) top low high h = absurd (omega arith)

clamp_ℕ-id : (n low high : ℕ) → low ≤ n → n ≤ high → clamp_ℕ n low high ≡ n
unfolding clamp_ℕ
clamp_ℕ-id n low high h k = ground arith

-- A number in the range of requests, which lies within the limits of the renderer.
kept :
    (bits : ℕ) (n : ℤ) (low high least most : ℕ)
    → pos low ≤ℤ n
    → n ≤ℤ pos high
    → least ≤ low
    → high ≤ most
    → most < 2 ^ bits
    → pos (clamp_ℕ (as_unsigned bits n) least most) ≡ n
kept bits n low high least most above below wider higher h =
    let same = as_unsigned-id bits n high (omega arith) below (omega arith) in
    let value : as_unsigned bits n ≡ pos_part n = ap pos_part same in
    let natural : 0 ≡ neg_part n = ap neg_part same in
    ap pos (clamp_ℕ-id _ least most (omega arith) (omega arith)) ∙ same

unambiguous-ascii : (cs : List ℕ) → all unambiguous cs ≡ true → all (λ c. ltb c 0x80) cs ≡ true
unambiguous-ascii [] h = refl
unambiguous-ascii (c ∷ cs) h = ground (arith, unambiguous-ascii cs)

short-accepted : (text : String) → len text ≤ 100 → validate_solution text ≡ valid tt
unfolding validate_solution
short-accepted text h = ground arith

module _ {f double : Floats} {r : Rng f} {d : Drawing f double} (laws : FloatLaws f r)
    (sizes : DrawingLaws d) (encode : d.Image → ℕ → Option (List ℕ))
    (p : ValidatedSessionParams) where
  -- What is drawn for a request: a text of the length that was asked for, that is readable and that
  -- the check of submitted solutions lets through, and a picture of the size that was asked for,
  -- encoded at the quality that was asked for.
  pub record IsDrawn (answer : Option (String × List ℕ)) : Type 0 where
    pub text : String
    pub image : d.Image
    pub quality : ℕ
    pub counted : pos (length (codes text)) ≡ p.length
    pub readable : all unambiguous (codes text) ≡ true
    pub submittable : validate_solution text ≡ valid tt
    pub wide : pos (d.width image) ≡ p.width
    pub high : pos (d.height image) ≡ p.height
    pub at_quality : pos quality ≡ p.compression
    pub encoded : answer ≡ with_text f double r d encode text (encode image quality)

  module _ {max_ttl : ℕ} (range : IsAcceptable max_ttl p) where
    with_text-IsDrawn :
        (text : String) (image : d.Image)
        → length (codes text) ≡ clamp_ℕ (as_unsigned 64 p.length) 1 32
        → all unambiguous (codes text) ≡ true
        → d.width image ≡ clamp_ℕ (as_unsigned 32 p.width) 30 2000
        → d.height image ≡ clamp_ℕ (as_unsigned 32 p.height) 20 2000
        → IsDrawn (with_text f double r d encode text (encode image (as_unsigned 8 p.compression)))
    with_text-IsDrawn text image counted readable wide high = record {
      text = text;
      image = image;
      quality = as_unsigned 8 p.compression;
      counted =
          ap pos counted
          ∙ kept 64 p.length 1 20 1 32 range.length.0 range.length.1 (omega arith) (omega arith)
              (omega arith);
      readable = readable;
      submittable = short-accepted text (
          omega (
            arith,
            len-ascii text (unambiguous-ascii (codes text) readable),
            counted,
            clamp_ℕ_bounds (as_unsigned 64 p.length) 1 32 (omega arith),
          ));
      wide =
          ap pos wide
          ∙ kept 32 p.width 50 1000 30 2000 range.width.0 range.width.1 (omega arith) (omega arith)
              (omega arith);
      high =
          ap pos high
          ∙ kept 32 p.height 30 500 20 2000 range.height.0 range.height.1 (omega arith)
              (omega arith) (omega arith);
      at_quality =
          as_unsigned-id 8 p.compression 100 (omega (arith, range.compression.0))
            range.compression.1 (omega arith);
      encoded = refl;
    }

    -- A request that is valid is always answered, whatever is drawn at random: see `IsDrawn`.
    pub generate_captcha-IsDrawn :
        Runs
          (generate_captcha f double r d encode p.length p.difficulty p.width p.height p.dark_mode
            p.compression)
          IsDrawn
    unfolding generate_captcha image_to_jpeg_bytes
    generate_captcha-IsDrawn =
        bind-Runs (generate-returns laws sizes _ _ _ _ p.dark_mode)
          λ drawn good. pure-Runs _ (with_text-IsDrawn drawn.0 drawn.1 good.0 good.1 good.2 good.3)

    -- The same of the renderer that a session is created with: it does not panic.
    pub renderer-IsDrawn :
        (states : ℕ → r.State) (n : ℕ) → IsDrawn (renderer f double r d encode states n p)
    unfolding renderer answer_of
    renderer-IsDrawn states n =
        let (answer, t, returned, drawn) = generate_captcha-IsDrawn.at (states n) in
        rw returned drawn

module _ (s : Services) (params : ValidatedSessionParams) (w : World) where
  -- A session that was created shows what the renderer answered first.
  created-generate :
      (c : CreatedSession)
      → (create_session_orchestrated s params w).0 ≡ ok c
      → s.generate w.step params ≡ some (c.solution, c.image_bytes)
  unfolding create_session_orchestrated
  created-generate c made = ground arith

module _ {f double : Floats} {r : Rng f} {d : Drawing f double} (laws : FloatLaws f r)
    (sizes : DrawingLaws d) (encode : d.Image → ℕ → Option (List ℕ)) where
  with_text-some :
      {text solution : String} {image_bytes : List ℕ} (encoded : Option (List ℕ))
      → some (solution, image_bytes) ≡ with_text f double r d encode text encoded
      → (solution ≡ text) × (encoded ≡ some image_bytes)
  unfolding with_text
  with_text-some none h = cc
  with_text-some (some b) h = (cc, cc)

  -- A session that is created for a valid request, with the renderer as its source: the solution has
  -- the length that was asked for, holds only characters that cannot be taken for another, and is
  -- let through by the check of submitted solutions.
  pub created_solution-submittable :
      (s : Services) (states : ℕ → r.State) (params : ValidatedSessionParams) (max_ttl : ℕ)
      (w : World) (c : CreatedSession)
      → s.generate ≡ renderer f double r d encode states
      → IsAcceptable max_ttl params
      → (create_session_orchestrated s params w).0 ≡ ok c
      → (pos (length (codes c.solution)) ≡ params.length)
        × (all unambiguous (codes c.solution) ≡ true)
        × (validate_solution c.solution ≡ valid tt)
  created_solution-submittable s states params max_ttl w c by range made =
      let answered : some (c.solution, c.image_bytes)
          ≡ renderer f double r d encode states w.step params =
        sym (created-generate s params w c made) ∙ ap (λ g. g w.step params) by in
      let drawn = renderer-IsDrawn laws sizes encode params range states w.step in
      let same = (with_text-some (encode drawn.image drawn.quality) (answered ∙ drawn.encoded)).0 in
      rw same (drawn.counted, drawn.readable, drawn.submittable)
