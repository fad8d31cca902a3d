-- ===== src/Captcha/Laws/Generated.antt =====
-- src/services/captcha/generator.rs: what `generate` returns.
use captchapi.Prelude.{
  ℕ, zero, suc, ◌-◌, ◌≤◌, ◌<◌, ◌≡◌, refl, String, Bool, true, ◌&&◌, ◌||◌, not, some, List, [], ◌∷◌,
  arith, length, all, any, ◌==◌, leb, codes, get_elem?,
}
use Prim.Native.Char.{code}
use captchapi.Captcha.Floats.{Floats, Rng, FloatLaws}
use captchapi.Captcha.Draw.{Runs, pure-Runs, lift-Runs, bind-Runs}
use captchapi.Captcha.Generator.{chars, basic_char, clamp_ℕ, get_rnd, char_at, random_text}
use captchapi.Captcha.Render.{Drawing, generate}
use captchapi.Captcha.Laws.Runs.{clamp_ℕ_bounds, for_difficulty-IsUsable}
use captchapi.Captcha.Laws.Total.{DrawingLaws, render-Runs}

-- An ASCII letter or digit that cannot be taken for another one: not 0, 1, I, L, O, i, l or o.
abbrev pub is_alphanumeric : ℕ → Bool
is_alphanumeric c =
    (leb b'0' c && leb c b'9') || (leb b'A' c && leb c b'Z') || (leb b'a' c && leb c b'z')

abbrev pub unambiguous : ℕ → Bool
unambiguous c = is_alphanumeric c && not (any (λ x. x == c) (codes "01ILOilo"))

module _ {ℓ} {A : Type ℓ} where
  get_elem?-all :
      (p : A → Bool) (xs : List A) (i : ℕ)
      → all p xs ≡ true
      → i < length xs
      → (a : A) × (get_elem? xs i ≡ some a) × (p a ≡ true)
  get_elem?-all p [] i h lt = absurd (omega arith)
  get_elem?-all p (x ∷ xs) zero h lt = (x, refl, ground arith)
  get_elem?-all p (x ∷ xs) (suc i) h lt = get_elem?-all p xs i (ground arith) (omega arith)

codes-chars : (p : ℕ → Bool) (s : String) → all p (codes s) ≡ all (λ c. p (code c)) (chars s)
codes-chars p String.[] = refl
codes-chars p (String.◌∷◌ c s) = rw (codes-chars p s)

length-codes : (s : String) → length (codes s) ≡ length (chars s)
length-codes String.[] = refl
length-codes (String.◌∷◌ c s) = rw (length-codes s)

module _ {f : Floats} {r : Rng f} (laws : FloatLaws f r) where
  open laws use {up_to_le}
  open f use {F}

  char_at-Runs :
      (i : ℕ) → i ≤ length basic_char - 1 → Runs (char_at f r i) (λ c. unambiguous (code c) ≡ true)
  unfolding char_at
  char_at-Runs i h =
      let (c, found, good) =
        get_elem?-all (λ c. unambiguous (code c)) basic_char i refl (omega arith) in
      rw found (pure-Runs c good)

  random_text-Runs :
      (n : ℕ)
      → Runs
          (random_text f r n)
          (λ text. (length (codes text) ≡ n) × (all unambiguous (codes text) ≡ true))
  unfolding random_text get_rnd
  random_text-Runs zero = pure-Runs _ (refl, refl)
  random_text-Runs (suc n) =
      bind-Runs
        (lift-Runs {P = λ i. i ≤ length basic_char - 1} _ (up_to_le (length basic_char - 1)))
        λ i small. bind-Runs (char_at-Runs i small) λ c good.
          bind-Runs (random_text-Runs n)
            λ rest good_rest. pure-Runs _ (omega (arith, good_rest.0), rw good good_rest.1)

  module _ {double : Floats} {d : Drawing f double} (sizes : DrawingLaws d) where
    -- With routines that draw, and keep the size of the canvas, `generate` returns.
    pub generate-returns :
        (count difficulty width height : ℕ) (dark_mode : Bool)
        → Runs (generate f double r d count difficulty width height dark_mode) (λ drawn.
          (length (codes drawn.0) ≡ clamp_ℕ count 1 32)
          × (all unambiguous (codes drawn.0) ≡ true)
          × (d.width drawn.1 ≡ clamp_ℕ width 30 2000)
          × (d.height drawn.1 ≡ clamp_ℕ height 20 2000))
    unfolding generate
    generate-returns count difficulty width height dark_mode =
        let limits = clamp_ℕ_bounds count 1 32 (omega arith) in
        bind-Runs (random_text-Runs (clamp_ℕ count 1 32)) λ text good.
          bind-Runs
            (render-Runs laws sizes text difficulty width height dark_mode _
              (omega (arith, length-codes text, good.0, limits.1))
              (for_difficulty-IsUsable laws difficulty))
            λ image size. pure-Runs _ (good.0, good.1, size.0, size.1)
