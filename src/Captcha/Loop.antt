-- ===== src/Captcha/Loop.antt =====
-- Loops over the pixels of a buffer, which may panic (`none`), and the rules that they obey.
use captchapi.Prelude.{
  ℕ, zero, suc, ◌+◌, ◌*◌, ◌<◌, ◌≡◌, refl, Option, none, some, List, [], ◌∷◌, arith, length,
  get_elem?,
}

infixl 10 ◌>>=◌
abbrev pub ◌>>=◌ : {A B : Type 0} → Option A → (A → Option B) → Option B
none >>= f = none
some a >>= f = f a

module _ {A : Type 0} where
  -- `v[i] = a`, which panics out of bounds.
  abbrev pub set? : List A → ℕ → A → Option (List A)
  set? [] i a = none
  set? (x ∷ xs) zero a = some (a ∷ xs)
  set? (x ∷ xs) (suc i) a = elim (set? xs i a) [ none ↦ none | some ys ↦ some (x ∷ ys) ]

  pub get_elem?-some : (xs : List A) (i : ℕ) → i < length xs → (a : A) × (get_elem? xs i ≡ some a)
  get_elem?-some [] i h = absurd (omega arith)
  get_elem?-some (x ∷ xs) zero h = (x, refl)
  get_elem?-some (x ∷ xs) (suc i) h = get_elem?-some xs i (omega arith)

  pub set?-some :
      (xs : List A) (i : ℕ) (a : A)
      → i < length xs
      → (ys : List A) × (set? xs i a ≡ some ys) × (length ys ≡ length xs)
  set?-some [] i a h = absurd (omega arith)
  set?-some (x ∷ xs) zero a h = (a ∷ xs, refl, refl)
  set?-some (x ∷ xs) (suc i) a h =
      let (ys, e, same) = set?-some xs i a (omega arith) in (x ∷ ys, rw e refl, omega (arith, same))

module _ {S : Type 0} where
  -- `for i in first..first + n`
  unfoldable pub each : ℕ → ℕ → (ℕ → S → Option S) → S → Option S
  each zero i body s = some s
  each (suc n) i body s = body i s >>= λ t. each n (suc i) body t

  -- `for y in 0..height { for x in 0..width { … } }`
  unfoldable pub pixels : ℕ → ℕ → (ℕ → ℕ → S → Option S) → S → Option S
  unfolding each
  pixels width height body = each height 0 (λ y. each width 0 (λ x. body x y))

  pub each-keeps :
      (P : S → Type 0) (body : ℕ → S → Option S) (n i j : ℕ)
      → i + n ≡ j
      → ((k : ℕ) (s : S) → k < j → P s → (t : S) × (body k s ≡ some t) × P t)
      → (s : S) → P s
      → (t : S) × (each n i body s ≡ some t) × P t
  unfolding each
  each-keeps P body zero i j e keeps s p = (s, refl, p)
  each-keeps P body (suc n) i j e keeps s p =
      let (t, went, q) = keeps i s (omega arith) p in
      let (u, rest, r) = each-keeps P body n (suc i) j (omega arith) keeps t q in
      (u, rw went rest, r)

  pub pixels-keeps :
      (P : S → Type 0) (body : ℕ → ℕ → S → Option S) (width height : ℕ)
      → ((x y : ℕ) (s : S) → x < width → y < height → P s → (t : S) × (body x y s ≡ some t) × P t)
      → (s : S) → P s
      → (t : S) × (pixels width height body s ≡ some t) × P t
  unfolding pixels
  pixels-keeps P body width height keeps =
      each-keeps P _ height 0 height (omega arith)
        λ y s hy. each-keeps P _ width 0 width (omega arith) (λ x t hx. keeps x y t hx hy) s

-- A pixel of a row-major buffer lies in it.
pub index-lt : (x y width height : ℕ) → x < width → y < height → y * width + x < width * height
index-lt x y width height hx hy = grind arith
