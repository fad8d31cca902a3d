-- ===== src/Captcha/Floats.antt =====
-- The numbers and the randomness of the renderer (services/captcha): `f32`, as a record of the
-- operations that the source uses, and the generator of the `rand` crate, with what is relied on.
use captchapi.Prelude.{
  ◌⊎◌, ℕ, ◌*◌, ◌^◌, ◌≤◌, ◌<◌, ◌≡◌, ℤ, Bool, true, false, Option, some, if◌then◌else◌,
}

pub record Floats : Type 1 where
  pub F : Type 0
  -- `lit a b` is the literal with the digits a, b of them behind the point.
  pub lit : ℕ → ℕ → F
  -- `n as f32`
  pub of_ℕ : ℕ → F
  -- `n as f32` on i32
  pub of_ℤ : ℤ → F
  pub infinity : F
  pub add : F → F → F
  pub sub : F → F → F
  pub mul : F → F → F
  pub div : F → F → F
  pub powf : F → F → F
  pub exp : F → F
  pub min : F → F → F
  pub max : F → F → F
  pub rem_euclid : F → F → F
  pub neg : F → F
  pub sin : F → F
  pub cos : F → F
  pub abs : F → F
  pub floor : F → F
  pub ceil : F → F
  pub round : F → F
  -- `x as i32`, `x as u32` and `x as usize`, which saturate
  pub to_u32 : F → ℕ
  pub to_i32 : F → ℤ
  pub to_usize : F → ℕ
  pub lt : F → F → Bool
  pub le : F → F → Bool
  pub eq : F → F → Bool
  pub tau : F

module _ (f : Floats) where
  open f use {F, lit, lt}

  abbrev pub zero_f : F
  zero_f = lit 0 1

  abbrev pub one_f : F
  one_f = lit 10 1

  -- `f32::clamp`
  unfoldable pub clamp : F → F → F → F
  clamp x low high = if lt x low then low else if lt high x then high else x

-- `rand`: a generator in a state. `between` is `random_range(low..high)`, which panics on a range
-- that is empty; `up_to n` is `random_range(0..=n)`, and `word` is `random::<u64>()`.
pub record Rng (f : Floats) : Type 1 where
  pub State : Type 0
  pub up_to : ℕ → State → ℕ × State
  pub between : f.F → f.F → State → Option (f.F × State)
  pub word : State → ℕ × State

-- What IEEE 754 and `rand` promise, as far as the renderer relies on it. `Within n x`: x is a
-- number, and its absolute value is at most n.
pub record FloatLaws (f : Floats) (r : Rng f) : Type 1 where
  pub Within : ℕ → f.F → Type 0
  pub within_lit : (a b n : ℕ) → a < 10_000 → b ≤ 3 → a ≤ n * 10 ^ b → Within n (f.lit a b)
  pub within_mul :
      (m n : ℕ) (x y : f.F) → Within m x → Within n y → m * n < 2 ^ 24 → Within (m * n) (f.mul x y)
  pub within_neg : (n : ℕ) (x : f.F) → Within n x → Within n (f.neg x)
  pub within_tau : Within 7 f.tau
  -- Short literals are ordered as they read.
  pub lit_order :
      (a b c d : ℕ)
      → a < 10_000
      → b ≤ 3
      → c < 10_000
      → d ≤ 3
      → a * 10 ^ d < c * 10 ^ b
      → (f.lt (f.lit a b) (f.lit c d) ≡ true) × (f.le (f.lit c d) (f.lit a b) ≡ false)
  pub tau_positive : f.lt (f.lit 0 1) f.tau ≡ true
  pub neg_lt : (n : ℕ) (x : f.F) → Within n x → f.le x (f.lit 0 1) ≡ false → f.lt (f.neg x) x ≡ true
  -- A conversion truncates.
  pub to_usize_le : (n : ℕ) (x : f.F) → n < 2 ^ 24 → f.lt x (f.of_ℕ n) ≡ true → f.to_usize x ≤ n
  pub to_usize_floor_le :
      (n : ℕ) (x : f.F) → n < 2 ^ 24 → f.le (f.of_ℕ n) x ≡ false → f.to_usize (f.floor x) ≤ n
  pub within_of_ℕ : (n : ℕ) → n < 2 ^ 24 → Within n (f.of_ℕ n)
  pub lt_of_not_le :
      (m n : ℕ) (x y : f.F) → Within m x → Within n y → f.le y x ≡ false → f.lt x y ≡ true
  pub lt_irrefl : (x : f.F) → f.lt x x ≡ false
  -- The ten powers that the intensities are, and the opacities that they lead to.
  pub no_intensity : f.eq (f.powf (f.div (f.of_ℕ 0) (f.lit 90 1)) (f.lit 6 1)) (f.lit 0 1) ≡ true
  pub intensity_within :
      (k : ℕ) → 0 < k → k ≤ 9 → Within 1 (f.powf (f.div (f.of_ℕ k) (f.lit 90 1)) (f.lit 6 1))
  pub opacity_below_one :
      (k : ℕ) (lowest : f.F)
      → 0 < k
      → k ≤ 9
      → (lowest ≡ f.lit 6 1) ⊎ (lowest ≡ f.lit 35 2)
      → let intensity = f.powf (f.div (f.of_ℕ k) (f.lit 90 1)) (f.lit 6 1) in
        let floor =
          f.sub
            (f.lit 10 1)
            (f.mul (f.sub (f.lit 10 1) lowest) (clamp f intensity (f.lit 0 1) (f.lit 10 1))) in
        Within 1 floor × (f.lt floor (f.lit 10 1) ≡ true)
  pub up_to_le : (n : ℕ) (s : r.State) → (r.up_to n s).0 ≤ n
  -- The ends of the range are numbers, and it is not empty.
  pub between_some :
      (n : ℕ) (low high : f.F) (s : r.State)
      → Within n low
      → Within n high
      → f.lt low high ≡ true
      → (v : f.F) × (t : r.State) × (r.between low high s ≡ some (v, t))
