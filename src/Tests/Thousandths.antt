-- ===== src/Tests/Thousandths.antt =====
-- The numbers of the renderer at concrete inputs: thousandths with a sign, and a source of random
-- numbers that counts.
use captchapi.Prelude.{
  ℕ, zero, suc, ◌+◌, ◌-◌, ◌*◌, ◌/◌, ◌%◌, ◌^◌, ◌≤◌, ◌<◌, ◌≡◌, refl, ◌⊎◌, inl, inr, pos, Bool, true,
  false, not, ◌&&◌, none, some, arith, ltb, leb, if◌then◌else◌, ℤ, negsuc,
}
use native.Mathlib.Nat.{mul-le-mul}
use captchapi.Captcha.Floats.{Floats, Rng, FloatLaws, clamp}

-- The sign, and the size in thousandths.
pub data Milli : Type 0 where
  milli : Bool → ℕ → Milli

abbrev pub size : Milli → ℕ
size (milli negative n) = n

abbrev pub above : Milli → ℕ
above (milli negative n) = if negative then 0 else n

abbrev pub below : Milli → ℕ
below (milli negative n) = if negative then n else 0

abbrev pub less : Milli → Milli → Bool
less a b = ltb (above a + below b) (above b + below a)

abbrev pub most : Milli → Milli → Bool
most a b = leb (above a + below b) (above b + below a)

abbrev pub diff : ℕ → ℕ → Milli
diff a b = if leb b a then milli false (a - b) else milli true (b - a)

abbrev pub exclusive : Bool → Bool → Bool
exclusive a b = if a then not b else b

abbrev pub product : Milli → Milli → Milli
product (milli s a) (milli t b) = milli (exclusive s t) (a * b / 1000)

abbrev pub quotient : Milli → Milli → Milli
quotient (milli s a) (milli t b) = milli (exclusive s t) (a * 1000 / b)

abbrev pub opposite : Milli → Milli
opposite (milli s a) = milli (not s) a

abbrev pub of_integer : ℤ → Milli
of_integer (pos n) = milli false (n * 1000)
of_integer (negsuc n) = milli true (n * 1000 + 1000)

abbrev pub thousandths : Floats
thousandths = record {
  F = Milli;
  lit = λ a b. milli false (a * 1000 / 10 ^ b);
  of_ℕ = λ n. milli false (n * 1000);
  of_ℤ = of_integer;
  add = λ x y. diff (above x + above y) (below x + below y);
  sub = λ x y. diff (above x + below y) (below x + above y);
  mul = product;
  div = quotient;
  powf = λ x y. x;
  exp = λ x. x;
  max = λ x y. if less x y then y else x;
  neg = opposite;
  sin = λ x. x;
  cos = λ x. milli false 1000;
  abs = λ x. milli false (size x);
  floor = λ x. milli false (above x / 1000 * 1000);
  ceil = λ x. milli false ((above x + 999) / 1000 * 1000);
  min = λ x y. if less x y then x else y;
  rem_euclid = λ x y. milli false (above x % 1000);
  infinity = milli false (2 ^ 40);
  round = λ x. x;
  to_i32 = λ x. pos (above x / 1000);
  to_u32 = λ x. above x / 1000;
  to_usize = λ x. above x / 1000;
  lt = less;
  le = most;
  eq = λ x y. most x y && most y x;
  tau = milli false 6283;
}

abbrev pub counting : Rng thousandths
counting = record {
  State = ℕ;
  up_to = λ n s. (s % (n + 1), s + 1);
  between = λ low high s. if less low high then some (low, s + 1) else none;
  word = λ s. (s, s + 1);
}

within_lit : (a b n : ℕ) → a < 10_000 → b ≤ 3 → a ≤ n * 10 ^ b → a * 1000 / 10 ^ b ≤ n * 1000
within_lit a zero n h k l = omega arith
within_lit a (suc zero) n h k l = omega arith
within_lit a (suc (suc zero)) n h k l = omega arith
within_lit a (suc (suc (suc zero))) n h k l = omega arith
within_lit a (suc (suc (suc (suc b)))) n h k l = absurd (omega arith)

within_mul : (m n a b : ℕ) → a ≤ m * 1000 → b ≤ n * 1000 → a * b / 1000 ≤ m * n * 1000
within_mul m n a b h k =
    let bound : a * b ≤ (m * 1000) * (n * 1000) = mul-le-mul h k in
    let regroup : (m * 1000) * (n * 1000) ≡ m * n * 1000000 = grind arith in
    omega (arith, bound, regroup)

within_product :
    (m n : ℕ) (x y : Milli)
    → size x ≤ m * 1000
    → size y ≤ n * 1000
    → size (product x y) ≤ m * n * 1000
within_product m n (milli s a) (milli t b) h k = within_mul m n a b h k

by_digit : (P : ℕ → Type 0) → P 0 → P 1 → P 2 → P 3 → (b : ℕ) → b ≤ 3 → P b
by_digit P p0 p1 p2 p3 zero h = p0
by_digit P p0 p1 p2 p3 (suc zero) h = p1
by_digit P p0 p1 p2 p3 (suc (suc zero)) h = p2
by_digit P p0 p1 p2 p3 (suc (suc (suc zero))) h = p3
by_digit P p0 p1 p2 p3 (suc (suc (suc (suc b)))) h = absurd (omega arith)

abbrev InOrder : ℕ → ℕ → ℕ → ℕ → Type 0
InOrder a c b d = a * 10 ^ d < c * 10 ^ b → a * 1000 / 10 ^ b < c * 1000 / 10 ^ d

in_order : (a c b d : ℕ) → b ≤ 3 → d ≤ 3 → InOrder a c b d
in_order a c b d hb hd =
    by_digit (λ x. InOrder a c x d)
      (by_digit (InOrder a c 0) (λ h. omega arith) (λ h. omega arith) (λ h. omega arith)
        (λ h. omega arith) d hd)
      (by_digit (InOrder a c 1) (λ h. omega arith) (λ h. omega arith) (λ h. omega arith)
        (λ h. omega arith) d hd)
      (by_digit (InOrder a c 2) (λ h. omega arith) (λ h. omega arith) (λ h. omega arith)
        (λ h. omega arith) d hd)
      (by_digit (InOrder a c 3) (λ h. omega arith) (λ h. omega arith) (λ h. omega arith)
        (λ h. omega arith) d hd)
      b hb

ordered :
    (a b c d : ℕ)
    → b ≤ 3
    → d ≤ 3
    → a * 10 ^ d < c * 10 ^ b
    → (less (milli false (a * 1000 / 10 ^ b)) (milli false (c * 1000 / 10 ^ d)) ≡ true)
      × (most (milli false (c * 1000 / 10 ^ d)) (milli false (a * 1000 / 10 ^ b)) ≡ false)
ordered a b c d hb hd h = ground (arith, in_order a c b d hb hd h)

size-opposite : (n : ℕ) (x : Milli) → size x ≤ n → size (opposite x) ≤ n
size-opposite n (milli s a) h = h

opposite-less : (x : Milli) → most x (milli false 0) ≡ false → less (opposite x) x ≡ true
opposite-less (milli true a) h = ground arith
opposite-less (milli false a) h = ground arith

less_irreflexive : (x : Milli) → less x x ≡ false
less_irreflexive x = ground arith

less_total : (x y : Milli) → most y x ≡ false → less x y ≡ true
less_total x y h = ground arith

truncates : (n : ℕ) (x : Milli) → less x (milli false (n * 1000)) ≡ true → above x / 1000 ≤ n
truncates n x h = ground arith

opacity :
    (k : ℕ) (lowest : Milli)
    → 0 < k
    → k ≤ 9
    → (lowest ≡ milli false 600) ⊎ (lowest ≡ milli false 350)
    → let floor =
        diff
          (1000
            + below (
                product (diff (1000 + below lowest) (0 + above lowest)) (
                  clamp thousandths
                    (milli false (k * 1000 * 1000 / 9000))
                    (milli false 0)
                    (milli false 1000))))
          (0
            + above (
                product (diff (1000 + below lowest) (0 + above lowest)) (
                  clamp thousandths
                    (milli false (k * 1000 * 1000 / 9000))
                    (milli false 0)
                    (milli false 1000)))) in
      (size floor ≤ 1 * 1000) × (less floor (milli false 1000) ≡ true)
unfolding clamp
opacity k lowest low high (inl e) = rw e (ground arith)
opacity k lowest low high (inr e) = rw e (ground arith)

floors :
    (n : ℕ) (x : Milli) → most (milli false (n * 1000)) x ≡ false → above x / 1000 * 1000 / 1000 ≤ n
floors n x h = ground arith

pub lawful : FloatLaws thousandths counting
lawful = record {
  Within = λ n x. size x ≤ n * 1000;
  within_lit = within_lit;
  within_mul = λ m n x y h k small. within_product m n x y h k;
  within_neg = λ n x h. size-opposite (n * 1000) x h;
  within_tau = omega arith;
  lit_order = λ a b c d ha hb hc hd h. ordered a b c d hb hd h;
  tau_positive = refl;
  neg_lt = λ n x h k. opposite-less x k;
  to_usize_le = λ n x small h. truncates n x h;
  to_usize_floor_le = λ n x small h. floors n x h;
  within_of_ℕ = λ n small. omega arith;
  lt_of_not_le = λ m n x y h k l. less_total x y l;
  lt_irrefl = less_irreflexive;
  no_intensity = refl;
  intensity_within = λ k low high. omega arith;
  opacity_below_one = opacity;
  up_to_le = λ n s. omega arith;
  between_some = λ n low high s hl hh h. (low, s + 1, rw h);
}
