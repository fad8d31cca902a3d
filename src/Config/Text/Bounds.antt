-- ===== src/Config/Text/Bounds.antt =====
-- What is read as a number of a type is in the range of the type.
use captchapi.Prelude.{
  ℕ, zero, suc, ◌+◌, ◌-◌, ◌*◌, ◌≤◌, ◌<◌, ℤ, pos_part, neg_part, String, Option, none, some, ◌≡◌,
  refl, arith,
}
use captchapi.Config.Text.{scan, magnitude, parse_ℕ, parse_int, negate, positive}
use Prim.Native.Char.{code}

scan_bound : (max : ℕ) (s : String) (n m : ℕ) → n ≤ max → scan max s n ≡ some m → m ≤ max
unfolding scan
scan_bound max String.[] n m h e = ground arith
scan_bound max (String.◌∷◌ c s) n m h e =
    ground (arith, scan_bound max s (n * 10 + (code c - 48)) m)

magnitude_bound : (max : ℕ) (s : String) (m : ℕ) → magnitude max s ≡ some m → m ≤ max
magnitude_bound max String.[] m e = ground arith
magnitude_bound max (String.◌∷◌ c s) m e = scan_bound max (String.◌∷◌ c s) 0 m (omega arith) e

pub parse_ℕ_bound : (max : ℕ) (s : String) (m : ℕ) → parse_ℕ max s ≡ some m → m ≤ max
unfolding parse_ℕ
parse_ℕ_bound max String.[] m e = ground arith
parse_ℕ_bound max (String.◌∷◌ c s) m e =
    ground (arith, magnitude_bound max s m, magnitude_bound max (String.◌∷◌ c s) m)

-- The integer is of a signed type that starts at minus `half`.
abbrev pub IsSigned : ℕ → ℤ → Type 0
IsSigned half z = (pos_part z < half) × (neg_part z ≤ half)

negate_bound :
    (half : ℕ) (m : Option ℕ) (z : ℤ)
    → 0 < half
    → ((n : ℕ) → m ≡ some n → n ≤ half)
    → negate m ≡ some z
    → IsSigned half z
negate_bound half none z h b e = absurd (ground arith)
negate_bound half (some zero) z h b e = ground arith
negate_bound half (some (suc n)) z h b e = ground (arith, b (suc n) refl)

positive_bound :
    (half : ℕ) (m : Option ℕ) (z : ℤ)
    → 0 < half
    → ((n : ℕ) → m ≡ some n → n ≤ half - 1)
    → positive m ≡ some z
    → IsSigned half z
positive_bound half none z h b e = absurd (ground arith)
positive_bound half (some n) z h b e = ground (arith, b n refl)

pub parse_int_bound :
    (half : ℕ) (s : String) (z : ℤ) → 0 < half → parse_int half s ≡ some z → IsSigned half z
unfolding parse_int
parse_int_bound half String.[] z h e = absurd (ground arith)
parse_int_bound half (String.◌∷◌ c s) z h e = ground (
  arith,
  negate_bound half (magnitude half s) z h (magnitude_bound half s),
  positive_bound half (magnitude (half - 1) s) z h (magnitude_bound (half - 1) s),
  positive_bound half (magnitude (half - 1) (String.◌∷◌ c s)) z h
      (magnitude_bound (half - 1) (String.◌∷◌ c s)),
)
