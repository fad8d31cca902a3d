-- ===== src/Prelude/Text.antt =====
-- Text: its code points, and its bytes in UTF-8, which is what `len` and `as_bytes` of Rust's `str`
-- count and give.
use Prim.Native.Nat.{ℕ, ◌+◌, ◌/◌, ◌%◌}
use Prim.Native.Char.{code}
use Prim.Native.String.{String}
use mathlib.Core.List.{List, [], ◌∷◌, ◌++◌}
use captchapi.Prelude.Tests.{ltb, if◌then◌else◌}
use mathlib.Core.Path.{◌≡◌, refl}
use mathlib.Core.Bool.{true}
use native.Mathlib.Omega.{arith}
use captchapi.Prelude.Lists.{length, all}

-- The code points of a text (`chars`).
abbrev pub codes : String → List ℕ
codes String.[] = []
codes (String.◌∷◌ c s) = code c ∷ codes s

-- The UTF-8 encoding of a code point.
utf8 : ℕ → List ℕ
utf8 c =
    if ltb c 0x80
    then c ∷ []
    else if ltb c 0x800
    then (0xc0 + c / 64) ∷ (0x80 + c % 64) ∷ []
    else if ltb c 0x10000
    then (0xe0 + c / 4096) ∷ (0x80 + c / 64 % 64) ∷ (0x80 + c % 64) ∷ []
    else (0xf0 + c / 262144) ∷ (0x80 + c / 4096 % 64) ∷ (0x80 + c / 64 % 64) ∷ (0x80 + c % 64) ∷ []

encode : List ℕ → List ℕ
encode [] = []
encode (c ∷ cs) = utf8 c ++ encode cs

unfoldable pub as_bytes : String → List ℕ
unfolding encode utf8
as_bytes s = encode (codes s)

unfoldable pub len : String → ℕ
unfolding as_bytes
len s = length (as_bytes s)

length-encode : (cs : List ℕ) → all (λ c. ltb c 0x80) cs ≡ true → length (encode cs) ≡ length cs
unfolding encode utf8
length-encode [] h = refl
length-encode (c ∷ cs) h =
    let small : ltb c 0x80 ≡ true = ground arith in
    let rest : all (λ x. ltb x 0x80) cs ≡ true = ground arith in
    rw small (omega (arith, length-encode cs rest))

-- An ASCII text has as many bytes as characters.
pub len-ascii : (s : String) → all (λ c. ltb c 0x80) (codes s) ≡ true → len s ≡ length (codes s)
unfolding len as_bytes
len-ascii s h = length-encode (codes s) h
