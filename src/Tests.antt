-- ===== src/Tests.antt =====
-- Concrete inputs for the tests: small cryptography that meets its description, a world, and the
-- services on them.
mod Sessions
mod Endpoints
mod Access
mod Settings
mod Configuration
mod Admin
mod Thousandths
mod Captcha
mod Serving
mod Masks
use captchapi.Prelude.{
  zero, sym, ap, ◌∙◌, if◌then◌else◌, ◌≡◌, refl, ℕ, suc, ◌+◌, ◌%◌, ◌↔◌, ℤ, pos, String, Bool, true,
  false, ◌&&◌, Option, some, none, List, [], ◌∷◌, ◌++◌, length, drop, replicate, ◌==◌, arith,
  as_bytes, map, sym, ◌∙◌, ap,
}
use captchapi.Crypto.{Primitives}
use captchapi.World.{World, Outside}
use captchapi.Sessions.{Services}
use Prim.Native.Char.{Char}

abbrev sum : List ℕ → ℕ
sum [] = 0
sum (x ∷ xs) = x + sum xs

abbrev digest : List ℕ → List ℕ
digest xs = (sum xs % 251) ∷ []

-- Every byte as so many letters `a`, and a `b`.
abbrev letters : ℕ → String → String
letters zero s = String.◌∷◌ "b" s
letters (suc n) s = String.◌∷◌ "a" (letters n s)

abbrev tally : List ℕ → String
tally [] = ""
tally (n ∷ ns) = letters n (tally ns)

-- The bytes back from the tally, `k` letters being read.
abbrev untally : List ℕ → ℕ → List ℕ
untally [] k = []
untally (x ∷ t) k = if x == 97 then untally t (suc k) else k ∷ untally t 0

untally-letters :
    (n : ℕ) (s : String) (k : ℕ)
    → untally (as_bytes (letters n s)) k ≡ (k + n) ∷ untally (as_bytes s) 0
unfolding as_bytes
untally-letters zero s k = ground arith
untally-letters (suc n) s k = ground (arith, untally-letters n s (suc k))

untally-tally : (ns : List ℕ) → untally (as_bytes (tally ns)) 0 ≡ ns
unfolding as_bytes
untally-tally [] = refl
untally-tally (n ∷ ns) = ground (arith, untally-letters n (tally ns) 0, untally-tally ns)

pub tally_injective : (x y : List ℕ) → as_bytes (tally x) ≡ as_bytes (tally y) → x ≡ y
tally_injective x y e = sym (untally-tally x) ∙ ap (λ s. untally s 0) e ∙ untally-tally y

abbrev same_bytes : List ℕ → List ℕ → Bool
same_bytes [] [] = true
same_bytes (x ∷ xs) (y ∷ ys) = let rest = same_bytes xs ys in x == y && rest
same_bytes _ _ = false

pub same_bytes_iff : (a b : List ℕ) → (same_bytes a b ≡ true) ↔ (a ≡ b)
same_bytes_iff [] [] = ground arith
same_bytes_iff [] (y ∷ ys) = ground arith
same_bytes_iff (x ∷ xs) [] = ground arith
same_bytes_iff (x ∷ xs) (y ∷ ys) = ground (arith, same_bytes_iff xs ys)

-- A tag of sixteen zeros before the message.
abbrev tagged : List ℕ → Option (List ℕ)
tagged m = some (replicate 16 0 ++ m)

pub opens_tagged : (m c : List ℕ) → tagged m ≡ some c → some (drop 16 c) ≡ some m
opens_tagged m c e = ground arith

pub length-tagged : (m c : List ℕ) → tagged m ≡ some c → length c ≡ length m + 16
length-tagged m c e = ground arith

abbrev pub toy : Primitives
toy = record {
  sha256 = digest;
  hex_encode = tally;
  ct_eq = same_bytes;
  seal = λ k n aad m. tagged m;
  unseal = λ k n aad c. some (drop 16 c);
  ct_eq_iff = same_bytes_iff;
  unseal-seal = λ k n aad m c e. opens_tagged m c e;
  length-seal = λ k n aad m c e. length-tagged m c e;
}

-- The database answers, and every interaction takes a second.
abbrev pub outside : Outside
outside = record {
  fails = λ n. false;
  now = λ n. pos 1000;
  uuid = λ n. "6b1f";
  nonce = λ n. replicate 12 7;
  alphanumeric = λ n. "Zk4";
}

abbrev pub start : World
start = record {
  outside = outside;
  step = 0;
  sessions = [];
  api_keys = [];
  settings = [];
  generations = [];
  next_generation = 1;
  session_metrics = record {
    created = 0;
    validated = 0;
    validation_failed = 0;
    deleted = 0;
    expired_cleaned = 0;
    validation_attempts = 0;
    max_attempts_exceeded = 0;
  };
  api_key_metrics = record {
    created = 0;
    deleted = 0;
    updated = 0;
    listed = 0;
    authentications = 0;
    auth_failures = 0;
  };
}

abbrev pub services : Services
services = record {
  primitives = toy;
  solution_key = 1 ∷ 2 ∷ [];
  image_key = 3 ∷ [];
  generate = λ n params. some ("x7P", 10 ∷ 20 ∷ 30 ∷ []);
}
