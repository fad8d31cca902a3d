-- ===== src/Crypto/Laws.antt =====
-- What the hashing of solutions and the encryption of images guarantee.
use captchapi.Prelude.{
  ℕ, ◌≡◌, ◌≢◌, refl, String, true, some, List, [], ◌∷◌, ◌++◌, length, take-append_length,
  drop-append_length, length-append, as_bytes, arith, All, Option-cases, inl, inr, sym, ◌⊎◌,
}
use captchapi.Error.{ok}
use mathlib.Core.Path.{ap₂}
use native.Mathlib.Decide.{ℕ_discrete}
use mathlib.Core.List.{append-nil}
use captchapi.Crypto.{
  Primitives, concat, hmac_sha256, encrypt, decrypt, session_key, solution_message, verify_solution,
  hash_solution, xor_pad, pad_key,
}

module _ (c : Primitives) (key : List ℕ) where
  decrypt-sealed :
      (nonce : List ℕ) (id : String) (image ct : List ℕ)
      → length nonce ≡ 12
      → c.seal (session_key c key id) nonce (as_bytes id) image ≡ some ct
      → decrypt c key id (2 ∷ nonce ++ ct) ≡ ok image
  unfolding decrypt
  decrypt-sealed nonce id image ct twelve e = ground (
    arith,
    take-append_length nonce ct 12 twelve,
    drop-append_length nonce ct 12 twelve,
    length-append nonce ct,
    c.length-seal (session_key c key id) nonce (as_bytes id) image ct e,
    c.unseal-seal (session_key c key id) nonce (as_bytes id) image ct e,
  )

  -- An image that was encrypted for a session, under any nonce of twelve bytes, is decrypted for
  -- that session and key to the same bytes.
  pub decrypt-encrypt :
      (nonce : List ℕ) (id : String) (image stored : List ℕ)
      → length nonce ≡ 12
      → encrypt c key nonce id image ≡ ok stored
      → decrypt c key id stored ≡ ok image
  unfolding encrypt
  decrypt-encrypt nonce id image stored twelve made =
      elim (Option-cases (c.seal (session_key c key id) nonce (as_bytes id) image)) [
        | inl e ↦ ground arith
        | inr (ct, e) ↦
            let layout : stored ≡ 2 ∷ nonce ++ ct = ground arith in
            rw layout (decrypt-sealed nonce id image ct twelve e)
      ]

-- Two inputs with one digest.
abbrev pub Collision : (List ℕ → List ℕ) → Type 0
Collision h = (x : List ℕ) × (y : List ℕ) × (x ≢ y) × (h x ≡ h y)

abbrev pub NoZero : List ℕ → Type 0
NoZero = All (λ b. b ≢ 0)

append_cancel : (xs : List ℕ) {ys zs : List ℕ} → xs ++ ys ≡ xs ++ zs → ys ≡ zs
append_cancel [] e = e
append_cancel (x ∷ xs) e = append_cancel xs (cc)

-- A zero byte after a text without one marks where the text ends.
zero_separates :
    (xs xs' : List ℕ) {ys ys' : List ℕ}
    → NoZero xs
    → NoZero xs'
    → xs ++ 0 ∷ ys ≡ xs' ++ 0 ∷ ys'
    → (xs ≡ xs') × (ys ≡ ys')
zero_separates [] [] h h' e = (refl, cc)
zero_separates [] (x ∷ xs') h h' e = absurd (h'.0 (sym cc))
zero_separates (x ∷ xs) [] h h' e = absurd (h.0 cc)
zero_separates (x ∷ xs) (x' ∷ xs') {ys} {ys'} h h' e =
    let head : x ≡ x' = cc in
    let rest : xs ++ 0 ∷ ys ≡ xs' ++ 0 ∷ ys' = cc in
    let (p, q) = zero_separates xs xs' h.1 h'.1 rest in (ap₂ ◌∷◌ head p, q)

bytes_discrete : Discrete (List ℕ)
bytes_discrete = hlevel ℕ_discrete

-- Equal digests come from equal inputs, or are a collision.
digest_cases : (h : List ℕ → List ℕ) (x y : List ℕ) → h x ≡ h y → (x ≡ y) ⊎ Collision h
digest_cases h x y e = elim (bytes_discrete x y) [ yes p ↦ inl p | no p ↦ inr (x, y, p, e) ]

module _ (c : Primitives) where
  -- Equal MACs come from equal messages, or show a collision of SHA-256.
  hmac_cases :
      (key : List ℕ) (m m' : List (List ℕ))
      → hmac_sha256 c key m ≡ hmac_sha256 c key m'
      → (concat m ≡ concat m') ⊎ Collision c.sha256
  unfolding hmac_sha256
  hmac_cases key m m' e = elim (digest_cases c.sha256 _ _ e) [
    | inr clash ↦ inr clash
    | inl outer ↦
        elim (digest_cases c.sha256 _ _ (append_cancel (xor_pad 0x5c (pad_key c key)) outer)) [
          | inr clash ↦ inr clash
          | inl inner ↦ inl (append_cancel (xor_pad 0x36 (pad_key c key)) inner)
        ]
  ]

  -- A solution is accepted against the hash that was stored for it, in its session.
  pub verify_solution-hash_solution :
      (key : List ℕ) (id solution : String)
      → verify_solution c key id solution (hash_solution c key id solution) ≡ true
  unfolding verify_solution
  verify_solution-hash_solution key id solution = (c.ct_eq_iff _ _).1 refl

  -- If a guess for one session is accepted against a hash that was stored for some session, then
  -- both sessions and both solutions are the same, byte for byte, or SHA-256 has a collision.
  -- Session IDs hold no zero byte, and `hex_encode` gives different texts for different digests.
  pub verify_solution_binds :
      ((x y : List ℕ) → as_bytes (c.hex_encode x) ≡ as_bytes (c.hex_encode y) → x ≡ y)
      → (key : List ℕ) (id id' guess solution : String) → NoZero (as_bytes id)
      → NoZero (as_bytes id')
      → verify_solution c key id guess (hash_solution c key id' solution) ≡ true
      → ((as_bytes id ≡ as_bytes id') × (as_bytes guess ≡ as_bytes solution)) ⊎ Collision c.sha256
  unfolding verify_solution concat
  verify_solution_binds hex key id id' guess solution h h' accepted =
      let same = hex _ _ ((c.ct_eq_iff _ _).0 accepted) in
      elim (hmac_cases key (solution_message c id guess) (solution_message c id' solution) same) [
        | inr clash ↦ inr clash
        | inl framed ↦
            let (p, q) = zero_separates (as_bytes id) (as_bytes id') h h' framed in
            inl (p, simp append-nil at q)
      ]
