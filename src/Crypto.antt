-- ===== src/Crypto.antt =====
-- The cryptography that the services call and do not implement (sha2, hex, subtle,
-- chacha20poly1305), as a record of its operations with what their documentation promises, and the
-- services built on it: services/hmac.rs, solution_hash.rs, image_cipher.rs and auth.rs.
-- Bytes are numbers.
pub mod Laws
use captchapi.Prelude.{
  ℕ, ◌+◌, ◌-◌, ◌≡◌, ◌↔◌, String, Bool, true, Option, none, some, List, [], ◌∷◌, ◌++◌, ltb, ◌==◌,
  length, replicate, take, drop, as_bytes, if◌then◌else◌,
}
use captchapi.Error.{
  Result, ok, err, internal, encrypt_failed, stored_too_short, unsupported_version, decrypt_failed,
}
use Prim.Native.Nat.{bit_xor}

pub record Primitives : Type 0 where
  pub sha256 : List ℕ → List ℕ
  pub hex_encode : List ℕ → String
  pub ct_eq : List ℕ → List ℕ → Bool
  -- key, nonce, associated data, message
  pub seal : List ℕ → List ℕ → List ℕ → List ℕ → Option (List ℕ)
  pub unseal : List ℕ → List ℕ → List ℕ → List ℕ → Option (List ℕ)
  -- `ConstantTimeEq` is equality.
  pub ct_eq_iff : (a b : List ℕ) → (ct_eq a b ≡ true) ↔ (a ≡ b)
  -- A ciphertext opens, under what it was made with, to its message.
  pub unseal-seal :
      (k n aad m : List ℕ) (c : List ℕ) → seal k n aad m ≡ some c → unseal k n aad c ≡ some m
  -- A ciphertext is the message's length and the tag of 16 bytes.
  pub length-seal :
      (k n aad m : List ℕ) (c : List ℕ) → seal k n aad m ≡ some c → length c ≡ length m + 16

-- The first loop of `hmac_sha256`, on one pad: every byte of the pad is XORed with the key's.
unfoldable pub xor_pad : ℕ → List ℕ → List ℕ
xor_pad pad [] = []
xor_pad pad (b ∷ key) = bit_xor pad b ∷ xor_pad pad key

-- The second loop: `update` appends.
unfoldable pub concat : List (List ℕ) → List ℕ
concat [] = []
concat (part ∷ parts) = part ++ concat parts

module _ (c : Primitives) where
  open c use {sha256, hex_encode, ct_eq, seal, unseal}

  -- The key brought to the block size of 64: digested if longer, and filled up with zeros.
  unfoldable pub pad_key : List ℕ → List ℕ
  pad_key key =
      let k = if ltb 64 (length key) then sha256 key else key in k ++ replicate (64 - length k) 0

  unfoldable pub hmac_sha256 : List ℕ → List (List ℕ) → List ℕ
  unfolding pad_key xor_pad concat
  hmac_sha256 key parts =
      let padded_key = pad_key key in
      let inner = sha256 (xor_pad 0x36 padded_key ++ concat parts) in
      sha256 (xor_pad 0x5c padded_key ++ inner)

  -- `SolutionHasher::new` and `ImageCipher::new`: a digest of the domain and the secret.
  unfoldable pub derive_key : String → String → List ℕ
  derive_key domain secret = sha256 (as_bytes domain ++ as_bytes secret)

  unfoldable pub solution_hasher_new : String → List ℕ
  unfolding derive_key
  solution_hasher_new secret = derive_key "captchapi:solution-hash:v1" secret

  unfoldable pub image_cipher_new : String → List ℕ
  unfolding derive_key
  image_cipher_new secret = derive_key "captchapi:image-encryption:v1" secret

  -- What `SolutionHasher::hash` digests: the session ID, a zero byte, and the solution.
  abbrev pub solution_message : String → String → List (List ℕ)
  solution_message session_id solution = as_bytes session_id ∷ (0 ∷ []) ∷ as_bytes solution ∷ []

  -- `SolutionHasher::hash`
  unfoldable pub hash_solution : List ℕ → String → String → String
  hash_solution key session_id solution =
      hex_encode (hmac_sha256 key (solution_message session_id solution))

  -- `SolutionHasher::verify`
  unfoldable pub verify_solution : List ℕ → String → String → String → Bool
  unfolding hash_solution
  verify_solution key session_id solution stored_hash =
      ct_eq (as_bytes (hash_solution key session_id solution)) (as_bytes stored_hash)

  -- `AuthService::hash_api_key`
  unfoldable pub hash_api_key : String → String → String
  hash_api_key salt api_key = hex_encode (sha256 (as_bytes api_key ++ as_bytes salt))

  -- The key of `ImageCipher::session_cipher`.
  unfoldable pub session_key : List ℕ → String → List ℕ
  session_key master_key session_id =
      hmac_sha256 master_key
        (as_bytes "captchapi:image-key:v1" ∷ (0 ∷ []) ∷ as_bytes session_id ∷ [])

  -- `ImageCipher::encrypt`, with the nonce that it drew: version, nonce, ciphertext.
  unfoldable pub encrypt : List ℕ → List ℕ → String → List ℕ → Result (List ℕ)
  unfolding session_key
  encrypt master_key nonce session_id image_bytes =
      elim (seal (session_key master_key session_id) nonce (as_bytes session_id) image_bytes) [
        | none ↦ err (internal encrypt_failed)
        | some ciphertext ↦ ok (2 ∷ nonce ++ ciphertext)
      ]

  -- The end of `decrypt`: the ciphertext is opened.
  abbrev pub opened : Option (List ℕ) → Result (List ℕ)
  opened none = err (internal decrypt_failed)
  opened (some image) = ok image

  -- `stored[0] != FORMAT_VERSION`, and what follows; the length is checked before.
  abbrev pub decrypt_layout : List ℕ → String → List ℕ → Result (List ℕ)
  decrypt_layout master_key session_id [] = err (internal stored_too_short)
  decrypt_layout master_key session_id (version ∷ rest) =
      if version == 2
      then opened (
          unseal (session_key master_key session_id) (take 12 rest) (as_bytes session_id)
            (drop 12 rest))
      else err (internal unsupported_version)

  -- `ImageCipher::decrypt`
  unfoldable pub decrypt : List ℕ → String → List ℕ → Result (List ℕ)
  decrypt master_key session_id stored =
      if ltb (length stored) (1 + 12 + 16)
      then err (internal stored_too_short)
      else decrypt_layout master_key session_id stored
