-- ===== src/Crypto.antt =====
-- The cryptographic libraries that the program calls (sha2, hmac, hkdf, chacha20poly1305,
-- ed25519-dalek, x25519-dalek), as an interface. Keys, digests and messages are byte strings, and
-- `none` is the library's error. What the program relies on is stated as separate laws.
use reka_serdoba.Common.{ℕ, ◌+◌, ◌≡◌, Bool, Option, some, List, length}

pub record Crypto : Type 0 where
  -- `Sha256::digest`
  pub sha256 : List ℕ → List ℕ
  -- `HmacSha256::new_from_slice(key)`, `update(message)`, `finalize()`
  pub hmac_sha256 : List ℕ → List ℕ → Option (List ℕ)
  -- `Hkdf::new(Some(salt), key)`
  pub hkdf_new : List ℕ → List ℕ → List ℕ
  -- `Hkdf::from_prk`: the pseudorandom key that `hkdf_expand` takes.
  pub hkdf_from_prk : List ℕ → Option (List ℕ)
  -- `hkdf.expand(info, output)` for an output of the given length.
  pub hkdf_expand : List ℕ → List ℕ → ℕ → Option (List ℕ)
  -- `ChaCha20Poly1305`: key, nonce, associated data, message.
  pub aead_encrypt : List ℕ → List ℕ → List ℕ → List ℕ → Option (List ℕ)
  pub aead_decrypt : List ℕ → List ℕ → List ℕ → List ℕ → Option (List ℕ)
  -- `VerifyingKey::verify`: key, message, signature.
  pub ed25519_verify : List ℕ → List ℕ → List ℕ → Bool
  -- `SigningKey::sign`: key, message.
  pub ed25519_sign : List ℕ → List ℕ → List ℕ
  -- `PublicKey::from(&secret)` and `secret.diffie_hellman(&public)`.
  pub x25519_public : List ℕ → List ℕ
  pub x25519_diffie_hellman : List ℕ → List ℕ → List ℕ

-- What chacha20poly1305 documents: a ciphertext is 16 bytes longer than its message, and decrypts
-- under the same key, nonce and associated data.
pub record AeadLaws (c : Crypto) : Type 0 where
  pub encrypt_len :
      (key nonce aad msg out : List ℕ)
      → c.aead_encrypt key nonce aad msg ≡ some out
      → length out ≡ length msg + 16
  pub decrypt_encrypt :
      (key nonce aad msg out : List ℕ)
      → c.aead_encrypt key nonce aad msg ≡ some out
      → c.aead_decrypt key nonce aad out ≡ some msg

-- What hmac documents: every key is accepted, and a tag of SHA-256 has 32 bytes.
pub record HmacLaws (c : Crypto) : Type 0 where
  pub tag : List ℕ → List ℕ → List ℕ
  pub made : (key msg : List ℕ) → c.hmac_sha256 key msg ≡ some (tag key msg)
  pub tag_len : (key msg : List ℕ) → length (tag key msg) ≡ 32
