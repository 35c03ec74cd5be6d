-- ===== src/Examples/Toy.antt =====
-- A stand-in for the cryptographic libraries, with which the model can be run.
use reka_serdoba.Common.{
  ℕ, suc, ◌+◌, ◌%◌, ◌^◌, ◌<◌, refl, map, length-take, ◌-◌, ◌≡◌, ap, subst, true, some, List, [],
  ◌∷◌, ◌++◌, length, length-append, take, take-append, replicate, arith,
}
use reka_serdoba.Common.Words.{AreBytes}
use reka_serdoba.Crypto.{Crypto, AeadLaws}
use reka_serdoba.Handshake.Exchange.Outcome.{PlaintextLaws}

-- The first 32 bytes of a message, filled up.
abbrev pub cut : ℕ → List ℕ → List ℕ
cut n m = take n (m ++ replicate n 0)

-- Encryption appends a tag of zeros, and signatures are always valid.
abbrev pub toy : Crypto
toy = record {
  sha256 = cut 32;
  hmac_sha256 = λ key m. some (cut 32 m);
  hkdf_new = λ salt key. cut 32 (salt ++ key);
  hkdf_from_prk = λ prk. some prk;
  hkdf_expand = λ prk info n. some (cut n info);
  aead_encrypt = λ key nonce aad m. some (m ++ replicate 16 0);
  aead_decrypt = λ key nonce aad m. some (take (length m - 16) m);
  ed25519_verify = λ key m signature. true;
  ed25519_sign = λ key m. cut 64 m;
  x25519_public = λ secret. secret;
  x25519_diffie_hellman = λ secret public. cut 32 (1 ∷ public);
}

-- Constant answers, for long runs.
abbrev pub steady : Crypto
steady = record {
  sha256 = λ m. replicate 32 6;
  hmac_sha256 = λ key m. some (replicate 32 4);
  hkdf_new = λ salt key. replicate 32 5;
  hkdf_from_prk = λ prk. some prk;
  hkdf_expand = λ prk info n. some (replicate n 1);
  aead_encrypt = λ key nonce aad m. some [];
  aead_decrypt = λ key nonce aad m. some [];
  ed25519_verify = λ key m signature. true;
  ed25519_sign = λ key m. [];
  x25519_public = λ secret. secret;
  x25519_diffie_hellman = λ secret public. public;
}

encrypted_len :
    (m out : List ℕ) → some (m ++ replicate 16 0) ≡ some out → length out ≡ length m + 16
encrypted_len m out e = ground (arith, length-append {0} m (replicate 16 0))

decrypted :
    (m out : List ℕ)
    → some (m ++ replicate 16 0) ≡ some out
    → some (take (length out - 16) out) ≡ some m
decrypted m out e = ap some (
    subst (λ (o : List ℕ). take (length o - 16) o ≡ m) same
      (take-append (length (m ++ replicate 16 0) - 16) m (replicate 16 0)
        (omega (arith, length-append {0} m (replicate 16 0)))))
  where
    same : m ++ replicate 16 0 ≡ out
    same = cc e

pub toy_laws : AeadLaws toy
toy_laws = record {
  encrypt_len = λ key nonce aad m out e. encrypted_len m out e;
  decrypt_encrypt = λ key nonce aad m out e. decrypted m out e;
}

-- A cipher of bytes, with constant answers elsewhere.
abbrev pub octets : Crypto
octets = record steady {
  aead_encrypt = λ key nonce aad m. some m;
  aead_decrypt = λ key nonce aad m. some (map (λ b. b % 256) (take 4096 m));
  ed25519_sign = λ key m. replicate 64 7;
}

map-AreBytes : (m : List ℕ) → AreBytes (map (λ b. b % 256) m)
map-AreBytes [] = tt
map-AreBytes (b ∷ m) = (omega arith, map-AreBytes m)

length-map : (m : List ℕ) → length (map (λ b. b % 256) m) ≡ length m
length-map [] = refl
length-map (b ∷ m) = ap suc (length-map m)

found : {m out : List ℕ} → some m ≡ some out → m ≡ out
found e = cc e

pub octets_laws : PlaintextLaws octets
octets_laws = record {
  octets = λ key nonce aad m out e. subst AreBytes (found e) (map-AreBytes (take 4096 m));
  short = λ key nonce aad m out e.
      subst (λ (o : List ℕ). length o < 2 ^ 64) (found e)
        (omega (arith, length-map (take 4096 m), length-take {0} 4096 m));
}
