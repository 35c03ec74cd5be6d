-- ===== src/Handshake/Messages.antt =====
-- The messages of the handshake (rekaserdoba/src/main.rs): `encode_handshake`, `seal_handshake`,
-- `open_handshake`, `assigned_parameters`, and the keys and digests they need. `hash_parts`,
-- `transcript_next` and `hmac_bytes` of that file are those of rekey.rs once more, and one model
-- stands for both.
pub mod RoundTrip
use reka_serdoba.Common.{
  ℕ, ◌+◌, ◌-◌, ◌^◌, ◌%◌, not, ◌||◌, List, [], ◌∷◌, ◌++◌, length, get_or, drop, take, replicate,
  slice, ltb, ◌==◌, if◌then◌else◌, Result, ok, err, ◌>>=◌, ◌>>◌, bail_if, ok_or,
}
use reka_serdoba.Common.Words.{to_be, from_be}
use reka_serdoba.Errors.{
  Error, handshake_message_too_large, invalid_iv_length, handshake_plaintext_too_large,
  handshake_encryption_failed, invalid_encrypted_handshake_header,
  invalid_encrypted_handshake_length, handshake_authentication_failed,
  hkdf_label_or_context_too_long, hkdf_expand_failed,
}
use reka_serdoba.Crypto.{Crypto}
use reka_serdoba.Record.Keys.{codes, full_label, hkdf_info, nonce}
use reka_serdoba.Rekey.Auth.{hash_parts}
use reka_serdoba.Carrier.{max_encrypted_handshake}

abbrev pub max_clear_handshake : ℕ
max_clear_handshake = 1536

-- `encode_handshake`
unfoldable pub encode_handshake : ℕ → List ℕ → Result Error (List ℕ)
encode_handshake message_type payload =
    if ltb max_clear_handshake (length payload)
    then err handshake_message_too_large
    else ok (message_type ∷ (to_be 4 (length payload) ++ payload))

-- `packet_nonce`
unfoldable pub packet_nonce : List ℕ → ℕ → Result Error (List ℕ)
packet_nonce iv number = if length iv == 12 then ok (nonce iv number) else err invalid_iv_length

-- The eight bytes before a ciphertext, whose length is cast to 16 bits.
unfoldable pub handshake_header : ℕ → ℕ → ℕ → List ℕ
handshake_header message_type sequence ciphertext_len =
    message_type ∷ 0 ∷ (to_be 4 sequence ++ to_be 2 (ciphertext_len % 2 ^ 16))

-- `assigned_parameters`
unfoldable pub assigned_parameters : List ℕ → List ℕ → ℕ → List ℕ
assigned_parameters session_id ipv4 session_lifetime_seconds =
    session_id
    ++ (to_be 4 session_lifetime_seconds
        ++ (to_be 2 1280
            ++ (to_be 2 4096
                ++ (to_be 4 (2 ^ 24)
                    ++ (to_be 4 1800
                        ++ (24 ∷ (ipv4 ++ (0 ∷ (replicate 16 0 ++ (0 ∷ to_be 2 0))))))))))

module _ (c : Crypto) where
  -- `seal_handshake`
  unfoldable pub seal_handshake : List ℕ → List ℕ → ℕ → ℕ → List ℕ → List ℕ → Result Error (List ℕ)
  seal_handshake key iv message_type sequence transcript plaintext = do
    bail_if (ltb 4096 (length plaintext)) handshake_plaintext_too_large
    let header = handshake_header message_type sequence (length plaintext + 16)
    number ← packet_nonce iv sequence
    ciphertext ←
        ok_or (c.aead_encrypt key number (header ++ transcript) plaintext)
          handshake_encryption_failed
    ok (header ++ ciphertext)

  -- `open_handshake`
  unfoldable pub open_handshake : List ℕ → List ℕ → ℕ → ℕ → List ℕ → List ℕ → Result Error (List ℕ)
  open_handshake key iv message_type sequence transcript encoded = do
    bail_if
        (ltb (length encoded) 24
          || not (get_or encoded 0 0 == message_type)
          || not (get_or encoded 1 0 == 0)
          || not (from_be (slice 2 6 encoded) == sequence))
        invalid_encrypted_handshake_header
    bail_if
        (ltb max_encrypted_handshake (from_be (slice 6 8 encoded))
          || not (from_be (slice 6 8 encoded) == length encoded - 8))
        invalid_encrypted_handshake_length
    number ← packet_nonce iv sequence
    ok_or (c.aead_decrypt key number (take 8 encoded ++ transcript) (drop 8 encoded))
        handshake_authentication_failed

  -- `expand_label` of main.rs; the length is cast to 16 bits.
  unfoldable pub expand_handshake_label : List ℕ → List ℕ → List ℕ → ℕ → Result Error (List ℕ)
  expand_handshake_label kdf label context len = do
    bail_if (ltb 255 (length (full_label label)) || ltb 65535 (length context))
        hkdf_label_or_context_too_long
    ok_or (c.hkdf_expand kdf (hkdf_info (full_label label) context (len % 2 ^ 16)) len)
        hkdf_expand_failed

  unfoldable pub transcript_initial : List ℕ
  transcript_initial = c.sha256 (codes "RekaSerdoba/1 transcript")

  -- `key_id`: the first 16 bytes of a digest.
  unfoldable pub key_id : List ℕ → List ℕ → List ℕ
  key_id label public_key = slice 0 16 (hash_parts c (label ∷ public_key ∷ []))
