-- ===== src/Rekey/Auth.antt =====
-- The helpers at the end of rekaserdoba/src/rekey.rs: inputs, digests and labelled keys.
use reka_serdoba.Common.{
  ℕ, ◌^◌, ◌%◌, List, [], ◌∷◌, ◌++◌, length, ltb, Result, ◌>>=◌, ◌>>◌, bail_if, ok_or,
}
use reka_serdoba.Common.Words.{to_be}
use reka_serdoba.Errors.{
  Error, invalid_epoch_secret, hkdf_expand_failed, invalid_hmac_key, int_conversion,
}
use reka_serdoba.Crypto.{Crypto}
use reka_serdoba.Record.Keys.{codes, full_label, hkdf_info, fixed}

unfoldable pub update_input : List ℕ → ℕ → ℕ → List ℕ → List ℕ → List ℕ
update_input session_id current_epoch next_epoch nonce transcript =
    codes "RekaSerdoba/1 epoch update"
    ++ (session_id ++ (to_be 4 current_epoch ++ (to_be 4 next_epoch ++ (nonce ++ transcript))))

abbrev pub concat : List (List ℕ) → List ℕ
concat [] = []
concat (part ∷ parts) = part ++ concat parts

module _ (c : Crypto) where
  unfoldable pub hash_parts : List (List ℕ) → List ℕ
  hash_parts parts = c.sha256 (concat parts)

  unfoldable pub transcript_next : List ℕ → List ℕ → List ℕ
  transcript_next previous encoded = hash_parts (previous ∷ encoded ∷ [])

  unfoldable pub hmac_bytes : List ℕ → List ℕ → Result Error (List ℕ)
  hmac_bytes key message = ok_or (c.hmac_sha256 key message) invalid_hmac_key

  unfoldable pub hmac_label : List ℕ → List ℕ → List ℕ → Result Error (List ℕ)
  hmac_label key label context = hmac_bytes key (label ++ context)

  -- The length is cast to 16 bits, and the lengths of label and context must fit theirs.
  unfoldable pub expand_label : List ℕ → List ℕ → List ℕ → ℕ → Result Error (List ℕ)
  expand_label kdf label context len = do
    bail_if (ltb 255 (length (full_label label))) int_conversion
    bail_if (ltb 65535 (length context)) int_conversion
    ok_or (c.hkdf_expand kdf (hkdf_info (full_label label) context (len % 2 ^ 16)) len)
        hkdf_expand_failed

  unfoldable pub confirmation_key : List ℕ → List ℕ → ℕ → Result Error (List ℕ)
  confirmation_key secret session_id epoch = do
    kdf ← ok_or (c.hkdf_from_prk secret) invalid_epoch_secret
    output ← expand_label kdf (codes "epoch confirmation") (session_id ++ to_be 4 epoch) 32
    fixed 32 output
