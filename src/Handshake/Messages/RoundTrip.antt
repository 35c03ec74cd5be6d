-- ===== src/Handshake/Messages/RoundTrip.antt =====
-- What `seal_handshake` wrote, `open_handshake` opens, under one type and one number only.
use reka_serdoba.Common.{
  ℕ, ◌+◌, ◌-◌, ◌^◌, ◌%◌, ◌≤◌, ◌<◌, ◌≡◌, ◌∙◌, sym, ap, refl, inl, inr, not, ◌||◌, List, ◌++◌,
  append_assoc, length, length-append, get_or, take, drop, take-append, drop-append, slice, ltb,
  ◌==◌, ==_iff, true, false, Bool-cases, some, Option-cases, Result, ok, arith,
}
use reka_serdoba.Common.Words.{to_be, from_be, length-to_be, from_be-to_be}
use reka_serdoba.Errors.{Error}
use reka_serdoba.Crypto.{Crypto, AeadLaws}
use reka_serdoba.Record.Keys.{nonce}
use reka_serdoba.Carrier.{max_encrypted_handshake}
use reka_serdoba.Handshake.Messages.{packet_nonce, handshake_header, seal_handshake, open_handshake}

-- The parts of a sealed message.
record IsSealed (c : Crypto) (key iv : List ℕ) (message_type sequence : ℕ)
    (transcript plaintext encoded : List ℕ) : Type 0 where
  pub ciphertext : List ℕ
  pub small : length plaintext ≤ 4096
  pub iv_len : length iv ≡ 12
  pub encrypted :
      c.aead_encrypt key
        (nonce iv sequence)
        (handshake_header message_type sequence (length plaintext + 16) ++ transcript)
        plaintext
      ≡ some ciphertext
  pub layout :
      encoded ≡ handshake_header message_type sequence (length plaintext + 16) ++ ciphertext

bytes_of : {a b : List ℕ} → Path (Result Error (List ℕ)) (ok a) (ok b) → a ≡ b
bytes_of p = cc p

module _ (c : Crypto) (key iv : List ℕ) (message_type sequence : ℕ) (transcript : List ℕ) where
  seal_handshake-IsSealed :
      (plaintext encoded : List ℕ)
      → seal_handshake c key iv message_type sequence transcript plaintext ≡ ok encoded
      → IsSealed c key iv message_type sequence transcript plaintext encoded
  unfolding seal_handshake packet_nonce
  seal_handshake-IsSealed plaintext encoded e = elim (Bool-cases (ltb 4096 (length plaintext))) [
    | inl p ↦ absurd (cc (rw (p, seal_handshake) at e))
    | inr p ↦ elim (Bool-cases (length iv == 12)) [
      | inr q ↦ absurd (cc (rw (p, seal_handshake, packet_nonce, q) at e))
      | inl q ↦
          elim (Option-cases (
            c.aead_encrypt key (nonce iv sequence)
              (handshake_header message_type sequence (length plaintext + 16) ++ transcript)
              plaintext)) [
                | inl f ↦ absurd (cc (rw (p, seal_handshake, packet_nonce, q, f) at e))
                | inr (ciphertext, f) ↦ record {
                  ciphertext = ciphertext;
                  small = ground (arith, p);
                  iv_len = (==_iff (length iv) 12).0 q;
                  encrypted = f;
                  layout = sym (bytes_of (rw (p, seal_handshake, packet_nonce, q, f) at e));
                }
              ]
    ]
  ]

  -- The header that `open_handshake` has checked.
  open_handshake_header :
      (plaintext encoded : List ℕ)
      → open_handshake c key iv message_type sequence transcript encoded ≡ ok plaintext
      → (get_or encoded 0 0 ≡ message_type) × (from_be (slice 2 6 encoded) ≡ sequence)
  unfolding open_handshake
  open_handshake_header plaintext encoded e =
      elim (Bool-cases (
        ltb (length encoded) 24
        || not (get_or encoded 0 0 == message_type)
        || not (get_or encoded 1 0 == 0)
        || not (from_be (slice 2 6 encoded) == sequence))) [
          | inl p ↦ absurd (cc (rw (p, open_handshake) at e))
          | inr p ↦ (ground (arith, p), ground (arith, p))
        ]

length-handshake_header :
    (message_type sequence n : ℕ) → length (handshake_header message_type sequence n) ≡ 8
unfolding handshake_header
length-handshake_header message_type sequence n = omega (
  arith,
  length-append {0} (to_be 4 sequence) (to_be 2 (n % 2 ^ 16)),
  length-to_be 4 sequence,
  length-to_be 2 (n % 2 ^ 16),
)

-- The fields of a header, before any bytes.
header_fields :
    (message_type sequence n : ℕ) (ys : List ℕ)
    → sequence < 256 ^ 4
    → let xs = handshake_header message_type sequence n ++ ys in
      (get_or xs 0 0 ≡ message_type)
      × (get_or xs 1 0 ≡ 0)
      × (from_be (slice 2 6 xs) ≡ sequence)
      × (from_be (slice 6 8 xs) ≡ n % 2 ^ 16)
      × (take 8 xs ≡ handshake_header message_type sequence n)
      × (drop 8 xs ≡ ys)
unfolding handshake_header slice
header_fields message_type sequence n ys lt =
    let a : List ℕ = to_be 4 sequence in
    let b : List ℕ = to_be 2 (n % 2 ^ 16) in
    let four : length a ≡ 4 = length-to_be 4 sequence in
    let two : length b ≡ 2 = length-to_be 2 (n % 2 ^ 16) in
    (
      refl,
      refl,
      ap (λ (l : List ℕ). from_be (take 4 l)) (append_assoc a b ys)
          ∙ ap from_be (take-append 4 a (b ++ ys) four)
          ∙ from_be-to_be 4 sequence lt,
      ap (λ (l : List ℕ). from_be (take 2 (drop 4 l))) (append_assoc a b ys)
          ∙ ap (λ (l : List ℕ). from_be (take 2 l)) (drop-append 4 a (b ++ ys) four)
          ∙ ap from_be (take-append 2 b ys two)
          ∙ from_be-to_be 2 (n % 2 ^ 16) (omega arith),
      take-append 8 (handshake_header message_type sequence n) ys
          (length-handshake_header message_type sequence n),
      drop-append 8 (handshake_header message_type sequence n) ys
          (length-handshake_header message_type sequence n),
    )

module _ (c : Crypto) (laws : AeadLaws c) (key iv : List ℕ) (message_type sequence : ℕ)
    (transcript : List ℕ) where
  sealed_opens :
      (plaintext encoded : List ℕ)
      → sequence < 256 ^ 4
      → IsSealed c key iv message_type sequence transcript plaintext encoded
      → open_handshake c key iv message_type sequence transcript encoded ≡ ok plaintext
  unfolding open_handshake packet_nonce
  sealed_opens plaintext encoded lt s =
      let n : ℕ = length plaintext + 16 in
      let head : List ℕ = handshake_header message_type sequence n in
      let fields = header_fields message_type sequence n s.ciphertext lt in
      let size : length s.ciphertext ≡ n =
        laws.encrypt_len key _ _ plaintext s.ciphertext s.encrypted in
      let total : length (head ++ s.ciphertext) ≡ 8 + n = omega (
        arith,
        length-append {0} head s.ciphertext,
        length-handshake_header message_type sequence n,
        size,
      ) in
      let long : ltb (length (head ++ s.ciphertext)) 24 ≡ false = ground (arith, total) in
      let is_type : (message_type == message_type) ≡ true = ground arith in
      let is_sequence : (sequence == sequence) ≡ true = ground arith in
      let cast : n % 2 ^ 16 ≡ n = omega (arith, s.small) in
      let in_limit : ltb max_encrypted_handshake n ≡ false = ground (arith, s.small) in
      let is_size : (n == length (head ++ s.ciphertext) - 8) ≡ true = ground (arith, total) in
      let twelve : (length iv == 12) ≡ true = (==_iff (length iv) 12).1 s.iv_len in
      let decrypted =
        laws.decrypt_encrypt key (nonce iv sequence) (head ++ transcript) plaintext s.ciphertext
          s.encrypted in
      ap (open_handshake c key iv message_type sequence transcript) s.layout
      ∙ rw
          (
            long, fields.0, fields.1, fields.2, fields.3, is_type, is_sequence, cast, in_limit,
            is_size, twelve, fields.4, fields.5, decrypted,
          )
          refl

  -- A handshake message that was sealed opens under the same key, type, number and transcript to its
  -- plaintext, and under no other type or number.
  pub seal_handshake-open :
      (plaintext encoded : List ℕ)
      → sequence < 256 ^ 4
      → seal_handshake c key iv message_type sequence transcript plaintext ≡ ok encoded
      → (open_handshake c key iv message_type sequence transcript encoded ≡ ok plaintext)
        × ((key' iv' : List ℕ) (type' sequence' : ℕ) (transcript' other : List ℕ)
            → open_handshake c key' iv' type' sequence' transcript' encoded ≡ ok other
            → (type' ≡ message_type) × (sequence' ≡ sequence))
  seal_handshake-open plaintext encoded lt e =
      let s =
        seal_handshake-IsSealed c key iv message_type sequence transcript plaintext encoded e in
      let fields = header_fields message_type sequence (length plaintext + 16) s.ciphertext lt in
      (
        sealed_opens plaintext encoded lt s,
        λ key' iv' type' sequence' transcript' other o.
            let found =
              open_handshake_header c key' iv' type' sequence' transcript' other encoded o in
            (
              sym found.0 ∙ ap (λ (l : List ℕ). get_or l 0 0) s.layout ∙ fields.0,
              sym found.1 ∙ ap (λ (l : List ℕ). from_be (slice 2 6 l)) s.layout ∙ fields.2,
            ),
      )
