-- ===== src/Carrier/Streams.antt =====
-- The H2 side of `Carrier::recv` (rekaserdoba/src/main.rs): messages out of a stream that comes in
-- chunks.
use reka_serdoba.Common.{
  ℕ, ◌+◌, ◌*◌, ◌≤◌, ◌<◌, ◌≡◌, refl, sym, ◌∙◌, ap, false, Bool-cases, inl, inr, Option, none, some,
  List, [], ◌∷◌, ◌++◌, append_assoc, length, length-append, take, drop, take-append,
  take-append-drop, All, append_inj, length-take, ltb, if◌then◌else◌, Result, ok, err, arith,
}
use reka_serdoba.Common.Words.{to_be, from_be, length-to_be, from_be-to_be}
use reka_serdoba.Errors.{Error, h2_carrier_buffer_limit_exceeded, truncated_h2_carrier_message}
use reka_serdoba.Carrier.{max_carrier_message, take_carrier_message}
use reka_serdoba.Carrier.Framing.{take_written}

-- `H2Carrier`: the buffer, and what its input is to give, a chunk or an error at a time.
pub record H2Carrier : Type 0 where
  pub buffered : List ℕ
  pub input : List (Result Error (List ℕ))

abbrev pub h2_buffer_limit : ℕ
h2_buffer_limit = 1024 * 1024

-- The end of the input: the carrier is closed when the buffer is empty.
abbrev pub at_end : List ℕ → Result Error (Option (List ℕ))
at_end [] = ok none
at_end (b ∷ bs) = err truncated_h2_carrier_message

-- What a turn of the loop gives when the buffer had no error: a message, or what comes later.
abbrev pub found_or :
    List ℕ
    → List (Result Error (List ℕ))
    → Result Error (Option (List ℕ))
    → H2Carrier × Result Error (Option (List ℕ))
    → H2Carrier × Result Error (Option (List ℕ))
found_or rest input (err e) later = (record { buffered = rest; input = input }, err e)
found_or rest input (ok (some message)) later =
    (record { buffered = rest; input = input }, ok (some message))
found_or rest input (ok none) later = later

-- `recv` on an H2 carrier: a message, or none when the carrier is closed.
unfoldable pub recv_h2 :
    List ℕ → List (Result Error (List ℕ)) → H2Carrier × Result Error (Option (List ℕ))
recv_h2 buffered [] =
    let (rest, taken) = take_carrier_message buffered in
    found_or rest [] taken (record { buffered = rest; input = [] }, at_end rest)
recv_h2 buffered (err e ∷ input) =
    let (rest, taken) = take_carrier_message buffered in
    found_or rest (err e ∷ input) taken (record { buffered = rest; input = input }, err e)
recv_h2 buffered (ok chunk ∷ input) =
    let (rest, taken) = take_carrier_message buffered in
    let later = recv_h2 (rest ++ chunk) input in
    found_or rest (ok chunk ∷ input) taken (
      if ltb h2_buffer_limit (length (rest ++ chunk))
      then (
        record { buffered = rest ++ chunk; input = input },
        err h2_carrier_buffer_limit_exceeded,
      )
      else later)

-- The bytes that chunks hold.
abbrev pub bytes_of : List (List ℕ) → List ℕ
bytes_of [] = []
bytes_of (chunk ∷ chunks) = chunk ++ bytes_of chunks

abbrev pub chunks_of : List (List ℕ) → List (Result Error (List ℕ))
chunks_of [] = []
chunks_of (chunk ∷ chunks) = ok chunk ∷ chunks_of chunks

abbrev pub written : List ℕ → List ℕ
written message = to_be 4 (length message) ++ message

-- A front of a stream that is long enough starts with what the stream starts with.
front :
    (us vs xs ys : List ℕ)
    → length us ≤ length xs
    → us ++ vs ≡ xs ++ ys
    → (us ++ drop (length us) xs ≡ xs) × (drop (length us) xs ++ ys ≡ vs)
front us vs xs ys long same =
    let split = take-append-drop (length us) xs in
    let (head, tail) =
      append_inj us (take (length us) xs) (omega (arith, length-take {0} (length us) xs, long))
        (same ∙ ap (λ t. t ++ ys) (sym split) ∙ append_assoc (take (length us) xs) _ ys) in
    (ap (λ t. t ++ drop (length us) xs) head ∙ split, sym tail)

-- A chunk that fits on top of an incomplete message.
abbrev pub IsChunk : List ℕ → Type 0
IsChunk chunk = length chunk + 4 + max_carrier_message ≤ h2_buffer_limit

module _ (message : List ℕ) (some_bytes : 1 ≤ length message)
    (bounded : length message ≤ max_carrier_message) where
  -- Before the message is complete nothing is taken.
  take_partial :
      (rest buffered later : List ℕ)
      → written message ++ rest ≡ buffered ++ later
      → length buffered < 4 + length message
      → take_carrier_message buffered ≡ (buffered, ok none)
  unfolding take_carrier_message
  take_partial rest buffered later same short = elim (Bool-cases (ltb (length buffered) 4)) [
    | inl less ↦ rw less refl
    | inr more ↦
        let four = length-to_be 4 (length message) in
        let (start, tail) =
          front (to_be 4 (length message)) (message ++ rest) buffered later
            (ground (arith, four, more))
            (sym (append_assoc (to_be 4 (length message)) message rest) ∙ same) in
        let value : from_be (take 4 buffered) ≡ length message =
          ap (λ t. from_be (take 4 t)) (sym start)
          ∙ ap from_be (take-append 4 (to_be 4 (length message)) _ four)
          ∙ from_be-to_be 4 (length message) (omega (arith, bounded)) in
        rw (more, value) (ground (arith, some_bytes, bounded, short))
  ]

  -- Once it is, it is taken.
  take_complete :
      (rest buffered later : List ℕ)
      → written message ++ rest ≡ buffered ++ later
      → 4 + length message ≤ length buffered
      → (left : List ℕ) × (take_carrier_message buffered ≡ (left, ok (some message)))
        × (left ++ later ≡ rest)
  take_complete rest buffered later same long =
      let len : length (written message) ≡ 4 + length message = omega (
        arith,
        length-append {0} (to_be 4 (length message)) message,
        length-to_be 4 (length message),
      ) in
      let (start, tail) =
        front (written message) rest buffered later (omega (arith, len, long)) same in
      (
        drop (length (written message)) buffered,
        ap take_carrier_message (sym start ∙ append_assoc (to_be 4 (length message)) message _)
            ∙ take_written message _ some_bytes bounded,
        tail,
      )

  -- However the stream is cut, the message that it starts with is received, and what is left is
  -- the rest of the stream.
  pub recv_h2-message :
      (chunks : List (List ℕ)) (rest buffered : List ℕ)
      → All IsChunk chunks
      → written message ++ rest ≡ buffered ++ bytes_of chunks
      → (left : List ℕ) × (unread : List (List ℕ)) × (recv_h2 buffered (chunks_of chunks)
          ≡ (record { buffered = left; input = chunks_of unread }, ok (some message)))
        × (left ++ bytes_of unread ≡ rest)
        × All IsChunk unread
  unfolding recv_h2
  recv_h2-message [] rest buffered fit same =
      let (left, taken, tail) = take_complete rest buffered [] same (
        omega (
          arith,
          ap length same,
          length-append {0} buffered [],
          length-append {0} (written message) rest,
          length-append {0} (to_be 4 (length message)) message,
          length-to_be 4 (length message),
        )) in
      (left, [], rw (taken, recv_h2) refl, tail, tt)
  recv_h2-message (chunk ∷ chunks) rest buffered (fits, fit) same =
      elim (Bool-cases (ltb (length buffered) (4 + length message))) [
        | inr long ↦
            let (left, taken, tail) =
              take_complete rest buffered (chunk ++ bytes_of chunks) same (ground (arith, long)) in
            (left, chunk ∷ chunks, rw (taken, recv_h2) refl, tail, (fits, fit))
        | inl short ↦
            let part =
              take_partial rest buffered (chunk ++ bytes_of chunks) same (ground (arith, short)) in
            let (left, unread, got, tail, fit') =
              recv_h2-message chunks rest (buffered ++ chunk) fit
                (same ∙ sym (append_assoc buffered chunk (bytes_of chunks))) in
            let small : ltb h2_buffer_limit (length (buffered ++ chunk)) ≡ false =
              ground (arith, length-append {0} buffered chunk, fits, bounded, short) in
            (left, unread, rw (part, recv_h2) (rw small got), tail, fit')
      ]
