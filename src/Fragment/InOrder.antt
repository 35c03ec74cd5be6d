-- ===== src/Fragment/InOrder.antt =====
-- The fragments of one packet that arrive in their order (rekaserdoba/src/fragment.rs).
use reka_serdoba.Common.{
  ℕ, ◌+◌, ◌≤◌, ◌<◌, ◌≡◌, ◌∙◌, refl, sym, ap, false, none, List, [], ◌∷◌, ◌++◌, append_assoc,
  append-nil, length, length-append, drop, drop-append, drop-drop, slice-append_right,
  slice-append_left, slice, ltb, ◌==◌, ok, arith,
}
use reka_serdoba.Common.Words.{to_be, from_be, length-to_be, from_be-to_be}
use reka_serdoba.Common.Maps.{find}
use reka_serdoba.Fragment.{parse, insert_ordered, overlaps}
use reka_serdoba.Fragment.Ordered.{AreOrdered, AreOrdered-size, size, bytes_of}

-- The body of a fragment's frame.
abbrev pub fragment_body : List ℕ → ℕ → ℕ → List ℕ → List ℕ
fragment_body packet_id total offset value =
    packet_id ++ (to_be 2 total ++ (to_be 2 offset ++ (to_be 2 (length value) ++ value)))

module _ (packet_id : List ℕ) (total offset : ℕ) (value : List ℕ) (id_len : length packet_id ≡ 4)
    (total_max : total < 65536) (some_bytes : 1 ≤ length value)
    (inside : offset + length value ≤ total) where
  -- What is written is parsed.
  pub parse-fragment_body :
      parse (fragment_body packet_id total offset value)
      ≡ ok (record {
        packet_id = from_be packet_id;
        total_len = total;
        offset = offset;
        bytes = value;
      })
  unfolding parse
  parse-fragment_body = ground (
    arith,
    some_bytes,
    inside,
    total_max,
    ap from_be total_at,
    ap from_be offset_at,
    ap from_be len_at,
    ap from_be (slice-append_left 4 packet_id after_id id_len),
    from_be-to_be 2 total (omega (arith, total_max)),
    from_be-to_be 2 offset (omega (arith, total_max, inside)),
    from_be-to_be 2 (length value) (omega (arith, total_max, inside)),
    value_at,
    body_len,
  )
    where
      after_offset : List ℕ
      after_offset = to_be 2 (length value) ++ value

      after_total : List ℕ
      after_total = to_be 2 offset ++ after_offset

      after_id : List ℕ
      after_id = to_be 2 total ++ after_total

      total_at : slice 4 6 (packet_id ++ after_id) ≡ to_be 2 total
      total_at =
          slice-append_right 4 4 6 packet_id after_id id_len (omega arith)
          ∙ slice-append_left 2 (to_be 2 total) after_total (length-to_be 2 total)

      offset_at : slice 6 8 (packet_id ++ after_id) ≡ to_be 2 offset
      offset_at =
          slice-append_right 4 6 8 packet_id after_id id_len (omega arith)
          ∙ slice-append_right 2 2 4 (to_be 2 total) after_total (length-to_be 2 total)
              (omega arith)
          ∙ slice-append_left 2 (to_be 2 offset) after_offset (length-to_be 2 offset)

      len_at : slice 8 10 (packet_id ++ after_id) ≡ to_be 2 (length value)
      len_at =
          slice-append_right 4 8 10 packet_id after_id id_len (omega arith)
          ∙ slice-append_right 2 4 6 (to_be 2 total) after_total (length-to_be 2 total)
              (omega arith)
          ∙ slice-append_right 2 2 4 (to_be 2 offset) after_offset (length-to_be 2 offset)
              (omega arith)
          ∙ slice-append_left 2 (to_be 2 (length value)) value (length-to_be 2 (length value))

      value_at : drop 10 (packet_id ++ after_id) ≡ value
      value_at =
          sym (drop-drop 4 6 (packet_id ++ after_id))
          ∙ ap (drop 6) (drop-append 4 packet_id after_id id_len)
          ∙ sym (drop-drop 2 4 after_id)
          ∙ ap (drop 4) (drop-append 2 (to_be 2 total) after_total (length-to_be 2 total))
          ∙ sym (drop-drop 2 2 after_total)
          ∙ ap (drop 2) (drop-append 2 (to_be 2 offset) after_offset (length-to_be 2 offset))
          ∙ drop-append 2 (to_be 2 (length value)) value (length-to_be 2 (length value))

      body_len : length (packet_id ++ after_id) ≡ 10 + length value
      body_len = omega (
        arith,
        id_len,
        length-append {0} packet_id after_id,
        length-append {0} (to_be 2 total) after_total,
        length-append {0} (to_be 2 offset) after_offset,
        length-append {0} (to_be 2 (length value)) value,
        length-to_be 2 total,
        length-to_be 2 offset,
        length-to_be 2 (length value),
      )

-- A fragment after all those that are there goes to the end, overlaps none and is new.
pub after_all :
    (offset from : ℕ) (bytes : List ℕ) (fragments : List (ℕ × List ℕ))
    → AreOrdered offset from fragments
    → (insert_ordered offset bytes fragments ≡ fragments ++ ((offset, bytes) ∷ []))
      × (overlaps offset (offset + length bytes) fragments ≡ false)
      × (find offset fragments ≡ none)
unfolding insert_ordered overlaps find
after_all offset from bytes [] h = (refl, refl, refl)
after_all offset from bytes ((o, d) ∷ fragments) (h, k, hs) =
    let (placed, apart, new) = after_all offset (o + length d) bytes fragments hs in
    let room = AreOrdered-size offset (o + length d) fragments hs in
    let before : ltb offset o ≡ false = ground (arith, room, k) in
    let other : (offset == o) ≡ false = ground (arith, room, k) in
    let other' : (o == offset) ≡ false = ground (arith, room, k) in
    let end : ltb offset (o + length d) ≡ false = ground (arith, room) in
    (rw before (rw other (ap (λ t. (o, d) ∷ t) placed)), rw end apart, rw other' new)

pub AreOrdered-last :
    (len offset from : ℕ) (bytes : List ℕ) (fragments : List (ℕ × List ℕ))
    → AreOrdered offset from fragments
    → 1 ≤ length bytes
    → offset + length bytes ≤ len
    → AreOrdered len from (fragments ++ ((offset, bytes) ∷ []))
AreOrdered-last len offset from bytes [] h some_bytes inside = (h, some_bytes, inside)
AreOrdered-last len offset from bytes ((o, d) ∷ fragments) (h, k, hs) some_bytes inside =
    (h, k, AreOrdered-last len offset (o + length d) bytes fragments hs some_bytes inside)

pub size-last :
    (offset : ℕ) (bytes : List ℕ) (fragments : List (ℕ × List ℕ))
    → size (fragments ++ ((offset, bytes) ∷ [])) ≡ size fragments + length bytes
size-last offset bytes [] = omega arith
size-last offset bytes ((o, d) ∷ fragments) = omega (arith, size-last offset bytes fragments)

pub bytes_of-last :
    (offset : ℕ) (bytes : List ℕ) (fragments : List (ℕ × List ℕ))
    → bytes_of (fragments ++ ((offset, bytes) ∷ [])) ≡ bytes_of fragments ++ bytes
bytes_of-last offset bytes [] = append-nil bytes
bytes_of-last offset bytes ((o, d) ∷ fragments) =
    ap (λ t. d ++ t) (bytes_of-last offset bytes fragments)
    ∙ sym (append_assoc d (bytes_of fragments) bytes)
