-- ===== src/Batch/Encoding.antt =====
-- What the packets are encoded as, and the records that carry them.
use reka_serdoba.Common.{
  ℕ, zero, suc, ◌+◌, ◌-◌, ◌*◌, ◌≤◌, ◌≡◌, ◌∙◌, refl, sym, ap, subst, false, List, [], ◌∷◌, ◌++◌,
  append_assoc, append-nil, length, length-append, length-take, drop, All, All-append, concat,
  concat-append, ltb, leb, ◌==◌, Bool-cases, Result, ok, Result-cases, inl, inr, arith,
}
use reka_serdoba.Common.Words.{to_be, length-to_be}
use reka_serdoba.Errors.{Error}
use reka_serdoba.Record.Frames
use reka_serdoba.Record.Frames.{Frame, wire}
use reka_serdoba.Record.Frames.RoundTrip.{wire_len}
use reka_serdoba.Batch.{
  chunks, fragment_frame, encode_chunks, encode_packet, pack, pack_packets, close_last,
  batch_packets,
}
use reka_serdoba.Batch.Packing.{Fits, Packed, pack-Packed}

pub chunks-small :
    (fuel n : ℕ) (packet : List ℕ) → All (λ value. length value ≤ n) (chunks fuel n packet)
unfolding chunks
chunks-small fuel n [] = tt
chunks-small zero n (b ∷ bs) = tt
chunks-small (suc fuel) n (b ∷ bs) =
    (omega (arith, length-take {0} n (b ∷ bs)), chunks-small fuel n (drop n (b ∷ bs)))

written : (f : Frame) (e : List ℕ) → Frames.encode f ≡ ok e → e ≡ wire f
unfolding Frames.encode
written f e p = ground (arith, p)

frame_len :
    (packet_id : List ℕ) (total offset : ℕ) (value frame : List ℕ)
    → length packet_id ≡ 4
    → Frames.encode (fragment_frame packet_id total offset value) ≡ ok frame
    → length frame ≡ length value + 14
frame_len packet_id total offset value frame id_len e = omega (
  arith,
  id_len,
  ap length (written (fragment_frame packet_id total offset value) frame e),
  wire_len (fragment_frame packet_id total offset value),
  length-append {0} packet_id
      (to_be 2 total ++ (to_be 2 offset ++ (to_be 2 (length value) ++ value))),
  length-append {0} (to_be 2 total) (to_be 2 offset ++ (to_be 2 (length value) ++ value)),
  length-append {0} (to_be 2 offset) (to_be 2 (length value) ++ value),
  length-append {0} (to_be 2 (length value)) value,
  length-to_be 2 total,
  length-to_be 2 offset,
  length-to_be 2 (length value),
)

ok_list : {x y : List (List ℕ)} → Path (Result Error (List (List ℕ))) (ok x) (ok y) → x ≡ y
ok_list e = cc e

encode_chunks-small :
    (packet_id : List ℕ) (total n index : ℕ) (values frames : List (List ℕ))
    → length packet_id ≡ 4
    → All (λ value. length value ≤ n) values
    → encode_chunks packet_id total n index values ≡ ok frames
    → All (λ f. length f ≤ n + 14) frames
unfolding encode_chunks
encode_chunks-small packet_id total n index [] frames id_len small e =
    subst (All (λ f. length f ≤ n + 14)) (ok_list e) tt
encode_chunks-small packet_id total n index (value ∷ values) frames id_len (small, smalls) e =
    elim (Bool-cases (ltb 65535 (index * n))) [
      | inl b ↦ absurd (cc (rw (b, encode_chunks) at e))
      | inr b ↦ elim (Bool-cases (ltb 65535 (length value))) [
        | inl l ↦ absurd (cc (rw (b, encode_chunks, l) at e))
        | inr l ↦
            elim (Result-cases (Frames.encode (fragment_frame packet_id total (index * n) value))) [
              | inr (x, f) ↦ absurd (cc (rw (b, encode_chunks, l, f) at e))
              | inl (frame, f) ↦
                  elim (Result-cases (encode_chunks packet_id total n (index + 1) values)) [
                    | inr (x, r) ↦ absurd (cc (rw (b, encode_chunks, l, f, r) at e))
                    | inl (rest, r) ↦
                        subst (All (λ g. length g ≤ n + 14))
                          (ok_list (rw (b, encode_chunks, l, f, r) at e))
                          (
                            omega (
                              arith,
                              small,
                              frame_len packet_id total (index * n) value frame id_len f,
                            ),
                            encode_chunks-small packet_id total n (index + 1) values rest id_len
                                smalls r,
                          )
                  ]
            ]
      ]
    ]

-- No frame of a packet exceeds the capacity.
encode_packet-small :
    (packet_id packet : List ℕ) (capacity : ℕ) (frames : List (List ℕ))
    → length packet_id ≡ 4
    → encode_packet packet_id packet capacity ≡ ok frames
    → All (λ f. length f ≤ capacity) frames
unfolding encode_packet
encode_packet-small packet_id packet capacity frames id_len e =
    elim (Bool-cases (leb (length packet + 4) capacity)) [
      | inl whole ↦
          elim (Result-cases
            (Frames.encode (record { frame_type = 0x01; flags = 0; body = packet }))) [
              | inr (x, f) ↦ absurd (cc (rw (whole, encode_packet, f) at e))
              | inl (frame, f) ↦
                  subst (All (λ g. length g ≤ capacity))
                    (ok_list (rw (whole, encode_packet, f) at e))
                    (
                      ground (
                        arith,
                        whole,
                        ap length (
                            written (record { frame_type = 0x01; flags = 0; body = packet }) frame
                              f),
                        wire_len (record { frame_type = 0x01; flags = 0; body = packet }),
                      ),
                      tt,
                    )
            ]
      | inr whole ↦ elim (Bool-cases (ltb capacity 14)) [
        | inl a ↦ absurd (cc (rw (whole, encode_packet, a) at e))
        | inr a ↦ elim (Bool-cases (ltb 65535 (length packet))) [
          | inl b ↦ absurd (cc (rw (whole, encode_packet, a, b) at e))
          | inr b ↦ elim (Bool-cases (capacity - 14 == 0)) [
            | inl z ↦ absurd (cc (rw (whole, encode_packet, a, b, z) at e))
            | inr z ↦
                subst (λ (n : ℕ). All (λ f. length f ≤ n) frames) (exact a)
                  (encode_chunks-small packet_id (length packet) (capacity - 14) 0
                    (chunks (length packet) (capacity - 14) packet) frames id_len
                    (chunks-small (length packet) (capacity - 14) packet)
                    (rw (whole, encode_packet, a, b, z) at e))
          ]
        ]
      ]
    ]
  where
    exact : ltb capacity 14 ≡ false → capacity - 14 + 14 ≡ capacity
    exact a = ground (arith, a)

-- The bytes of the frames of all packets, in order.
abbrev pub IsEncoded : ℕ → List (List ℕ × List ℕ) → List ℕ → Type 0
IsEncoded capacity [] bytes = bytes ≡ []
IsEncoded capacity ((packet_id, packet) ∷ packets) bytes =
    (frames : List (List ℕ)) × (rest : List ℕ) × (encode_packet packet_id packet capacity
      ≡ ok frames)
    × IsEncoded capacity packets rest
    × (bytes ≡ concat frames ++ rest)

abbrev pub HaveIds : List (List ℕ × List ℕ) → Type 0
HaveIds = All (λ p. length p.0 ≡ 4)

pack_packets-Packed :
    (capacity : ℕ) (packets : List (List ℕ × List ℕ)) (records : List (List ℕ))
    (plaintext before : List ℕ) (x : List (List ℕ) × List ℕ)
    → HaveIds packets
    → Packed capacity before (records, plaintext)
    → pack_packets capacity packets records plaintext ≡ ok x
    → (rest : List ℕ) × IsEncoded capacity packets rest × Packed capacity (before ++ rest) x
unfolding pack_packets
pack_packets-Packed capacity [] records plaintext before x ids h e = (
  [],
  refl,
  subst (Packed capacity (before ++ [])) (first e)
      (subst (λ b. Packed capacity b (records, plaintext)) (sym (append-nil before)) h),
)
  where
    first :
        Path (Result Error (List (List ℕ) × List ℕ)) (ok (records, plaintext)) (ok x)
        → (records, plaintext) ≡ x
    first p = cc p
pack_packets-Packed capacity ((packet_id, packet) ∷ packets) records plaintext before x (i, ids) h
      e =
    elim (Result-cases (encode_packet packet_id packet capacity)) [
      | inr (y, f) ↦ absurd (cc (rw (f, pack_packets) at e))
      | inl (frames, f) ↦
          let packed = pack capacity frames records plaintext in
          let more =
            pack_packets-Packed capacity packets packed.0 packed.1 (before ++ concat frames) x ids
              (pack-Packed capacity frames records plaintext before
                (encode_packet-small packet_id packet capacity frames i f) h)
              (rw (f, pack_packets) at e) in
          (
            concat frames ++ more.0,
            (frames, more.0, f, more.1, refl),
            subst (λ b. Packed capacity b x) (append_assoc before (concat frames) more.0) more.2,
          )
    ]

close_last-Packed :
    (capacity : ℕ) (bytes : List ℕ) (records : List (List ℕ)) (plaintext : List ℕ)
    → Packed capacity bytes (records, plaintext)
    → All (Fits capacity) (close_last records plaintext)
      × (concat (close_last records plaintext) ≡ bytes)
close_last-Packed capacity bytes records [] h =
    (h.fit, sym (append-nil (concat records)) ∙ h.joined)
close_last-Packed capacity bytes records (b ∷ bs) h = (
  All-append (Fits capacity) records ((b ∷ bs) ∷ []) h.fit ((omega arith, h.open_len), tt),
  concat-append records ((b ∷ bs) ∷ [])
      ∙ ap (λ t. concat records ++ t) (append-nil (b ∷ bs))
      ∙ h.joined,
)

-- With packet ids of four bytes, every record that `batch_packets` makes has at least one byte and
-- at most `capacity`, and the records hold the frames of all packets in order, and nothing else.
pub batch_packets-Fits :
    (packets : List (List ℕ × List ℕ)) (capacity : ℕ) (records : List (List ℕ))
    → HaveIds packets
    → batch_packets packets capacity ≡ ok records
    → All (Fits capacity) records × IsEncoded capacity packets (concat records)
unfolding batch_packets
batch_packets-Fits packets capacity records ids e =
    elim (Result-cases (pack_packets capacity packets [] [])) [
      | inr (x, p) ↦ absurd (cc (rw (p, batch_packets) at e))
      | inl (x, p) ↦
          let all =
            pack_packets-Packed capacity packets [] [] [] x ids
              (record { fit = tt; open_len = omega arith; joined = refl }) p in
          let closed = close_last-Packed capacity all.0 x.0 x.1 all.2 in
          let same : close_last x.0 x.1 ≡ records = ok_list (rw (p, batch_packets) at e) in
          (
            subst (All (Fits capacity)) same closed.0,
            subst (IsEncoded capacity packets) (sym closed.1 ∙ ap concat same) all.1,
          )
    ]
