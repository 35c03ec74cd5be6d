-- ===== src/Batch/Parts.antt =====
-- The frames that a packet is encoded as (rekaserdoba/src/packet_batch.rs).
use reka_serdoba.Common.{
  ℕ, zero, suc, ◌+◌, ◌-◌, ◌*◌, ◌≤◌, ◌≡◌, ◌∙◌, refl, ap, false, List, [], ◌∷◌, ◌++◌, map, concat,
  length, length-append, length-take, length-drop, take, drop, take-append-drop, All, ltb, leb,
  ◌==◌, if◌then◌else◌, Bool-cases, ok, inl, inr, arith,
}
use reka_serdoba.Common.Words.{to_be, length-to_be}
use reka_serdoba.Record.Frames
use reka_serdoba.Record.Frames.{Frame, wire}
use reka_serdoba.Fragment.InOrder.{fragment_body}
use reka_serdoba.Fragment.Delivered.{IsPart, bodies_from}
use reka_serdoba.Batch.{chunks, fragment_frame, encode_chunks, encode_packet}

-- The chunks of a packet are not empty and make it up.
pub chunks-concat :
    (fuel n : ℕ) (packet : List ℕ)
    → 1 ≤ n
    → length packet ≤ fuel
    → (concat (chunks fuel n packet) ≡ packet) × All IsPart (chunks fuel n packet)
unfolding chunks
chunks-concat fuel n [] some_bytes enough = (refl, tt)
chunks-concat zero n (b ∷ bs) some_bytes enough = absurd (omega arith)
chunks-concat (suc fuel) n (b ∷ bs) some_bytes enough =
    let (all, parts) =
      chunks-concat fuel n (drop n (b ∷ bs)) some_bytes
        (omega (arith, length-drop {0} n (b ∷ bs))) in
    (
      ap (λ (t : List ℕ). take n (b ∷ bs) ++ t) all ∙ take-append-drop n (b ∷ bs),
      (omega (arith, length-take {0} n (b ∷ bs)), parts),
    )

abbrev pub packet_frame : List ℕ → Frame
packet_frame packet = record { frame_type = 0x01; flags = 0; body = packet }

abbrev pub part_frame : List ℕ → Frame
part_frame body = record { frame_type = 0x03; flags = 0; body = body }

encode-wire : (f : Frame) → length f.body ≤ 65535 → Frames.encode f ≡ ok (wire f)
unfolding Frames.encode
encode-wire f fits = ground (arith, fits)

pub body_len :
    (packet_id : List ℕ) (total offset : ℕ) (value : List ℕ)
    → length packet_id ≡ 4
    → length (fragment_body packet_id total offset value) ≡ length value + 10
body_len packet_id total offset value id_len = omega (
  arith,
  id_len,
  length-append {0} packet_id
      (to_be 2 total ++ (to_be 2 offset ++ (to_be 2 (length value) ++ value))),
  length-append {0} (to_be 2 total) (to_be 2 offset ++ (to_be 2 (length value) ++ value)),
  length-append {0} (to_be 2 offset) (to_be 2 (length value) ++ value),
  length-append {0} (to_be 2 (length value)) value,
  length-to_be 2 total,
  length-to_be 2 offset,
  length-to_be 2 (length value),
)

drop_all : (n : ℕ) (xs : List ℕ) → length xs ≤ n → drop n xs ≡ []
drop_all zero [] h = refl
drop_all zero (x ∷ xs) h = absurd (omega arith)
drop_all (suc n) [] h = refl
drop_all (suc n) (x ∷ xs) h = drop_all n xs (omega arith)

abbrev pub wires_of : List (List ℕ) → List (List ℕ)
wires_of bodies = map (λ body. wire (part_frame body)) bodies

module _ (packet_id : List ℕ) (total n : ℕ) (id_len : length packet_id ≡ 4) (some_bytes : 1 ≤ n)
    (n_max : n ≤ 65521) (total_max : total ≤ 65535) where
  encode_chunks-bodies :
      (fuel index : ℕ) (packet : List ℕ)
      → length packet ≤ fuel
      → index * n + length packet ≡ total
      → encode_chunks packet_id total n index (chunks fuel n packet)
        ≡ ok (wires_of (bodies_from packet_id total (index * n) (chunks fuel n packet)))
  unfolding encode_chunks chunks
  encode_chunks-bodies fuel index [] enough all = refl
  encode_chunks-bodies zero index (b ∷ bs) enough all = absurd (omega arith)
  encode_chunks-bodies (suc fuel) index (b ∷ bs) enough all =
      let value : List ℕ = take n (b ∷ bs) in
      let cut = length-take {0} n (b ∷ bs) in
      let left = length-drop {0} n (b ∷ bs) in
      let offset_max : ltb 65535 (index * n) ≡ false = ground (arith, all, total_max) in
      let value_max : ltb 65535 (length value) ≡ false = ground (arith, cut, n_max) in
      let encoded =
        encode-wire (fragment_frame packet_id total (index * n) value)
          (omega (arith, body_len packet_id total (index * n) value id_len, cut, n_max)) in
      rw offset_max (
        rw value_max (
          rw encoded (elim (Bool-cases (ltb n (length (b ∷ bs)))) [
            | inl long ↦
                let whole : length value ≡ n = ground (arith, cut, long) in
                let step : (index + 1) * n ≡ index * n + length value = grind (arith, whole) in
                rw
                  (encode_chunks-bodies fuel (index + 1) (drop n (b ∷ bs))
                    (omega (arith, left, enough, some_bytes))
                    (ground (arith, step, left, all, long, whole)))
                  (rw step refl)
            | inr short ↦ rw (drop_all n (b ∷ bs) (ground (arith, short))) refl
          ])))

-- The frames of a packet: the packet as it is, or its parts.
abbrev pub frames_of : List ℕ → List ℕ → ℕ → List Frame
frames_of packet_id packet capacity =
    if leb (length packet + 4) capacity
    then packet_frame packet ∷ []
    else map part_frame
        (bodies_from packet_id (length packet) 0 (chunks (length packet) (capacity - 14) packet))

pub encode_packet-frames :
    (packet_id packet : List ℕ) (capacity : ℕ)
    → length packet_id ≡ 4
    → length packet ≤ 65535
    → 15 ≤ capacity
    → capacity ≤ 65535
    → encode_packet packet_id packet capacity ≡ ok (map wire (frames_of packet_id packet capacity))
unfolding encode_packet
encode_packet-frames packet_id packet capacity id_len packet_max capacity_min capacity_max =
    elim (Bool-cases (leb (length packet + 4) capacity)) [
      | inl whole ↦ rw whole (rw (encode-wire (packet_frame packet) packet_max) refl)
      | inr parts ↦
          let wide : ltb capacity 14 ≡ false = ground (arith, capacity_min) in
          let short : ltb 65535 (length packet) ≡ false = ground (arith, packet_max) in
          let some_bytes : (capacity - 14 == 0) ≡ false = ground (arith, capacity_min) in
          rw parts (
            rw wide (
              rw short (
                rw some_bytes (
                  encode_chunks-bodies packet_id (length packet) (capacity - 14) id_len
                    (omega arith) (omega arith) packet_max (length packet) 0 packet (omega arith)
                    (omega arith)
                  ∙ ap
                      (λ (o : ℕ). ok (
                        wires_of (
                          bodies_from packet_id (length packet) o
                            (chunks (length packet) (capacity - 14) packet))))
                      {y = 0} (omega arith)
                  ∙ ap ok (
                      wires_map (
                        bodies_from packet_id (length packet) 0
                          (chunks (length packet) (capacity - 14) packet)))))))
    ]
  where
    wires_map : (bodies : List (List ℕ)) → wires_of bodies ≡ map wire (map part_frame bodies)
    wires_map [] = refl
    wires_map (body ∷ bodies) = ap (λ t. wire (part_frame body) ∷ t) (wires_map bodies)
