-- ===== src/Batch.antt =====
-- `batch_packets` and `encode_packet` (rekaserdoba/src/packet_batch.rs). The packet id, which the
-- source draws for each packet, comes with the packet.
pub mod Packing
pub mod Encoding
pub mod Parts
pub mod Grouping
pub mod Receiver
pub mod Received
use reka_serdoba.Common.{
  ℕ, zero, suc, ◌+◌, ◌-◌, ◌*◌, Bool, true, false, not, ◌&&◌, List, [], ◌∷◌, ◌++◌, length, take,
  drop, ltb, leb, ◌==◌, if◌then◌else◌, Result, ok, err, ◌>>=◌, ◌>>◌, bail_if,
}
use reka_serdoba.Common.Words.{to_be}
use reka_serdoba.Errors.{
  Error, record_capacity_too_small, chunk_size_is_zero, packet_exceeds_fragment_limit,
  int_conversion,
}
use reka_serdoba.Record.Frames
use reka_serdoba.Record.Frames.{Frame}

-- `packet.chunks(n)`, with fuel for the chunks: the packet's length is enough.
unfoldable pub chunks : ℕ → ℕ → List ℕ → List (List ℕ)
chunks fuel n [] = []
chunks zero n (b ∷ bs) = []
chunks (suc fuel) n (b ∷ bs) = take n (b ∷ bs) ∷ chunks fuel n (drop n (b ∷ bs))

-- The frame of one fragment.
abbrev pub fragment_frame : List ℕ → ℕ → ℕ → List ℕ → Frame
fragment_frame packet_id total offset value = record {
  frame_type = 0x03;
  flags = 0;
  body = packet_id ++ (to_be 2 total ++ (to_be 2 offset ++ (to_be 2 (length value) ++ value)));
}

-- The loop over the chunks; `index * chunk_size` does not overflow.
unfoldable pub encode_chunks : List ℕ → ℕ → ℕ → ℕ → List (List ℕ) → Result Error (List (List ℕ))
encode_chunks packet_id total chunk_size index [] = ok []
encode_chunks packet_id total chunk_size index (value ∷ values) = do
  bail_if (ltb 65535 (index * chunk_size)) int_conversion
  bail_if (ltb 65535 (length value)) int_conversion
  frame ← Frames.encode (fragment_frame packet_id total (index * chunk_size) value)
  frames ← encode_chunks packet_id total chunk_size (index + 1) values
  ok (frame ∷ frames)

-- `encode_packet`
unfoldable pub encode_packet : List ℕ → List ℕ → ℕ → Result Error (List (List ℕ))
encode_packet packet_id packet capacity =
    if leb (length packet + 4) capacity
    then (do
      frame ← Frames.encode (record { frame_type = 0x01; flags = 0; body = packet })
      ok (frame ∷ []))
    else (do
      bail_if (ltb capacity 14) record_capacity_too_small
      bail_if (ltb 65535 (length packet)) packet_exceeds_fragment_limit
      bail_if (capacity - 14 == 0) chunk_size_is_zero
      encode_chunks packet_id (length packet) (capacity - 14) 0
          (chunks (length packet) (capacity - 14) packet))

abbrev pub is_empty : List ℕ → Bool
is_empty [] = true
is_empty (b ∷ bs) = false

-- The inner loop: the frames go into the open record as long as they fit.
unfoldable pub pack : ℕ → List (List ℕ) → List (List ℕ) → List ℕ → List (List ℕ) × List ℕ
pack capacity [] records plaintext = (records, plaintext)
pack capacity (frame ∷ frames) records plaintext =
    let full : Bool = not (is_empty plaintext) && ltb capacity (length plaintext + length frame) in
    pack capacity frames (if full then records ++ (plaintext ∷ []) else records)
      (if full then frame else plaintext ++ frame)

-- The outer loop, over packets with their ids.
unfoldable pub pack_packets :
    ℕ → List (List ℕ × List ℕ) → List (List ℕ) → List ℕ → Result Error (List (List ℕ) × List ℕ)
pack_packets capacity [] records plaintext = ok (records, plaintext)
pack_packets capacity ((packet_id, packet) ∷ packets) records plaintext = do
  frames ← encode_packet packet_id packet capacity
  let packed = pack capacity frames records plaintext
  pack_packets capacity packets packed.0 packed.1

-- The last record is pushed if it has anything.
abbrev pub close_last : List (List ℕ) → List ℕ → List (List ℕ)
close_last records [] = records
close_last records (b ∷ bs) = records ++ ((b ∷ bs) ∷ [])

-- `batch_packets`
unfoldable pub batch_packets : List (List ℕ × List ℕ) → ℕ → Result Error (List (List ℕ))
batch_packets packets capacity = do
  packed ← pack_packets capacity packets [] []
  ok (close_last packed.0 packed.1)
