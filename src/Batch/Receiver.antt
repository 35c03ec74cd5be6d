-- ===== src/Batch/Receiver.antt =====
-- A receiver of the records of a batch: it parses them (rekaserdoba/src/record.rs), and gives each
-- frame to the reassembler or takes it as a packet (rekaserdoba/src/main.rs, rekaserdoba/src/fragment.rs).
use reka_serdoba.Common.{
  ℕ, ◌+◌, ◌-◌, ◌≤◌, ◌≡◌, refl, ap, true, List, [], ◌∷◌, ◌++◌, map, concat, length, All, All-append,
  All-parts, leb, ◌==◌, if◌then◌else◌, Bool-cases, Result, ok, ◌>>=◌, inl, inr, arith,
}
use reka_serdoba.Errors.{Error}
use reka_serdoba.Record.Header.{data_record}
use reka_serdoba.Record.Frames.{Frame, known, parse_frames}
use reka_serdoba.Record.Frames.Taking.{Acceptable, wires, known_frames}
use reka_serdoba.Record.Frames.RoundTrip.{parse_frames-wires}
use reka_serdoba.Fragment.{FragmentReassembler, PushResult, push, empty}
use reka_serdoba.Fragment.Delivered.{delivered, bodies_from}
use reka_serdoba.Batch.{chunks}
use reka_serdoba.Batch.Encoding.{chunks-small}
use reka_serdoba.Batch.Parts.{part_frame, frames_of, body_len}
use reka_serdoba.Batch.Grouping.{IsSendable, all_frames}

-- The frames of all records.
unfoldable pub parse_records : List (List ℕ) → Result Error (List Frame)
parse_records [] = ok []
parse_records (r ∷ rs) = do fs ← parse_frames r data_record; gs ← parse_records rs; ok (fs ++ gs)

-- The packets that come of a frame.
abbrev pub receive_frame : Frame → ℕ → FragmentReassembler → FragmentReassembler × List (List ℕ)
receive_frame f now r =
    let x : PushResult = push f.body now r in
    if f.frame_type == 0x03
    then (x.0, delivered x.1)
    else (r, if f.frame_type == 0x01 then f.body ∷ [] else [])

-- The packets that come of a list of frames; the clock is read by how many are still to come.
unfoldable pub receive_frames :
    (ℕ → ℕ) → List Frame → FragmentReassembler → FragmentReassembler × List (List ℕ)
receive_frames clock [] r = (r, [])
receive_frames clock (f ∷ fs) r =
    let x = receive_frame f (clock (length fs)) r in
    let y = receive_frames clock fs x.0 in (y.0, x.1 ++ y.1)

-- What a receiver that begins empty gets out of the records.
abbrev pub receive : (ℕ → ℕ) → List (List ℕ) → Result Error (FragmentReassembler × List (List ℕ))
receive clock records = do frames ← parse_records records; ok (receive_frames clock frames empty)

-- A frame that a receiver of data takes.
abbrev pub IsTaken : Frame → Type 0
IsTaken f = (length f.body ≤ 65535) × (known data_record f.frame_type ≡ true)

acceptable : (fs : List Frame) → All IsTaken fs → All (Acceptable data_record) fs
acceptable [] h = tt
acceptable (f ∷ fs) ((small, k), h) =
    (record { body_len = small; ignorable = rw k refl }, acceptable fs h)

all_known : (fs : List Frame) → All IsTaken fs → known_frames data_record fs ≡ fs
all_known [] h = refl
all_known (f ∷ fs) ((small, k), h) = rw k (ap (λ (t : List Frame). f ∷ t) (all_known fs h))

pub parse_records-wires :
    (groups : List (List Frame))
    → All IsTaken (concat groups)
    → parse_records (map wires groups) ≡ ok (concat groups)
unfolding parse_records
parse_records-wires [] h = refl
parse_records-wires (g ∷ groups) h =
    let (front, back) = All-parts IsTaken g (concat groups) h in
    rw (parse_frames-wires data_record g (acceptable g front)) (
      rw (parse_records-wires groups back)
        (ap (λ (t : List Frame). ok (t ++ concat groups)) (all_known g front)))

module _ (capacity : ℕ) (capacity_min : 15 ≤ capacity) (capacity_max : capacity ≤ 65535) where
  parts-IsTaken :
      (packet_id : List ℕ) (total offset : ℕ) (values : List (List ℕ))
      → length packet_id ≡ 4
      → All (λ value. length value ≤ capacity - 14) values
      → All IsTaken (map part_frame (bodies_from packet_id total offset values))
  parts-IsTaken packet_id total offset [] id_len small = tt
  parts-IsTaken packet_id total offset (value ∷ values) id_len (s, small) = (
    (
      omega (arith, s, capacity_max, body_len packet_id total offset value id_len),
      unfold known in refl,
    ),
    parts-IsTaken packet_id total (offset + length value) values id_len small,
  )

  frames_of-IsTaken :
      (packet_id packet : List ℕ)
      → length packet_id ≡ 4
      → length packet ≤ 65535
      → All IsTaken (frames_of packet_id packet capacity)
  frames_of-IsTaken packet_id packet id_len packet_max =
      elim (Bool-cases (leb (length packet + 4) capacity)) [
        | inl e ↦ rw e (((packet_max, unfold known in refl), tt))
        | inr e ↦ rw e (
            parts-IsTaken packet_id (length packet) 0
              (chunks (length packet) (capacity - 14) packet) id_len
              (chunks-small (length packet) (capacity - 14) packet))
      ]

  pub all_frames-IsTaken :
      (packets : List (List ℕ × List ℕ))
      → All IsSendable packets
      → All IsTaken (all_frames capacity packets)
  all_frames-IsTaken [] sendable = tt
  all_frames-IsTaken ((packet_id, packet) ∷ packets) ((id_len, packet_max), sendable) =
      All-append IsTaken (frames_of packet_id packet capacity) (all_frames capacity packets)
        (frames_of-IsTaken packet_id packet id_len packet_max) (all_frames-IsTaken packets sendable)
