-- ===== src/Batch/Received.antt =====
-- The packets of a batch, at the receiver (rekaserdoba/src/packet_batch.rs, rekaserdoba/src/record.rs,
-- rekaserdoba/src/fragment.rs).
use reka_serdoba.Common.{
  ℕ, suc, ◌+◌, ◌-◌, ◌≤◌, ◌<◌, ◌≡◌, ◌∙◌, refl, sym, ap, subst, true, List, [], ◌∷◌, ◌++◌, map,
  append_assoc, concat, length, length-append, All, leb, Bool-cases, ok, inl, inr, arith,
}
use reka_serdoba.Common.Words.{from_be}
use reka_serdoba.Common.Maps.{find}
use reka_serdoba.Record.Frames.{Frame}
use reka_serdoba.Fragment.{FragmentReassembler, push, empty, expired, reassembly_timeout}
use reka_serdoba.Fragment.Delivered.{push_each, bodies_from, HasRoom, IsPart, push_each-whole}
use reka_serdoba.Batch.{chunks, batch_packets}
use reka_serdoba.Record.Frames.Taking.{wires}
use reka_serdoba.Batch.Packing.{Fits}
use reka_serdoba.Batch.Encoding.{HaveIds, batch_packets-Fits}
use reka_serdoba.Batch.Parts.{part_frame, frames_of, chunks-concat}
use reka_serdoba.Batch.Grouping.{IsSendable, all_frames, batch_packets-groups}
use reka_serdoba.Batch.Receiver.{
  receive_frame, receive_frames, receive, IsTaken, parse_records-wires, all_frames-IsTaken,
}

-- Frames that follow others are received after them.
receive_frames-append :
    (clock : ℕ → ℕ) (fs gs : List Frame) (r : FragmentReassembler)
    → receive_frames clock (fs ++ gs) r ≡ (
        let x = receive_frames (λ i. clock (i + length gs)) fs r in
        let y = receive_frames clock gs x.0 in (y.0, x.1 ++ y.1))
unfolding receive_frames
receive_frames-append clock [] gs r = refl
receive_frames-append clock (f ∷ fs) gs r =
    let x = receive_frame f (clock (length fs + length gs)) r in
    rw (length-append {0} fs gs) (
      rw (receive_frames-append clock fs gs x.0) (
        ap
          (λ (t : List (List ℕ)).
            ((receive_frames clock gs (receive_frames (λ i. clock (i + length gs)) fs x.0).0).0, t))
          (sym (
            append_assoc x.1 (receive_frames (λ i. clock (i + length gs)) fs x.0).1
              (receive_frames clock gs (receive_frames (λ i. clock (i + length gs)) fs x.0).0).1))))

length-parts : (bodies : List (List ℕ)) → length (map part_frame bodies) ≡ length bodies
length-parts [] = refl
length-parts (body ∷ bodies) = ap suc (length-parts bodies)

receive_frames-parts :
    (clock : ℕ → ℕ) (bodies : List (List ℕ)) (r : FragmentReassembler)
    → receive_frames clock (map part_frame bodies) r ≡ push_each clock bodies r
unfolding receive_frames push_each
receive_frames-parts clock [] r = refl
receive_frames-parts clock (body ∷ bodies) r =
    rw (length-parts bodies)
      (rw (receive_frames-parts clock bodies (push body (clock (length bodies)) r).0) refl)

-- The clock moves by less than the time that a packet may take.
abbrev pub IsPrompt : (ℕ → ℕ) → Type 0
IsPrompt clock = (i j : ℕ) → clock i - clock j < reassembly_timeout

empty-HasRoom :
    (clock : ℕ → ℕ) (id total : ℕ) → total ≤ 65535 → IsPrompt clock → HasRoom empty id total clock
unfolding expired find
empty-HasRoom clock id total total_max prompt = record {
  new = refl;
  room = omega (arith, total_max);
  few = omega arith;
  live = λ i. refl;
  in_time = prompt;
}

push_each-values :
    (clock : ℕ → ℕ) (packet_id packet : List ℕ) (values : List (List ℕ))
    → length packet_id ≡ 4
    → length packet ≤ 65535
    → 1 ≤ length packet
    → IsPrompt clock
    → All IsPart values
    → concat values ≡ packet
    → push_each clock (bodies_from packet_id (length packet) 0 values) empty ≡ (empty, packet ∷ [])
push_each-values clock packet_id packet [] id_len packet_max some_bytes prompt parts all =
    absurd (omega (arith, some_bytes, ap length all))
push_each-values clock packet_id packet (value ∷ values) id_len packet_max some_bytes prompt parts
      all =
    push_each-whole empty packet_id (length packet) clock id_len (omega (arith, packet_max))
      (empty-HasRoom clock (from_be packet_id) (length packet) packet_max prompt) value values parts
      (ap length all)
    ∙ ap (λ (p : List ℕ). (empty, p ∷ [])) all

receive_frames-frames_of :
    (clock : ℕ → ℕ) (packet_id packet : List ℕ) (capacity : ℕ)
    → length packet_id ≡ 4
    → length packet ≤ 65535
    → 15 ≤ capacity
    → IsPrompt clock
    → receive_frames clock (frames_of packet_id packet capacity) empty ≡ (empty, packet ∷ [])
receive_frames-frames_of clock packet_id [] capacity id_len packet_max capacity_min prompt =
    let whole : leb 4 capacity ≡ true = ground (arith, capacity_min) in
    unfold receive_frames in rw whole refl
receive_frames-frames_of clock packet_id (b ∷ bs) capacity id_len packet_max capacity_min prompt =
    elim (Bool-cases (leb (length (b ∷ bs) + 4) capacity)) [
      | inl whole ↦ unfold receive_frames in rw whole refl
      | inr apart ↦
          let n : ℕ = capacity - 14 in
          let (all, parts) =
            chunks-concat (length (b ∷ bs)) n (b ∷ bs) (omega (arith, capacity_min))
              (omega arith) in
          rw apart (
            receive_frames-parts clock
              (bodies_from packet_id (length (b ∷ bs)) 0 (chunks (length (b ∷ bs)) n (b ∷ bs)))
              empty
            ∙ push_each-values clock packet_id (b ∷ bs) (chunks (length (b ∷ bs)) n (b ∷ bs)) id_len
                packet_max (omega arith) prompt parts all)
    ]

abbrev pub packets_of : List (List ℕ × List ℕ) → List (List ℕ)
packets_of [] = []
packets_of ((packet_id, packet) ∷ packets) = packet ∷ packets_of packets

receive_frames-all_frames :
    (clock : ℕ → ℕ) (packets : List (List ℕ × List ℕ)) (capacity : ℕ)
    → All IsSendable packets
    → 15 ≤ capacity
    → IsPrompt clock
    → receive_frames clock (all_frames capacity packets) empty ≡ (empty, packets_of packets)
receive_frames-all_frames clock [] capacity sendable capacity_min prompt =
    unfold receive_frames in refl
receive_frames-all_frames clock ((packet_id, packet) ∷ packets) capacity
      ((id_len, packet_max), sendable) capacity_min prompt =
    let later : List Frame = all_frames capacity packets in
    rw (receive_frames-append clock (frames_of packet_id packet capacity) later empty) (
      rw
        (receive_frames-frames_of (λ i. clock (i + length later)) packet_id packet capacity id_len
          packet_max capacity_min (λ i j. prompt (i + length later) (j + length later)))
        (rw (receive_frames-all_frames clock packets capacity sendable capacity_min prompt) refl))

IsSendable-HaveIds : (packets : List (List ℕ × List ℕ)) → All IsSendable packets → HaveIds packets
IsSendable-HaveIds [] sendable = tt
IsSendable-HaveIds (p ∷ packets) ((id_len, packet_max), sendable) =
    (id_len, IsSendable-HaveIds packets sendable)

-- Packets with ids of four bytes and at most 65535 bytes each are batched, if the capacity is between
-- 15 and 65535, into records of at least one byte and at most the capacity. All packets come out of
-- a receiver that parses the records and reassembles the parts, each once, whole and in order, and
-- nothing is left in its reassembler, if its clock moves by less than the reassembly timeout
-- meanwhile.
pub batch_packets-received :
    (packets : List (List ℕ × List ℕ)) (capacity : ℕ) (clock : ℕ → ℕ)
    → All IsSendable packets
    → 15 ≤ capacity
    → capacity ≤ 65535
    → IsPrompt clock
    → (records : List (List ℕ)) × (batch_packets packets capacity ≡ ok records)
      × All (Fits capacity) records
      × (receive clock records ≡ ok (empty, packets_of packets))
batch_packets-received packets capacity clock sendable capacity_min capacity_max prompt =
    let (groups, made, in_order) =
      batch_packets-groups capacity capacity_min capacity_max packets sendable in
    let taken : All IsTaken (concat groups) =
      subst (All IsTaken) (sym in_order)
        (all_frames-IsTaken capacity capacity_min capacity_max packets sendable) in
    (
      map wires groups,
      made,
      (batch_packets-Fits packets capacity (map wires groups) (IsSendable-HaveIds packets sendable)
          made).0,
      rw (parse_records-wires groups taken) (
          rw in_order (
            ap ok (receive_frames-all_frames clock packets capacity sendable capacity_min prompt))),
    )
