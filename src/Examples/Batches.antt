-- ===== src/Examples/Batches.antt =====
-- Batching at concrete inputs.
use reka_serdoba.Common.{ℕ, ◌≡◌, refl, List, [], ◌∷◌, replicate, length, map, All, ok, Result, err}
use reka_serdoba.Common.Words.{to_be}
use reka_serdoba.Errors.{Error}
use reka_serdoba.Record.Frames
use reka_serdoba.Batch
use reka_serdoba.Batch.{batch_packets}
use reka_serdoba.Batch.Packing.{Fits}
use reka_serdoba.Common.{◌-◌, arith}
use reka_serdoba.Fragment.{empty}
use reka_serdoba.Batch.Receiver.{receive}
use reka_serdoba.Batch.Received.{IsPrompt, batch_packets-received}

-- Two short packets, and one of 18 bytes, with records of 20 bytes.
abbrev packets : List (List ℕ × List ℕ)
packets =
    (replicate 4 1, replicate 3 7)
    ∷ (replicate 4 2, replicate 5 8)
    ∷ (replicate 4 3, replicate 18 9)
    ∷ []

abbrev records_of : Result Error (List (List ℕ)) → List (List ℕ)
records_of (ok records) = records
records_of (err e) = []

abbrev batched : List (List ℕ)
batched = records_of (batch_packets packets 20)

batched_ok : batch_packets packets 20 ≡ ok batched
unfolding batch_packets Batch.pack_packets Batch.encode_packet Batch.encode_chunks Batch.chunks
    Batch.pack Frames.encode Frames.wire to_be
batched_ok = refl

-- The two short packets share a record, and the fragments have one each.
batched_lens : map length batched ≡ 16 ∷ 20 ∷ 20 ∷ 20 ∷ []
unfolding batch_packets Batch.pack_packets Batch.encode_packet Batch.encode_chunks Batch.chunks
    Batch.pack Frames.encode Frames.wire to_be
batched_lens = refl

-- A clock that goes on while the frames come.
abbrev clock : ℕ → ℕ
clock i = 100 - i

clock-IsPrompt : IsPrompt clock
clock-IsPrompt i j = omega arith

batch_packets-received_example :
    (records : List (List ℕ)) × (batch_packets packets 20 ≡ ok records)
    × All (Fits 20) records
    × (receive clock records ≡ ok (empty, replicate 3 7 ∷ replicate 5 8 ∷ replicate 18 9 ∷ []))
batch_packets-received_example =
    batch_packets-received packets 20 clock
      ((refl, omega arith), ((refl, omega arith), ((refl, omega arith), tt))) (omega arith)
      (omega arith) clock-IsPrompt
