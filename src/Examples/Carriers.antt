-- ===== src/Examples/Carriers.antt =====
-- Carrier messages at concrete inputs.
use reka_serdoba.Common.{ℕ, ◌≡◌, refl, List, [], ◌∷◌, ◌++◌, none, some, ok, err, arith}
use reka_serdoba.Common.Words.{to_be, from_be}
use reka_serdoba.Errors.{invalid_carrier_message_length}
use reka_serdoba.Carrier.{take_carrier_message}
use reka_serdoba.Carrier.Streams.{bytes_of, chunks_of}
use reka_serdoba.Carrier.Messages.{stream_of, recv_times, recv_times-stream_of}

-- A message of two bytes and the start of another one.
abbrev stream : List ℕ
stream = 0 ∷ 0 ∷ 0 ∷ 2 ∷ 5 ∷ 6 ∷ 0 ∷ 0 ∷ []

abbrev message : List ℕ
message = 5 ∷ 6 ∷ []

taken_first : take_carrier_message stream ≡ (0 ∷ 0 ∷ [], ok (some (5 ∷ 6 ∷ [])))
unfolding take_carrier_message from_be
taken_first = refl

too_long :
    take_carrier_message (0 ∷ 1 ∷ 0 ∷ 0 ∷ [])
    ≡ (0 ∷ 1 ∷ 0 ∷ 0 ∷ [], err invalid_carrier_message_length)
unfolding take_carrier_message from_be
too_long = refl

-- Two messages in three chunks, one of them empty.
abbrev pieces : List (List ℕ)
pieces = (0 ∷ 0 ∷ []) ∷ [] ∷ (0 ∷ 2 ∷ 5 ∷ 6 ∷ 0 ∷ 0 ∷ 0 ∷ 1 ∷ 7 ∷ []) ∷ []

in_chunks : stream_of (message ∷ (7 ∷ []) ∷ []) ≡ [] ++ bytes_of pieces
unfolding to_be
in_chunks = refl

recv_times-stream_of_example :
    recv_times 3 (record { buffered = []; input = chunks_of pieces })
    ≡ ok (some (5 ∷ 6 ∷ [])) ∷ ok (some (7 ∷ [])) ∷ ok none ∷ []
recv_times-stream_of_example =
    recv_times-stream_of (message ∷ (7 ∷ []) ∷ []) pieces []
      ((omega arith, omega arith), ((omega arith, omega arith), tt))
      (omega arith, (omega arith, (omega arith, tt))) in_chunks
