-- ===== src/Examples/Datagrams.antt =====
-- Packets and data frames at concrete inputs.
use reka_serdoba.Common.{ℕ, ◌≡◌, ◌↔◌, refl, List, [], ◌∷◌, some, ok, err, slice, bytes_eq, arith}
use reka_serdoba.Common.Words.{from_be}
use reka_serdoba.Errors.{ipv4_source_policy_violation}
use reka_serdoba.Packets
use reka_serdoba.Record.Frames.{Frame}
use reka_serdoba.Packets.{validate_ipv4_packet, validate_data_frame}
use reka_serdoba.Packets.Ipv4.{IsFrom, validate_ipv4_packet_iff}
use reka_serdoba.Packets.DataFrames.{IsEcho, validate_data_frame-IsEcho}

-- A header alone, from 10.0.0.2 to 10.0.0.1.
abbrev packet : List ℕ
packet =
    69 ∷ 0 ∷ 0 ∷ 20 ∷ 0 ∷ 0 ∷ 0 ∷ 0 ∷ 64 ∷ 17 ∷ 102 ∷ 215 ∷ 10 ∷ 0 ∷ 0 ∷ 2 ∷ 10 ∷ 0 ∷ 0 ∷ 1 ∷ []

abbrev address : List ℕ
address = 10 ∷ 0 ∷ 0 ∷ 2 ∷ []

accepted : validate_ipv4_packet packet address ≡ ok tt
unfolding validate_ipv4_packet Packets.header_len Packets.ipv4_checksum Packets.fold_carry
    Packets.word_sum slice from_be bytes_eq
accepted = refl

other_source : validate_ipv4_packet packet (10 ∷ 0 ∷ 0 ∷ 3 ∷ []) ≡ err ipv4_source_policy_violation
unfolding validate_ipv4_packet Packets.header_len Packets.ipv4_checksum Packets.fold_carry
    Packets.word_sum slice from_be bytes_eq
other_source = refl

validate_ipv4_packet_iff_example :
    (validate_ipv4_packet packet address ≡ ok tt) ↔ IsFrom address packet
validate_ipv4_packet_iff_example = validate_ipv4_packet_iff packet address (omega arith)

abbrev probe : Frame
probe = record { frame_type = 0x05; flags = 0; body = 1 ∷ 2 ∷ [] }

abbrev probe_reply : Frame
probe_reply = record { frame_type = 0x06; flags = 0; body = 1 ∷ 2 ∷ [] }

answered : validate_data_frame probe address ≡ ok (some probe_reply)
unfolding validate_data_frame
answered = refl

validate_data_frame-IsEcho_example : IsEcho probe probe_reply
validate_data_frame-IsEcho_example = validate_data_frame-IsEcho probe probe_reply address answered
