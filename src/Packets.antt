-- ===== src/Packets.antt =====
-- `validate_data_frame`, `validate_ipv4_packet` and `ipv4_checksum` (rekaserdoba/src/main.rs).
pub mod Checksum
pub mod Ipv4
pub mod DataFrames
use reka_serdoba.Common.{
  ℕ, zero, suc, ◌+◌, ◌-◌, ◌*◌, ◌/◌, ◌%◌, ◌^◌, bit_and, Bool, true, false, not, ◌&&◌, ◌||◌, Option,
  none, some, List, [], ◌∷◌, length, get_or, take, slice, ltb, leb, ◌==◌, bytes_eq, if◌then◌else◌,
  Result, ok, err, ◌>>=◌, ◌>>◌, bail_if,
}
use reka_serdoba.Common.Words.{from_be}
use reka_serdoba.Errors.{
  Error, invalid_ipv4_header, invalid_ipv4_header_length, invalid_ipv4_packet_length,
  ipv4_source_policy_violation, invalid_ipv4_header_checksum, unsupported_data_frame_flags,
  ipv6_is_not_enabled, keepalive_frame_must_be_empty, path_probe_too_large,
  path_probe_reply_too_large,
}
use reka_serdoba.Record.Frames.{Frame}

-- The sum over `chunks_exact(2)`, which leaves an odd byte out; headers are too short for it to
-- reach 32 bits.
unfoldable pub word_sum : List ℕ → ℕ
word_sum [] = 0
word_sum (a ∷ []) = 0
word_sum (a ∷ b ∷ rest) = a * 256 + b + word_sum rest

-- The loop `while sum >> 16 != 0`, with fuel for its rounds.
unfoldable pub fold_carry : ℕ → ℕ → ℕ
fold_carry zero sum = sum
fold_carry (suc fuel) sum =
    let next : ℕ = fold_carry fuel (sum % 2 ^ 16 + sum / 2 ^ 16) in
    if sum / 2 ^ 16 == 0 then sum else next

-- `ipv4_checksum`. A sum of 32 bits is folded after three rounds.
unfoldable pub ipv4_checksum : List ℕ → ℕ
ipv4_checksum header = 65535 - fold_carry 3 (word_sum header) % 2 ^ 16

-- `((packet[0] & 0x0f) as usize) * 4`
unfoldable pub header_len : List ℕ → ℕ
header_len packet = bit_and (get_or packet 0 0) 0x0f * 4

-- `validate_ipv4_packet`
unfoldable pub validate_ipv4_packet : List ℕ → List ℕ → Result Error (Unit {0})
validate_ipv4_packet packet expected_source = do
  bail_if (ltb (length packet) 20 || not (get_or packet 0 0 / 16 == 4)) invalid_ipv4_header
  bail_if (ltb (header_len packet) 20 || ltb (length packet) (header_len packet))
      invalid_ipv4_header_length
  bail_if
      (not (from_be (slice 2 4 packet) == length packet) || ltb 1280 (from_be (slice 2 4 packet)))
      invalid_ipv4_packet_length
  bail_if (not (bytes_eq (slice 12 16 packet) expected_source)) ipv4_source_policy_violation
  bail_if (not (ipv4_checksum (take (header_len packet) packet) == 0)) invalid_ipv4_header_checksum
  ok tt

abbrev pub empty : List ℕ → Bool
empty [] = true
empty (b ∷ bs) = false

-- `validate_data_frame`: the frame to send back, if any. Of the client only the address counts.
unfoldable pub validate_data_frame : Frame → List ℕ → Result Error (Option Frame)
validate_data_frame f tunnel_ipv4 =
    if not (f.flags == 0)
    then err unsupported_data_frame_flags
    else if f.frame_type == 0x01
    then (do validate_ipv4_packet f.body tunnel_ipv4; ok none)
    else if f.frame_type == 0x02
    then err ipv6_is_not_enabled
    else if f.frame_type == 0x04
    then (if not (empty f.body)
        then err keepalive_frame_must_be_empty
        else ok (some (record { frame_type = 0x04; flags = 0; body = [] })))
    else if f.frame_type == 0x05
    then (if ltb 64 (length f.body)
        then err path_probe_too_large
        else ok (some (record { frame_type = 0x06; flags = 0; body = f.body })))
    else if f.frame_type == 0x06
    then (if ltb 64 (length f.body) then err path_probe_reply_too_large else ok none)
    else ok none
