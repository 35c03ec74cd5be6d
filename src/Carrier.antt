-- ===== src/Carrier.antt =====
-- `take_carrier_message` (rekaserdoba/src/main.rs): messages with a length in front, cut out of a
-- stream. The message is what `encoded[4..]` is, and the rest what `split_to` leaves.
pub mod Framing
pub mod Events
pub mod Receiving
pub mod Streams
pub mod Messages
use reka_serdoba.Common.{
  ℕ, ◌+◌, Bool, ◌||◌, Option, none, some, List, length, take, drop, ltb, ◌==◌, if◌then◌else◌,
  Result, ok, err,
}
use reka_serdoba.Common.Words.{from_be}
use reka_serdoba.Errors.{Error, invalid_carrier_message_length}

-- `MAX_ENCRYPTED_HANDSHAKE`
abbrev pub max_encrypted_handshake : ℕ
max_encrypted_handshake = 4096 + 16

-- `MAX_CARRIER_MESSAGE`
abbrev pub max_carrier_message : ℕ
max_carrier_message = max_encrypted_handshake + 256

-- `take_carrier_message`: what stays in the buffer, and the message if it is complete.
unfoldable pub take_carrier_message : List ℕ → List ℕ × Result Error (Option (List ℕ))
take_carrier_message buffered =
    if ltb (length buffered) 4
    then (buffered, ok none)
    else (let len : ℕ = from_be (take 4 buffered) in
        if len == 0 || ltb max_carrier_message len
        then (buffered, err invalid_carrier_message_length)
        else if ltb (length buffered) (4 + len)
        then (buffered, ok none)
        else (drop len (drop 4 buffered), ok (some (take len (drop 4 buffered)))))
