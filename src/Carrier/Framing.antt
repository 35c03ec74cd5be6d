-- ===== src/Carrier/Framing.antt =====
-- The messages that are taken off the stream are those that were put on it.
use reka_serdoba.Common.{
  ℕ, ◌≤◌, ◌≡◌, refl, ap, some, List, ◌++◌, length, length-append, take, drop, take-append,
  drop-append, ok, arith,
}
use reka_serdoba.Common.Words.{to_be, from_be, length-to_be, from_be-to_be}
use reka_serdoba.Carrier.{max_carrier_message, take_carrier_message}

module _ (message rest : List ℕ) where
  len_of : take 4 (to_be 4 (length message) ++ (message ++ rest)) ≡ to_be 4 (length message)
  len_of =
      take-append 4 (to_be 4 (length message)) (message ++ rest) (length-to_be 4 (length message))

  after_len : drop 4 (to_be 4 (length message) ++ (message ++ rest)) ≡ message ++ rest
  after_len =
      drop-append 4 (to_be 4 (length message)) (message ++ rest) (length-to_be 4 (length message))

  pub take_written :
      1 ≤ length message
      → length message ≤ max_carrier_message
      → take_carrier_message (to_be 4 (length message) ++ (message ++ rest))
        ≡ (rest, ok (some message))
  unfolding take_carrier_message
  take_written some_bytes bounded = ground (
    arith,
    some_bytes,
    bounded,
    ap from_be len_of,
    from_be-to_be 4 (length message) (omega (arith, bounded)),
    after_len,
    length-append {0} (to_be 4 (length message)) (message ++ rest),
    length-to_be 4 (length message),
    length-append {0} message rest,
    take-append (length message) message rest refl,
    drop-append (length message) message rest refl,
  )
