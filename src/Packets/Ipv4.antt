-- ===== src/Packets/Ipv4.antt =====
-- The packets that `validate_ipv4_packet` accepts.
use reka_serdoba.Common.{
  ℕ, zero, suc, min, ◌/◌, ◌%◌, ◌≤◌, ◌≡◌, ◌∙◌, ◌↔◌, refl, sym, ap, List, [], ◌∷◌, length,
  length-take, get_or, take, slice, All-take, bytes_eq, bytes_eq→eq, bytes_eq_refl, ok, arith,
}
use reka_serdoba.Common.Words.{IsByte, AreBytes, from_be}
use reka_serdoba.Packets.{word_sum, ipv4_checksum, header_len, validate_ipv4_packet}
use reka_serdoba.Packets.Checksum.{ipv4_checksum_iff, word_sum_bound}

-- An IPv4 packet from `source`: version 4, a header of 20 bytes at least that is inside the packet,
-- the length of the packet in its header and at most 1280, and header words that add up to a
-- multiple of 65535.
pub record IsFrom (source packet : List ℕ) : Type 0 where
  pub long : 20 ≤ length packet
  pub version : get_or packet 0 0 / 16 ≡ 4
  pub header_min : 20 ≤ header_len packet
  pub header_max : header_len packet ≤ length packet
  pub total_len : from_be (slice 2 4 packet) ≡ length packet
  pub short : length packet ≤ 1280
  pub address : slice 12 16 packet ≡ source
  pub checksum : word_sum (take (header_len packet) packet) % 65535 ≡ 0

take-get_or : (n : ℕ) (xs : List ℕ) → 1 ≤ n → get_or (take n xs) 0 0 ≡ get_or xs 0 0
take-get_or zero xs h = absurd (omega arith)
take-get_or (suc n) [] h = refl
take-get_or (suc n) (x ∷ xs) h = refl

word_sum-pos : (h : List ℕ) → 2 ≤ length h → 1 ≤ get_or h 0 0 → 1 ≤ word_sum h
unfolding word_sum
word_sum-pos [] l k = absurd (omega arith)
word_sum-pos (a ∷ []) l k = absurd (omega arith)
word_sum-pos (a ∷ b ∷ rest) l k = omega (arith, k)

-- The header of a packet that passes the other checks: its checksum is zero just when its words
-- add up to a multiple of 65535.
header_iff :
    (packet : List ℕ)
    → AreBytes packet
    → 20 ≤ length packet
    → get_or packet 0 0 / 16 ≡ 4
    → 20 ≤ header_len packet
    → length packet ≤ 1280
    → (ipv4_checksum (take (header_len packet) packet) ≡ 0)
      ↔ (word_sum (take (header_len packet) packet) % 65535 ≡ 0)
header_iff packet bytes long version least short =
    ipv4_checksum_iff (take (header_len packet) packet)
      (word_sum-pos (take (header_len packet) packet) (omega (arith, len, least, long))
        (omega (arith, take-get_or (header_len packet) packet (omega (arith, least)), version)))
      (omega (
        arith,
        word_sum_bound (take (header_len packet) packet)
            (All-take IsByte (header_len packet) packet bytes),
        len,
        short,
      ))
  where
    len : length (take (header_len packet) packet) ≡ min (header_len packet) (length packet)
    len = length-take {0} (header_len packet) packet

-- `validate_ipv4_packet` accepts a byte string exactly when it is an IPv4 packet from the expected
-- source: version 4, a header of 20 bytes at least inside the packet, the length of the packet in its
-- header and at most 1280, and header words that add up to a multiple of 65535.
pub validate_ipv4_packet_iff :
    (packet source : List ℕ)
    → AreBytes packet
    → (validate_ipv4_packet packet source ≡ ok tt) ↔ IsFrom source packet
unfolding validate_ipv4_packet
validate_ipv4_packet_iff packet source bytes = (
  λ e.
      let long : 20 ≤ length packet = ground (arith, e) in
      let version : get_or packet 0 0 / 16 ≡ 4 = ground (arith, e) in
      let least : 20 ≤ header_len packet = ground (arith, e) in
      let short : length packet ≤ 1280 = ground (arith, e) in
      let zero_sum : ipv4_checksum (take (header_len packet) packet) ≡ 0 = ground (arith, e) in
      record {
        long = long;
        version = version;
        header_min = least;
        header_max = ground (arith, e);
        total_len = ground (arith, e);
        short = short;
        address = bytes_eq→eq (slice 12 16 packet) source (ground (arith, e));
        checksum = (header_iff packet bytes long version least short).0 zero_sum;
      },
  λ h. ground (
    arith,
    h.long,
    h.version,
    h.header_min,
    h.header_max,
    h.total_len,
    h.short,
    ap (bytes_eq (slice 12 16 packet)) (sym h.address) ∙ bytes_eq_refl (slice 12 16 packet),
    (header_iff packet bytes h.long h.version h.header_min h.short).1 h.checksum,
  ),
)
