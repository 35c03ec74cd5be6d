-- ===== src/Record/Header.antt =====
-- `RecordKind` and `RecordHeader` with its `encode` and `parse` (rekaserdoba/src/record.rs).
-- A byte string is a list of numbers, and a `[u8; 16]` one of length 16.
pub mod Flags
pub mod RoundTrip
use reka_serdoba.Common.{
  ℕ, ◌*◌, ◌/◌, ◌^◌, ◌≤◌, ◌<◌, ◌≡◌, bit_and, bit_or, Bool, true, false, not, ◌&&◌, ◌||◌, List, ◌∷◌,
  ◌++◌, length, get_or, slice, ltb, leb, ◌==◌, if◌then◌else◌, Result, ok, err, ◌>>=◌, ◌>>◌, bail_if,
}
use reka_serdoba.Common.Words.{AreBytes, to_be, from_be}
use reka_serdoba.Errors.{
  Error, truncated_record_header, invalid_record_version_or_flags, invalid_ciphertext_length,
}

abbrev pub record_header_len : ℕ
record_header_len = 31

abbrev pub max_ciphertext_len : ℕ
max_ciphertext_len = 4096

-- `RecordKind::Data` and `RecordKind::Control`.
pub data RecordKind : Type 0 where
  data_record control_record : RecordKind

pub record RecordHeader : Type 0 where
  pub kind : RecordKind
  pub key_phase : Bool
  pub padded : Bool
  pub session_id : List ℕ
  pub epoch : ℕ
  pub number : ℕ
  pub ciphertext_len : ℕ

-- The ranges that the types of the fields give, and the bounds on the length.
pub record IsValid (h : RecordHeader) : Type 0 where
  pub session_id_len : length h.session_id ≡ 16
  pub session_id_bytes : AreBytes h.session_id
  pub epoch_u32 : h.epoch < 256 ^ 4
  pub number_u64 : h.number < 256 ^ 8
  pub len_lower : 16 ≤ h.ciphertext_len
  pub len_upper : h.ciphertext_len ≤ max_ciphertext_len

abbrev pub kind_bit : RecordKind → ℕ
kind_bit data_record = 0
kind_bit control_record = 0x08

-- `u8::from(b)`
abbrev pub bool_byte : Bool → ℕ
bool_byte false = 0
bool_byte true = 1

-- `output[0]`
unfoldable pub version_flags : RecordKind → Bool → Bool → ℕ
version_flags kind key_phase padded =
    bit_or (bit_or (bit_or 0x10 (kind_bit kind)) (bool_byte key_phase * 4)) (bool_byte padded * 2)

-- `RecordHeader::encode`: the four ranges of the output, one after the other.
unfoldable pub encode : RecordHeader → List ℕ
encode h =
    version_flags h.kind h.key_phase h.padded
    ∷ (h.session_id ++ (to_be 4 h.epoch ++ (to_be 8 h.number ++ to_be 2 h.ciphertext_len)))

-- `version_flags >> 4 != 1 || version_flags & 0x01 != 0`
unfoldable pub bad_flags : ℕ → Bool
bad_flags v = not (v / 16 == 1) || not (bit_and v 0x01 == 0)

-- `version_flags & mask != 0`
unfoldable pub flag : ℕ → ℕ → Bool
flag v mask = not (bit_and v mask == 0)

unfoldable pub kind_of : ℕ → RecordKind
unfolding flag
kind_of v = if flag v 0x08 then control_record else data_record

-- `RecordHeader::parse`
unfoldable pub parse : List ℕ → Result Error RecordHeader
parse encoded = do
  bail_if (ltb (length encoded) record_header_len) truncated_record_header
  let v = get_or encoded 0 0
  bail_if (bad_flags v) invalid_record_version_or_flags
  let len = from_be (slice 29 31 encoded)
  bail_if (not (leb 16 len && leb len max_ciphertext_len)) invalid_ciphertext_length
  ok (record {
    kind = kind_of v;
    key_phase = flag v 0x04;
    padded = flag v 0x02;
    session_id = slice 1 17 encoded;
    epoch = from_be (slice 17 21 encoded);
    number = from_be (slice 21 29 encoded);
    ciphertext_len = len;
  })
