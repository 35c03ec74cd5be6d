-- ===== src/Record/Sender.antt =====
-- `RecordSender` (rekaserdoba/src/record.rs). The counter is an atomic that is used through one
-- handle at a time here.
pub mod Numbers
use reka_serdoba.Common.{
  ℕ, ◌+◌, ◌%◌, ◌^◌, Bool, not, List, ◌++◌, length, ltb, leb, ◌==◌, if◌then◌else◌, Result, ok, err,
  bit_and,
}
use reka_serdoba.Errors.{Error, record_plaintext_too_large, record_hard_limit_reached}
use reka_serdoba.Crypto.{Crypto}
use reka_serdoba.Record.Header.{RecordKind, RecordHeader, encode, max_ciphertext_len}
use reka_serdoba.Record.Keys.{TrafficKey, seal_with}

-- `MAX_RECORDS_PER_EPOCH`
abbrev pub max_records_per_epoch : ℕ
max_records_per_epoch = 2 ^ 32

pub record RecordSender : Type 0 where
  pub kind : RecordKind
  pub session_id : List ℕ
  pub epoch : ℕ
  pub key : TrafficKey
  pub next_number : ℕ

-- `RecordSender::new`
unfoldable pub new : RecordKind → List ℕ → ℕ → TrafficKey → RecordSender
new kind session_id epoch key = record {
  kind = kind;
  session_id = session_id;
  epoch = epoch;
  key = key;
  next_number = 0;
}

-- `epoch & 1 != 0`
unfoldable pub key_phase : ℕ → Bool
key_phase epoch = not (bit_and epoch 1 == 0)

-- The header of the next record.
unfoldable pub header : RecordSender → List ℕ → Bool → RecordHeader
header s plaintext padded = record {
  kind = s.kind;
  key_phase = key_phase s.epoch;
  padded = padded;
  session_id = s.session_id;
  epoch = s.epoch;
  number = s.next_number;
  ciphertext_len = (length plaintext + 16) % 2 ^ 16;
}

-- The message of a sealed record, behind its header.
abbrev pub framed : List ℕ → Result Error (List ℕ) → Result Error (List ℕ)
framed encoded_header (ok ciphertext) = ok (encoded_header ++ ciphertext)
framed encoded_header (err e) = err e

-- `RecordSender::seal`: `fetch_add` wraps at 64 bits, and past the limit the counter is put back.
unfoldable pub seal : Crypto → RecordSender → List ℕ → Bool → RecordSender × Result Error (List ℕ)
seal c s plaintext padded =
    if ltb max_ciphertext_len (length plaintext + 16)
    then (s, err record_plaintext_too_large)
    else if leb max_records_per_epoch s.next_number
    then (record s { next_number = max_records_per_epoch }, err record_hard_limit_reached)
    else (
      record s { next_number = (s.next_number + 1) % 2 ^ 64 },
      (let h = encode (header s plaintext padded) in
          framed h (seal_with c s.key s.next_number h plaintext)),
    )
