-- ===== src/Record/Receiver.antt =====
-- `RecordReceiver` (rekaserdoba/src/record.rs).
pub mod Opening
use reka_serdoba.Common.{
  ℕ, ◌+◌, Bool, true, false, not, ◌||◌, List, length, take, drop, ◌==◌, bytes_eq, if◌then◌else◌,
  Result, ok, err, ◌>>=◌,
}
use reka_serdoba.Errors.{
  Error, record_context_mismatch, record_length_mismatch, record_rejected_by_replay_precheck,
  record_replayed,
}
use reka_serdoba.Crypto.{Crypto}
use reka_serdoba.Record.Header.{
  RecordKind, data_record, control_record, RecordHeader, parse, record_header_len,
}
use reka_serdoba.Record.Keys.{TrafficKey, open_with}
use reka_serdoba.Record.Sender.{key_phase}
use reka_serdoba.Record.Replay
use reka_serdoba.Record.Replay.{ReplayWindow, plausible, commit_authenticated}

pub record RecordReceiver : Type 0 where
  pub kind : RecordKind
  pub session_id : List ℕ
  pub epoch : ℕ
  pub key : TrafficKey
  pub replay : ReplayWindow

-- `RecordReceiver::new`
unfoldable pub new : RecordKind → List ℕ → ℕ → TrafficKey → ℕ → Result Error RecordReceiver
new kind session_id epoch key replay_window = do
  replay ← Replay.new replay_window
  ok (record { kind = kind; session_id = session_id; epoch = epoch; key = key; replay = replay })

abbrev pub same_kind : RecordKind → RecordKind → Bool
same_kind data_record data_record = true
same_kind control_record control_record = true
same_kind data_record control_record = false
same_kind control_record data_record = false

abbrev pub same_bool : Bool → Bool → Bool
same_bool true b = b
same_bool false b = not b

-- The first condition of `open`: the header belongs to another context.
unfoldable pub context_mismatch : RecordReceiver → RecordHeader → Bool
context_mismatch r h =
    not (same_kind h.kind r.kind)
    || not (bytes_eq h.session_id r.session_id)
    || not (h.epoch == r.epoch)
    || not (same_bool h.key_phase (key_phase r.epoch))

-- The end of `open`: only an authenticated number is committed.
unfoldable pub finish :
    RecordReceiver → ℕ → Result Error (List ℕ) → RecordReceiver × Result Error (List ℕ)
finish r number (err e) = (r, err e)
finish r number (ok plaintext) =
    let (replay, done) = commit_authenticated r.replay number in
    (record r { replay = replay }, if done then ok plaintext else err record_replayed)

-- `open` once the header is parsed.
unfoldable pub open_parsed :
    Crypto → RecordReceiver → List ℕ → RecordHeader → RecordReceiver × Result Error (List ℕ)
unfolding context_mismatch
open_parsed c r encoded h =
    if context_mismatch r h
    then (r, err record_context_mismatch)
    else if not (length encoded == record_header_len + h.ciphertext_len)
    then (r, err record_length_mismatch)
    else if not (plausible r.replay h.number)
    then (r, err record_rejected_by_replay_precheck)
    else finish r h.number (
        open_with c r.key h.number (take record_header_len encoded)
          (drop record_header_len encoded))

-- `RecordReceiver::open`
unfoldable pub open_record :
    Crypto → RecordReceiver → List ℕ → RecordReceiver × Result Error (List ℕ)
open_record c r encoded = elim (parse encoded) [
  | err e ↦ (r, err e)
  | ok h ↦ open_parsed c r encoded h
]
