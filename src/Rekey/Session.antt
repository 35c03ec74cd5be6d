-- ===== src/Rekey/Session.antt =====
-- `RekeySession` (rekaserdoba/src/rekey.rs): its state, and the operations outside the two
-- handshakes. An `Instant` is a number of nanoseconds.
use reka_serdoba.Common.{
  ℕ, ◌+◌, ◌*◌, ◌^◌, Bool, true, false, Option, none, some, List, [], ◌∷◌, length, ltb,
  if◌then◌else◌, Result, ok, err, ok_or,
}
use reka_serdoba.Common.Steps.{Step, ◌>>=◌, ◌>>◌, lift, get, modify}
use reka_serdoba.Errors.{Error, data_record_counter_overflow, plaintext_byte_counter_overflow}
use reka_serdoba.Crypto.{Crypto}
use reka_serdoba.Record.Header.{RecordHeader}
use reka_serdoba.Record.Keys.{EpochKeys, codes}
use reka_serdoba.Record.Frames
use reka_serdoba.Record.Frames.{Frame}
use reka_serdoba.Record.Sender
use reka_serdoba.Record.Layer
use reka_serdoba.Record.Layer.{SessionRecordLayer}
use reka_serdoba.Rekey.Auth.{hash_parts, transcript_next}

abbrev pub seconds : ℕ → ℕ
seconds n = n * 1000000000

abbrev pub update_interval : ℕ
update_interval = seconds 600

abbrev pub update_record_limit : ℕ
update_record_limit = 2 ^ 20

abbrev pub update_byte_limit : ℕ
update_byte_limit = 2 ^ 30

abbrev pub update_timeout : ℕ
update_timeout = seconds 10

abbrev pub old_epoch_grace : ℕ
old_epoch_grace = seconds 3

abbrev pub old_epoch_records : ℕ
old_epoch_records = 128

-- `DEFAULT_REPLAY_WINDOW`
abbrev pub default_replay_window : ℕ
default_replay_window = 4096

pub data EpochPosition : Type 0 where
  at_current at_pending at_previous : EpochPosition

pub record OpenedRecord : Type 0 where
  pub header : RecordHeader
  pub plaintext : List ℕ
  pub position : EpochPosition

pub record EpochState : Type 0 where
  pub epoch : ℕ
  pub secret : List ℕ
  pub records : SessionRecordLayer

pub data PendingProof : Type 0 where
  routine full : (context confirm_key : List ℕ) → PendingProof

pub record PendingEpoch : Type 0 where
  pub state : EpochState
  pub proof : PendingProof

pub record PreviousEpoch : Type 0 where
  pub state : EpochState
  pub expires_at : ℕ
  pub remaining_records : ℕ

pub record RekeySession : Type 0 where
  pub session_id : List ℕ
  pub transcript : List ℕ
  pub current : EpochState
  pub pending : Option PendingEpoch
  pub previous : Option PreviousEpoch
  pub epoch_started : ℕ
  pub data_records : ℕ
  pub plaintext_bytes : ℕ
  pub update_requested : Bool
  pub update_deadline : Option ℕ

abbrev pub SessionStep : Type 0 → Type 0
SessionStep A = Step RekeySession Error A

abbrev pub is_some {ℓ} : {A : Type ℓ} → Option A → Bool
is_some none = false
is_some (some a) = true

-- `is_some_and`
abbrev pub is_some_and {ℓ} : {A : Type ℓ} → Option A → (A → Bool) → Bool
is_some_and none p = false
is_some_and (some a) p = p a

-- `RekeySession::new`, once the record layer is there.
unfoldable pub start : Crypto → List ℕ → List ℕ → List ℕ → ℕ → SessionRecordLayer → RekeySession
start c session_id epoch_secret handshake_transcript now records = record {
  session_id = session_id;
  transcript =
      hash_parts c
        (codes "RekaSerdoba/1 control transcript" ∷ handshake_transcript ∷ session_id ∷ []);
  current = record { epoch = 0; secret = epoch_secret; records = records };
  pending = none;
  previous = none;
  epoch_started = now;
  data_records = 0;
  plaintext_bytes = 0;
  update_requested = false;
  update_deadline = none;
}

-- `RekeySession::new`
unfoldable pub new : Crypto → List ℕ → List ℕ → EpochKeys → List ℕ → ℕ → Result Error RekeySession
new c session_id epoch_secret keys handshake_transcript now =
    elim (Layer.new session_id 0 keys default_replay_window) [
      | ok records ↦ ok (start c session_id epoch_secret handshake_transcript now records)
      | err e ↦ err e
    ]

-- `u64::checked_add`
abbrev pub checked_add : ℕ → ℕ → Option ℕ
checked_add a b = if ltb (a + b) (2 ^ 64) then some (a + b) else none

-- `count_data`: the first counter stays raised when the second overflows.
unfoldable pub count_data : ℕ → SessionStep (Unit {0})
count_data plaintext_len = do
  s ← get
  data_records ← lift (ok_or (checked_add s.data_records 1) data_record_counter_overflow)
  modify (λ (s : RekeySession). record s { data_records = data_records })
  bytes ← lift (ok_or (checked_add s.plaintext_bytes plaintext_len) plaintext_byte_counter_overflow)
  modify (λ (s : RekeySession). record s { plaintext_bytes = bytes })

abbrev pub with_s2c_data : RekeySession → Sender.RecordSender → RekeySession
with_s2c_data s sender = record s {
  current = record s.current { records = record s.current.records { s2c_data = sender } };
}

abbrev pub with_s2c_control : RekeySession → Sender.RecordSender → RekeySession
with_s2c_control s sender = record s {
  current = record s.current { records = record s.current.records { s2c_control = sender } };
}

module _ (c : Crypto) where
  -- `self.current.records.s2c_data.seal(...)`
  unfoldable pub seal_current_data : List ℕ → Bool → SessionStep (List ℕ)
  seal_current_data plaintext padded s =
      let (sender, result) = Sender.seal c s.current.records.s2c_data plaintext padded in
      (with_s2c_data s sender, result)

  unfoldable pub seal_data : List ℕ → Bool → SessionStep (List ℕ)
  seal_data plaintext padded = do count_data (length plaintext); seal_current_data plaintext padded

  unfoldable pub seal_control : List ℕ → Bool → SessionStep (List ℕ)
  seal_control plaintext padded s =
      let (sender, result) = Sender.seal c s.current.records.s2c_control plaintext padded in
      (with_s2c_control s sender, result)

  -- `self.current.records.s2c_control.seal(&Frame { ... }.encode()?, false)?`
  unfoldable pub seal_frame : ℕ → List ℕ → SessionStep (List ℕ)
  seal_frame frame_type body = do
    encoded ← lift (Frames.encode (record { frame_type = frame_type; flags = 0; body = body }))
    seal_control encoded false

  -- `self.transcript = transcript_next(self.transcript, encoded)`
  unfoldable pub extend : List ℕ → SessionStep (Unit {0})
  extend encoded =
      modify
        (λ (s : RekeySession). record s { transcript = transcript_next c s.transcript encoded })
