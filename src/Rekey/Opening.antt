-- ===== src/Rekey/Opening.antt =====
-- `RekeySession::open` (rekaserdoba/src/rekey.rs): which epoch a record belongs to.
use reka_serdoba.Common.{
  ℕ, ◌-◌, Bool, true, false, not, ◌||◌, Option, none, some, List, length, leb, ◌==◌, if◌then◌else◌,
  Result, ok, err,
}
use reka_serdoba.Common.Steps.{◌>>=◌, ◌>>◌, pure}
use reka_serdoba.Errors.{
  Error, pending_epoch_accepts_only_control_records, previous_epoch_grace_expired,
  unknown_record_epoch,
}
use reka_serdoba.Crypto.{Crypto}
use reka_serdoba.Record.Header.{RecordKind, data_record, control_record, RecordHeader, parse}
use reka_serdoba.Record.Receiver.{open_record}
use reka_serdoba.Rekey.Session.{
  SessionStep, RekeySession, EpochState, PendingEpoch, PreviousEpoch, EpochPosition, at_current,
  at_pending, at_previous, OpenedRecord, is_some_and, count_data,
}

-- `open_from`
unfoldable pub open_from :
    Crypto → EpochState → RecordKind → List ℕ → EpochState × Result Error (List ℕ)
open_from c state data_record encoded =
    let (receiver, result) = open_record c state.records.c2s_data encoded in
    (record state { records = record state.records { c2s_data = receiver } }, result)
open_from c state control_record encoded =
    let (receiver, result) = open_record c state.records.c2s_control encoded in
    (record state { records = record state.records { c2s_control = receiver } }, result)

-- `expire_previous`
unfoldable pub expire_previous : ℕ → RekeySession → RekeySession
expire_previous now s =
    if is_some_and s.previous (λ p. p.remaining_records == 0 || leb p.expires_at now)
    then record s { previous = none }
    else s

abbrev pub is_control : RecordKind → Bool
is_control data_record = false
is_control control_record = true

abbrev pub opened : RecordHeader → EpochPosition → List ℕ → OpenedRecord
opened h position plaintext = record { header = h; plaintext = plaintext; position = position }

module _ (c : Crypto) (encoded : List ℕ) (now : ℕ) (h : RecordHeader) where
  -- The three branches of `open`, by the epoch of the header. `None` is ruled out by their guards,
  -- where the source calls `expect`.
  unfoldable pub open_in_current : SessionStep (List ℕ)
  open_in_current s =
      let (state, result) = open_from c s.current h.kind encoded in
      (record s { current = state }, result)

  unfoldable pub open_current : SessionStep OpenedRecord
  unfolding open_in_current
  open_current = do
    plaintext ← open_in_current
    if is_control h.kind then pure tt else count_data (length plaintext)
    pure (opened h at_current plaintext)

  unfoldable pub open_in_pending : Option PendingEpoch → SessionStep (List ℕ)
  open_in_pending none s = (s, err unknown_record_epoch)
  open_in_pending (some pending) s =
      let (state, result) = open_from c pending.state h.kind encoded in
      (record s { pending = some (record pending { state = state }) }, result)

  unfoldable pub open_pending : SessionStep OpenedRecord
  unfolding open_in_pending
  open_pending s =
      if not (is_control h.kind)
      then (s, err pending_epoch_accepts_only_control_records)
      else (do plaintext ← open_in_pending s.pending; pure (opened h at_pending plaintext)) s

  -- A record that fails to open does not use up the grace.
  abbrev pub use_grace : PreviousEpoch → Result Error (List ℕ) → PreviousEpoch
  use_grace previous (ok plaintext) = record previous {
    remaining_records = previous.remaining_records - 1;
  }
  use_grace previous (err e) = previous

  unfoldable pub open_in_previous : Option PreviousEpoch → SessionStep (List ℕ)
  open_in_previous none s = (s, err unknown_record_epoch)
  open_in_previous (some previous) s =
      if previous.remaining_records == 0 || leb previous.expires_at now
      then (s, err previous_epoch_grace_expired)
      else (let (state, result) = open_from c previous.state h.kind encoded in
          (
            record s { previous = some (use_grace (record previous { state = state }) result) },
            result,
          ))

  unfoldable pub open_previous : SessionStep OpenedRecord
  unfolding open_in_previous
  open_previous s =
      (do plaintext ← open_in_previous s.previous; pure (opened h at_previous plaintext)) s

  -- `open` once the header is parsed.
  unfoldable pub open_at : SessionStep OpenedRecord
  unfolding open_current open_pending open_previous
  open_at s =
      if h.epoch == s.current.epoch
      then open_current s
      else if is_some_and s.pending (λ p. h.epoch == p.state.epoch)
      then open_pending s
      else if is_some_and s.previous (λ p. h.epoch == p.state.epoch)
      then open_previous s
      else (s, err unknown_record_epoch)

-- `RekeySession::open`
unfoldable pub open_session : Crypto → List ℕ → ℕ → SessionStep OpenedRecord
unfolding expire_previous
open_session c encoded now s = elim (parse encoded) [
  | err e ↦ (expire_previous now s, err e)
  | ok h ↦ open_at c encoded now h (expire_previous now s)
]
