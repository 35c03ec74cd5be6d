-- ===== src/Rekey/Update.antt =====
-- The routine key update of `RekeySession`, and the two confirmations (rekaserdoba/src/rekey.rs).
use reka_serdoba.Common.{
  ℕ, ◌+◌, ◌-◌, ◌^◌, Bool, true, false, not, ◌||◌, none, some, List, ◌++◌, length, slice, leb, ◌==◌,
  bytes_eq, if◌then◌else◌, Result, ok, err, ok_or,
}
use reka_serdoba.Common.Steps.{◌>>=◌, ◌>>◌, lift, pure, get, modify}
use reka_serdoba.Common.Words.{to_be, from_be}
use reka_serdoba.Errors.{
  Error, invalid_or_concurrent_key_update, epoch_overflow, invalid_key_update_epoch,
  invalid_key_update_transcript_tag, invalid_key_update_commit, key_update_is_not_pending,
  key_update_commit_epoch_mismatch, routine_key_update_is_not_pending,
  invalid_key_update_commit_tag, invalid_full_rekey_confirmation, full_rekey_is_not_pending,
  full_rekey_confirmation_epoch_mismatch, invalid_full_rekey_confirmation_tag,
}
use reka_serdoba.Crypto.{Crypto}
use reka_serdoba.Record.Keys.{codes, derive_epoch_keys}
use reka_serdoba.Record.Layer
use reka_serdoba.Rekey.Auth.{update_input, hmac_bytes, hmac_label, confirmation_key}
use reka_serdoba.Rekey.Session.{
  SessionStep, RekeySession, PendingEpoch, PendingProof, routine, full, EpochState, is_some,
  default_replay_window, update_timeout, old_epoch_grace, old_epoch_records, seal_frame, extend,
}
use reka_serdoba.Rekey.Opening.{expire_previous}

abbrev pub guard : Bool → Error → SessionStep (Unit {0})
guard b e s = (s, if b then err e else ok tt)

-- The epochs that a message names: the current one and the one after it.
unfoldable pub check_epochs : ℕ → ℕ → ℕ → Error → Result Error (Unit {0})
check_epochs current current_epoch next_epoch e =
    if not (current_epoch == current)
    then err e
    else if leb (2 ^ 32 - 1) current_epoch
    then err epoch_overflow
    else if not (next_epoch == current_epoch + 1)
    then err e
    else ok tt

-- `self.pending = Some(...)`, and the deadline for its commit.
unfoldable pub set_pending : ℕ → EpochState → PendingProof → RekeySession → RekeySession
set_pending now state proof s = record s {
  pending = some (record { state = state; proof = proof });
  update_requested = true;
  update_deadline = some (now + update_timeout);
}

-- `mem::replace(&mut self.current, pending.state)` with the old epoch kept for a while.
unfoldable pub switch_epoch : ℕ → PendingEpoch → RekeySession → RekeySession
switch_epoch now pending s = record s {
  current = pending.state;
  pending = none;
  previous = some (record {
    state = s.current;
    expires_at = now + old_epoch_grace;
    remaining_records = old_epoch_records;
  });
}

-- The counters of a new epoch.
unfoldable pub restart : ℕ → RekeySession → RekeySession
restart now s = record s {
  epoch_started = now;
  data_records = 0;
  plaintext_bytes = 0;
  update_requested = false;
  update_deadline = none;
}

module _ (c : Crypto) where
  unfoldable pub accept_update_init : List ℕ → List ℕ → ℕ → SessionStep (List ℕ)
  accept_update_init encoded body now = do
    s ← get
    guard (not (length body == 72) || is_some s.pending) invalid_or_concurrent_key_update
    let current_epoch = from_be (slice 0 4 body)
    let next_epoch = from_be (slice 4 8 body)
    let update_nonce = slice 8 40 body
    let received_tag = slice 40 72 body
    lift (check_epochs s.current.epoch current_epoch next_epoch invalid_key_update_epoch)
    let input = update_input s.session_id current_epoch next_epoch update_nonce s.transcript
    expected_tag ← lift (hmac_bytes c s.current.secret input)
    guard (not (bytes_eq received_tag expected_tag)) invalid_key_update_transcript_tag
    let context = c.sha256 input
    next_secret ← lift (hmac_bytes c s.current.secret context)
    keys ← lift (derive_epoch_keys c next_secret s.session_id next_epoch)
    confirm_key ← lift (confirmation_key c next_secret s.session_id next_epoch)
    extend c encoded
    ack ← lift (hmac_label c confirm_key (codes "server ack") context)
    ack_record ← seal_frame c 0x06 (to_be 4 next_epoch ++ ack)
    extend c ack_record
    records ← lift (Layer.new s.session_id next_epoch keys default_replay_window)
    modify (λ (s : RekeySession). expire_previous now (
        set_pending now (record { epoch = next_epoch; secret = next_secret; records = records })
          (routine context confirm_key) s))
    pure ack_record

  -- Both confirmations, once the client's tag is verified. `pending` is taken before the tag of
  -- the answer is computed.
  unfoldable pub finish_update :
      List ℕ → ℕ → ℕ → PendingEpoch → List ℕ → List ℕ → SessionStep (List ℕ)
  finish_update encoded now epoch pending context confirm_key = do
    extend c encoded
    modify (λ (s : RekeySession). record s { pending = none })
    done ← lift (hmac_label c confirm_key (codes "server done") context)
    modify (switch_epoch now pending)
    done_record ← seal_frame c 0x08 (to_be 4 epoch ++ done)
    extend c done_record
    modify (restart now)
    pure done_record

  unfoldable pub commit_routine :
      List ℕ → List ℕ → ℕ → ℕ → PendingEpoch → PendingProof → SessionStep (List ℕ)
  commit_routine encoded received now epoch pending (full context confirm_key) =
      lift (err routine_key_update_is_not_pending)
  commit_routine encoded received now epoch pending (routine context confirm_key) = do
    expected ← lift (hmac_label c confirm_key (codes "client commit") context)
    guard (not (bytes_eq received expected)) invalid_key_update_commit_tag
    finish_update encoded now epoch pending context confirm_key

  unfoldable pub accept_update_commit : List ℕ → List ℕ → ℕ → SessionStep (List ℕ)
  accept_update_commit encoded body now = do
    s ← get
    guard (not (length body == 36)) invalid_key_update_commit
    let next_epoch = from_be (slice 0 4 body)
    let received_tag = slice 4 36 body
    pending ← lift (ok_or s.pending key_update_is_not_pending)
    guard (not (next_epoch == pending.state.epoch)) key_update_commit_epoch_mismatch
    commit_routine encoded received_tag now next_epoch pending pending.proof

  unfoldable pub confirm_full :
      List ℕ → List ℕ → ℕ → ℕ → PendingEpoch → PendingProof → SessionStep (List ℕ)
  confirm_full encoded received now epoch pending (routine context confirm_key) =
      lift (err full_rekey_is_not_pending)
  confirm_full encoded received now epoch pending (full context confirm_key) = do
    expected ← lift (hmac_label c confirm_key (codes "client confirm") context)
    guard (not (bytes_eq received expected)) invalid_full_rekey_confirmation_tag
    finish_update encoded now epoch pending context confirm_key

  unfoldable pub accept_full_rekey_confirm : List ℕ → List ℕ → ℕ → SessionStep (List ℕ)
  accept_full_rekey_confirm encoded body now = do
    s ← get
    guard (not (length body == 36)) invalid_full_rekey_confirmation
    let target_epoch = from_be (slice 0 4 body)
    let received = slice 4 36 body
    pending ← lift (ok_or s.pending full_rekey_is_not_pending)
    guard (not (target_epoch == pending.state.epoch)) full_rekey_confirmation_epoch_mismatch
    confirm_full encoded received now target_epoch pending pending.proof
