-- ===== src/Examples/Sessions.antt =====
-- A key update from end to end.
use reka_serdoba.Common.{
  ℕ, ◌≤◌, ◌≡◌, refl, false, List, [], ◌∷◌, ◌++◌, replicate, slice, Result, ok, err,
}
use reka_serdoba.Common.Steps.{continue}
use reka_serdoba.Common.Words.{to_be, from_be}
use reka_serdoba.Errors.{Error}
use reka_serdoba.Examples.Toy.{steady}
use reka_serdoba.Record.Keys.{TrafficKey, EpochKeys, codes}
use reka_serdoba.Record.Layer.{SessionRecordLayer}
use reka_serdoba.Record.Header.{data_record, control_record}
use reka_serdoba.Record.Layer
use reka_serdoba.Record.Replay
use reka_serdoba.Record.Sender
use reka_serdoba.Record.Receiver
use reka_serdoba.Common.{bytes_eq}
use reka_serdoba.Record.Header
use reka_serdoba.Record.Keys
use reka_serdoba.Record.Frames
use reka_serdoba.Rekey.Auth
use reka_serdoba.Rekey.Opening
use reka_serdoba.Rekey.Update
use reka_serdoba.Rekey.Session
use reka_serdoba.Rekey.Session.{RekeySession, old_epoch_records}
use reka_serdoba.Rekey.Update.{accept_update_init, accept_update_commit}
use reka_serdoba.Rekey.Soundness.{IsSound}
use reka_serdoba.Rekey.Reachable.{
  Operation, opening, sealing_data, perform, perform_all, update_init, update_commit,
  update_request, new-perform_all-IsSound,
}
use reka_serdoba.Rekey.Confirm.{Confirmed, accept_full_rekey_confirm-Confirmed}
use reka_serdoba.Rekey.FullRekey.{accept_full_rekey_init}
use reka_serdoba.Rekey.Update.{accept_full_rekey_confirm}
use reka_serdoba.Rekey.Commit.{Committed, accept_update_commit-Committed}
use reka_serdoba.Rekey.Late.{opened_late, accept_update_commit-opened_late}

abbrev traffic_key : TrafficKey
traffic_key = record { key = replicate 32 1; iv = replicate 12 2 }

abbrev keys : EpochKeys
keys = record {
  c2s_data = traffic_key;
  s2c_data = traffic_key;
  c2s_control = traffic_key;
  s2c_control = traffic_key;
}

abbrev id : List ℕ
id = replicate 16 7

abbrev ok_or_else : Result Error RekeySession → RekeySession → RekeySession
ok_or_else (ok s) d = s
ok_or_else (err e) d = d

abbrev window : Replay.ReplayWindow
window = record { width = 4096; initialized = false; highest = 0; bits = replicate 64 0 }

abbrev layer : SessionRecordLayer
layer = record {
  c2s_data = record {
    kind = data_record;
    session_id = id;
    epoch = 0;
    key = traffic_key;
    replay = window;
  };
  s2c_data = Sender.new data_record id 0 traffic_key;
  c2s_control = record {
    kind = control_record;
    session_id = id;
    epoch = 0;
    key = traffic_key;
    replay = window;
  };
  s2c_control = Sender.new control_record id 0 traffic_key;
}

abbrev fresh_session : RekeySession
fresh_session = Session.start steady id (replicate 32 9) (replicate 32 5) 0 layer

started : Session.new steady id (replicate 32 9) keys (replicate 32 5) 0 ≡ ok fresh_session
unfolding Session.new Layer.new Receiver.new Replay.new
started = refl

abbrev init_body : List ℕ
init_body = 0 ∷ 0 ∷ 0 ∷ 0 ∷ 0 ∷ 0 ∷ 0 ∷ 1 ∷ (replicate 32 3 ++ replicate 32 4)

abbrev commit_body : List ℕ
commit_body = 0 ∷ 0 ∷ 0 ∷ 1 ∷ replicate 32 4

abbrev pending_session : RekeySession
pending_session = (accept_update_init steady (9 ∷ []) init_body 5 fresh_session).0

abbrev answer_of : Result Error (List ℕ) → List ℕ
answer_of (ok answer) = answer
answer_of (err e) = []

abbrev committed_session : RekeySession
committed_session = (accept_update_commit steady (8 ∷ []) commit_body 6 pending_session).0

abbrev answer : List ℕ
answer = answer_of (accept_update_commit steady (8 ∷ []) commit_body 6 pending_session).1

committed :
    accept_update_commit steady (8 ∷ []) commit_body 6 pending_session
    ≡ (committed_session, ok answer)
unfolding continue accept_update_commit accept_update_init Session.start Update.check_epochs from_be
    slice Auth.hmac_bytes bytes_eq Auth.update_input Keys.derive_epoch_keys Keys.derive_traffic_key
    Keys.full_label to_be Keys.hkdf_info Auth.confirmation_key Auth.expand_label Session.extend
    Auth.hmac_label Session.seal_frame Frames.encode Frames.wire Header.encode Header.version_flags
    Keys.expand Keys.fixed Keys.nonce Keys.seal_with Keys.zip_xor Layer.new Receiver.new Replay.new
    Sender.header Sender.key_phase Sender.new Sender.seal Auth.hash_parts Auth.transcript_next
    Opening.expire_previous Session.seal_control Update.commit_routine Update.finish_update
    Update.restart Update.set_pending Update.switch_epoch
committed = refl

new-perform_all-IsSound_example : IsSound (
    perform_all steady
      (update_init (9 ∷ []) init_body 5
        ∷ update_commit (8 ∷ []) commit_body 6
        ∷ update_request 700000000000
        ∷ [])
      fresh_session)
new-perform_all-IsSound_example =
    new-perform_all-IsSound steady id (replicate 32 9) keys (replicate 32 5) 0 fresh_session
      (update_init (9 ∷ []) init_body 5
        ∷ update_commit (8 ∷ []) commit_body 6
        ∷ update_request 700000000000
        ∷ [])
      started

accept_update_commit-Committed_example :
    Committed steady pending_session commit_body 6 committed_session
accept_update_commit-Committed_example =
    accept_update_commit-Committed steady (8 ∷ []) commit_body 6 pending_session committed_session
      answer committed

-- A record arrives, another is sent, and a second update begins.
abbrev after_commit : List Operation
after_commit =
    opening (1 ∷ []) 7 ∷ sealing_data (1 ∷ []) false ∷ update_init (9 ∷ []) init_body 8 ∷ []

pending_session-IsSound : IsSound pending_session
unfolding perform_all perform
pending_session-IsSound =
    new-perform_all-IsSound steady id (replicate 32 9) keys (replicate 32 5) 0 fresh_session
      (update_init (9 ∷ []) init_body 5 ∷ []) started

accept_update_commit-opened_late_example : opened_late steady after_commit committed_session ≤ 128
accept_update_commit-opened_late_example =
    accept_update_commit-opened_late steady (8 ∷ []) commit_body 6 pending_session committed_session
      answer after_commit pending_session-IsSound committed

-- A full rekey of the same session.
abbrev full_body : List ℕ
full_body = 0 ∷ 0 ∷ 0 ∷ 0 ∷ 0 ∷ 0 ∷ 0 ∷ 1 ∷ (replicate 16 3 ++ (replicate 32 5 ++ replicate 64 6))

abbrev rekeying_session : RekeySession
rekeying_session = (accept_full_rekey_init steady (9 ∷ []) full_body [] [] [] 5 fresh_session).0

abbrev rekeyed_session : RekeySession
rekeyed_session = (accept_full_rekey_confirm steady (8 ∷ []) commit_body 6 rekeying_session).0

abbrev full_answer : List ℕ
full_answer = answer_of (accept_full_rekey_confirm steady (8 ∷ []) commit_body 6 rekeying_session).1

confirmed :
    accept_full_rekey_confirm steady (8 ∷ []) commit_body 6 rekeying_session
    ≡ (rekeyed_session, ok full_answer)
unfolding continue accept_full_rekey_confirm accept_full_rekey_init Session.start
    Update.check_epochs from_be slice Auth.hmac_bytes bytes_eq Auth.update_input
    Keys.derive_epoch_keys Keys.derive_traffic_key Keys.full_label to_be Keys.hkdf_info
    Auth.confirmation_key Auth.expand_label Session.extend Auth.hmac_label Session.seal_frame
    Frames.encode Frames.wire Header.encode Header.version_flags Keys.expand Keys.fixed Keys.nonce
    Keys.seal_with Keys.zip_xor Layer.new Receiver.new Replay.new Sender.header Sender.key_phase
    Sender.new Sender.seal Auth.hash_parts Auth.transcript_next Opening.expire_previous
    Session.seal_control Update.confirm_full Update.finish_update Update.restart Update.set_pending
    Update.switch_epoch
confirmed = refl

accept_full_rekey_confirm-Confirmed_example :
    Confirmed steady rekeying_session commit_body 6 rekeyed_session
accept_full_rekey_confirm-Confirmed_example =
    accept_full_rekey_confirm-Confirmed steady (8 ∷ []) commit_body 6 rekeying_session
      rekeyed_session full_answer confirmed
