-- ===== src/Rekey/Requests.antt =====
-- `request_update_if_due`, `next_update_check` and the path check of `RekeySession`
-- (rekaserdoba/src/rekey.rs).
use reka_serdoba.Common.{
  ℕ, ◌+◌, Bool, true, not, ◌&&◌, ◌||◌, Option, none, some, List, ◌++◌, length, take, drop, ltb, leb,
  ◌==◌, bytes_eq, if◌then◌else◌, ok, err,
}
use reka_serdoba.Common.{bail_if}
use reka_serdoba.Common.Steps.{◌>>=◌, ◌>>◌, lift, pure, get, modify}
use reka_serdoba.Common.Words.{to_be}
use reka_serdoba.Errors.{
  key_update_timed_out, migration_during_rekey_is_not_allowed, invalid_migration_path_response,
}
use reka_serdoba.Crypto.{Crypto}
use reka_serdoba.Record.Keys.{codes}
use reka_serdoba.Rekey.Auth.{hmac_bytes}
use reka_serdoba.Rekey.Session.{
  SessionStep, RekeySession, is_some, is_some_and, seal_frame, extend, update_interval,
  update_record_limit, update_byte_limit, update_timeout,
}

-- The condition under which `request_update_if_due` leaves the epoch as it is.
unfoldable pub not_due : ℕ → RekeySession → Bool
not_due now s =
    ltb now (s.epoch_started + update_interval)
    && ltb s.data_records update_record_limit
    && ltb s.plaintext_bytes update_byte_limit

module _ (c : Crypto) where
  unfoldable pub request_update : ℕ → SessionStep (Option (List ℕ))
  request_update now = do
    s ← get
    encoded ← seal_frame c 0x04 (to_be 4 s.current.epoch)
    extend c encoded
    modify (λ (s : RekeySession). record s {
      update_requested = true;
      update_deadline = some (now + update_timeout);
    })
    pure (some encoded)

  unfoldable pub request_update_if_due : ℕ → SessionStep (Option (List ℕ))
  request_update_if_due now s =
      if is_some_and s.update_deadline (λ deadline. leb deadline now)
      then (s, err key_update_timed_out)
      else if is_some s.pending || s.update_requested
      then (s, ok none)
      else if not_due now s
      then (s, ok none)
      else request_update now s

  -- `path_challenge`: the record, and the proof that the client is to answer with.
  unfoldable pub path_challenge : List ℕ → List ℕ → List ℕ → SessionStep (List ℕ × List ℕ)
  path_challenge migration_secret carrier_id challenge = do
    s ← get
    lift (bail_if (is_some s.pending) migration_during_rekey_is_not_allowed)
    encoded ← seal_frame c 0x0C (carrier_id ++ challenge)
    extend c encoded
    s' ← get
    expected ← lift (
        hmac_bytes c migration_secret (
          codes "RekaSerdoba/1 path response"
          ++ (s'.session_id ++ (carrier_id ++ (challenge ++ s'.transcript)))))
    pure (encoded, expected)

  unfoldable pub accept_path_response : List ℕ → List ℕ → List ℕ → List ℕ → SessionStep (Unit {0})
  accept_path_response encoded body carrier_id expected s =
      if not (length body == 48)
        || not (bytes_eq (take 16 body) carrier_id)
        || not (bytes_eq (drop 16 body) expected)
      then (s, err invalid_migration_path_response)
      else extend c encoded s

-- `next_update_check`
unfoldable pub next_update_check : RekeySession → ℕ → ℕ
next_update_check s now = elim s.update_deadline [
  | some deadline ↦ deadline
  | none ↦
      if is_some s.pending || s.update_requested
      then now + update_timeout
      else s.epoch_started + update_interval
]
