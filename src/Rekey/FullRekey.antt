-- ===== src/Rekey/FullRekey.antt =====
-- `accept_full_rekey_init` of `RekeySession` (rekaserdoba/src/rekey.rs).
use reka_serdoba.Common.{
  ℕ, not, ◌||◌, List, [], ◌∷◌, ◌++◌, length, replicate, slice, ◌==◌, bytes_eq, ok_or,
}
use reka_serdoba.Common.Steps.{◌>>=◌, ◌>>◌, lift, pure, get, modify}
use reka_serdoba.Common.Words.{to_be, from_be}
use reka_serdoba.Errors.{
  invalid_epoch_secret, invalid_or_concurrent_full_rekey, invalid_full_rekey_epoch,
  invalid_full_rekey_client_signature, all_zero_full_rekey_shared_secret,
}
use reka_serdoba.Crypto.{Crypto}
use reka_serdoba.Record.Keys.{codes, fixed, derive_epoch_keys}
use reka_serdoba.Record.Layer
use reka_serdoba.Rekey.Auth.{hash_parts, hmac_bytes, expand_label}
use reka_serdoba.Rekey.Session.{
  SessionStep, full, is_some, default_replay_window, seal_frame, extend,
}
use reka_serdoba.Rekey.Update.{guard, check_epochs, set_pending}

module _ (c : Crypto) where
  -- `accept_full_rekey_init` with the client's verifying key, the server's signing key and the
  -- server's ephemeral secret. The transcript has moved on when the shared secret is refused.
  unfoldable pub accept_full_rekey_init :
      List ℕ → List ℕ → List ℕ → List ℕ → List ℕ → ℕ → SessionStep (List ℕ)
  accept_full_rekey_init encoded body client_key server_key server_secret now = do
    s ← get
    guard (not (length body == 120) || is_some s.pending) invalid_or_concurrent_full_rekey
    let current_epoch = from_be (slice 0 4 body)
    let target_epoch = from_be (slice 4 8 body)
    let rekey_id = slice 8 24 body
    let client_ephemeral = slice 24 56 body
    let client_signature = slice 56 120 body
    lift (check_epochs s.current.epoch current_epoch target_epoch invalid_full_rekey_epoch)
    let epochs = to_be 4 current_epoch ++ to_be 4 target_epoch
    let client_input = hash_parts c (
        codes "RekaSerdoba/1 full rekey client"
        ∷ s.session_id
        ∷ epochs
        ∷ rekey_id
        ∷ client_ephemeral
        ∷ s.transcript
        ∷ [])
    guard (not (c.ed25519_verify client_key client_input client_signature))
        invalid_full_rekey_client_signature
    extend c encoded
    s1 ← get
    let server_ephemeral = c.x25519_public server_secret
    let server_input = hash_parts c (
        codes "RekaSerdoba/1 full rekey server"
        ∷ s.session_id
        ∷ epochs
        ∷ rekey_id
        ∷ client_ephemeral
        ∷ server_ephemeral
        ∷ s1.transcript
        ∷ [])
    let server_signature = c.ed25519_sign server_key server_input
    reply ← seal_frame c 0x0A (epochs ++ (rekey_id ++ (server_ephemeral ++ server_signature)))
    extend c reply
    s2 ← get
    let shared = c.x25519_diffie_hellman server_secret client_ephemeral
    guard (bytes_eq shared (replicate 32 0)) all_zero_full_rekey_shared_secret
    let context = hash_parts c (
        codes "RekaSerdoba/1 full rekey"
        ∷ s.session_id
        ∷ epochs
        ∷ rekey_id
        ∷ client_ephemeral
        ∷ server_ephemeral
        ∷ client_signature
        ∷ server_signature
        ∷ s2.transcript
        ∷ [])
    next_secret ← lift (hmac_bytes c s.current.secret (shared ++ context))
    keys ← lift (derive_epoch_keys c next_secret s.session_id target_epoch)
    kdf ← lift (ok_or (c.hkdf_from_prk next_secret) invalid_epoch_secret)
    output ← lift (expand_label c kdf (codes "full rekey confirm") context 32)
    confirm_key ← lift (fixed 32 output)
    records ← lift (Layer.new s.session_id target_epoch keys default_replay_window)
    modify (
        set_pending now (record { epoch = target_epoch; secret = next_secret; records = records })
          (full context confirm_key))
    pure reply
