-- ===== src/Handshake/Auth.antt =====
-- `Client` and `verify_client_auth` (rekaserdoba/src/main.rs).
pub mod Verified
use reka_serdoba.Common.{
  ℕ, ◌+◌, ◌≡◌, Bool, true, false, not, ◌&&◌, ◌||◌, List, [], ◌∷◌, ◌++◌, length, take, ltb, leb,
  ◌==◌, bytes_eq, if◌then◌else◌, Result, ok, err, bail_if,
}
use reka_serdoba.Common.Steps.{continue, ◌>>=◌, ◌>>◌, lift, pure, get}
use reka_serdoba.Errors.{
  Error, short_client_auth, invalid_requested_mtu, extensions_too_large, client_id_mismatch,
  client_key_id_mismatch, invalid_client_signature, invalid_auth_layout, invalid_client_finished,
}
use reka_serdoba.Crypto.{Crypto}
use reka_serdoba.Record.Keys.{codes}
use reka_serdoba.Rekey.Auth.{hash_parts, hmac_bytes}
use reka_serdoba.Handshake.Cursor.{Cursor, CursorStep, new, fixed, word, skip, finish}
use reka_serdoba.Handshake.Messages.{key_id}

pub record Client : Type 0 where
  pub id : List ℕ
  pub gate_key : List ℕ
  pub public_key : List ℕ
  pub tunnel_ipv4 : List ℕ
  pub session_lifetime_seconds : ℕ
  pub bandwidth_bytes_per_second : ℕ
  pub session_quota_bytes : ℕ

-- What the message holds, with the two positions that are kept.
pub record ClientAuth : Type 0 where
  pub client_id : List ℕ
  pub client_key_id : List ℕ
  pub signature_offset : ℕ
  pub signature_bytes : List ℕ
  pub finished_offset : ℕ
  pub received_finished : List ℕ

-- The part of `verify_client_auth` that reads the message.
unfoldable pub parse_auth : CursorStep ClientAuth
parse_auth = do
  client_id ← fixed 16
  client_key_id ← fixed 16
  features ← word 4
  mtu ← word 2
  lift (bail_if (not (leb 1200 mtu && leb mtu 1500)) invalid_requested_mtu)
  extension_len ← word 2
  lift (bail_if (ltb 1024 extension_len) extensions_too_large)
  skip extension_len
  before_signature ← get
  signature_bytes ← fixed 64
  before_finished ← get
  received_finished ← fixed 32
  finish
  pure (record {
    client_id = client_id;
    client_key_id = client_key_id;
    signature_offset = before_signature.pos;
    signature_bytes = signature_bytes;
    finished_offset = before_finished.pos;
    received_finished = received_finished;
  })

module _ (c : Crypto) where
  unfoldable pub signature_input : List ℕ → List ℕ → List ℕ → List ℕ → List ℕ → List ℕ
  signature_input t2 server_signature server_public id client_key_id = hash_parts c (
      codes "RekaSerdoba/1 client signature"
      ∷ t2
      ∷ server_signature
      ∷ server_public
      ∷ id
      ∷ client_key_id
      ∷ [])

  unfoldable pub proof_input : List ℕ → List ℕ → List ℕ
  proof_input t2 auth_without_finished =
      hash_parts c (codes "RekaSerdoba/1 client finished" ∷ t2 ∷ auth_without_finished ∷ [])

  -- The part that checks what was read.
  unfoldable pub check_auth :
      List ℕ → Client → List ℕ → List ℕ → List ℕ → List ℕ → ClientAuth → CursorStep (Unit {0})
  check_auth plaintext client t2 server_signature server_public client_finished_key auth = do
    lift (bail_if (not (bytes_eq auth.client_id client.id)) client_id_mismatch)
    let expected_key_id = key_id c (codes "RekaSerdoba client key") client.public_key
    lift (bail_if (not (bytes_eq auth.client_key_id expected_key_id)) client_key_id_mismatch)
    let sig_input = signature_input t2 server_signature server_public client.id auth.client_key_id
    lift (
        bail_if (not (c.ed25519_verify client.public_key sig_input auth.signature_bytes))
          invalid_client_signature)
    lift (bail_if (not (auth.signature_offset + 64 == auth.finished_offset)) invalid_auth_layout)
    expected ←
        lift
          (hmac_bytes c client_finished_key (proof_input t2 (take auth.finished_offset plaintext)))
    lift (bail_if (not (bytes_eq auth.received_finished expected)) invalid_client_finished)

  -- `verify_client_auth`
  unfoldable pub verify_client_auth :
      List ℕ → Client → List ℕ → List ℕ → List ℕ → List ℕ → Result Error (Unit {0})
  verify_client_auth plaintext client t2 server_signature server_public client_finished_key =
      if ltb (length plaintext) (16 + 16 + 4 + 2 + 2 + 64 + 32)
      then err short_client_auth
      else ((do
        auth ← parse_auth
        check_auth plaintext client t2 server_signature server_public client_finished_key auth)
          (new plaintext)).1
