-- ===== src/Handshake/Exchange.antt =====
-- `inner_handshake` and `EstablishedSession` (rekaserdoba/src/main.rs): three messages from the
-- client, two to it. What the server draws at random and reads off its clocks is an argument.
pub mod Stages
pub mod Outcome
pub mod Completed
use reka_serdoba.Common.{
  ℕ, not, List, [], ◌∷◌, ◌++◌, length, drop, replicate, slice, ltb, ◌==◌, ◌||◌, bytes_eq, Result,
  ok, err, ◌>>=◌, ◌>>◌, bail_if,
}
use reka_serdoba.Common.Words.{to_be}
use reka_serdoba.Errors.{
  Error, client_hello_too_large, client_selector_mismatch, all_zero_x25519_output,
  invalid_client_finish, invalid_client_confirmation,
}
use reka_serdoba.Crypto.{Crypto}
use reka_serdoba.Record.Keys.{ApplicationSecrets, codes, derive_application_secrets}
use reka_serdoba.Rekey.Auth.{hash_parts, transcript_next, hmac_bytes}
use reka_serdoba.Rekey.Session
use reka_serdoba.Rekey.Session.{RekeySession}
use reka_serdoba.Fragment
use reka_serdoba.Fragment.{FragmentReassembler}
use reka_serdoba.Policy
use reka_serdoba.Policy.{SessionPolicy}
use reka_serdoba.Handshake.Hello.{ClientHello, parse_client_hello, protocol_version, cipher_suite}
use reka_serdoba.Handshake.Auth.{Client, verify_client_auth}
use reka_serdoba.Handshake.Messages.{
  max_clear_handshake, encode_handshake, assigned_parameters, seal_handshake, open_handshake,
  expand_handshake_label, transcript_initial,
}

-- The keys of the server.
pub record ServerKeys : Type 0 where
  pub server_signing : List ℕ
  pub server_public : List ℕ
  pub server_key_id : List ℕ

-- What a handshake draws, and the times at which it looks: the clock's seconds for the hello and
-- for the answer, and the two instants at the end.
pub record Draws : Type 0 where
  pub server_secret : List ℕ
  pub server_nonce : List ℕ
  pub session_id : List ℕ
  pub hello_seconds : ℕ
  pub server_seconds : ℕ
  pub crypto_started : ℕ
  pub policy_started : ℕ

pub record EstablishedSession : Type 0 where
  pub session_id : List ℕ
  pub crypto : RekeySession
  pub fragments : FragmentReassembler
  pub policy : SessionPolicy
  pub migration_secret : List ℕ
  pub resumption_secret : List ℕ
  pub exporter_secret : List ℕ

-- The answer to a hello: the message, its signature, and the transcript with both messages.
pub record Greeting : Type 0 where
  pub hello : ClientHello
  pub signature : List ℕ
  pub server_hello : List ℕ
  pub t2 : List ℕ

pub record HandshakeKeys : Type 0 where
  pub hk : List ℕ
  pub c_hs_key : List ℕ
  pub s_hs_key : List ℕ
  pub c_hs_iv : List ℕ
  pub s_hs_iv : List ℕ
  pub c_finished : List ℕ
  pub s_finished : List ℕ

module _ (c : Crypto) (server : ServerKeys) (draws : Draws) where
  -- `sh0`; the clock is cast to 32 bits.
  unfoldable pub server_hello_body : ClientHello → List ℕ
  server_hello_body ch =
      to_be 2 protocol_version
      ++ (to_be 2 cipher_suite
          ++ (ch.handshake_id
              ++ (c.x25519_public draws.server_secret
                  ++ (draws.server_nonce
                      ++ (server.server_key_id ++ (to_be 4 draws.server_seconds ++ to_be 2 0))))))

  unfoldable pub server_signature : List ℕ → ClientHello → List ℕ
  server_signature transcript ch = c.ed25519_sign server.server_signing (
      hash_parts c (
        codes "RekaSerdoba/1 server signature"
        ∷ transcript
        ∷ c.sha256 (server_hello_body ch)
        ∷ ch.client_id
        ∷ ch.handshake_id
        ∷ []))

  -- From the first message to the answer.
  unfoldable pub greet : Client → List ℕ → Result Error Greeting
  greet client client_hello = do
    bail_if (ltb max_clear_handshake (length client_hello)) client_hello_too_large
    ch ← parse_client_hello draws.hello_seconds client_hello
    bail_if (not (bytes_eq ch.client_id client.id)) client_selector_mismatch
    let transcript = transcript_next c (transcript_initial c) client_hello
    let signature = server_signature transcript ch
    server_hello ← encode_handshake 0x03 (server_hello_body ch ++ signature)
    ok (record {
      hello = ch;
      signature = signature;
      server_hello = server_hello;
      t2 = transcript_next c transcript server_hello;
    })

  -- The keys, once the answer is sent.
  unfoldable pub handshake_keys : Greeting → Result Error HandshakeKeys
  handshake_keys g = do
    let dh = c.x25519_diffie_hellman draws.server_secret g.hello.client_ephemeral
    bail_if (bytes_eq dh (replicate 32 0)) all_zero_x25519_output
    let extract_salt = hash_parts c (
        codes "RekaSerdoba/1 handshake extract"
        ∷ g.hello.client_nonce
        ∷ draws.server_nonce
        ∷ g.t2
        ∷ [])
    let hk = c.hkdf_new extract_salt dh
    c_hs_key ← expand_handshake_label c hk (codes "client handshake key") g.t2 32
    s_hs_key ← expand_handshake_label c hk (codes "server handshake key") g.t2 32
    c_hs_iv ← expand_handshake_label c hk (codes "client handshake iv") g.t2 12
    s_hs_iv ← expand_handshake_label c hk (codes "server handshake iv") g.t2 12
    c_finished ← expand_handshake_label c hk (codes "client finished") g.t2 32
    s_finished ← expand_handshake_label c hk (codes "server finished") g.t2 32
    ok (record {
      hk = hk;
      c_hs_key = c_hs_key;
      s_hs_key = s_hs_key;
      c_hs_iv = c_hs_iv;
      s_hs_iv = s_hs_iv;
      c_finished = c_finished;
      s_finished = s_finished;
    })

  -- The second message: the client proves who it is.
  unfoldable pub accept_auth : Client → Greeting → HandshakeKeys → List ℕ → Result Error (Unit {0})
  accept_auth client g keys encrypted_auth = do
    auth_plain ← open_handshake c keys.c_hs_key keys.c_hs_iv 0x04 0 g.t2 encrypted_auth
    verify_client_auth c auth_plain client g.t2 g.signature server.server_public keys.c_finished

  -- The answer to it: the parameters of the session and a proof, under the transcript so far.
  unfoldable pub finish_message : Client → HandshakeKeys → List ℕ → Result Error (List ℕ)
  finish_message client keys transcript = do
    let params =
        assigned_parameters draws.session_id client.tunnel_ipv4 client.session_lifetime_seconds
    let proof_input =
        hash_parts c (codes "RekaSerdoba/1 server finished" ∷ transcript ∷ c.sha256 params ∷ [])
    server_proof ← hmac_bytes c keys.s_finished proof_input
    seal_handshake c keys.s_hs_key keys.s_hs_iv 0x05 0 transcript (params ++ server_proof)

  -- The third message: the client confirms the session.
  unfoldable pub accept_confirm : HandshakeKeys → List ℕ → List ℕ → Result Error (Unit {0})
  accept_confirm keys transcript encrypted_confirm = do
    confirm_plain ← open_handshake c keys.c_hs_key keys.c_hs_iv 0x06 1 transcript encrypted_confirm
    bail_if
        (not (length confirm_plain == 48)
          || not (bytes_eq (slice 0 16 confirm_plain) draws.session_id))
        invalid_client_finish
    let confirm_input =
        hash_parts c (codes "RekaSerdoba/1 client confirm" ∷ transcript ∷ draws.session_id ∷ [])
    expected ← hmac_bytes c keys.c_finished confirm_input
    bail_if (not (bytes_eq (drop 16 confirm_plain) expected)) invalid_client_confirmation

  -- The session at the end.
  unfoldable pub establish : Client → HandshakeKeys → List ℕ → Result Error EstablishedSession
  establish client keys transcript = do
    secrets ← derive_application_secrets c keys.hk transcript draws.session_id
    crypto ←
        Session.new c draws.session_id secrets.epoch_secret secrets.epoch transcript
          draws.crypto_started
    policy ←
        Policy.new client.session_lifetime_seconds client.bandwidth_bytes_per_second
          client.session_quota_bytes draws.policy_started
    ok (record {
      session_id = draws.session_id;
      crypto = crypto;
      fragments = Fragment.empty;
      policy = policy;
      migration_secret = secrets.migration;
      resumption_secret = secrets.resumption;
      exporter_secret = secrets.exporter;
    })
