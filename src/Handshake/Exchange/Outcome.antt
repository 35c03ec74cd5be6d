-- ===== src/Handshake/Exchange/Outcome.antt =====
-- What a handshake that ended in a session has received, sent and verified.
use reka_serdoba.Common.{ℕ, ◌^◌, ◌<◌, ◌≡◌, List, [], ◌∷◌, ◌++◌, length, drop, slice, some, ok}
use reka_serdoba.Common.Words.{AreBytes}
use reka_serdoba.Crypto.{Crypto}
use reka_serdoba.Record.Keys.{codes}
use reka_serdoba.Rekey.Auth.{hash_parts, transcript_next}
use reka_serdoba.Carrier.Events.{binary, binary_message, Link}
use reka_serdoba.Handshake.Auth.{Client}
use reka_serdoba.Handshake.Auth.Verified.{IsAuthentic}
use reka_serdoba.Handshake.Messages.{open_handshake}
use reka_serdoba.Handshake.Exchange.{
  ServerKeys, Draws, EstablishedSession, Greeting, HandshakeKeys, greet, handshake_keys,
  finish_message, establish,
}

-- The client has confirmed the session: under the keys of the handshake, the id of the session and a
-- MAC over the transcript.
pub record IsConfirmed (c : Crypto) (draws : Draws) (keys : HandshakeKeys)
    (transcript encrypted_confirm : List ℕ) : Type 0 where
  pub confirm_plain : List ℕ
  pub opened :
      open_handshake c keys.c_hs_key keys.c_hs_iv 0x06 1 transcript encrypted_confirm
      ≡ ok confirm_plain
  pub len : length confirm_plain ≡ 48
  pub session : slice 0 16 confirm_plain ≡ draws.session_id
  pub mac :
      c.hmac_sha256 keys.c_finished
        (hash_parts c (codes "RekaSerdoba/1 client confirm" ∷ transcript ∷ draws.session_id ∷ []))
      ≡ some (drop 16 confirm_plain)

-- The client has proved who it is.
pub record IsProved (c : Crypto) (server : ServerKeys) (client : Client) (g : Greeting)
    (keys : HandshakeKeys) (encrypted_auth : List ℕ) : Type 0 where
  pub auth_plain : List ℕ
  pub opened :
      open_handshake c keys.c_hs_key keys.c_hs_iv 0x04 0 g.t2 encrypted_auth ≡ ok auth_plain
  pub authentic :
      IsAuthentic c auth_plain client g.t2 g.signature server.server_public keys.c_finished

pub record IsCompleted (c : Crypto) (server : ServerKeys) (draws : Draws) (client : Client)
    (link link' : Link) (session : EstablishedSession) : Type 0 where
  pub client_hello : List ℕ
  pub encrypted_auth : List ℕ
  pub encrypted_finish : List ℕ
  pub encrypted_confirm : List ℕ
  pub g : Greeting
  pub keys : HandshakeKeys
  pub received :
      link.incoming
      ≡ ok (binary client_hello)
        ∷ ok (binary encrypted_auth)
        ∷ ok (binary encrypted_confirm)
        ∷ link'.incoming
  pub sent :
      link'.sent
      ≡ link.sent ++ (binary_message g.server_hello ∷ binary_message encrypted_finish ∷ [])
  pub greeted : greet c server draws client client_hello ≡ ok g
  pub derived : handshake_keys c server draws g ≡ ok keys
  pub proved : IsProved c server client g keys encrypted_auth
  pub finished :
      finish_message c server draws client keys (transcript_next c g.t2 encrypted_auth)
      ≡ ok encrypted_finish
  pub confirmed :
      IsConfirmed c draws keys
        (transcript_next c (transcript_next c g.t2 encrypted_auth) encrypted_finish)
        encrypted_confirm
  pub established :
      establish c server draws client keys (
        transcript_next c
          (transcript_next c (transcript_next c g.t2 encrypted_auth) encrypted_finish)
          encrypted_confirm)
      ≡ ok session

-- A cipher's plaintext is a byte string in memory.
pub record PlaintextLaws (c : Crypto) : Type 0 where
  pub octets :
      (key nonce aad m out : List ℕ) → c.aead_decrypt key nonce aad m ≡ some out → AreBytes out
  pub short :
      (key nonce aad m out : List ℕ)
      → c.aead_decrypt key nonce aad m ≡ some out
      → length out < 2 ^ 64
