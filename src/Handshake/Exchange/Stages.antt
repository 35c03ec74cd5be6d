-- ===== src/Handshake/Exchange/Stages.antt =====
-- `inner_handshake` on a carrier (rekaserdoba/src/main.rs).
use reka_serdoba.Common.Steps.{◌>>=◌, ◌>>◌, lift}
use reka_serdoba.Crypto.{Crypto}
use reka_serdoba.Rekey.Auth.{transcript_next}
use reka_serdoba.Carrier.Events.{LinkStep, recv_binary, send_binary}
use reka_serdoba.Handshake.Auth.{Client}
use reka_serdoba.Handshake.Exchange.{
  ServerKeys, Draws, EstablishedSession, Greeting, HandshakeKeys, greet, handshake_keys,
  accept_auth, finish_message, accept_confirm, establish,
}

module _ (c : Crypto) (server : ServerKeys) (draws : Draws) where
  -- From the second message on.
  unfoldable pub authenticate : Client → Greeting → HandshakeKeys → LinkStep EstablishedSession
  authenticate client g keys = do
    encrypted_auth ← recv_binary
    lift (accept_auth c server draws client g keys encrypted_auth)
    let t3 = transcript_next c g.t2 encrypted_auth
    encrypted_finish ← lift (finish_message c server draws client keys t3)
    send_binary encrypted_finish
    let t4 = transcript_next c t3 encrypted_finish
    encrypted_confirm ← recv_binary
    lift (accept_confirm c server draws keys t4 encrypted_confirm)
    let t5 = transcript_next c t4 encrypted_confirm
    lift (establish c server draws client keys t5)

  -- `inner_handshake`
  unfoldable pub inner_handshake : Client → LinkStep EstablishedSession
  inner_handshake client = do
    client_hello ← recv_binary
    g ← lift (greet c server draws client client_hello)
    send_binary g.server_hello
    keys ← lift (handshake_keys c server draws g)
    authenticate client g keys
