-- ===== src/Handshake/Exchange/Completed.antt =====
-- About handshakes that end in a session (rekaserdoba/src/main.rs, `inner_handshake`).
use reka_serdoba.Common.{
  ℕ, ◌^◌, ◌<◌, ◌≡◌, ◌∙◌, sym, ap, inl, inr, not, ◌||◌, List, [], ◌∷◌, ◌++◌, append_assoc, length,
  get_or, take, drop, slice, ltb, ◌-◌, ◌==◌, bytes_eq, bytes_eq→eq, Bool-cases, some, Option-cases,
  Result, ok, Result-cases, arith,
}
use reka_serdoba.Common.Steps.{lift_then}
use reka_serdoba.Common.Words.{AreBytes, from_be}
use reka_serdoba.Errors.{Error}
use reka_serdoba.Crypto.{Crypto}
use reka_serdoba.Record.Keys.{codes}
use reka_serdoba.Rekey.Auth.{hash_parts, hmac_bytes}
use reka_serdoba.Carrier.Events.{binary, Link}
use reka_serdoba.Handshake.Auth.{Client}
use reka_serdoba.Handshake.Auth.Verified.{hmac_bytes_ok, verify_client_auth_ok}
use reka_serdoba.Handshake.Messages.{open_handshake, packet_nonce}
use reka_serdoba.Carrier.Receiving.{recv_then, send_then}
use reka_serdoba.Carrier.{max_encrypted_handshake}
use reka_serdoba.Handshake.Exchange.{
  ServerKeys, Draws, EstablishedSession, Greeting, HandshakeKeys, accept_auth, accept_confirm,
}
use reka_serdoba.Handshake.Exchange.Stages.{authenticate, inner_handshake}
use reka_serdoba.Handshake.Exchange.Outcome.{IsConfirmed, IsProved, IsCompleted, PlaintextLaws}

module _ (c : Crypto) (laws : PlaintextLaws c) (server : ServerKeys) (draws : Draws)
    (client : Client) where
  open_handshake_text :
      (key iv : List ℕ) (message_type sequence : ℕ) (transcript encoded out : List ℕ)
      → open_handshake c key iv message_type sequence transcript encoded ≡ ok out
      → AreBytes out × length out < 2 ^ 64
  unfolding open_handshake
  open_handshake_text key iv message_type sequence transcript encoded out e =
      elim (Bool-cases (
        ltb (length encoded) 24
        || not (get_or encoded 0 0 == message_type)
        || not (get_or encoded 1 0 == 0)
        || not (from_be (slice 2 6 encoded) == sequence))) [
          | inl p ↦ absurd (cc (rw (p, open_handshake) at e))
          | inr p ↦
              elim (Bool-cases (
                ltb max_encrypted_handshake (from_be (slice 6 8 encoded))
                || not (from_be (slice 6 8 encoded) == length encoded - 8))) [
                  | inl q ↦ absurd (cc (rw (p, open_handshake, q) at e))
                  | inr q ↦ elim (Result-cases (packet_nonce iv sequence)) [
                    | inr (f, n) ↦ absurd (cc (rw (p, open_handshake, q, n) at e))
                    | inl (number, n) ↦
                        elim (Option-cases (
                          c.aead_decrypt key number (take 8 encoded ++ transcript)
                            (drop 8 encoded))) [
                              | inl d ↦ absurd (cc (rw (p, open_handshake, q, n, d) at e))
                              | inr (plain, d) ↦
                                  let same : plain ≡ out =
                                    bytes_of (rw (p, open_handshake, q, n, d) at e) in
                                  let found = d ∙ ap some same in
                                  (
                                    laws.octets key number _ _ out found,
                                    laws.short key number _ _ out found,
                                  )
                            ]
                  ]
                ]
        ]
    where
      bytes_of : {a b : List ℕ} → Path (Result Error (List ℕ)) (ok a) (ok b) → a ≡ b
      bytes_of p = cc p

  accept_auth-IsProved :
      (g : Greeting) (keys : HandshakeKeys) (encrypted_auth : List ℕ)
      → accept_auth c server draws client g keys encrypted_auth ≡ ok tt
      → IsProved c server client g keys encrypted_auth
  unfolding accept_auth
  accept_auth-IsProved g keys encrypted_auth e =
      elim (Result-cases (open_handshake c keys.c_hs_key keys.c_hs_iv 0x04 0 g.t2 encrypted_auth)) [
        | inr (f, p) ↦ absurd (cc (rw (p, accept_auth) at e))
        | inl (plain, p) ↦
            let text =
              open_handshake_text keys.c_hs_key keys.c_hs_iv 0x04 0 g.t2 encrypted_auth plain p in
            record {
              auth_plain = plain;
              opened = p;
              authentic =
                  verify_client_auth_ok c plain client g.t2 g.signature server.server_public
                    keys.c_finished text.0 text.1 (rw (p, accept_auth) at e);
            }
      ]

  abbrev confirm_input : List ℕ → List ℕ
  confirm_input transcript =
      hash_parts c (codes "RekaSerdoba/1 client confirm" ∷ transcript ∷ draws.session_id ∷ [])

  accept_confirm-IsConfirmed :
      (keys : HandshakeKeys) (transcript encrypted_confirm : List ℕ)
      → accept_confirm c server draws keys transcript encrypted_confirm ≡ ok tt
      → IsConfirmed c draws keys transcript encrypted_confirm
  unfolding accept_confirm
  accept_confirm-IsConfirmed keys transcript encrypted_confirm e =
      elim (Result-cases
        (open_handshake c keys.c_hs_key keys.c_hs_iv 0x06 1 transcript encrypted_confirm)) [
          | inr (f, p) ↦ absurd (cc (rw (p, accept_confirm) at e))
          | inl (plain, p) ↦
              elim (Bool-cases
                (not (length plain == 48) || not (bytes_eq (slice 0 16 plain) draws.session_id))) [
                  | inl q ↦ absurd (cc (rw (p, accept_confirm, q) at e))
                  | inr q ↦
                      elim (Result-cases
                        (hmac_bytes c keys.c_finished (confirm_input transcript))) [
                          | inr (f, m) ↦ absurd (cc (rw (p, accept_confirm, q, m) at e))
                          | inl (expected, m) ↦
                              elim (Bool-cases (bytes_eq (drop 16 plain) expected)) [
                                | inr f ↦ absurd (cc (rw (p, accept_confirm, q, m, f) at e))
                                | inl f ↦ record {
                                  confirm_plain = plain;
                                  opened = p;
                                  len = ground (arith, q);
                                  session =
                                      bytes_eq→eq (slice 0 16 plain) draws.session_id
                                        (ground (arith, q));
                                  mac =
                                      hmac_bytes_ok c keys.c_finished (confirm_input transcript)
                                        expected m
                                      ∙ ap some (sym (bytes_eq→eq (drop 16 plain) expected f));
                                }
                              ]
                        ]
                ]
        ]

  -- A handshake that ends in a session has taken three messages off the carrier and sent two: a
  -- hello that it parsed for this client, the answer to it, a message that opens to a valid proof of
  -- who the client is, the parameters of the session, and a message that opens to the client's
  -- confirmation; and the session is that of the keys and of the transcript of the five messages.
  pub inner_handshake_ok :
      (link link' : Link) (session : EstablishedSession)
      → inner_handshake c server draws client link ≡ (link', ok session)
      → IsCompleted c server draws client link link' session
  unfolding inner_handshake authenticate
  inner_handshake_ok link link' session e = recv_then _ link link' session e (λ hello in1 r1 e1.
      lift_then _ _ _ link' session e1 (λ g greeted e2.
        send_then g.server_hello _ _ link' session e2 (λ e3.
          lift_then _ _ _ link' session e3 (λ keys derived e4.
            recv_then _ _ link' session e4 (λ auth in2 r2 e5.
              lift_then _ _ _ link' session e5 (λ _ proved e6.
                lift_then _ _ _ link' session e6 (λ finish finished e7.
                  send_then finish _ _ link' session e7 (λ e8.
                    recv_then _ _ link' session e8 (λ confirm in3 r3 e9.
                      lift_then _ _ _ link' session e9 (λ _ confirmed e10. record {
                        client_hello = hello;
                        encrypted_auth = auth;
                        encrypted_finish = finish;
                        encrypted_confirm = confirm;
                        g = g;
                        keys = keys;
                        received =
                            r1
                            ∙ ap (λ l. ok (binary hello) ∷ l)
                                (r2
                                  ∙ ap (λ l. ok (binary auth) ∷ l)
                                      (r3
                                        ∙ ap (λ l. ok (binary confirm) ∷ l)
                                            (ap (λ x. x.0.incoming) e10)));
                        sent = sym (ap (λ x. x.0.sent) e10) ∙ append_assoc link.sent _ _;
                        greeted = greeted;
                        derived = derived;
                        proved = accept_auth-IsProved g keys auth proved;
                        finished = finished;
                        confirmed = accept_confirm-IsConfirmed keys _ confirm confirmed;
                        established = ap (λ x. x.1) e10;
                      }))))))))))
