-- ===== src/Bridge/Admitted.antt =====
-- The token that the client makes opens the gate of the server (rekaserdoba/src/bin/h3_bridge.rs,
-- rekaserdoba/src/main.rs).
use reka_serdoba.Common.{
  ℕ, ◌+◌, ◌-◌, ◌^◌, Bool, ◌≤◌, ◌<◌, ◌≡◌, ◌∙◌, refl, ap, true, false, Option, none, some, List, ◌++◌,
  length, slice, ◌==◌, bytes_eq_refl, Result, ok, err, arith,
}
use reka_serdoba.Common.Words.{from_be, from_be-to_be}
use reka_serdoba.Errors.{Error}
use reka_serdoba.Crypto.{Crypto}
use reka_serdoba.Record.Keys.{codes}
use reka_serdoba.Crypto.{HmacLaws}
use reka_serdoba.Admission.{check_admission_rate}
use reka_serdoba.Gate.{
  outside_window, gate_window_secs, gate_replay, seen_at, retain, check_replay, check_token,
  validate_gate_token, validate_h3_gate,
}
use reka_serdoba.Handshake.Auth.{Client}
use reka_serdoba.Config.{H3Config, decode_fixed}
use reka_serdoba.Tunnels.{
  AppState, handshake, Times, H3Session, client_of, key_of, is_operational, check_rate, pass_gates,
  h3_exporter_context, handle_h3_session,
}
use reka_serdoba.Common.Steps.{continue}
use reka_serdoba.Bridge.{Bundle, token_message, gate_token, open_gate}
use reka_serdoba.Bridge.Token.{
  token_bytes, token_len, token_id, token_time, token_mac, gate_message-token, token_key-token,
  inside_window,
}

-- The first message of a session whose client opens the gate.
abbrev pub sent : Result Error (List ℕ) → Option (List ℕ)
sent (ok encoded) = some encoded
sent (err e) = none

abbrev pub opening_session :
    Crypto
    → (List ℕ → Option (List ℕ))
    → (List ℕ → List ℕ)
    → Bundle
    → (List ℕ → Option (List ℕ))
    → H3Config
    → ℕ
    → ℕ
    → List ℕ
    → H3Session
opening_session c decode encode bundle export cfg peer unix_time nonce = record {
  peer = peer;
  exporter = export;
  first_message =
      sent (open_gate c decode encode bundle export cfg.authority cfg.path unix_time nonce);
}

-- The bundle of a client whose key the server has.
pub record IsKnown (decode : List ℕ → Option (List ℕ)) (bundle : Bundle) (s : AppState)
    (client : Client) : Type 0 where
  pub client_id : List ℕ
  pub id_decoded : decode bundle.client_id_b64 ≡ some client_id
  pub id_len : length client_id ≡ 16
  pub key_decoded : decode bundle.gate_key_b64 ≡ some client.gate_key
  pub key_len : length client.gate_key ≡ 32
  pub found : client_of s.runtime client_id ≡ some client

module _ (c : Crypto) (hmac : HmacLaws c) (decode : List ℕ → Option (List ℕ))
    (encode : List ℕ → List ℕ) (decode-encode : (x : List ℕ) → decode (encode x) ≡ some x) where
  decode_fixed-ok :
      (size : ℕ) (e e' : Error) (encoded bytes : List ℕ)
      → decode encoded ≡ some bytes
      → length bytes ≡ size
      → decode_fixed decode size e e' encoded ≡ ok bytes
  unfolding decode_fixed
  decode_fixed-ok size e e' encoded bytes decoded len =
      let right : (length bytes == size) ≡ true = ground (arith, len) in
      rw (decoded, decode_fixed) (rw right refl)

  open_gate-token :
      (bundle : Bundle) (s : AppState) (client : Client) (export : List ℕ → Option (List ℕ))
      (exporter authority path : List ℕ) (unix_time : ℕ) (nonce : List ℕ)
      (known : IsKnown decode bundle s client)
      → export (h3_exporter_context c decode authority path) ≡ some exporter
      → open_gate c decode encode bundle export authority path unix_time nonce
        ≡ ok (
            encode (
              token_bytes known.client_id unix_time nonce (
                hmac.tag client.gate_key
                  (token_message known.client_id exporter authority path unix_time nonce))))
  unfolding open_gate gate_token h3_exporter_context
  open_gate-token bundle s client export exporter authority path unix_time nonce known exported =
      rw (decode_fixed-ok 16 _ _ bundle.client_id_b64 known.client_id known.id_decoded known.id_len)
        (rw
          (decode_fixed-ok 32 _ _ bundle.gate_key_b64 client.gate_key known.key_decoded
            known.key_len)
          (rw exported (
            rw
              (hmac.made client.gate_key
                (token_message known.client_id exporter authority path unix_time nonce))
              refl)))

  check_token-token :
      (bundle : Bundle) (s : AppState) (client : Client) (exporter authority path : List ℕ)
      (unix_time wall : ℕ) (nonce : List ℕ) (known : IsKnown decode bundle s client)
      → length nonce ≡ 16
      → unix_time < 2 ^ 63
      → outside_window wall unix_time ≡ false
      → let t = token_bytes known.client_id unix_time nonce (
          hmac.tag client.gate_key
            (token_message known.client_id exporter authority path unix_time nonce)) in
        check_token c decode
          (client_of s.runtime)
          key_of
          (record {
            encoded = encode t;
            label = codes "RekaSerdoba/1 gate";
            exporter = exporter;
            method = codes "CONNECT";
            authority = authority;
            path = path;
          })
          wall
        ≡ ok (t, client)
  unfolding check_token
  check_token-token bundle s client exporter authority path unix_time wall nonce known nonce_len
        time_max inside =
      let mac : List ℕ =
        hmac.tag client.gate_key
          (token_message known.client_id exporter authority path unix_time nonce) in
      let mac_len =
        hmac.tag_len client.gate_key
          (token_message known.client_id exporter authority path unix_time nonce) in
      let t : List ℕ = token_bytes known.client_id unix_time nonce mac in
      let whole : (length t == 72) ≡ true =
        ground
          (arith, token_len known.client_id unix_time nonce mac known.id_len nonce_len mac_len) in
      let time : from_be (slice 16 24 t) ≡ unix_time =
        ap from_be (token_time known.client_id unix_time nonce mac known.id_len nonce_len mac_len)
        ∙ from_be-to_be 8 unix_time (omega (arith, time_max)) in
      rw (decode-encode t, check_token)
        (rw whole (
          rw (token_id known.client_id unix_time nonce mac known.id_len nonce_len mac_len) (
            rw known.found (
              rw time (
                rw inside (
                  rw
                    (gate_message-token known.client_id unix_time nonce mac known.id_len nonce_len
                      mac_len (encode t) exporter authority path (omega (arith, time_max)))
                    (rw
                      (hmac.made client.gate_key
                        (token_message known.client_id exporter authority path unix_time nonce))
                      (rw
                        (token_mac known.client_id unix_time nonce mac known.id_len nonce_len
                          mac_len)
                        (rw (bytes_eq_refl mac) refl)))))))))

  -- A client that the server knows, with its own key and a fresh nonce of 16 bytes, whose clock is
  -- at most 90 seconds off, is let in as that client by the token that it makes over its own end of
  -- the TLS connection, if the server is operational and the source below its rate.
  pub open_gate-admitted :
      (is_text : List ℕ → Bool) (bundle : Bundle) (s : AppState) (client : Client)
      (export : List ℕ → Option (List ℕ)) (exporter : List ℕ) (cfg : H3Config) (peer unix_time : ℕ)
      (nonce : List ℕ) (times : Times)
      → ((x : List ℕ) → is_text (encode x) ≡ true)
      → (known : IsKnown decode bundle s client)
      → export (h3_exporter_context c decode cfg.authority cfg.path) ≡ some exporter
      → length nonce ≡ 16
      → unix_time < 2 ^ 63
      → times.wall < 2 ^ 63
      → times.wall ≤ unix_time + gate_window_secs
      → unix_time ≤ times.wall + gate_window_secs
      → seen_at (known.client_id ++ nonce) (retain (times.now - gate_replay) s.runtime.gate_replay)
        ≡ none
      → is_operational s ≡ true
      → (check_admission_rate peer times.rate s.runtime.admission_rate).1 ≡ ok tt
      → (handle_h3_session c decode is_text cfg
          (opening_session c decode encode bundle export cfg peer unix_time nonce)
          times
          s).1
        ≡ ok (handshake client)
  unfolding handle_h3_session check_rate continue pass_gates validate_h3_gate validate_gate_token
      check_replay
  open_gate-admitted is_text bundle s client export exporter cfg peer unix_time nonce times text
        known exported nonce_len time_max wall_max late early fresh operational rate =
      let mac : List ℕ =
        hmac.tag client.gate_key
          (token_message known.client_id exporter cfg.authority cfg.path unix_time nonce) in
      let mac_len =
        hmac.tag_len client.gate_key
          (token_message known.client_id exporter cfg.authority cfg.path unix_time nonce) in
      let t : List ℕ = token_bytes known.client_id unix_time nonce mac in
      let made =
        open_gate-token bundle s client export exporter cfg.authority cfg.path unix_time nonce known
          exported in
      let passed =
        check_token-token bundle s client exporter cfg.authority cfg.path unix_time times.wall nonce
          known nonce_len time_max
          (inside_window times.wall unix_time wall_max time_max late early) in
      let key =
        token_key-token known.client_id unix_time nonce mac known.id_len nonce_len mac_len in
      rw operational (
        rw rate (
          rw exported (
            rw made (
              rw (text t) (
                rw (passed, pass_gates, validate_gate_token)
                  (rw (key, check_replay) (rw fresh refl)))))))
