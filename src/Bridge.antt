-- ===== src/Bridge.antt =====
-- The client of an H3 tunnel (rekaserdoba/src/bin/h3_bridge.rs): how it opens the gate, and
-- `take_local_message`. The base64 functions are arguments, as are the TLS exporter, the time and
-- the random nonce.
pub mod Token
pub mod Admitted
use reka_serdoba.Common.{
  ℕ, ◌+◌, Bool, ◌||◌, Option, none, some, List, [], ◌∷◌, ◌++◌, length, take, drop, ltb, ◌==◌,
  if◌then◌else◌, Result, ok, err, ◌>>=◌, ok_or,
}
use reka_serdoba.Common.Words.{to_be, from_be}
use reka_serdoba.Errors.{
  Error, invalid_base64, invalid_key_length, invalid_hmac_key, tls_exporter_unavailable,
  invalid_local_message_length,
}
use reka_serdoba.Crypto.{Crypto}
use reka_serdoba.Record.Keys.{codes}
use reka_serdoba.Rekey.Auth.{hash_parts}
use reka_serdoba.Config.{decode_fixed}

pub record Bundle : Type 0 where
  pub client_id_b64 : List ℕ
  pub gate_key_b64 : List ℕ

-- The bytes under the MAC.
unfoldable pub token_message : List ℕ → List ℕ → List ℕ → List ℕ → ℕ → List ℕ → List ℕ
token_message client_id exporter authority path unix_time nonce =
    codes "RekaSerdoba/1 gate"
    ++ (exporter
        ++ (codes "CONNECT"
            ++ (0
                ∷ (authority
                    ++ (0 ∷ (path ++ (0 ∷ (client_id ++ (to_be 8 unix_time ++ nonce)))))))))

module _ (c : Crypto) (decode : List ℕ → Option (List ℕ)) (encode : List ℕ → List ℕ) where
  -- `gate_token`
  unfoldable pub gate_token :
      List ℕ → List ℕ → List ℕ → List ℕ → List ℕ → ℕ → List ℕ → Result Error (List ℕ)
  gate_token client_id gate_key exporter authority path unix_time nonce = do
    mac ←
        ok_or
          (c.hmac_sha256 gate_key (token_message client_id exporter authority path unix_time nonce))
          invalid_hmac_key
    ok (encode (client_id ++ (to_be 8 unix_time ++ (nonce ++ mac))))

  -- The part of `main` that makes the token, once the connection is there.
  unfoldable pub open_gate :
      Bundle → (List ℕ → Option (List ℕ)) → List ℕ → List ℕ → ℕ → List ℕ → Result Error (List ℕ)
  open_gate bundle export authority path unix_time nonce = do
    client_id ← decode_fixed decode 16 invalid_base64 invalid_key_length bundle.client_id_b64
    gate_key ← decode_fixed decode 32 invalid_base64 invalid_key_length bundle.gate_key_b64
    exporter ←
        ok_or (export (hash_parts c (authority ∷ (0 ∷ []) ∷ path ∷ []))) tls_exporter_unavailable
    gate_token client_id gate_key exporter authority path unix_time nonce

abbrev pub max_local_message : ℕ
max_local_message = 8192

-- `take_local_message`: what stays in the buffer, and the message if it is complete.
unfoldable pub take_local_message : List ℕ → List ℕ × Result Error (Option (List ℕ))
take_local_message buffered =
    if ltb (length buffered) 4
    then (buffered, ok none)
    else (let len : ℕ = from_be (take 4 buffered) in
        if len == 0 || ltb max_local_message len
        then (buffered, err invalid_local_message_length)
        else if ltb (length buffered) (4 + len)
        then (buffered, ok none)
        else (drop len (drop 4 buffered), ok (some (take len (drop 4 buffered)))))
