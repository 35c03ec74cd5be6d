-- ===== src/Bridge/Token.antt =====
-- The parts of the token that the client makes (rekaserdoba/src/bin/h3_bridge.rs).
use reka_serdoba.Common.{
  ℕ, ◌+◌, ◌-◌, ◌%◌, ◌^◌, ◌≤◌, ◌<◌, ◌≡◌, ◌∙◌, refl, sym, ap, ap₂, false, List, [], ◌++◌, append-nil,
  length, length-append, slice, slice-append_left, slice-append_right, ltb, Bool-cases, inl, inr,
  arith,
}
use reka_serdoba.Common.Words.{to_be, length-to_be, from_be-to_be}
use reka_serdoba.Record.Keys.{codes}
use reka_serdoba.Gate.{GateRequest, gate_message, outside_window, gate_window_secs, token_key}
use reka_serdoba.Bridge.{token_message}

-- A token: the client, the time, the nonce and the tag.
abbrev pub token_bytes : List ℕ → ℕ → List ℕ → List ℕ → List ℕ
token_bytes client_id unix_time nonce mac = client_id ++ (to_be 8 unix_time ++ (nonce ++ mac))

module _ (client_id : List ℕ) (unix_time : ℕ) (nonce mac : List ℕ) (id_len : length client_id ≡ 16)
    (nonce_len : length nonce ≡ 16) (mac_len : length mac ≡ 32) where
  abbrev token : List ℕ
  token = token_bytes client_id unix_time nonce mac

  pub token_len : length token ≡ 72
  token_len = omega (
    arith,
    id_len,
    nonce_len,
    mac_len,
    length-append {0} client_id (to_be 8 unix_time ++ (nonce ++ mac)),
    length-append {0} (to_be 8 unix_time) (nonce ++ mac),
    length-append {0} nonce mac,
    length-to_be 8 unix_time,
  )

  pub token_id : slice 0 16 token ≡ client_id
  token_id = slice-append_left 16 client_id (to_be 8 unix_time ++ (nonce ++ mac)) id_len

  pub token_time : slice 16 24 token ≡ to_be 8 unix_time
  token_time =
      slice-append_right 16 16 24 client_id _ id_len (omega arith)
      ∙ slice-append_left 8 (to_be 8 unix_time) (nonce ++ mac) (length-to_be 8 unix_time)

  pub token_nonce : slice 24 40 token ≡ nonce
  token_nonce =
      slice-append_right 16 24 40 client_id _ id_len (omega arith)
      ∙ slice-append_right 8 8 24 (to_be 8 unix_time) (nonce ++ mac) (length-to_be 8 unix_time)
          (omega arith)
      ∙ slice-append_left 16 nonce mac nonce_len

  pub token_mac : slice 40 72 token ≡ mac
  token_mac =
      slice-append_right 16 40 72 client_id _ id_len (omega arith)
      ∙ slice-append_right 8 24 56 (to_be 8 unix_time) (nonce ++ mac) (length-to_be 8 unix_time)
          (omega arith)
      ∙ slice-append_right 16 16 48 nonce mac nonce_len (omega arith)
      ∙ ap (slice 0 32) (sym (append-nil mac))
      ∙ slice-append_left 32 mac [] mac_len

  abbrev asking : List ℕ → List ℕ → List ℕ → List ℕ → GateRequest
  asking encoded exporter authority path = record {
    encoded = encoded;
    label = codes "RekaSerdoba/1 gate";
    exporter = exporter;
    method = codes "CONNECT";
    authority = authority;
    path = path;
  }

  pub gate_message-token :
      (encoded exporter authority path : List ℕ)
      → unix_time < 2 ^ 64
      → gate_message (asking encoded exporter authority path) token
        ≡ token_message client_id exporter authority path unix_time nonce
  unfolding gate_message token_message
  gate_message-token encoded exporter authority path time_max =
      rw (token_id, token_time, token_nonce)
        (rw (from_be-to_be 8 unix_time (omega (arith, time_max))) refl)

  pub token_key-token : token_key token ≡ client_id ++ nonce
  token_key-token = ap₂ (λ (i n : List ℕ). i ++ n) token_id token_nonce

pub inside_window :
    (wall unix_time : ℕ)
    → wall < 2 ^ 63
    → unix_time < 2 ^ 63
    → wall ≤ unix_time + gate_window_secs
    → unix_time ≤ wall + gate_window_secs
    → outside_window wall unix_time ≡ false
unfolding outside_window
inside_window wall unix_time wall_max time_max late early = elim (Bool-cases (ltb wall unix_time)) [
  | inl before ↦
      let d : (wall + 2 ^ 64 - unix_time) % 2 ^ 64 ≡ 2 ^ 64 - (unix_time - wall) =
        ground (arith, wall_max, time_max, before, early) in
      rw d (ground (arith, early, before))
  | inr after ↦
      let d : (wall + 2 ^ 64 - unix_time) % 2 ^ 64 ≡ wall - unix_time =
        ground (arith, wall_max, time_max, after, late) in
      rw d (ground (arith, late, after))
]
