-- ===== src/Handshake/Hello.antt =====
-- `ClientHello` and `parse_client_hello` (rekaserdoba/src/main.rs).
pub mod Layout
pub mod Accepted
use reka_serdoba.Common.{
  ℕ, ◌+◌, ◌-◌, ◌^◌, ◌%◌, min, Bool, true, false, not, ◌||◌, List, [], ◌∷◌, ◌++◌, length, get_or,
  drop, slice, ltb, ◌==◌, if◌then◌else◌, Result, ok, err, bail_if,
}
use reka_serdoba.Common.Steps.{continue, ◌>>=◌, ◌>>◌, lift, pure}
use reka_serdoba.Common.Words.{to_be, from_be}
use reka_serdoba.Errors.{
  Error, expected_client_hello, bad_client_hello_length, unsupported_version_or_suite,
  client_clock_outside_allowed_window, retry_cookie_too_large, inner_retry_is_disabled,
  extensions_too_large, experimental_extensions_are_disabled,
}
use reka_serdoba.Handshake.Cursor.{CursorStep, new, fixed, word, skip, finish}

abbrev pub protocol_version : ℕ
protocol_version = 1

abbrev pub cipher_suite : ℕ
cipher_suite = 1

pub record ClientHello : Type 0 where
  pub handshake_id : List ℕ
  pub client_id : List ℕ
  pub client_ephemeral : List ℕ
  pub client_nonce : List ℕ

-- `(now_secs()? as i64 - client_time as i64).abs() > 300` in a release build, where the difference
-- wraps and `abs` of the least number is itself.
unfoldable pub clock_differs : ℕ → ℕ → Bool
clock_differs now client_time =
    let difference : ℕ = (now + 2 ^ 64 - client_time) % 2 ^ 64 in
    if difference == 2 ^ 63 then false else ltb 300 (min difference (2 ^ 64 - difference))

-- The end of the message, after the four values.
unfoldable pub parse_tail : ℕ → ClientHello → CursorStep ClientHello
parse_tail now hello = do
  client_time ← word 8
  lift (bail_if (clock_differs now client_time) client_clock_outside_allowed_window)
  retry_len ← word 2
  lift (bail_if (ltb 64 retry_len) retry_cookie_too_large)
  lift (bail_if (not (retry_len == 0)) inner_retry_is_disabled)
  skip retry_len
  extension_len ← word 2
  lift (bail_if (ltb 1024 extension_len) extensions_too_large)
  lift (bail_if (not (extension_len == 0)) experimental_extensions_are_disabled)
  skip extension_len
  finish
  pure hello

-- What follows type and length; the suite is not read after another version.
unfoldable pub parse_body : ℕ → CursorStep ClientHello
parse_body now = do
  version ← word 2
  lift (bail_if (not (version == protocol_version)) unsupported_version_or_suite)
  suite ← word 2
  lift (bail_if (not (suite == cipher_suite)) unsupported_version_or_suite)
  handshake_id ← fixed 16
  client_id ← fixed 16
  client_ephemeral ← fixed 32
  client_nonce ← fixed 32
  parse_tail now (record {
    handshake_id = handshake_id;
    client_id = client_id;
    client_ephemeral = client_ephemeral;
    client_nonce = client_nonce;
  })

-- `parse_client_hello`, with the seconds of the clock.
unfoldable pub parse_client_hello : ℕ → List ℕ → Result Error ClientHello
parse_client_hello now encoded =
    if ltb (length encoded) 5 || not (get_or encoded 0 0 == 0x01)
    then err expected_client_hello
    else if not (from_be (slice 1 5 encoded) == length encoded - 5)
    then err bad_client_hello_length
    else (parse_body now (new (drop 5 encoded))).1
