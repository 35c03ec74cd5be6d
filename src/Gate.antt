-- ===== src/Gate.antt =====
-- `Runtime::validate_gate_token` and `validate_migration_gate` (rekaserdoba/src/main.rs). The clock
-- of the system is a number of seconds, an `Instant` one of nanoseconds; the base64 decoder and the
-- table of clients are arguments. The locks are held for the whole of the code that they guard.
pub mod Kept
pub mod Once
pub mod Registry
pub mod Migrations
pub mod MigrationsOnce
use reka_serdoba.Common.{
  ℕ, ◌+◌, ◌-◌, ◌*◌, ◌%◌, ◌^◌, min, Bool, true, false, not, Option, none, some, List, [], ◌∷◌, ◌++◌,
  length, slice, ltb, leb, ◌==◌, bytes_eq, if◌then◌else◌, Result, ok, err, ◌>>=◌, ◌>>◌, bail_if,
  ok_or,
}
use reka_serdoba.Common.Words.{to_be, from_be}
use reka_serdoba.Errors.{
  Error, invalid_hmac_key, invalid_base64, invalid_token_length, unknown_client, expired_token,
  invalid_gate_mac, replayed_gate_token, invalid_migration_token_length, unknown_migration_session,
  expired_migration_token, invalid_migration_mac, replayed_migration_token,
}
use reka_serdoba.Crypto.{Crypto}
use reka_serdoba.Record.Keys.{codes}

abbrev pub gate_window_secs : ℕ
gate_window_secs = 90

-- 180 seconds.
abbrev pub gate_replay : ℕ
gate_replay = 180 * 1000000000

-- The `HashMap` of what has been seen, with the time at which it was.
abbrev pub ReplayMap : Type 0
ReplayMap = List (List ℕ × ℕ)

unfoldable pub seen_at : List ℕ → ReplayMap → Option ℕ
seen_at key [] = none
seen_at key ((k, seen) ∷ replay) = if bytes_eq k key then some seen else seen_at key replay

-- `insert`, which replaces the time of a key that is there.
unfoldable pub note : List ℕ → ℕ → ReplayMap → ReplayMap
note key now [] = (key, now) ∷ []
note key now ((k, seen) ∷ replay) =
    if bytes_eq k key then (k, now) ∷ replay else (k, seen) ∷ note key now replay

-- `retain(|_, seen| *seen >= cutoff)`
unfoldable pub retain : ℕ → ReplayMap → ReplayMap
retain cutoff [] = []
retain cutoff ((k, seen) ∷ replay) =
    if leb cutoff seen then (k, seen) ∷ retain cutoff replay else retain cutoff replay

abbrev pub is_there : Option ℕ → Bool
is_there none = false
is_there (some seen) = true

-- The end of both functions: the old entries go, and the key is noted whether it was there or not.
-- The subtraction stops at 0, where `Instant` has nothing earlier.
unfoldable pub check_replay : List ℕ → ℕ → ReplayMap → ReplayMap × Bool
check_replay key now replay =
    let kept : ReplayMap = retain (now - gate_replay) replay in
    (note key now kept, is_there (seen_at key kept))

-- `(now - unix_time as i64).abs() > GATE_WINDOW_SECS` in a release build, where the difference
-- wraps and `abs` of the least number is itself.
unfoldable pub outside_window : ℕ → ℕ → Bool
outside_window now unix_time =
    let difference : ℕ = (now + 2 ^ 64 - unix_time) % 2 ^ 64 in
    if difference == 2 ^ 63
    then false
    else ltb gate_window_secs (min difference (2 ^ 64 - difference))

-- What a request brings along.
pub record GateRequest : Type 0 where
  pub encoded : List ℕ
  pub label : List ℕ
  pub exporter : List ℕ
  pub method : List ℕ
  pub authority : List ℕ
  pub path : List ℕ

-- The bytes under the MAC.
unfoldable pub gate_message : GateRequest → List ℕ → List ℕ
gate_message q token =
    q.label
    ++ (q.exporter
        ++ (q.method
            ++ (0
                ∷ (q.authority
                    ++ (0
                        ∷ (q.path
                            ++ (0
                                ∷ (slice 0 16 token
                                    ++ (to_be 8 (from_be (slice 16 24 token))
                                        ++ slice 24 40 token)))))))))

-- The key under which a token is noted: `(client_id, nonce)`, both of 16 bytes.
abbrev pub token_key : List ℕ → List ℕ
token_key token = slice 0 16 token ++ slice 24 40 token

module _ {ℓ} {Client : Type ℓ} (c : Crypto) (decode : List ℕ → Option (List ℕ))
    (clients : List ℕ → Option Client) (gate_key : Client → List ℕ) where
  -- The part before the replay map: the token and its client.
  unfoldable pub check_token : GateRequest → ℕ → Result Error (List ℕ × Client)
  check_token q wall = do
    token ← ok_or (decode q.encoded) invalid_base64
    bail_if (not (length token == 72)) invalid_token_length
    client ← ok_or (clients (slice 0 16 token)) unknown_client
    bail_if (outside_window wall (from_be (slice 16 24 token))) expired_token
    expected ← ok_or (c.hmac_sha256 (gate_key client) (gate_message q token)) invalid_hmac_key
    bail_if (not (bytes_eq expected (slice 40 72 token))) invalid_gate_mac
    ok (token, client)

  -- `validate_gate_token`, with the time of the system and the monotonic one.
  unfoldable pub validate_gate_token :
      GateRequest → ℕ → ℕ → ReplayMap → ReplayMap × Result Error Client
  validate_gate_token q wall now replay = elim (check_token q wall) [
    | err e ↦ (replay, err e)
    | ok x ↦
        let (kept, there) = check_replay (token_key x.0) now replay in
        (kept, if there then err replayed_gate_token else ok x.1)
  ]

-- `MigrationEntry`: the sender is named by a number, and the map is keyed by the nonce.
pub record MigrationEntry : Type 0 where
  pub secret : List ℕ
  pub sender : ℕ
  pub replay : ReplayMap

unfoldable pub migration_message : List ℕ → List ℕ → ℕ → List ℕ
migration_message exporter token endpoint_id =
    codes "RekaSerdoba/1 migration gate"
    ++ (exporter
        ++ (slice 0 16 token
            ++ (to_be 8 (from_be (slice 16 24 token))
                ++ (slice 24 40 token ++ to_be 4 endpoint_id))))

module _ (c : Crypto) (decode : List ℕ → Option (List ℕ)) where
  -- The session that a migration token names.
  unfoldable pub migration_session : List ℕ → Result Error (List ℕ)
  migration_session encoded = do
    token ← ok_or (decode encoded) invalid_base64
    bail_if (not (length token == 72)) invalid_migration_token_length
    ok token

  unfoldable pub check_migration :
      MigrationEntry → List ℕ → List ℕ → ℕ → ℕ → Result Error (Unit {0})
  check_migration entry token exporter endpoint_id wall = do
    bail_if (outside_window wall (from_be (slice 16 24 token))) expired_migration_token
    expected ←
        ok_or (c.hmac_sha256 entry.secret (migration_message exporter token endpoint_id))
          invalid_hmac_key
    bail_if (not (bytes_eq expected (slice 40 72 token))) invalid_migration_mac
    ok tt

  -- `validate_migration_gate` once the entry of the session is found; the answer is whether the
  -- caller gets the entry's sender.
  unfoldable pub validate_migration_entry :
      MigrationEntry → List ℕ → List ℕ → ℕ → ℕ → ℕ → MigrationEntry × Result Error (Unit {0})
  validate_migration_entry entry token exporter endpoint_id wall now =
      elim (check_migration entry token exporter endpoint_id wall) [
        | err e ↦ (entry, err e)
        | ok x ↦
            let (kept, there) = check_replay (slice 24 40 token) now entry.replay in
            (record entry { replay = kept }, if there then err replayed_migration_token else ok tt)
      ]

module _ {ℓ} {Client : Type ℓ} (c : Crypto) (decode : List ℕ → Option (List ℕ))
    (clients : List ℕ → Option Client) (gate_key : Client → List ℕ) where
  -- `validate_gate`, with the authority of the runtime.
  unfoldable pub validate_gate :
      List ℕ → List ℕ → List ℕ → List ℕ → ℕ → ℕ → ReplayMap → ReplayMap × Result Error Client
  validate_gate authority encoded method path =
      validate_gate_token c decode clients gate_key (record {
        encoded = encoded;
        label = codes "RekaSerdoba/1 gate-lab";
        exporter = [];
        method = method;
        authority = authority;
        path = path;
      })

  -- `validate_h3_gate`
  unfoldable pub validate_h3_gate :
      List ℕ → List ℕ → List ℕ → List ℕ → ℕ → ℕ → ReplayMap → ReplayMap × Result Error Client
  validate_h3_gate encoded exporter authority path =
      validate_gate_token c decode clients gate_key (record {
        encoded = encoded;
        label = codes "RekaSerdoba/1 gate";
        exporter = exporter;
        method = codes "CONNECT";
        authority = authority;
        path = path;
      })
