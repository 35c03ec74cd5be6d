-- ===== src/Tunnels.antt =====
-- Who gets a tunnel (rekaserdoba/src/main.rs): `maybe_tunnel`, `h2_tunnel` and `handle_h3_session` up
-- to what they do with the session, and the tests of `AppState`. An address is a number; the parser
-- of addresses, the test for the loopback, the base64 decoder and the test for UTF-8 are arguments,
-- as are the readings of the clock and the TLS exporter of a session. The locks are held for the
-- whole of the code that they guard.
pub mod Passage
pub mod Doors
pub mod Once
pub mod Rate
use reka_serdoba.Common.{
  ℕ, zero, suc, ◌+◌, ◌%◌, ◌^◌, Bool, true, false, not, ◌&&◌, ◌||◌, Option, none, some, List, [],
  ◌∷◌, ◌++◌, replicate, take, drop, length, ◌==◌, bytes_eq, if◌then◌else◌, Result, ok, err, bail_if,
  ok_or,
}
use reka_serdoba.Common.Words.{from_be}
use reka_serdoba.Common.Maps.{find}
use reka_serdoba.Common.Steps.{Step, ◌>>=◌, ◌>>◌, lift, get, modify}
use reka_serdoba.Errors.{Error}
use reka_serdoba.Crypto.{Crypto}
use reka_serdoba.Record.Keys.{codes}
use reka_serdoba.Rekey.Auth.{hash_parts}
use reka_serdoba.Admission.{check_admission_rate}
use reka_serdoba.Gate.{ReplayMap, validate_gate, validate_h3_gate}
use reka_serdoba.Gate.Registry.{validate_migration_gate}
use reka_serdoba.Handshake.Auth.{Client}
use reka_serdoba.Network.{Network}
use reka_serdoba.Config.{Runtime, H3Config}

-- `AppState`; of the semaphore the permits that are left, and of the metrics what is counted here.
pub record AppState : Type 0 where
  pub runtime : Runtime
  pub network : Network
  pub draining : Bool
  pub h3_ready : Bool
  pub available_permits : ℕ
  pub gate_rejected : ℕ

-- `AppState::is_operational`
unfoldable pub is_operational : AppState → Bool
is_operational s = not s.draining && (s.network.ready && s.h3_ready)

-- `AppState::is_accepting`, which `readiness` answers.
unfoldable pub is_accepting : AppState → Bool
unfolding is_operational
is_accepting s = is_operational s && not (s.available_permits == 0)

-- `Admission`; a sender is named by a number.
pub data Admission : Type 0 where
  handshake : Client → Admission
  migration : ℕ → Admission

-- How a request ends that gets no tunnel: `ordinary_not_found`, or what happens to an H3 session.
pub data Refusal : Type 0 where
  not_found dropped closed failed : Refusal

abbrev pub Door : Type 0 → Type 0
Door A = Step AppState Refusal A

-- `gate_rejected.fetch_add(1, ...)`
abbrev pub count_rejected : AppState → AppState
count_rejected s = record s { gate_rejected = (s.gate_rejected + 1) % 2 ^ 64 }

abbrev pub with_rate : List (ℕ × List ℕ) → AppState → AppState
with_rate rates s = record s { runtime = record s.runtime { admission_rate = rates } }

abbrev pub with_replay : ReplayMap → AppState → AppState
with_replay replay s = record s { runtime = record s.runtime { gate_replay = replay } }

-- A refusal by one of the checks is counted.
abbrev pub or_rejected :
    Refusal → AppState → Result Error (Unit {0}) → AppState × Result Refusal (Unit {0})
or_rejected refusal s (ok done) = (s, ok tt)
or_rejected refusal s (err e) = (count_rejected s, err refusal)

unfoldable pub check_rate : Refusal → ℕ → ℕ → Door (Unit {0})
check_rate refusal source now s =
    let x = check_admission_rate source now s.runtime.admission_rate in
    or_rejected refusal (with_rate x.0 s) x.1

-- When the clocks are read: for the rate, and for either gate the system's and the monotonic one.
pub record Times : Type 0 where
  pub rate : ℕ
  pub wall : ℕ
  pub now : ℕ
  pub migration_wall : ℕ
  pub migration_now : ℕ

-- An HTTP request: the path, whether it can be upgraded, the two headers, if they are text, and the
-- address of the peer.
pub record HttpRequest : Type 0 where
  pub path : List ℕ
  pub upgradable : Bool
  pub authorization : Option (List ℕ)
  pub forwarded_for : Option (List ℕ)
  pub peer : ℕ

-- An H3 session: the address, the exporter at a context, and the first message, if it comes in time.
pub record H3Session : Type 0 where
  pub peer : ℕ
  pub exporter : List ℕ → Option (List ℕ)
  pub first_message : Option (List ℕ)

-- `split(',').next()`
unfoldable pub before_comma : List ℕ → List ℕ
before_comma [] = []
before_comma (b ∷ bs) = if b == 44 then [] else b ∷ before_comma bs

abbrev pub unwrap_or : Option ℕ → ℕ → ℕ
unwrap_or none fallback = fallback
unwrap_or (some a) fallback = a

-- `forwarded_source`; `parse_ip` trims its text first.
unfoldable pub forwarded_source : (ℕ → Bool) → (List ℕ → Option ℕ) → Option (List ℕ) → ℕ → ℕ
forwarded_source is_loopback parse_ip none fallback = fallback
forwarded_source is_loopback parse_ip (some text) fallback =
    if not (is_loopback fallback)
    then fallback
    else unwrap_or (parse_ip (before_comma text)) fallback

-- `strip_prefix`
unfoldable pub strip_prefix : List ℕ → List ℕ → Option (List ℕ)
strip_prefix prefix text =
    if bytes_eq (take (length prefix) text) prefix then some (drop (length prefix) text) else none

abbrev pub h2_path : List ℕ
h2_path = codes "/connect/v1/h2"

-- The table of clients of a runtime, and what the gate asks of a client.
abbrev pub client_of : Runtime → List ℕ → Option Client
client_of runtime id = find (from_be id) runtime.clients

abbrev pub key_of : Client → List ℕ
key_of client = client.gate_key

module _ (c : Crypto) (decode : List ℕ → Option (List ℕ)) where
  -- The second gate, for a token that the first one does not take.
  unfoldable pub try_migration : Refusal → List ℕ → List ℕ → Times → Door Admission
  try_migration refusal encoded exporter times s =
      let x =
        validate_migration_gate c decode encoded exporter 1 times.migration_wall times.migration_now
          s.runtime.migrations in
      let seen : AppState = record s { runtime = record s.runtime { migrations = x.0 } } in
      elim x.1 [
        | ok sender ↦ (seen, ok (migration sender))
        | err e ↦ (count_rejected seen, err refusal)
      ]

  -- What the three handlers have in common: the gate for a client, and the one for a migration.
  unfoldable pub pass_gates :
      Refusal
      → (ReplayMap → ReplayMap × Result Error Client)
      → List ℕ
      → List ℕ
      → Times
      → Door Admission
  pass_gates refusal gate encoded exporter times s =
      let x = gate s.runtime.gate_replay in
      elim x.1 [
        | ok client ↦ (with_replay x.0 s, ok (handshake client))
        | err e ↦ try_migration refusal encoded exporter times (with_replay x.0 s)
      ]

  module _ (is_loopback : ℕ → Bool) (parse_ip : List ℕ → Option ℕ) where
    -- The part that `maybe_tunnel` and `h2_tunnel` share.
    unfoldable pub admit_http : List ℕ → List ℕ → HttpRequest → Times → Door Admission
    admit_http method path q times = do
      s ← get
      auth ← lift (ok_or q.authorization not_found)
      encoded ← lift (ok_or (strip_prefix (codes "Bearer ") auth) not_found)
      check_rate not_found (forwarded_source is_loopback parse_ip q.forwarded_for q.peer) times.rate
      pass_gates not_found
          (validate_gate c decode (client_of s.runtime) key_of s.runtime.authority encoded method
            path times.wall times.now)
          encoded (replicate 32 0) times

    -- `maybe_tunnel`
    unfoldable pub maybe_tunnel : HttpRequest → Times → Door Admission
    maybe_tunnel q times = do
      s ← get
      lift (
          bail_if (not (bytes_eq q.path s.runtime.tunnel_path) || not (is_operational s)) not_found)
      lift (bail_if (not q.upgradable) not_found)
      admit_http (codes "GET") s.runtime.tunnel_path q times

    -- `h2_tunnel`
    unfoldable pub h2_tunnel : HttpRequest → Times → Door Admission
    h2_tunnel q times = do
      s ← get
      lift (bail_if (not (is_operational s)) not_found)
      admit_http (codes "POST") h2_path q times

  -- `h3_exporter_context`
  unfoldable pub h3_exporter_context : List ℕ → List ℕ → List ℕ
  h3_exporter_context authority path = hash_parts c (authority ∷ (0 ∷ []) ∷ path ∷ [])

  -- The wait for the token, which may fail or run out of time.
  abbrev pub await_token : Option (List ℕ) → Door (List ℕ)
  await_token none s = (count_rejected s, err closed)
  await_token (some token) s = (s, ok token)

  -- `handle_h3_session`
  unfoldable pub handle_h3_session : (List ℕ → Bool) → H3Config → H3Session → Times → Door Admission
  handle_h3_session is_text cfg session times = do
    s ← get
    lift (bail_if (not (is_operational s)) dropped)
    check_rate dropped session.peer times.rate
    exporter ← lift (ok_or (session.exporter (h3_exporter_context cfg.authority cfg.path)) failed)
    encoded ← await_token session.first_message
    lift (bail_if (not (is_text encoded)) failed)
    pass_gates closed
        (validate_h3_gate c decode (client_of s.runtime) key_of encoded exporter cfg.authority
          cfg.path times.wall times.now)
        encoded exporter times

-- A request at one of the three doors.
pub data Arrival : Type 0 where
  wss h2 : HttpRequest → Arrival
  h3 : H3Config → H3Session → Arrival

module _ (c : Crypto) (decode : List ℕ → Option (List ℕ)) (is_loopback : ℕ → Bool)
    (parse_ip : List ℕ → Option ℕ) (is_text : List ℕ → Bool) where
  abbrev pub arrive : Arrival → Times → Door Admission
  arrive (wss q) times = maybe_tunnel c decode is_loopback parse_ip q times
  arrive (h2 q) times = h2_tunnel c decode is_loopback parse_ip q times
  arrive (h3 cfg session) times = handle_h3_session c decode is_text cfg session times
