-- ===== src/Examples/Gates.antt =====
-- The gate at concrete inputs.
use reka_serdoba.Common.{
  ℕ, ◌≡◌, refl, List, [], ◌∷◌, ◌++◌, replicate, slice, bytes_eq, Option, some, ok, err,
}
use reka_serdoba.Common.Words.{from_be}
use reka_serdoba.Errors.{replayed_gate_token}
use reka_serdoba.Examples.Toy.{steady}
use reka_serdoba.Gate
use reka_serdoba.Gate.{ReplayMap, GateRequest, validate_gate_token}

-- A token of the client 1, 1, ... for the second 1000.
abbrev token : List ℕ
token = replicate 16 1 ++ (0 ∷ 0 ∷ 0 ∷ 0 ∷ 0 ∷ 0 ∷ 3 ∷ 232 ∷ (replicate 16 2 ++ replicate 32 4))

-- A client is a number here, and every id is that of one client.
abbrev the_client : ℕ
the_client = 1

abbrev table : List ℕ → Option ℕ
table id = some the_client

abbrev request : GateRequest
request = record {
  encoded = token;
  label = [];
  exporter = [];
  method = [];
  authority = [];
  path = [];
}

abbrev seen_once : ReplayMap
seen_once = (replicate 16 1 ++ replicate 16 2, 1000000000000) ∷ []

opened :
    validate_gate_token steady (λ x. some x) table (λ client. []) request 910 1000000000000 []
    ≡ (seen_once, ok the_client)
unfolding validate_gate_token Gate.check_token slice from_be Gate.outside_window bytes_eq
    Gate.check_replay Gate.retain Gate.note Gate.seen_at
opened = refl

again :
    (validate_gate_token steady
      (λ x. some x)
      table
      (λ client. [])
      request
      1000
      1090000000000
      seen_once).1
    ≡ err replayed_gate_token
unfolding validate_gate_token Gate.check_token slice from_be Gate.outside_window bytes_eq
    Gate.check_replay Gate.retain Gate.note Gate.seen_at
again = refl

-- The token is good for 181 seconds of the system's clock, from 910 to 1090, and its key is kept
-- for 180: half a second after that it opens the gate again.
opens_twice :
    (validate_gate_token steady
      (λ x. some x)
      table
      (λ client. [])
      request
      1090
      1180500000000
      seen_once).1
    ≡ ok the_client
unfolding validate_gate_token Gate.check_token slice from_be Gate.outside_window bytes_eq
    Gate.check_replay Gate.retain Gate.note Gate.seen_at
opens_twice = refl
