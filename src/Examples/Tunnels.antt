-- ===== src/Examples/Tunnels.antt =====
-- Requests for a tunnel at concrete inputs.
use reka_serdoba.Common.{
  ℕ, ◌≡◌, ◌≢◌, ◌≤◌, refl, true, false, none, some, Option, List, [], ◌∷◌, ◌++◌, length, replicate,
  ok, bytes_eq, arith,
}
use reka_serdoba.Common.Words.{to_be, from_be}
use reka_serdoba.Common.Maps.{find}
use reka_serdoba.Crypto.{HmacLaws}
use reka_serdoba.Record.Keys.{codes}
use reka_serdoba.Admission
use reka_serdoba.Admission.{check_admission_rate}
use reka_serdoba.Admission.Counting.{count_in}
use reka_serdoba.Gate
use reka_serdoba.Handshake.Auth.{Client}
use reka_serdoba.Network.{fresh}
use reka_serdoba.Config.{H3Config, decode_fixed}
use reka_serdoba.Bridge.{Bundle, open_gate, gate_token}
use reka_serdoba.Bridge.Admitted.{IsKnown, opening_session, open_gate-admitted}
use reka_serdoba.Tunnels
use reka_serdoba.Tunnels.{
  AppState, Admission, handshake, Times, HttpRequest, H3Session, Arrival, wss, h2, h3, arrive,
  strip_prefix, handle_h3_session, h3_exporter_context,
}
use reka_serdoba.Tunnels.Once.{arrive_all, arrive_once}
use reka_serdoba.Tunnels.Rate.{let_in, let_in_at_most}
use reka_serdoba.Examples.Toy.{steady}
use reka_serdoba.Examples.Configs.{runtime}

-- The client of the example configuration.
abbrev client : Client
client = record {
  id = replicate 16 2;
  gate_key = replicate 32 6;
  public_key = replicate 32 5;
  tunnel_ipv4 = 10 ∷ 77 ∷ 0 ∷ 2 ∷ [];
  session_lifetime_seconds = 3600;
  bandwidth_bytes_per_second = 1048576;
  session_quota_bytes = 0;
}

abbrev state : AppState
state = record {
  runtime = runtime;
  network = fresh 64 true;
  draining = false;
  h3_ready = true;
  available_permits = 10;
  gate_rejected = 0;
}

abbrev cfg : H3Config
cfg = record {
  listen = codes "0.0.0.0:443";
  authority = codes "river.example:443";
  path = codes "/library";
  certificate_pem = codes "c";
  private_key_pem = codes "k";
  decoy_root = codes "d";
}

abbrev bundle : Bundle
bundle = record { client_id_b64 = replicate 16 2; gate_key_b64 = replicate 32 6 }

-- Texts stand for themselves.
abbrev decode : List ℕ → Option (List ℕ)
decode text = some text

abbrev encode : List ℕ → List ℕ
encode bytes = bytes

abbrev export : List ℕ → Option (List ℕ)
export context = some (replicate 32 9)

abbrev times : ℕ → ℕ → Times
times wall now = record {
  rate = now;
  wall = wall;
  now = now;
  migration_wall = wall;
  migration_now = now;
}

steady-HmacLaws : HmacLaws steady
steady-HmacLaws = record {
  tag = λ key message. replicate 32 4;
  made = λ key message. refl;
  tag_len = λ key message. refl;
}

abbrev first_session : H3Session
first_session = opening_session steady decode encode bundle export cfg 7 1000 (replicate 16 8)

found : Tunnels.client_of runtime (replicate 16 2) ≡ some client
unfolding find from_be
found = refl

abbrev known_bundle : IsKnown decode bundle state client
known_bundle = record {
  client_id = replicate 16 2;
  id_decoded = refl;
  id_len = refl;
  key_decoded = refl;
  key_len = refl;
  found = found;
}

not_seen : Gate.seen_at (replicate 16 2 ++ replicate 16 8) (Gate.retain 0 []) ≡ none
unfolding Gate.seen_at Gate.retain
not_seen = refl

ready : Tunnels.is_operational state ≡ true
unfolding Tunnels.is_operational
ready = refl

under_rate : (check_admission_rate 7 5000 []).1 ≡ ok tt
unfolding check_admission_rate Admission.retain find Admission.pop_before Admission.admit
under_rate = refl

open_gate-admitted_example :
    (handle_h3_session steady decode (λ text. true) cfg first_session (times 1010 5000) state).1
    ≡ ok (handshake client)
open_gate-admitted_example =
    open_gate-admitted steady steady-HmacLaws decode encode (λ x. refl) (λ text. true) bundle state
      client export (replicate 32 9) cfg 7 1000 (replicate 16 8) (times 1010 5000) (λ x. refl)
      known_bundle refl refl (omega arith) (omega arith) (omega arith) (omega arith) not_seen ready
      under_rate

-- The bytes of the token that the session shows.
abbrev shown : List ℕ
shown = replicate 16 2 ++ (0 ∷ 0 ∷ 0 ∷ 0 ∷ 0 ∷ 0 ∷ 3 ∷ 232 ∷ (replicate 16 8 ++ replicate 32 4))

shown_first : first_session.first_message ≡ some shown
unfolding open_gate decode_fixed gate_token to_be
shown_first = refl

abbrev at_h3 : Arrival
at_h3 = h3 cfg first_session

-- The same token in a request for a WebSocket, and a request without one.
abbrev at_wss : Arrival
at_wss = wss (record {
  path = codes "/tunnel";
  upgradable = true;
  authorization = some (codes "Bearer " ++ shown);
  forwarded_for = none;
  peer = 8;
})

abbrev at_h2 : Arrival
at_h2 = h2 (record {
  path = codes "/connect/v1/h2";
  upgradable = false;
  authorization = none;
  forwarded_for = none;
  peer = 9;
})

shown_again : strip_prefix (codes "Bearer ") (codes "Bearer " ++ shown) ≡ some shown
unfolding strip_prefix bytes_eq
shown_again = refl

let_in_first :
    (arrive steady decode
      (λ a. false)
      (λ text. none)
      (λ text. true)
      at_h3
      (times 1010 5000)
      state).1
    ≡ ok (handshake client)
let_in_first =
    open_gate-admitted steady steady-HmacLaws decode encode (λ x. refl) (λ text. true) bundle state
      client export (replicate 32 9) cfg 7 1000 (replicate 16 8) (times 1010 5000) (λ x. refl)
      known_bundle refl refl (omega arith) (omega arith) (omega arith) (omega arith) not_seen ready
      under_rate

arrive_once_example :
    (arrive steady decode
      (λ a. false)
      (λ text. none)
      (λ text. true)
      at_wss
      (times 1020 9000)
      (arrive_all steady decode
        (λ a. false)
        (λ text. none)
        (λ text. true)
        ((at_h2, times 1015 7000) ∷ [])
        (arrive steady decode
          (λ a. false)
          (λ text. none)
          (λ text. true)
          at_h3
          (times 1010 5000)
          state).0)).1
    ≢ ok (handshake client)
arrive_once_example =
    arrive_once steady decode (λ a. false) (λ text. none) (λ text. true) at_h3 at_wss
      (times 1010 5000) (times 1020 9000) ((at_h2, times 1015 7000) ∷ []) state client client shown
      shown shown let_in_first shown_first refl (omega arith, omega arith, tt) shown_again refl
      (omega arith)

abbrev two_arrivals : List (Arrival × Times)
two_arrivals = (at_h3, times 1010 5000) ∷ (at_wss, times 1020 9000) ∷ []

let_in_at_most_example :
    (count_in 5000
        (let_in steady decode (λ a. false) (λ text. none) (λ text. true) 7 two_arrivals state)
      ≤ 60)
    × (length
          (arrive_all steady decode
            (λ a. false)
            (λ text. none)
            (λ text. true)
            two_arrivals
            state).runtime.admission_rate
        ≤ 8192)
let_in_at_most_example =
    let_in_at_most steady decode (λ a. false) (λ text. none) (λ text. true) 5000 7 0 two_arrivals
      state refl (omega arith, (omega arith, tt))
