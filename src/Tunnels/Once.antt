-- ===== src/Tunnels/Once.antt =====
-- A token and the three doors (rekaserdoba/src/main.rs).
use reka_serdoba.Common.{
  ℕ, ◌+◌, ◌≤◌, ◌≡◌, ◌≢◌, ap, subst, Bool, true, Option, some, List, [], ◌∷◌, ok,
}
use reka_serdoba.Crypto.{Crypto}
use reka_serdoba.Gate.{gate_replay, seen_at, token_key}
use reka_serdoba.Gate.Kept.{at_least}
use reka_serdoba.Gate.Once.{attempt-at_least, accepted-noted, refused}
use reka_serdoba.Handshake.Auth.{Client}
use reka_serdoba.Tunnels.{AppState, handshake, Times, Arrival, arrive, client_of, key_of}
use reka_serdoba.Tunnels.Passage.{token_of, gate_of, unasked, asked}
use reka_serdoba.Tunnels.Doors.{arrive-Passage}

-- Arrivals whose gate is asked between `t` and 180 seconds later.
abbrev pub AreWithin : ℕ → List (Arrival × Times) → Type 0
AreWithin t [] = Unit {0}
AreWithin t ((a, times) ∷ arrivals) =
    (t ≤ times.now) × (times.now ≤ t + gate_replay) × AreWithin t arrivals

module _ (c : Crypto) (decode : List ℕ → Option (List ℕ)) (is_loopback : ℕ → Bool)
    (parse_ip : List ℕ → Option ℕ) (is_text : List ℕ → Bool) where
  unfoldable pub arrive_all : List (Arrival × Times) → AppState → AppState
  arrive_all [] s = s
  arrive_all ((a, times) ∷ arrivals) s =
      arrive_all arrivals (arrive c decode is_loopback parse_ip is_text a times s).0

  arrive-at_least :
      (key : List ℕ) (t : ℕ) (a : Arrival) (times : Times) (s : AppState)
      → t ≤ times.now
      → times.now ≤ t + gate_replay
      → at_least t (seen_at key s.runtime.gate_replay) ≡ true
      → at_least t (
          seen_at key
            (arrive c decode is_loopback parse_ip is_text a times s).0.runtime.gate_replay)
        ≡ true
  arrive-at_least key t a times s later soon h =
      elim (arrive-Passage c decode is_loopback parse_ip is_text a times s).show [
        | unasked same r ↦ rw same h
        | asked q shown replay l ↦ rw replay (
            attempt-at_least c decode (client_of s.runtime) key_of key t
              (record { request = q; wall = times.wall; now = times.now }) s.runtime.gate_replay
              later soon h)
      ]

  arrive_all-at_least :
      (key : List ℕ) (t : ℕ) (arrivals : List (Arrival × Times)) (s : AppState)
      → AreWithin t arrivals
      → at_least t (seen_at key s.runtime.gate_replay) ≡ true
      → at_least t (seen_at key (arrive_all arrivals s).runtime.gate_replay) ≡ true
  unfolding arrive_all
  arrive_all-at_least key t [] s within h = h
  arrive_all-at_least key t ((a, times) ∷ arrivals) s (later, soon, within) h =
      arrive_all-at_least key t arrivals (arrive c decode is_loopback parse_ip is_text a times s).0
        within (arrive-at_least key t a times s later soon h)

  -- The token of a client that was let in is noted.
  arrive-noted :
      (a : Arrival) (times : Times) (s : AppState) (client : Client) (shown token : List ℕ)
      → (arrive c decode is_loopback parse_ip is_text a times s).1 ≡ ok (handshake client)
      → token_of a ≡ some shown
      → decode shown ≡ some token
      → at_least times.now (
          seen_at
            (token_key token)
            (arrive c decode is_loopback parse_ip is_text a times s).0.runtime.gate_replay)
        ≡ true
  arrive-noted a times s client shown token let_in shows decoded =
      elim (arrive-Passage c decode is_loopback parse_ip is_text a times s).show [
        | unasked same r ↦ absurd (r (handshake client) let_in)
        | asked q shows' replay l ↦
            let (token', decoded', noted) =
              accepted-noted c decode (client_of s.runtime) key_of q times.wall times.now
                s.runtime.gate_replay (gate_of c decode s.runtime q times s.runtime.gate_replay).0
                client
                (ap (λ r. ((gate_of c decode s.runtime q times s.runtime.gate_replay).0, r))
                  (l client let_in)) in
            let same : token' ≡ token = cc (decoded', decoded, shows, shows') in
            rw replay (
              subst
                (λ (k : List ℕ).
                  at_least times.now (
                    seen_at (token_key k)
                      (gate_of c decode s.runtime q times s.runtime.gate_replay).0)
                  ≡ true)
                same noted)
      ]

  -- And lets nobody in again.
  arrive-refused :
      (a : Arrival) (times : Times) (s : AppState) (client : Client) (shown token : List ℕ) (t : ℕ)
      → token_of a ≡ some shown
      → decode shown ≡ some token
      → times.now ≤ t + gate_replay
      → at_least t (seen_at (token_key token) s.runtime.gate_replay) ≡ true
      → (arrive c decode is_loopback parse_ip is_text a times s).1 ≢ ok (handshake client)
  arrive-refused a times s client shown token t shows decoded soon noted let_in =
      elim (arrive-Passage c decode is_loopback parse_ip is_text a times s).show [
        | unasked same r ↦ r (handshake client) let_in
        | asked q shows' replay l ↦
            refused c decode (client_of s.runtime) key_of q times.wall times.now t token
              s.runtime.gate_replay (cc (decoded, shows, shows')) soon noted client
              (l client let_in)
      ]

  -- Once a request at one of the three doors has been let in by its token as a client, no request
  -- at any of the doors whose token decodes to the same bytes is let in as a client in the 180
  -- seconds that follow, whatever other requests come in between and whatever their outcomes.
  pub arrive_once :
      (first second : Arrival) (times times' : Times) (between : List (Arrival × Times))
      (s : AppState) (client client' : Client) (shown shown' token : List ℕ)
      → (arrive c decode is_loopback parse_ip is_text first times s).1 ≡ ok (handshake client)
      → token_of first ≡ some shown
      → decode shown ≡ some token
      → AreWithin times.now between
      → token_of second ≡ some shown'
      → decode shown' ≡ some token
      → times'.now ≤ times.now + gate_replay
      → (arrive c decode is_loopback parse_ip is_text second times'
          (arrive_all between (arrive c decode is_loopback parse_ip is_text first times s).0)).1
        ≢ ok (handshake client')
  arrive_once first second times times' between s client client' shown shown' token let_in shows
        decoded within shows' decoded' soon =
      arrive-refused second times'
        (arrive_all between (arrive c decode is_loopback parse_ip is_text first times s).0) client'
        shown' token times.now shows' decoded' soon
        (arrive_all-at_least (token_key token) times.now between
          (arrive c decode is_loopback parse_ip is_text first times s).0 within
          (arrive-noted first times s client shown token let_in shows decoded))
