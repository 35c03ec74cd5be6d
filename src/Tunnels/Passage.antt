-- ===== src/Tunnels/Passage.antt =====
-- What a request at a door does to the table of sources and to the replay map of the gate
-- (rekaserdoba/src/main.rs).
use reka_serdoba.Common.{
  ℕ, Bool, ◌≡◌, ◌≢◌, ◌∙◌, refl, Option, none, some, List, Result, ok, err, Result-cases, inl, inr,
}
use reka_serdoba.Common.Steps.{continue}
use reka_serdoba.Errors.{Error}
use reka_serdoba.Crypto.{Crypto}
use reka_serdoba.Record.Keys.{codes}
use reka_serdoba.Admission.{AdmissionRate, check_admission_rate}
use reka_serdoba.Gate.{ReplayMap, GateRequest, validate_gate_token}
use reka_serdoba.Gate.Registry.{validate_migration_gate}
use reka_serdoba.Handshake.Auth.{Client}
use reka_serdoba.Config.{Runtime}
use reka_serdoba.Tunnels.{
  AppState, Admission, handshake, Refusal, Door, count_rejected, with_rate, with_replay, check_rate,
  Times, forwarded_source, strip_prefix, client_of, key_of, try_migration, pass_gates, Arrival, wss,
  h2, h3,
}

-- The token that a request shows.
abbrev pub bearer : Option (List ℕ) → Option (List ℕ)
bearer none = none
bearer (some auth) = strip_prefix (codes "Bearer ") auth

abbrev pub token_of : Arrival → Option (List ℕ)
token_of (wss q) = bearer q.authorization
token_of (h2 q) = bearer q.authorization
token_of (h3 cfg session) = session.first_message

-- The address that it counts for.
abbrev pub source_of : (ℕ → Bool) → (List ℕ → Option ℕ) → Arrival → ℕ
source_of is_loopback parse_ip (wss q) =
    forwarded_source is_loopback parse_ip q.forwarded_for q.peer
source_of is_loopback parse_ip (h2 q) = forwarded_source is_loopback parse_ip q.forwarded_for q.peer
source_of is_loopback parse_ip (h3 cfg session) = session.peer

abbrev pub Outcome : Type 0
Outcome = AppState × Result Refusal Admission

module _ (c : Crypto) (decode : List ℕ → Option (List ℕ)) where
  abbrev pub gate_of : Runtime → GateRequest → Times → ReplayMap → ReplayMap × Result Error Client
  gate_of runtime q times replay =
      validate_gate_token c decode (client_of runtime) key_of q times.wall times.now replay

  -- The check of the rate was not reached, or it let the request through, or it refused it.
  pub data Knock (source now : ℕ) (s : AppState) (x : Outcome) : Type 0 where
    unseen :
        x.0.runtime.admission_rate ≡ s.runtime.admission_rate
        → ((a : Admission) → x.1 ≢ ok a)
        → Knock source now s x
    seen :
        x.0.runtime.admission_rate ≡ (check_admission_rate source now s.runtime.admission_rate).0
        → ((a : Admission)
            → x.1 ≡ ok a
            → (check_admission_rate source now s.runtime.admission_rate).1 ≡ ok tt)
        → Knock source now s x

  -- The gate was not reached, or it was asked for the token that the request shows.
  pub data Show (token : Option (List ℕ)) (times : Times) (s : AppState) (x : Outcome)
      : Type 0 where
    unasked :
        x.0.runtime.gate_replay ≡ s.runtime.gate_replay
        → ((a : Admission) → x.1 ≢ ok a)
        → Show token times s x
    asked :
        (q : GateRequest)
        → token ≡ some q.encoded
        → x.0.runtime.gate_replay ≡ (gate_of s.runtime q times s.runtime.gate_replay).0
        → ((client : Client)
            → x.1 ≡ ok (handshake client)
            → (gate_of s.runtime q times s.runtime.gate_replay).1 ≡ ok client)
        → Show token times s x

  pub record Passage (source : ℕ) (token : Option (List ℕ)) (times : Times) (s : AppState)
      (x : Outcome) : Type 0 where
    pub same_clients : x.0.runtime.clients ≡ s.runtime.clients
    pub knock : Knock source times.rate s x
    pub show : Show token times s x

  pub at_once :
      (source : ℕ) (token : Option (List ℕ)) (times : Times) (s : AppState) (refusal : Refusal)
      → Passage source token times s (s, err refusal)
  at_once source token times s refusal = record {
    same_clients = refl;
    knock = unseen refl (λ a e. cc e);
    show = unasked refl (λ a e. cc e);
  }

  -- The gates, on a state whose rate has been checked.
  pub record Gated (gate : ReplayMap → ReplayMap × Result Error Client) (s : AppState) (x : Outcome)
      : Type 0 where
    clients : x.0.runtime.clients ≡ s.runtime.clients
    rate : x.0.runtime.admission_rate ≡ s.runtime.admission_rate
    replay : x.0.runtime.gate_replay ≡ (gate s.runtime.gate_replay).0
    let_in :
        (client : Client) → x.1 ≡ ok (handshake client) → (gate s.runtime.gate_replay).1 ≡ ok client

  try_migration-Gated :
      (refusal : Refusal) (gate : ReplayMap → ReplayMap × Result Error Client)
      (encoded exporter : List ℕ) (times : Times) (s : AppState)
      → Gated gate s (
          try_migration c decode refusal encoded exporter times
            (with_replay (gate s.runtime.gate_replay).0 s))
  unfolding try_migration
  try_migration-Gated refusal gate encoded exporter times s =
      elim (Result-cases
        (validate_migration_gate c decode encoded exporter 1 times.migration_wall
          times.migration_now s.runtime.migrations).1) [
            | inl (sender, e) ↦
                rw (e, try_migration)
                  (record { clients = refl; rate = refl; replay = refl; let_in = λ client p. cc p })
            | inr (x, e) ↦
                rw (e, try_migration)
                  (record { clients = refl; rate = refl; replay = refl; let_in = λ client p. cc p })
          ]

  pub pass_gates-Gated :
      (refusal : Refusal) (gate : ReplayMap → ReplayMap × Result Error Client)
      (encoded exporter : List ℕ) (times : Times) (s : AppState)
      → Gated gate s (pass_gates c decode refusal gate encoded exporter times s)
  unfolding pass_gates
  pass_gates-Gated refusal gate encoded exporter times s =
      elim (Result-cases (gate s.runtime.gate_replay).1) [
        | inl (client, e) ↦
            rw (e, pass_gates)
              (record { clients = refl; rate = refl; replay = refl; let_in = λ other p. e ∙ cc p })
        | inr (x, e) ↦
            rw (e, pass_gates) (try_migration-Gated refusal gate encoded exporter times s)
      ]

  module _ (source : ℕ) (times : Times) (s : AppState) where
    abbrev pub rates : AdmissionRate
    rates = (check_admission_rate source times.rate s.runtime.admission_rate).0

    -- A request that ends after the check of the rate, before the gate.
    pub ended :
        (token : Option (List ℕ)) (refusal : Refusal)
        → Passage source token times s (with_rate rates s, err refusal)
    ended token refusal = record {
      same_clients = refl;
      knock = seen refl (λ a e. absurd (cc e));
      show = unasked refl (λ a e. cc e);
    }

    pub ended_counted :
        (token : Option (List ℕ)) (refusal : Refusal)
        → Passage source token times s (count_rejected (with_rate rates s), err refusal)
    ended_counted token refusal = record {
      same_clients = refl;
      knock = seen refl (λ a e. absurd (cc e));
      show = unasked refl (λ a e. cc e);
    }

    pub gated :
        (token : Option (List ℕ)) (q : GateRequest) (x : Outcome)
        → token ≡ some q.encoded
        → (check_admission_rate source times.rate s.runtime.admission_rate).1 ≡ ok tt
        → Gated (gate_of s.runtime q times) (with_rate rates s) x
        → Passage source token times s x
    gated token q x shown ok_rate g = record {
      same_clients = g.clients;
      knock = seen g.rate (λ a e. ok_rate);
      show = asked q shown g.replay g.let_in;
    }

    -- What follows the check of the rate decides, if that succeeds.
    pub checked :
        (token : Option (List ℕ)) (refusal : Refusal) (next : Unit {0} → Door Admission)
        → ((check_admission_rate source times.rate s.runtime.admission_rate).1 ≡ ok tt
            → Passage source token times s (next tt (with_rate rates s)))
        → Passage source token times s (continue (check_rate refusal source times.rate s) next)
    unfolding check_rate continue
    checked token refusal next after =
        elim (Result-cases (check_admission_rate source times.rate s.runtime.admission_rate).1) [
          | inl (tt, e) ↦ rw (e, check_rate) (after e)
          | inr (x, e) ↦ rw (e, check_rate) (ended_counted token refusal)
        ]
