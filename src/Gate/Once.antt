-- ===== src/Gate/Once.antt =====
-- A token opens the gate once.
use reka_serdoba.Common.{
  ℕ, ◌+◌, ◌≤◌, ◌≡◌, ◌≢◌, ◌∙◌, sym, ap, subst, ◌==◌, length, slice, bytes_eq, Option-cases, true,
  Option, some, List, Result, ok, Result-cases, Bool-cases, inl, inr,
}
use reka_serdoba.Common.Words.{from_be}
use reka_serdoba.Errors.{Error}
use reka_serdoba.Crypto.{Crypto}
use reka_serdoba.Gate.{
  ReplayMap, GateRequest, seen_at, check_replay, check_token, validate_gate_token, token_key,
  gate_replay, outside_window, gate_message,
}
use reka_serdoba.Gate.Kept.{at_least, check_replay-noted, check_replay-at_least, check_replay-there}

-- A request with the system's time and the monotonic one.
pub record Attempt : Type 0 where
  pub request : GateRequest
  pub wall : ℕ
  pub now : ℕ

module _ {ℓ} {Client : Type ℓ} (c : Crypto) (decode : List ℕ → Option (List ℕ))
    (clients : List ℕ → Option Client) (gate_key : Client → List ℕ) where
  pub attempt-at_least :
      (key : List ℕ) (t : ℕ) (a : Attempt) (replay : ReplayMap)
      → t ≤ a.now
      → a.now ≤ t + gate_replay
      → at_least t (seen_at key replay) ≡ true
      → at_least t (
          seen_at key
            (validate_gate_token c decode clients gate_key a.request a.wall a.now replay).0)
        ≡ true
  unfolding validate_gate_token
  attempt-at_least key t a replay later soon h =
      elim (Result-cases (check_token c decode clients gate_key a.request a.wall)) [
        | inr (e, p) ↦ rw (p, validate_gate_token) h
        | inl (x, p) ↦
            rw (p, validate_gate_token)
              (check_replay-at_least key (token_key x.0) t a.now replay later soon h)
      ]

  check_token-decode :
      (q : GateRequest) (wall : ℕ) (x : List ℕ × Client)
      → check_token c decode clients gate_key q wall ≡ ok x
      → decode q.encoded ≡ some x.0
  unfolding check_token
  check_token-decode q wall x e = elim (Option-cases (decode q.encoded)) [
    | inl p ↦ absurd (cc (rw (p, check_token) at e))
    | inr (token, p) ↦ elim (Bool-cases (length token == 72)) [
      | inr l ↦ absurd (cc (rw (p, check_token, l) at e))
      | inl l ↦ elim (Option-cases (clients (slice 0 16 token))) [
        | inl k ↦ absurd (cc (rw (p, check_token, l, k) at e))
        | inr (client, k) ↦ elim (Bool-cases (outside_window wall (from_be (slice 16 24 token)))) [
          | inl o ↦ absurd (cc (rw (p, check_token, l, k, o) at e))
          | inr o ↦ elim (Option-cases (c.hmac_sha256 (gate_key client) (gate_message q token))) [
            | inl m ↦ absurd (cc (rw (p, check_token, l, k, o, m) at e))
            | inr (mac, m) ↦ elim (Bool-cases (bytes_eq mac (slice 40 72 token))) [
              | inr s ↦ absurd (cc (rw (p, check_token, l, k, o, m, s) at e))
              | inl s ↦ p ∙ ap some (first (rw (p, check_token, l, k, o, m, s) at e))
            ]
          ]
        ]
      ]
    ]
  ]
    where
      first :
          {y : List ℕ × Client} → Path (Result Error (List ℕ × Client)) (ok y) (ok x) → y.0 ≡ x.0
      first f = cc f

  -- What an accepted request leaves behind.
  pub accepted-noted :
      (q : GateRequest) (wall now : ℕ) (replay replay' : ReplayMap) (client : Client)
      → validate_gate_token c decode clients gate_key q wall now replay ≡ (replay', ok client)
      → (token : List ℕ) × (decode q.encoded ≡ some token)
        × (at_least now (seen_at (token_key token) replay') ≡ true)
  unfolding validate_gate_token
  accepted-noted q wall now replay replay' client e =
      elim (Result-cases (check_token c decode clients gate_key q wall)) [
        | inr (x, p) ↦ absurd (cc (rw (p, validate_gate_token) at e))
        | inl (x, p) ↦ (
          x.0,
          check_token-decode q wall x p,
          subst (λ r. at_least now (seen_at (token_key x.0) r) ≡ true)
              (ap (λ y. y.0) (rw (p, validate_gate_token) at e))
              (check_replay-noted (token_key x.0) now replay),
        )
      ]

  -- A request that bears the same token.
  pub refused :
      (q : GateRequest) (wall now t : ℕ) (token : List ℕ) (replay : ReplayMap)
      → decode q.encoded ≡ some token
      → now ≤ t + gate_replay
      → at_least t (seen_at (token_key token) replay) ≡ true
      → (client : Client)
      → (validate_gate_token c decode clients gate_key q wall now replay).1 ≢ ok client
  unfolding validate_gate_token
  refused q wall now t token replay same soon h client e =
      elim (Result-cases (check_token c decode clients gate_key q wall)) [
        | inr (x, p) ↦ absurd (cc (rw (p, validate_gate_token) at e))
        | inl (x, p) ↦
            let token_x : x.0 ≡ token = cc (same, check_token-decode q wall x p) in
            let there : (check_replay (token_key x.0) now replay).1 ≡ true =
              check_replay-there (token_key x.0) t now replay soon
                (subst (λ y. at_least t (seen_at (token_key y) replay) ≡ true) (sym token_x) h) in
            absurd (cc (rw (p, validate_gate_token, there) at e))
      ]
