-- ===== src/Gate/MigrationsOnce.antt =====
-- A migration token reaches the session that it names, and once.
use reka_serdoba.Common.{
  ℕ, ◌+◌, ◌^◌, ◌<◌, ◌⊎◌, All-slice, length-slice, ◌≤◌, ◌≡◌, ◌≢◌, ◌∙◌, sym, ap, subst, ◌==◌, length,
  slice, Option-cases, true, Option, some, List, Result, ok, Result-cases, Bool-cases, inl, inr,
  arith,
}
use reka_serdoba.Clocks.{IsNear, IsOpposite, is_near}
use reka_serdoba.Common.Words.{IsByte, AreBytes, from_be, from_be_bound}
use reka_serdoba.Common.Maps.{find, find-insert}
use reka_serdoba.Errors.{Error}
use reka_serdoba.Crypto.{Crypto}
use reka_serdoba.Gate.{
  MigrationEntry, outside_window, migration_message, seen_at, check_replay, migration_session,
  check_migration, validate_migration_entry, gate_replay,
}
use reka_serdoba.Gate.Kept.{at_least, check_replay-noted, check_replay-there}
use reka_serdoba.Gate.Registry.{MigrationRegistry, session_of, answer, validate_migration_gate}
use reka_serdoba.Gate.Migrations.{
  Call, AreWithin, HasSeen, call, call_all, at_entry, call_all-HasSeen, IsGenuine,
  check_migration-IsGenuine,
}

abbrev nonce_of : List ℕ → List ℕ
nonce_of token = slice 24 40 token

-- What an accepted call has found, and what it leaves in `registry'`.
pub record Accepted (c : Crypto) (decode : List ℕ → Option (List ℕ)) (a : Call)
    (registry registry' : MigrationRegistry) (sender : ℕ) : Type 0 where
  pub token : List ℕ
  pub entry : MigrationEntry
  pub decoded : decode a.encoded ≡ some token
  pub token_len : length token ≡ 72
  pub named : find (session_of token) registry ≡ some entry
  pub answered : entry.sender ≡ sender
  pub genuine : IsGenuine c decode a token entry
  pub noted : HasSeen (session_of token) (nonce_of token) a.now registry'

-- The same, with the time of the token against the clock.
pub record Migrates (c : Crypto) (decode : List ℕ → Option (List ℕ)) (a : Call)
    (registry registry' : MigrationRegistry) (sender : ℕ) : Type 0 where
  pub token : List ℕ
  pub entry : MigrationEntry
  pub decoded : decode a.encoded ≡ some token
  pub token_len : length token ≡ 72
  pub named : find (session_of token) registry ≡ some entry
  pub answered : entry.sender ≡ sender
  pub in_time :
      IsNear 90 a.wall (from_be (slice 16 24 token))
      ⊎ IsOpposite a.wall (from_be (slice 16 24 token))
  pub mac :
      c.hmac_sha256 entry.secret (migration_message a.exporter token a.endpoint_id)
      ≡ some (slice 40 72 token)
  pub noted : HasSeen (session_of token) (nonce_of token) a.now registry'

module _ (c : Crypto) (decode : List ℕ → Option (List ℕ)) where
  migration_session_ok :
      (encoded token : List ℕ)
      → migration_session c decode encoded ≡ ok token
      → (decode encoded ≡ some token) × (length token ≡ 72)
  unfolding migration_session
  migration_session_ok encoded token e = elim (Option-cases (decode encoded)) [
    | inl p ↦ absurd (cc (rw (p, migration_session) at e))
    | inr (t, p) ↦ elim (Bool-cases (length t == 72)) [
      | inr l ↦ absurd (cc (rw (p, migration_session, l) at e))
      | inl l ↦
          let same : t ≡ token = token_of (rw (p, migration_session, l) at e) in
          (p ∙ ap some same, ap (λ (x : List ℕ). length x) (sym same) ∙ ground (arith, l))
    ]
  ]
    where
      token_of : {t : List ℕ} → Path (Result Error (List ℕ)) (ok t) (ok token) → t ≡ token
      token_of p = cc p

  entry_accepted :
      (a : Call) (entry : MigrationEntry) (token : List ℕ) (sender : ℕ)
      → answer entry.sender (at_entry c decode a entry token).1 ≡ ok sender
      → (entry.sender ≡ sender)
        × IsGenuine c decode a token entry
        × (at_least a.now (seen_at (nonce_of token) (at_entry c decode a entry token).0.replay)
            ≡ true)
  unfolding validate_migration_entry
  entry_accepted a entry token sender e =
      elim (Result-cases (check_migration c decode entry token a.exporter a.endpoint_id a.wall)) [
        | inr (x, p) ↦ absurd (cc (rw (p, validate_migration_entry) at e))
        | inl (u, p) ↦ elim (Bool-cases (check_replay (nonce_of token) a.now entry.replay).1) [
          | inl there ↦ absurd (cc (rw (p, validate_migration_entry, there) at e))
          | inr new ↦ (
            sender_of (rw (p, validate_migration_entry, new) at e),
            check_migration-IsGenuine c decode a token entry p,
            rw (p, validate_migration_entry)
                (check_replay-noted (nonce_of token) a.now entry.replay),
          )
        ]
      ]
    where
      sender_of : Path (Result Error ℕ) (ok entry.sender) (ok sender) → entry.sender ≡ sender
      sender_of p = cc p

  call-Accepted :
      (a : Call) (registry registry' : MigrationRegistry) (sender : ℕ)
      → call c decode a registry ≡ (registry', ok sender)
      → Accepted c decode a registry registry' sender
  unfolding validate_migration_gate
  call-Accepted a registry registry' sender e =
      elim (Result-cases (migration_session c decode a.encoded)) [
        | inr (x, p) ↦ absurd (cc (rw (p, validate_migration_gate) at e))
        | inl (token, p) ↦ elim (Option-cases (find (session_of token) registry)) [
          | inl f ↦ absurd (cc (rw (p, validate_migration_gate, f) at e))
          | inr (entry, f) ↦
              let both = rw (p, validate_migration_gate, f) at e in
              let shape = migration_session_ok a.encoded token p in
              let checked = entry_accepted a entry token sender (ap (λ x. x.1) both) in
              let new : MigrationEntry = (at_entry c decode a entry token).0 in
              record {
                token = token;
                entry = entry;
                decoded = shape.0;
                token_len = shape.1;
                named = f;
                answered = checked.0;
                genuine = checked.1;
                noted =
                    subst
                      (λ (r : MigrationRegistry).
                        HasSeen (session_of token) (nonce_of token) a.now r)
                      (ap (λ x. x.0) both)
                      (new, find-insert (session_of token) new registry, checked.2);
              }
        ]
      ]

  entry_refused :
      (a : Call) (t sender : ℕ) (token : List ℕ) (entry : MigrationEntry)
      → a.now ≤ t + gate_replay
      → at_least t (seen_at (nonce_of token) entry.replay) ≡ true
      → answer entry.sender (at_entry c decode a entry token).1 ≢ ok sender
  unfolding validate_migration_entry
  entry_refused a t sender token entry soon h e =
      elim (Result-cases (check_migration c decode entry token a.exporter a.endpoint_id a.wall)) [
        | inr (x, p) ↦ absurd (cc (rw (p, validate_migration_entry) at e))
        | inl (u, p) ↦
            let there = check_replay-there (nonce_of token) t a.now entry.replay soon h in
            absurd (cc (rw (p, validate_migration_entry, there) at e))
      ]

  refused :
      (a : Call) (t sender : ℕ) (token : List ℕ) (registry : MigrationRegistry)
      → decode a.encoded ≡ some token
      → a.now ≤ t + gate_replay
      → HasSeen (session_of token) (nonce_of token) t registry
      → (call c decode a registry).1 ≢ ok sender
  unfolding validate_migration_gate
  refused a t sender token registry same soon (entry, there, h) e =
      elim (Result-cases (migration_session c decode a.encoded)) [
        | inr (x, p) ↦ absurd (cc (rw (p, validate_migration_gate) at e))
        | inl (token', p) ↦
            let is_token : token' ≡ token =
              token_of (sym (migration_session_ok a.encoded token' p).0 ∙ same) in
            let found : find (session_of token') registry ≡ some entry =
              ap (λ (x : List ℕ). find (session_of x) registry) is_token ∙ there in
            entry_refused a t sender token' entry soon
              (subst (λ (x : List ℕ). at_least t (seen_at (nonce_of x) entry.replay) ≡ true)
                (sym is_token) h)
              (rw (p, validate_migration_gate, found) at e)
      ]
    where
      token_of : {x : List ℕ} → some x ≡ some token → x ≡ token
      token_of p = cc p

  -- Once a call has been answered with a sender, no call that decodes to the same token is answered
  -- with one in the 180 seconds that follow, whatever other calls come in between.
  pub validate_migration_gate_once :
      (first second : Call) (between : List Call) (registry registry' : MigrationRegistry)
      (sender sender' : ℕ)
      → call c decode first registry ≡ (registry', ok sender)
      → AreWithin first.now between
      → second.now ≤ first.now + gate_replay
      → decode second.encoded ≡ decode first.encoded
      → (call c decode second (call_all c decode between registry')).1 ≢ ok sender'
  validate_migration_gate_once first second between registry registry' sender sender' opened within
        soon same =
      let x = call-Accepted first registry registry' sender opened in
      refused second first.now sender' x.token _ (same ∙ x.decoded) soon (
        call_all-HasSeen c decode (session_of x.token) (nonce_of x.token) first.now between
          registry' within x.noted)

  -- When `validate_migration_gate` answers with a sender, by a clock of 90 seconds or more that fits
  -- in 63 bits, and with a decoder that gives bytes: the token decodes to 72 bytes, the session that
  -- its first 16 name is registered with this sender, its time is at most 90 seconds from the clock
  -- or exactly 2^63 seconds after it, and its MAC is that of the session's secret over the exporter,
  -- the session, the time, the nonce and the endpoint; and its nonce is noted.
  pub validate_migration_gate_ok :
      (a : Call) (registry registry' : MigrationRegistry) (sender : ℕ)
      → ((encoded token : List ℕ) → decode encoded ≡ some token → AreBytes token)
      → 90 ≤ a.wall
      → a.wall < 2 ^ 63
      → call c decode a registry ≡ (registry', ok sender)
      → Migrates c decode a registry registry' sender
  unfolding outside_window
  validate_migration_gate_ok a registry registry' sender octets started wall_max e =
      let x = call-Accepted a registry registry' sender e in
      let time : ℕ = from_be (slice 16 24 x.token) in
      let time_max : time < 2 ^ 64 =
        from_be_bound 8 (slice 16 24 x.token)
          (All-slice IsByte 16 24 x.token (octets a.encoded x.token x.decoded))
          (length-slice 16 24 x.token (omega arith) (omega (arith, x.token_len))) in
      record {
        token = x.token;
        entry = x.entry;
        decoded = x.decoded;
        token_len = x.token_len;
        named = x.named;
        answered = x.answered;
        in_time = is_near 90 a.wall time started wall_max time_max x.genuine.in_time;
        mac = x.genuine.mac;
        noted = x.noted;
      }
