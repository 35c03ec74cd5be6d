-- ===== src/Gate/Migrations.antt =====
-- What calls of `validate_migration_gate` keep, and what an entry has checked.
use reka_serdoba.Common.{
  ℕ, ◌+◌, ◌≤◌, ◌≡◌, ◌∙◌, sym, ap, subst, ◌==◌, slice, bytes_eq, bytes_eq→eq, Option-cases, true,
  false, Option, some, List, [], ◌∷◌, Result, ok, Result-cases, Bool-cases, inl, inr, arith,
}
use reka_serdoba.Common.Words.{from_be}
use reka_serdoba.Common.Maps.{find, insert, find-insert, find-insert_other}
use reka_serdoba.Errors.{Error}
use reka_serdoba.Crypto.{Crypto}
use reka_serdoba.Gate.{
  MigrationEntry, seen_at, migration_session, check_migration, migration_message,
  validate_migration_entry, gate_replay, outside_window,
}
use reka_serdoba.Gate.Kept.{at_least, check_replay-at_least}
use reka_serdoba.Gate.Registry.{MigrationRegistry, session_of, validate_migration_gate}

-- A call of `validate_migration_gate`, with the system's time and the monotonic one.
pub record Call : Type 0 where
  pub encoded : List ℕ
  pub exporter : List ℕ
  pub endpoint_id : ℕ
  pub wall : ℕ
  pub now : ℕ

abbrev pub AreWithin : ℕ → List Call → Type 0
AreWithin t [] = Unit
AreWithin t (a ∷ calls) = (t ≤ a.now) × (a.now ≤ t + gate_replay) × AreWithin t calls

-- The session is there, and has noted the nonce at `t` or later.
abbrev pub HasSeen : ℕ → List ℕ → ℕ → MigrationRegistry → Type 0
HasSeen session nonce t registry =
    (entry : MigrationEntry) × (find session registry ≡ some entry)
    × (at_least t (seen_at nonce entry.replay) ≡ true)

module _ (c : Crypto) (decode : List ℕ → Option (List ℕ)) where
  abbrev pub call : Call → MigrationRegistry → MigrationRegistry × Result Error ℕ
  call a = validate_migration_gate c decode a.encoded a.exporter a.endpoint_id a.wall a.now

  unfoldable pub call_all : List Call → MigrationRegistry → MigrationRegistry
  call_all [] registry = registry
  call_all (a ∷ calls) registry = call_all calls (call a registry).0

  abbrev pub at_entry : Call → MigrationEntry → List ℕ → MigrationEntry × Result Error (Unit {0})
  at_entry a entry token =
      validate_migration_entry c decode entry token a.exporter a.endpoint_id a.wall a.now

  entry-at_least :
      (nonce : List ℕ) (t : ℕ) (a : Call) (entry : MigrationEntry) (token : List ℕ)
      → t ≤ a.now
      → a.now ≤ t + gate_replay
      → at_least t (seen_at nonce entry.replay) ≡ true
      → at_least t (seen_at nonce (at_entry a entry token).0.replay) ≡ true
  unfolding validate_migration_entry
  entry-at_least nonce t a entry token later soon h =
      elim (Result-cases (check_migration c decode entry token a.exporter a.endpoint_id a.wall)) [
        | inr (e, p) ↦ rw (p, validate_migration_entry) h
        | inl (x, p) ↦
            rw (p, validate_migration_entry)
              (check_replay-at_least nonce (slice 24 40 token) t a.now entry.replay later soon h)
      ]

  write-HasSeen :
      (session : ℕ) (nonce : List ℕ) (t : ℕ) (a : Call) (registry : MigrationRegistry)
      (token : List ℕ) (found : MigrationEntry)
      → t ≤ a.now
      → a.now ≤ t + gate_replay
      → find (session_of token) registry ≡ some found
      → HasSeen session nonce t registry
      → HasSeen session nonce t (insert (session_of token) (at_entry a found token).0 registry)
  write-HasSeen session nonce t a registry token found later soon f (entry, there, h) =
      let new : MigrationEntry = (at_entry a found token).0 in
      elim (Bool-cases (session_of token == session)) [
        | inl same ↦
            let is_session : session_of token ≡ session = ground (arith, same) in
            let is_entry : entry ≡ found =
              same_entry (sym there ∙ ap (λ (i : ℕ). find i registry) (sym is_session) ∙ f) in
            (
              new,
              ap (λ (i : ℕ). find i (insert (session_of token) new registry)) (sym is_session)
                  ∙ find-insert (session_of token) new registry,
              entry-at_least nonce t a found token later soon (
                  subst (λ (x : MigrationEntry). at_least t (seen_at nonce x.replay) ≡ true)
                    is_entry h),
            )
        | inr other ↦
            (entry, find-insert_other session (session_of token) new registry other ∙ there, h)
      ]
    where
      same_entry : {x y : MigrationEntry} → some x ≡ some y → x ≡ y
      same_entry p = cc p

  call-HasSeen :
      (session : ℕ) (nonce : List ℕ) (t : ℕ) (a : Call) (registry : MigrationRegistry)
      → t ≤ a.now
      → a.now ≤ t + gate_replay
      → HasSeen session nonce t registry
      → HasSeen session nonce t (call a registry).0
  unfolding validate_migration_gate
  call-HasSeen session nonce t a registry later soon h =
      elim (Result-cases (migration_session c decode a.encoded)) [
        | inr (e, p) ↦ rw (p, validate_migration_gate) h
        | inl (token, p) ↦ elim (Option-cases (find (session_of token) registry)) [
          | inl f ↦ rw (p, validate_migration_gate, f) h
          | inr (found, f) ↦
              rw (p, validate_migration_gate, f)
                (write-HasSeen session nonce t a registry token found later soon f h)
        ]
      ]

  pub call_all-HasSeen :
      (session : ℕ) (nonce : List ℕ) (t : ℕ) (calls : List Call) (registry : MigrationRegistry)
      → AreWithin t calls
      → HasSeen session nonce t registry
      → HasSeen session nonce t (call_all calls registry)
  unfolding call_all
  call_all-HasSeen session nonce t [] registry within h = h
  call_all-HasSeen session nonce t (a ∷ calls) registry (later, soon, within) h =
      call_all-HasSeen session nonce t calls (call a registry).0 within
        (call-HasSeen session nonce t a registry later soon h)

  -- What the entry has checked when it answers.
  pub record IsGenuine (a : Call) (token : List ℕ) (entry : MigrationEntry) : Type 0 where
    pub in_time : outside_window a.wall (from_be (slice 16 24 token)) ≡ false
    pub mac :
        c.hmac_sha256 entry.secret (migration_message a.exporter token a.endpoint_id)
        ≡ some (slice 40 72 token)

  pub check_migration-IsGenuine :
      (a : Call) (token : List ℕ) (entry : MigrationEntry)
      → check_migration c decode entry token a.exporter a.endpoint_id a.wall ≡ ok tt
      → IsGenuine a token entry
  unfolding check_migration
  check_migration-IsGenuine a token entry e =
      elim (Bool-cases (outside_window a.wall (from_be (slice 16 24 token)))) [
        | inl o ↦ absurd (cc (rw (check_migration, o) at e))
        | inr o ↦
            elim (Option-cases
              (c.hmac_sha256 entry.secret (migration_message a.exporter token a.endpoint_id))) [
                | inl m ↦ absurd (cc (rw (check_migration, o, m) at e))
                | inr (mac, m) ↦ elim (Bool-cases (bytes_eq mac (slice 40 72 token))) [
                  | inr s ↦ absurd (cc (rw (check_migration, o, m, s) at e))
                  | inl s ↦ record {
                    in_time = o;
                    mac = m ∙ ap some (bytes_eq→eq mac (slice 40 72 token) s);
                  }
                ]
              ]
      ]
