-- ===== src/Gate/Registry.antt =====
-- The registry of sessions that can be migrated: `register_migration`, `validate_migration_gate`
-- and the `Drop` of `MigrationRegistration` (rekaserdoba/src/main.rs). A session id of 16 bytes is
-- the number that it spells. The entry that a token names is looked up and checked in one go: that
-- another call replaces it in between is left out.
use reka_serdoba.Common.{
  ℕ, ◌≡◌, ◌↔◌, ◌==◌, refl, inl, inr, Option, none, some, Option-cases, List, [], slice, Bool, true,
  false, if◌then◌else◌, Result, ok, err,
}
use reka_serdoba.Common.Words.{from_be}
use reka_serdoba.Common.Maps.{find, insert, erase, find-insert, find-insert_other}
use reka_serdoba.Errors.{Error, unknown_migration_session, duplicate_active_session_id}
use reka_serdoba.Crypto.{Crypto}
use reka_serdoba.Gate.{MigrationEntry, migration_session, validate_migration_entry}

abbrev pub MigrationRegistry : Type 0
MigrationRegistry = List (ℕ × MigrationEntry)

abbrev pub is_registered : Option MigrationEntry → Bool
is_registered none = false
is_registered (some entry) = true

-- The fresh entry of a session.
abbrev pub entry_of : List ℕ → ℕ → MigrationEntry
entry_of secret sender = record { secret = secret; sender = sender; replay = [] }

-- `register_migration`; the sender is that of a new channel.
unfoldable pub register_migration :
    ℕ → List ℕ → ℕ → MigrationRegistry → MigrationRegistry × Result Error (Unit {0})
register_migration session_id secret sender registry = (
  insert session_id (entry_of secret sender) registry,
  if is_registered (find session_id registry) then err duplicate_active_session_id else ok tt,
)

-- `drop` of a `MigrationRegistration`
unfoldable pub drop_registration : ℕ → MigrationRegistry → MigrationRegistry
drop_registration session_id registry = erase session_id registry

abbrev pub session_of : List ℕ → ℕ
session_of token = from_be (slice 0 16 token)

-- The answer of the entry: its sender.
abbrev pub answer : ℕ → Result Error (Unit {0}) → Result Error ℕ
answer sender (ok u) = ok sender
answer sender (err e) = err e

module _ (c : Crypto) (decode : List ℕ → Option (List ℕ)) where
  -- `validate_migration_gate`
  unfoldable pub validate_migration_gate :
      List ℕ → List ℕ → ℕ → ℕ → ℕ → MigrationRegistry → MigrationRegistry × Result Error ℕ
  validate_migration_gate encoded exporter endpoint_id wall now registry =
      elim (migration_session c decode encoded) [
        | err e ↦ (registry, err e)
        | ok token ↦ elim (find (session_of token) registry) [
          | none ↦ (registry, err unknown_migration_session)
          | some entry ↦
              let x = validate_migration_entry c decode entry token exporter endpoint_id wall now in
              (insert (session_of token) x.0 registry, answer entry.sender x.1)
        ]
      ]

-- Registering is refused just when the id is there, but the entry is written in either case: the
-- id has the new secret, the new sender and nothing noted, and every other id keeps its entry.
pub register_migration_lem :
    (session_id : ℕ) (secret : List ℕ) (sender : ℕ) (registry : MigrationRegistry)
    → let x = register_migration session_id secret sender registry in
      ((x.1 ≡ ok tt) ↔ (find session_id registry ≡ none))
      × (find session_id x.0 ≡ some (entry_of secret sender))
      × ((other : ℕ) → (session_id == other) ≡ false → find other x.0 ≡ find other registry)
unfolding register_migration
register_migration_lem session_id secret sender registry = (
  (
    λ e. elim (Option-cases (find session_id registry)) [
      | inl f ↦ f
      | inr (entry, f) ↦ absurd (cc (rw f at e))
    ],
    λ e. rw e refl,
  ),
  find-insert session_id (entry_of secret sender) registry,
  λ other h. find-insert_other other session_id (entry_of secret sender) registry h,
)
