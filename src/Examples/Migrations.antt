-- ===== src/Examples/Migrations.antt =====
-- The registry of migrations at concrete inputs.
use reka_serdoba.Common.{
  ℕ, ◌*◌, ◌≡◌, ◌≢◌, ◌↔◌, ◌==◌, refl, Option, Bool-cases, inl, inr, subst, if◌then◌else◌, List, [],
  ◌∷◌, ◌++◌, replicate, slice, bytes_eq, false, none, some, ok, err, arith,
}
use reka_serdoba.Common.Words.{AreBytes, from_be}
use reka_serdoba.Common.Maps.{find, insert}
use reka_serdoba.Errors.{duplicate_active_session_id}
use reka_serdoba.Examples.Toy.{steady}
use reka_serdoba.Gate
use reka_serdoba.Gate.{MigrationEntry}
use reka_serdoba.Gate.Registry.{
  MigrationRegistry, entry_of, register_migration, register_migration_lem, validate_migration_gate,
}
use reka_serdoba.Gate.Migrations.{Call, call, call_all}
use reka_serdoba.Gate.MigrationsOnce.{
  Migrates, validate_migration_gate_ok, validate_migration_gate_once,
}

-- A token of the session 1 for the second 1000.
abbrev token : List ℕ
token = replicate 15 0 ++ (1 ∷ 0 ∷ 0 ∷ 0 ∷ 0 ∷ 0 ∷ 0 ∷ 3 ∷ 232 ∷ (replicate 16 2 ++ replicate 32 4))

abbrev at_second : ℕ → Call
at_second seconds = record {
  encoded = token;
  exporter = [];
  endpoint_id = 0;
  wall = seconds;
  now = seconds * 1000000000;
}

-- The session 1 is registered with the channel 9.
abbrev registry : MigrationRegistry
registry = (1, entry_of [] 9) ∷ []

abbrev noted : MigrationRegistry
noted = (1, record { secret = []; sender = 9; replay = (replicate 16 2, 1000000000000) ∷ [] }) ∷ []

answered : call steady (λ x. some x) (at_second 1000) registry ≡ (noted, ok 9)
unfolding validate_migration_gate Gate.migration_session Gate.validate_migration_entry
    Gate.check_migration slice from_be Gate.outside_window bytes_eq Gate.check_replay Gate.retain
    Gate.note Gate.seen_at find insert
answered = refl

-- A decoder for this token alone.
abbrev decode : List ℕ → Option (List ℕ)
decode encoded = if bytes_eq encoded token then some token else none

octets : (encoded bytes : List ℕ) → decode encoded ≡ some bytes → AreBytes bytes
octets encoded bytes e = elim (Bool-cases (bytes_eq encoded token)) [
  | inl same ↦ subst AreBytes (found (rw same at e)) (omega arith)
  | inr other ↦ absurd (cc (rw other at e))
]
  where
    found : {x y : List ℕ} → some x ≡ some y → x ≡ y
    found p = cc p

answered_decoded : call steady decode (at_second 1000) registry ≡ (noted, ok 9)
unfolding validate_migration_gate Gate.migration_session Gate.validate_migration_entry
    Gate.check_migration slice from_be Gate.outside_window bytes_eq Gate.check_replay Gate.retain
    Gate.note Gate.seen_at find insert
answered_decoded = refl

validate_migration_gate_ok_example : Migrates steady decode (at_second 1000) registry noted 9
validate_migration_gate_ok_example =
    validate_migration_gate_ok steady decode (at_second 1000) registry noted 9 octets (omega arith)
      (omega arith) answered_decoded

validate_migration_gate_once_example :
    (call steady
      (λ x. some x)
      (at_second 1090)
      (call_all steady (λ x. some x) (at_second 1050 ∷ []) noted)).1
    ≢ ok 9
validate_migration_gate_once_example =
    validate_migration_gate_once steady (λ x. some x) (at_second 1000) (at_second 1090)
      (at_second 1050 ∷ []) registry noted 9 9 answered (omega arith, omega arith, tt) (omega arith)
      refl

-- A session id that is there is refused, and its entry is gone all the same.
replaced :
    register_migration 1 (5 ∷ []) 10 registry
    ≡ ((1, entry_of (5 ∷ []) 10) ∷ [], err duplicate_active_session_id)
unfolding register_migration insert find
replaced = refl

register_migration_lem_example :
    let x = register_migration 1 (5 ∷ []) 10 registry in
    ((x.1 ≡ ok tt) ↔ (find 1 registry ≡ none))
    × (find 1 x.0 ≡ some (entry_of (5 ∷ []) 10))
    × ((other : ℕ) → (1 == other) ≡ false → find other x.0 ≡ find other registry)
register_migration_lem_example = register_migration_lem 1 (5 ∷ []) 10 registry
