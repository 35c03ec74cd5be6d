-- ===== src/Sessions/Reached.antt =====
-- What is reached by the tasks of all sessions, in any order, and the accounts of it (rekaserdoba/src/main.rs).
use reka_serdoba.Common.{
  ℕ, suc, ◌+◌, ◌%◌, ◌^◌, ◌≤◌, ◌≡◌, true, false, Option, List, [], ◌∷◌, ◌++◌, length, arith,
}
use reka_serdoba.Sessions.{
  max_active_carriers, SessionMetrics, Shared, CarrierKind, Handshaken, established, Holds, permit,
  permit_and_active, turned_away, proceeds, closes, begin, end_task, after_handshake, end_session,
}

-- `Metrics::default()`
abbrev pub no_metrics : SessionMetrics
no_metrics = record {
  handshake_failed = 0;
  sessions_total = 0;
  sessions_active = 0;
  overloaded_total = 0;
  disconnects_expected_total = 0;
  disconnects_error_total = 0;
  handshake_duration_micros_total = 0;
  handshake_attempts_total = 0;
  wss_sessions_total = 0;
  h2_sessions_total = 0;
  h3_sessions_total = 0;
}

abbrev pub at_start : Shared
at_start = record {
  available_permits = max_active_carriers;
  draining = false;
  metrics = no_metrics;
  migrations = [];
}

-- What the tasks share after any steps of any of them, with how many wait for a handshake, the ids of
-- the sessions that run, and what the tasks hold whose carriers are being closed. A task that waits
-- goes on once, a session that runs ends once, and a carrier is closed once.
pub data Reached : Shared → ℕ → List ℕ → List Holds → Type 0 where
  started : Reached at_start 0 [] []
  draining :
      {s : Shared} {waiting : ℕ} {running : List ℕ} {closing : List Holds}
      → Reached s waiting running closing
      → Reached (record s { draining = true }) waiting running closing
  came :
      {s : Shared} {waiting : ℕ} {running : List ℕ} {closing : List Holds}
      → Reached s waiting running closing
      → (begin s).1 ≡ proceeds
      → Reached (begin s).0 (suc waiting) running closing
  refused :
      {s : Shared} {waiting : ℕ} {running : List ℕ} {closing : List Holds}
      → Reached s waiting running closing
      → (begin s).1 ≡ turned_away
      → Reached (begin s).0 waiting running closing
  came_late :
      {s : Shared} {waiting : ℕ} {running : List ℕ} {closing : List Holds}
      → Reached s waiting running closing
      → (holds : Holds) → (begin s).1 ≡ closes holds
      → Reached (begin s).0 waiting running (holds ∷ closing)
  settled :
      {s : Shared} {waiting : ℕ} {running : List ℕ} {closing : List Holds}
      → Reached s (suc waiting) running closing
      → (kind : CarrierKind) (micros session_id : ℕ) (secret : List ℕ) (sender : ℕ)
      → (after_handshake kind micros (established session_id secret sender) s).1 ≡ proceeds
      → Reached
          (after_handshake kind micros (established session_id secret sender) s).0
          waiting
          (session_id ∷ running)
          closing
  gave_up :
      {s : Shared} {waiting : ℕ} {running : List ℕ} {closing : List Holds}
      → Reached s (suc waiting) running closing
      → (kind : CarrierKind) (micros : ℕ) (handshaken : Handshaken) (holds : Holds)
      → (after_handshake kind micros handshaken s).1 ≡ closes holds
      → Reached (after_handshake kind micros handshaken s).0 waiting running (holds ∷ closing)
  ended :
      {s : Shared} {waiting : ℕ} {closing : List Holds} (session_id : ℕ) (xs ys : List ℕ)
      → Reached s waiting (xs ++ (session_id ∷ ys)) closing
      → (reason : Option (List ℕ)) (holds : Holds)
      → (end_session session_id reason s).1 ≡ closes holds
      → Reached (end_session session_id reason s).0 waiting (xs ++ ys) (holds ∷ closing)
  closed :
      {s : Shared} {waiting : ℕ} {running : List ℕ} (holds : Holds) (xs ys : List Holds)
      → Reached s waiting running (xs ++ (holds ∷ ys))
      → Reached (end_task holds s) waiting running (xs ++ ys)

-- How many of the tasks that end are still counted as active.
abbrev pub active_of : Holds → ℕ
active_of permit = 0
active_of permit_and_active = 1

abbrev pub still_active : List Holds → ℕ
still_active [] = 0
still_active (holds ∷ closing) = active_of holds + still_active closing

pub still_active-append :
    (xs ys : List Holds) → still_active (xs ++ ys) ≡ still_active xs + still_active ys
still_active-append [] ys = omega arith
still_active-append (x ∷ xs) ys = omega (arith, still_active-append xs ys)

pub still_active_max : (xs : List Holds) → still_active xs ≤ length xs
still_active_max [] = omega arith
still_active_max (permit ∷ xs) = omega (arith, still_active_max xs)
still_active_max (permit_and_active ∷ xs) = omega (arith, still_active_max xs)

-- The accounts: every permit is free or held by a task, and the counters say what there is.
pub record AddsUp (s : Shared) (waiting : ℕ) (running : List ℕ) (closing : List Holds)
    : Type 0 where
  pub permits :
      s.available_permits + waiting + length running + length closing ≡ max_active_carriers
  pub active : s.metrics.sessions_active ≡ length running + still_active closing
  pub attempts :
      s.metrics.handshake_attempts_total
      ≡ (s.metrics.handshake_failed + s.metrics.sessions_total + waiting) % 2 ^ 64
  pub kinds :
      s.metrics.sessions_total
      ≡ (s.metrics.wss_sessions_total + s.metrics.h2_sessions_total + s.metrics.h3_sessions_total)
        % 2 ^ 64
