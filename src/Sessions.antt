-- ===== src/Sessions.antt =====
-- `serve_session` (rekaserdoba/src/main.rs) around the handshake and the session that it runs: the
-- permits, the counters and the registration for a migration. What lies between two waits of the
-- function is one step: the waits are the handshake, the session and the closing of the carrier. The
-- handshake and the session are arguments by how they end.
pub mod Reasons
pub mod Reached
pub mod Accounts
use reka_serdoba.Common.{
  ℕ, ◌+◌, ◌-◌, ◌%◌, ◌^◌, min, Bool, true, false, not, ◌&&◌, ◌||◌, Option, none, some, List, [], ◌∷◌,
  ◌++◌, length, take, ltb, leb, ◌==◌, bytes_eq, if◌then◌else◌, Result, ok, err,
}
use reka_serdoba.Gate.Registry.{MigrationRegistry, register_migration, drop_registration}
use reka_serdoba.Sessions.Reasons.{disconnect_reason}

-- `MAX_ACTIVE_CARRIERS`
abbrev pub max_active_carriers : ℕ
max_active_carriers = 1024

-- The part of `Metrics` that is counted here.
pub record SessionMetrics : Type 0 where
  pub handshake_failed : ℕ
  pub sessions_total : ℕ
  pub sessions_active : ℕ
  pub overloaded_total : ℕ
  pub disconnects_expected_total : ℕ
  pub disconnects_error_total : ℕ
  pub handshake_duration_micros_total : ℕ
  pub handshake_attempts_total : ℕ
  pub wss_sessions_total : ℕ
  pub h2_sessions_total : ℕ
  pub h3_sessions_total : ℕ

-- What the tasks of all sessions share.
pub record Shared : Type 0 where
  pub available_permits : ℕ
  pub draining : Bool
  pub metrics : SessionMetrics
  pub migrations : MigrationRegistry

-- `Carrier::kind`
pub data CarrierKind : Type 0 where
  wss h2 h3 : CarrierKind

-- How the handshake ends: with a session, with an error or by its time running out.
pub data Handshaken : Type 0 where
  established : (session_id : ℕ) (secret : List ℕ) (sender : ℕ) → Handshaken
  failed timed_out : Handshaken

abbrev pub bump : ℕ → ℕ
bump n = (n + 1) % 2 ^ 64

-- `fetch_sub(1, ...)`
abbrev pub lower : ℕ → ℕ
lower n = (n + 2 ^ 64 - 1) % 2 ^ 64

abbrev pub count_kind : CarrierKind → SessionMetrics → SessionMetrics
count_kind wss m = record m { wss_sessions_total = bump m.wss_sessions_total }
count_kind h2 m = record m { h2_sessions_total = bump m.h2_sessions_total }
count_kind h3 m = record m { h3_sessions_total = bump m.h3_sessions_total }

-- What a task still holds while its carrier is closed.
pub data Holds : Type 0 where
  permit permit_and_active : Holds

-- How the task goes on: its carrier is closed without a permit, it waits for the handshake or runs
-- the session, or its carrier is closed while it holds something.
pub data Next : Type 0 where
  turned_away proceeds : Next
  closes : Holds → Next

-- Up to the handshake.
unfoldable pub begin : Shared → Shared × Next
begin s =
    if s.available_permits == 0
    then (
      record s {
        metrics = record s.metrics { overloaded_total = bump s.metrics.overloaded_total };
      },
      turned_away,
    )
    else if s.draining
    then (record s { available_permits = s.available_permits - 1 }, closes permit)
    else (
      record s {
        available_permits = s.available_permits - 1;
        metrics = record s.metrics {
          handshake_attempts_total = bump s.metrics.handshake_attempts_total;
        };
      },
      proceeds,
    )

-- `ActiveSession::drop`
abbrev pub drop_active : SessionMetrics → SessionMetrics
drop_active m = record m { sessions_active = lower m.sessions_active }

-- Once the carrier is closed: what the task held is dropped.
unfoldable pub end_task : Holds → Shared → Shared
end_task permit s = record s { available_permits = s.available_permits + 1 }
end_task permit_and_active s = record s {
  available_permits = s.available_permits + 1;
  metrics = drop_active s.metrics;
}

abbrev pub count_duration : ℕ → SessionMetrics → SessionMetrics
count_duration micros m = record m {
  handshake_duration_micros_total =
      (m.handshake_duration_micros_total + min micros (2 ^ 64 - 1)) % 2 ^ 64;
}

abbrev pub count_failed : SessionMetrics → SessionMetrics
count_failed m = record m { handshake_failed = bump m.handshake_failed }

abbrev pub count_session : CarrierKind → SessionMetrics → SessionMetrics
count_session kind m =
    let counted : SessionMetrics =
      count_kind kind (record m { sessions_total = bump m.sessions_total }) in
    record counted { sessions_active = bump counted.sessions_active }

-- After the handshake. When the registration fails, the session is counted as active until its
-- carrier is closed.
unfoldable pub after_handshake : CarrierKind → ℕ → Handshaken → Shared → Shared × Next
after_handshake kind micros failed s =
    (record s { metrics = count_failed (count_duration micros s.metrics) }, closes permit)
after_handshake kind micros timed_out s =
    (record s { metrics = count_failed (count_duration micros s.metrics) }, closes permit)
after_handshake kind micros (established session_id secret sender) s =
    let counted : SessionMetrics = count_session kind (count_duration micros s.metrics) in
    let x = register_migration session_id secret sender s.migrations in
    elim x.1 [
      | ok done ↦ (record s { metrics = counted; migrations = x.0 }, proceeds)
      | err e ↦ (record s { metrics = counted; migrations = x.0 }, closes permit_and_active)
    ]

abbrev pub count_disconnect : Bool → SessionMetrics → SessionMetrics
count_disconnect true m = record m {
  disconnects_expected_total = bump m.disconnects_expected_total;
}
count_disconnect false m = record m { disconnects_error_total = bump m.disconnects_error_total }

abbrev pub count_end : Option (List ℕ) → SessionMetrics → SessionMetrics
count_end none m = m
count_end (some reason) m = count_disconnect (disconnect_reason reason).1 m

-- After the session, which has ended well or with an error whose text is given: the registration
-- and the active session are dropped before the carrier is closed, with the permit held.
unfoldable pub end_session : ℕ → Option (List ℕ) → Shared → Shared × Next
end_session session_id reason s = (
  record s {
    metrics = drop_active (count_end reason s.metrics);
    migrations = drop_registration session_id s.migrations;
  },
  closes permit,
)
