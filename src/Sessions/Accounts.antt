-- ===== src/Sessions/Accounts.antt =====
-- The tasks of all sessions keep the accounts (rekaserdoba/src/main.rs).
use reka_serdoba.Common.{
  ℕ, suc, ◌+◌, ◌%◌, ◌^◌, ◌≡◌, refl, subst, if-cases, Bool, true, false, Option, none, some, List,
  ◌∷◌, ◌++◌, length-append, ◌==◌, inl, inr, Result-cases, arith,
}
use reka_serdoba.Gate.Registry.{register_migration}
use reka_serdoba.Sessions.{
  SessionMetrics, Shared, CarrierKind, wss, h2, h3, Handshaken, established, failed, timed_out,
  Holds, permit, permit_and_active, Next, turned_away, proceeds, closes, begin, end_task,
  after_handshake, end_session, count_end, count_disconnect, count_session, count_duration, bump,
}
use reka_serdoba.Sessions.Reasons.{disconnect_reason}
use reka_serdoba.Sessions.Reached.{
  Reached, started, draining, came, refused, came_late, settled, gave_up, ended, closed,
  still_active-append, still_active_max, AddsUp,
}

-- The accounts after a step, by how the task goes on.
abbrev StepsTo : ℕ → List ℕ → List Holds → ℕ → List ℕ → Shared × Next → Type 0
StepsTo waiting running closing waiting' running' (s, turned_away) =
    AddsUp s waiting running closing
StepsTo waiting running closing waiting' running' (s, proceeds) = AddsUp s waiting' running' closing
StepsTo waiting running closing waiting' running' (s, closes holds) =
    AddsUp s waiting running (holds ∷ closing)

module _ (waiting : ℕ) (running : List ℕ) (closing : List Holds) where
  begin-AddsUp :
      (s : Shared)
      → AddsUp s waiting running closing
      → StepsTo waiting running closing (suc waiting) running (begin s)
  unfolding begin
  begin-AddsUp s h =
      if-cases (StepsTo waiting running closing (suc waiting) running) (s.available_permits == 0)
        (λ full. record {
          permits = h.permits;
          active = h.active;
          attempts = h.attempts;
          kinds = h.kinds;
        })
        (λ free.
          if-cases (StepsTo waiting running closing (suc waiting) running) s.draining
            (λ stops. record {
              permits = ground (arith, free, h.permits);
              active = omega (arith, h.active);
              attempts = h.attempts;
              kinds = h.kinds;
            })
            (λ goes. record {
              permits = ground (arith, free, h.permits);
              active = h.active;
              attempts = omega (arith, h.attempts);
              kinds = h.kinds;
            }))

-- The counters of a session that begins.
counted-kinds :
    (kind : CarrierKind) (m : SessionMetrics)
    → m.sessions_total ≡ (m.wss_sessions_total + m.h2_sessions_total + m.h3_sessions_total) % 2 ^ 64
    → let n = count_session kind m in
      (n.sessions_total
        ≡ (n.wss_sessions_total + n.h2_sessions_total + n.h3_sessions_total) % 2 ^ 64)
      × (n.sessions_total ≡ bump m.sessions_total)
      × (n.sessions_active ≡ bump m.sessions_active)
      × (n.handshake_failed ≡ m.handshake_failed)
      × (n.handshake_attempts_total ≡ m.handshake_attempts_total)
counted-kinds wss m h = (omega (arith, h), refl, refl, refl, refl)
counted-kinds h2 m h = (omega (arith, h), refl, refl, refl, refl)
counted-kinds h3 m h = (omega (arith, h), refl, refl, refl, refl)

module _ (waiting : ℕ) (running : List ℕ) (closing : List Holds) where
  -- The sessions that a step leaves running.
  abbrev added : Handshaken → List ℕ
  added (established session_id secret sender) = session_id ∷ running
  added failed = running
  added timed_out = running

  after_handshake-AddsUp :
      (s : Shared) (kind : CarrierKind) (micros : ℕ) (handshaken : Handshaken)
      → AddsUp s (suc waiting) running closing
      → StepsTo waiting running closing waiting
          (added handshaken)
          (after_handshake kind micros handshaken s)
  unfolding after_handshake
  after_handshake-AddsUp s kind micros failed h = record {
    permits = omega (arith, h.permits);
    active = omega (arith, h.active);
    attempts = omega (arith, h.attempts);
    kinds = h.kinds;
  }
  after_handshake-AddsUp s kind micros timed_out h = record {
    permits = omega (arith, h.permits);
    active = omega (arith, h.active);
    attempts = omega (arith, h.attempts);
    kinds = h.kinds;
  }
  after_handshake-AddsUp s kind micros (established session_id secret sender) h =
      let (kinds, total, active, failures, attempts) =
        counted-kinds kind (count_duration micros s.metrics) h.kinds in
      elim (Result-cases (register_migration session_id secret sender s.migrations).1) [
        | inl (done, e) ↦
            rw (e, after_handshake)
              (record {
                permits = omega (arith, h.permits);
                active = omega (arith, active, h.active, h.permits, still_active_max closing);
                attempts = omega (arith, attempts, failures, total, h.attempts);
                kinds = kinds;
              })
        | inr (x, e) ↦
            rw (e, after_handshake)
              (record {
                permits = omega (arith, h.permits);
                active = omega (arith, active, h.active, h.permits, still_active_max closing);
                attempts = omega (arith, attempts, failures, total, h.attempts);
                kinds = kinds;
              })
      ]

-- Counting how a session ended changes none of the accounts.
AddsUp-disconnected :
    (s : Shared) (waiting : ℕ) (running : List ℕ) (closing : List Holds) (expected : Bool)
    → AddsUp s waiting running closing
    → AddsUp (record s { metrics = count_disconnect expected s.metrics }) waiting running closing
AddsUp-disconnected s waiting running closing true h = record {
  permits = h.permits;
  active = h.active;
  attempts = h.attempts;
  kinds = h.kinds;
}
AddsUp-disconnected s waiting running closing false h = record {
  permits = h.permits;
  active = h.active;
  attempts = h.attempts;
  kinds = h.kinds;
}

AddsUp-counted :
    (s : Shared) (waiting : ℕ) (running : List ℕ) (closing : List Holds) (reason : Option (List ℕ))
    → AddsUp s waiting running closing
    → AddsUp (record s { metrics = count_end reason s.metrics }) waiting running closing
AddsUp-counted s waiting running closing none h = h
AddsUp-counted s waiting running closing (some text) h =
    AddsUp-disconnected s waiting running closing (disconnect_reason text).1 h

end_session-AddsUp :
    (s : Shared) (waiting session_id : ℕ) (xs ys : List ℕ) (closing : List Holds)
    (reason : Option (List ℕ))
    → AddsUp s waiting (xs ++ (session_id ∷ ys)) closing
    → StepsTo waiting (xs ++ ys) closing waiting (xs ++ ys) (end_session session_id reason s)
unfolding end_session
end_session-AddsUp s waiting session_id xs ys closing reason h =
    let count = length-append {0} xs (session_id ∷ ys) in
    let left = length-append {0} xs ys in
    let counted = AddsUp-counted s waiting (xs ++ (session_id ∷ ys)) closing reason h in
    record {
      permits = omega (arith, counted.permits, count, left);
      active =
          omega (arith, counted.active, counted.permits, count, left, still_active_max closing);
      attempts = counted.attempts;
      kinds = counted.kinds;
    }

end_task-AddsUp :
    (s : Shared) (waiting : ℕ) (running : List ℕ) (holds : Holds) (xs ys : List Holds)
    → AddsUp s waiting running (xs ++ (holds ∷ ys))
    → AddsUp (end_task holds s) waiting running (xs ++ ys)
unfolding end_task
end_task-AddsUp s waiting running permit xs ys h =
    let count = length-append {0} xs (permit ∷ ys) in
    let left = length-append {0} xs ys in
    record {
      permits = omega (arith, h.permits, count, left);
      active =
          omega (arith, h.active, still_active-append xs (permit ∷ ys), still_active-append xs ys);
      attempts = h.attempts;
      kinds = h.kinds;
    }
end_task-AddsUp s waiting running permit_and_active xs ys h =
    let count = length-append {0} xs (permit_and_active ∷ ys) in
    let left = length-append {0} xs ys in
    record {
      permits = omega (arith, h.permits, count, left);
      active = omega (
        arith,
        h.active,
        h.permits,
        count,
        still_active_max xs,
        still_active_max ys,
        still_active-append xs (permit_and_active ∷ ys),
        still_active-append xs ys,
      );
      attempts = h.attempts;
      kinds = h.kinds;
    }

-- A step by how it went on.
stepped :
    (waiting waiting' : ℕ) (running running' : List ℕ) (closing : List Holds) (x : Shared × Next)
    (next : Next)
    → x.1 ≡ next
    → StepsTo waiting running closing waiting' running' x
    → StepsTo waiting running closing waiting' running' (x.0, next)
stepped waiting waiting' running running' closing (s, n) next e h =
    subst (λ (m : Next). StepsTo waiting running closing waiting' running' (s, m)) e h

-- Whatever the tasks of all sessions have done so far, in any order, and however their handshakes and
-- sessions ended: of the 1024 permits each is free or held by one task, that waits for its handshake,
-- runs its session or closes its carrier; the sessions that are counted as active are those that run
-- and those that could not be registered and whose carrier is being closed; the handshakes that were
-- attempted are, modulo 2^64, those that failed, those that gave a session and those that go on; and
-- the sessions those over the three carriers.
pub Reached-AddsUp :
    (s : Shared) (waiting : ℕ) (running : List ℕ) (closing : List Holds)
    → Reached s waiting running closing
    → AddsUp s waiting running closing
Reached-AddsUp s waiting running closing started = record {
  permits = refl;
  active = refl;
  attempts = refl;
  kinds = refl;
}
Reached-AddsUp s waiting running closing (draining r) =
    let h = Reached-AddsUp _ waiting running closing r in
    record { permits = h.permits; active = h.active; attempts = h.attempts; kinds = h.kinds }
Reached-AddsUp s (suc waiting) running closing (came {s = t} r begun) =
    stepped waiting (suc waiting) running running closing (begin t) proceeds begun
      (begin-AddsUp waiting running closing t (Reached-AddsUp t waiting running closing r))
Reached-AddsUp s waiting running closing (refused {s = t} r full) =
    stepped waiting (suc waiting) running running closing (begin t) turned_away full
      (begin-AddsUp waiting running closing t (Reached-AddsUp t waiting running closing r))
Reached-AddsUp s waiting running (h ∷ closing) (came_late {s = t} r holds stops) =
    stepped waiting (suc waiting) running running closing (begin t) (closes holds) stops
      (begin-AddsUp waiting running closing t (Reached-AddsUp t waiting running closing r))
Reached-AddsUp s waiting (id ∷ running) closing
      (settled {s = t} r kind micros session_id secret sender runs) =
    stepped waiting waiting running (session_id ∷ running) closing
      (after_handshake kind micros (established session_id secret sender) t) proceeds runs
      (after_handshake-AddsUp waiting running closing t kind micros
        (established session_id secret sender) (Reached-AddsUp t (suc waiting) running closing r))
Reached-AddsUp s waiting running (h ∷ closing)
      (gave_up {s = t} r kind micros handshaken holds stops) =
    stepped waiting waiting running (added waiting running closing handshaken) closing
      (after_handshake kind micros handshaken t) (closes holds) stops
      (after_handshake-AddsUp waiting running closing t kind micros handshaken
        (Reached-AddsUp t (suc waiting) running closing r))
Reached-AddsUp s waiting running (h ∷ closing)
      (ended {s = t} session_id xs ys r reason holds stops) =
    stepped waiting waiting (xs ++ ys) (xs ++ ys) closing (end_session session_id reason t)
      (closes holds) stops
      (end_session-AddsUp t waiting session_id xs ys closing reason
        (Reached-AddsUp t waiting (xs ++ (session_id ∷ ys)) closing r))
Reached-AddsUp s waiting running closing (closed {s = t} holds xs ys r) =
    end_task-AddsUp t waiting running holds xs ys
      (Reached-AddsUp t waiting running (xs ++ (holds ∷ ys)) r)
