-- ===== src/Gate/Kept.antt =====
-- How long the replay map remembers a key.
use reka_serdoba.Common.{
  ℕ, ◌+◌, ◌-◌, ◌≤◌, ◌≡◌, refl, Bool, true, false, Option, none, some, List, [], ◌∷◌, leb, bytes_eq,
  bytes_eq_refl, Bool-cases, inl, inr, arith,
}
use reka_serdoba.Gate.{ReplayMap, seen_at, note, retain, is_there, check_replay, gate_replay}

-- It was seen at `t` or later.
abbrev pub at_least : ℕ → Option ℕ → Bool
at_least t none = false
at_least t (some seen) = leb t seen

retain-at_least :
    (key : List ℕ) (t cutoff : ℕ) (replay : ReplayMap)
    → cutoff ≤ t
    → at_least t (seen_at key replay) ≡ true
    → at_least t (seen_at key (retain cutoff replay)) ≡ true
unfolding retain seen_at
retain-at_least key t cutoff [] early h = absurd (cc h)
retain-at_least key t cutoff ((k, seen) ∷ replay) early h = elim (Bool-cases (bytes_eq k key)) [
  | inl e ↦
      let recent : leb t seen ≡ true = rw (e, seen_at) at h in
      let stays : leb cutoff seen ≡ true = ground (arith, recent, early) in rw stays (rw e recent)
  | inr e ↦
      let rest = retain-at_least key t cutoff replay early (rw (e, seen_at) at h) in
      elim (Bool-cases (leb cutoff seen)) [ inl f ↦ rw f (rw e rest) | inr f ↦ rw f rest ]
]

note-at_least :
    (key other : List ℕ) (t now : ℕ) (replay : ReplayMap)
    → t ≤ now
    → at_least t (seen_at key replay) ≡ true
    → at_least t (seen_at key (note other now replay)) ≡ true
unfolding note seen_at
note-at_least key other t now [] later h = absurd (cc h)
note-at_least key other t now ((k, seen) ∷ replay) later h = elim (Bool-cases (bytes_eq k other)) [
  | inl f ↦ rw f (elim (Bool-cases (bytes_eq k key)) [
    | inl e ↦ rw e (ground (arith, later))
    | inr e ↦ rw e (rw (e, seen_at) at h)
  ])
  | inr f ↦ rw f (elim (Bool-cases (bytes_eq k key)) [
    | inl e ↦ rw e (rw (e, seen_at) at h)
    | inr e ↦ rw e (note-at_least key other t now replay later (rw (e, seen_at) at h))
  ])
]

seen_at-note :
    (key : List ℕ) (now : ℕ) (replay : ReplayMap) → seen_at key (note key now replay) ≡ some now
unfolding note seen_at
seen_at-note key now [] = rw (bytes_eq_refl key) refl
seen_at-note key now ((k, seen) ∷ replay) = elim (Bool-cases (bytes_eq k key)) [
  | inl e ↦ rw e (rw e refl)
  | inr e ↦ rw e (rw e (seen_at-note key now replay))
]

-- The key that is checked is there afterwards.
pub check_replay-noted :
    (key : List ℕ) (now : ℕ) (replay : ReplayMap)
    → at_least now (seen_at key (check_replay key now replay).0) ≡ true
unfolding check_replay
check_replay-noted key now replay =
    rw (seen_at-note key now (retain (now - gate_replay) replay)) (ground arith)

-- A check within 180 seconds of `t` does not forget it.
pub check_replay-at_least :
    (key other : List ℕ) (t now : ℕ) (replay : ReplayMap)
    → t ≤ now
    → now ≤ t + gate_replay
    → at_least t (seen_at key replay) ≡ true
    → at_least t (seen_at key (check_replay other now replay).0) ≡ true
unfolding check_replay
check_replay-at_least key other t now replay later soon h =
    note-at_least key other t now (retain (now - gate_replay) replay) later
      (retain-at_least key t (now - gate_replay) replay (omega (arith, soon)) h)

-- And answers that it is there.
pub check_replay-there :
    (key : List ℕ) (t now : ℕ) (replay : ReplayMap)
    → now ≤ t + gate_replay
    → at_least t (seen_at key replay) ≡ true
    → (check_replay key now replay).1 ≡ true
unfolding check_replay
check_replay-there key t now replay soon h =
    found (seen_at key (retain (now - gate_replay) replay))
      (retain-at_least key t (now - gate_replay) replay (omega (arith, soon)) h)
  where
    found : (o : Option ℕ) → at_least t o ≡ true → is_there o ≡ true
    found none e = absurd (cc e)
    found (some seen) e = refl
