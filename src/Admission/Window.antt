-- ===== src/Admission/Window.antt =====
-- What the table of attempts keeps, and how large it gets.
use reka_serdoba.Common.{
  ℕ, ◌-◌, ◌≤◌, ◌<◌, ◌≡◌, inl, inr, true, false, ◌&&◌, not, List, [], ◌∷◌, ◌++◌, length,
  length-append, ltb, leb, All, All-append, Bool-cases, Option-cases, arith,
}
use reka_serdoba.Common.Maps.{
  find, insert, length-insert, AllValues, AllValues-insert, AllValues-find,
}
use reka_serdoba.Admission.{
  AdmissionRate, is_recent, retain, pop_before, is_there, or_default, admit, check_admission_rate,
  admission_window, max_sources, max_attempts,
}

-- Times that do not fall.
abbrev pub Rising : List ℕ → Type 0
Rising [] = Unit {0}
Rising (t ∷ ts) = All (λ u. t ≤ u) ts × Rising ts

-- A source's attempts: in order, none after `now`, and 60 at most.
pub record IsKept (now : ℕ) (attempts : List ℕ) : Type 0 where
  pub rising : Rising attempts
  pub past : All (λ t. t ≤ now) attempts
  pub few : length attempts ≤ max_attempts

All-weaken : (s t : ℕ) (xs : List ℕ) → s ≤ t → All (λ x. x ≤ s) xs → All (λ x. x ≤ t) xs
All-weaken s t [] h a = tt
All-weaken s t (x ∷ xs) h (a, later) = (omega (arith, a, h), All-weaken s t xs h later)

Rising-append :
    (now : ℕ) (xs : List ℕ) → Rising xs → All (λ x. x ≤ now) xs → Rising (xs ++ (now ∷ []))
Rising-append now [] r a = (tt, tt)
Rising-append now (x ∷ xs) (r, rs) (a, later) =
    (All-append (λ u. x ≤ u) xs (now ∷ []) r (a, tt), Rising-append now xs rs later)

IsKept-later : (s t : ℕ) (xs : List ℕ) → s ≤ t → IsKept s xs → IsKept t xs
IsKept-later s t xs h k = record {
  rising = k.rising;
  past = All-weaken s t xs h k.past;
  few = k.few;
}

pop_before-IsKept :
    (now cutoff : ℕ) (xs : List ℕ) → IsKept now xs → IsKept now (pop_before cutoff xs)
unfolding pop_before
pop_before-IsKept now cutoff [] k = k
pop_before-IsKept now cutoff (x ∷ xs) k = elim (Bool-cases (ltb x cutoff)) [
  | inl e ↦ rw e (
      pop_before-IsKept now cutoff xs
        (record { rising = k.rising.1; past = k.past.1; few = omega (arith, k.few) }))
  | inr e ↦ rw e k
]

retain-AllValues :
    (now cutoff : ℕ) (rates : AdmissionRate)
    → AllValues (IsKept now) rates
    → AllValues (IsKept now) (retain cutoff rates)
unfolding retain
retain-AllValues now cutoff [] k = tt
retain-AllValues now cutoff ((source, attempts) ∷ rates) (k, ks) =
    let rest = retain-AllValues now cutoff rates ks in
    elim (Bool-cases (is_recent cutoff attempts)) [ inl e ↦ rw e (k, rest) | inr e ↦ rw e rest ]

length-retain : (cutoff : ℕ) (rates : AdmissionRate) → length (retain cutoff rates) ≤ length rates
unfolding retain
length-retain cutoff [] = omega arith
length-retain cutoff ((source, attempts) ∷ rates) = elim (Bool-cases (is_recent cutoff attempts)) [
  | inl e ↦ rw e (omega (arith, length-retain cutoff rates))
  | inr e ↦ rw e (omega (arith, length-retain cutoff rates))
]

IsKept-nil : (now : ℕ) → IsKept now []
IsKept-nil now = record { rising = tt; past = tt; few = omega arith }

pub or_default-IsKept :
    (now source : ℕ) (rates : AdmissionRate)
    → AllValues (IsKept now) rates
    → IsKept now (or_default (find source rates))
or_default-IsKept now source rates k = elim (Option-cases (find source rates)) [
  | inl e ↦ rw e (IsKept-nil now)
  | inr (xs, e) ↦ rw e (AllValues-find (IsKept now) source rates xs k e)
]

pub Kept_later :
    (s t : ℕ) (rates : AdmissionRate)
    → s ≤ t
    → AllValues (IsKept s) rates
    → AllValues (IsKept t) rates
Kept_later s t [] h k = tt
Kept_later s t ((source, xs) ∷ rates) h (k, ks) =
    (IsKept-later s t xs h k, Kept_later s t rates h ks)

-- The table at `now`: 8192 sources at most, with the attempts of each.
pub record IsBounded (now : ℕ) (rates : AdmissionRate) : Type 0 where
  pub sources : length rates ≤ max_sources
  pub attempts : AllValues (IsKept now) rates

IsKept-append :
    (now : ℕ) (xs : List ℕ)
    → IsKept now xs
    → length xs < max_attempts
    → IsKept now (xs ++ (now ∷ []))
IsKept-append now xs k h = record {
  rising = Rising-append now xs k.rising k.past;
  past = All-append (λ t. t ≤ now) xs (now ∷ []) k.past (omega arith, tt);
  few = omega (arith, length-append {0} xs (now ∷ []), h);
}

-- The end of a check: the entry is written whether the source is admitted or not.
admit-IsBounded :
    (source now : ℕ) (xs : List ℕ) (rates : AdmissionRate)
    → IsKept now xs
    → AllValues (IsKept now) rates
    → ((new : List ℕ) → length (insert source new rates) ≤ max_sources)
    → IsBounded now (admit source now xs rates).0
unfolding admit
admit-IsBounded source now xs rates k ks room = elim (Bool-cases (leb max_attempts (length xs))) [
  | inl e ↦
      rw e (record {
        sources = room xs;
        attempts = AllValues-insert (IsKept now) source xs rates k ks;
      })
  | inr e ↦ rw e (record {
    sources = room (xs ++ (now ∷ []));
    attempts =
        AllValues-insert (IsKept now) source (xs ++ (now ∷ [])) rates
          (IsKept-append now xs k (ground (arith, e))) ks;
  })
]

room_for :
    (source : ℕ) (new : List ℕ) (rates : AdmissionRate)
    → length rates ≤ max_sources
    → leb max_sources (length rates) && not (is_there (find source rates)) ≡ false
    → length (insert source new rates) ≤ max_sources
room_for source new rates h e = elim (Option-cases (find source rates)) [
  | inl f ↦
      let size = length-insert source new rates in
      let alone : leb max_sources (length rates) && true ≡ false = rw f at e in
      omega (arith, rw f at size, below alone)
  | inr (xs, f) ↦ let size = length-insert source new rates in omega (arith, rw f at size, h)
]
  where
    below : leb max_sources (length rates) && true ≡ false → length rates < max_sources
    below p = ground (arith, p)

-- A check keeps the bounds of the table, whatever it answers.
pub check_admission_rate-IsBounded :
    (source before now : ℕ) (rates : AdmissionRate)
    → before ≤ now
    → IsBounded before rates
    → IsBounded now (check_admission_rate source now rates).0
unfolding check_admission_rate
check_admission_rate-IsBounded source before now rates h b =
    let cutoff : ℕ = now - admission_window in
    let kept : AdmissionRate = retain cutoff rates in
    let values = retain-AllValues now cutoff rates (Kept_later before now rates h b.attempts) in
    let size : length kept ≤ max_sources = omega (arith, length-retain cutoff rates, b.sources) in
    elim (Bool-cases (leb max_sources (length kept) && not (is_there (find source kept)))) [
      | inl e ↦ rw e (record { sources = size; attempts = values })
      | inr e ↦ rw e (
          admit-IsBounded source now (pop_before cutoff (or_default (find source kept))) kept
            (pop_before-IsKept now cutoff (or_default (find source kept))
              (or_default-IsKept now source kept values))
            values (λ new. room_for source new kept size e))
    ]
