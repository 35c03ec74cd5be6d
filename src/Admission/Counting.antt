-- ===== src/Admission/Counting.antt =====
-- How many attempts of one source `check_admission_rate` lets through in a window.
use reka_serdoba.Common.{
  ℕ, suc, ◌+◌, ◌-◌, ◌≤◌, ◌<◌, ◌≡◌, ◌⊎◌, ◌∙◌, refl, ap, inl, inr, Bool, true, false, ◌&&◌, some,
  List, [], ◌∷◌, ◌++◌, length, ltb, leb, ◌==◌, if◌then◌else◌, All, Bool-cases, Result, ok, err,
  arith,
}
use reka_serdoba.Common.Maps.{find, insert, find-insert, find-insert_other, AllValues}
use reka_serdoba.Errors.{Error}
use reka_serdoba.Admission.{
  AdmissionRate, is_recent, retain, pop_before, or_default, admit, check_admission_rate,
  admission_window, max_attempts,
}
use reka_serdoba.Admission.Window.{Rising, IsKept}

-- How many of the times are in the 60 seconds from `a`, both ends included.
abbrev pub count_in : ℕ → List ℕ → ℕ
count_in a [] = 0
count_in a (t ∷ ts) =
    if leb a t && leb t (a + admission_window) then suc (count_in a ts) else count_in a ts

pub count_in-length : (a : ℕ) (ts : List ℕ) → count_in a ts ≤ length ts
count_in-length a [] = omega arith
count_in-length a (t ∷ ts) = ground (arith, count_in-length a ts)

count_in-append :
    (a t : ℕ) (ts : List ℕ) → count_in a (ts ++ (t ∷ [])) ≡ count_in a ts + count_in a (t ∷ [])
count_in-append a t [] = omega arith
count_in-append a t (s ∷ ts) = ground (arith, count_in-append a t ts)

pub count_in_late :
    (a now : ℕ) (ts : List ℕ)
    → a + admission_window < now
    → All (λ t. now ≤ t) ts
    → count_in a ts ≡ 0
count_in_late a now [] h k = refl
count_in_late a now (t ∷ ts) h (k, ks) = ground (arith, count_in_late a now ts h ks, k, h)

-- Of the window from `a`, `ys` has all that `xs` had, or the window is over at `now`.
abbrev pub Remembers : ℕ → ℕ → List ℕ → List ℕ → Type 0
Remembers a now xs ys = (count_in a xs ≤ count_in a ys) ⊎ (a + admission_window < now)

pub pop_before-Remembers :
    (a now : ℕ) (xs : List ℕ) → Remembers a now xs (pop_before (now - admission_window) xs)
unfolding pop_before
pop_before-Remembers a now [] = inl (omega arith)
pop_before-Remembers a now (x ∷ xs) = elim (Bool-cases (ltb x (now - admission_window))) [
  | inl e ↦ rw e (elim (Bool-cases (leb a x)) [
    | inl f ↦ inr (ground (arith, e, f))
    | inr f ↦ rw f (pop_before-Remembers a now xs)
  ])
  | inr e ↦ rw e (inl (omega arith))
]

-- The attempts of an entry that is not recent are all before the cutoff.
not_recent :
    (cutoff : ℕ) (xs : List ℕ) → Rising xs → is_recent cutoff xs ≡ false → All (λ t. t < cutoff) xs
unfolding is_recent
not_recent cutoff [] r e = tt
not_recent cutoff (x ∷ []) r e = (ground (arith, e), tt)
not_recent cutoff (x ∷ y ∷ xs) (r, rs) e =
    let rest : All (λ t. t < cutoff) (y ∷ xs) = not_recent cutoff (y ∷ xs) rs e in
    (omega (arith, r.0, rest.0), rest)

old-Remembers :
    (a now : ℕ) (xs ys : List ℕ) → All (λ t. t < now - admission_window) xs → Remembers a now xs ys
old-Remembers a now [] ys h = inl (omega arith)
old-Remembers a now (x ∷ xs) ys (h, hs) = elim (Bool-cases (leb a x)) [
  | inl f ↦ inr (ground (arith, h, f))
  | inr f ↦ rw f (old-Remembers a now xs ys hs)
]

pub retain-Remembers :
    (a now s : ℕ) (rates : AdmissionRate)
    → AllValues (IsKept now) rates
    → Remembers a now
        (or_default (find s rates))
        (or_default (find s (retain (now - admission_window) rates)))
unfolding retain find
retain-Remembers a now s [] k = inl (omega arith)
retain-Remembers a now s ((j, xs) ∷ rates) (k, ks) =
    let cutoff : ℕ = now - admission_window in
    let rest = retain-Remembers a now s rates ks in
    elim (Bool-cases (is_recent cutoff xs)) [
      | inl e ↦
          rw e (elim (Bool-cases (j == s)) [ inl f ↦ rw f (inl (omega arith)) | inr f ↦ rw f rest ])
      | inr e ↦ rw e (elim (Bool-cases (j == s)) [
        | inl f ↦ rw f (old-Remembers a now xs _ (not_recent cutoff xs k.rising e))
        | inr f ↦ rw f rest
      ])
    ]

abbrev pub is_ok : Result Error (Unit {0}) → Bool
is_ok (ok u) = true
is_ok (err e) = false

-- The knock of `source` at `now`, when it was the one of `s` and let through.
abbrev pub let_through : ℕ → ℕ → ℕ → Result Error (Unit {0}) → List ℕ
let_through s source now r = if (source == s) && is_ok r then now ∷ [] else []

-- The times at which `s` was let through, in a run of knocks of any sources at any times.
unfoldable pub admitted : ℕ → List (ℕ × ℕ) → AdmissionRate → List ℕ
admitted s [] rates = []
admitted s ((source, now) ∷ knocks) rates =
    let (rates', r) = check_admission_rate source now rates in
    let_through s source now r ++ admitted s knocks rates'

-- The clock does not run backwards.
abbrev pub Forward : ℕ → List (ℕ × ℕ) → Type 0
Forward t [] = Unit {0}
Forward t ((source, now) ∷ knocks) = (t ≤ now) × Forward now knocks

-- The attempts of `s` after a check count for those before, and for the one let through.
abbrev pub Counts : ℕ → ℕ → ℕ → ℕ → List ℕ → AdmissionRate × Result Error (Unit {0}) → Type 0
Counts a now s source before x =
    (count_in a before + count_in a (let_through s source now x.1)
      ≤ count_in a (or_default (find s x.0)))
    ⊎ (a + admission_window < now)

found_same :
    (s source : ℕ) (new : List ℕ) (rates : AdmissionRate)
    → (source == s) ≡ true
    → find s (insert source new rates) ≡ some new
found_same s source new rates e =
    ap (λ (k : ℕ). find k (insert source new rates)) {x = s} {y = source} (ground (arith, e))
    ∙ find-insert source new rates

pub admit-Counts :
    (a now s source : ℕ) (before xs : List ℕ) (rates : AdmissionRate)
    → Remembers a now before (or_default (find s rates))
    → ((source == s) ≡ true → Remembers a now before xs)
    → Counts a now s source before (admit source now xs rates)
unfolding admit
admit-Counts a now s source before xs rates other same = elim (Bool-cases (source == s)) [
  | inl e ↦ elim (same e) [
    | inr over ↦ inr over
    | inl h ↦ elim (Bool-cases (leb max_attempts (length xs))) [
      | inl f ↦ rw f (rw (e, found_same s source xs rates e) (inl (omega (arith, h))))
      | inr f ↦ rw f (
          rw (e, found_same s source (xs ++ (now ∷ [])) rates e)
            (inl (omega (arith, h, count_in-append a now xs))))
    ]
  ]
  | inr e ↦ elim other [
    | inr over ↦ inr over
    | inl h ↦ elim (Bool-cases (leb max_attempts (length xs))) [
      | inl f ↦ rw f (rw (e, find-insert_other s source xs rates e) (inl (omega (arith, h))))
      | inr f ↦
          rw f
            (rw (e, find-insert_other s source (xs ++ (now ∷ [])) rates e) (inl (omega (arith, h))))
    ]
  ]
]
