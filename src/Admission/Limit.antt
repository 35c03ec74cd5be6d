-- ===== src/Admission/Limit.antt =====
-- How many knocks of one source `check_admission_rate` lets through.
use reka_serdoba.Common.{
  ℕ, ◌+◌, ◌-◌, ◌≤◌, ◌≡◌, refl, subst, inl, inr, ◌&&◌, not, List, [], ◌∷◌, ◌++◌, length, leb, ◌==◌,
  All, All-append, Bool-cases, Result, err, arith,
}
use reka_serdoba.Common.Maps.{find, AllValues}
use reka_serdoba.Errors.{Error, admission_rate_table_full}
use reka_serdoba.Admission.{
  AdmissionRate, retain, pop_before, is_there, or_default, check_admission_rate, admission_window,
  max_sources, max_attempts,
}
use reka_serdoba.Admission.Window.{
  IsKept, IsBounded, or_default-IsKept, Kept_later, check_admission_rate-IsBounded,
}
use reka_serdoba.Admission.Counting.{
  count_in, count_in-length, count_in_late, Remembers, pop_before-Remembers, retain-Remembers,
  is_ok, let_through, admitted, Forward, Counts, admit-Counts,
}

refused_count : (a s source now : ℕ) (e : Error) → count_in a (let_through s source now (err e)) ≡ 0
refused_count a s source now e = elim (Bool-cases (source == s)) [
  | inl same ↦ rw same refl
  | inr other ↦ rw other refl
]

Remembers-trans :
    (a now : ℕ) (xs ys zs : List ℕ)
    → Remembers a now xs ys
    → Remembers a now ys zs
    → Remembers a now xs zs
Remembers-trans a now xs ys zs (inr over) h = inr over
Remembers-trans a now xs ys zs (inl g) (inr over) = inr over
Remembers-trans a now xs ys zs (inl g) (inl h) = inl (omega (arith, g, h))

check_admission_rate-Counts :
    (a now s source : ℕ) (rates : AdmissionRate)
    → AllValues (IsKept now) rates
    → Counts a now s source (or_default (find s rates)) (check_admission_rate source now rates)
unfolding check_admission_rate
check_admission_rate-Counts a now s source rates k =
    let cutoff : ℕ = now - admission_window in
    let kept : AdmissionRate = retain cutoff rates in
    let left : List ℕ = or_default (find source kept) in
    let before : List ℕ = or_default (find s rates) in
    let remembered = retain-Remembers a now s rates k in
    elim (Bool-cases (leb max_sources (length kept) && not (is_there (find source kept)))) [
      | inl e ↦ rw e (elim remembered [
        | inr over ↦ inr over
        | inl h ↦ inl (omega (arith, h, refused_count a s source now admission_rate_table_full))
      ])
      | inr e ↦ rw e (
          admit-Counts a now s source before (pop_before cutoff left) kept remembered (λ same.
            Remembers-trans a now before left (pop_before cutoff left)
              (subst (λ (i : ℕ). Remembers a now before (or_default (find i kept)))
                (ground (arith, same)) remembered)
              (pop_before-Remembers a now left)))
    ]

let_through_late :
    (s source now t : ℕ) (r : Result Error (Unit {0}))
    → t ≤ now
    → All (λ u. t ≤ u) (let_through s source now r)
let_through_late s source now t r h = elim (Bool-cases ((source == s) && is_ok r)) [
  | inl e ↦ rw e (h, tt)
  | inr e ↦ rw e tt
]

admitted_late :
    (s t now : ℕ) (knocks : List (ℕ × ℕ)) (rates : AdmissionRate)
    → t ≤ now
    → Forward now knocks
    → All (λ u. t ≤ u) (admitted s knocks rates)
unfolding admitted
admitted_late s t now [] rates k h = tt
admitted_late s t now ((source, next) ∷ knocks) rates k (h, hs) =
    let x = check_admission_rate source next rates in
    All-append (λ u. t ≤ u) (let_through s source next x.1) (admitted s knocks x.0)
      (let_through_late s source next t x.1 (omega (arith, k, h)))
      (admitted_late s t next knocks x.0 (omega (arith, k, h)) hs)

pub count_in-join : (a : ℕ) (xs ys : List ℕ) → count_in a (xs ++ ys) ≡ count_in a xs + count_in a ys
count_in-join a [] ys = omega arith
count_in-join a (x ∷ xs) ys = ground (arith, count_in-join a xs ys)

admitted_from :
    (a s t : ℕ) (knocks : List (ℕ × ℕ)) (rates : AdmissionRate)
    → IsBounded t rates
    → Forward t knocks
    → count_in a (or_default (find s rates)) + count_in a (admitted s knocks rates) ≤ max_attempts
unfolding admitted
admitted_from a s t [] rates b h =
    let kept = or_default-IsKept t s rates b.attempts in
    omega (arith, count_in-length a (or_default (find s rates)), kept.few)
admitted_from a s t ((source, now) ∷ knocks) rates b (h, hs) =
    let x = check_admission_rate source now rates in
    let kept = or_default-IsKept t s rates b.attempts in
    let first : List ℕ = let_through s source now x.1 in
    let rest : List ℕ = admitted s knocks x.0 in
    let few =
      admitted_from a s now knocks x.0 (check_admission_rate-IsBounded source t now rates h b) hs in
    elim (check_admission_rate-Counts a now s source rates (Kept_later t now rates h b.attempts)) [
      | inl c ↦ omega (arith, c, few, count_in-join a first rest)
      | inr over ↦ omega (
        arith,
        count_in_late a now (first ++ rest) over (
            All-append (λ u. now ≤ u) first rest
              (let_through_late s source now now x.1 (omega arith))
              (admitted_late s now now knocks x.0 (omega arith) hs)),
        count_in-length a (or_default (find s rates)),
        kept.few,
      )
    ]

-- Whatever the sources knock and whenever, with a clock that does not run backwards, from an empty
-- table on: of one source at most 60 knocks are let through within any 60 seconds, both ends
-- included.
pub admitted_at_most :
    (a s t : ℕ) (knocks : List (ℕ × ℕ))
    → Forward t knocks
    → count_in a (admitted s knocks []) ≤ max_attempts
unfolding find
admitted_at_most a s t knocks h =
    omega (arith, admitted_from a s t knocks [] (record { sources = omega arith; attempts = tt }) h)
