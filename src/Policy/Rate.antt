-- ===== src/Policy/Rate.antt =====
-- The rate of a policy.
use reka_serdoba.Common.{
  ℕ, ◌+◌, ◌-◌, ◌*◌, ◌^◌, ◌≤◌, ◌≡◌, ◌∙◌, refl, ap, ap₂, List, [], ◌∷◌, leb, ltb, Result, ok, err,
  Bool-cases, inl, inr, arith,
}
use reka_serdoba.Errors.{Error}
use reka_serdoba.Policy
use reka_serdoba.Policy.{
  SessionPolicy, TokenBucket, reserve, reserve_tokens, over, burst, u64_max, second,
}
use reka_serdoba.Policy.Bucket.{Drawn, reserve_tokens-Drawn}
use reka_serdoba.Policy.Reserve.{granted, reserve_all, granted_all}

-- Requests that are well timed: none is made before the delay of the one before has passed, as the
-- server waits for it, and each is of a size that can be.
abbrev pub AreTimed : SessionPolicy → List (ℕ × ℕ) → Type 0
AreTimed p [] = Unit
AreTimed p ((bytes, now) ∷ requests) =
    (p.bucket.updated_at ≤ now) × (bytes ≤ 2 ^ 34) × AreTimed (reserve p bytes now).0 requests

-- What one request does to the bucket: it is left alone, or drawn on.
record Step (p : SessionPolicy) (bytes : ℕ) (p' : SessionPolicy) (r : Result Error ℕ) : Type 0 where
  same_rate : p'.bucket.rate ≡ p.bucket.rate
  later : p.bucket.updated_at ≤ p'.bucket.updated_at
  budget :
      granted bytes r * second + p'.bucket.tokens * second
      ≤ p.bucket.tokens * second + (p'.bucket.updated_at - p.bucket.updated_at) * p.bucket.rate

reserve-Step :
    (p : SessionPolicy) (bytes now : ℕ)
    → 1 ≤ p.bucket.rate
    → p.bucket.updated_at ≤ now
    → bytes ≤ 2 ^ 34
    → Step p bytes (reserve p bytes now).0 (reserve p bytes now).1
unfolding reserve
reserve-Step p bytes now rated timed small = elim (Bool-cases (leb p.deadline now)) [
  | inl e ↦ rw e kept
  | inr e ↦ rw e (elim (Bool-cases (ltb u64_max (p.transferred + bytes))) [
    | inl f ↦ rw f kept
    | inr f ↦ rw f (elim (Bool-cases (over p.quota (p.transferred + bytes))) [
      | inl g ↦ rw g kept
      | inr g ↦
          rw g (elim (Bool-cases (leb p.deadline (now + (reserve_tokens p.bucket bytes now).1))) [
            | inl late ↦ rw late (record {
              same_rate = d.same_rate;
              later = omega (arith, d.updated);
              budget = omega (arith, d.budget);
            })
            | inr late ↦ rw late (record {
              same_rate = d.same_rate;
              later = omega (arith, d.updated);
              budget = d.budget;
            })
          ])
    ])
  ])
]
  where
    d :
        Drawn p.bucket bytes now
          (reserve_tokens p.bucket bytes now).0
          (reserve_tokens p.bucket bytes now).1
    d = reserve_tokens-Drawn p.bucket bytes now rated small timed

    kept : {r : Error} → Step p bytes p (err r)
    kept = record { same_rate = refl; later = omega arith; budget = omega arith }

record Run (p : SessionPolicy) (requests : List (ℕ × ℕ)) : Type 0 where
  later : p.bucket.updated_at ≤ (reserve_all p requests).bucket.updated_at
  budget :
      granted_all p requests * second
      ≤ p.bucket.tokens * second
        + ((reserve_all p requests).bucket.updated_at - p.bucket.updated_at) * p.bucket.rate

telescope : (a b c rate : ℕ) → a ≤ b → b ≤ c → (c - a) * rate ≡ (b - a) * rate + (c - b) * rate
telescope a b c rate h k =
    ap (λ (t : ℕ). t * rate) {y = (b - a) + (c - b)} (omega arith)
    ∙ distributes (b - a) (c - b) rate
  where
    distributes : (x y z : ℕ) → (x + y) * z ≡ x * z + y * z
    distributes x y z = grind arith

reserve_all-Run :
    (p : SessionPolicy) (requests : List (ℕ × ℕ))
    → 1 ≤ p.bucket.rate
    → AreTimed p requests
    → Run p requests
unfolding reserve_all granted_all
reserve_all-Run p [] rated timed = record { later = omega arith; budget = omega arith }
reserve_all-Run p ((bytes, now) ∷ requests) rated (timed, small, rest) =
    let p' = (reserve p bytes now).0 in
    let step : Step p bytes p' (reserve p bytes now).1 =
      reserve-Step p bytes now rated timed small in
    let run : Run p' requests =
      reserve_all-Run p' requests (omega (arith, step.same_rate, rated)) rest in
    record {
      later = omega (arith, step.later, run.later);
      budget = omega (
        arith,
        step.budget,
        run.budget,
        ap (λ (r : ℕ). ((reserve_all p' requests).bucket.updated_at - p'.bucket.updated_at) * r)
            step.same_rate,
        telescope p.bucket.updated_at p'.bucket.updated_at
            (reserve_all p' requests).bucket.updated_at p.bucket.rate step.later run.later,
      );
    }

-- Over well-timed requests, none made before the delay of the one before has passed and none above
-- 16 GiB, a new policy never grants more than the burst and what its bandwidth gives from its start
-- to the time for which the last delay waits, and the burst is at most 4 MiB.
pub new-granted_all_rate :
    (lifetime_seconds bandwidth quota_bytes now : ℕ) (p : SessionPolicy) (requests : List (ℕ × ℕ))
    → Policy.new lifetime_seconds bandwidth quota_bytes now ≡ ok p
    → AreTimed p requests
    → (granted_all p requests * second
        ≤ burst bandwidth * second + ((reserve_all p requests).bucket.updated_at - now) * bandwidth)
      × (burst bandwidth ≤ 4 * 1024 * 1024)
unfolding Policy.new
new-granted_all_rate lifetime_seconds bandwidth quota_bytes now p requests made timed = (
  omega (
    arith,
    run.budget,
    ap (λ (t : ℕ). t * second) tokens,
    ap₂ (λ (u r : ℕ). ((reserve_all p requests).bucket.updated_at - u) * r) updated rate,
  ),
  unfold burst in omega arith,
)
  where
    rate : p.bucket.rate ≡ bandwidth
    rate = ground (arith, made)

    tokens : p.bucket.tokens ≡ burst bandwidth
    tokens = ground (arith, made)

    updated : p.bucket.updated_at ≡ now
    updated = ground (arith, made)

    least : 1024 ≤ bandwidth
    least = ground (arith, made)

    run : Run p requests
    run = reserve_all-Run p requests (omega (arith, rate, least)) timed
