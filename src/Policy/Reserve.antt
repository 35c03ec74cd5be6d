-- ===== src/Policy/Reserve.antt =====
-- The quota over the lifetime of a policy.
use reka_serdoba.Common.{
  ℕ, ◌+◌, ◌≤◌, ◌<◌, ◌≡◌, sym, subst, ◌==◌, false, Option, none, some, List, [], ◌∷◌, ltb, leb,
  if◌then◌else◌, Result, ok, err, Bool-cases, inl, inr, arith,
}
use reka_serdoba.Errors.{Error}
use reka_serdoba.Policy
use reka_serdoba.Policy.{SessionPolicy, reserve, reserve_tokens, over, u64_max, second}

-- The bytes that an answer grants.
abbrev pub granted : ℕ → Result Error ℕ → ℕ
granted bytes (ok delay) = bytes
granted bytes (err e) = 0

-- The state after a list of requests, each with its time, whatever the answers.
unfoldable pub reserve_all : SessionPolicy → List (ℕ × ℕ) → SessionPolicy
reserve_all p [] = p
reserve_all p ((bytes, now) ∷ requests) = reserve_all (reserve p bytes now).0 requests

unfoldable pub granted_all : SessionPolicy → List (ℕ × ℕ) → ℕ
granted_all p [] = 0
granted_all p ((bytes, now) ∷ requests) =
    granted bytes (reserve p bytes now).1 + granted_all (reserve p bytes now).0 requests

-- No more than the quota, if there is one, nor than 64 bits.
abbrev pub Within : Option ℕ → ℕ → Type 0
Within none total = total ≤ u64_max
Within (some quota) total = (total ≤ quota) × (total ≤ u64_max)

not_over :
    (quota : Option ℕ) (total : ℕ) → total ≤ u64_max → over quota total ≡ false → Within quota total
not_over none total small h = small
not_over (some quota) total small h = (ground (arith, h), small)

pub reserve-deadline :
    (p : SessionPolicy) (bytes now : ℕ) → (reserve p bytes now).0.deadline ≡ p.deadline
unfolding reserve
reserve-deadline p bytes now = ground arith

pub reserve-quota : (p : SessionPolicy) (bytes now : ℕ) → (reserve p bytes now).0.quota ≡ p.quota
unfolding reserve
reserve-quota p bytes now = ground arith

pub reserve-transferred :
    (p : SessionPolicy) (bytes now : ℕ)
    → (reserve p bytes now).0.transferred ≡ p.transferred + granted bytes (reserve p bytes now).1
unfolding reserve
reserve-transferred p bytes now = ground arith

pub reserve-Within :
    (p : SessionPolicy) (bytes now : ℕ)
    → Within p.quota p.transferred
    → Within p.quota (reserve p bytes now).0.transferred
unfolding reserve
reserve-Within p bytes now h = elim (Bool-cases (leb p.deadline now)) [
  | inl e ↦ rw e h
  | inr e ↦ rw e (elim (Bool-cases (ltb u64_max (p.transferred + bytes))) [
    | inl f ↦ rw f h
    | inr f ↦ rw f (elim (Bool-cases (over p.quota (p.transferred + bytes))) [
      | inl g ↦ rw g h
      | inr g ↦
          rw g (elim (Bool-cases (leb p.deadline (now + (reserve_tokens p.bucket bytes now).1))) [
            | inl late ↦ rw late h
            | inr late ↦ rw late (not_over p.quota (p.transferred + bytes) (ground (arith, f)) g)
          ])
    ])
  ])
]

reserve_all-Within :
    (p : SessionPolicy) (requests : List (ℕ × ℕ))
    → Within p.quota p.transferred
    → Within p.quota (reserve_all p requests).transferred
unfolding reserve_all
reserve_all-Within p [] h = h
reserve_all-Within p ((bytes, now) ∷ requests) h =
    subst (λ q. Within q (reserve_all (reserve p bytes now).0 requests).transferred)
      (reserve-quota p bytes now)
      (reserve_all-Within (reserve p bytes now).0 requests (
        subst (λ q. Within q (reserve p bytes now).0.transferred) (sym (reserve-quota p bytes now))
          (reserve-Within p bytes now h)))

reserve_all-transferred :
    (p : SessionPolicy) (requests : List (ℕ × ℕ))
    → (reserve_all p requests).transferred ≡ p.transferred + granted_all p requests
unfolding reserve_all granted_all
reserve_all-transferred p [] = omega arith
reserve_all-transferred p ((bytes, now) ∷ requests) = omega (
  arith,
  reserve_all-transferred (reserve p bytes now).0 requests,
  reserve-transferred p bytes now,
)

-- The quota and the count of a new policy.
pub new_lem :
    (lifetime_seconds bandwidth quota_bytes now : ℕ) (p : SessionPolicy)
    → Policy.new lifetime_seconds bandwidth quota_bytes now ≡ ok p
    → (p.quota ≡ (if quota_bytes == 0 then none else some quota_bytes)) × (p.transferred ≡ 0)
unfolding Policy.new
new_lem lifetime_seconds bandwidth quota_bytes now p made =
    (ground (arith, made), ground (arith, made))

-- Under a new policy the bytes that are granted, over any requests at any times, are the bytes that
-- it counts, and never more than the quota, if that is not zero, nor than 64 bits.
pub new-granted_all :
    (lifetime_seconds bandwidth quota_bytes now : ℕ) (p : SessionPolicy) (requests : List (ℕ × ℕ))
    → Policy.new lifetime_seconds bandwidth quota_bytes now ≡ ok p
    → ((reserve_all p requests).transferred ≡ granted_all p requests)
      × Within (if quota_bytes == 0 then none else some quota_bytes) (granted_all p requests)
unfolding Policy.new
new-granted_all lifetime_seconds bandwidth quota_bytes now p requests made = (
  counted,
  subst (Within (if quota_bytes == 0 then none else some quota_bytes)) counted (
      subst (λ q. Within q (reserve_all p requests).transferred) quota
        (reserve_all-Within p requests (rw (quota, nothing) start))),
)
  where
    quota : p.quota ≡ (if quota_bytes == 0 then none else some quota_bytes)
    quota = ground (arith, made)

    nothing : p.transferred ≡ 0
    nothing = ground (arith, made)

    start : Within (if quota_bytes == 0 then none else some quota_bytes) 0
    start = elim (Bool-cases (quota_bytes == 0)) [
      | inl e ↦ rw e (omega arith)
      | inr e ↦ rw e (omega arith, omega arith)
    ]

    counted : (reserve_all p requests).transferred ≡ granted_all p requests
    counted = omega (arith, reserve_all-transferred p requests, nothing)

-- A grant is sent before the deadline: the time of the request and the delay together.
reserve-deadline_lt :
    (p p' : SessionPolicy) (bytes now delay : ℕ)
    → reserve p bytes now ≡ (p', ok delay)
    → now + delay < p.deadline
unfolding reserve
reserve-deadline_lt p p' bytes now delay e = ground (arith, e)
