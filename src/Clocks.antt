-- ===== src/Clocks.antt =====
-- Times near a clock: what `(now as i64 - time as i64).abs()` says of a clock after 1970 that fits
-- in 63 bits and a time of 64 bits, when the difference wraps.
use reka_serdoba.Common.{
  ℕ, ◌+◌, ◌-◌, ◌%◌, ◌^◌, ◌≤◌, ◌<◌, ◌≡◌, Bool, false, min, ltb, ◌==◌, if◌then◌else◌, ◌⊎◌, inl, inr,
  Bool-cases, arith,
}

-- At most `limit` apart.
abbrev pub IsNear : ℕ → ℕ → ℕ → Type 0
IsNear limit now time = (now ≤ time + limit) × (time ≤ now + limit)

-- The time that `abs` misses: the least number of 64 bits is its own `abs`.
abbrev pub IsOpposite : ℕ → ℕ → Type 0
IsOpposite now time = time ≡ now + 2 ^ 63

-- The wrapped difference.
abbrev pub difference : ℕ → ℕ → ℕ
difference now time = (now + 2 ^ 64 - time) % 2 ^ 64

abbrev pub is_far : ℕ → ℕ → ℕ → Bool
is_far limit now time =
    if difference now time == 2 ^ 63
    then false
    else ltb limit (min (difference now time) (2 ^ 64 - difference now time))

difference_after : (now time : ℕ) → now < 2 ^ 63 → time ≤ now → difference now time ≡ now - time
difference_after now time now_max after = omega (arith, now_max, after)

difference_before :
    (now time : ℕ)
    → now < 2 ^ 63
    → time < 2 ^ 64
    → now < time
    → difference now time ≡ now + 2 ^ 64 - time
difference_before now time now_max time_max before = omega (arith, now_max, time_max, before)

module _ (limit now time : ℕ) (started : limit ≤ now) (now_max : now < 2 ^ 63)
    (time_max : time < 2 ^ 64) where
  pub is_near : is_far limit now time ≡ false → IsNear limit now time ⊎ IsOpposite now time
  is_near e = elim (Bool-cases (ltb now time)) [
    | inl before ↦
        let d = difference_before now time now_max time_max (ground (arith, before)) in
        elim (Bool-cases (difference now time == 2 ^ 63)) [
          | inl half ↦ inr (ground (arith, half, d, before))
          | inr other ↦
              let close : limit < min (difference now time) (2 ^ 64 - difference now time) → ⊥ =
                λ l. ground (arith, l, other, e) in
              inl (ground (arith, close, d, before), ground (arith, close, d, before))
        ]
    | inr after ↦
        let d = difference_after now time now_max (ground (arith, after)) in
        inl (ground (arith, d, e, after, now_max), ground (arith, d, e, after, now_max))
  ]

  pub is_far-near : IsNear limit now time → is_far limit now time ≡ false
  is_far-near (late, early) = elim (Bool-cases (ltb now time)) [
    | inl before ↦
        rw (difference_before now time now_max time_max (ground (arith, before)))
          (ground (arith, before, late, early))
    | inr after ↦
        rw (difference_after now time now_max (ground (arith, after)))
          (ground (arith, after, late, early))
  ]

  pub is_far-opposite : IsOpposite now time → is_far limit now time ≡ false
  is_far-opposite opposite =
      let d : difference now time ≡ 2 ^ 63 = omega (arith, opposite, now_max) in rw d (ground arith)
