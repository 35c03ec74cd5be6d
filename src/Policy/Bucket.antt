-- ===== src/Policy/Bucket.antt =====
-- What one reservation does to a token bucket.
use reka_serdoba.Common.{
  ℕ, ◌+◌, ◌-◌, ◌*◌, ◌/◌, ◌%◌, ◌^◌, ◌≤◌, ◌≡◌, ◌∙◌, ◌↔◌, refl, sym, ap, subst, min, true, false, leb,
  ◌==◌, Bool-cases, inl, inr, arith,
}
use native.Mathlib.Nat.{mul_comm, div-add-mod', mod-lt, div-mul-le_self}
use reka_serdoba.Policy.{
  TokenBucket, replenished, filled, div_ceil, delay_of, reserve_tokens, second, u64_max,
}

scale_suc : (q b : ℕ) → (q + 1) * b ≡ q * b + b
scale_suc q b = grind arith

scale_mono : (a b c : ℕ) → a ≤ b → a * c ≤ b * c
scale_mono a b c le = grind arith

-- The quotient rounded up is enough.
div_ceil_enough : (a b : ℕ) → 1 ≤ b → a ≤ div_ceil a b * b
unfolding div_ceil
div_ceil_enough a b h = elim (Bool-cases (a % b == 0)) [
  | inl e ↦ rw e (omega (arith, div-add-mod' a b, the_rest e))
  | inr e ↦ rw e (omega (arith, div-add-mod' a b, mod-lt a h, scale_suc (a / b) b))
]
  where
    the_rest : (a % b == 0) ≡ true → a % b ≡ 0
    the_rest e = ground (arith, e)

at_most : (a b k : ℕ) → 1 ≤ b → a ≤ k * b → a / b ≤ k
at_most a b k h e = elim (Bool-cases (leb (a / b) k)) [
  | inl p ↦ ground (arith, p)
  | inr p ↦ absurd (
      omega (
        arith,
        div-mul-le_self a b,
        scale_mono (k + 1) (a / b) b (ground (arith, p)),
        scale_suc k b,
      ))
]

-- It is the least that is.
div_ceil_least : (a b k : ℕ) → 1 ≤ b → a ≤ k * b → div_ceil a b ≤ k
unfolding div_ceil
div_ceil_least a b k h e = elim (Bool-cases (a % b == 0)) [
  | inl z ↦ rw z (at_most a b k h e)
  | inr z ↦ rw z (elim (Bool-cases (leb k (a / b))) [
    | inl p ↦
        absurd
          (omega (arith, div-add-mod' a b, scale_mono k (a / b) b (ground (arith, p)), remains z))
    | inr p ↦ ground (arith, p)
  ])
]
  where
    remains : (a % b == 0) ≡ false → 1 ≤ a % b
    remains z = ground (arith, z)

replenished_bound :
    (b : TokenBucket) (elapsed : ℕ) → replenished b elapsed * second ≤ elapsed * b.rate
unfolding replenished
replenished_bound b elapsed =
    omega (arith, div-mul-le_self (min (elapsed * b.rate) (2 ^ 128 - 1)) second)

-- The deficits for which the delay is not cut off at 64 bits.
delay_enough :
    (b : TokenBucket) (deficit : ℕ)
    → 1 ≤ b.rate
    → deficit ≤ 2 ^ 34
    → deficit * second ≤ delay_of b deficit * b.rate
unfolding delay_of
delay_enough b deficit h small =
    subst (λ (d : ℕ). deficit * second ≤ d * b.rate) (sym uncut)
      (div_ceil_enough (deficit * second) b.rate h)
  where
    uncut : min (div_ceil (deficit * second) b.rate) u64_max ≡ div_ceil (deficit * second) b.rate
    uncut = omega (
      arith,
      div_ceil_least (deficit * second) b.rate u64_max h
          (omega (arith, small, scale_mono 1 b.rate u64_max h, mul_comm u64_max b.rate)),
    )

filled_bound :
    (b : TokenBucket) (now : ℕ)
    → filled b now * second ≤ b.tokens * second + (now - b.updated_at) * b.rate
unfolding filled
filled_bound b now = omega (arith, replenished_bound b (now - b.updated_at))

elapsed_sum :
    (now delay updated rate : ℕ)
    → updated ≤ now
    → (now + delay - updated) * rate ≡ (now - updated) * rate + delay * rate
elapsed_sum now delay updated rate h =
    ap (λ (t : ℕ). t * rate) {y = now - updated + delay} (omega arith)
    ∙ distributes (now - updated) delay rate
  where
    distributes : (x y z : ℕ) → (x + y) * z ≡ x * z + y * z
    distributes x y z = grind arith

-- One reservation: what it keeps, and that its bytes come out of what was there and what is added
-- until the time at which the bucket is then set.
pub record Drawn (b : TokenBucket) (bytes now : ℕ) (b' : TokenBucket) (delay : ℕ) : Type 0 where
  pub same_rate : b'.rate ≡ b.rate
  pub same_capacity : b'.capacity ≡ b.capacity
  pub within : b'.tokens ≤ b.capacity
  pub updated : b'.updated_at ≡ now + delay
  pub budget :
      bytes * second + b'.tokens * second
      ≤ b.tokens * second + (b'.updated_at - b.updated_at) * b.rate

pub reserve_tokens-Drawn :
    (b : TokenBucket) (bytes now : ℕ)
    → 1 ≤ b.rate
    → bytes ≤ 2 ^ 34
    → b.updated_at ≤ now
    → Drawn b bytes now (reserve_tokens b bytes now).0 (reserve_tokens b bytes now).1
unfolding reserve_tokens
reserve_tokens-Drawn b bytes now h small later = elim (Bool-cases (leb bytes (filled b now))) [
  | inl e ↦ rw e (record {
    same_rate = refl;
    same_capacity = refl;
    within = omega (arith, capped);
    updated = omega arith;
    budget = omega (arith, filled_bound b now, enough e);
  })
  | inr e ↦ rw e (record {
    same_rate = refl;
    same_capacity = refl;
    within = omega arith;
    updated = refl;
    budget = omega (
      arith,
      filled_bound b now,
      delay_enough b (bytes - filled b now) h (omega arith),
      elapsed_sum now (delay_of b (bytes - filled b now)) b.updated_at b.rate later,
    );
  })
]
  where
    capped : filled b now ≤ b.capacity
    capped = unfold filled in omega arith

    enough : leb bytes (filled b now) ≡ true → bytes ≤ filled b now
    enough e = ground (arith, e)

-- For a bucket with a rate and a request of at most 16 GiB the delay is exact: it is at most `k` just
-- when the tokens at the time of the request and what is added in `k` nanoseconds after it make up
-- for the bytes.
pub reserve_tokens_delay_iff :
    (b : TokenBucket) (bytes now k : ℕ)
    → 1 ≤ b.rate
    → bytes ≤ 2 ^ 34
    → ((reserve_tokens b bytes now).1 ≤ k) ↔ (bytes * second ≤ filled b now * second + k * b.rate)
unfolding reserve_tokens
reserve_tokens_delay_iff b bytes now k h small = elim (Bool-cases (leb bytes (filled b now))) [
  | inl e ↦ rw e ((λ _. omega (arith, enough e)), λ _. omega arith)
  | inr e ↦ rw e (
    (λ le. omega (
      arith,
      delay_enough b (bytes - filled b now) h (omega arith),
      scale_mono (delay_of b (bytes - filled b now)) k b.rate le,
    )),
    λ covered. least (omega (arith, covered)),
  )
]
  where
    enough : leb bytes (filled b now) ≡ true → bytes ≤ filled b now
    enough e = ground (arith, e)

    least : (bytes - filled b now) * second ≤ k * b.rate → delay_of b (bytes - filled b now) ≤ k
    least covered =
        unfold delay_of in
        omega (arith, div_ceil_least ((bytes - filled b now) * second) b.rate k h covered)
