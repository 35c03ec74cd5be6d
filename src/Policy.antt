-- ===== src/Policy.antt =====
-- `SessionPolicy` and `TokenBucket` (rekaserdoba/src/session.rs). A time is a number of nanoseconds;
-- the panic of `Instant + Duration` past the clock's range is left out, and `usize` has 64 bits.
pub mod Bucket
pub mod Reserve
pub mod Rate
use reka_serdoba.Common.{
  ℕ, ◌+◌, ◌-◌, ◌*◌, ◌/◌, ◌%◌, ◌^◌, min, max, Bool, true, false, not, ◌&&◌, Option, none, some, ltb,
  leb, ◌==◌, if◌then◌else◌, Result, ok, err,
}
use reka_serdoba.Errors.{
  Error, invalid_session_lifetime, invalid_session_bandwidth, session_lifetime_expired,
  session_quota_counter_overflow, session_quota_exceeded, session_lifetime_expires_during_shaping,
}

abbrev pub minimum_burst_bytes : ℕ
minimum_burst_bytes = 16 * 1024

abbrev pub maximum_burst_bytes : ℕ
maximum_burst_bytes = 4 * 1024 * 1024

-- The nanoseconds of a second.
abbrev pub second : ℕ
second = 1000000000

abbrev pub u64_max : ℕ
u64_max = 2 ^ 64 - 1

pub record TokenBucket : Type 0 where
  pub rate : ℕ
  pub capacity : ℕ
  pub tokens : ℕ
  pub updated_at : ℕ

pub record SessionPolicy : Type 0 where
  pub deadline : ℕ
  pub quota : Option ℕ
  pub transferred : ℕ
  pub bucket : TokenBucket

-- `bandwidth_bytes_per_second.clamp(...)`
unfoldable pub burst : ℕ → ℕ
burst bandwidth = min (max bandwidth minimum_burst_bytes) maximum_burst_bytes

-- `SessionPolicy::new`
unfoldable pub new : ℕ → ℕ → ℕ → ℕ → Result Error SessionPolicy
new lifetime_seconds bandwidth quota_bytes now =
    if not (leb 60 lifetime_seconds && leb lifetime_seconds 86400)
    then err invalid_session_lifetime
    else if not (leb 1024 bandwidth && leb bandwidth (1024 * 1024 * 1024))
    then err invalid_session_bandwidth
    else ok (record {
      deadline = now + lifetime_seconds * second;
      quota = if quota_bytes == 0 then none else some quota_bytes;
      transferred = 0;
      bucket = record {
        rate = bandwidth;
        capacity = burst bandwidth;
        tokens = burst bandwidth;
        updated_at = now;
      };
    })

-- What `elapsed` nanoseconds add; `saturating_mul` is on 128 bits.
unfoldable pub replenished : TokenBucket → ℕ → ℕ
replenished b elapsed = min (min (elapsed * b.rate) (2 ^ 128 - 1) / second) u64_max

-- The tokens at `now`, before any are taken.
unfoldable pub filled : TokenBucket → ℕ → ℕ
filled b now = min (min (b.tokens + replenished b (now - b.updated_at)) u64_max) b.capacity

-- `u128::div_ceil`
unfoldable pub div_ceil : ℕ → ℕ → ℕ
div_ceil a b = if a % b == 0 then a / b else a / b + 1

-- The time until a deficit is made up.
unfoldable pub delay_of : TokenBucket → ℕ → ℕ
delay_of b deficit = min (div_ceil (deficit * second) b.rate) u64_max

-- `TokenBucket::reserve`
unfoldable pub reserve_tokens : TokenBucket → ℕ → ℕ → TokenBucket × ℕ
reserve_tokens b bytes now =
    let tokens : ℕ = filled b now in
    if leb bytes tokens
    then (record b { tokens = tokens - bytes; updated_at = now }, 0)
    else (let delay : ℕ = delay_of b (bytes - tokens) in
        (record b { tokens = 0; updated_at = now + delay }, delay))

-- `self.quota.is_some_and(|quota| next_total > quota)`
abbrev pub over : Option ℕ → ℕ → Bool
over none total = false
over (some quota) total = ltb quota total

-- `SessionPolicy::reserve`: the bucket is drawn on before the deadline is checked for the second
-- time.
unfoldable pub reserve : SessionPolicy → ℕ → ℕ → SessionPolicy × Result Error ℕ
reserve p bytes now =
    if leb p.deadline now
    then (p, err session_lifetime_expired)
    else if ltb u64_max (p.transferred + bytes)
    then (p, err session_quota_counter_overflow)
    else if over p.quota (p.transferred + bytes)
    then (p, err session_quota_exceeded)
    else (let (bucket, delay) = reserve_tokens p.bucket bytes now in
        if leb p.deadline (now + delay)
        then (record p { bucket = bucket }, err session_lifetime_expires_during_shaping)
        else (record p { bucket = bucket; transferred = p.transferred + bytes }, ok delay))
