-- ===== src/Examples/Policies.antt =====
-- The session policy at concrete inputs.
use reka_serdoba.Common.{ℕ, ◌+◌, ◌-◌, ◌*◌, ◌≤◌, ◌≡◌, ◌↔◌, refl, some, List, [], ◌∷◌, ok, arith}
use reka_serdoba.Policy
use reka_serdoba.Policy.{SessionPolicy, TokenBucket, burst, reserve, reserve_tokens, filled, second}
use reka_serdoba.Policy.Bucket.{reserve_tokens_delay_iff}
use reka_serdoba.Policy.Reserve.{reserve_all, granted_all}
use reka_serdoba.Policy.Rate.{AreTimed, new-granted_all_rate}

-- A minute at 16 KiB a second, with 100,000 bytes to transfer.
abbrev bucket : TokenBucket
bucket = record { rate = 16384; capacity = 16384; tokens = 16384; updated_at = 5 }

abbrev policy : SessionPolicy
policy = record { deadline = 60000000005; quota = some 100000; transferred = 0; bucket = bucket }

new-policy : Policy.new 60 16384 100000 5 ≡ ok policy
unfolding Policy.new burst
new-policy = refl

-- The whole burst at once, then as many bytes again, for which the session waits a second.
abbrev requests : List (ℕ × ℕ)
requests = (16384, 5) ∷ (16384, 5) ∷ (16384, 1000000005) ∷ []

requests-AreTimed : AreTimed policy requests
unfolding reserve reserve_tokens filled Policy.replenished Policy.delay_of Policy.div_ceil
requests-AreTimed =
    (omega arith, omega arith, (omega arith, omega arith, (omega arith, omega arith, tt)))

all_granted : granted_all policy requests ≡ 49152
unfolding granted_all reserve reserve_tokens filled Policy.replenished Policy.delay_of
    Policy.div_ceil
all_granted = refl

new-granted_all_rate_example :
    (granted_all policy requests * second
      ≤ burst 16384 * second + ((reserve_all policy requests).bucket.updated_at - 5) * 16384)
    × (burst 16384 ≤ 4 * 1024 * 1024)
new-granted_all_rate_example =
    new-granted_all_rate 60 16384 100000 5 policy requests new-policy requests-AreTimed

reserve_tokens_delay_iff_example :
    ((reserve_tokens bucket 32768 5).1 ≤ 1000000000)
    ↔ (32768 * second ≤ filled bucket 5 * second + 1000000000 * 16384)
reserve_tokens_delay_iff_example =
    reserve_tokens_delay_iff bucket 32768 5 1000000000 (omega arith) (omega arith)

abbrev drained : SessionPolicy
drained = record policy { transferred = 16384; bucket = record bucket { tokens = 0 } }

first_reserved : reserve policy 16384 5 ≡ (drained, ok 0)
unfolding reserve reserve_tokens filled Policy.replenished
first_reserved = refl
