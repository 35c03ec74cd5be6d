-- ===== src/Packets/Checksum.antt =====
-- The checksum of a header as arithmetic modulo 65535.
use reka_serdoba.Common.{
  ℕ, zero, suc, ◌+◌, ◌*◌, ◌/◌, ◌%◌, ◌^◌, ◌≤◌, ◌<◌, ◌≡◌, ◌∙◌, ◌↔◌, refl, List, [], ◌∷◌, length, ◌==◌,
  Bool-cases, inl, inr, arith,
}
use reka_serdoba.Common.Words.{AreBytes}
use reka_serdoba.Packets.{word_sum, fold_carry, ipv4_checksum}

fold_carry-small : (fuel sum : ℕ) → sum < 65536 → fold_carry fuel sum ≡ sum
unfolding fold_carry
fold_carry-small zero sum h = refl
fold_carry-small (suc fuel) sum h = ground (arith, h)

-- Three rounds are enough.
fold_carry_enough : (sum : ℕ) → sum < 2 ^ 32 → fold_carry 3 sum < 65536
unfolding fold_carry
fold_carry_enough sum h = ground (arith, h)

-- A round keeps the remainder modulo 65535.
fold_carry-mod : (fuel sum : ℕ) → fold_carry fuel sum % 65535 ≡ sum % 65535
unfolding fold_carry
fold_carry-mod zero sum = refl
fold_carry-mod (suc fuel) sum = elim (Bool-cases (sum / 2 ^ 16 == 0)) [
  | inl e ↦ rw e refl
  | inr e ↦ rw e (fold_carry-mod fuel (sum % 2 ^ 16 + sum / 2 ^ 16) ∙ omega arith)
]

-- And whether it is zero.
fold_carry-pos : (fuel sum : ℕ) → 1 ≤ sum → 1 ≤ fold_carry fuel sum
unfolding fold_carry
fold_carry-pos zero sum h = h
fold_carry-pos (suc fuel) sum h = elim (Bool-cases (sum / 2 ^ 16 == 0)) [
  | inl e ↦ rw e h
  | inr e ↦ rw e (fold_carry-pos fuel (sum % 2 ^ 16 + sum / 2 ^ 16) (omega arith))
]

-- The checksum of a header whose sum is positive and has 32 bits is zero just when the sum is a
-- multiple of 65535.
pub ipv4_checksum_iff :
    (header : List ℕ)
    → 1 ≤ word_sum header
    → word_sum header < 2 ^ 32
    → (ipv4_checksum header ≡ 0) ↔ (word_sum header % 65535 ≡ 0)
unfolding ipv4_checksum
ipv4_checksum_iff header some_sum small = (
  λ e.
      omega
        (arith, e, fold_carry_enough (word_sum header) small, fold_carry-mod 3 (word_sum header)),
  λ e. omega (
    arith,
    e,
    fold_carry_enough (word_sum header) small,
    fold_carry-mod 3 (word_sum header),
    fold_carry-pos 3 (word_sum header) some_sum,
  ),
)

-- Bytes add up to less than half of what their number would allow.
pub word_sum_bound : (header : List ℕ) → AreBytes header → word_sum header ≤ length header * 65535
unfolding word_sum
word_sum_bound [] h = omega arith
word_sum_bound (a ∷ []) h = omega arith
word_sum_bound (a ∷ b ∷ rest) (ha, (hb, hs)) = omega (arith, ha, hb, word_sum_bound rest hs)
