-- ===== src/Record/Replay/Slots.antt =====
-- What setting and clearing one slot does to every slot of the bitmap.
use reka_serdoba.Common.{
  ℕ, ◌-◌, ◌*◌, ◌/◌, ◌%◌, ◌^◌, ◌<◌, ◌≡◌, ◌∙◌, ap, bit_and, bit_or, List, length, length-set, get_or,
  get_or-set, get_or-replicate, set, replicate, ◌==◌, if◌then◌else◌, arith,
}
use reka_serdoba.Common.Bits.{
  bit_at, bit_at-zero, bit_at-le-one, bit_at-bit_and, bit_at-bit_or, bit_at-two-pow,
  bit_at-complement,
}
use reka_serdoba.Record.Replay.{u64_max}
use native.Mathlib.Nat.{pow-le-pow_right}

-- The bit at an offset of the bitmap, as 0 or 1.
abbrev pub bit_of : List ℕ → ℕ → ℕ
bit_of bits o = bit_at (o % 64) (get_or bits (o / 64) 0)

small_power : (k : ℕ) → k < 64 → 2 ^ k < 2 ^ 64
small_power k h =
    omega (arith, pow-le-pow_right {n = 2} (omega arith) {i = k} {j = 63} (omega arith))

unfoldable pub set_bit : List ℕ → ℕ → List ℕ
set_bit bits o = set bits (o / 64) (bit_or (get_or bits (o / 64) 0) (2 ^ (o % 64)))

unfoldable pub clear_bit : List ℕ → ℕ → List ℕ
clear_bit bits o = set bits (o / 64) (bit_and (get_or bits (o / 64) 0) (u64_max - 2 ^ (o % 64)))

pub bit_of-set_bit :
    (bits : List ℕ) (o p : ℕ)
    → o < 64 * length bits
    → bit_of (set_bit bits o) p ≡ (if o == p then 1 else bit_of bits p)
unfolding set_bit
bit_of-set_bit bits o p h = ground (
  arith,
  get_or-set bits (o / 64) (p / 64) (bit_or (get_or bits (o / 64) 0) (2 ^ (o % 64))) 0,
  bit_at-bit_or (p % 64) (get_or bits (o / 64) 0) (2 ^ (o % 64)),
  bit_at-two-pow (p % 64) (o % 64),
  bit_at-le-one (p % 64) (get_or bits (o / 64) 0),
)

pub bit_of-clear_bit :
    (bits : List ℕ) (o p : ℕ)
    → o < 64 * length bits
    → bit_of (clear_bit bits o) p ≡ (if o == p then 0 else bit_of bits p)
unfolding clear_bit
bit_of-clear_bit bits o p h = ground (
  arith,
  get_or-set bits (o / 64) (p / 64) (bit_and (get_or bits (o / 64) 0) (u64_max - 2 ^ (o % 64))) 0,
  bit_at-bit_and (p % 64) (get_or bits (o / 64) 0) (u64_max - 2 ^ (o % 64)),
  bit_at-complement (p % 64) 64 (2 ^ (o % 64)) (omega arith) (small_power (o % 64) (omega arith)),
  bit_at-two-pow (p % 64) (o % 64),
  bit_at-le-one (p % 64) (get_or bits (o / 64) 0),
)

pub bit_of-zeros : (n o : ℕ) → bit_of (replicate n 0) o ≡ 0
bit_of-zeros n o = ap (bit_at (o % 64)) (get_or-replicate n (o / 64) 0) ∙ bit_at-zero (o % 64)

pub length-set_bit : (bits : List ℕ) (o : ℕ) → length (set_bit bits o) ≡ length bits
unfolding set_bit
length-set_bit bits o = length-set bits (o / 64) _

pub length-clear_bit : (bits : List ℕ) (o : ℕ) → length (clear_bit bits o) ≡ length bits
unfolding clear_bit
length-clear_bit bits o = length-set bits (o / 64) _
