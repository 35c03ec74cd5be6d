-- ===== src/Record/Replay/Clearing.antt =====
-- The slots that `clear_slots` clears, and those that it leaves alone.
use reka_serdoba.Common.{
  ℕ, zero, suc, ◌+◌, ◌*◌, ◌/◌, ◌%◌, ◌≤◌, ◌<◌, ◌≡◌, ◌≢◌, ◌∙◌, refl, List, length, arith,
}
use reka_serdoba.Record.Replay.{ReplayWindow, clear_slot, clear_slots}
use reka_serdoba.Record.Replay.Slots.{bit_of, clear_bit, bit_of-clear_bit, length-clear_bit}
use native.Mathlib.Nat.{div-add-mod, mod-lt}
use native.Mathlib.Decide.{dec_lt, ℕ_discrete}

mul_mono : (w q p : ℕ) → q ≤ p → w * q ≤ w * p
mul_mono w q p h = grind arith

apart : (w q p r : ℕ) → w * q + r < w * p + r → w * p + r < w * q + r + w → ⊥
apart w q p r lt near = elim (dec_lt q p) [
  | yes h ↦ absurd (omega (arith, mul_mono w (q + 1) p (omega arith)))
  | no h ↦ absurd (omega (arith, mul_mono w p q (omega arith)))
]

-- Two numbers less than `w` apart have different slots.
pub slots_differ : (n m w : ℕ) → n < m → m < n + w → n % w ≢ m % w
slots_differ n m w lt near e =
    apart w (n / w) (m / w) (m % w) (omega (arith, div-add-mod n w, div-add-mod m w))
      (omega (arith, div-add-mod n w, div-add-mod m w))

module _ (w : ReplayWindow) (pos : 0 < w.width) where
  pub in_range :
      (bits : List ℕ) (n : ℕ) → 64 * length bits ≡ w.width → n % w.width < 64 * length bits
  in_range bits n len = omega (arith, len, mod-lt n {m = w.width} pos)

  clear_slot_zero :
      (bits : List ℕ) (first o : ℕ)
      → 64 * length bits ≡ w.width
      → bit_of bits o ≡ 0
      → bit_of (clear_slot w bits first) o ≡ 0
  unfolding clear_slot clear_bit
  clear_slot_zero bits first o len z =
      bit_of-clear_bit bits (first % w.width) o (in_range bits first len) ∙ (ground arith)

  pub clear_slot_len : (bits : List ℕ) (first : ℕ) → length (clear_slot w bits first) ≡ length bits
  unfolding clear_slot clear_bit
  clear_slot_len bits first = length-clear_bit bits (first % w.width)

  pub cleared_now :
      (bits : List ℕ) (first : ℕ)
      → 64 * length bits ≡ w.width
      → bit_of (clear_slot w bits first) (first % w.width) ≡ 0
  unfolding clear_slot clear_bit
  cleared_now bits first len =
      bit_of-clear_bit bits (first % w.width) (first % w.width) (in_range bits first len)
      ∙ (ground arith)

  -- The slots of numbers in a window that ends before `first` keep their bits.
  clear_slot_other :
      (bits : List ℕ) (first n : ℕ)
      → 64 * length bits ≡ w.width
      → n < first
      → first < n + w.width
      → bit_of (clear_slot w bits first) (n % w.width) ≡ bit_of bits (n % w.width)
  unfolding clear_slot clear_bit
  clear_slot_other bits first n len lt near =
      bit_of-clear_bit bits (first % w.width) (n % w.width) (in_range bits first len)
      ∙ (ground
          (arith, λ (e : n % w.width ≡ first % w.width). slots_differ n first w.width lt near e))

  pub clear_slots_len :
      (count first : ℕ) (bits : List ℕ) → length (clear_slots w count first bits) ≡ length bits
  unfolding clear_slots
  clear_slots_len zero first bits = refl
  clear_slots_len (suc count) first bits =
      clear_slots_len count (first + 1) (clear_slot w bits first) ∙ clear_slot_len bits first

  clear_slots_zero :
      (count first : ℕ) (bits : List ℕ) (o : ℕ)
      → 64 * length bits ≡ w.width
      → bit_of bits o ≡ 0
      → bit_of (clear_slots w count first bits) o ≡ 0
  unfolding clear_slots
  clear_slots_zero zero first bits o len z = z
  clear_slots_zero (suc count) first bits o len z =
      clear_slots_zero count (first + 1) (clear_slot w bits first) o
        (omega (arith, len, clear_slot_len bits first)) (clear_slot_zero bits first o len z)

  -- Every slot of the range is clear afterwards.
  pub clear_slots_self :
      (count first : ℕ) (bits : List ℕ) (n : ℕ)
      → 64 * length bits ≡ w.width
      → first ≤ n
      → n < first + count
      → bit_of (clear_slots w count first bits) (n % w.width) ≡ 0
  unfolding clear_slots
  clear_slots_self zero first bits n len lo hi = absurd (omega arith)
  clear_slots_self (suc count) first bits n len lo hi = elim (ℕ_discrete n first) [
    | yes e ↦
        clear_slots_zero count (first + 1) (clear_slot w bits first) (n % w.width)
          (omega (arith, len, clear_slot_len bits first)) (rw e (cleared_now bits first len))
    | no ne ↦
        clear_slots_self count (first + 1) (clear_slot w bits first) n
          (omega (arith, len, clear_slot_len bits first)) (omega arith) (omega arith)
  ]

  pub clear_slots_other :
      (count first : ℕ) (bits : List ℕ) (n : ℕ)
      → 64 * length bits ≡ w.width
      → n < first
      → first + count ≤ n + w.width
      → bit_of (clear_slots w count first bits) (n % w.width) ≡ bit_of bits (n % w.width)
  unfolding clear_slots
  clear_slots_other zero first bits n len lt near = refl
  clear_slots_other (suc count) first bits n len lt near =
      clear_slots_other count (first + 1) (clear_slot w bits first) n
        (omega (arith, len, clear_slot_len bits first)) (omega arith) (omega arith)
      ∙ clear_slot_other bits first n len lt (omega arith)
