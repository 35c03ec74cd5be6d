-- ===== src/Common/Bits.antt =====
-- Single bits of a word: what `&`, `|`, `!` and `1 << k` do to each.
use Prim.Native.Nat.{
  ℕ, zero, suc, ◌+◌, ◌-◌, ◌*◌, ◌/◌, ◌%◌, ◌^◌, ◌≤◌, ◌<◌, min, max, bit_and, bit_or, bit_xor, differ,
  digits, bitwise, bit_and-bitwise, bit_or-bitwise, bit_xor-bitwise,
}
use mathlib.Core.Path.{◌≡◌, refl, sym, ap, ap₂, ◌∙◌}
use native.Mathlib.Omega.{arith}
use native.Mathlib.Nat.{pow-suc, le_refl, one-le-pow}
use reka_serdoba.Common.Tests.{◌==◌, if◌then◌else◌}

-- The native operations walk over the binary digits with a budget; one equation says the same of
-- the lowest digit and of what is above it.
module _ (rest : ℕ → ℕ) (join : ℕ → ℕ → ℕ) where
  no_digits : (n y : ℕ) → digits rest join n 0 y ≡ rest y
  no_digits zero y = refl
  no_digits (suc n) y = refl

  any_budget : (x n m y : ℕ) → x ≤ n → x ≤ m → digits rest join n x y ≡ digits rest join m x y
  any_budget zero n m y hn hm = no_digits n y ∙ sym (no_digits m y)
  any_budget (suc x) (suc n) (suc m) y hn hm =
      ap (λ (t : ℕ). t * 2 + join (suc x % 2) (y % 2))
        (any_budget (suc x / 2) n m (y / 2) (omega arith) (omega arith))
  any_budget (suc x) zero m y hn hm = absurd (omega arith)
  any_budget (suc x) (suc n) zero y hn hm = absurd (omega arith)

  lowest_digit :
      ((y : ℕ) → rest y ≡ rest (y / 2) * 2 + join 0 (y % 2))
      → (x y : ℕ)
      → bitwise rest join x y ≡ bitwise rest join (x / 2) (y / 2) * 2 + join (x % 2) (y % 2)
  lowest_digit base zero y = base y
  lowest_digit base (suc x) y =
      ap (λ (t : ℕ). t * 2 + join (suc x % 2) (y % 2))
        (any_budget (suc x / 2) x (suc x / 2) (y / 2) (omega arith) (omega arith))

bit_or_step : (x y : ℕ) → bit_or x y ≡ bit_or (x / 2) (y / 2) * 2 + max (x % 2) (y % 2)
bit_or_step x y = omega (
  arith,
  bit_or-bitwise x y,
  bit_or-bitwise (x / 2) (y / 2),
  lowest_digit (λ t. t) max (λ t. omega arith) x y,
)

bit_and_step : (x y : ℕ) → bit_and x y ≡ bit_and (x / 2) (y / 2) * 2 + min (x % 2) (y % 2)
bit_and_step x y = omega (
  arith,
  bit_and-bitwise x y,
  bit_and-bitwise (x / 2) (y / 2),
  lowest_digit (λ t. 0) min (λ t. omega arith) x y,
)

bit_xor_step : (x y : ℕ) → bit_xor x y ≡ bit_xor (x / 2) (y / 2) * 2 + differ (x % 2) (y % 2)
bit_xor_step x y = omega (
  arith,
  bit_xor-bitwise x y,
  bit_xor-bitwise (x / 2) (y / 2),
  lowest_digit (λ t. t) differ (λ t. omega arith) x y,
)

-- Bit `k` of `a`, as 0 or 1.
unfoldable pub bit_at : ℕ → ℕ → ℕ
bit_at zero a = a % 2
bit_at (suc k) a = bit_at k (a / 2)

pub bit_at-le-one : (k a : ℕ) → bit_at k a ≤ 1
unfolding bit_at
bit_at-le-one zero a = omega arith
bit_at-le-one (suc k) a = bit_at-le-one k (a / 2)

pub bit_at-zero : (k : ℕ) → bit_at k 0 ≡ 0
unfolding bit_at
bit_at-zero zero = refl
bit_at-zero (suc k) = bit_at-zero k

pub bit_at-bit_and : (k a b : ℕ) → bit_at k (bit_and a b) ≡ min (bit_at k a) (bit_at k b)
unfolding bit_at
bit_at-bit_and zero a b = omega (arith, bit_and_step a b)
bit_at-bit_and (suc k) a b = rw (halved a b) (bit_at-bit_and k (a / 2) (b / 2))
  where
    halved : (a b : ℕ) → bit_and a b / 2 ≡ bit_and (a / 2) (b / 2)
    halved a b = omega (arith, bit_and_step a b)

pub bit_at-bit_or : (k a b : ℕ) → bit_at k (bit_or a b) ≡ max (bit_at k a) (bit_at k b)
unfolding bit_at
bit_at-bit_or zero a b = omega (arith, bit_or_step a b)
bit_at-bit_or (suc k) a b = rw (halved a b) (bit_at-bit_or k (a / 2) (b / 2))
  where
    halved : (a b : ℕ) → bit_or a b / 2 ≡ bit_or (a / 2) (b / 2)
    halved a b = omega (arith, bit_or_step a b)

halved_power : (k : ℕ) → 2 ^ suc k / 2 ≡ 2 ^ k
halved_power k = omega (arith, pow-suc 2 k)

-- `1 << k` has one bit.
pub bit_at-two-pow : (j k : ℕ) → bit_at j (2 ^ k) ≡ (if j == k then 1 else 0)
unfolding bit_at
bit_at-two-pow zero zero = refl
bit_at-two-pow zero (suc k) = ground (arith, pow-suc 2 k)
bit_at-two-pow (suc j) zero = ground (arith, bit_at-zero j)
bit_at-two-pow (suc j) (suc k) = rw (halved_power k) (ground (arith, bit_at-two-pow j k))

-- `!a` in a word of `n` bits.
pub bit_at-complement : (j n a : ℕ) → j < n → a < 2 ^ n → bit_at j (2 ^ n - 1 - a) ≡ 1 - bit_at j a
unfolding bit_at
bit_at-complement j zero a h lt = absurd (omega arith)
bit_at-complement zero (suc n) a h lt = omega (arith, pow-suc 2 n)
bit_at-complement (suc j) (suc n) a h lt =
    rw halved (bit_at-complement j n (a / 2) (omega arith) (omega (arith, pow-suc 2 n)))
  where
    halved : (2 ^ suc n - 1 - a) / 2 ≡ 2 ^ n - 1 - a / 2
    halved = omega (arith, pow-suc 2 n)

and_digits_zero : (n x : ℕ) → digits (λ t. 0) min n x 0 ≡ 0
and_digits_zero zero x = refl
and_digits_zero (suc n) zero = refl
and_digits_zero (suc n) (suc x) = omega (arith, and_digits_zero n (suc x / 2))

-- `a & (1 << k)` keeps bit `k` alone.
pub bit_and-two-pow : (k a : ℕ) → bit_and a (2 ^ k) ≡ bit_at k a * 2 ^ k
unfolding bit_at
bit_and-two-pow zero a =
    omega (arith, bit_and_step a 1, bit_and-bitwise (a / 2) 0, and_digits_zero (a / 2) (a / 2))
bit_and-two-pow (suc k) a = omega (
  arith,
  bit_and_step a (2 ^ suc k),
  ap (bit_and (a / 2)) (halved_power k) ∙ bit_and-two-pow k (a / 2),
  pow-suc 2 k,
  ap (λ (p : ℕ). bit_at k (a / 2) * p) (pow-suc 2 k),
)

-- The test `a & (1 << k) == 0` reads bit `k`.
pub mask_test : (k a : ℕ) → (bit_and a (2 ^ k) == 0) ≡ (bit_at k a == 0)
mask_test k a = grind (arith, bit_and-two-pow k a, bit_at-le-one k a, one-le-pow k 2)

-- Two binary digits.
differ_digits : (x y : ℕ) → x ≤ 1 → y ≤ 1 → (differ x y ≤ 1) × (differ x (differ x y) ≡ y)
differ_digits zero y hx hy = (hy, refl)
differ_digits (suc zero) zero hx hy = (omega arith, refl)
differ_digits (suc zero) (suc zero) hx hy = (omega arith, refl)
differ_digits (suc zero) (suc (suc y)) hx hy = absurd (omega arith)
differ_digits (suc (suc x)) y hx hy = absurd (omega arith)

-- What is left once the lowest digits are known.
xor_twice :
    (a b r : ℕ)
    → bit_xor (a / 2) (bit_xor (a / 2) (b / 2)) ≡ r
    → bit_xor a (bit_xor a b) ≡ r * 2 + b % 2
xor_twice a b r h =
    bit_xor_step a (bit_xor a b)
    ∙ ap₂ (λ (q d : ℕ). bit_xor (a / 2) q * 2 + differ (a % 2) d) quotient digit
    ∙ ap₂ (λ (q d : ℕ). q * 2 + d) h digits_ok.1
  where
    digits_ok : (differ (a % 2) (b % 2) ≤ 1) × (differ (a % 2) (differ (a % 2) (b % 2)) ≡ b % 2)
    digits_ok = differ_digits (a % 2) (b % 2) (omega arith) (omega arith)

    quotient : bit_xor a b / 2 ≡ bit_xor (a / 2) (b / 2)
    quotient = omega (arith, bit_xor_step a b, digits_ok.0)

    digit : bit_xor a b % 2 ≡ differ (a % 2) (b % 2)
    digit = omega (arith, bit_xor_step a b, digits_ok.0)

bit_xor_cancel_fuel : (n a b : ℕ) → a ≤ n → bit_xor a (bit_xor a b) ≡ b
bit_xor_cancel_fuel n zero b h = bit_xor-bitwise 0 (bit_xor 0 b) ∙ bit_xor-bitwise 0 b
bit_xor_cancel_fuel zero (suc a) b h = absurd (omega arith)
bit_xor_cancel_fuel (suc n) (suc a) b h =
    xor_twice (suc a) b (b / 2) (bit_xor_cancel_fuel n (suc a / 2) (b / 2) (omega arith))
    ∙ omega arith

-- `^` undoes itself.
pub bit_xor_cancel : (a b : ℕ) → bit_xor a (bit_xor a b) ≡ b
bit_xor_cancel a b = bit_xor_cancel_fuel a a b (le_refl a)
