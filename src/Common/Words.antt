-- ===== src/Common/Words.antt =====
-- Unsigned integers of k bytes in network order, as `to_be_bytes` and `from_be_bytes` give them.
use Prim.Native.Nat.{ℕ, zero, suc, ◌+◌, ◌*◌, ◌/◌, ◌%◌, ◌^◌, ◌<◌, ◌≤◌}
use mathlib.Core.Path.{◌≡◌, refl, sym, ap, ap₂, ◌∙◌}
use mathlib.Core.List.{List, [], ◌∷◌, ◌++◌, append_assoc, append-nil}
use native.Mathlib.Omega.{arith}
use native.Mathlib.Nat.{pow-suc}
use reka_serdoba.Common.Lists.{length, length-append, All, All-append}

abbrev pub IsByte : ℕ → Type 0
IsByte b = b < 256

abbrev pub AreBytes : List ℕ → Type 0
AreBytes = All IsByte

-- `n.to_be_bytes()` for an n of k bytes.
unfoldable pub to_be : ℕ → ℕ → List ℕ
to_be zero n = []
to_be (suc k) n = to_be k (n / 256) ++ (n % 256 ∷ [])

from_be_acc : ℕ → List ℕ → ℕ
from_be_acc acc [] = acc
from_be_acc acc (b ∷ bs) = from_be_acc (acc * 256 + b) bs

-- `from_be_bytes(bytes)`.
unfoldable pub from_be : List ℕ → ℕ
unfolding from_be_acc
from_be bs = from_be_acc 0 bs

pub length-to_be : (k n : ℕ) → length (to_be k n) ≡ k
unfolding to_be
length-to_be zero n = refl
length-to_be (suc k) n =
    omega (arith, length-append {0} (to_be k (n / 256)) (n % 256 ∷ []), length-to_be k (n / 256))

pub to_be-AreBytes : (k n : ℕ) → AreBytes (to_be k n)
unfolding to_be
to_be-AreBytes zero n = tt
to_be-AreBytes (suc k) n =
    All-append IsByte (to_be k (n / 256)) _ (to_be-AreBytes k (n / 256)) (omega arith)

from_be_acc-append :
    (xs : List ℕ) (acc b : ℕ) → from_be_acc acc (xs ++ (b ∷ [])) ≡ from_be_acc acc xs * 256 + b
unfolding from_be_acc
from_be_acc-append [] acc b = refl
from_be_acc-append (x ∷ xs) acc b = from_be_acc-append xs (acc * 256 + x) b

from_be-append : (xs : List ℕ) (b : ℕ) → from_be (xs ++ (b ∷ [])) ≡ from_be xs * 256 + b
unfolding from_be
from_be-append xs b = from_be_acc-append xs 0 b

shorter : (k n : ℕ) → n < 256 ^ suc k → n / 256 < 256 ^ k
shorter k n h = omega (arith, pow-suc 256 k)

-- Reading back a written word.
pub from_be-to_be : (k n : ℕ) → n < 256 ^ k → from_be (to_be k n) ≡ n
unfolding to_be
from_be-to_be zero n h = unfold from_be in omega arith
from_be-to_be (suc k) n h =
    omega (
      arith,
      from_be-append (to_be k (n / 256)) (n % 256),
      from_be-to_be k (n / 256) (shorter k n h),
    )

scale_step : (acc x p f : ℕ) → x < 256 → f < (acc * 256 + x + 1) * p → f < (acc + 1) * (p * 256)
scale_step acc x p f h k =
    omega (arith, mul_mono (acc * 256 + x + 1) ((acc + 1) * 256) p (omega arith))
  where
    mul_mono : (a b c : ℕ) → a ≤ b → a * c ≤ b * c
    mul_mono a b c le = grind arith

from_be_acc_bound :
    (k : ℕ) (xs : List ℕ) (acc : ℕ)
    → AreBytes xs
    → length xs ≡ k
    → from_be_acc acc xs < (acc + 1) * 256 ^ k
unfolding from_be_acc
from_be_acc_bound zero [] acc h e = omega arith
from_be_acc_bound zero (x ∷ xs) acc h e = absurd (omega arith)
from_be_acc_bound (suc k) [] acc h e = absurd (omega arith)
from_be_acc_bound (suc k) (x ∷ xs) acc h e =
    rw (pow-suc 256 k)
      (scale_step acc x (256 ^ k) _ h.0 (from_be_acc_bound k xs (acc * 256 + x) h.1 (omega arith)))

-- A word of k bytes read from the wire is below 256 ^ k.
pub from_be_bound : (k : ℕ) (xs : List ℕ) → AreBytes xs → length xs ≡ k → from_be xs < 256 ^ k
unfolding from_be
from_be_bound k xs h e = omega (arith, from_be_acc_bound k xs 0 h e)

to_be-from_be_acc :
    (xs : List ℕ) (j n acc : ℕ)
    → AreBytes xs
    → length xs + j ≡ n
    → to_be n (from_be_acc acc xs) ≡ to_be j acc ++ xs
unfolding from_be_acc
to_be-from_be_acc [] j n acc h e =
    ap (λ (k : ℕ). to_be k acc) (omega arith) ∙ sym (append-nil (to_be j acc))
to_be-from_be_acc (x ∷ xs) j n acc h e =
    to_be-from_be_acc xs (suc j) n (acc * 256 + x) h.1 (omega arith)
    ∙ ap (λ t. t ++ xs) (last_byte j acc x h.0)
    ∙ append_assoc (to_be j acc) (x ∷ []) xs
  where
    last_byte : (i a b : ℕ) → b < 256 → to_be (suc i) (a * 256 + b) ≡ to_be i a ++ (b ∷ [])
    last_byte i a b lt =
        unfold to_be in ap₂ (λ (q r : ℕ). to_be i q ++ (r ∷ [])) (omega arith) (omega arith)

-- Writing back a word that was read.
pub to_be-from_be : (k : ℕ) (xs : List ℕ) → AreBytes xs → length xs ≡ k → to_be k (from_be xs) ≡ xs
unfolding from_be
to_be-from_be k xs h e = to_be-from_be_acc xs 0 k 0 h (omega arith) ∙ nothing_before
  where
    nothing_before : to_be 0 0 ++ xs ≡ xs
    nothing_before = unfold to_be in refl
