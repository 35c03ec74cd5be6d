-- ===== src/Common/Slices.antt =====
-- Ranges of a list, as in `xs[a..b]`.
use Prim.Native.Nat.{ℕ, zero, suc, ◌+◌, ◌-◌, ◌≤◌}
use mathlib.Core.Path.{◌≡◌, refl, sym, ap, ◌∙◌}
use mathlib.Core.List.{List, [], ◌∷◌, ◌++◌}
use native.Mathlib.Omega.{arith}
use reka_serdoba.Common.Lists.{
  length, take, drop, length-take, length-drop, take-append, All, All-take, All-drop,
}

module _ {ℓ} {A : Type ℓ} where
  -- `xs[a..b]`; what the source does out of range is written out where it can happen.
  unfoldable pub slice : ℕ → ℕ → List A → List A
  slice a b xs = take (b - a) (drop a xs)

  pub length-slice : (a b : ℕ) (xs : List A) → a ≤ b → b ≤ length xs → length (slice a b xs) ≡ b - a
  unfolding slice
  length-slice a b xs h k = omega (arith, length-take (b - a) (drop a xs), length-drop a xs)

  drop-append_right :
      (n : ℕ) (xs ys : List A) → length xs ≤ n → drop n (xs ++ ys) ≡ drop (n - length xs) ys
  drop-append_right n [] ys h = ap (λ (k : ℕ). drop k ys) (omega arith)
  drop-append_right zero (x ∷ xs) ys h = absurd (omega arith)
  drop-append_right (suc n) (x ∷ xs) ys h =
      drop-append_right n xs ys (omega arith) ∙ ap (λ (k : ℕ). drop k ys) (omega arith)

  -- A range of the second part, with the first part's length `m` as it is known.
  pub slice-append_right :
      (m a b : ℕ) (xs ys : List A)
      → length xs ≡ m
      → m ≤ a
      → slice a b (xs ++ ys) ≡ slice (a - m) (b - m) ys
  unfolding slice
  slice-append_right m a b xs ys e h =
      ap (take (b - a)) (drop-append_right a xs ys (omega arith))
      ∙ ap (λ (k : ℕ). take (b - a) (drop k ys)) (omega arith)
      ∙ ap (λ (k : ℕ). take k (drop (a - m) ys)) (omega arith)

  -- The range that is the whole first part.
  pub slice-append_left : (n : ℕ) (xs ys : List A) → length xs ≡ n → slice 0 n (xs ++ ys) ≡ xs
  unfolding slice
  slice-append_left n xs ys h = take-append (n - 0) xs ys (omega arith)

  take_nil : (n : ℕ) → take {A = A} n [] ≡ []
  take_nil zero = refl
  take_nil (suc n) = refl

  -- Neighbouring ranges join.
  pub take-append-take : (m n : ℕ) (xs : List A) → take m xs ++ take n (drop m xs) ≡ take (m + n) xs
  take-append-take zero n xs = ap (λ (k : ℕ). take k xs) (omega arith)
  take-append-take (suc m) n [] = take_nil n ∙ sym (take_nil (suc m + n))
  take-append-take (suc m) n (x ∷ xs) =
      ap (λ t. x ∷ t) (take-append-take m n xs)
      ∙ ap (λ (k : ℕ). take k (x ∷ xs)) {x = suc (m + n)} (omega arith)

  drop_nil : (n : ℕ) → drop {A = A} n [] ≡ []
  drop_nil zero = refl
  drop_nil (suc n) = refl

  pub drop-drop : (m n : ℕ) (xs : List A) → drop n (drop m xs) ≡ drop (m + n) xs
  drop-drop zero n xs = ap (λ (k : ℕ). drop k xs) (omega arith)
  drop-drop (suc m) zero [] = sym (drop_nil (suc m + zero))
  drop-drop (suc m) (suc n) [] = sym (drop_nil (suc m + suc n))
  drop-drop (suc m) n (x ∷ xs) =
      drop-drop m n xs
      ∙ ap (λ (k : ℕ). drop k (x ∷ xs)) {x = suc (m + n)} {y = suc m + n} (omega arith)

  pub slice_join :
      (a b c : ℕ) (xs : List A) → a ≤ b → b ≤ c → slice a b xs ++ slice b c xs ≡ slice a c xs
  unfolding slice
  slice_join a b c xs h k =
      ap (λ (d : List A). slice a b xs ++ take (c - b) d)
        (ap (λ (i : ℕ). drop i xs) {x = b} (omega arith) ∙ sym (drop-drop a (b - a) xs))
      ∙ take-append-take (b - a) (c - b) (drop a xs)
      ∙ ap (λ (i : ℕ). take i (drop a xs)) (omega arith)

module _ {ℓ κ} {A : Type ℓ} (P : A → Type κ) where
  pub All-slice : (a b : ℕ) (xs : List A) → All P xs → All P (slice a b xs)
  unfolding slice
  All-slice a b xs h = All-take P (b - a) (drop a xs) (All-drop P a xs h)
