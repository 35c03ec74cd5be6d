-- ===== src/Common/Maps.antt =====
-- Maps from numbers as lists of pairs: the first pair of a key counts, an insertion replaces it or
-- adds one, and a removal takes it out.
use Prim.Native.Nat.{ℕ, ◌+◌, ◌≤◌}
use mathlib.Core.Path.{◌≡◌, refl, sym, ap, subst, ◌∙◌}
use mathlib.Core.Logic.{◌⊎◌, inl, inr}
use mathlib.Core.Bool.{false}
use mathlib.Core.Option.{Option, none, some}
use mathlib.Core.List.{List, [], ◌∷◌, ◌++◌}
use native.Mathlib.Omega.{arith}
use reka_serdoba.Common.Tests.{◌==◌, if◌then◌else◌, Bool-cases, ==_refl, ==_iff}
use reka_serdoba.Common.Lists.{length, All}

module _ {ℓ} {A : Type ℓ} where
  unfoldable pub find : ℕ → List (ℕ × A) → Option A
  find k [] = none
  find k ((j, a) ∷ m) = if j == k then some a else find k m

  unfoldable pub insert : ℕ → A → List (ℕ × A) → List (ℕ × A)
  insert k b [] = (k, b) ∷ []
  insert k b ((j, a) ∷ m) = if j == k then (k, b) ∷ m else (j, a) ∷ insert k b m

  unfoldable pub erase : ℕ → List (ℕ × A) → List (ℕ × A)
  erase k [] = []
  erase k ((j, a) ∷ m) = if j == k then m else (j, a) ∷ erase k m

  -- The sum of a measure over the values.
  abbrev pub total : (A → ℕ) → List (ℕ × A) → ℕ
  total f [] = 0
  total f ((j, a) ∷ m) = f a + total f m

  abbrev pub measure : (A → ℕ) → Option A → ℕ
  measure f none = 0
  measure f (some a) = f a

  pub total-insert :
      (f : A → ℕ) (k : ℕ) (b : A) (m : List (ℕ × A))
      → total f (insert k b m) + measure f (find k m) ≡ total f m + f b
  unfolding insert find
  total-insert f k b [] = omega arith
  total-insert f k b ((j, a) ∷ m) = elim (Bool-cases (j == k)) [
    | inl e ↦ rw e (omega arith)
    | inr e ↦ rw e (omega (arith, total-insert f k b m))
  ]

  pub total-erase :
      (f : A → ℕ) (k : ℕ) (m : List (ℕ × A))
      → total f (erase k m) + measure f (find k m) ≡ total f m
  unfolding erase find
  total-erase f k [] = omega arith
  total-erase f k ((j, a) ∷ m) = elim (Bool-cases (j == k)) [
    | inl e ↦ rw e (omega arith)
    | inr e ↦ rw e (omega (arith, total-erase f k m))
  ]

  abbrev pub one_if_new : Option A → ℕ
  one_if_new none = 1
  one_if_new (some a) = 0

  pub length-insert :
      (k : ℕ) (b : A) (m : List (ℕ × A)) → length (insert k b m) ≡ length m + one_if_new (find k m)
  unfolding insert find
  length-insert k b [] = omega arith
  length-insert k b ((j, a) ∷ m) = elim (Bool-cases (j == k)) [
    | inl e ↦ rw e (omega arith)
    | inr e ↦ rw e (omega (arith, length-insert k b m))
  ]

  pub length-erase : (k : ℕ) (m : List (ℕ × A)) → length (erase k m) ≤ length m
  unfolding erase
  length-erase k [] = omega arith
  length-erase k ((j, a) ∷ m) = elim (Bool-cases (j == k)) [
    | inl e ↦ rw e (omega arith)
    | inr e ↦ rw e (omega (arith, length-erase k m))
  ]

  pub insert-insert :
      (k : ℕ) (a b : A) (m : List (ℕ × A)) → insert k b (insert k a m) ≡ insert k b m
  unfolding insert
  insert-insert k a b [] = rw (==_refl k) refl
  insert-insert k a b ((j, c) ∷ m) = elim (Bool-cases (j == k)) [
    | inl e ↦ rw e (rw (==_refl k) refl)
    | inr e ↦ rw e (rw e (ap (λ t. (j, c) ∷ t) (insert-insert k a b m)))
  ]

  pub find-insert : (k : ℕ) (a : A) (m : List (ℕ × A)) → find k (insert k a m) ≡ some a
  unfolding find insert
  find-insert k a [] = rw (==_refl k) refl
  find-insert k a ((j, c) ∷ m) = elim (Bool-cases (j == k)) [
    | inl e ↦ rw e (rw (==_refl k) refl)
    | inr e ↦ rw e (rw e (find-insert k a m))
  ]

  pub find-insert_other :
      (k i : ℕ) (a : A) (m : List (ℕ × A)) → (i == k) ≡ false → find k (insert i a m) ≡ find k m
  unfolding find insert
  find-insert_other k i a [] h = rw h refl
  find-insert_other k i a ((j, c) ∷ m) h = elim (Bool-cases (j == i)) [
    | inl e ↦ rw e (
        rw h (elim (Bool-cases (j == k)) [
          | inl f ↦ absurd (ground (arith, e, f, h))
          | inr f ↦ rw f refl
        ]))
    | inr e ↦ rw e (elim (Bool-cases (j == k)) [
      | inl f ↦ rw f refl
      | inr f ↦ rw f (find-insert_other k i a m h)
    ])
  ]

  pub find-erase_other :
      (k i : ℕ) (m : List (ℕ × A)) → (i == k) ≡ false → find k (erase i m) ≡ find k m
  unfolding find erase
  find-erase_other k i [] h = refl
  find-erase_other k i ((j, c) ∷ m) h = elim (Bool-cases (j == i)) [
    | inl e ↦ rw e (elim (Bool-cases (j == k)) [
      | inl f ↦ absurd (ground (arith, e, f, h))
      | inr f ↦ rw f refl
    ])
    | inr e ↦
        rw e (elim (Bool-cases (j == k)) [
          | inl f ↦ rw f refl
          | inr f ↦ rw f (find-erase_other k i m h)
        ])
  ]

  -- An insertion under a new key is undone by the removal of the key.
  pub erase-insert :
      (k : ℕ) (a : A) (m : List (ℕ × A)) → find k m ≡ none → erase k (insert k a m) ≡ m
  unfolding find insert erase
  erase-insert k a [] new = rw (==_refl k) refl
  erase-insert k a ((j, b) ∷ m) new = elim (Bool-cases (j == k)) [
    | inl e ↦ absurd (cc (rw e at new))
    | inr e ↦ rw e (rw e (ap (λ t. (j, b) ∷ t) (erase-insert k a m (rw (e, find) at new))))
  ]

  -- What is found after an insertion is what was put in or was there before.
  pub find-insert_cases :
      (i k : ℕ) (b a : A) (m : List (ℕ × A))
      → find i (insert k b m) ≡ some a
      → ((k ≡ i) × (a ≡ b)) ⊎ (find i m ≡ some a)
  find-insert_cases i k b a m h = elim (Bool-cases (k == i)) [
    | inl e ↦
        let same = (==_iff k i).0 e in
        inl (same, cc (h, subst (λ j. find j (insert k b m) ≡ some b) same (find-insert k b m)))
    | inr e ↦ inr (sym (find-insert_other i k b m e) ∙ h)
  ]

  -- No key stands twice.
  abbrev pub Distinct : List (ℕ × A) → Type ℓ
  Distinct [] = Unit {ℓ}
  Distinct ((j, a) ∷ m) = (find j m ≡ none) × Distinct m

  pub Distinct-insert : (k : ℕ) (b : A) (m : List (ℕ × A)) → Distinct m → Distinct (insert k b m)
  unfolding insert find
  Distinct-insert k b [] d = (refl, tt)
  Distinct-insert k b ((j, a) ∷ m) (new, d) = elim (Bool-cases (j == k)) [
    | inl e ↦ rw e (subst (λ i. find i m ≡ none) ((==_iff j k).0 e) new, d)
    | inr e ↦ rw e (find-insert_other j k b m (ground (arith, e)) ∙ new, Distinct-insert k b m d)
  ]

  pub Distinct-erase : (k : ℕ) (m : List (ℕ × A)) → Distinct m → Distinct (erase k m)
  unfolding erase
  Distinct-erase k [] d = tt
  Distinct-erase k ((j, a) ∷ m) (new, d) = elim (Bool-cases (j == k)) [
    | inl e ↦ rw e d
    | inr e ↦ rw e (find-erase_other j k m (ground (arith, e)) ∙ new, Distinct-erase k m d)
  ]

  pub find-erase : (k : ℕ) (m : List (ℕ × A)) → Distinct m → find k (erase k m) ≡ none
  unfolding find erase
  find-erase k [] d = refl
  find-erase k ((j, a) ∷ m) (new, d) = elim (Bool-cases (j == k)) [
    | inl e ↦ rw e (subst (λ i. find i m ≡ none) ((==_iff j k).0 e) new)
    | inr e ↦ rw e (rw e (find-erase k m d))
  ]

  -- The pair in the middle is the one that its key finds and a removal takes out.
  pub erase-middle :
      (k : ℕ) (a : A) (xs ys : List (ℕ × A))
      → Distinct (xs ++ ((k, a) ∷ ys))
      → (find k (xs ++ ((k, a) ∷ ys)) ≡ some a) × (erase k (xs ++ ((k, a) ∷ ys)) ≡ xs ++ ys)
  unfolding find erase
  erase-middle k a [] ys d = (rw (==_refl k) refl, rw (==_refl k) refl)
  erase-middle k a ((j, b) ∷ xs) ys (new, d) =
      let (found, erased) = erase-middle k a xs ys d in
      elim (Bool-cases (j == k)) [
        | inl e ↦
            let same = subst (λ i. find i (xs ++ ((k, a) ∷ ys)) ≡ none) ((==_iff j k).0 e) new in
            absurd (cc (same, found))
        | inr e ↦ (rw e found, rw e (ap (λ t. (j, b) ∷ t) erased))
      ]

module _ {ℓ κ} {A : Type ℓ} (P : A → Type κ) where
  -- A predicate on every value.
  abbrev pub AllValues : List (ℕ × A) → Type κ
  AllValues = All (λ p. P p.1)

  pub AllValues-insert :
      (k : ℕ) (b : A) (m : List (ℕ × A)) → P b → AllValues m → AllValues (insert k b m)
  unfolding insert
  AllValues-insert k b [] p h = (p, tt)
  AllValues-insert k b ((j, a) ∷ m) p (h, hs) = elim (Bool-cases (j == k)) [
    | inl e ↦ rw e (p, hs)
    | inr e ↦ rw e (h, AllValues-insert k b m p hs)
  ]

  pub AllValues-erase : (k : ℕ) (m : List (ℕ × A)) → AllValues m → AllValues (erase k m)
  unfolding erase
  AllValues-erase k [] h = tt
  AllValues-erase k ((j, a) ∷ m) (h, hs) = elim (Bool-cases (j == k)) [
    | inl e ↦ rw e hs
    | inr e ↦ rw e (h, AllValues-erase k m hs)
  ]

  pub AllValues-find : (k : ℕ) (m : List (ℕ × A)) (a : A) → AllValues m → find k m ≡ some a → P a
  unfolding find
  AllValues-find k [] a h e = cc e
  AllValues-find k ((j, b) ∷ m) a (h, hs) e = elim (Bool-cases (j == k)) [
    | inl same ↦ subst P (some_injective (rw same at e)) h
    | inr other ↦ AllValues-find k m a hs (rw (other, find) at e)
  ]
    where
      some_injective : {x y : A} → some x ≡ some y → x ≡ y
      some_injective p = cc p

  -- What an insertion put in, a removal takes out.
  pub AllValues-erase-insert :
      (k : ℕ) (b : A) (m : List (ℕ × A)) → AllValues m → AllValues (erase k (insert k b m))
  unfolding erase insert
  AllValues-erase-insert k b [] h = rw (==_refl k) tt
  AllValues-erase-insert k b ((j, a) ∷ m) (h, hs) = elim (Bool-cases (j == k)) [
    | inl e ↦ rw e (rw (==_refl k) hs)
    | inr e ↦ rw e (rw e (h, AllValues-erase-insert k b m hs))
  ]
