-- ===== src/Record/Replay/History.antt =====
-- What a replay window stands for: the list of the numbers that were accepted, the last one first.
use reka_serdoba.Common.{
  ℕ, ◌≤◌, max, ◌≡◌, refl, Bool, true, false, not, ◌||◌, List, [], ◌∷◌, leb, ◌==◌, if◌then◌else◌,
  arith,
}
use reka_serdoba.Record.Replay.{saturating_add}

abbrev pub contains : ℕ → List ℕ → Bool
contains n [] = false
contains n (m ∷ ms) = n == m || contains n ms

abbrev pub maximum : List ℕ → ℕ
maximum [] = 0
maximum (m ∷ ms) = max m (maximum ms)

abbrev pub is_empty : List ℕ → Bool
is_empty [] = true
is_empty (m ∷ ms) = false

-- A number is fresh if nothing was accepted so far, or if it is less than `width` behind the
-- largest accepted number and was not accepted before.
abbrev pub fresh : ℕ → List ℕ → ℕ → Bool
fresh width history n =
    if is_empty history
    then true
    else if leb (saturating_add n width) (maximum history)
    then false
    else not (contains n history)

abbrev pub IsDistinct : List ℕ → Type 0
IsDistinct [] = Unit
IsDistinct (m ∷ ms) = (contains m ms ≡ false) × IsDistinct ms

pub contains-le-maximum : (n : ℕ) (ms : List ℕ) → contains n ms ≡ true → n ≤ maximum ms
contains-le-maximum n [] h = ground arith
contains-le-maximum n (m ∷ ms) h = ground (arith, contains-le-maximum n ms)

pub fresh-not_contained :
    (width : ℕ) (ms : List ℕ) (n : ℕ) → fresh width ms n ≡ true → contains n ms ≡ false
fresh-not_contained width [] n h = refl
fresh-not_contained width (m ∷ ms) n h = ground arith
