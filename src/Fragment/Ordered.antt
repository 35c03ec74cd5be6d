-- ===== src/Fragment/Ordered.antt =====
-- The fragments of one assembly: in order, apart from each other and inside the packet.
use reka_serdoba.Common.{
  ℕ, ◌+◌, ◌≤◌, ◌≡◌, ◌∙◌, refl, sym, ap, ap₂, subst, true, false, some, List, [], ◌∷◌, ◌++◌,
  append_assoc, append-nil, length, length-append, ltb, ◌==◌, Bool-cases, inl, inr, arith,
}
use reka_serdoba.Common.{slice, slice-append_left, slice-append_right, All}
use reka_serdoba.Common.Maps.{total}
use reka_serdoba.Fragment.{insert_ordered, overlaps, join}

-- No fragment is empty, each starts at or after the end of the one before it, and the last one ends
-- inside the packet.
abbrev pub AreOrdered : ℕ → ℕ → List (ℕ × List ℕ) → Type 0
AreOrdered len from [] = from ≤ len
AreOrdered len from ((o, d) ∷ fragments) =
    (from ≤ o) × (1 ≤ length d) × AreOrdered len (o + length d) fragments

-- The bytes of the fragments.
abbrev pub size : List (ℕ × List ℕ) → ℕ
size fragments = total length fragments

abbrev pub bytes_of : List (ℕ × List ℕ) → List ℕ
bytes_of [] = []
bytes_of ((o, d) ∷ fragments) = d ++ bytes_of fragments

pub AreOrdered-size :
    (len from : ℕ) (fragments : List (ℕ × List ℕ))
    → AreOrdered len from fragments
    → from + size fragments ≤ len
AreOrdered-size len from [] h = omega (arith, h)
AreOrdered-size len from ((o, d) ∷ fragments) (h, k, hs) =
    omega (arith, h, AreOrdered-size len (o + length d) fragments hs)

pub size-insert_ordered :
    (offset : ℕ) (bytes : List ℕ) (fragments : List (ℕ × List ℕ))
    → 1 ≤ length bytes
    → overlaps offset (offset + length bytes) fragments ≡ false
    → (len from : ℕ) → AreOrdered len from fragments
    → size (insert_ordered offset bytes fragments) ≡ size fragments + length bytes
unfolding insert_ordered overlaps
size-insert_ordered offset bytes [] some_bytes apart len from h = omega arith
size-insert_ordered offset bytes ((o, d) ∷ fragments) some_bytes apart len from (h, k, hs) =
    elim (Bool-cases (ltb offset o)) [
      | inl e ↦ rw e (omega arith)
      | inr e ↦ rw e (elim (Bool-cases (offset == o)) [
        | inl f ↦ absurd (ground (arith, apart, f, some_bytes, k))
        | inr f ↦ rw f (
            omega (
              arith,
              size-insert_ordered offset bytes fragments some_bytes (ground (arith, apart)) len
                  (o + length d) hs,
            ))
      ])
    ]

-- A fragment that overlaps none fits in between.
pub insert_ordered-AreOrdered :
    (len from offset : ℕ) (bytes : List ℕ) (fragments : List (ℕ × List ℕ))
    → 1 ≤ length bytes
    → from ≤ offset
    → offset + length bytes ≤ len
    → overlaps offset (offset + length bytes) fragments ≡ false
    → AreOrdered len from fragments
    → AreOrdered len from (insert_ordered offset bytes fragments)
unfolding insert_ordered overlaps
insert_ordered-AreOrdered len from offset bytes [] some_bytes after inside apart h =
    (after, some_bytes, inside)
insert_ordered-AreOrdered len from offset bytes ((o, d) ∷ fragments) some_bytes after inside apart
      (h, k, hs) =
    elim (Bool-cases (ltb offset o)) [
      | inl e ↦ rw e (after, some_bytes, (ground (arith, e, apart, k), k, hs))
      | inr e ↦ rw e (elim (Bool-cases (offset == o)) [
        | inl f ↦ absurd (ground (arith, apart, f, some_bytes, k))
        | inr f ↦ rw f (
          h,
          k,
          insert_ordered-AreOrdered len (o + length d) offset bytes fragments some_bytes
              (ground (arith, e, f, apart, some_bytes)) inside (ground (arith, apart)) hs,
        )
      ])
    ]

-- Fragments that make up the whole packet leave no gap.
pub join-AreOrdered :
    (len from : ℕ) (fragments : List (ℕ × List ℕ)) (packet : List ℕ)
    → AreOrdered len from fragments
    → from + size fragments ≡ len
    → join from fragments packet ≡ some (len, packet ++ bytes_of fragments)
unfolding join
join-AreOrdered len from [] packet h e =
    ap₂ (λ (n : ℕ) p. some (n, p)) (omega (arith, e)) (sym (append-nil packet))
join-AreOrdered len from ((o, d) ∷ fragments) packet (h, k, hs) e = rw test (
    join-AreOrdered len (from + length d) fragments (packet ++ d)
      (subst (λ (i : ℕ). AreOrdered len (i + length d) fragments) here hs) (omega (arith, e))
    ∙ ap (λ p. some (len, p)) (append_assoc packet d (bytes_of fragments)))
  where
    here : o ≡ from
    here = omega (arith, h, e, AreOrdered-size len (o + length d) fragments hs)

    test : (o == from) ≡ true
    test = ground (arith, here)

pub length-bytes_of : (fragments : List (ℕ × List ℕ)) → length (bytes_of fragments) ≡ size fragments
length-bytes_of [] = refl
length-bytes_of ((o, d) ∷ fragments) =
    omega (arith, length-append {0} d (bytes_of fragments), length-bytes_of fragments)

-- A fragment stands in the packet at its offset.
abbrev pub IsPlaced : List ℕ → ℕ × List ℕ → Type 0
IsPlaced packet (o, d) = slice o (o + length d) packet ≡ d

IsPlaced-after :
    (len from : ℕ) (fragments : List (ℕ × List ℕ)) (before : List ℕ)
    → AreOrdered len from fragments
    → from + size fragments ≡ len
    → length before ≡ from
    → All (IsPlaced (before ++ bytes_of fragments)) fragments
IsPlaced-after len from [] before h e l = tt
IsPlaced-after len from ((o, d) ∷ fragments) before (h, k, hs) e l = (
  ap (λ (i : ℕ). slice i (i + length d) (before ++ (d ++ bytes_of fragments))) here
      ∙ slice-append_right from from (from + length d) before (d ++ bytes_of fragments) l
          (omega arith)
      ∙ ap₂ (λ (i j : ℕ). slice i j (d ++ bytes_of fragments)) (omega arith) (omega arith)
      ∙ slice-append_left (length d) d (bytes_of fragments) refl,
  subst (λ (p : List ℕ). All (IsPlaced p) fragments) (append_assoc before d (bytes_of fragments))
      (IsPlaced-after len (from + length d) fragments (before ++ d)
        (subst (λ (i : ℕ). AreOrdered len (i + length d) fragments) here hs) (omega (arith, e))
        (omega (arith, l, length-append {0} before d))),
)
  where
    here : o ≡ from
    here = omega (arith, h, e, AreOrdered-size len (o + length d) fragments hs)

-- In a packet without gaps every fragment stands at its offset.
pub bytes_of-IsPlaced :
    (len : ℕ) (fragments : List (ℕ × List ℕ))
    → AreOrdered len 0 fragments
    → size fragments ≡ len
    → All (IsPlaced (bytes_of fragments)) fragments
bytes_of-IsPlaced len fragments h e = IsPlaced-after len 0 fragments [] h (omega (arith, e)) refl
