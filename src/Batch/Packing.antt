-- ===== src/Batch/Packing.antt =====
-- Frames that are packed into records keep their order, and no record exceeds the capacity.
use reka_serdoba.Common.{
  ℕ, ◌+◌, ◌≤◌, ◌≡◌, ◌∙◌, refl, sym, ap, subst, true, false, not, ◌&&◌, List, [], ◌∷◌, ◌++◌,
  append_assoc, append-nil, length, length-append, All, All-append, concat, concat-append, ltb,
  Bool-cases, inl, inr, arith,
}
use reka_serdoba.Batch.{is_empty, pack}

-- A record that can be sent.
abbrev pub Fits : ℕ → List ℕ → Type 0
Fits capacity r = (1 ≤ length r) × (length r ≤ capacity)

nonempty : (r : List ℕ) → is_empty r ≡ false → 1 ≤ length r
nonempty [] e = absurd (cc e)
nonempty (b ∷ bs) e = omega arith

empty_nil : (r : List ℕ) → is_empty r ≡ true → length r ≡ 0
empty_nil [] e = refl
empty_nil (b ∷ bs) e = absurd (cc e)

-- What packing gives: records that fit, and the bytes in their order.
pub record Packed (capacity : ℕ) (bytes : List ℕ) (p : List (List ℕ) × List ℕ) : Type 0 where
  pub fit : All (Fits capacity) p.0
  pub open_len : length p.1 ≤ capacity
  pub joined : concat p.0 ++ p.1 ≡ bytes

pub pack-Packed :
    (capacity : ℕ) (frames records : List (List ℕ)) (plaintext bytes : List ℕ)
    → All (λ f. length f ≤ capacity) frames
    → Packed capacity bytes (records, plaintext)
    → Packed capacity (bytes ++ concat frames) (pack capacity frames records plaintext)
unfolding pack
pack-Packed capacity [] records plaintext bytes small h = record {
  fit = h.fit;
  open_len = h.open_len;
  joined = h.joined ∙ sym (append-nil bytes);
}
pack-Packed capacity (frame ∷ frames) records plaintext bytes (small, smalls) h =
    elim (Bool-cases (not (is_empty plaintext) && ltb capacity (length plaintext + length frame))) [
      | inl e ↦ rw e (
          subst (λ b. Packed capacity b (pack capacity frames (records ++ (plaintext ∷ [])) frame))
            (append_assoc bytes frame (concat frames))
            (pack-Packed capacity frames (records ++ (plaintext ∷ [])) frame (bytes ++ frame) smalls
              (record {
                fit =
                    All-append (Fits capacity) records (plaintext ∷ []) h.fit
                      ((nonempty plaintext (ground (arith, e)), h.open_len), tt);
                open_len = small;
                joined =
                    ap (λ t. t ++ frame)
                      (concat-append records (plaintext ∷ [])
                        ∙ ap (λ t. concat records ++ t) (append-nil plaintext)
                        ∙ h.joined);
              })))
      | inr e ↦ rw e (
          subst (λ b. Packed capacity b (pack capacity frames records (plaintext ++ frame)))
            (append_assoc bytes frame (concat frames))
            (pack-Packed capacity frames records (plaintext ++ frame) (bytes ++ frame) smalls
              (record {
                fit = h.fit;
                open_len = fits_still e;
                joined =
                    sym (append_assoc (concat records) plaintext frame)
                    ∙ ap (λ t. t ++ frame) h.joined;
              })))
    ]
  where
    fits_still :
        (not (is_empty plaintext) && ltb capacity (length plaintext + length frame)) ≡ false
        → length (plaintext ++ frame) ≤ capacity
    fits_still e = elim (Bool-cases (is_empty plaintext)) [
      | inl nothing ↦
          omega (arith, small, empty_nil plaintext nothing, length-append {0} plaintext frame)
      | inr something ↦ ground (arith, e, something, length-append {0} plaintext frame)
    ]
