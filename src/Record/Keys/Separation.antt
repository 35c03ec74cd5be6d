-- ===== src/Record/Keys/Separation.antt =====
-- The `info` strings of `expand` (rekaserdoba/src/record.rs).
use reka_serdoba.Common.{ℕ, ◌≤◌, ◌<◌, ◌^◌, ◌≡◌, ◌∙◌, sym, ap, List, length, append_inj, arith}
use reka_serdoba.Common.Words.{to_be, from_be, length-to_be, from_be-to_be}
use reka_serdoba.Record.Keys.{hkdf_info}

word_inj : (k n m : ℕ) → n < 256 ^ k → m < 256 ^ k → to_be k n ≡ to_be k m → n ≡ m
word_inj k n m hn hm e = sym (from_be-to_be k n hn) ∙ ap from_be e ∙ from_be-to_be k m hm

same_len : (k n m : ℕ) → length (to_be k n) ≡ length (to_be k m)
same_len k n m = length-to_be k n ∙ sym (length-to_be k m)

-- Labels and contexts within the limits of `expand`, and lengths of 16 bits, can be read off the
-- `info` string: different uses of one key never get the same string.
pub hkdf_info_injective :
    (label label' context context' : List ℕ) (len len' : ℕ)
    → length label ≤ 255
    → length label' ≤ 255
    → length context ≤ 65535
    → length context' ≤ 65535
    → len ≤ 65535
    → len' ≤ 65535
    → hkdf_info label context len ≡ hkdf_info label' context' len'
    → (label ≡ label') × (context ≡ context') × (len ≡ len')
unfolding hkdf_info
hkdf_info_injective label label' context context' len len' hl hl' hc hc' hn hn' e =
    let p = append_inj (to_be 2 len) (to_be 2 len') (same_len 2 len len') e in
    let q = append_inj (to_be 1 (length label)) (to_be 1 (length label')) (same_len 1 _ _) p.1 in
    let r =
      append_inj label label'
        (word_inj 1 (length label) (length label') (omega arith) (omega arith) q.0) q.1 in
    let s =
      append_inj (to_be 2 (length context)) (to_be 2 (length context')) (same_len 2 _ _) r.1 in
    (r.0, s.1, word_inj 2 len len' (omega arith) (omega arith) p.0)
