-- ===== src/Record/Keys/Nonce.antt =====
-- No two record numbers share a nonce.
use reka_serdoba.Common.{
  ℕ, ◌^◌, ◌<◌, ◌≡◌, ◌∙◌, refl, sym, ap, bit_xor, List, [], ◌∷◌, length, length-drop, take, drop,
  drop-append, length-take, arith,
}
use reka_serdoba.Common.Bits.{bit_xor_cancel}
use reka_serdoba.Common.Words.{to_be, from_be, length-to_be, from_be-to_be}
use reka_serdoba.Record.Keys.{zip_xor, nonce}

xor_injective : (a b c : ℕ) → bit_xor a b ≡ bit_xor a c → b ≡ c
xor_injective a b c e = sym (bit_xor_cancel a b) ∙ ap (bit_xor a) e ∙ bit_xor_cancel a c

zip_xor_injective :
    (slots xs ys : List ℕ)
    → length slots ≡ length xs
    → length slots ≡ length ys
    → zip_xor slots xs ≡ zip_xor slots ys
    → xs ≡ ys
unfolding zip_xor
zip_xor_injective [] [] [] hx hy e = refl
zip_xor_injective [] [] (y ∷ ys) hx hy e = absurd (omega arith)
zip_xor_injective [] (x ∷ xs) ys hx hy e = absurd (omega arith)
zip_xor_injective (s ∷ slots) [] ys hx hy e = absurd (omega arith)
zip_xor_injective (s ∷ slots) (x ∷ xs) [] hx hy e = absurd (omega arith)
zip_xor_injective (s ∷ slots) (x ∷ xs) (y ∷ ys) hx hy e =
    ground (arith, xor_injective s x y, zip_xor_injective slots xs ys)

-- Under one iv of twelve bytes, numbers of 64 bits with the same nonce are the same.
pub nonce_injective :
    (iv : List ℕ) (n m : ℕ)
    → length iv ≡ 12
    → n < 2 ^ 64
    → m < 2 ^ 64
    → nonce iv n ≡ nonce iv m
    → n ≡ m
nonce_injective iv n m len hn hm e =
    sym (from_be-to_be 8 n hn)
    ∙ ap from_be (
        zip_xor_injective (drop 4 iv) (to_be 8 n) (to_be 8 m)
          (omega (arith, length-drop {0} 4 iv, length-to_be 8 n))
          (omega (arith, length-drop {0} 4 iv, length-to_be 8 m))
          (tails n ∙ ap (drop 4) e ∙ sym (tails m)))
    ∙ from_be-to_be 8 m hm
  where
    tails : (k : ℕ) → zip_xor (drop 4 iv) (to_be 8 k) ≡ drop 4 (nonce iv k)
    tails k =
        unfold nonce in sym (drop-append 4 (take 4 iv) _ (omega (arith, length-take {0} 4 iv)))
