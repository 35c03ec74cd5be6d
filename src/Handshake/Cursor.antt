-- ===== src/Handshake/Cursor.antt =====
-- `Cursor` (rekaserdoba/src/main.rs), a position in a byte string, and how its reads take a string
-- apart.
pub mod Taken
use reka_serdoba.Common.{
  ℕ, ◌+◌, ◌-◌, ◌^◌, ◌≤◌, ◌<◌, ◌≡◌, ◌∙◌, sym, ap, refl, inl, inr, not, true, false, List, [], ◌∷◌,
  ◌++◌, length, length-append, length-take, length-drop, take, drop, take-append, drop-append,
  take-append-drop, All-take, All-drop, slice, drop-drop, ltb, ◌==◌, if◌then◌else◌, Bool-cases,
  ==_iff, Result, ok, err, arith,
}
use reka_serdoba.Common.Steps.{Step, continue, continue_assoc, ◌>>=◌, pure}
use reka_serdoba.Common.Words.{IsByte, AreBytes, to_be, from_be, length-to_be, from_be-to_be}
use reka_serdoba.Errors.{Error, cursor_overflow, truncated_input, trailing_bytes}

pub record Cursor : Type 0 where
  pub bytes : List ℕ
  pub pos : ℕ

abbrev pub CursorStep : Type 0 → Type 0
CursorStep A = Step Cursor Error A

unfoldable pub new : List ℕ → Cursor
new bytes = record { bytes = bytes; pos = 0 }

-- `take`; a `usize` has 64 bits.
unfoldable pub take_bytes : ℕ → CursorStep (List ℕ)
take_bytes len c =
    if not (ltb (c.pos + len) (2 ^ 64))
    then (c, err cursor_overflow)
    else if ltb (length c.bytes) (c.pos + len)
    then (c, err truncated_input)
    else (record c { pos = c.pos + len }, ok (slice c.pos (c.pos + len) c.bytes))

-- `fixed::<N>`, which cannot fail once the bytes are there.
unfoldable pub fixed : ℕ → CursorStep (List ℕ)
unfolding take_bytes
fixed n = take_bytes n

-- `u16`, `u32` and `u64`, by the number of their bytes.
unfoldable pub word : ℕ → CursorStep ℕ
word n = do bytes ← fixed n; pure (from_be bytes)

unfoldable pub skip : ℕ → CursorStep (Unit {0})
skip len = do bytes ← take_bytes len; pure tt

unfoldable pub finish : CursorStep (Unit {0})
finish c = if not (c.pos == length c.bytes) then (c, err trailing_bytes) else (c, ok tt)

-- The bytes that are left, and a position inside.
abbrev pub rest : Cursor → List ℕ
rest c = drop c.pos c.bytes

-- The cursor stands before `xs`.
pub record IsAt (c : Cursor) (xs : List ℕ) : Type 0 where
  pub inside : c.pos ≤ length c.bytes
  pub short : length c.bytes < 2 ^ 64
  pub left : rest c ≡ xs
  pub octets : AreBytes c.bytes

pub new-IsAt : (xs : List ℕ) → AreBytes xs → length xs < 2 ^ 64 → IsAt (new xs) xs
unfolding new
new-IsAt xs bytes h = record { inside = omega arith; short = h; left = refl; octets = bytes }

left_len : (c : Cursor) (xs : List ℕ) → IsAt c xs → length c.bytes ≡ c.pos + length xs
left_len c xs h =
    omega (arith, length-drop c.pos c.bytes, ap (λ (l : List ℕ). length l) h.left, h.inside)

-- A read of `n` bytes when there are as many.
pub take_bytes-IsAt :
    (n : ℕ) (c : Cursor) (v r : List ℕ)
    → IsAt c (v ++ r)
    → length v ≡ n
    → (c' : Cursor) × (take_bytes n c ≡ (c', ok v)) × (c'.pos ≡ c.pos + n) × IsAt c' r
unfolding take_bytes slice
take_bytes-IsAt n c v r h e =
    let len : length c.bytes ≡ c.pos + (length v + length r) =
      omega (arith, left_len c (v ++ r) h, length-append {0} v r) in
    let fits : ltb (c.pos + n) (2 ^ 64) ≡ true = ground (arith, len, e, h.short) in
    let there : ltb (length c.bytes) (c.pos + n) ≡ false = ground (arith, len, e) in
    let value : take (c.pos + n - c.pos) (drop c.pos c.bytes) ≡ v =
      ap (take (c.pos + n - c.pos)) h.left
      ∙ take-append (c.pos + n - c.pos) v r (omega (arith, e)) in
    (
      record c { pos = c.pos + n },
      rw (fits, there, value) refl,
      refl,
      record {
        inside = omega (arith, len, e);
        short = h.short;
        left = sym (drop-drop c.pos n c.bytes) ∙ ap (drop n) h.left ∙ drop-append n v r e;
        octets = h.octets;
      },
    )

-- A chain that starts with a read of bytes that are there.
pub fixed_reads :
    {B : Type 0} (n : ℕ) (c : Cursor) (v r : List ℕ) (next : List ℕ → CursorStep B)
    (y : Result Error B)
    → IsAt c (v ++ r)
    → length v ≡ n
    → ((c' : Cursor) → IsAt c' r → (next v c').1 ≡ y)
    → (continue (fixed n c) next).1 ≡ y
unfolding fixed continue
fixed_reads n c v r next y h e after =
    let x = take_bytes-IsAt n c v r h e in ap (λ z. (continue z next).1) x.1 ∙ after x.0 x.3

pub word_reads :
    {B : Type 0} (n w : ℕ) (c : Cursor) (r : List ℕ) (next : ℕ → CursorStep B) (y : Result Error B)
    → IsAt c (to_be n w ++ r)
    → w < 256 ^ n
    → ((c' : Cursor) → IsAt c' r → (next w c').1 ≡ y)
    → (continue (word n c) next).1 ≡ y
unfolding word fixed continue
word_reads n w c r next y h k after =
    ap (λ z. z.1) (continue_assoc (take_bytes n c) (λ bytes. pure (from_be bytes)) next)
    ∙ fixed_reads n c (to_be n w) r (λ bytes. next (from_be bytes)) y h (length-to_be n w)
        (λ c' at_r. ap (λ (a : ℕ). (next a c').1) (from_be-to_be n w k) ∙ after c' at_r)

pub skip_reads :
    {B : Type 0} (n : ℕ) (c : Cursor) (v r : List ℕ) (next : Unit {0} → CursorStep B)
    (y : Result Error B)
    → IsAt c (v ++ r)
    → length v ≡ n
    → ((c' : Cursor) → IsAt c' r → (next tt c').1 ≡ y)
    → (continue (skip n c) next).1 ≡ y
unfolding skip fixed continue
skip_reads n c v r next y h e after =
    ap (λ z. z.1) (continue_assoc (take_bytes n c) (λ bytes. pure tt) next)
    ∙ fixed_reads n c v r (λ bytes. next tt) y h e after

pub finish-IsAt : (c : Cursor) → IsAt c [] → finish c ≡ (c, ok tt)
unfolding finish
finish-IsAt c h =
    let done : (c.pos == length c.bytes) ≡ true = ground (arith, left_len c [] h) in rw done refl
