-- ===== src/Handshake/Cursor/Taken.antt =====
-- What is known of a chain of reads of a `Cursor` (rekaserdoba/src/main.rs) that ended in a value.
use reka_serdoba.Common.{
  ℕ, ◌+◌, ◌-◌, ◌^◌, ◌≤◌, ◌≡◌, ◌∙◌, sym, ap, refl, inl, inr, true, false, List, [], ◌∷◌, ◌++◌,
  length, length-append, length-take, length-drop, take, drop, take-append-drop, All-take, All-drop,
  slice, drop-drop, ltb, ◌==◌, Bool-cases, ==_iff, ok, arith,
}
use reka_serdoba.Common.Steps.{continue, continue_assoc, pure}
use reka_serdoba.Common.Words.{IsByte, AreBytes, from_be}
use reka_serdoba.Handshake.Cursor.{
  Cursor, CursorStep, new, take_bytes, fixed, word, skip, finish, rest, IsAt,
}

-- What a read of `n` bytes of `xs` has found.
pub record Read (n : ℕ) (c : Cursor) (xs : List ℕ) : Type 0 where
  pub value : List ℕ
  pub after : Cursor
  pub len : length value ≡ n
  pub octets : AreBytes value
  pub split : xs ≡ value ++ rest after
  pub pos : after.pos ≡ c.pos + n
  pub stands : IsAt after (rest after)

-- In a chain that ended in a value, the read found its bytes.
pub take_bytes_next :
    (n : ℕ) (c : Cursor) (xs : List ℕ) {B : Type 0} (next : List ℕ → CursorStep B) (s : Cursor)
    (b : B)
    → IsAt c xs
    → continue (take_bytes n c) next ≡ (s, ok b)
    → (r : Read n c xs) × (next r.value r.after ≡ (s, ok b))
unfolding take_bytes slice continue
take_bytes_next n c xs next s b h e = elim (Bool-cases (ltb (c.pos + n) (2 ^ 64))) [
  | inr f ↦ absurd (cc (rw (take_bytes, f, continue) at e))
  | inl f ↦ elim (Bool-cases (ltb (length c.bytes) (c.pos + n))) [
    | inl g ↦ absurd (cc (rw (take_bytes, f, g, continue) at e))
    | inr g ↦
        let there : c.pos + n ≤ length c.bytes = ground (arith, g) in
        let value : take (c.pos + n - c.pos) (drop c.pos c.bytes) ≡ take n (drop c.pos c.bytes) =
          ap (λ (k : ℕ). take k (drop c.pos c.bytes)) (omega arith) in
        (
          record {
            value = take n (drop c.pos c.bytes);
            after = record c { pos = c.pos + n };
            len =
                omega (arith, length-take n (drop c.pos c.bytes), length-drop c.pos c.bytes, there);
            octets =
                All-take IsByte n (drop c.pos c.bytes) (All-drop IsByte c.pos c.bytes h.octets);
            split =
                sym h.left
                ∙ sym (take-append-drop n (drop c.pos c.bytes))
                ∙ ap (λ (l : List ℕ). take n (drop c.pos c.bytes) ++ l) (drop-drop c.pos n c.bytes);
            pos = refl;
            stands = record { inside = there; short = h.short; left = refl; octets = h.octets };
          },
          sym (ap (λ x. continue x next) (taken f g value)) ∙ e,
        )
  ]
]
  where
    taken :
        ltb (c.pos + n) (2 ^ 64) ≡ true
        → ltb (length c.bytes) (c.pos + n) ≡ false
        → take (c.pos + n - c.pos) (drop c.pos c.bytes) ≡ take n (drop c.pos c.bytes)
        → take_bytes n c ≡ (record c { pos = c.pos + n }, ok (take n (drop c.pos c.bytes)))
    taken f g value = rw (f, g, value) refl

-- The same, with what follows given to a continuation, for each of the reads.
pub fixed_then {ρ} :
    {B : Type 0} {G : Type ρ} (n : ℕ) (c : Cursor) (xs : List ℕ) (next : List ℕ → CursorStep B)
    (s : Cursor) (b : B)
    → IsAt c xs
    → continue (fixed n c) next ≡ (s, ok b)
    → ((r : Read n c xs) → next r.value r.after ≡ (s, ok b) → G)
    → G
unfolding fixed
fixed_then n c xs next s b h e after = let x = take_bytes_next n c xs next s b h e in after x.0 x.1

pub word_then {ρ} :
    {B : Type 0} {G : Type ρ} (n : ℕ) (c : Cursor) (xs : List ℕ) (next : ℕ → CursorStep B)
    (s : Cursor) (b : B)
    → IsAt c xs
    → continue (word n c) next ≡ (s, ok b)
    → ((r : Read n c xs) → next (from_be r.value) r.after ≡ (s, ok b) → G)
    → G
unfolding word fixed continue
word_then n c xs next s b h e after =
    fixed_then n c xs (λ bytes. next (from_be bytes)) s b h
      (sym (continue_assoc (take_bytes n c) (λ bytes. pure (from_be bytes)) next) ∙ e) after

pub skip_then {ρ} :
    {B : Type 0} {G : Type ρ} (n : ℕ) (c : Cursor) (xs : List ℕ) (next : Unit {0} → CursorStep B)
    (s : Cursor) (b : B)
    → IsAt c xs
    → continue (skip n c) next ≡ (s, ok b)
    → ((r : Read n c xs) → next tt r.after ≡ (s, ok b) → G)
    → G
unfolding skip fixed continue
skip_then n c xs next s b h e after =
    fixed_then n c xs (λ bytes. next tt) s b h
      (sym (continue_assoc (take_bytes n c) (λ bytes. pure tt) next) ∙ e) after

pub finish_then {ρ} :
    {B : Type 0} {G : Type ρ} (c : Cursor) (next : Unit {0} → CursorStep B) (s : Cursor) (b : B)
    → IsAt c (rest c)
    → continue (finish c) next ≡ (s, ok b)
    → (rest c ≡ [] → next tt c ≡ (s, ok b) → G)
    → G
unfolding finish continue
finish_then c next s b h e after = elim (Bool-cases (c.pos == length c.bytes)) [
  | inr f ↦ absurd (cc (rw (finish, f, continue) at e))
  | inl f ↦
      after
        (nothing_left (rest c)
          (omega (arith, length-drop c.pos c.bytes, (==_iff c.pos (length c.bytes)).0 f)))
        (sym (ap (λ x. continue x next) (ended f)) ∙ e)
]
  where
    ended : (c.pos == length c.bytes) ≡ true → finish c ≡ (c, ok tt)
    ended f = rw f refl

    nothing_left : (l : List ℕ) → length l ≡ 0 → l ≡ []
    nothing_left [] k = refl
    nothing_left (x ∷ l) k = absurd (omega arith)

-- A read takes its bytes off what is left.
pub Read-len :
    (n : ℕ) (c : Cursor) (xs : List ℕ) (r : Read n c xs) → length xs ≡ n + length (rest r.after)
Read-len n c xs r =
    omega (
      arith,
      ap (λ (l : List ℕ). length l) r.split,
      length-append {0} r.value (rest r.after),
      r.len,
    )

-- The position and what is left add up to the same.
pub Read-total :
    (n : ℕ) (c : Cursor) (xs : List ℕ) (r : Read n c xs)
    → c.pos + length xs ≡ r.after.pos + length (rest r.after)
Read-total n c xs r = omega (arith, Read-len n c xs r, r.pos)

pub new_pos : (xs : List ℕ) → (new xs).pos ≡ 0
unfolding new
new_pos xs = refl
