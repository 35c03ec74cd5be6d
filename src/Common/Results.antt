-- ===== src/Common/Results.antt =====
-- The outcome of fallible code, and chains of it. `E` is a component's type of errors.
use mathlib.Core.Path.{◌≡◌, refl}
use mathlib.Core.Logic.{◌⊎◌, inl, inr}
use mathlib.Core.Bool.{Bool, true, false}
use mathlib.Core.Option.{Option, none, some}

pub data Result {ℓ κ} (E : Type κ) (A : Type ℓ) : Type (ℓ ⊔ κ) where
  ok : A → Result E A
  err : E → Result E A

module _ {κ} {E : Type κ} where
  -- `if b { bail!(e) }`
  abbrev pub bail_if : Bool → E → Result E (Unit {0})
  bail_if false e = ok tt
  bail_if true e = err e

  -- `.ok_or_else(|| e)?`
  abbrev pub ok_or {ℓ} : {A : Type ℓ} → Option A → E → Result E A
  ok_or (some a) e = ok a
  ok_or none e = err e

  pub Result-cases {ℓ} :
      {A : Type ℓ} (r : Result E A) → ((a : A) × (r ≡ ok a)) ⊎ ((e : E) × (r ≡ err e))
  Result-cases (ok a) = inl (a, refl)
  Result-cases (err e) = inr (e, refl)

  -- The `?` operator, in a chain.
  infixl 5 ◌>>=◌
  abbrev pub ◌>>=◌ {ℓ ℓ'} : {A : Type ℓ} {B : Type ℓ'} → Result E A → (A → Result E B) → Result E B
  err e >>= next = err e
  ok a >>= next = next a

  infixl 5 ◌>>◌
  abbrev pub ◌>>◌ {ℓ} : {B : Type ℓ} → Result E (Unit {0}) → Result E B → Result E B
  ok done >> next = next
  err e >> next = err e

  -- A chain that ends well has done so at each step.
  pub bind_ok {ℓ ℓ' ℓ''} :
      {A : Type ℓ} {B : Type ℓ'} {b : B} (P : Type ℓ'') (r : Result E A) (next : A → Result E B)
      → ((a : A) → r ≡ ok a → next a ≡ ok b → P)
      → r >>= next ≡ ok b
      → P
  bind_ok P (ok a) next then_P h = then_P a refl h
  bind_ok P (err e) next then_P h = absurd (cc h)

  pub bail_ok {ℓ ℓ'} :
      {B : Type ℓ} {x : B} (P : Type ℓ') (b : Bool) (e : E) (next : Result E B)
      → (b ≡ false → next ≡ ok x → P)
      → bail_if b e >> next ≡ ok x
      → P
  bail_ok P false e next then_P h = then_P refl h
  bail_ok P true e next then_P h = absurd (cc h)

  pub then_ok {ℓ ℓ'} :
      {B : Type ℓ} {x : B} (P : Type ℓ') (r : Result E (Unit {0})) (next : Result E B)
      → (next ≡ ok x → P)
      → r >> next ≡ ok x
      → P
  then_ok P (ok done) next then_P h = then_P h
  then_ok P (err e) next then_P h = absurd (cc h)

  -- The same, with what the first step gave.
  pub both_ok {ℓ ℓ'} :
      {B : Type ℓ} {x : B} (P : Type ℓ') (r : Result E (Unit {0})) (next : Result E B)
      → (r ≡ ok tt → next ≡ ok x → P)
      → r >> next ≡ ok x
      → P
  both_ok P (ok tt) next then_P h = then_P refl h
  both_ok P (err e) next then_P h = absurd (cc h)

  pub ok_or_ok {ℓ} : {A : Type ℓ} (o : Option A) (e : E) {a : A} → ok_or o e ≡ ok a → o ≡ some a
  ok_or_ok (some b) e h = cc h
  ok_or_ok none e h = absurd (cc h)

  pub ok_injective {ℓ} : {A : Type ℓ} {a b : A} → ◌≡◌ {A = Result E A} (ok a) (ok b) → a ≡ b
  ok_injective h = cc h
