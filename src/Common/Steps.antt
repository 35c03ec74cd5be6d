-- ===== src/Common/Steps.antt =====
-- Fallible operations on a state, as methods on `&mut self` that return a `Result` are: an error
-- keeps what was written before it.
use mathlib.Core.Path.{◌≡◌, refl}
use mathlib.Core.Bool.{Bool, true, false}
use reka_serdoba.Common.Results.{Result, ok, err, bail_if}

abbrev pub Step {ℓ κ μ} : Type ℓ → Type κ → Type μ → Type (ℓ ⊔ κ ⊔ μ)
Step S E A = S → S × Result E A

module _ {ℓ κ} {S : Type ℓ} {E : Type κ} where
  unfoldable pub continue {μ ν} :
      {A : Type μ} {B : Type ν} → S × Result E A → (A → Step S E B) → S × Result E B
  continue (s, ok a) next = next a s
  continue (s, err e) next = (s, err e)

  -- A chain of calls that end in `?`.
  infixl 5 ◌>>=◌
  abbrev pub ◌>>=◌ {μ ν} : {A : Type μ} {B : Type ν} → Step S E A → (A → Step S E B) → Step S E B
  (first >>= next) s = continue (first s) next

  infixl 5 ◌>>◌
  abbrev pub ◌>>◌ {ν} : {B : Type ν} → Step S E (Unit {0}) → Step S E B → Step S E B
  (first >> next) s = continue (first s) (λ done. next)

  abbrev pub lift {μ} : {A : Type μ} → Result E A → Step S E A
  lift r s = (s, r)

  abbrev pub pure {μ} : {A : Type μ} → A → Step S E A
  pure a s = (s, ok a)

  abbrev pub get : Step S E S
  get s = (s, ok s)

  abbrev pub modify : (S → S) → Step S E (Unit {0})
  modify f s = (f s, ok tt)

-- What a step keeps, whether it ends in a value or in an error.
abbrev pub Keeps {ℓ κ μ ρ} :
    {S : Type ℓ} {E : Type κ} {A : Type μ} → (S → Type ρ) → Step S E A → Type (ℓ ⊔ ρ)
Keeps {S = S} P m = (s : S) → P s → P (m s).0

module _ {ℓ κ μ ν ρ σ} {S : Type ℓ} {E : Type κ} {A : Type μ} {B : Type ν} (P : S → Type ρ)
    (Q : S → Type σ) where
  -- A chain: the first call keeps `P`, which is enough on an error, and what follows gives `Q`.
  pub through :
      (x : S × Result E A) (next : A → Step S E B)
      → P x.0
      → ((s : S) → P s → Q s)
      → ((a : A) (s : S) → P s → Q (next a s).0)
      → Q (continue x next).0
  unfolding continue
  through (s, ok a) next p weaken after = after a s p
  through (s, err e) next p weaken after = weaken s p

module _ {ℓ κ μ ν σ} {S : Type ℓ} {E : Type κ} {A : Type μ} {B : Type ν} (Q : S → Type σ) where
  -- A chain that starts with a result: what follows may use its value.
  pub through-lift :
      (s : S) (r : Result E A) (next : A → Step S E B)
      → Q s
      → ((a : A) → r ≡ ok a → Q (next a s).0)
      → Q (continue (s, r) next).0
  unfolding continue
  through-lift s (ok a) next weak after = after a refl
  through-lift s (err e) next weak after = weak

  -- A chain that starts with a value.
  pub through_ok :
      (s : S) (a : A) (next : A → Step S E B) → Q (next a s).0 → Q (continue (s, ok a) next).0
  unfolding continue
  through_ok s a next q = q

-- A chain that ended in a value: so did its first call.
pub continue-ok {ℓ κ μ ν} :
    {S : Type ℓ} {E : Type κ} {A : Type μ} {B : Type ν} (x : S × Result E A) (next : A → Step S E B)
    (s : S) (b : B)
    → continue x next ≡ (s, ok b)
    → (a : A) × (x.1 ≡ ok a) × (next a x.0 ≡ (s, ok b))
unfolding continue
continue-ok (t, ok a) next s b e = (a, refl, e)
continue-ok (t, err f) next s b e = absurd (cc e)

pub continue_value {ℓ κ μ ν} :
    {S : Type ℓ} {E : Type κ} {A : Type μ} {B : Type ν} (s : S) (a : A) (next : A → Step S E B)
    {z : S × Result E B}
    → continue (s, ok a) next ≡ z
    → next a s ≡ z
unfolding continue
continue_value s a next e = e

-- A chain inside the first call of a chain.
pub continue_assoc {ℓ κ μ ν ρ} :
    {S : Type ℓ} {E : Type κ} {A : Type μ} {B : Type ν} {C : Type ρ} (x : S × Result E A)
    (f : A → Step S E B) (g : B → Step S E C)
    → continue (continue x f) g ≡ continue x (λ a s. continue (f a s) g)
unfolding continue
continue_assoc (s, ok a) f g = refl
continue_assoc (s, err e) f g = refl

-- A check that a chain has passed; what follows is given to a continuation.
pub bail_then {ℓ κ ν ρ} :
    {S : Type ℓ} {E : Type κ} {B : Type ν} {G : Type ρ} (b : Bool) (e : E)
    (next : Unit {0} → Step S E B) (s t : S) (x : B)
    → continue (s, bail_if b e) next ≡ (t, ok x)
    → (b ≡ false → next tt s ≡ (t, ok x) → G)
    → G
unfolding continue
bail_then false e next s t x h then = then refl h
bail_then true e next s t x h then = absurd (cc h)

-- A result that a chain has passed.
pub lift_then {ℓ κ μ ν ρ} :
    {S : Type ℓ} {E : Type κ} {A : Type μ} {B : Type ν} {G : Type ρ} (r : Result E A)
    (next : A → Step S E B) (s t : S) (x : B)
    → continue (s, r) next ≡ (t, ok x)
    → ((a : A) → r ≡ ok a → next a s ≡ (t, ok x) → G)
    → G
unfolding continue
lift_then (ok a) next s t x h then = then a refl h
lift_then (err e) next s t x h then = absurd (cc h)

-- A check at the end of a chain.
pub bail_last {ℓ κ} :
    {S : Type ℓ} {E : Type κ} (b : Bool) (e : E) (s t : S)
    → Path (S × Result E (Unit {0})) (s, bail_if b e) (t, ok tt)
    → b ≡ false
bail_last false e s t h = refl
bail_last true e s t h = absurd (cc h)

-- A chain keeps what both its parts keep; a check or a result that fails keeps everything.
pub Keeps-chain {ℓ κ μ ν ρ} :
    {S : Type ℓ} {E : Type κ} {A : Type μ} {B : Type ν} (P : S → Type ρ) (m : Step S E A)
    (next : A → Step S E B)
    → Keeps P m
    → ((a : A) → Keeps P (next a))
    → Keeps P (m >>= next)
Keeps-chain P m next first after s h =
    through P P (m s) next (first s h) (λ t k. k) (λ a t k. after a t k)

-- A chain whose rest depends on the value of its first call.
pub through_result {ℓ κ μ ν σ} :
    {S : Type ℓ} {E : Type κ} {A : Type μ} {B : Type ν} (Q : S → Type σ) (x : S × Result E A)
    (next : A → Step S E B)
    → Q x.0
    → ((a : A) → x.1 ≡ ok a → Q (next a x.0).0)
    → Q (continue x next).0
unfolding continue
through_result Q (s, ok a) next weak after = after a refl
through_result Q (s, err e) next weak after = weak

pub Keeps-lift {ℓ κ μ ν ρ} :
    {S : Type ℓ} {E : Type κ} {A : Type μ} {B : Type ν} (P : S → Type ρ) (r : Result E A)
    (next : A → Step S E B)
    → ((a : A) → Keeps P (next a))
    → Keeps P (lift r >>= next)
Keeps-lift P r next after s h = through-lift P s r next h (λ a e. after a s h)
