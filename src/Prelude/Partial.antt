-- ===== src/Prelude/Partial.antt =====
-- Computations that stop where the code would write outside of a buffer.
use mathlib.Core.Path.{◌≡◌, refl}
use mathlib.Core.Option.{Option, none, some}

infixl 5 ◌>>=◌
abbrev pub ◌>>=◌ {ℓ κ} : {A : Type ℓ} {B : Type κ} → Option A → (A → Option B) → Option B
none >>= f = none
some a >>= f = f a

-- There is a result, and it satisfies `P`.
abbrev pub Returns {ℓ} : {A : Type ℓ} → (A → Type 0) → Option A → Type 0
Returns P none = ⊥
Returns P (some a) = P a

pub >>=-Returns {ℓ κ} :
    {A : Type ℓ} {B : Type κ} (P : A → Type 0) (Q : B → Type 0) (m : Option A) (f : A → Option B)
    → Returns P m
    → ((a : A) → P a → Returns Q (f a))
    → Returns Q (m >>= f)
>>=-Returns P Q none f r h = absurd r
>>=-Returns P Q (some a) f r h = h a r

pub Returns-map {ℓ} :
    {A : Type ℓ} (P Q : A → Type 0) (m : Option A)
    → Returns P m
    → ((a : A) → P a → Q a)
    → Returns Q m
Returns-map P Q none r h = r
Returns-map P Q (some a) r h = h a r

pub Returns-eq {ℓ} :
    {A : Type ℓ} (P : A → Type 0) (m : Option A) → Returns P m → (a : A) × (m ≡ some a) × P a
Returns-eq P none r = absurd r
Returns-eq P (some a) r = (a, refl, r)
