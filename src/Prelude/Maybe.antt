-- ===== src/Prelude/Maybe.antt =====
-- Chains of steps that may fail to give a value.
use mathlib.Core.Option.{Option, none, some, some-injective}
use mathlib.Core.Path.{◌≡◌, subst}

infixl 5 ◌>>=◌
abbrev pub ◌>>=◌ {ℓ κ} : {A : Type ℓ} {B : Type κ} → Option A → (A → Option B) → Option B
some a >>= f = f a
none >>= f = none

-- What holds of the pair that a call returns.
pub returns_pair {ℓ κ} :
    {A : Type ℓ} {B : Type κ} (P : A → B → Type 0) {a c : A} {b d : B}
    → ◌≡◌ {A = Option (A × B)} (some (a, b)) (some (c, d))
    → P a b
    → P c d
returns_pair {A} {B} P {a} {c} {b} {d} e h =
    let p = some-injective (a, b) (c, d) e in subst (λ (r : A × B). P r.0 r.1) p h

-- What holds of the value that a call returns.
pub returns {ℓ} : {A : Type ℓ} (P : A → Type 0) {a b : A} → some a ≡ some b → P a → P b
returns P {a} {b} e h = subst P (some-injective a b e) h
