-- ===== src/Base/Outcome.antt =====
-- What a Go function that returns `(value, error)` gives back, and chains of lookups and parses.
use mathlib.Core.Option.{Option, none, some}

pub data Result {ℓ κ} (E : Type κ) (A : Type ℓ) : Type (ℓ ⊔ κ) where
  ok : A → Result E A
  err : E → Result E A

infixl 5 ◌>>=◌
abbrev pub ◌>>=◌ {ℓ κ} : {A : Type ℓ} {B : Type κ} → Option A → (A → Option B) → Option B
none >>= k = none
some a >>= k = k a

-- What a caller that only tests `err != nil` sees.
abbrev pub value {ℓ κ} : {E : Type κ} {A : Type ℓ} → Result E A → Option A
value (ok a) = some a
value (err e) = none
