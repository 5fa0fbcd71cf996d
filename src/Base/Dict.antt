-- ===== src/Base/Dict.antt =====
-- Go maps with string keys, as association lists; a write replaces the entry of its key.
use Prim.Native.String.{String}
use mathlib.Core.Path.{◌≡◌, refl}
use mathlib.Core.Bool.{false}
use mathlib.Core.Logic.{inl, inr}
use mathlib.Core.Option.{Option, none, some}
use mathlib.Core.List.{List, [], ◌∷◌}
use native.Mathlib.Omega.{arith}
use text.Mathlib.TextEquality.{eq_iff}
use text.Mathlib.TextPositions.{eq_refl}
use sentrymesh.Base.Tests.{str_eq, if◌then◌else◌, Bool-cases}

abbrev pub StringMap {ℓ} : Type ℓ → Type ℓ
StringMap A = List (String × A)

module _ {ℓ} {A : Type ℓ} where
  unfoldable pub lookup : String → StringMap A → Option A
  lookup key [] = none
  lookup key (entry ∷ rest) = if str_eq entry.0 key then some entry.1 else lookup key rest

  unfoldable pub insert : String → A → StringMap A → StringMap A
  insert key value [] = (key, value) ∷ []
  insert key value (entry ∷ rest) =
      if str_eq entry.0 key then (key, value) ∷ rest else entry ∷ insert key value rest

  -- What a write shows at its own key.
  pub lookup-insert_self :
      (key : String) (value : A) (d : StringMap A) → lookup key (insert key value d) ≡ some value
  unfolding lookup insert
  lookup-insert_self key value [] = rw (eq_refl key) refl
  lookup-insert_self key value (entry ∷ rest) = elim (Bool-cases (str_eq entry.0 key)) [
    | inl hit ↦ rw hit (rw (eq_refl key) refl)
    | inr miss ↦ rw miss (rw miss (lookup-insert_self key value rest))
  ]

  -- And at every other key.
  pub lookup-insert_ne :
      (key other : String) (value : A) (d : StringMap A)
      → str_eq key other ≡ false
      → lookup other (insert key value d) ≡ lookup other d
  unfolding lookup insert
  lookup-insert_ne key other value [] apart = rw apart refl
  lookup-insert_ne key other value (entry ∷ rest) apart = ground (
    arith,
    lookup-insert_ne key other value rest apart,
    eq_iff entry.0 key,
    eq_iff key other,
    eq_iff entry.0 other,
  )
