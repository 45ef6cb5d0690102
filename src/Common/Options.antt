-- ===== src/Common/Options.antt =====
-- Values that may be null or undefined.
use mathlib.Core.Bool.{Bool, true, false}
use mathlib.Core.Logic.{◌⊎◌, inl, inr}
use mathlib.Core.Option.{Option, none, some}
use mathlib.Core.Path.{◌≡◌, refl}

module _ {ℓ} {A : Type ℓ} where
  -- x != null
  abbrev pub is_some : Option A → Bool
  is_some none = false
  is_some (some x) = true

  -- x ?? y
  abbrev pub or_else : Option A → Option A → Option A
  or_else none y = y
  or_else (some x) y = some x

  -- x != null && p(x)
  abbrev pub some_and : Option A → (A → Bool) → Bool
  some_and none p = false
  some_and (some x) p = p x

  -- x === y, for values that are null or undefined, or compared by `eq`
  abbrev pub same_option : (A → A → Bool) → Option A → Option A → Bool
  same_option eq none none = true
  same_option eq (some x) (some y) = eq x y
  same_option eq _ _ = false

  pub Option-cases : (o : Option A) → (o ≡ none) ⊎ ((a : A) × (o ≡ some a))
  Option-cases none = inl refl
  Option-cases (some a) = inr (a, refl)

pub some_injective {ℓ} : {A : Type ℓ} {a b : A} → some a ≡ some b → a ≡ b
some_injective h = cc
