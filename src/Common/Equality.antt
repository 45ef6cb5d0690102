-- ===== src/Common/Equality.antt =====
-- Deep equality, as lodash's isEqual decides it, of the types that configurations are made of.
use Prim.Native.Nat.{ℕ}
use Prim.Native.String.{String}
use mathlib.Core.Path.{◌≡◌, refl, ap}
use mathlib.Core.Logic.{◌↔◌}
use mathlib.Core.Bool.{Bool, true, false, ◌&&◌}
use mathlib.Core.Option.{Option, none, some}
use mathlib.Core.List.{List, [], ◌∷◌}
use native.Mathlib.Omega.{arith}
use text.Mathlib.Text.{◌==◌ as str_eq}
use text.Mathlib.TextEquality.{eq_iff}
use balena_supervisor.Common.Tests.{◌==◌}

-- A Boolean test that decides equality.
pub record Eq {ℓ} (A : Type ℓ) : Type ℓ where
  pub same : A → A → Bool
  pub same_iff : (a b : A) → (same a b ≡ true) ↔ (a ≡ b)

abbrev pub is_equal {ℓ} : {A : Type ℓ} ⦃e : Eq A⦄ → A → A → Bool
is_equal ⦃e⦄ = e.same

pub is_equal_self {ℓ} : {A : Type ℓ} ⦃e : Eq A⦄ (a : A) → is_equal a a ≡ true
is_equal_self ⦃e⦄ a = (e.same_iff a a).1 refl

pub eq_of_is_equal {ℓ} : {A : Type ℓ} ⦃e : Eq A⦄ (a b : A) → is_equal a b ≡ true → a ≡ b
eq_of_is_equal ⦃e⦄ a b h = (e.same_iff a b).0 h

-- An integer: `negsuc n` is -(n + 1).
pub data ℤ : Type 0 where
  pos : ℕ → ℤ
  negsuc : ℕ → ℤ

pub nat_iff : (a b : ℕ) → (a == b ≡ true) ↔ (a ≡ b)
nat_iff a b = (λ h. ground arith, λ h. ground arith)

abbrev pub equal_ints : ℤ → ℤ → Bool
equal_ints (pos a) (pos b) = a == b
equal_ints (negsuc a) (negsuc b) = a == b
equal_ints _ _ = false

pub int_iff : (a b : ℤ) → (equal_ints a b ≡ true) ↔ (a ≡ b)
int_iff (pos a) (pos b) = (λ h. ground arith, λ h. ground arith)
int_iff (pos a) (negsuc b) = (λ h. cc, λ h. cc)
int_iff (negsuc a) (pos b) = (λ h. cc, λ h. cc)
int_iff (negsuc a) (negsuc b) = (λ h. ground arith, λ h. ground arith)

abbrev pub equal_bools : Bool → Bool → Bool
equal_bools true b = b
equal_bools false true = false
equal_bools false false = true

pub bool_iff : (a b : Bool) → (equal_bools a b ≡ true) ↔ (a ≡ b)
bool_iff true true = (λ h. refl, λ h. refl)
bool_iff true false = (λ h. cc, λ h. cc)
bool_iff false true = (λ h. cc, λ h. cc)
bool_iff false false = (λ h. refl, λ h. refl)

module _ {ℓ} {A : Type ℓ} ⦃e : Eq A⦄ where
  abbrev pub equal_options : Option A → Option A → Bool
  equal_options none none = true
  equal_options (some a) (some b) = e.same a b
  equal_options _ _ = false

  pub option_iff : (a b : Option A) → (equal_options a b ≡ true) ↔ (a ≡ b)
  option_iff none none = (λ h. refl, λ h. refl)
  option_iff none (some b) = (λ h. cc, λ h. cc)
  option_iff (some a) none = (λ h. cc, λ h. cc)
  option_iff (some a) (some b) = (λ h. ap some ((e.same_iff a b).0 h), λ h. (e.same_iff a b).1 (cc))

  abbrev pub equal_lists : List A → List A → Bool
  equal_lists [] [] = true
  equal_lists (x ∷ xs) (y ∷ ys) = e.same x y && equal_lists xs ys
  equal_lists _ _ = false

  pub list_iff : (a b : List A) → (equal_lists a b ≡ true) ↔ (a ≡ b)
  list_iff [] [] = (λ h. refl, λ h. refl)
  list_iff [] (y ∷ ys) = (λ h. cc, λ h. cc)
  list_iff (x ∷ xs) [] = (λ h. cc, λ h. cc)
  list_iff (x ∷ xs) (y ∷ ys) = (
    λ h. ground (arith, (e.same_iff x y).0, (list_iff xs ys).0),
    λ h. ground (arith, (e.same_iff x y).1, (list_iff xs ys).1),
  )

module _ {ℓ κ} {A : Type ℓ} {B : Type κ} ⦃e : Eq A⦄ ⦃f : Eq B⦄ where
  abbrev pub equal_pairs : A × B → A × B → Bool
  equal_pairs (a, b) (c, d) = e.same a c && f.same b d

  pub pair_iff : (p q : A × B) → (equal_pairs p q ≡ true) ↔ (p ≡ q)
  pair_iff (a, b) (c, d) = (
    λ h. ground (arith, (e.same_iff a c).0, (f.same_iff b d).0),
    λ h. ground (arith, (e.same_iff a c).1, (f.same_iff b d).1),
  )

instance abbrev pub nat_eq : Eq ℕ
nat_eq = record { same = ◌==◌; same_iff = nat_iff }

instance abbrev pub int_eq : Eq ℤ
int_eq = record { same = equal_ints; same_iff = int_iff }

instance abbrev pub string_eq : Eq String
string_eq = record { same = str_eq; same_iff = eq_iff }

instance abbrev pub bool_eq : Eq Bool
bool_eq = record { same = equal_bools; same_iff = bool_iff }

instance abbrev pub option_eq {ℓ} : {A : Type ℓ} ⦃e : Eq A⦄ → Eq (Option A)
option_eq ⦃e⦄ = record { same = equal_options; same_iff = option_iff }

instance abbrev pub list_eq {ℓ} : {A : Type ℓ} ⦃e : Eq A⦄ → Eq (List A)
list_eq ⦃e⦄ = record { same = equal_lists; same_iff = list_iff }

instance abbrev pub pair_eq {ℓ κ} : {A : Type ℓ} {B : Type κ} ⦃e : Eq A⦄ ⦃f : Eq B⦄ → Eq (A × B)
pair_eq ⦃e⦄ ⦃f⦄ = record { same = equal_pairs; same_iff = pair_iff }
