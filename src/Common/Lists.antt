-- ===== src/Common/Lists.antt =====
-- Arrays as lists: the methods of JavaScript and lodash that the program calls, and their lemmas.
use Prim.Native.Nat.{ℕ, suc, ◌+◌, ◌≤◌}
use mathlib.Core.Bool.{Bool, true, false, ◌&&◌, ◌||◌}
use mathlib.Core.Logic.{◌⊎◌, inl, inr}
use mathlib.Core.Option.{Option, none, some}
use mathlib.Core.List.{List, [], ◌∷◌, ◌++◌, map, flat_map}
use mathlib.Core.Path.{◌≡◌, refl}
use native.Mathlib.Omega.{arith}
use balena_supervisor.Common.Tests.{if◌then◌else◌, Bool-cases}

module _ {ℓ} {A : Type ℓ} where
  abbrev pub length : List A → ℕ
  length [] = 0
  length (x ∷ xs) = suc (length xs)

  abbrev pub is_empty : List A → Bool
  is_empty [] = true
  is_empty (x ∷ xs) = false

  -- xs.some(p)
  abbrev pub any : (A → Bool) → List A → Bool
  any p [] = false
  any p (x ∷ xs) = p x || any p xs

  -- xs.every(p)
  abbrev pub every : (A → Bool) → List A → Bool
  every p [] = true
  every p (x ∷ xs) = p x && every p xs

  -- xs.filter(p)
  abbrev pub filter : (A → Bool) → List A → List A
  filter p [] = []
  filter p (x ∷ xs) = let rest = filter p xs in if p x then x ∷ rest else rest

  -- xs.find(p)
  abbrev pub find : (A → Bool) → List A → Option A
  find p [] = none
  find p (x ∷ xs) = let rest = find p xs in if p x then some x else rest

  -- the values that are not null
  abbrev pub compact : List (Option A) → List A
  compact [] = []
  compact (none ∷ xs) = compact xs
  compact (some x ∷ xs) = x ∷ compact xs

  -- P holds of each element
  abbrev pub All {κ} : (A → Type κ) → List A → Type κ
  All P [] = Unit
  All P (x ∷ xs) = P x × All P xs

  -- P holds of some element
  abbrev pub Any : (A → Type 0) → List A → Type 0
  Any P [] = ⊥
  Any P (x ∷ xs) = P x ⊎ Any P xs

module _ {ℓ κ} {A : Type ℓ} (P : A → Type κ) where
  pub All-append : (xs ys : List A) → All P xs → All P ys → All P (xs ++ ys)
  All-append [] ys hx hy = hy
  All-append (x ∷ xs) ys (p, hx) hy = (p, All-append xs ys hx hy)

  pub All-filter : (p : A → Bool) (xs : List A) → All P xs → All P (filter p xs)
  All-filter p [] h = tt
  All-filter p (x ∷ xs) (px, h) = ground (arith, All-filter p xs h)

  -- what a filter keeps passes its test
  pub All-filter_self :
      (p : A → Bool) → ((x : A) → p x ≡ true → P x) → (xs : List A) → All P (filter p xs)
  All-filter_self p k [] = tt
  All-filter_self p k (x ∷ xs) = elim (Bool-cases (p x)) [
    | inl e ↦ rw e (k x e, All-filter_self p k xs)
    | inr e ↦ rw e (All-filter_self p k xs)
  ]

  pub All_intro : ((x : A) → P x) → (xs : List A) → All P xs
  All_intro k [] = tt
  All_intro k (x ∷ xs) = (k x, All_intro k xs)

  pub All_imp {μ} : (Q : A → Type μ) → ((x : A) → P x → Q x) → (xs : List A) → All P xs → All Q xs
  All_imp Q k [] h = tt
  All_imp Q k (x ∷ xs) (p, h) = (k x p, All_imp Q k xs h)

-- What holds of the results of `f` holds of the list that is built from them.
module _ {ℓ κ μ} {A : Type ℓ} {B : Type κ} (P : B → Type μ) where
  pub All-map : (f : A → B) → ((x : A) → P (f x)) → (xs : List A) → All P (map f xs)
  All-map f k [] = tt
  All-map f k (x ∷ xs) = (k x, All-map f k xs)

  pub All-flat_map :
      (f : A → List B) → ((x : A) → All P (f x)) → (xs : List A) → All P (flat_map f xs)
  unfolding flat_map
  All-flat_map f k [] = tt
  All-flat_map f k (x ∷ xs) = All-append P (f x) (flat_map f xs) (k x) (All-flat_map f k xs)

module _ {ℓ} {A : Type ℓ} (p : A → Bool) where
  pub find-eq-some : (xs : List A) (x : A) → find p xs ≡ some x → p x ≡ true
  find-eq-some [] x h = cc
  find-eq-some (y ∷ ys) x h = elim (Bool-cases (p y)) [
    | inl e ↦ let same : some y ≡ some x = rw (e, if◌then◌else◌) at h in ground arith
    | inr e ↦ find-eq-some ys x (ground arith)
  ]

  pub any-eq-false : (xs : List A) → any p xs ≡ false → All (λ x. p x ≡ false) xs
  any-eq-false [] h = tt
  any-eq-false (x ∷ xs) h = (ground arith, any-eq-false xs (ground arith))

  pub any-eq-true : (xs : List A) → any p xs ≡ true → Any (λ x. p x ≡ true) xs
  any-eq-true [] h = cc
  any-eq-true (x ∷ xs) h = elim (Bool-cases (p x)) [
    | inl e ↦ inl e
    | inr e ↦ inr (any-eq-true xs (ground arith))
  ]

  pub every-eq-true : (xs : List A) → every p xs ≡ true → All (λ x. p x ≡ true) xs
  every-eq-true [] h = tt
  every-eq-true (x ∷ xs) h = (ground arith, every-eq-true xs (ground arith))

  pub every_of_All : (xs : List A) → All (λ x. p x ≡ true) xs → every p xs ≡ true
  every_of_All [] h = refl
  every_of_All (x ∷ xs) (e, h) = rw e (every_of_All xs h)

  pub length-filter-le : (xs : List A) → length (filter p xs) ≤ length xs
  length-filter-le [] = omega arith
  length-filter-le (x ∷ xs) = ground (arith, length-filter-le xs)

module _ {ℓ} {A : Type ℓ} where
  pub length-append : (xs ys : List A) → length (xs ++ ys) ≡ length xs + length ys
  length-append [] ys = omega arith
  length-append (x ∷ xs) ys = omega (arith, length-append xs ys)

  pub is_empty_iff : (xs : List A) → is_empty xs ≡ true → xs ≡ []
  is_empty_iff [] h = refl
  is_empty_iff (x ∷ xs) h = cc

  pub append-eq-nil : (xs ys : List A) → xs ++ ys ≡ [] → (xs ≡ []) × (ys ≡ [])
  append-eq-nil [] ys h = (refl, h)
  append-eq-nil (x ∷ xs) ys h = cc
