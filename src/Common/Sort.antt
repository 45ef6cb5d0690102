-- ===== src/Common/Sort.antt =====
-- lodash's sortBy: a stable sort.
use mathlib.Core.Bool.{Bool, true, false}
use mathlib.Core.Logic.{◌⊎◌, inl, inr}
use mathlib.Core.List.{List, [], ◌∷◌}
use mathlib.Core.List.Perm
use mathlib.Core.List.{Perm}
use mathlib.Core.Path.{◌≡◌, refl}
use balena_supervisor.Common.Tests.{Bool-cases}
use balena_supervisor.Common.Lists.{All, Any}

module _ {A : Type 0} (le : A → A → Bool) where
  -- x before the first element that it is not above
  unfoldable pub insert_by : A → List A → List A
  insert_by x [] = x ∷ []
  insert_by x (y ∷ ys) = elim (le x y) [ true ↦ x ∷ y ∷ ys | false ↦ y ∷ insert_by x ys ]

  unfoldable pub sort_by : List A → List A
  unfolding insert_by
  sort_by [] = []
  sort_by (x ∷ xs) = insert_by x (sort_by xs)

  insert_by-Perm : (x : A) (ys : List A) → Perm (insert_by x ys) (x ∷ ys)
  unfolding insert_by
  insert_by-Perm x [] = Perm.refl (x ∷ [])
  insert_by-Perm x (y ∷ ys) = elim (Bool-cases (le x y)) [
    | inl e ↦ rw (e, insert_by) (Perm.refl (x ∷ y ∷ ys))
    | inr e ↦ rw (e, insert_by) (Perm.trans (Perm.cons y (insert_by-Perm x ys)) (Perm.swap x y ys))
  ]

  pub sort_by-Perm : (xs : List A) → Perm (sort_by xs) xs
  unfolding sort_by
  sort_by-Perm [] = Perm.refl []
  sort_by-Perm (x ∷ xs) = Perm.trans (insert_by-Perm x (sort_by xs)) (Perm.cons x (sort_by-Perm xs))

  pub insert_by-All :
      (P : A → Type 0) (x : A) (ys : List A) → P x → All P ys → All P (insert_by x ys)
  unfolding insert_by
  insert_by-All P x [] p h = (p, tt)
  insert_by-All P x (y ∷ ys) p (q, h) = elim (Bool-cases (le x y)) [
    | inl e ↦ rw (e, insert_by) (p, (q, h))
    | inr e ↦ rw (e, insert_by) (q, insert_by-All P x ys p h)
  ]

  pub sort_by-All : (P : A → Type 0) (xs : List A) → All P xs → All P (sort_by xs)
  unfolding sort_by
  sort_by-All P [] h = tt
  sort_by-All P (x ∷ xs) (p, h) = insert_by-All P x (sort_by xs) p (sort_by-All P xs h)

  insert_by-Any : (P : A → Type 0) (x : A) (ys : List A) → P x ⊎ Any P ys → Any P (insert_by x ys)
  unfolding insert_by
  insert_by-Any P x [] h = h
  insert_by-Any P x (y ∷ ys) h = elim (Bool-cases (le x y)) [
    | inl e ↦ rw (e, insert_by) h
    | inr e ↦
        let rest = insert_by-Any P x ys in
        rw (e, insert_by)
          (elim h [
            | inl p ↦ inr (rest (inl p))
            | inr (inl q) ↦ inl q
            | inr (inr q) ↦ inr (rest (inr q))
          ])
  ]

  pub sort_by-Any : (P : A → Type 0) (xs : List A) → Any P xs → Any P (sort_by xs)
  unfolding sort_by
  sort_by-Any P [] h = h
  sort_by-Any P (x ∷ xs) (inl p) = insert_by-Any P x (sort_by xs) (inl p)
  sort_by-Any P (x ∷ xs) (inr h) = insert_by-Any P x (sort_by xs) (inr (sort_by-Any P xs h))

  pub insert_by-nil : (x : A) → insert_by x [] ≡ x ∷ []
  unfolding insert_by
  insert_by-nil x = refl

  -- an element that is not above the first one stays in front
  pub insert_by-first : (x y : A) (ys : List A) → le x y ≡ true → insert_by x (y ∷ ys) ≡ x ∷ y ∷ ys
  unfolding insert_by
  insert_by-first x y ys e = rw (e, insert_by) refl
