-- ===== src/Common/SortLaws.antt =====
-- When a stable sort forgets the order of its input.
use Prim.Native.String.{String, [], ◌∷◌}
use mathlib.Core.Bool.{Bool, true}
use mathlib.Core.Logic.{◌⊎◌, inl, inr}
use mathlib.Core.List.{List, ◌++◌}
use mathlib.Core.List.{Permᴰ}
use mathlib.Core.Path.{◌≡◌, refl, sym, ap, ◌∙◌}
use native.Mathlib.Omega.{arith}
use text.Mathlib.TextEquality.{Char-path}
use balena_supervisor.Common.Tests.{Bool-cases}
use balena_supervisor.Common.Lists.{All}
use balena_supervisor.Common.Texts.{text_leb}
use balena_supervisor.Common.Sort.{insert_by, sort_by, insert_by-All, sort_by-All}

module _ {A : Type 0} (le : A → A → Bool) (le_total : (x y : A) → (le x y ≡ true) ⊎ (le y x ≡ true))
    (le_trans : (x y z : A) → le x y ≡ true → le y z ≡ true → le x z ≡ true) where
  -- Two elements that are equal where neither is below the other.
  abbrev pub Separated : A → A → Type 0
  Separated x y = le x y ≡ true → le y x ≡ true → x ≡ y

  -- The order in which two such elements are put in does not matter.
  pub insert_by_comm :
      (x y : A) (l : List A)
      → Separated x y
      → insert_by le x (insert_by le y l) ≡ insert_by le y (insert_by le x l)
  unfolding insert_by
  insert_by_comm x y List.[] h = ground (arith, le_total x y)
  insert_by_comm x y (List.◌∷◌ z l) h =
      ground (arith, le_total x y, le_trans x y z, le_trans y x z, insert_by_comm x y l h)

  -- An element can be put in before those that stand in front of it.
  pub sort_by-middle :
      (x : A) (xs ys : List A)
      → All (Separated x) xs
      → sort_by le (xs ++ List.◌∷◌ x ys) ≡ insert_by le x (sort_by le (xs ++ ys))
  unfolding sort_by
  sort_by-middle x List.[] ys h = refl
  sort_by-middle x (List.◌∷◌ z xs) ys (s, h) =
      ap (insert_by le z) (sort_by-middle x xs ys h)
      ∙ sym (insert_by_comm x z (sort_by le (xs ++ ys)) s)

  -- Every two elements of the list are separated.
  abbrev pub AreSeparated : List A → Type 0
  AreSeparated List.[] = Unit
  AreSeparated (List.◌∷◌ x xs) = All (Separated x) xs × AreSeparated xs

  module _ (other : A → A → Bool) where
    insert_by-AreSeparated :
        (x : A) (ys : List A)
        → All (Separated x) ys
        → AreSeparated ys
        → AreSeparated (insert_by other x ys)
    unfolding insert_by
    insert_by-AreSeparated x List.[] h k = (tt, tt)
    insert_by-AreSeparated x (List.◌∷◌ y ys) (s, h) (t, k) = elim (Bool-cases (other x y)) [
      | inl e ↦ rw (e, insert_by) (((s, h), (t, k)))
      | inr e ↦
          rw (e, insert_by)
            (
              insert_by-All other (Separated y) x ys (λ a b. sym (s b a)) t,
              insert_by-AreSeparated x ys h k,
            )
    ]

    pub sort_by-AreSeparated : (xs : List A) → AreSeparated xs → AreSeparated (sort_by other xs)
    unfolding sort_by
    sort_by-AreSeparated List.[] h = tt
    sort_by-AreSeparated (List.◌∷◌ x xs) (s, h) =
        insert_by-AreSeparated x (sort_by other xs) (sort_by-All other (Separated x) xs s)
          (sort_by-AreSeparated xs h)

    sort_by-insert_by :
        (x : A) (ys : List A)
        → All (Separated x) ys
        → sort_by le (insert_by other x ys) ≡ insert_by le x (sort_by le ys)
    unfolding sort_by insert_by
    sort_by-insert_by x List.[] h = refl
    sort_by-insert_by x (List.◌∷◌ y ys) (s, h) = elim (Bool-cases (other x y)) [
      | inl e ↦ rw (e, insert_by) refl
      | inr e ↦
          rw (e, insert_by)
            (ap (insert_by le y) (sort_by-insert_by x ys h)
              ∙ sym (insert_by_comm x y (sort_by le ys) s))
    ]

    -- An earlier sort by another order is forgotten.
    pub sort_by_twice :
        (xs : List A) → AreSeparated xs → sort_by le (sort_by other xs) ≡ sort_by le xs
    unfolding sort_by
    sort_by_twice List.[] h = refl
    sort_by_twice (List.◌∷◌ x xs) (s, h) =
        sort_by-insert_by x (sort_by other xs) (sort_by-All other (Separated x) xs s)
        ∙ ap (insert_by le x) (sort_by_twice xs h)

  module _ (all_separated : (x y : A) → Separated x y) where
    pub sort_by-Permᴰ : {xs ys : List A} → Permᴰ xs ys → sort_by le xs ≡ sort_by le ys
    unfolding sort_by
    sort_by-Permᴰ Permᴰ.nil = refl
    sort_by-Permᴰ (Permᴰ.cons {a} {b} {l₁} {l₂} e d) = rw e (ap (insert_by le b) (sort_by-Permᴰ d))
    sort_by-Permᴰ (Permᴰ.swap {a} {b} {a'} {b'} {l} e₁ e₂) =
        rw (e₁, e₂) (insert_by_comm b' a' (sort_by le l) (all_separated b' a'))
    sort_by-Permᴰ (Permᴰ.trans d₁ d₂) = sort_by-Permᴰ d₁ ∙ sort_by-Permᴰ d₂

pub text_leb_total : (s t : String) → (text_leb s t ≡ true) ⊎ (text_leb t s ≡ true)
unfolding text_leb
text_leb_total [] t = inl refl
text_leb_total (c ∷ s) [] = inr refl
text_leb_total (c ∷ s) (d ∷ t) = ground (arith, text_leb_total s t)

pub text_leb_trans :
    (s t u : String) → text_leb s t ≡ true → text_leb t u ≡ true → text_leb s u ≡ true
unfolding text_leb
text_leb_trans [] t u h k = refl
text_leb_trans (c ∷ s) [] u h k = cc
text_leb_trans (c ∷ s) (d ∷ t) [] h k = cc
text_leb_trans (c ∷ s) (d ∷ t) (e ∷ u) h k = ground (arith, text_leb_trans s t u)

pub text_leb_antisym : (s t : String) → text_leb s t ≡ true → text_leb t s ≡ true → s ≡ t
unfolding text_leb
text_leb_antisym [] [] h k = refl
text_leb_antisym [] (d ∷ t) h k = cc
text_leb_antisym (c ∷ s) [] h k = cc
text_leb_antisym (c ∷ s) (d ∷ t) h k = ground (arith, Char-path c d, text_leb_antisym s t)
