-- ===== src/Compose/Utils/Arrays.antt =====
-- compose/utils.ts: the comparison of the fields of a configuration that hold arrays.
use mathlib.Core.List.{Perm}
use mathlib.Core.List.Perm
use mathlib.Core.Logic.{∥∥₁_elim}
use balena_supervisor.Common.{String, Bool, true, false, List, [], ◌∷◌, ◌≡◌, ◌↔◌, if◌then◌else◌}
use balena_supervisor.Common.Texts.{text_leb}
use balena_supervisor.Common.Sort.{sort_by, sort_by-Perm}
use balena_supervisor.Common.SortLaws.{
  sort_by-Permᴰ, text_leb_total, text_leb_trans, text_leb_antisym,
}
use balena_supervisor.Common.Equality.{
  Eq, is_equal, eq_of_is_equal, is_equal_self, string_eq, list_eq,
}

-- the order of _.sortBy, which compares what the elements read as
abbrev pub by_text {ℓ} : {A : Type ℓ} → (A → String) → A → A → Bool
by_text text x y = text_leb (text x) (text y)

module _ {A : Type 0} ⦃e : Eq A⦄ (text : A → String) where
  unfoldable pub compare_array_field : List A → List A → Bool → Bool
  compare_array_field xs ys true = is_equal xs ys
  compare_array_field xs ys false = is_equal (sort_by (by_text text) xs) (sort_by (by_text text) ys)

  pub compare_array_field_self :
      (xs : List A) (ordered : Bool) → compare_array_field xs xs ordered ≡ true
  unfolding compare_array_field
  compare_array_field_self xs true = is_equal_self xs
  compare_array_field_self xs false = is_equal_self (sort_by (by_text text) xs)

-- Arrays of strings, in fields whose order does not count, are equal exactly when one is a
-- permutation of the other.
pub compare_array_field-Perm :
    (xs ys : List String) → (compare_array_field (λ s. s) xs ys false ≡ true) ↔ Perm xs ys
unfolding compare_array_field
compare_array_field-Perm xs ys = (
  λ h. Perm.trans (Perm.symm (sort_by-Perm text_leb xs)) (
      rw (eq_of_is_equal (sort_by text_leb xs) (sort_by text_leb ys) h) (sort_by-Perm text_leb ys)),
  λ p. ∥∥₁_elim p (hlevel) (λ d.
      rw (sort_by-Permᴰ text_leb text_leb_total text_leb_trans text_leb_antisym d)
        (is_equal_self (sort_by text_leb ys))),
)

-- a field and the two arrays that it holds
pub record ArrayField : Type 0 where
  pub field : String
  pub same : Bool

-- `equal` and `difference`, the fields that differ
unfoldable pub compare_array_fields : List ArrayField → Bool × List String
compare_array_fields [] = (true, [])
compare_array_fields (f ∷ fields) =
    let (equal, difference) = compare_array_fields fields in
    if f.same then (equal, difference) else (false, f.field ∷ difference)
