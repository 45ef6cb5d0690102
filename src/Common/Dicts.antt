-- ===== src/Common/Dicts.antt =====
-- Objects that serve as dictionaries: association lists in the order of insertion.
use Prim.Native.String.{String}
use mathlib.Core.Bool.{Bool, true, false, ◌&&◌, ◌||◌}
use mathlib.Core.Option.{Option, none, some}
use mathlib.Core.List.{List, [], ◌∷◌, ◌++◌, append-nil, append_assoc}
use mathlib.Core.Path.{◌≡◌, refl, sym, ◌∙◌}
use native.Mathlib.Omega.{arith}
use text.Mathlib.Text.{◌==◌ as str_eq}
use text.Mathlib.TextEquality.{eq_iff}
use balena_supervisor.Common.Tests.{◌==◌, if◌then◌else◌}
use balena_supervisor.Common.Lists.{length, every, All}
use balena_supervisor.Common.Options.{some_and}
use balena_supervisor.Common.Equality.{Eq, is_equal_self}

abbrev pub Dict {ℓ} : Type ℓ → Type ℓ
Dict V = List (String × V)

module _ {ℓ} {V : Type ℓ} where
  -- d[key]
  unfoldable pub lookup : String → Dict V → Option V
  lookup key [] = none
  lookup key ((k, v) ∷ d) = if str_eq k key then some v else lookup key d

  -- d[key] = value
  unfoldable pub insert : String → V → Dict V → Dict V
  insert key value [] = (key, value) ∷ []
  insert key value ((k, v) ∷ d) =
      if str_eq k key then (key, value) ∷ d else (k, v) ∷ insert key value d

  -- delete d[key]
  unfoldable pub remove : String → Dict V → Dict V
  remove key [] = []
  remove key ((k, v) ∷ d) = let rest = remove key d in if str_eq k key then rest else (k, v) ∷ rest

  -- key in d
  unfoldable pub has_key : String → Dict V → Bool
  has_key key [] = false
  has_key key ((k, v) ∷ d) = str_eq k key || has_key key d

  -- No key stands twice, which holds of every object.
  abbrev pub IsDict : Dict V → Type 0
  IsDict [] = Unit
  IsDict ((k, v) ∷ d) = (has_key k d ≡ false) × IsDict d

  pub lookup-insert :
      (key k : String) (value : V) (d : Dict V)
      → lookup key (insert k value d) ≡ (if str_eq k key then some value else lookup key d)
  unfolding lookup insert
  lookup-insert key k value [] = refl
  lookup-insert key k value ((j, v) ∷ d) =
      ground
        (arith, eq_iff key k, eq_iff k key, eq_iff j k, eq_iff j key, lookup-insert key k value d)

  pub lookup-remove :
      (key k : String) (d : Dict V)
      → lookup key (remove k d) ≡ (if str_eq k key then none else lookup key d)
  unfolding lookup remove
  lookup-remove key k [] = ground arith
  lookup-remove key k ((j, v) ∷ d) =
      ground (arith, eq_iff key k, eq_iff k key, eq_iff j k, eq_iff j key, lookup-remove key k d)

module _ {ℓ} {V : Type ℓ} where
  -- Object.assign(d, e), and _.fromPairs(e) for an empty d: a later value replaces an earlier one
  unfoldable pub assign : Dict V → Dict V → Dict V
  unfolding insert
  assign d [] = d
  assign d ((k, v) ∷ e) = assign (insert k v d) e

  -- No key of `e` stands in `d`.
  abbrev pub Apart : Dict V → Dict V → Type 0
  Apart d e = All (λ (k, v). has_key k d ≡ false) e

  insert-new :
      (k : String) (v : V) (d : Dict V) → has_key k d ≡ false → insert k v d ≡ d ++ (k, v) ∷ []
  unfolding insert has_key
  insert-new k v [] h = refl
  insert-new k v ((j, w) ∷ d) h = ground (arith, insert-new k v d)

  has_key-append : (k : String) (d e : Dict V) → has_key k (d ++ e) ≡ (has_key k d || has_key k e)
  unfolding has_key
  has_key-append k [] e = refl
  has_key-append k ((j, w) ∷ d) e = ground (arith, has_key-append k d e)

  Apart-snoc :
      (k : String) (v : V) (d e : Dict V)
      → has_key k e ≡ false
      → Apart d e
      → Apart (d ++ (k, v) ∷ []) e
  unfolding has_key
  Apart-snoc k v d [] f h = tt
  Apart-snoc k v d ((j, w) ∷ e) f (n, h) = (
    rw (has_key-append j d ((k, v) ∷ []), n) (ground (arith, eq_iff j k, eq_iff k j)),
    Apart-snoc k v d e (ground arith) h,
  )

  -- New keys are put behind those that are there.
  pub assign-Apart : (d e : Dict V) → IsDict e → Apart d e → assign d e ≡ d ++ e
  unfolding assign
  assign-Apart d [] u h = sym (append-nil d)
  assign-Apart d ((k, v) ∷ e) (fresh, u) (n, h) = rw (insert-new k v d n) (
      assign-Apart (d ++ (k, v) ∷ []) e u (Apart-snoc k v d e fresh h)
      ∙ append_assoc d ((k, v) ∷ []) e)

  no_keys : (e : Dict V) → Apart [] e
  unfolding has_key
  no_keys [] = tt
  no_keys ((k, v) ∷ e) = (refl, no_keys e)

  pub assign-nil : (e : Dict V) → IsDict e → assign [] e ≡ e
  assign-nil e u = assign-Apart [] e u (no_keys e)

module _ {ℓ} {V : Type ℓ} ⦃e : Eq V⦄ where
  -- lodash's isEqual of two dictionaries: as many keys, and the same value under each
  unfoldable pub same_entries : Dict V → Dict V → Bool
  unfolding lookup
  same_entries a b = length a == length b && every (λ (k, v). some_and (lookup k b) (e.same v)) a

  -- the entries of `a` are those of a dictionary that has further ones before them
  every-skip :
      (k : String) (v : V) (a d : Dict V)
      → has_key k a ≡ false
      → every (λ (j, w). some_and (lookup j d) (e.same w)) a ≡ true
      → every (λ (j, w). some_and (lookup j ((k, v) ∷ d)) (e.same w)) a ≡ true
  unfolding lookup has_key
  every-skip k v [] d h all = refl
  every-skip k v ((j, w) ∷ a) d h all = ground (arith, eq_iff k j, eq_iff j k, every-skip k v a d)

  every_self : (a : Dict V) → IsDict a → every (λ (k, v). some_and (lookup k a) (e.same v)) a ≡ true
  unfolding lookup
  every_self [] h = refl
  every_self ((k, v) ∷ a) (fresh, h) =
      rw (eq_iff_self k, is_equal_self v, every-skip k v a a fresh (every_self a h)) refl
    where
      eq_iff_self : (s : String) → str_eq s s ≡ true
      eq_iff_self s = (eq_iff s s).1 refl

  pub same_entries_self : (a : Dict V) → IsDict a → same_entries a a ≡ true
  unfolding same_entries
  same_entries_self a h = rw (every_self a h) (ground arith)
